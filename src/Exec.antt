-- ===== src/Exec.antt =====
-- The setting that a handler of the controller runs in: the database, the clock, the events sent to
-- the webhook service and the goroutines started. A call of the store may fail for a reason outside
-- the program (a lost connection): `faults` says which of the coming calls do, and a failed call
-- changes nothing. The clock stands still while a handler runs.
pub mod Keeps
pub mod Quiet
pub mod Inversion
use encodeswarmr.Prelude.{ℕ, ℤ, String, Bool, true, false, List, [], ◌∷◌, ◌++◌, Option, none, some}
use encodeswarmr.Db.Types.{RowId, Db, JobStatus}
use encodeswarmr.Engine.Json.{Config}

-- The errors that the code tells apart; `check_violation` is a CHECK or a NOT NULL constraint, `out_of_range` a number that
-- the type of a column does not hold, and
-- `internal` is a gRPC status made of another error.
pub data Err : Type 0 where
  not_found store_fault check_violation unique_violation foreign_key_violation scan_mismatch
        out_of_range :
      Err
  invalid_argument internal unavailable : Err

pub data Result {ℓ} (A : Type ℓ) : Type ℓ where
  ok : A → Result A
  err : Err → Result A

-- A webhook event: "job.completed" and its kind, with the counters of its payload, and
-- "agent.registered", with the agent, its name and whether it is approved; and the event of a node
-- of a flow, with its type, job, source, flow, node, source path and configuration.
pub data Event : Type 0 where
  job_event : JobStatus → RowId → ℕ → ℕ → Event
  agent_registered : RowId → String → Bool → Event
  flow_event : String → RowId → RowId → RowId → RowId → String → Config → Event

-- A goroutine that a handler starts, with the values that it captures.
pub data Goroutine : Type 0 where
  run_concat : RowId → RowId → List String → String → Goroutine
  run_vmaf_target : RowId → RowId → Goroutine
  run_analysis : RowId → Goroutine

pub record World : Type 0 where
  pub db : Db
  pub now : ℕ
  pub faults : List Bool
  pub events : List Event
  pub goroutines : List Goroutine

-- The same world, in which no call of the store fails.
abbrev pub answering : World → World
answering w = record w { faults = [] }

abbrev pub Exec {ℓ} : Type ℓ → Type ℓ
Exec A = World → Result A × World

-- A statement of the store: it reads the clock, and changes the tables.
abbrev pub Stmt {ℓ} : Type ℓ → Type ℓ
Stmt A = ℕ → Db → Result A × Db

module _ {ℓ} {A : Type ℓ} where
  unfoldable pub pure : A → Exec A
  pure a w = (ok a, w)

  unfoldable pub raise : Err → Exec A
  raise e w = (err e, w)

  abbrev pub perform : Stmt A → World → Result A × World
  perform s w = let (r, db') = s w.now w.db in (r, record w { db = db' })

  abbrev pub attempt_with : Stmt A → List Bool → World → Result A × World
  attempt_with s [] w = perform s w
  attempt_with s (true ∷ rest) w = (err store_fault, record w { faults = rest })
  attempt_with s (false ∷ rest) w = perform s (record w { faults = rest })

  -- One call of the store.
  unfoldable pub call : Stmt A → Exec A
  call s w = attempt_with s w.faults w

  -- `if err := m; err != nil { ... }`: the error as a value.
  unfoldable pub catch : Exec A → Exec (Result A)
  catch m w = let (r, w') = m w in (ok r, w')

  abbrev pub map_err : Result A → Result A
  map_err (ok a) = ok a
  map_err (err e) = err internal

  -- `return status.Errorf(codes.Internal, ...)` in case of an error.
  unfoldable pub or_internal : Exec A → Exec A
  or_internal m w = let (r, w') = m w in (map_err r, w')

  -- `_ = m`: the error is dropped, or only logged.
  unfoldable pub ignore : Exec A → Exec (Unit {0})
  ignore m w = (ok tt, (m w).1)

module _ {ℓ} {A : Type ℓ} where
  abbrev pub clean_up : Result A → Exec (Unit {0}) → World → Result A × World
  clean_up (ok a) c w = (ok a, w)
  clean_up (err e) c w = (err e, (c w).1)

  -- `if err != nil { return failJob(err) }`: an error passes on after the clean-up.
  unfoldable pub or_fail : Exec A → Exec (Unit {0}) → Exec A
  or_fail m c w = let (r, w') = m w in clean_up r c w'

  -- Something outside the store that may fail.
  unfoldable pub outside : Option A → Exec A
  outside none w = (err internal, w)
  outside (some a) w = (ok a, w)

unfoldable pub emit : Event → Exec (Unit {0})
emit e w = (ok tt, record w { events = e ∷ w.events })

unfoldable pub spawn : Goroutine → Exec (Unit {0})
spawn g w = (ok tt, record w { goroutines = g ∷ w.goroutines })

module _ {ℓ κ} {A : Type ℓ} {B : Type κ} where
  abbrev pub continue : Result A → (A → Exec B) → Exec B
  continue (ok a) f w = f a w
  continue (err e) f w = (err e, w)

  infixl 10 ◌>>=◌ ◌>>◌
  unfoldable pub ◌>>=◌ : Exec A → (A → Exec B) → Exec B
  ◌>>=◌ m f w = let (r, w') = m w in continue r f w'

  abbrev pub ◌>>◌ : Exec A → Exec B → Exec B
  m >> k = m >>= λ _. k
