-- ===== src/Scheduler.antt =====
-- internal/controller/scheduler/scheduler.go: jobs by the clock. encoding/json on the template of
-- a job, and the cron library, are parameters; a cron expression that it cannot read is `none`.
pub mod Valid
use encodeswarmr.Prelude.{ℕ, String, List, [], ◌∷◌, Option, none, some}
use encodeswarmr.Db.Types.{Schedule}
use encodeswarmr.Db.Jobs.{CreateJobParams, create_job}
use encodeswarmr.Db.Schedules.{list_due_schedules, mark_schedule_run}
use encodeswarmr.Exec.{Exec, Result, ok, err, pure, call, catch, ignore, outside, ◌>>=◌, ◌>>◌}

pub record Cron : Type 0 where
  pub decode : String → Option CreateJobParams
  -- The next time that an expression names, after the given one.
  pub next_run : String → ℕ → Option ℕ

abbrev pub mark_run : Cron → Schedule → Exec (Unit {0})
mark_run c s w = call (mark_schedule_run s.id w.now (c.next_run s.cron_expr w.now)) w

unfoldable pub fire : Cron → Schedule → Exec (Unit {0})
fire c s = do params ← outside (c.decode s.job_template); job ← create_job params; mark_run c s

-- The errors of the schedules are logged one by one.
unfoldable pub fire_all : Cron → List Schedule → Exec (Unit {0})
unfolding fire
fire_all c [] = pure tt
fire_all c (s ∷ ss) = do ignore (fire c s); fire_all c ss

abbrev pub fire_due : Cron → Result (List Schedule) → Exec (Unit {0})
fire_due c (ok due) = fire_all c due
fire_due c (err e) = pure tt

unfoldable pub tick : Cron → Exec (Unit {0})
unfolding fire_all
tick c = do due ← catch (call list_due_schedules); fire_due c due
