-- ===== src/Tests/Cluster.antt =====
-- The theorems on the election of a leader, with a lock that keeps its session and its count.
use encodeswarmr.Prelude.{
  ℕ, zero, suc, ◌-◌, ◌==◌, ◌≡◌, ◌≢◌, refl, Bool, true, false, Option, none, some, arith,
  if◌then◌else◌,
}
use encodeswarmr.Ha.Advisory.{Locks}
use encodeswarmr.Ha.{Answer, Cluster, try_acquire, begin_release, release}
use encodeswarmr.Ha.Single.{Phase, Nodes, Step, Run, Run-one_leader}
use encodeswarmr.Ha.Release.{attempts, release-hands_over}

-- The session, and how many requests behind the first.
abbrev Lock : Type 0
Lock = Option (ℕ × ℕ)

abbrev held_by : Lock → ℕ → ℕ
held_by none t = 0
held_by (some (u, k)) t = if t == u then suc k else 0

abbrev take : ℕ → Lock → Bool × Lock
take t none = (true, some (t, 0))
take t (some (u, k)) = if t == u then (true, some (u, suc k)) else (false, some (u, k))

abbrev give : ℕ → Lock → Bool × Lock
give t none = (false, none)
give t (some (u, zero)) = if t == u then (true, none) else (false, some (u, zero))
give t (some (u, suc k)) = if t == u then (true, some (u, k)) else (false, some (u, suc k))

take_free : (t : ℕ) (s : Lock) → ((u : ℕ) → u ≢ t → held_by s u ≡ 0) → (take t s).0 ≡ true
take_free t none h = refl
take_free t (some (u, k)) h = ground (arith, h u)

take_taken : (t u : ℕ) (s : Lock) → u ≢ t → held_by s u ≢ 0 → (take t s).0 ≡ false
take_taken t u none d h = ground arith
take_taken t u (some (v, k)) d h = ground arith

take_stacks : (t : ℕ) (s : Lock) → (take t s).0 ≡ true → held_by (take t s).1 t ≡ suc (held_by s t)
take_stacks t none h = ground arith
take_stacks t (some (u, k)) h = ground arith

take_fails : (t : ℕ) (s : Lock) → (take t s).0 ≡ false → held_by (take t s).1 t ≡ held_by s t
take_fails t none h = ground arith
take_fails t (some (u, k)) h = ground arith

take_others : (t u : ℕ) (s : Lock) → u ≢ t → held_by (take t s).1 u ≡ held_by s u
take_others t u none d = ground arith
take_others t u (some (v, k)) d = ground arith

give_one : (t : ℕ) (s : Lock) → held_by (give t s).1 t ≡ held_by s t - 1
give_one t none = refl
give_one t (some (u, zero)) = ground arith
give_one t (some (u, suc k)) = ground arith

give_rest : (t u : ℕ) (s : Lock) → u ≢ t → held_by (give t s).1 u ≡ held_by s u
give_rest t u none d = refl
give_rest t u (some (v, zero)) d = ground arith
give_rest t u (some (v, suc k)) d = ground arith

abbrev one_lock : Locks
one_lock = record {
  S = Lock;
  holds = held_by;
  try_lock = take;
  unlock = give;
  try_free = take_free;
  try_taken = take_taken;
  try_stacks = take_stacks;
  try_fails = take_fails;
  try_others = take_others;
  unlock_one = give_one;
  unlock_others = give_rest;
}

abbrev calm : Cluster one_lock
calm = record { state = none; leads = λ n. false }

-- The sessions from 10 on belong to node 2.
abbrev owner : ℕ → ℕ
owner t = if t == 10 then 2 else 1

abbrev calm_nodes : Nodes one_lock owner
calm_nodes = record { cluster = calm; phase = λ n. Phase.serving }

-- Node 1 becomes the leader and begins to resign, and node 2 becomes the leader before node 1 has
-- cleared its flag.
abbrev overlap : Nodes one_lock owner
overlap =
    let one = try_acquire one_lock 1 3 Answer.answered calm in
    record {
      cluster =
          try_acquire one_lock 2 10 Answer.answered (begin_release one_lock 3 Answer.answered one);
      phase = λ n. if n == 1 then Phase.unlocking Answer.answered else Phase.serving;
    }

abbrev handed_over : Run one_lock owner calm_nodes overlap
unfolding try_acquire
handed_over =
    Run.step
      (Run.step (Run.step Run.start (Step.attempt 3 Answer.answered refl))
        (Step.begin 3 Answer.answered refl refl))
      (Step.attempt 10 Answer.answered refl)

-- Both flags are set.
two_flags : (overlap.cluster.leads 1 ≡ true) × (overlap.cluster.leads 2 ≡ true)
unfolding try_acquire
two_flags = (refl, refl)

Run-one_leader_example : owner 10 ≡ 2
unfolding try_acquire
Run-one_leader_example =
    Run-one_leader one_lock owner handed_over (λ t. refl) (λ n. refl) (owner 10) 2 refl refl refl
      refl

release-hands_over_example :
    (try_acquire one_lock 2 10 Answer.answered
        (release one_lock 1 3 Answer.answered (attempts one_lock 1 3 2 calm))).leads
      2
    ≡ false
release-hands_over_example =
    release-hands_over one_lock 1 2 3 10 1 calm (λ e. omega (arith, e)) (λ v. refl)
