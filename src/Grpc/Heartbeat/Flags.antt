-- ===== src/Grpc/Heartbeat/Flags.antt =====
-- What a heartbeat does to the status of the agent, and what it answers.
use encodeswarmr.Prelude.{
  ℕ, ◌≡◌, refl, ap, ◌∙◌, inl, inr, true, false, List, [], ◌∷◌, some, arith, ◌==◌, Bool-cases,
  any_of, find_first, update_where,
}
use encodeswarmr.Db.Types.{RowId, no_id, Agent, AgentStatus, Db}
use encodeswarmr.Db.Agents.{
  has_agent_id, with_heartbeat, update_agent_heartbeat, update_agent_or_missing, get_agent_by_id,
}
use encodeswarmr.Exec.{World, Result, ok, raise, call, pure, ◌>>=◌}
use encodeswarmr.Exec.Inversion.{call-ok, >>=-ok}
use encodeswarmr.Grpc.Heartbeat.{
  AgentState, HeartbeatResp, map_agent_state, flags_of, reply_flags, heartbeat,
}

-- The row that is read back after the update.
find-updated :
    (id now : ℕ) (s : AgentStatus) (as' : List Agent)
    → any_of (has_agent_id id) as' ≡ true
    → (a : Agent) × (find_first
          (has_agent_id id)
          (update_where (has_agent_id id) (with_heartbeat s now) as')
        ≡ some a)
      × (a.status ≡ s)
unfolding any_of find_first update_where
find-updated id now s [] h = absurd (ground arith)
find-updated id now s (b ∷ bs) h = elim (Bool-cases (has_agent_id id b)) [
  | inl e ↦ (with_heartbeat s now b, (rw (e, e) refl), refl)
  | inr e ↦ rw (e, e) (find-updated id now s bs (ground arith))
]

-- The statement of a heartbeat that finds a row, and the row that is read back.
updated_row :
    (id now : ℕ) (s : AgentStatus) (db : Db)
    → (update_agent_heartbeat id s now db).0 ≡ ok tt
    → (a : Agent) × (find_first (has_agent_id id) (update_agent_heartbeat id s now db).1.agents
        ≡ some a)
      × (a.status ≡ s)
unfolding update_agent_heartbeat update_agent_or_missing
updated_row id now s db h = elim (Bool-cases (any_of (has_agent_id id) db.agents)) [
  | inl e ↦ rw e (find-updated id now s db.agents e)
  | inr e ↦ absurd (ground (arith, e))
]

read-found :
    (id now : ℕ) (db : Db) {a b : Agent}
    → find_first (has_agent_id id) db.agents ≡ some b
    → (get_agent_by_id id now db).0 ≡ ok a
    → a ≡ b
unfolding get_agent_by_id
read-found id now db f h = ground arith

read-db : (id now : ℕ) (db : Db) → (get_agent_by_id id now db).1 ≡ db
unfolding get_agent_by_id
read-db id now db = refl

flags_down :
    (a : Agent) (now : ℕ) (s : AgentState)
    → a.status ≡ map_agent_state s
    → ((flags_of a now).drain ≡ false) × ((flags_of a now).disabled ≡ false)
unfolding map_agent_state
flags_down a now AgentState.idle h = rw h (refl, refl)
flags_down a now AgentState.busy h = rw h (refl, refl)
flags_down a now AgentState.draining h = rw h (refl, refl)
flags_down a now AgentState.offline h = rw h (refl, refl)
flags_down a now AgentState.unspecified h = rw h (refl, refl)

-- The part of a heartbeat behind the check of the identifier.
heartbeat_body :
    (id : RowId) (st : AgentState) (w : World) {r : HeartbeatResp}
    → let m = call (update_agent_heartbeat id (map_agent_state st)) >>= λ _.
        call (get_agent_by_id id) >>= reply_flags in
      (m w).0 ≡ ok r
      → ((a : Agent) × (find_first (has_agent_id id) (m w).1.db.agents ≡ some a)
          × (a.status ≡ map_agent_state st))
        × (r.drain ≡ false)
        × (r.disabled ≡ false)
unfolding pure
heartbeat_body id st w {r} h =
    let update = call (update_agent_heartbeat id (map_agent_state st)) in
    let (u, hu, rest, eu) = >>=-ok update (λ _. call (get_agent_by_id id) >>= reply_flags) w h in
    let (a, ha, done, ea) = >>=-ok (call (get_agent_by_id id)) reply_flags (update w).1 rest in
    let (su, du, tu) = call-ok (update_agent_heartbeat id (map_agent_state st)) w hu in
    let (sa, da, ta) = call-ok (get_agent_by_id id) (update w).1 ha in
    let (b, fb, sb) = updated_row id w.now (map_agent_state st) w.db su in
    let same =
      ap (λ (p : Result HeartbeatResp × World). p.1.db) (eu ∙ ea)
      ∙ da
      ∙ read-db id (update w).1.now (update w).1.db
      ∙ du in
    let e = read-found id (update w).1.now (update w).1.db {a = a} {b = b} (rw du fb) sa in
    let down = flags_down a (call (get_agent_by_id id) (update w).1).1.now st (rw e sb) in
    ((b, (rw same fb), sb), ground (arith, done, down), ground (arith, done, down))

-- A heartbeat that is answered has overwritten the status of the agent's row by the state that the
-- agent reports, whatever it was before (waiting for approval, draining or disabled), and so it
-- never answers that the agent is to drain or is disabled: no other handler runs between its two
-- statements.
pub heartbeat-overwrites :
    (id : RowId) (st : AgentState) (w : World) {r : HeartbeatResp}
    → (heartbeat id st w).0 ≡ ok r
    → ((a : Agent) × (find_first (has_agent_id id) (heartbeat id st w).1.db.agents ≡ some a)
        × (a.status ≡ map_agent_state st))
      × (r.drain ≡ false)
      × (r.disabled ≡ false)
unfolding heartbeat raise
heartbeat-overwrites id st w h = elim (Bool-cases (id == no_id)) [
  | inl e ↦ absurd (ground (arith, e))
  | inr e ↦ rw e (heartbeat_body id st w (rw e at h))
]
