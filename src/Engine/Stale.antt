-- ===== src/Engine/Stale.antt =====
-- internal/controller/engine/stale.go: agents without a heartbeat for some time go offline.
use encodeswarmr.Prelude.{
  ℕ, ◌+◌, ◌≡◌, refl, Bool, true, false, List, [], ◌∷◌, arith, count_if, update_where, inl, inr,
  Bool-cases,
}
use encodeswarmr.Db.Types.{Agent, AgentStatus, Db, is_agent_status}
use encodeswarmr.Db.Agents.{mark_stale_agents, is_stale, with_agent_status}
use encodeswarmr.Exec.{Exec, pure, call, ◌>>=◌, ok}

unfoldable pub check_stale_agents : ℕ → Exec (Unit {0})
check_stale_agents threshold = do n ← call (mark_stale_agents threshold); pure tt

abbrev pub is_offline : Agent → Bool
is_offline a = is_agent_status a.status AgentStatus.offline

stale-not_offline : (k now : ℕ) (a : Agent) → is_stale k now a ≡ true → is_offline a ≡ false
unfolding is_stale
stale-not_offline k now a h = ground arith

offline-not_stale :
    (k now : ℕ) (a : Agent) → is_stale k now (with_agent_status AgentStatus.offline a) ≡ false
unfolding is_stale
offline-not_stale k now a = refl

-- Both counts, over the rows of the table.
counts_after :
    (k now : ℕ) (as' : List Agent)
    → let after = update_where (is_stale k now) (with_agent_status AgentStatus.offline) as' in
      (count_if (is_stale k now) after ≡ 0)
      × (count_if is_offline after ≡ count_if is_offline as' + count_if (is_stale k now) as')
unfolding count_if update_where
counts_after k now [] = (refl, omega arith)
counts_after k now (a ∷ as') = elim (Bool-cases (is_stale k now a)) [
  | inl e ↦
      rw (e, offline-not_stale k now a, stale-not_offline k now a e)
        (omega (arith, counts_after k now as'))
  | inr e ↦ rw (e, e) (ground (arith, counts_after k now as'))
]

-- MarkStaleAgents leaves no idle or busy agent whose last heartbeat is older than the threshold,
-- and reports the number by which the offline agents have become more.
pub mark_stale_agents-clears :
    (k now : ℕ) (db : Db)
    → (n : ℕ) × ((mark_stale_agents k now db).0 ≡ ok n)
      × (count_if (is_stale k now) (mark_stale_agents k now db).1.agents ≡ 0)
      × (count_if is_offline (mark_stale_agents k now db).1.agents
          ≡ count_if is_offline db.agents + n)
unfolding mark_stale_agents
mark_stale_agents-clears k now db =
    let (a, b) = counts_after k now db.agents in (count_if (is_stale k now) db.agents, refl, a, b)
