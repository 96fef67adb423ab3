-- ===== src/Grpc/Register/Approval.antt =====
-- Registration and the approval of agents.
use encodeswarmr.Prelude.{
  Bool-cases, inl, inr, ℕ, ◌≡◌, refl, ◌∙◌, Bool, false, not, List, [], ◌∷◌, Option, none, some,
  arith, count_if, count_if-append, update_where,
}
use encodeswarmr.Db.Types.{Agent, Db}
use encodeswarmr.Db.Agents.{
  UpsertAgentParams, fits_integer, named, new_agent, refreshed, upsert_row, upsert_agent,
}
use encodeswarmr.Exec.{World}
use encodeswarmr.Exec.Keeps.{StmtKeeps, Keeps, Keeps-pure, keeps_rules}
use encodeswarmr.Grpc.Server.{Server}
use encodeswarmr.Grpc.Register.{AgentInfo, is_pending, auto_approve, register}

abbrev pub is_approved : Agent → Bool
is_approved a = not (is_pending a)

-- So many agents of the table are approved.
abbrev pub Approved : ℕ → Db → Type 0
Approved n db = count_if is_approved db.agents ≡ n

-- An update that leaves the status of every agent alone.
count_approved :
    (p : Agent → Bool) (f : Agent → Agent) (as' : List Agent)
    → ((a : Agent) → is_approved (f a) ≡ is_approved a)
    → count_if is_approved (update_where p f as') ≡ count_if is_approved as'
unfolding count_if update_where
count_approved p f [] k = refl
count_approved p f (a ∷ as') k = ground (arith, k a, count_approved p f as' k)

upsert_row-Approved :
    (n : ℕ) (p : UpsertAgentParams) (o : Option Agent) (db : Db)
    → Approved n db
    → Approved n (upsert_row p o db).1
unfolding new_agent refreshed count_if
upsert_row-Approved n p none db h = count_if-append is_approved db.agents _ ∙ omega (arith, h)
upsert_row-Approved n p (some a) db h =
    count_approved (named p.name) (refreshed p) db.agents (λ b. refl) ∙ h

upsert_agent-Approved : (n : ℕ) (p : UpsertAgentParams) → StmtKeeps (Approved n) (upsert_agent p)
unfolding upsert_agent
upsert_agent-Approved n p = record {
  at = λ now db h. elim (Bool-cases (fits_integer p.vnc_port)) [
    | inl e ↦ rw e (upsert_row-Approved n p _ db h)
    | inr e ↦ rw e h
  ];
}

auto_approve-Keeps :
    (n : ℕ) (s : Server) (a : Agent)
    → s.auto_approve ≡ false
    → Keeps (Approved n) (auto_approve s a)
unfolding auto_approve
auto_approve-Keeps n s a e = rw e (Keeps-pure a)

-- Unless the controller approves agents by itself, a registration leaves the number of approved
-- agents as it was, whichever calls of the store fail: a new agent waits for approval, and one that
-- registers again keeps its status.
pub register-approves_none :
    (s : Server) (req : AgentInfo) (w : World)
    → s.auto_approve ≡ false
    → count_if is_approved (register s req w).1.db.agents ≡ count_if is_approved w.db.agents
unfolding register
register-approves_none s req w e =
    let n = count_if is_approved w.db.agents in
    let k : Keeps (Approved n) (register s req) =
      search (keeps_rules, upsert_agent-Approved n, λ (a : Agent). auto_approve-Keeps n s a e) depth
        10 in
    k.at w refl
