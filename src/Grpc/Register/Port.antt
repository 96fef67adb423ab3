-- ===== src/Grpc/Register/Port.antt =====
-- The port of an agent's VNC server through the reserved tag.
use Prim.Native.String.{◌++◌ as append}
use text.Mathlib.TextEquality.{eq_iff}
use encodeswarmr.Prelude.{
  ℕ, ℤ, pos, negsuc, ◌≤◌, ◌≤ℤ◌, ltbℤ, ◌≡◌, refl, ap, subst, find_first, find_first-absent,
  find_first-update_where, find_first-append_one, Option-cases, true, ◌∙◌, inl, inr, String, ◌&&◌,
  List, [], ◌∷◌, Option, none, some, arith, Bool-cases, if◌then◌else◌,
}
use encodeswarmr.Prelude.Text.{decimal_from, int_max}
use encodeswarmr.Prelude.Decimal.{codes-append, atoi-decimal_from}
use encodeswarmr.Grpc.Register.{
  AgentInfo, VncConfig, vnc_prefix, is_reserved, strip_tags, port_tag, agent_tags, upsert_params,
  gpu_params, GpuCapabilities,
}
use encodeswarmr.Db.Types.{Agent, Db}
use encodeswarmr.Exec.{ok}
use encodeswarmr.Db.Agents.{
  UpsertAgentParams, integer_max, fits_integer, named, new_agent, refreshed, upsert_row,
  upsert_agent,
}

-- The loop on the one tag of an agent with a port.
strip_port :
    (n : ℕ)
    → n ≤ int_max
    → strip_tags (pos 0) (append vnc_prefix (decimal_from n n) ∷ []) ≡ (pos n, [])
unfolding strip_tags is_reserved
strip_port n h = rw (codes-append vnc_prefix (decimal_from n n), atoi-decimal_from n h) refl

-- The port that the controller takes from the tags of an agent.
abbrev pub vnc_port_of : VncConfig → ℤ
vnc_port_of c = if c.enabled && ltbℤ (pos 0) c.port then c.port else pos 0

strip_port_tag :
    (p : ℤ)
    → p ≤ℤ pos int_max
    → strip_tags (pos 0) (port_tag p) ≡ ((if ltbℤ (pos 0) p then p else pos 0), [])
unfolding strip_tags
strip_port_tag (pos n) h = ground (arith, strip_port n (omega arith))
strip_port_tag (negsuc n) h = ground arith

strip_agent_tags :
    (c : VncConfig)
    → c.port ≤ℤ pos int_max
    → strip_tags (pos 0) (agent_tags c) ≡ (vnc_port_of c, [])
unfolding agent_tags strip_tags
strip_agent_tags c h = elim (Bool-cases c.enabled) [
  | inl e ↦ rw e (strip_port_tag c.port h)
  | inr e ↦ rw e refl
]

port_and_tags :
    (o : Option GpuCapabilities) (p : UpsertAgentParams)
    → ((gpu_params o p).vnc_port ≡ p.vnc_port) × ((gpu_params o p).tags ≡ p.tags)
port_and_tags none p = (refl, refl)
port_and_tags (some g) p = (refl, refl)

upsert_params-agent_tags :
    (c : VncConfig) (req : AgentInfo)
    → req.tags ≡ agent_tags c
    → c.port ≤ℤ pos int_max
    → ((upsert_params req).vnc_port ≡ vnc_port_of c) × ((upsert_params req).tags ≡ [])
unfolding upsert_params
upsert_params-agent_tags c req e h =
    let k = ap (strip_tags (pos 0)) e ∙ strip_agent_tags c h in
    let (a, b) = port_and_tags req.gpu _ in
    (a ∙ ap (λ (r : ℤ × List String). r.0) k, b ∙ ap (λ (r : ℤ × List String). r.1) k)

-- The row of a name behind an upsert, which is also its answer.
upsert_row-named :
    (p : UpsertAgentParams) (db : Db)
    → let r = upsert_row p (find_first (named p.name) db.agents) db in
      (a : Agent) × (r.0 ≡ ok a)
      × (find_first (named p.name) r.1.agents ≡ some a)
      × (a.vnc_port ≡ p.vnc_port)
      × (a.tags ≡ p.tags)
unfolding new_agent refreshed
upsert_row-named p db = elim (Option-cases (find_first (named p.name) db.agents)) [
  | inl e ↦ rw e (
    new_agent p db.next_id,
    refl,
    find_first-append_one (named p.name) db.agents (new_agent p db.next_id)
        (find_first-absent (named p.name) db.agents e) ((eq_iff p.name p.name).1 refl),
    refl,
    refl,
  )
  | inr (b, e) ↦ rw e (
    refreshed p b,
    refl,
    find_first-update_where (named p.name) (refreshed p) db.agents (λ a. refl) ∙ rw e refl,
    refl,
    refl,
  )
]

vnc_port_of-fits : (c : VncConfig) → c.port ≤ℤ pos integer_max → fits_integer (vnc_port_of c) ≡ true
vnc_port_of-fits c h = ground arith

upsert_params-name : (req : AgentInfo) → (upsert_params req).name ≡ req.hostname
unfolding upsert_params
upsert_params-name req = elim (Option-cases req.gpu) [ inl e ↦ rw e refl | inr (g, e) ↦ rw e refl ]

-- The port that an agent puts into its tags is the one that the controller stores, for every port
-- that fits the 32 bits of its column: the upsert of a registration with these tags succeeds, and
-- the row of the agent's name then has the port of the agent's configuration, or 0 if VNC is off or
-- the port is not positive, and no tag.
pub upsert_agent-agent_tags :
    (c : VncConfig) (req : AgentInfo) (now : ℕ) (db : Db)
    → req.tags ≡ agent_tags c
    → c.port ≤ℤ pos integer_max
    → let r = upsert_agent (upsert_params req) now db in
      (a : Agent) × (r.0 ≡ ok a)
      × (find_first (named req.hostname) r.1.agents ≡ some a)
      × (a.vnc_port ≡ vnc_port_of c)
      × (a.tags ≡ [])
unfolding upsert_agent
upsert_agent-agent_tags c req now db e h =
    let p = upsert_params req in
    let (port, tags) = upsert_params-agent_tags c req e (omega (arith, h)) in
    let (a, k, f, q, t) = upsert_row-named p db in
    let fits : fits_integer p.vnc_port ≡ true = ap fits_integer port ∙ vnc_port_of-fits c h in
    let agents = (upsert_row p (find_first (named p.name) db.agents) db).1.agents in
    rw fits (
      a,
      k,
      subst (λ n. find_first (named n) agents ≡ some a) (upsert_params-name req) f,
      q ∙ port,
      t ∙ tags,
    )
