-- ===== src/Engine/Walk/Steps.antt =====
-- The steps that a walk over a flow leaves.
use encodeswarmr.Prelude.{
  ℕ, zero, suc, ◌≡◌, refl, subst, inl, inr, String, Bool, true, false, List, [], ◌∷◌, ◌++◌, arith,
  ◌==◌, Bool-cases, Option-cases, All, Distinct, Distinct-append_one, any_of, any_of-append_one,
  length, find_first,
}
use encodeswarmr.Db.Types.{RowId}
use encodeswarmr.Engine.Json.{Config}
use encodeswarmr.Engine.Condition.{Reals}
use encodeswarmr.Engine.Flow.{FlowNode, FlowGraph, mem, is_input}
use encodeswarmr.Engine.Walk.{
  TaskStep, Walk, Walked, find_node, then_walk, walk_each, next_nodes, config_of, add_step, walk,
  execute_flow,
}

abbrev pub same_node : TaskStep → TaskStep → Bool
same_node t u = t.node_id == u.node_id

-- The nodes of some steps, behind those before.
abbrev pub after : List RowId → List TaskStep → List RowId
after before [] = before
after before (t ∷ ts) = after (t.node_id ∷ before) ts

-- Each step depends on steps before it only.
abbrev pub Ordered : List RowId → List TaskStep → Type 0
Ordered before [] = Unit
Ordered before (t ∷ ts) =
    All (λ d. mem d before ≡ true) t.depends_on × Ordered (t.node_id ∷ before) ts

after-append :
    (before : List RowId) (ts : List TaskStep) (t : TaskStep)
    → after before (ts ++ t ∷ []) ≡ t.node_id ∷ after before ts
after-append before [] t = refl
after-append before (u ∷ us) t = after-append (u.node_id ∷ before) us t

Ordered-append :
    (before : List RowId) (ts : List TaskStep) (t : TaskStep)
    → Ordered before ts
    → All (λ d. mem d (after before ts) ≡ true) t.depends_on
    → Ordered before (ts ++ t ∷ [])
Ordered-append before [] t o d = (d, tt)
Ordered-append before (u ∷ us) t o d = (o.0, Ordered-append (u.node_id ∷ before) us t o.1 d)

-- What holds of a walk at any point: a node has one step at most, and the visited nodes are those
-- with a step.
record IsOnce (s : Walk) : Type 0 where
  pub distinct : Distinct same_node s.steps
  pub ordered : Ordered [] s.steps
  pub fresh : (x : RowId) → mem x s.visited ≡ false → any_of (λ t. x == t.node_id) s.steps ≡ false
  pub stepped : (x : RowId) → mem x s.visited ≡ true → mem x (after [] s.steps) ≡ true

abbrev Grows : Walk → Walk → Type 0
Grows s s' = (x : RowId) → mem x s.visited ≡ true → mem x s'.visited ≡ true

abbrev Fine : Walk → Walked → Type 0
Fine s (Walked.walked s') = IsOnce s' × Grows s s'
Fine s (Walked.failed e) = Unit

-- The nodes that a step is to depend on are visited.
abbrev Ready : List RowId → Walk → Type 0
Ready depends_on s = All (λ d. mem d s.visited ≡ true) depends_on

Ready-Grows : (ds : List RowId) (s s' : Walk) → Grows s s' → Ready ds s → Ready ds s'
Ready-Grows [] s s' g r = tt
Ready-Grows (d ∷ ds) s s' g r = (g d r.0, Ready-Grows ds s s' g r.1)

All-stepped :
    (ds : List RowId) (s : Walk)
    → IsOnce s
    → Ready ds s
    → All (λ d. mem d (after [] s.steps) ≡ true) ds
All-stepped [] s o r = tt
All-stepped (d ∷ ds) s o r = (o.stepped d r.0, All-stepped ds s o r.1)

Fine-from : (s s' : Walk) (r : Walked) → Grows s s' → Fine s' r → Fine s r
Fine-from s s' (Walked.walked t) g h = (h.0, λ x k. h.1 x (g x k))
Fine-from s s' (Walked.failed e) g h = tt

module _ (rs : Reals) (summary : Config) (g : FlowGraph) (input : FlowNode)
    (source_id : String) where
  add_step-IsOnce :
      (id : RowId) (n : FlowNode) (cfg : Config) (ds : List RowId) (s : Walk)
      → mem id s.visited ≡ false
      → Ready ds s
      → IsOnce s
      → IsOnce (add_step rs summary id n cfg ds s)
  unfolding mem any_of
  add_step-IsOnce id n cfg ds s m r o = record {
    distinct =
        Distinct-append_one same_node s.steps _ (λ a b. ground arith) (o.fresh id m) o.distinct;
    ordered = Ordered-append [] s.steps _ o.ordered (All-stepped ds s o r);
    fresh = λ x h.
        any_of-append_one (λ t. x == t.node_id) s.steps _ (o.fresh x (ground arith)) (ground arith);
    stepped = λ x h. rw (after-append [] s.steps _) (ground (arith, o.stepped x));
  }

  add_step-Grows :
      (id : RowId) (n : FlowNode) (cfg : Config) (ds : List RowId) (s : Walk)
      → Grows s (add_step rs summary id n cfg ds s)
  unfolding mem any_of
  add_step-Grows id n cfg ds s x h = ground arith

  then_walk-Fine :
      (s : Walk) (r : Walked) (k : Walk → Walked)
      → Fine s r
      → ((s' : Walk) → Grows s s' → IsOnce s' → Fine s' (k s'))
      → Fine s (then_walk rs summary r k)
  then_walk-Fine s (Walked.walked s') k h f = Fine-from s s' (k s') h.1 (f s' h.1 h.0)
  then_walk-Fine s (Walked.failed e) k h f = tt

  walk_each-Fine :
      (visit : RowId → Walk → Walked) (ds : List RowId)
      → ((id : RowId) (s : Walk) → Ready ds s → IsOnce s → Fine s (visit id s))
      → (ids : List RowId) (s : Walk) → Ready ds s
      → IsOnce s
      → Fine s (walk_each rs summary visit ids s)
  unfolding walk_each
  walk_each-Fine visit ds v [] s r o = (o, λ x h. h)
  walk_each-Fine visit ds v (id ∷ ids) s r o =
      then_walk-Fine s (visit id s) (walk_each rs summary visit ids) (v id s r o)
        (λ s' g o'. walk_each-Fine visit ds v ids s' (Ready-Grows ds s s' g r) o')

  mem_now : (id : RowId) (ids : List RowId) → mem id (id ∷ ids) ≡ true
  unfolding mem any_of
  mem_now id ids = ground arith

  walk-Fine :
      (fuel : ℕ) (stack ds : List RowId) (id : RowId) (s : Walk)
      → Ready ds s
      → IsOnce s
      → Fine s (walk rs summary g input source_id fuel stack ds id s)
  unfolding walk
  walk-Fine zero stack ds id s r o = tt
  walk-Fine (suc fuel) stack ds id s r o = elim (Bool-cases (mem id stack)) [
    | inl e ↦ rw (e, Fine) tt
    | inr e ↦ elim (Bool-cases (mem id s.visited)) [
      | inl v ↦ rw (e, v, Fine) (o, λ x h. h)
      | inr v ↦ elim (Option-cases (find_node id g.nodes)) [
        | inl k ↦ rw (e, v, k, Fine) tt
        | inr (n, k) ↦
            let cfg = config_of rs summary input source_id id n in
            let s' = add_step rs summary id n cfg ds s in
            rw (e, v, k, Fine)
              (Fine-from s s' _ (add_step-Grows id n cfg ds s) (
                walk_each-Fine (walk rs summary g input source_id fuel (id ∷ stack) (id ∷ []))
                  (id ∷ []) (λ t u r' o'. walk-Fine fuel (id ∷ stack) (id ∷ []) t u r' o')
                  (next_nodes rs summary g n cfg id) s' (mem_now id s.visited, tt)
                  (add_step-IsOnce id n cfg ds s v r o)))
      ]
    ]
  ]

abbrev empty_walk : Walk
empty_walk = record { visited = []; steps = [] }

empty_IsOnce : IsOnce empty_walk
unfolding mem any_of
empty_IsOnce = record { distinct = tt; ordered = tt; fresh = λ x h. refl; stepped = λ x h. h }

execute_flow-Fine :
    (rs : Reals) (summary : Config) (g : FlowGraph) (source_id : String)
    → Fine empty_walk (execute_flow rs summary g source_id)
unfolding execute_flow
execute_flow-Fine rs summary g source_id = elim (Bool-cases (length g.nodes == 0)) [
  | inl e ↦ rw (e, Fine) tt
  | inr e ↦ elim (Option-cases (find_first is_input g.nodes)) [
    | inl o ↦ rw (e, o, Fine) tt
    | inr (input, o) ↦
        rw (e, o)
          (walk-Fine rs summary g input source_id (suc (length g.nodes)) [] [] input.id empty_walk
            tt empty_IsOnce)
  ]
]

-- The steps that ExecuteFlow returns, of any graph, are of distinct nodes, and each depends on nodes
-- only whose steps stand before it.
pub execute_flow-IsOnce :
    (rs : Reals) (summary : Config) (g : FlowGraph) (source_id : String) {s : Walk}
    → execute_flow rs summary g source_id ≡ Walked.walked s
    → Distinct same_node s.steps × Ordered [] s.steps
unfolding execute_flow
execute_flow-IsOnce rs summary g source_id {s} h =
    let fine = subst (Fine empty_walk) h (execute_flow-Fine rs summary g source_id) in
    (fine.0.distinct, fine.0.ordered)
