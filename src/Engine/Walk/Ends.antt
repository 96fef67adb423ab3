-- ===== src/Engine/Walk/Ends.antt =====
-- The walk over a flow ends on every graph: one turn more than there are nodes is fuel enough.
use encodeswarmr.Prelude.{
  ℕ, zero, suc, ◌<◌, ◌≡◌, refl, inl, inr, String, Bool, true, false, List, [], ◌∷◌, Option, none,
  some, arith, ◌==◌, Bool-cases, Option-cases, any_of, count_if, length, find_first,
}
use encodeswarmr.Db.Types.{RowId}
use encodeswarmr.Engine.Json.{Config}
use encodeswarmr.Engine.Condition.{Reals}
use encodeswarmr.Engine.Flow.{FlowNode, FlowGraph, FlowError, mem, is_input}
use encodeswarmr.Engine.Flow.Fuel.{unseen, fewer, unseen_bound}
use encodeswarmr.Engine.Walk.{
  Walk, Walked, find_node, or_later, then_walk, walk_each, next_nodes, config_of, walk,
  execute_flow,
}

abbrev pub is_exhausted : Walked → Bool
is_exhausted (Walked.failed FlowError.out_of_fuel) = true
is_exhausted _ = false

or_later-none : (o p : Option FlowNode) → or_later o p ≡ none → (o ≡ none) × (p ≡ none)
or_later-none none p h = (refl, h)
or_later-none (some n) p h = cc

-- A node that is found is one of the graph.
pub find_node-known :
    (id : RowId) (ns : List FlowNode) {n : FlowNode}
    → find_node id ns ≡ some n
    → any_of (λ k. k.id == id) ns ≡ true
unfolding find_node any_of
find_node-known id [] h = cc
find_node-known id (k ∷ ks) {n} h = elim (Bool-cases (k.id == id)) [
  | inl e ↦ rw e refl
  | inr e ↦ elim (Option-cases (find_node id ks)) [
    | inl o ↦ absurd (ground (arith, o, e))
    | inr (m, o) ↦ rw (e, find_node-known id ks o) refl
  ]
]

module _ (rs : Reals) (summary : Config) (g : FlowGraph) (input : FlowNode)
    (source_id : String) where
  then_ends :
      (r : Walked) (k : Walk → Walked)
      → is_exhausted r ≡ false
      → ((s : Walk) → is_exhausted (k s) ≡ false)
      → is_exhausted (then_walk rs summary r k) ≡ false
  then_ends (Walked.walked s) k h f = f s
  then_ends (Walked.failed e) k h f = h

  each_ends :
      (visit : RowId → Walk → Walked)
      → ((id : RowId) (s : Walk) → is_exhausted (visit id s) ≡ false)
      → (ids : List RowId) (s : Walk) → is_exhausted (walk_each rs summary visit ids s) ≡ false
  unfolding walk_each
  each_ends visit v [] s = refl
  each_ends visit v (id ∷ ids) s =
      then_ends (visit id s) (walk_each rs summary visit ids) (v id s)
        (λ s'. each_ends visit v ids s')

  pub walk_ends :
      (fuel : ℕ) (stack depends_on : List RowId) (id : RowId) (s : Walk)
      → count_if (unseen stack) g.nodes < fuel
      → is_exhausted (walk rs summary g input source_id fuel stack depends_on id s) ≡ false
  unfolding walk
  walk_ends zero stack depends_on id s b = absurd (omega arith)
  walk_ends (suc fuel) stack depends_on id s b = elim (Bool-cases (mem id stack)) [
    | inl e ↦ rw (e, is_exhausted) refl
    | inr e ↦ elim (Bool-cases (mem id s.visited)) [
      | inl v ↦ rw (e, v, is_exhausted) refl
      | inr v ↦ elim (Option-cases (find_node id g.nodes)) [
        | inl o ↦ rw (e, v, o, is_exhausted) refl
        | inr (n, o) ↦
            rw (e, v, o, is_exhausted)
              (each_ends (walk rs summary g input source_id fuel (id ∷ stack) (id ∷ []))
                (λ t s'.
                  walk_ends fuel (id ∷ stack) (id ∷ []) t s'
                    (omega (arith, fewer id stack g.nodes (find_node-known id g.nodes o) e)))
                (next_nodes rs summary g n (config_of rs summary input source_id id n) id) _)
      ]
    ]
  ]

-- ExecuteFlow comes to an end on every graph, checked before or not: the walk never runs out of
-- fuel.
pub execute_flow-ends :
    (rs : Reals) (summary : Config) (g : FlowGraph) (source_id : String)
    → is_exhausted (execute_flow rs summary g source_id) ≡ false
unfolding execute_flow
execute_flow-ends rs summary g source_id = elim (Bool-cases (length g.nodes == 0)) [
  | inl e ↦ rw (e, is_exhausted) refl
  | inr e ↦ elim (Option-cases (find_first is_input g.nodes)) [
    | inl o ↦ rw (e, o, is_exhausted) refl
    | inr (input, o) ↦
        rw (e, o)
          (walk_ends rs summary g input source_id (suc (length g.nodes)) [] [] input.id
            (record { visited = []; steps = [] }) (unseen_bound [] g.nodes))
  ]
]
