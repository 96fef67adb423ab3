-- ===== src/Engine/Walk/Accepted.antt =====
-- A flow that ValidateFlow accepts is executed without an error.
use encodeswarmr.Prelude.{
  ℕ, zero, suc, ◌≡◌, refl, sym, subst, inl, inr, String, Bool, true, false, List, [], ◌∷◌, map,
  Option, none, some, arith, ◌==◌, ==_refl, Bool-cases, All, All-select, any_of, length, find_first,
}
use encodeswarmr.Db.Types.{RowId}
use encodeswarmr.Engine.Json.{Config}
use encodeswarmr.Engine.Condition.{Reals}
use encodeswarmr.Engine.Flow.{
  FlowNode, FlowGraph, FlowError, Outcome, known, mem, targets, is_input, check_edges, checked,
  validate_flow,
}
use encodeswarmr.Engine.Flow.Fuel.{edges_known, targets-known}
use encodeswarmr.Engine.Flow.Order.{IsOrder, validate_flow-IsOrder}
use encodeswarmr.Engine.Walk.{
  Walk, Walked, then_walk, walk_each, follows, next_nodes, config_of, walk, execute_flow,
}
use encodeswarmr.Engine.Walk.Ends.{is_exhausted, execute_flow-ends}
use encodeswarmr.Engine.Walk.Nodes.{
  All-of_map, All-to_map, find_node-some, apart, mem-of_head, mem-later, mem-nil, mem-other,
}

-- An error of the source.
abbrev is_refused : Walked → Bool
is_refused (Walked.walked s) = false
is_refused (Walked.failed FlowError.out_of_fuel) = false
is_refused (Walked.failed e) = true

module _ (rs : Reals) (summary : Config) (g : FlowGraph) (input : FlowNode)
    (source_id : String) where
  All-next :
      (P : RowId → Type 0) (n : FlowNode) (cfg : Config) (id : RowId)
      → All P (targets g id)
      → All P (next_nodes rs summary g n cfg id)
  unfolding next_nodes targets
  All-next P n cfg id h =
      All-to_map P _ (All-select (λ e. P e.target) (follows rs summary n cfg) _ (All-of_map P _ h))

  then_clean :
      (r : Walked) (k : Walk → Walked)
      → is_refused r ≡ false
      → ((s : Walk) → is_refused (k s) ≡ false)
      → is_refused (then_walk rs summary r k) ≡ false
  then_clean (Walked.walked s) k h f = f s
  then_clean (Walked.failed e) k h f = h

  each_clean :
      (visit : RowId → Walk → Walked) (P Q : RowId → Type 0)
      → ((id : RowId) (s : Walk) → P id → Q id → is_refused (visit id s) ≡ false)
      → (ids : List RowId) (s : Walk) → All P ids
      → All Q ids
      → is_refused (walk_each rs summary visit ids s) ≡ false
  unfolding walk_each
  each_clean visit P Q v [] s p q = refl
  each_clean visit P Q v (id ∷ ids) s p q =
      then_clean (visit id s) (walk_each rs summary visit ids) (v id s p.0 q.0)
        (λ s'. each_clean visit P Q v ids s' p.1 q.1)

  module _ (closed : All (λ e. known g e.target ≡ true) g.edges) where
    -- From a node of an order, the walk meets nodes only that stand behind it.
    walk_clean :
        (ids : List RowId)
        → IsOrder g ids
        → (fuel : ℕ) (stack ds : List RowId) (id : RowId) (s : Walk)
        → ((x : RowId) → mem x ids ≡ true → mem x stack ≡ false)
        → mem id ids ≡ true
        → known g id ≡ true
        → is_refused (walk rs summary g input source_id fuel stack ds id s) ≡ false
    unfolding walk
    walk_clean [] o fuel stack ds id s d m k = absurd (mem-nil id m)
    walk_clean (x ∷ xs) o zero stack ds id s d m k = refl
    walk_clean (x ∷ xs) o (suc fuel) stack ds id s d m k = elim (Bool-cases (mem id xs)) [
      | inl e ↦ walk_clean xs o.1 (suc fuel) stack ds id s (λ y h. d y (mem-later x y xs h)) e k
      | inr e ↦ elim (Bool-cases (mem id s.visited)) [
        | inl v ↦ rw (d id m, v, is_refused) refl
        | inr v ↦
            let (n, q) = find_node-some id g.nodes k in
            let behind =
              subst (λ y. All (λ t. mem t xs ≡ true) (targets g y)) (sym (mem-of_head x id xs m e))
                o.0 in
            let cfg = config_of rs summary input source_id id n in
            rw (d id m, v, q, is_refused)
              (each_clean (walk rs summary g input source_id fuel (id ∷ stack) (id ∷ []))
                (λ t. mem t xs ≡ true) (λ t. known g t ≡ true)
                (λ t s' a b.
                  walk_clean xs o.1 fuel (id ∷ stack) (id ∷ []) t s'
                    (λ y h. mem-other y id stack (apart y id xs h e) (d y (mem-later x y xs h))) a
                    b)
                (next_nodes rs summary g n cfg id) _ (All-next _ n cfg id behind)
                (All-next _ n cfg id (targets-known g closed id)))
      ]
    ]

edges_accepted :
    (g : FlowGraph) (o : Option FlowError) (order : List RowId)
    → checked g o ≡ Outcome.accepted order
    → o ≡ none
edges_accepted g none order h = refl
edges_accepted g (some e) order h = cc

-- What ValidateFlow has looked at.
accepted_facts :
    (g : FlowGraph) (order : List RowId)
    → validate_flow g ≡ Outcome.accepted order
    → ((length g.nodes == 0) ≡ false)
      × (check_edges g g.edges ≡ none)
      × (any_of is_input g.nodes ≡ true)
unfolding validate_flow
accepted_facts g order h = elim (Bool-cases (length g.nodes == 0)) [
  | inl e ↦ absurd (ground (arith, e))
  | inr e ↦
      let k = edges_accepted g (check_edges g g.edges) order (rw e at h) in
      elim (Bool-cases (any_of is_input g.nodes)) [
        | inl i ↦ (e, k, i)
        | inr i ↦ absurd (ground (arith, e, k, i))
      ]
]

input_found :
    (ns : List FlowNode)
    → any_of is_input ns ≡ true
    → (n : FlowNode) × (find_first is_input ns ≡ some n) × (any_of (λ k. k.id == n.id) ns ≡ true)
unfolding any_of find_first
input_found [] h = absurd (ground arith)
input_found (n ∷ ns) h = elim (Bool-cases (is_input n)) [
  | inl e ↦ (n, (rw e refl), (rw (==_refl n.id) refl))
  | inr e ↦ let (m, f, k) = input_found ns (rw e at h) in (m, (rw e f), ground (arith, k))
]

mem-from_nodes :
    (id : RowId) (ns : List FlowNode) (order : List RowId)
    → any_of (λ k. k.id == id) ns ≡ true
    → All (λ x. mem x order ≡ true) (map (λ n. n.id) ns)
    → mem id order ≡ true
unfolding any_of
mem-from_nodes id [] order h a = absurd (ground arith)
mem-from_nodes id (n ∷ ns) order h a = elim (Bool-cases (n.id == id)) [
  | inl e ↦ subst (λ y. mem y order ≡ true) (ground (arith, e)) a.0
  | inr e ↦ mem-from_nodes id ns order (rw e at h) a.1
]

mem-empty : (x : RowId) → mem x [] ≡ false
unfolding mem any_of
mem-empty x = refl

sound_end :
    (r : Walked)
    → is_refused r ≡ false
    → is_exhausted r ≡ false
    → (s : Walk) × (r ≡ Walked.walked s)
sound_end (Walked.walked s) a b = (s, refl)
sound_end (Walked.failed FlowError.out_of_fuel) a b = cc
sound_end (Walked.failed FlowError.no_nodes) a b = cc
sound_end (Walked.failed FlowError.no_input) a b = cc
sound_end (Walked.failed FlowError.cyclic) a b = cc
sound_end (Walked.failed (FlowError.unknown_source e)) a b = cc
sound_end (Walked.failed (FlowError.unknown_target e)) a b = cc
sound_end (Walked.failed (FlowError.unknown_node e)) a b = cc

not_refused :
    (rs : Reals) (summary : Config) (g : FlowGraph) (source_id : String) (order : List RowId)
    → validate_flow g ≡ Outcome.accepted order
    → is_refused (execute_flow rs summary g source_id) ≡ false
unfolding execute_flow
not_refused rs summary g source_id order h =
    let (e, k, i) = accepted_facts g order h in
    let (input, f, m) = input_found g.nodes i in
    let (o, all) = validate_flow-IsOrder g order h in
    rw (e, f)
      (walk_clean rs summary g input source_id (edges_known g g.edges k) order o
        (suc (length g.nodes)) [] [] input.id (record { visited = []; steps = [] })
        (λ x _. mem-empty x) (mem-from_nodes input.id g.nodes order m all) m)

-- A flow that ValidateFlow accepts is executed to its end without an error, whatever its conditions
-- decide on the source: the walk meets no cycle and no unknown node, and returns steps.
pub execute_flow-accepted :
    (rs : Reals) (summary : Config) (g : FlowGraph) (source_id : String) (order : List RowId)
    → validate_flow g ≡ Outcome.accepted order
    → (s : Walk) × (execute_flow rs summary g source_id ≡ Walked.walked s)
execute_flow-accepted rs summary g source_id order h =
    sound_end (execute_flow rs summary g source_id) (not_refused rs summary g source_id order h)
      (execute_flow-ends rs summary g source_id)
