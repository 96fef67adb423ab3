-- ===== src/Engine/Flow/Fuel.antt =====
-- The search of ValidateFlow ends: one turn more than there are nodes is fuel enough.
use encodeswarmr.Prelude.{
  ℕ, zero, suc, ◌≤◌, ◌<◌, ◌≡◌, refl, subst, inl, inr, Bool, true, false, not, List, [], ◌∷◌, map,
  Option, none, some, arith, ◌==◌, ==_refl, Bool-cases, Option-some-none, All, All-select, any_of,
  count_if, count_if-le-length, length,
}
use encodeswarmr.Db.Types.{RowId}
use encodeswarmr.Engine.Flow.{
  FlowNode, FlowEdge, FlowGraph, FlowError, Outcome, known, targets, mem, and_then, visit_all,
  blacken, dfs, checked, check_edges, is_input, validate_flow,
}

abbrev pub is_stuck : Outcome → Bool
is_stuck (Outcome.refused FlowError.out_of_fuel) = true
is_stuck _ = false

-- A node that is not grey.
abbrev pub unseen : List RowId → FlowNode → Bool
unseen grey n = not (mem n.id grey)

unseen-on :
    (id : RowId) (grey : List RowId) (n : FlowNode) → n.id ≡ id → unseen (id ∷ grey) n ≡ false
unfolding mem any_of
unseen-on id grey n e = ground arith

unseen-off :
    (id : RowId) (grey : List RowId) (n : FlowNode)
    → (n.id == id) ≡ false
    → unseen (id ∷ grey) n ≡ unseen grey n
unfolding mem any_of
unseen-off id grey n e = ground arith

unseen-white :
    (id : RowId) (grey : List RowId) (n : FlowNode)
    → n.id ≡ id
    → mem id grey ≡ false
    → unseen grey n ≡ true
unseen-white id grey n e h = rw (e, h) refl

fewer_or_equal :
    (id : RowId) (grey : List RowId) (ns : List FlowNode)
    → count_if (unseen (id ∷ grey)) ns ≤ count_if (unseen grey) ns
unfolding count_if
fewer_or_equal id grey [] = omega arith
fewer_or_equal id grey (n ∷ ns) = elim (Bool-cases (n.id == id)) [
  | inl e ↦ rw (unseen-on id grey n (ground arith)) (ground (arith, fewer_or_equal id grey ns))
  | inr e ↦ rw (unseen-off id grey n e) (ground (arith, fewer_or_equal id grey ns))
]

-- A node of the graph that turns grey leaves fewer that are not.
pub fewer :
    (id : RowId) (grey : List RowId) (ns : List FlowNode)
    → any_of (λ n. n.id == id) ns ≡ true
    → mem id grey ≡ false
    → count_if (unseen (id ∷ grey)) ns < count_if (unseen grey) ns
unfolding count_if any_of
fewer id grey [] k h = absurd (ground arith)
fewer id grey (n ∷ ns) k h = elim (Bool-cases (n.id == id)) [
  | inl e ↦
      rw (unseen-on id grey n (ground arith), unseen-white id grey n (ground arith) h)
        (omega (arith, fewer_or_equal id grey ns))
  | inr e ↦ rw (unseen-off id grey n e) (ground (arith, fewer id grey ns (rw e at k) h))
]

pub edges_known :
    (g : FlowGraph) (es : List FlowEdge)
    → check_edges g es ≡ none
    → All (λ e. known g e.target ≡ true) es
unfolding check_edges
edges_known g [] h = tt
edges_known g (e ∷ es) h = elim (Bool-cases (known g e.source)) [
  | inr s ↦ absurd (Option-some-none (rw s at h))
  | inl s ↦ elim (Bool-cases (known g e.target)) [
    | inr t ↦ absurd (Option-some-none (rw (s, t) at h))
    | inl t ↦ (t, edges_known g es (rw (s, t) at h))
  ]
]

map-known :
    (g : FlowGraph) (es : List FlowEdge)
    → All (λ e. known g e.target ≡ true) es
    → All (λ t. known g t ≡ true) (map (λ e. e.target) es)
map-known g [] h = tt
map-known g (e ∷ es) h = (h.0, map-known g es h.1)

stuck_then :
    (out : Outcome) (k : List RowId → Outcome)
    → is_stuck out ≡ false
    → ((black : List RowId) → is_stuck (k black) ≡ false)
    → is_stuck (and_then out k) ≡ false
stuck_then (Outcome.accepted black) k h f = f black
stuck_then (Outcome.refused e) k h f = h

stuck_blacken :
    (id : RowId) (out : Outcome) → is_stuck out ≡ false → is_stuck (blacken id out) ≡ false
stuck_blacken id (Outcome.accepted black) h = refl
stuck_blacken id (Outcome.refused e) h = h

module _ (g : FlowGraph) (closed : All (λ e. known g e.target ≡ true) g.edges) where
  pub targets-known : (id : RowId) → All (λ t. known g t ≡ true) (targets g id)
  unfolding targets
  targets-known id =
      map-known g _ (All-select (λ e. known g e.target ≡ true) (λ e. e.source == id) g.edges closed)

  visit_all_ends :
      (visit : RowId → List RowId → Outcome)
      → ((id : RowId) (black : List RowId) → known g id ≡ true → is_stuck (visit id black) ≡ false)
      → (ids black : List RowId) → All (λ t. known g t ≡ true) ids
      → is_stuck (visit_all visit ids black) ≡ false
  unfolding visit_all
  visit_all_ends visit v [] black h = refl
  visit_all_ends visit v (id ∷ ids) black h =
      stuck_then (visit id black) (visit_all visit ids) (v id black h.0)
        λ next. visit_all_ends visit v ids next h.1

  dfs_ends :
      (fuel : ℕ) (grey : List RowId) (id : RowId) (black : List RowId)
      → count_if (unseen grey) g.nodes < fuel
      → known g id ≡ true
      → is_stuck (dfs g fuel grey id black) ≡ false
  unfolding dfs
  dfs_ends zero grey id black b k = absurd (omega arith)
  dfs_ends (suc fuel) grey id black b k = elim (Bool-cases (mem id black)) [
    | inl e ↦ rw (e, is_stuck) refl
    | inr e ↦ elim (Bool-cases (mem id grey)) [
      | inl f ↦ rw (e, f, is_stuck) refl
      | inr f ↦
          rw (e, f, is_stuck)
            (stuck_blacken id _ (
              visit_all_ends (dfs g fuel (id ∷ grey))
                (λ t next.
                  dfs_ends fuel (id ∷ grey) t next (omega (arith, fewer id grey g.nodes k f)))
                (targets g id) black (targets-known id)))
    ]
  ]

nodes_known_from :
    (p : RowId → Bool) (ns : List FlowNode)
    → All (λ n. p n.id ≡ true) ns
    → All (λ t. p t ≡ true) (map (λ n. n.id) ns)
nodes_known_from p [] h = tt
nodes_known_from p (n ∷ ns) h = (h.0, nodes_known_from p ns h.1)

among_more :
    (m : FlowNode) (ns xs : List FlowNode)
    → All (λ n. any_of (λ k. k.id == n.id) ns ≡ true) xs
    → All (λ n. any_of (λ k. k.id == n.id) (m ∷ ns) ≡ true) xs
unfolding any_of
among_more m ns [] h = tt
among_more m ns (x ∷ xs) h = (ground (arith, h.0), among_more m ns xs h.1)

All-among : (ns : List FlowNode) → All (λ n. any_of (λ k. k.id == n.id) ns ≡ true) ns
unfolding any_of
All-among [] = tt
All-among (n ∷ ns) = (ground (arith, ==_refl n.id), among_more n ns ns (All-among ns))

pub unseen_bound :
    (grey : List RowId) (ns : List FlowNode) → count_if (unseen grey) ns < suc (length ns)
unseen_bound grey ns = omega (arith, count_if-le-length (unseen grey) ns)

abbrev edge_stuck : Option FlowError → Bool
edge_stuck none = false
edge_stuck (some e) = is_stuck (Outcome.refused e)

edges_end : (g : FlowGraph) (es : List FlowEdge) → edge_stuck (check_edges g es) ≡ false
unfolding check_edges
edges_end g [] = refl
edges_end g (e ∷ es) = elim (Bool-cases (known g e.source)) [
  | inr s ↦ rw (s, edge_stuck) refl
  | inl s ↦ elim (Bool-cases (known g e.target)) [
    | inr t ↦ rw (s, t, edge_stuck) refl
    | inl t ↦ rw (s, t) (edges_end g es)
  ]
]

checked_ends :
    (g : FlowGraph) (o : Option FlowError)
    → check_edges g g.edges ≡ o
    → is_stuck (checked g o) ≡ false
checked_ends g (some e) h = subst (λ o. edge_stuck o ≡ false) h (edges_end g g.edges)
checked_ends g none h = elim (Bool-cases (any_of is_input g.nodes)) [
  | inl e ↦
      rw (e, is_stuck)
        (visit_all_ends g (edges_known g g.edges h) (dfs g (suc (length g.nodes)) [])
          (λ t next.
            dfs_ends g (edges_known g g.edges h) (suc (length g.nodes)) [] t next
              (unseen_bound [] g.nodes))
          (map (λ n. n.id) g.nodes) [] (nodes_known_from (known g) g.nodes (All-among g.nodes)))
  | inr e ↦ rw (e, is_stuck) refl
]

-- ValidateFlow comes to an end on every graph: the search never runs out of fuel.
pub validate_flow-ends : (g : FlowGraph) → is_stuck (validate_flow g) ≡ false
unfolding validate_flow
validate_flow-ends g = elim (Bool-cases (length g.nodes == 0)) [
  | inl e ↦ rw (e, is_stuck) refl
  | inr e ↦ rw e (checked_ends g (check_edges g g.edges) refl)
]
