-- ===== src/Engine/Flow/Order.antt =====
-- A graph that ValidateFlow accepts has no cycle.
use encodeswarmr.Prelude.{
  ℕ, zero, suc, ◌≡◌, subst, inl, inr, true, List, [], ◌∷◌, map, Option, none, some, arith, ◌==◌,
  Bool-cases, All, any_of, length,
}
use encodeswarmr.Db.Types.{RowId}
use encodeswarmr.Engine.Flow.{
  FlowGraph, FlowError, Outcome, targets, mem, and_then, visit_all, blacken, dfs, checked,
  check_edges, is_input, validate_flow,
}

-- A list in which each node stands before all the targets of its edges.
abbrev pub IsOrder : FlowGraph → List RowId → Type 0
IsOrder g [] = Unit
IsOrder g (id ∷ ids) = All (λ t. mem t ids ≡ true) (targets g id) × IsOrder g ids

-- What a search from some nodes leaves: an order that holds the nodes black before, and those.
abbrev Good : FlowGraph → List RowId → List RowId → Outcome → Type 0
Good g black ids (Outcome.accepted order) =
    IsOrder g order
    × ((x : RowId) → mem x black ≡ true → mem x order ≡ true)
    × All (λ t. mem t order ≡ true) ids
Good g black ids (Outcome.refused e) = Unit

mem-cons : (x id : RowId) (ids : List RowId) → mem x ids ≡ true → mem x (id ∷ ids) ≡ true
unfolding mem any_of
mem-cons x id ids h = ground arith

mem-head : (id : RowId) (ids : List RowId) → mem id (id ∷ ids) ≡ true
unfolding mem any_of
mem-head id ids = ground arith

module _ (g : FlowGraph) where
  Good-extend :
      (black next : List RowId) (id : RowId) (ids : List RowId) (out : Outcome)
      → ((x : RowId) → mem x black ≡ true → mem x next ≡ true)
      → mem id next ≡ true
      → Good g next ids out
      → Good g black (id ∷ ids) out
  Good-extend black next id ids (Outcome.accepted order) sub m h =
      (h.0, (λ x k. h.1 x (sub x k)), (h.1 id m, h.2))
  Good-extend black next id ids (Outcome.refused e) sub m h = tt

  Good-then :
      (black : List RowId) (id : RowId) (ids : List RowId) (out : Outcome)
      (k : List RowId → Outcome)
      → Good g black (id ∷ []) out
      → ((next : List RowId) → IsOrder g next → Good g next ids (k next))
      → Good g black (id ∷ ids) (and_then out k)
  Good-then black id ids (Outcome.accepted next) k h f =
      Good-extend black next id ids (k next) h.1 h.2.0 (f next h.0)
  Good-then black id ids (Outcome.refused e) k h f = tt

  visit_all-Good :
      (visit : RowId → List RowId → Outcome)
      → ((id : RowId) (black : List RowId)
          → IsOrder g black
          → Good g black (id ∷ []) (visit id black))
      → (ids black : List RowId) → IsOrder g black
      → Good g black ids (visit_all visit ids black)
  unfolding visit_all
  visit_all-Good visit v [] black o = (o, (λ x h. h), tt)
  visit_all-Good visit v (id ∷ ids) black o =
      Good-then black id ids (visit id black) (visit_all visit ids) (v id black o)
        λ next p. visit_all-Good visit v ids next p

  blacken-Good :
      (id : RowId) (black : List RowId) (out : Outcome)
      → Good g black (targets g id) out
      → Good g black (id ∷ []) (blacken id out)
  blacken-Good id black (Outcome.accepted order) h =
      ((h.2, h.0), (λ x k. mem-cons x id order (h.1 x k)), (mem-head id order, tt))
  blacken-Good id black (Outcome.refused e) h = tt

  dfs-Good :
      (fuel : ℕ) (grey : List RowId) (id : RowId) (black : List RowId)
      → IsOrder g black
      → Good g black (id ∷ []) (dfs g fuel grey id black)
  unfolding dfs
  dfs-Good zero grey id black o = tt
  dfs-Good (suc fuel) grey id black o = elim (Bool-cases (mem id black)) [
    | inl e ↦ rw (e, Good) (o, (λ x h. h), (e, tt))
    | inr e ↦ elim (Bool-cases (mem id grey)) [
      | inl f ↦ rw (e, f, Good) tt
      | inr f ↦
          rw (e, f, Good)
            (blacken-Good id black _ (
              visit_all-Good (dfs g fuel (id ∷ grey)) (dfs-Good fuel (id ∷ grey)) (targets g id)
                black o))
    ]
  ]

  -- What an accepted outcome says of the whole graph.
  abbrev Ordered : Outcome → Type 0
  Ordered out = Good g [] (map (λ n. n.id) g.nodes) out

  checked-Ordered : (o : Option FlowError) → Ordered (checked g o)
  checked-Ordered (some e) = tt
  checked-Ordered none = elim (Bool-cases (any_of is_input g.nodes)) [
    | inl e ↦ rw e (
        visit_all-Good (dfs g (suc (length g.nodes)) []) (dfs-Good (suc (length g.nodes)) [])
          (map (λ n. n.id) g.nodes) [] tt)
    | inr e ↦ rw e tt
  ]

  validated : Ordered (validate_flow g)
  unfolding validate_flow
  validated = elim (Bool-cases (length g.nodes == 0)) [
    | inl e ↦ rw e tt
    | inr e ↦ rw e (checked-Ordered (check_edges g g.edges))
  ]

  -- If ValidateFlow accepts a graph, then the nodes that its search has finished are an order of
  -- all the nodes of the graph in which each edge leads forwards: the graph has no cycle.
  pub validate_flow-IsOrder :
      (order : List RowId)
      → validate_flow g ≡ Outcome.accepted order
      → IsOrder g order × All (λ id. mem id order ≡ true) (map (λ n. n.id) g.nodes)
  validate_flow-IsOrder order h = let v = subst Ordered h validated in (v.0, v.2)
