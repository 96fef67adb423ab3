-- ===== src/Engine/Walk/Nodes.antt =====
-- The nodes of a graph, and lists of them.
use encodeswarmr.Prelude.{
  ◌≡◌, refl, inl, inr, true, false, List, [], ◌∷◌, map, some, arith, ◌==◌, Bool-cases, Option-cases,
  All, any_of,
}
use encodeswarmr.Db.Types.{RowId}
use encodeswarmr.Engine.Flow.{FlowNode, FlowEdge, mem}
use encodeswarmr.Engine.Walk.{find_node, or_later}

pub All-of_map :
    (P : RowId → Type 0) (es : List FlowEdge)
    → All P (map (λ e. e.target) es)
    → All (λ e. P e.target) es
All-of_map P [] h = tt
All-of_map P (e ∷ es) h = (h.0, All-of_map P es h.1)

pub All-to_map :
    (P : RowId → Type 0) (es : List FlowEdge)
    → All (λ e. P e.target) es
    → All P (map (λ e. e.target) es)
All-to_map P [] h = tt
All-to_map P (e ∷ es) h = (h.0, All-to_map P es h.1)

pub find_node-some :
    (id : RowId) (ns : List FlowNode)
    → any_of (λ n. n.id == id) ns ≡ true
    → (n : FlowNode) × (find_node id ns ≡ some n)
unfolding find_node any_of
find_node-some id [] h = absurd (ground arith)
find_node-some id (n ∷ ns) h = elim (Option-cases (find_node id ns)) [
  | inr (m, o) ↦ (m, (rw (o, or_later) refl))
  | inl o ↦ elim (Bool-cases (n.id == id)) [
    | inl e ↦ (n, (rw (o, e, or_later) refl))
    | inr e ↦ let (m, k) = find_node-some id ns (rw e at h) in absurd (ground (arith, o, k))
  ]
]

-- A node of a list and one that is not in it are two.
pub apart :
    (x y : RowId) (ids : List RowId) → mem x ids ≡ true → mem y ids ≡ false → (y == x) ≡ false
unfolding mem any_of
apart x y [] h k = absurd (ground arith)
apart x y (z ∷ ids) h k = elim (Bool-cases (z == x)) [
  | inl e ↦ ground arith
  | inr e ↦ apart x y ids (rw e at h) (ground arith)
]

pub mem-of_head :
    (x id : RowId) (ids : List RowId) → mem id (x ∷ ids) ≡ true → mem id ids ≡ false → id ≡ x
unfolding mem any_of
mem-of_head x id ids h k = ground arith

pub mem-later : (x y : RowId) (ids : List RowId) → mem y ids ≡ true → mem y (x ∷ ids) ≡ true
unfolding mem any_of
mem-later x y ids h = ground arith

pub mem-nil : (id : RowId) → mem id [] ≡ true → ⊥
unfolding mem any_of
mem-nil id h = ground arith

pub mem-other :
    (y id : RowId) (ids : List RowId)
    → (id == y) ≡ false
    → mem y ids ≡ false
    → mem y (id ∷ ids) ≡ false
unfolding mem any_of
mem-other y id ids e h = rw e h
