-- ===== src/Rules/First.antt =====
-- Which rule of the table makes the suggestion.
use mathlib.Core.List.{Memᴰ}
use encodeswarmr.Prelude.{
  ℤ, ◌≤ℤ◌, ◌≡◌, refl, subst, inl, inr, Bool, true, false, ◌&&◌, List, [], ◌∷◌, Option, none, some,
  arith, Bool-cases, All,
}
use encodeswarmr.Rules.{
  EncodingRule, RuleAction, Texts, SourceProperties, rule_before, insert_rule, list_encoding_rules,
  matches_all, first_match, evaluate,
}

-- A rule that is enabled and has all its conditions fulfilled.
abbrev pub applies : (ts : Texts) → SourceProperties ts → EncodingRule → Bool
applies ts props r = r.enabled && matches_all ts r.conditions props

-- No rule of a list that applies comes with a lower priority.
abbrev pub NoneBefore : (ts : Texts) → SourceProperties ts → ℤ → List EncodingRule → Type 0
NoneBefore ts props p rs = All (λ r. applies ts props r ≡ true → p ≤ℤ r.priority) rs

-- The answer for a table.
abbrev pub Suggests :
    (ts : Texts) → SourceProperties ts → List EncodingRule → Option RuleAction → Type 0
Suggests ts props table none = All (λ r. applies ts props r ≡ false) table
Suggests ts props table (some a) =
    (r : EncodingRule) × Memᴰ r table
    × (applies ts props r ≡ true)
    × (r.actions ≡ a)
    × NoneBefore ts props r.priority table

module _ (ts : Texts) where
  abbrev Sorted : List EncodingRule → Type 0
  Sorted [] = Unit
  Sorted (r ∷ rs) = All (λ s. r.priority ≤ℤ s.priority) rs × Sorted rs

  All-insert {κ} :
      (P : EncodingRule → Type κ) (r : EncodingRule) (rs : List EncodingRule)
      → P r
      → All P rs
      → All P (insert_rule ts r rs)
  unfolding insert_rule
  All-insert P r [] h k = (h, tt)
  All-insert P r (s ∷ ss) h k = elim (Bool-cases (rule_before ts s r)) [
    | inl e ↦ rw e (k.0, All-insert P r ss h k.1)
    | inr e ↦ rw e (h, k)
  ]

  All-uninsert {κ} :
      (P : EncodingRule → Type κ) (r : EncodingRule) (rs : List EncodingRule)
      → All P (insert_rule ts r rs)
      → P r × All P rs
  unfolding insert_rule
  All-uninsert P r [] h = (h.0, tt)
  All-uninsert P r (s ∷ ss) h = elim (Bool-cases (rule_before ts s r)) [
    | inl e ↦ let k = rw e at h in let (a, b) = All-uninsert P r ss k.1 in (a, (k.0, b))
    | inr e ↦ rw e at h
  ]

  -- The table in any order has what its sorted rows have.
  All-listed {κ} :
      (P : EncodingRule → Type κ) (rs : List EncodingRule)
      → All P (list_encoding_rules ts rs)
      → All P rs
  unfolding list_encoding_rules
  All-listed P [] h = tt
  All-listed P (r ∷ rs) h =
      let (a, b) = All-uninsert P r (list_encoding_rules ts rs) h in (a, All-listed P rs b)

  All-to_listed {κ} :
      (P : EncodingRule → Type κ) (rs : List EncodingRule)
      → All P rs
      → All P (list_encoding_rules ts rs)
  unfolding list_encoding_rules
  All-to_listed P [] h = tt
  All-to_listed P (r ∷ rs) h =
      All-insert P r (list_encoding_rules ts rs) h.0 (All-to_listed P rs h.1)

  All-weaken :
      (p q : ℤ) (rs : List EncodingRule)
      → p ≤ℤ q
      → All (λ s. q ≤ℤ s.priority) rs
      → All (λ s. p ≤ℤ s.priority) rs
  All-weaken p q [] h k = tt
  All-weaken p q (r ∷ rs) h k = (omega (arith, h, k.0), All-weaken p q rs h k.1)

  before-low : (r s : EncodingRule) → rule_before ts s r ≡ true → s.priority ≤ℤ r.priority
  before-low r s h = ground arith

  not_before-low : (r s : EncodingRule) → rule_before ts s r ≡ false → r.priority ≤ℤ s.priority
  not_before-low r s h = ground arith

  insert_rule-Sorted :
      (r : EncodingRule) (rs : List EncodingRule) → Sorted rs → Sorted (insert_rule ts r rs)
  unfolding insert_rule
  insert_rule-Sorted r [] h = (tt, tt)
  insert_rule-Sorted r (s ∷ ss) h = elim (Bool-cases (rule_before ts s r)) [
    | inl e ↦ rw e (
      All-insert (λ t. s.priority ≤ℤ t.priority) r ss (before-low r s e) h.0,
      insert_rule-Sorted r ss h.1,
    )
    | inr e ↦
        let low = not_before-low r s e in
        rw e ((low, All-weaken r.priority s.priority ss low h.0), h)
  ]

  list_encoding_rules-Sorted : (rs : List EncodingRule) → Sorted (list_encoding_rules ts rs)
  unfolding list_encoding_rules
  list_encoding_rules-Sorted [] = tt
  list_encoding_rules-Sorted (r ∷ rs) =
      insert_rule-Sorted r (list_encoding_rules ts rs) (list_encoding_rules-Sorted rs)

  -- Of a table every row is a row.
  rows : (table : List EncodingRule) → All (λ r. Memᴰ r table) table
  rows [] = tt
  rows (r ∷ rs) = (Memᴰ.head refl, later r rs rs (rows rs))
    where
      later :
          (r : EncodingRule) (rs ss : List EncodingRule)
          → All (λ s. Memᴰ s rs) ss
          → All (λ s. Memᴰ s (r ∷ rs)) ss
      later r rs [] h = tt
      later r rs (s ∷ ss) h = (Memᴰ.tail h.0, later r rs ss h.1)

  -- What the loop finds on the sorted rows.
  abbrev Found :
      SourceProperties ts → List EncodingRule → List EncodingRule → Option RuleAction → Type 0
  Found props table rs none = All (λ r. applies ts props r ≡ false) rs
  Found props table rs (some a) =
      (r : EncodingRule) × Memᴰ r table
      × (applies ts props r ≡ true)
      × (r.actions ≡ a)
      × NoneBefore ts props r.priority rs

  skip :
      (props : SourceProperties ts) (table : List EncodingRule) (r : EncodingRule)
      (rs : List EncodingRule) (o : Option RuleAction)
      → applies ts props r ≡ false
      → Found props table rs o
      → Found props table (r ∷ rs) o
  skip props table r rs none e h = (e, h)
  skip props table r rs (some a) e (s, m, k, q, all) =
      (s, m, k, q, (λ t. absurd (ground (arith, e, t)), all))

  behind :
      (props : SourceProperties ts) (p : ℤ) (rs : List EncodingRule)
      → All (λ s. p ≤ℤ s.priority) rs
      → NoneBefore ts props p rs
  behind props p [] h = tt
  behind props p (r ∷ rs) h = ((λ t. h.0), behind props p rs h.1)

  first_match-skip :
      (props : SourceProperties ts) (r : EncodingRule) (rs : List EncodingRule)
      → applies ts props r ≡ false
      → first_match ts rs props ≡ first_match ts (r ∷ rs) props
  unfolding first_match
  first_match-skip props r rs h = ground (arith, h)

  first_match-take :
      (props : SourceProperties ts) (r : EncodingRule) (rs : List EncodingRule)
      → applies ts props r ≡ true
      → some r.actions ≡ first_match ts (r ∷ rs) props
  unfolding first_match
  first_match-take props r rs h = ground (arith, h)

  first_match-Found :
      (props : SourceProperties ts) (table rs : List EncodingRule)
      → All (λ r. Memᴰ r table) rs
      → Sorted rs
      → Found props table rs (first_match ts rs props)
  unfolding first_match
  first_match-Found props table [] m o = tt
  first_match-Found props table (r ∷ rs) m o = elim (Bool-cases (applies ts props r)) [
    | inl e ↦
        subst (Found props table (r ∷ rs)) (first_match-take props r rs e)
          (r, m.0, e, refl, ((λ t. omega arith), behind props r.priority rs o.0))
    | inr e ↦
        subst (Found props table (r ∷ rs)) (first_match-skip props r rs e)
          (skip props table r rs _ e (first_match-Found props table rs m.1 o.1))
  ]

-- For a table in any order, Evaluate answers the actions of a rule of the table that is enabled and
-- has all its conditions fulfilled, and no other such rule has a lower priority; it answers nothing
-- just when the table has no such rule.
pub evaluate-Suggests :
    (ts : Texts) (props : SourceProperties ts) (table : List EncodingRule)
    → Suggests ts props table (evaluate ts table props)
unfolding evaluate
evaluate-Suggests ts props table = settle (first_match ts sorted props) (
    first_match-Found ts props table sorted
      (All-to_listed ts (λ r. Memᴰ r table) table (rows ts table))
      (list_encoding_rules-Sorted ts table))
  where
    sorted : List EncodingRule
    sorted = list_encoding_rules ts table

    settle : (o : Option RuleAction) → Found ts props table sorted o → Suggests ts props table o
    settle none h = All-listed ts (λ r. applies ts props r ≡ false) table h
    settle (some a) (r, m, k, q, all) = (
      r,
      m,
      k,
      q,
      All-listed ts (λ s. applies ts props s ≡ true → r.priority ≤ℤ s.priority) table all,
    )
