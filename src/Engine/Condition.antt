-- ===== src/Engine/Condition.antt =====
-- internal/controller/engine/flowengine.go, evaluateCondition and compareStrings.
use text.Mathlib.Text.{◌==◌ as str_eq}
use encodeswarmr.Prelude.{
  ℕ, String, Bool, true, false, not, ◌&&◌, ◌||◌, List, [], ◌∷◌, Option, none, some, ltb, ◌==◌,
  if◌then◌else◌,
}
use encodeswarmr.Prelude.Text.{codes, is_blank}
use encodeswarmr.Engine.Json.{Json, Config, get, as_text, shown, is_present}

-- The floating-point numbers, with strconv.ParseFloat on a text freed of spaces at its ends.
pub record Reals : Type 1 where
  pub R : Type 0
  pub parse : String → Option R
  pub eq_r : R → R → Bool
  pub lt_r : R → R → Bool
  pub le_r : R → R → Bool

-- The order of texts byte by byte, which in UTF-8 is that of the code points.
unfoldable pub lex_lt : List ℕ → List ℕ → Bool
lex_lt s [] = false
lex_lt [] (d ∷ t) = true
lex_lt (c ∷ s) (d ∷ t) =
    let rest = lex_lt s t in if ltb c d then true else if c == d then rest else false

unfoldable pub text_lt : String → String → Bool
unfolding lex_lt
text_lt s t = lex_lt (codes s) (codes t)

pub data Operator : Type 0 where
  eq neq gt lt gte lte unknown : Operator

unfoldable pub operator_of : String → Operator
operator_of s =
    if str_eq s "eq"
    then Operator.eq
    else if str_eq s "neq"
    then Operator.neq
    else if str_eq s "gt"
    then Operator.gt
    else if str_eq s "lt"
    then Operator.lt
    else if str_eq s "gte"
    then Operator.gte
    else if str_eq s "lte"
    then Operator.lte
    else Operator.unknown

module _ (rs : Reals) where
  open rs use {R, parse, eq_r, lt_r, le_r}

  -- `none` where no case of the switch applies.
  unfoldable pub compare_numbers : Operator → R → R → Option Bool
  compare_numbers Operator.eq l r = some (eq_r l r)
  compare_numbers Operator.neq l r = some (not (eq_r l r))
  compare_numbers Operator.gt l r = some (lt_r r l)
  compare_numbers Operator.lt l r = some (lt_r l r)
  compare_numbers Operator.gte l r = some (le_r r l)
  compare_numbers Operator.lte l r = some (le_r l r)
  compare_numbers Operator.unknown l r = none

  unfoldable pub compare_texts : Operator → String → String → Bool
  unfolding text_lt
  compare_texts Operator.eq l r = str_eq l r
  compare_texts Operator.neq l r = not (str_eq l r)
  compare_texts Operator.gt l r = text_lt r l
  compare_texts Operator.lt l r = text_lt l r
  compare_texts Operator.gte l r = not (text_lt l r)
  compare_texts Operator.lte l r = not (text_lt r l)
  compare_texts Operator.unknown l r = not (is_blank l) || not (is_blank r)

  abbrev pub as_numbers : Operator → Option R → Option R → Option Bool
  as_numbers op (some l) (some r) = compare_numbers op l r
  as_numbers op _ _ = none

  abbrev pub or_texts : Option Bool → Bool → Bool
  or_texts none b = b
  or_texts (some a) b = a

  unfoldable pub compare_strings : String → String → String → Bool
  unfolding operator_of compare_numbers compare_texts
  compare_strings op left right =
      or_texts (as_numbers (operator_of op) (parse left) (parse right))
        (compare_texts (operator_of op) left right)

  abbrev pub truth_of : Json → Option Bool
  truth_of (Json.flag b) = some b
  truth_of (Json.str s) = some (not (is_blank s) && not (str_eq s "false") && not (str_eq s "0"))
  truth_of (Json.number zero v d) = some (not zero)
  truth_of (Json.other s) = none

  abbrev pub expression_truth : Option Json → Option Bool
  expression_truth none = none
  expression_truth (some v) = truth_of v

  abbrev pub field_holds : String → String → Option Json → Bool
  field_holds op want none = false
  field_holds op want (some v) = compare_strings op (shown v) want

  abbrev pub is_empty : Config → Bool
  is_empty [] = true
  is_empty (kv ∷ rest) = false

  -- The operator with its two texts, or the test that there is any entry at all.
  abbrev pub by_operator : Config → Bool
  by_operator cfg =
      if is_present (get "operator" cfg)
        || is_present (get "left" cfg)
        || is_present (get "right" cfg)
      then compare_strings (as_text (get "operator" cfg)) (as_text (get "left" cfg))
          (as_text (get "right" cfg))
      else not (is_empty cfg)

  unfoldable pub evaluate_condition : Config → Config → Bool
  unfolding get compare_strings
  evaluate_condition cfg summary =
      let field = as_text (get "field" cfg) in
      if not (is_blank field)
      then field_holds (as_text (get "operator" cfg)) (as_text (get "value" cfg))
          (get field summary)
      else or_texts (expression_truth (get "expression" cfg)) (by_operator cfg)
