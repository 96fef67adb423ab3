-- ===== src/Rules.antt =====
-- internal/controller/rules/rules.go: what the encoding rules suggest for a source. The table of the
-- rules is passed in. Functions of strings and strconv are parameters.
pub mod First
use text.Mathlib.Text.{◌==◌ as str_eq}
use encodeswarmr.Prelude.{
  ℕ, ℤ, String, Bool, true, false, not, ◌||◌, ◌&&◌, List, [], ◌∷◌, Option, none, some, ltbℤ, any_of,
  if◌then◌else◌,
}
use encodeswarmr.Db.Types.{RowId}
use encodeswarmr.Engine.Condition.{Reals, Operator, operator_of}

pub record RuleCondition : Type 0 where
  pub field : String
  pub operator : String
  pub value : String

pub record RuleAction : Type 0 where
  pub suggest_template_id : RowId
  pub suggest_audio_codec : String
  pub suggest_priority : ℤ
  pub suggest_tags : List String

pub record EncodingRule : Type 0 where
  pub id : RowId
  pub name : String
  pub priority : ℤ
  pub conditions : List RuleCondition
  pub actions : RuleAction
  pub enabled : Bool

-- `reals` here has strconv.ParseFloat as it is, `format` is strconv.FormatFloat, `equal_fold`
-- strings.EqualFold, `contains_fold` strings.Contains behind strings.ToLower, `split` strings.Split
-- at commas and `trim` strings.TrimSpace; `name_before` is the database's order of texts.
pub record Texts : Type 1 where
  pub reals : Reals
  pub format : reals.R → String
  pub equal_fold : String → String → Bool
  pub contains_fold : String → String → Bool
  pub split : String → List String
  pub trim : String → String
  pub name_before : String → String → Bool

-- ORDER BY priority ASC, name ASC
abbrev pub rule_before : Texts → EncodingRule → EncodingRule → Bool
rule_before ts r s =
    if ltbℤ r.priority s.priority
    then true
    else if ltbℤ s.priority r.priority
    then false
    else ts.name_before r.name s.name

unfoldable pub insert_rule : Texts → EncodingRule → List EncodingRule → List EncodingRule
insert_rule ts r [] = r ∷ []
insert_rule ts r (s ∷ ss) =
    let later = s ∷ insert_rule ts r ss in if rule_before ts s r then later else r ∷ s ∷ ss

unfoldable pub list_encoding_rules : Texts → List EncodingRule → List EncodingRule
unfolding insert_rule
list_encoding_rules ts [] = []
list_encoding_rules ts (r ∷ rs) = insert_rule ts r (list_encoding_rules ts rs)

module _ (ts : Texts) where
  open ts use {reals, format, equal_fold, contains_fold, split, trim}

  pub record SourceProperties : Type 0 where
    pub resolution : String
    pub hdr_type : String
    pub codec : String
    pub file_size_gb : reals.R
    pub duration_min : reals.R

  unfoldable pub field_value : String → SourceProperties → String
  field_value field props =
      if str_eq field "resolution"
      then props.resolution
      else if str_eq field "hdr_type"
      then props.hdr_type
      else if str_eq field "codec"
      then props.codec
      else if str_eq field "file_size_gb"
      then format props.file_size_gb
      else if str_eq field "duration_min"
      then format props.duration_min
      else ""

  abbrev pub ordered_so : Operator → reals.R → reals.R → Bool
  ordered_so Operator.gt l r = reals.lt_r r l
  ordered_so Operator.lt l r = reals.lt_r l r
  ordered_so Operator.gte l r = reals.le_r r l
  ordered_so Operator.lte l r = reals.le_r l r
  ordered_so _ l r = false

  abbrev pub compared : Operator → Option reals.R → Option reals.R → Bool
  compared op (some l) (some r) = ordered_so op l r
  compared op _ _ = false

  -- The cases of the switch behind those on texts.
  abbrev pub matches_number : Operator → String → String → Bool
  matches_number op l r = compared op (reals.parse l) (reals.parse r)

  unfoldable pub matches_one : RuleCondition → SourceProperties → Bool
  unfolding field_value operator_of
  matches_one c props =
      let value = field_value c.field props in
      if str_eq c.operator "eq"
      then equal_fold value c.value
      else if str_eq c.operator "neq"
      then not (equal_fold value c.value)
      else if str_eq c.operator "contains"
      then contains_fold value c.value
      else if str_eq c.operator "in"
      then any_of (λ v. equal_fold (trim v) value) (split c.value)
      else matches_number (operator_of c.operator) value c.value

  unfoldable pub matches_all : List RuleCondition → SourceProperties → Bool
  unfolding matches_one
  matches_all [] props = true
  matches_all (c ∷ cs) props =
      let rest = matches_all cs props in if not (matches_one c props) then false else rest

  unfoldable pub first_match : List EncodingRule → SourceProperties → Option RuleAction
  unfolding matches_all
  first_match [] props = none
  first_match (r ∷ rs) props =
      let rest = first_match rs props in
      if not r.enabled
      then rest
      else if matches_all r.conditions props
      then some r.actions
      else rest

  unfoldable pub evaluate : List EncodingRule → SourceProperties → Option RuleAction
  unfolding first_match list_encoding_rules
  evaluate table props = first_match (list_encoding_rules ts table) props
