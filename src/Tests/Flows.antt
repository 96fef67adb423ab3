-- ===== src/Tests/Flows.antt =====
-- The theorems on the execution of flows and on the encoding rules, at concrete inputs.
use encodeswarmr.Prelude.{
  ℕ, pos, ◌+◌, ◌≡◌, refl, String, true, false, List, [], ◌∷◌, none, ltb, leb, ◌==◌, any_of,
  find_first, select,
}
use encodeswarmr.Prelude.Text.{has_prefix}
use encodeswarmr.Engine.Json.{get, set_json}
use encodeswarmr.Engine.Condition.{Reals}
use encodeswarmr.Engine.Flow.{validate_flow, check_edges, is_input, dfs, visit_all, mem, targets}
use encodeswarmr.Engine.Walk.{
  Walk, Walked, TaskStep, execute_flow, walk, walk_each, find_node, next_nodes, follows,
}
use encodeswarmr.Engine.Walk.Steps.{same_node, Ordered, execute_flow-IsOnce}
use encodeswarmr.Engine.Walk.Accepted.{execute_flow-accepted}
use encodeswarmr.Prelude.{Distinct}
use encodeswarmr.Rules.{Texts, EncodingRule, SourceProperties, evaluate}
use encodeswarmr.Rules.First.{Suggests, evaluate-Suggests}
use text.Mathlib.Text.{◌==◌ as str_eq}
use encodeswarmr.Engine.Json.{Json}
use encodeswarmr.Tests.Store.{flow}

abbrev reals : Reals
reals = record {
  R = ℕ;
  parse = λ s. none;
  eq_r = λ a b. a == b;
  lt_r = λ a b. ltb a b;
  le_r = λ a b. leb a b;
}

-- The steps of the flow from the source 9.
abbrev three_steps : List TaskStep
three_steps =
    record {
      node_id = 1;
      node_type = "input_source";
      config = set_json "source_id" (Json.str "9") [];
      depends_on = [];
    }
    ∷ record { node_id = 2; node_type = "encode"; config = []; depends_on = 1 ∷ [] }
    ∷ record { node_id = 3; node_type = "output"; config = []; depends_on = 2 ∷ [] }
    ∷ []

execute_flow-accepted_example : (s : Walk) × (execute_flow reals [] flow "9" ≡ Walked.walked s)
unfolding validate_flow check_edges is_input dfs visit_all mem targets any_of select has_prefix
execute_flow-accepted_example = execute_flow-accepted reals [] flow "9" (1 ∷ 2 ∷ 3 ∷ []) refl

execute_flow-IsOnce_example : Distinct same_node three_steps × Ordered [] three_steps
unfolding execute_flow walk walk_each find_node next_nodes follows get set_json mem any_of select
    is_input find_first has_prefix
execute_flow-IsOnce_example =
    execute_flow-IsOnce reals [] flow "9"
      {s = record { visited = 3 ∷ 2 ∷ 1 ∷ []; steps = three_steps }} refl

abbrev texts : Texts
texts = record {
  reals = reals;
  format = λ n. "";
  equal_fold = λ a b. str_eq a b;
  contains_fold = λ a b. false;
  split = λ s. s ∷ [];
  trim = λ s. s;
  name_before = λ a b. false;
}

abbrev rule_for : ℕ → String → EncodingRule
rule_for n codec = record {
  id = n;
  name = "rule";
  priority = pos (10 + n);
  conditions = record { field = "codec"; operator = "eq"; value = codec } ∷ [];
  actions = record {
    suggest_template_id = n;
    suggest_audio_codec = "";
    suggest_priority = pos 0;
    suggest_tags = [];
  };
  enabled = true;
}

abbrev two_rules : List EncodingRule
two_rules = rule_for 2 "hevc" ∷ rule_for 1 "hevc" ∷ []

abbrev properties : SourceProperties texts
properties = record {
  resolution = "1920x1080";
  hdr_type = "";
  codec = "hevc";
  file_size_gb = 4;
  duration_min = 90;
}

evaluate-Suggests_example :
    Suggests texts properties two_rules (evaluate texts two_rules properties)
evaluate-Suggests_example = evaluate-Suggests texts properties two_rules
