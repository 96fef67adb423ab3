-- ===== src/Engine/Walk.antt =====
-- internal/controller/engine/flowengine.go, ExecuteFlow: the walk over the graph of a flow, from
-- its input node. The context is not cancelled.
pub mod Steps
pub mod Ends
pub mod Nodes
pub mod Accepted
use text.Mathlib.Text.{◌==◌ as str_eq}
use encodeswarmr.Prelude.{
  ℕ, zero, suc, String, Bool, true, false, not, ◌&&◌, ◌||◌, List, [], ◌∷◌, ◌++◌, map, Option, none,
  some, ◌==◌, if◌then◌else◌, length, select, find_first, any_of,
}
use encodeswarmr.Prelude.Text.{is_blank}
use encodeswarmr.Db.Types.{RowId}
use encodeswarmr.Engine.Json.{Json, Config, get, set_json}
use encodeswarmr.Engine.Condition.{Reals, evaluate_condition}
use encodeswarmr.Engine.Flow.{FlowNode, FlowEdge, FlowGraph, FlowError, is_input, mem}

pub record TaskStep : Type 0 where
  pub node_id : RowId
  pub node_type : String
  pub config : Config
  pub depends_on : List RowId

pub record Walk : Type 0 where
  pub visited : List RowId
  pub steps : List TaskStep

pub data Walked : Type 0 where
  walked : Walk → Walked
  failed : FlowError → Walked

abbrev pub or_later : Option FlowNode → Option FlowNode → Option FlowNode
or_later (some n) o = some n
or_later none o = o

-- nodeByID: of nodes with one identifier the last one stays.
unfoldable pub find_node : RowId → List FlowNode → Option FlowNode
find_node id [] = none
find_node id (n ∷ ns) = or_later (find_node id ns) (if n.id == id then some n else none)

abbrev pub simulates : Option Json → Bool
simulates (some (Json.flag b)) = b
simulates (some (Json.str s)) = str_eq s "true"
simulates _ = false

abbrev pub is_condition : FlowNode → Bool
is_condition n = str_eq n.node_type "condition"

-- The handle of the branch that a condition takes.
abbrev pub branch : Bool → Bool → String
branch failing result = if failing then "error" else if result then "true" else "false"

module _ (rs : Reals) (summary : Config) where
  -- Whether the walk goes along an edge that leaves a node.
  unfoldable pub follows : FlowNode → Config → FlowEdge → Bool
  unfolding get evaluate_condition
  follows n cfg e =
      let failing = simulates (get "simulate_error" cfg) in
      if is_condition n
      then str_eq e.source_handle (branch failing (evaluate_condition rs cfg summary))
        || is_blank e.source_handle
      else if failing
      then str_eq e.source_handle "error"
      else not (str_eq e.source_handle "error")

  unfoldable pub next_nodes : FlowGraph → FlowNode → Config → RowId → List RowId
  unfolding follows
  next_nodes g n cfg id =
      map (λ e. e.target) (select (follows n cfg) (select (λ e. e.source == id) g.edges))

  abbrev pub then_walk : Walked → (Walk → Walked) → Walked
  then_walk (Walked.walked s) k = k s
  then_walk (Walked.failed e) k = Walked.failed e

  -- The loop over the edges of a node.
  unfoldable pub walk_each : (RowId → Walk → Walked) → List RowId → Walk → Walked
  walk_each visit [] s = Walked.walked s
  walk_each visit (id ∷ ids) s = then_walk (visit id s) (walk_each visit ids)

  -- The configuration of a step: the input node's has the source in it.
  abbrev pub config_of : FlowNode → String → RowId → FlowNode → Config
  config_of input source_id id n =
      if id == input.id then set_json "source_id" (Json.str source_id) input.config else n.config

  abbrev pub add_step : RowId → FlowNode → Config → List RowId → Walk → Walk
  add_step id n cfg depends_on s = record {
    visited = id ∷ s.visited;
    steps =
        s.steps
        ++ record { node_id = id; node_type = n.node_type; config = cfg; depends_on = depends_on }
          ∷ [];
  }

  -- `stack` are the nodes on the path of the walk.
  unfoldable pub walk :
      FlowGraph → FlowNode → String → ℕ → List RowId → List RowId → RowId → Walk → Walked
  unfolding mem find_node next_nodes walk_each set_json
  walk g input source_id zero stack depends_on id s = Walked.failed FlowError.out_of_fuel
  walk g input source_id (suc fuel) stack depends_on id s = elim (mem id stack) [
    | true ↦ Walked.failed FlowError.cyclic
    | false ↦ elim (mem id s.visited) [
      | true ↦ Walked.walked s
      | false ↦ elim (find_node id g.nodes) [
        | none ↦ Walked.failed (FlowError.unknown_node id)
        | some n ↦
            walk_each (walk g input source_id fuel (id ∷ stack) (id ∷ []))
              (next_nodes g n (config_of input source_id id n) id)
              (add_step id n (config_of input source_id id n) depends_on s)
      ]
    ]
  ]

  abbrev pub walk_from : FlowGraph → String → Option FlowNode → Walked
  walk_from g source_id none = Walked.failed FlowError.no_input
  walk_from g source_id (some input) =
      walk g input source_id (suc (length g.nodes)) [] [] input.id
        (record { visited = []; steps = [] })

  unfoldable pub execute_flow : FlowGraph → String → Walked
  unfolding walk is_input
  execute_flow g source_id =
      if length g.nodes == 0
      then Walked.failed FlowError.no_nodes
      else walk_from g source_id (find_first is_input g.nodes)
