-- ===== src/Engine/Flow.antt =====
-- internal/controller/engine/flowengine.go, ValidateFlow: the checks on the graph of a flow. The
-- graph is the one that encoding/json has decoded.
pub mod Order
pub mod Fuel
use encodeswarmr.Prelude.{
  ℕ, zero, suc, String, Bool, true, false, not, List, [], ◌∷◌, map, Option, none, some, ◌==◌,
  if◌then◌else◌, length, select, any_of,
}
use encodeswarmr.Prelude.Text.{codes, has_prefix}
use encodeswarmr.Db.Types.{RowId}
use encodeswarmr.Engine.Json.{Config}

pub record FlowNode : Type 0 where
  pub id : RowId
  pub node_type : String
  pub config : Config

pub record FlowEdge : Type 0 where
  pub id : RowId
  pub source : RowId
  pub target : RowId
  pub source_handle : String

pub record FlowGraph : Type 0 where
  pub nodes : List FlowNode
  pub edges : List FlowEdge

-- `out_of_fuel` is no error of the source: it stands for a search that does not end.
pub data FlowError : Type 0 where
  no_nodes no_input cyclic out_of_fuel : FlowError
  unknown_source unknown_target unknown_node : RowId → FlowError

-- The black nodes of the search, the last one to be finished first; or the error.
pub data Outcome : Type 0 where
  accepted : List RowId → Outcome
  refused : FlowError → Outcome

abbrev pub known : FlowGraph → RowId → Bool
known g id = any_of (λ n. n.id == id) g.nodes

unfoldable pub check_edges : FlowGraph → List FlowEdge → Option FlowError
check_edges g [] = none
check_edges g (e ∷ es) =
    let rest = check_edges g es in
    if not (known g e.source)
    then some (FlowError.unknown_source e.id)
    else if not (known g e.target)
    then some (FlowError.unknown_target e.id)
    else rest

unfoldable pub is_input : FlowNode → Bool
unfolding has_prefix
is_input n = has_prefix (codes "input_") (codes n.node_type)

-- edgesFrom[id]
unfoldable pub targets : FlowGraph → RowId → List RowId
targets g id = map (λ e. e.target) (select (λ e. e.source == id) g.edges)

unfoldable pub mem : RowId → List RowId → Bool
mem id ids = any_of (λ x. x == id) ids

abbrev pub and_then : Outcome → (List RowId → Outcome) → Outcome
and_then (Outcome.accepted black) k = k black
and_then (Outcome.refused e) k = Outcome.refused e

-- A search from each of a list of nodes, one after the other.
unfoldable pub visit_all : (RowId → List RowId → Outcome) → List RowId → List RowId → Outcome
visit_all visit [] black = Outcome.accepted black
visit_all visit (id ∷ ids) black = and_then (visit id black) (visit_all visit ids)

abbrev pub blacken : RowId → Outcome → Outcome
blacken id (Outcome.accepted black) = Outcome.accepted (id ∷ black)
blacken id (Outcome.refused e) = Outcome.refused e

-- The search from a node, with the grey nodes, which are those on the stack.
unfoldable pub dfs : FlowGraph → ℕ → List RowId → RowId → List RowId → Outcome
unfolding visit_all mem targets
dfs g zero grey id black = Outcome.refused FlowError.out_of_fuel
dfs g (suc fuel) grey id black = elim (mem id black) [
  | true ↦ Outcome.accepted black
  | false ↦ elim (mem id grey) [
    | true ↦ Outcome.refused FlowError.cyclic
    | false ↦ blacken id (visit_all (dfs g fuel (id ∷ grey)) (targets g id) black)
  ]
]

abbrev pub search_all : FlowGraph → Outcome
search_all g = visit_all (dfs g (suc (length g.nodes)) []) (map (λ n. n.id) g.nodes) []

abbrev pub checked : FlowGraph → Option FlowError → Outcome
checked g (some e) = Outcome.refused e
checked g none =
    if any_of is_input g.nodes then search_all g else Outcome.refused FlowError.no_input

unfoldable pub validate_flow : FlowGraph → Outcome
unfolding check_edges is_input dfs
validate_flow g =
    if length g.nodes == 0
    then Outcome.refused FlowError.no_nodes
    else checked g (check_edges g g.edges)
