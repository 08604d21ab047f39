-- ===== src/Graph/Types.antt =====
-- packages/companion/graph-domain/src/types.ts, and the documents of
-- packages/companion/contracts/src/ui-context.ts that hold a graph.
-- `null` is `none`; a field that may also be absent is an `Option` of an `Option`. A number is
-- carried by the text of `String(n)`, a record of named values by a list of pairs.
use af_companion.Prelude.{String, ℕ, Bool, Option, List}

pub data GraphNodeKind : Type 0 where
  input agent tool function human_input subworkflow join output : GraphNodeKind

pub data GraphControlKind : Type 0 where
  next condition fan_out fan_in loop_back loop_exit retry fallback : GraphControlKind
  error callback resume cancel timeout : GraphControlKind

pub data GraphChannel : Type 0 where
  event state artifact : GraphChannel

pub data GraphRegionKind : Type 0 where
  parallel loop : GraphRegionKind

pub data FunctionRole : Type 0 where
  transform validate route merge prepare_input format_output : FunctionRole

-- `invocation_control` is always "agent"
pub record AvailableToolReference : Type 0 where
  pub tool_ref : String

pub record HumanInputContract : Type 0 where
  pub message : String
  pub payload_schema_ref : Option String
  pub response_schema_ref : Option String
  pub response_mapping : Option (List (String × String))
  pub choice_options : Option (Option (List String))
  pub accepted_aliases : Option (Option (List (String × List String)))
  pub default_choice : Option (Option String)

-- what a node has beside its id and its label, by its kind
pub data NodeBody : Type 0 where
  input_node join_node output_node : NodeBody
  agent_node : String → List AvailableToolReference → NodeBody
  tool_node : String → NodeBody
  function_node : FunctionRole → NodeBody
  human_input_node : HumanInputContract → NodeBody
  subworkflow_node : String → NodeBody

pub record GraphNode : Type 0 where
  pub id : String
  pub label : String
  pub body : NodeBody

abbrev pub node_kind : GraphNode → GraphNodeKind
node_kind n = kind_of n.body
  where
    kind_of : NodeBody → GraphNodeKind
    kind_of input_node = input
    kind_of join_node = join
    kind_of output_node = output
    kind_of (agent_node _ _) = agent
    kind_of (tool_node _) = tool
    kind_of (function_node _) = function
    kind_of (human_input_node _) = human_input
    kind_of (subworkflow_node _) = subworkflow

pub record GraphEdgeControl : Type 0 where
  pub kind : GraphControlKind
  pub condition : Option String
  pub accepted_aliases : List String
  pub default : Bool

-- `from` and `to` are the ids of the nodes
pub record GraphEdge : Type 0 where
  pub id : String
  pub from_id : String
  pub to_id : String
  pub control : GraphEdgeControl
  pub channel : Option GraphChannel

pub record GraphRegion : Type 0 where
  pub id : String
  pub kind : GraphRegionKind
  pub node_ids : List String
  pub entry_node_ids : List String
  pub exit_node_ids : List String
  pub parent_region_id : Option String

pub record GraphIr : Type 0 where
  pub graph_id : String
  pub source_requirement_id : String
  pub workflow_ref : Option String
  pub nodes : List GraphNode
  pub edges : List GraphEdge
  pub regions : List GraphRegion

pub data GraphElementKind : Type 0 where
  node edge region : GraphElementKind

pub record GraphSelection : Type 0 where
  pub kind : GraphElementKind
  pub id : String

pub data GraphEditOperation : Type 0 where
  add_node : GraphNode → GraphEditOperation
  replace_node : String → GraphNode → GraphEditOperation
  remove_node : String → GraphEditOperation
  add_edge : GraphEdge → GraphEditOperation
  replace_edge : String → GraphEdge → GraphEditOperation
  remove_edge : String → GraphEditOperation
  add_region : GraphRegion → GraphEditOperation
  replace_region : String → GraphRegion → GraphEditOperation
  remove_region : String → GraphEditOperation

pub record GraphDiff : Type 0 where
  pub changed_nodes : List String
  pub changed_edges : List String
  pub changed_regions : List String
  pub changed_count : ℕ

pub record GraphPosition : Type 0 where
  pub x : String
  pub y : String
  pub pinned : Bool

pub record GraphViewport : Type 0 where
  pub x : String
  pub y : String
  pub zoom : String

pub record GraphPresentation : Type 0 where
  pub positions : List (String × GraphPosition)
  pub viewport : GraphViewport

pub data GraphSourceHealth : Type 0 where
  valid : String → String → GraphSourceHealth
  invalid : String → String → String → GraphSourceHealth

pub record GraphDraft : Type 0 where
  pub base_graph_revision : String
  pub operations : List GraphEditOperation
  pub changed_count : ℕ
  pub updated_at : String

pub data ChangeSource : Type 0 where
  web mcp external : ChangeSource

pub record RecentGraphChange : Type 0 where
  pub source : ChangeSource
  pub previous_graph_revision : String
  pub graph_revision : String
  pub diff : GraphDiff
  pub changed_at : String

pub record CompanionScope : Type 0 where
  pub workspace_id : String
  pub application_id : String
  pub work_id : Option String

-- `schema_version` is always 2, and `authority` always "none"
pub record GraphWorkspaceSnapshot : Type 0 where
  pub document_revision : String
  pub graph_revision : String
  pub published_at : String
  pub scope : CompanionScope
  pub graph : GraphIr
  pub active_selection : Option GraphSelection
  pub active_draft : Option GraphDraft
  pub recent_changes : List RecentGraphChange
  pub source_health : GraphSourceHealth
  pub presentation : GraphPresentation
