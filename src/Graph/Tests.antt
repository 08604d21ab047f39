-- ===== src/Graph/Tests.antt =====
-- The theorems about the graph, applied to a small graph and an editor that shows it.
use af_companion.Prelude.{
  ◌&&◌, ◌||◌, String, get_elem?, ◌==◌, if◌then◌else◌, false, ◌≡◌, refl, none, some, List, [], ◌∷◌,
}
use af_companion.Graph.Types.{
  GraphRegion, parallel, GraphNode, agent_node, input_node, GraphIr, node, GraphEditOperation,
  add_node, replace_node, remove_node, GraphWorkspaceSnapshot, valid,
}
use af_companion.Graph.Elements
use af_companion.Graph.Operations.{done, apply_one, apply_all}
use af_companion.Graph.Operations
use af_companion.Graph.Operations.Lookup.{find, changed, touched, HasDistinctIds}
use af_companion.Prelude.StringMap.{is_some, contains}
use af_companion.Graph.Membership.{
  move_node_to_region, is_target, append_node_to_region, append_node_to_region-members,
  move_node_to_region-members, move_node_to_region_idempotent,
}
use af_companion.Graph.Types.{GraphSelection}
use af_companion.Graph.Operations.{selection_exists}
use af_companion.Graph.Operations.Selection.{apply_one-selection_exists}
use af_companion.Graph.Operations.Effect.{apply_one-find, apply_all-HasDistinctIds}
use af_companion.Graph.Operations.Refusal.{code_of, refusal, apply_one-code}
use af_companion.Graph.Editor.{
  GraphEditorState, GraphEditorAction, loaded, workspace_synced, stage, ready, rebuild, flat, last,
  graph_editor_reducer, initial_graph_editor_state,
}
use af_companion.Graph.Editor.Agreement.{rebuild-apply_all}
use af_companion.Graph.Editor.Undo.{redo-undo, undo-redo, undo-stage}
use af_companion.Graph.Editor.Preview.{
  IsPreview, AllAllowed, Allowed, reduce_all, reduce_all-IsPreview,
}

abbrev start : GraphNode
start = record { id = "in"; label = "Start"; body = input_node }

abbrev writer : GraphNode
writer = record { id = "w"; label = "Writer"; body = agent_node "agent.writer" [] }

abbrev one_node : GraphIr
one_node = record {
  graph_id = "g";
  source_requirement_id = "r";
  workflow_ref = none;
  nodes = start ∷ [];
  edges = [];
  regions = [];
}

abbrev two_nodes : GraphIr
two_nodes = record one_node { nodes = start ∷ writer ∷ [] }

one_node-HasDistinctIds : HasDistinctIds one_node
unfolding Elements.IsDistinct Elements.has_id
one_node-HasDistinctIds = record { of_nodes = (refl, tt); of_edges = tt; of_regions = tt }

writer_added : apply_one one_node (add_node writer) 0 ≡ done two_nodes
unfolding apply_one Operations.add_element Elements.has_id
writer_added = refl

apply_one-find_example :
    find node "w" two_nodes ≡ changed (touched (add_node writer)) node "w" one_node
apply_one-find_example =
    apply_one-find one_node two_nodes (add_node writer) 0 node "w" one_node-HasDistinctIds
      writer_added

abbrev edits : List GraphEditOperation
edits = add_node writer ∷ remove_node "in" ∷ []

edits_applied : apply_all edits 0 one_node ≡ done (record one_node { nodes = writer ∷ [] })
unfolding apply_all apply_one Operations.add_element Operations.remove_element Elements.has_id
    Elements.find_index Elements.splice
edits_applied = refl

apply_all-HasDistinctIds_example : HasDistinctIds (record one_node { nodes = writer ∷ [] })
apply_all-HasDistinctIds_example =
    apply_all-HasDistinctIds edits 0 one_node (record one_node { nodes = writer ∷ [] })
      one_node-HasDistinctIds edits_applied

apply_one-code_example :
    code_of (apply_one one_node (replace_node "in" writer) 4)
    ≡ refusal (replace_node "in" writer) one_node
apply_one-code_example = apply_one-code one_node (replace_node "in" writer) 4

flat-edits :
    apply_all (flat (edits ∷ [])) 0 one_node ≡ done (record one_node { nodes = writer ∷ [] })
unfolding flat apply_all apply_one Operations.add_element Operations.remove_element Elements.has_id
    Elements.find_index Elements.splice
flat-edits = refl

rebuild-apply_all_example : rebuild one_node (edits ∷ []) ≡ record one_node { nodes = writer ∷ [] }
rebuild-apply_all_example =
    rebuild-apply_all one_node (record one_node { nodes = writer ∷ [] }) (edits ∷ []) 0 flat-edits

abbrev snapshot : GraphWorkspaceSnapshot
snapshot = record {
  document_revision = "d";
  graph_revision = "r";
  published_at = "t";
  scope = record { workspace_id = "ws"; application_id = "app"; work_id = none };
  graph = one_node;
  active_selection = none;
  active_draft = none;
  recent_changes = [];
  source_health = valid "t" "r";
  presentation = record { positions = []; viewport = record { x = "0"; y = "0"; zoom = "1" } };
}

abbrev edited : GraphEditorState
edited = record {
  phase = ready;
  workspace = some snapshot;
  draft_graph = some (rebuild one_node (edits ∷ []));
  selection = none;
  history = edits ∷ [];
  redo = (remove_node "w" ∷ []) ∷ [];
  notice = none;
  field_errors = [];
}

redo-undo_example :
    graph_editor_reducer (graph_editor_reducer edited GraphEditorAction.undo) GraphEditorAction.redo
    ≡ record edited { notice = some "변경을 다시 적용했습니다." }
unfolding last
redo-undo_example = redo-undo edited snapshot edits refl refl refl

undo-redo_example :
    graph_editor_reducer (graph_editor_reducer edited GraphEditorAction.redo) GraphEditorAction.undo
    ≡ record edited { notice = some "마지막 변경을 되돌렸습니다." }
undo-redo_example = undo-redo edited snapshot (remove_node "w" ∷ []) [] refl refl refl

undo-stage_example :
    ((graph_editor_reducer
        (graph_editor_reducer edited (stage edits))
        GraphEditorAction.undo).draft_graph
      ≡ edited.draft_graph)
    × ((graph_editor_reducer
          (graph_editor_reducer edited (stage edits))
          GraphEditorAction.undo).history
        ≡ edited.history)
    × ((graph_editor_reducer
          (graph_editor_reducer edited (stage edits))
          GraphEditorAction.undo).redo
        ≡ edits ∷ [])
undo-stage_example = undo-stage edited snapshot edits refl refl

abbrev session : List GraphEditorAction
session =
    loaded snapshot none ∷ stage edits ∷ workspace_synced snapshot ∷ GraphEditorAction.undo ∷ []

session_allowed : AllAllowed session initial_graph_editor_state
unfolding AllAllowed Allowed graph_editor_reducer
session_allowed = (tt, (tt, (refl, (tt, tt))))

reduce_all-IsPreview_example : IsPreview (reduce_all session initial_graph_editor_state)
reduce_all-IsPreview_example = reduce_all-IsPreview session session_allowed

abbrev writer_selected : GraphSelection
writer_selected = record { kind = node; id = "w" }

apply_one-selection_exists_example :
    selection_exists two_nodes (some writer_selected)
    ≡ is_some (changed (touched (add_node writer)) node "w" one_node)
apply_one-selection_exists_example =
    apply_one-selection_exists one_node two_nodes (add_node writer) 0 writer_selected
      one_node-HasDistinctIds writer_added

abbrev region_of_writer : GraphRegion
region_of_writer = record {
  id = "r1";
  kind = parallel;
  node_ids = "w" ∷ "in" ∷ [];
  entry_node_ids = "w" ∷ [];
  exit_node_ids = "in" ∷ [];
  parent_region_id = none;
}

abbrev two_regions : List GraphRegion
two_regions = record region_of_writer { id = "r2"; node_ids = [] } ∷ region_of_writer ∷ []

move_node_to_region-members_example :
    (q : GraphRegion) × (get_elem? (move_node_to_region two_regions "w" (some "r2")) 1 ≡ some q)
    × (q.id ≡ "r1")
    × ((j : String)
        → contains j q.node_ids
          ≡ (if "w" == j then is_target (some "r2") "r1" else contains j region_of_writer.node_ids))
    × ((j : String)
        → contains j q.entry_node_ids
          ≡ (if "w" == j then false else contains j region_of_writer.entry_node_ids))
    × ((j : String)
        → contains j q.exit_node_ids
          ≡ (if "w" == j then false else contains j region_of_writer.exit_node_ids))
move_node_to_region-members_example =
    move_node_to_region-members two_regions "w" (some "r2") 1 region_of_writer refl

move_node_to_region_idempotent_example :
    move_node_to_region (move_node_to_region two_regions "w" (some "r2")) "w" (some "r2")
    ≡ move_node_to_region two_regions "w" (some "r2")
move_node_to_region_idempotent_example = move_node_to_region_idempotent two_regions "w" (some "r2")

appended_member :
    (q : GraphRegion) × (get_elem? (append_node_to_region two_regions "r1" "new") 1 ≡ some q)
    × (q.id ≡ "r1")
    × ((j : String)
        → contains j q.node_ids
          ≡ (("r1" == "r1" && "new" == j) || contains j region_of_writer.node_ids))
    × (q.entry_node_ids ≡ region_of_writer.entry_node_ids)
    × (q.exit_node_ids ≡ region_of_writer.exit_node_ids)
appended_member = append_node_to_region-members two_regions "r1" "new" 1 region_of_writer refl
