-- ===== src/Graph/Editor.antt =====
-- web/src/browser/graph/editorState.ts: the state of the graph editor, and its reducer.
-- `structuredClone` copies a value, so that it has no counterpart.
pub mod Agreement
pub mod Undo
pub mod Preview
use af_companion.Prelude.{
  String, ℕ, Bool, true, false, Option, none, some, List, [], ◌∷◌, ◌++◌, if◌then◌else◌,
}
use af_companion.Graph.Types.{
  GraphIr, GraphSelection, GraphEditOperation, add_node, replace_node, remove_node, add_edge,
  replace_edge, remove_edge, add_region, replace_region, remove_region, GraphDraft,
  GraphWorkspaceSnapshot,
}
use af_companion.Graph.Elements.{splice, assign, find_index}
use af_companion.Graph.Operations.{with_nodes, with_edges, with_regions}

pub data Phase : Type 0 where
  loading ready saving error conflict : Phase

-- a `path` and a `message`
pub record FieldError : Type 0 where
  pub path : String
  pub message : String

pub record GraphEditorState : Type 0 where
  pub phase : Phase
  pub workspace : Option GraphWorkspaceSnapshot
  pub draft_graph : Option GraphIr
  pub selection : Option GraphSelection
  pub history : List (List GraphEditOperation)
  pub redo : List (List GraphEditOperation)
  pub notice : Option String
  pub field_errors : List FieldError

pub data GraphEditorAction : Type 0 where
  loaded : GraphWorkspaceSnapshot → Option String → GraphEditorAction
  workspace_synced : GraphWorkspaceSnapshot → GraphEditorAction
  load_failed : String → GraphEditorAction
  select : Option GraphSelection → GraphEditorAction
  stage : List GraphEditOperation → GraphEditorAction
  undo redo saving : GraphEditorAction
  save_failed : String → Bool → Option (List FieldError) → GraphEditorAction

abbrev pub initial_graph_editor_state : GraphEditorState
initial_graph_editor_state = record {
  phase = loading;
  workspace = none;
  draft_graph = none;
  selection = none;
  history = [];
  redo = [];
  notice = none;
  field_errors = [];
}

abbrev pub splice_found {ℓ} : {A : Type ℓ} → Option ℕ → List A → List A
splice_found none xs = xs
splice_found (some i) xs = splice i xs

abbrev pub assign_found {ℓ} : {A : Type ℓ} → Option ℕ → A → List A → List A
assign_found none v xs = xs
assign_found (some i) v xs = assign i v xs

-- one round of the loop of `rebuild`
unfoldable pub rebuild_one : GraphIr → GraphEditOperation → GraphIr
rebuild_one g (add_node v) = with_nodes g (g.nodes ++ v ∷ [])
rebuild_one g (replace_node id v) =
    with_nodes g (assign_found (find_index (λ x. x.id) id g.nodes) v g.nodes)
rebuild_one g (remove_node id) =
    with_nodes g (splice_found (find_index (λ x. x.id) id g.nodes) g.nodes)
rebuild_one g (add_edge v) = with_edges g (g.edges ++ v ∷ [])
rebuild_one g (replace_edge id v) =
    with_edges g (assign_found (find_index (λ x. x.id) id g.edges) v g.edges)
rebuild_one g (remove_edge id) =
    with_edges g (splice_found (find_index (λ x. x.id) id g.edges) g.edges)
rebuild_one g (add_region v) = with_regions g (g.regions ++ v ∷ [])
rebuild_one g (replace_region id v) =
    with_regions g (assign_found (find_index (λ x. x.id) id g.regions) v g.regions)
rebuild_one g (remove_region id) =
    with_regions g (splice_found (find_index (λ x. x.id) id g.regions) g.regions)

unfoldable pub rebuild_all : List GraphEditOperation → GraphIr → GraphIr
unfolding rebuild_one
rebuild_all [] g = g
rebuild_all (o ∷ os) g = rebuild_all os (rebuild_one g o)

-- `history.flat()`
unfoldable pub flat : List (List GraphEditOperation) → List GraphEditOperation
flat [] = []
flat (os ∷ history) = os ++ flat history

unfoldable pub rebuild : GraphIr → List (List GraphEditOperation) → GraphIr
unfolding rebuild_all flat
rebuild base history = rebuild_all (flat history) base

unfoldable pub pending_operations : GraphEditorState → List GraphEditOperation
unfolding flat
pending_operations s = flat s.history

-- `history.slice(0, -1)`
unfoldable pub all_but_last {ℓ} : {A : Type ℓ} → List A → List A
all_but_last [] = []
all_but_last (x ∷ []) = []
all_but_last (x ∷ y ∷ xs) = x ∷ all_but_last (y ∷ xs)

-- `history.at(-1)`
unfoldable pub last {ℓ} : {A : Type ℓ} → List A → Option A
last [] = none
last (x ∷ []) = some x
last (x ∷ y ∷ xs) = last (y ∷ xs)

abbrev draft_history : Option GraphDraft → List (List GraphEditOperation)
draft_history none = []
draft_history (some d) = d.operations ∷ []

abbrev undo_last :
    Option GraphWorkspaceSnapshot
    → Option (List GraphEditOperation)
    → GraphEditorState
    → GraphEditorState
undo_last (some w) (some batch) s = record s {
  draft_graph = some (rebuild w.graph (all_but_last s.history));
  history = all_but_last s.history;
  redo = batch ∷ s.redo;
  notice = some "마지막 변경을 되돌렸습니다.";
}
undo_last _ _ s = s

abbrev redo_first :
    Option GraphWorkspaceSnapshot
    → List (List GraphEditOperation)
    → GraphEditorState
    → GraphEditorState
redo_first (some w) (batch ∷ rest) s = record s {
  draft_graph = some (rebuild w.graph (s.history ++ batch ∷ []));
  history = s.history ++ batch ∷ [];
  redo = rest;
  notice = some "변경을 다시 적용했습니다.";
}
redo_first _ _ s = s

abbrev stage_on :
    Option GraphWorkspaceSnapshot → List GraphEditOperation → GraphEditorState → GraphEditorState
stage_on none operations s = s
stage_on (some w) operations s = record s {
  phase = ready;
  draft_graph = some (rebuild w.graph (s.history ++ operations ∷ []));
  history = s.history ++ operations ∷ [];
  redo = [];
  field_errors = [];
  notice = some "저장 전 변경 공유됨";
}

abbrev or_empty : Option (List FieldError) → List FieldError
or_empty none = []
or_empty (some es) = es

unfoldable pub graph_editor_reducer : GraphEditorState → GraphEditorAction → GraphEditorState
unfolding rebuild all_but_last last
graph_editor_reducer s (loaded w notice) = record {
  phase = ready;
  workspace = some w;
  draft_graph = some (rebuild w.graph (draft_history w.active_draft));
  selection = w.active_selection;
  history = draft_history w.active_draft;
  redo = [];
  notice = notice;
  field_errors = [];
}
graph_editor_reducer s (workspace_synced w) = record s { workspace = some w }
graph_editor_reducer s (load_failed message) = record s { phase = error; notice = some message }
graph_editor_reducer s (select selection) = record s { selection = selection; notice = none }
graph_editor_reducer s (stage operations) = stage_on s.workspace operations s
graph_editor_reducer s undo = undo_last s.workspace (last s.history) s
graph_editor_reducer s redo = redo_first s.workspace s.redo s
graph_editor_reducer s saving = record s { phase = saving; notice = some "Graph 저장 중…" }
graph_editor_reducer s (save_failed message is_conflict field_errors) = record s {
  phase = if is_conflict then conflict else error;
  notice = some message;
  field_errors = or_empty field_errors;
}
