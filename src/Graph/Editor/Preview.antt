-- ===== src/Graph/Editor/Preview.antt =====
-- The graph that the editor shows, beside the workspace's graph with the staged changes.
use af_companion.Prelude.{◌≡◌, refl, Option, none, some, List, [], ◌∷◌, Option-cases, inl, inr}
use af_companion.Graph.Types.{GraphWorkspaceSnapshot}
use af_companion.Graph.Editor.{
  GraphEditorState, GraphEditorAction, loaded, workspace_synced, load_failed, select, stage,
  save_failed, graph_editor_reducer, rebuild, last, initial_graph_editor_state,
}

-- Before a workspace is loaded nothing is staged, or shown.
abbrev pub IsPreviewOf : Option GraphWorkspaceSnapshot → GraphEditorState → Type 0
IsPreviewOf none s = (s.draft_graph ≡ none) × (s.history ≡ []) × (s.redo ≡ [])
IsPreviewOf (some w) s = s.draft_graph ≡ some (rebuild w.graph s.history)

unfoldable pub IsPreview : GraphEditorState → Type 0
IsPreview s = IsPreviewOf s.workspace s

-- the synced workspace has the graph of the one that was there
abbrev HasGraphOf : Option GraphWorkspaceSnapshot → GraphWorkspaceSnapshot → Type 0
HasGraphOf none v = ⊥
HasGraphOf (some w) v = v.graph ≡ w.graph

-- the actions that `IsPreview` allows: a workspace that is synced has the graph that is there
unfoldable pub Allowed : GraphEditorState → GraphEditorAction → Type 0
Allowed s (workspace_synced v) = HasGraphOf s.workspace v
Allowed s a = Unit {0}

unfoldable pub AllAllowed : List GraphEditorAction → GraphEditorState → Type 0
unfolding Allowed
AllAllowed [] s = Unit {0}
AllAllowed (a ∷ actions) s = Allowed s a × AllAllowed actions (graph_editor_reducer s a)

unfoldable pub reduce_all : List GraphEditorAction → GraphEditorState → GraphEditorState
reduce_all [] s = s
reduce_all (a ∷ actions) s = reduce_all actions (graph_editor_reducer s a)

-- split on the workspace, which the reducer reads
graph_editor_reducer-IsPreview :
    (o : Option GraphWorkspaceSnapshot) (a : GraphEditorAction) (s : GraphEditorState)
    → IsPreviewOf o (record s { workspace = o })
    → Allowed (record s { workspace = o }) a
    → IsPreview (graph_editor_reducer (record s { workspace = o }) a)
unfolding IsPreview Allowed graph_editor_reducer
graph_editor_reducer-IsPreview o (loaded w notice) s p h = refl
graph_editor_reducer-IsPreview none (workspace_synced v) s p h = absurd h
graph_editor_reducer-IsPreview (some w) (workspace_synced v) s p h = rw h (p)
graph_editor_reducer-IsPreview none (load_failed m) s p h = p
graph_editor_reducer-IsPreview (some w) (load_failed m) s p h = p
graph_editor_reducer-IsPreview none (select x) s p h = p
graph_editor_reducer-IsPreview (some w) (select x) s p h = p
graph_editor_reducer-IsPreview none (stage os) s p h = p
graph_editor_reducer-IsPreview (some w) (stage os) s p h = refl
graph_editor_reducer-IsPreview none GraphEditorAction.undo s p h = p
graph_editor_reducer-IsPreview (some w) GraphEditorAction.undo s p h =
    elim (Option-cases (last s.history)) [ inl e ↦ rw e (p) | inr (batch, e) ↦ rw e (refl) ]
graph_editor_reducer-IsPreview none GraphEditorAction.redo s p h = p
graph_editor_reducer-IsPreview (some w) GraphEditorAction.redo s p h =
    elim s.redo
      as (λ r.
        IsPreview (
          graph_editor_reducer (record s { workspace = some w; redo = r })
            GraphEditorAction.redo)) [ [] ↦ p | batch ∷ rest ↦ refl ]
graph_editor_reducer-IsPreview none GraphEditorAction.saving s p h = p
graph_editor_reducer-IsPreview (some w) GraphEditorAction.saving s p h = p
graph_editor_reducer-IsPreview none (save_failed m c es) s p h = p
graph_editor_reducer-IsPreview (some w) (save_failed m c es) s p h = p

reduce_all-IsPreview_from :
    (actions : List GraphEditorAction) (s : GraphEditorState)
    → IsPreview s
    → AllAllowed actions s
    → IsPreview (reduce_all actions s)
unfolding AllAllowed reduce_all IsPreview
reduce_all-IsPreview_from [] s p h = p
reduce_all-IsPreview_from (a ∷ actions) s p (h, hs) =
    reduce_all-IsPreview_from actions (graph_editor_reducer s a)
      (graph_editor_reducer-IsPreview s.workspace a s p h) hs

-- After any actions from the initial state, where each workspace that is synced has the graph of the
-- one that was there, the graph that is shown is the workspace's graph with the staged changes;
-- before a workspace is loaded, nothing is shown or staged.
pub reduce_all-IsPreview :
    (actions : List GraphEditorAction)
    → AllAllowed actions initial_graph_editor_state
    → IsPreview (reduce_all actions initial_graph_editor_state)
reduce_all-IsPreview actions h =
    reduce_all-IsPreview_from actions initial_graph_editor_state
      (unfold IsPreview in (refl, refl, refl)) h
