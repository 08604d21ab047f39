-- ===== src/Graph/Editor/Undo.antt =====
-- Undo and redo.
use af_companion.Prelude.{◌≡◌, refl, ap, some, List, [], ◌∷◌, ◌++◌, arith}
use af_companion.Graph.Types.{GraphEditOperation, GraphWorkspaceSnapshot}
use af_companion.Graph.Editor.{
  GraphEditorState, GraphEditorAction, stage, graph_editor_reducer, rebuild, all_but_last, last,
}

all_but_last-snoc {ℓ} : {A : Type ℓ} (xs : List A) (x : A) → all_but_last (xs ++ x ∷ []) ≡ xs
unfolding all_but_last
all_but_last-snoc [] x = refl
all_but_last-snoc (y ∷ []) x = refl
all_but_last-snoc (y ∷ z ∷ xs) x = ap (λ r. y ∷ r) (all_but_last-snoc (z ∷ xs) x)

last-snoc {ℓ} : {A : Type ℓ} (xs : List A) (x : A) → last (xs ++ x ∷ []) ≡ some x
unfolding last
last-snoc [] x = refl
last-snoc (y ∷ []) x = refl
last-snoc (y ∷ z ∷ xs) x = last-snoc (z ∷ xs) x

snoc-last {ℓ} :
    {A : Type ℓ} (xs : List A) (x : A) → last xs ≡ some x → all_but_last xs ++ x ∷ [] ≡ xs
unfolding last all_but_last
snoc-last [] x e = cc
snoc-last (y ∷ []) x e = cc
snoc-last (y ∷ z ∷ xs) x e = ap (λ r. y ∷ r) (snoc-last (z ∷ xs) x e)

-- Where the graph that is shown is the workspace's with the whole history, to redo what was undone
-- gives the state back, but for the notice.
pub redo-undo :
    (s : GraphEditorState) (w : GraphWorkspaceSnapshot) (batch : List GraphEditOperation)
    → s.workspace ≡ some w
    → last s.history ≡ some batch
    → s.draft_graph ≡ some (rebuild w.graph s.history)
    → graph_editor_reducer (graph_editor_reducer s GraphEditorAction.undo) GraphEditorAction.redo
      ≡ record s { notice = some "변경을 다시 적용했습니다." }
unfolding graph_editor_reducer
redo-undo s w batch e l d = ground (arith, snoc-last s.history batch l)

-- Where the graph that is shown is the workspace's with the whole history, to undo what was redone
-- gives the state back, but for the notice.
pub undo-redo :
    (s : GraphEditorState) (w : GraphWorkspaceSnapshot) (batch : List GraphEditOperation)
    (rest : List (List GraphEditOperation))
    → s.workspace ≡ some w
    → s.redo ≡ batch ∷ rest
    → s.draft_graph ≡ some (rebuild w.graph s.history)
    → graph_editor_reducer (graph_editor_reducer s GraphEditorAction.redo) GraphEditorAction.undo
      ≡ record s { notice = some "마지막 변경을 되돌렸습니다." }
unfolding graph_editor_reducer
undo-redo s w batch rest e r d =
    ground (arith, all_but_last-snoc s.history batch, last-snoc s.history batch)

-- Where the graph that is shown is the workspace's with the whole history, to undo what was just
-- staged gives back that graph and the history, and offers the staged operations, and nothing else,
-- to be redone.
pub undo-stage :
    (s : GraphEditorState) (w : GraphWorkspaceSnapshot) (operations : List GraphEditOperation)
    → s.workspace ≡ some w
    → s.draft_graph ≡ some (rebuild w.graph s.history)
    → ((graph_editor_reducer
          (graph_editor_reducer s (stage operations))
          GraphEditorAction.undo).draft_graph
        ≡ s.draft_graph)
      × ((graph_editor_reducer
            (graph_editor_reducer s (stage operations))
            GraphEditorAction.undo).history
          ≡ s.history)
      × ((graph_editor_reducer
            (graph_editor_reducer s (stage operations))
            GraphEditorAction.undo).redo
          ≡ operations ∷ [])
unfolding graph_editor_reducer
undo-stage s w operations e d = (
  ground (arith, all_but_last-snoc s.history operations, last-snoc s.history operations),
  ground (arith, all_but_last-snoc s.history operations, last-snoc s.history operations),
  ground (arith, all_but_last-snoc s.history operations, last-snoc s.history operations),
)
