-- ===== src/Graph.antt =====
-- The workflow graph: packages/companion/graph-domain/src, and the editor's state of
-- packages/companion/web/src/browser/graph/editorState.ts.
pub mod Types
pub mod Elements
pub mod Operations
pub mod Editor
pub mod Membership
mod Tests
