-- ===== src/Graph/Editor/Agreement.antt =====
-- The editor's preview beside the domain's operations.
use af_companion.Prelude.{ℕ, ◌+◌, ◌≡◌, sym, ap, ◌∙◌, List, [], ◌∷◌}
use af_companion.Graph.Types.{
  GraphIr, GraphEditOperation, add_node, replace_node, remove_node, add_edge, replace_edge,
  remove_edge, add_region, replace_region, remove_region,
}
use af_companion.Graph.Operations.{
  done, apply_one, apply_all, with_nodes, with_edges, with_regions, same_kind, any_kind,
}
use af_companion.Graph.Operations.Elementwise.{
  add_element-done, remove_element-done, replace_element-done,
}
use af_companion.Graph.Operations.Lookup.{map_done-eq, and_then-done}
use af_companion.Graph.Editor.{rebuild_one, rebuild_all, rebuild, flat, splice_found, assign_found}

rebuild_one-apply_one :
    (g h : GraphIr) (o : GraphEditOperation) (index : ℕ)
    → apply_one g o index ≡ done h
    → rebuild_one g o ≡ h
unfolding apply_one rebuild_one
rebuild_one-apply_one g h (add_node v) index e =
    let (xs, p, q) = map_done-eq (with_nodes g) _ e in
    let (_, r) = add_element-done (λ x. x.id) same_kind "node" v g.nodes xs index p in
    sym (q ∙ ap (with_nodes g) r)
rebuild_one-apply_one g h (replace_node id v) index e =
    let (xs, p, q) = map_done-eq (with_nodes g) _ e in
    let (i, r, _, t, _) =
      replace_element-done (λ x. x.id) same_kind "node" id v g.nodes xs index p in
    ap (λ n. with_nodes g (assign_found n v g.nodes)) r ∙ sym (q ∙ ap (with_nodes g) t)
rebuild_one-apply_one g h (remove_node id) index e =
    let (xs, p, q) = map_done-eq (with_nodes g) _ e in
    let (i, r, t) = remove_element-done (λ x. x.id) same_kind "node" id g.nodes xs index p in
    ap (λ n. with_nodes g (splice_found n g.nodes)) r ∙ sym (q ∙ ap (with_nodes g) t)
rebuild_one-apply_one g h (add_edge v) index e =
    let (xs, p, q) = map_done-eq (with_edges g) _ e in
    let (_, r) = add_element-done (λ x. x.id) any_kind "edge" v g.edges xs index p in
    sym (q ∙ ap (with_edges g) r)
rebuild_one-apply_one g h (replace_edge id v) index e =
    let (xs, p, q) = map_done-eq (with_edges g) _ e in
    let (i, r, _, t, _) =
      replace_element-done (λ x. x.id) any_kind "edge" id v g.edges xs index p in
    ap (λ n. with_edges g (assign_found n v g.edges)) r ∙ sym (q ∙ ap (with_edges g) t)
rebuild_one-apply_one g h (remove_edge id) index e =
    let (xs, p, q) = map_done-eq (with_edges g) _ e in
    let (i, r, t) = remove_element-done (λ x. x.id) any_kind "edge" id g.edges xs index p in
    ap (λ n. with_edges g (splice_found n g.edges)) r ∙ sym (q ∙ ap (with_edges g) t)
rebuild_one-apply_one g h (add_region v) index e =
    let (xs, p, q) = map_done-eq (with_regions g) _ e in
    let (_, r) = add_element-done (λ x. x.id) any_kind "region" v g.regions xs index p in
    sym (q ∙ ap (with_regions g) r)
rebuild_one-apply_one g h (replace_region id v) index e =
    let (xs, p, q) = map_done-eq (with_regions g) _ e in
    let (i, r, _, t, _) =
      replace_element-done (λ x. x.id) any_kind "region" id v g.regions xs index p in
    ap (λ n. with_regions g (assign_found n v g.regions)) r ∙ sym (q ∙ ap (with_regions g) t)
rebuild_one-apply_one g h (remove_region id) index e =
    let (xs, p, q) = map_done-eq (with_regions g) _ e in
    let (i, r, t) = remove_element-done (λ x. x.id) any_kind "region" id g.regions xs index p in
    ap (λ n. with_regions g (splice_found n g.regions)) r ∙ sym (q ∙ ap (with_regions g) t)

rebuild_all-apply_all :
    (os : List GraphEditOperation) (index : ℕ) (g h : GraphIr)
    → apply_all os index g ≡ done h
    → rebuild_all os g ≡ h
unfolding apply_all rebuild_all
rebuild_all-apply_all [] index g h e = cc
rebuild_all-apply_all (o ∷ os) index g h e =
    let (g1, p, q) = and_then-done (apply_one g o index) (apply_all os (index + 1)) e in
    rw (rebuild_one-apply_one g g1 o index p) (rebuild_all-apply_all os (index + 1) g1 h q)

-- Where the operations of the whole history are all accepted by the domain, the graph that the
-- editor shows is the one that applying them gives.
pub rebuild-apply_all :
    (base h : GraphIr) (history : List (List GraphEditOperation)) (index : ℕ)
    → apply_all (flat history) index base ≡ done h
    → rebuild base history ≡ h
unfolding rebuild
rebuild-apply_all base h history index e = rebuild_all-apply_all (flat history) index base h e
