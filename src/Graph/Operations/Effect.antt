-- ===== src/Graph/Operations/Effect.antt =====
-- What an operation that succeeds does to a graph and to its ids.
use af_companion.Prelude.{
  String, ℕ, ◌+◌, ◌≡◌, refl, sym, subst, Option, none, some, List, [], ◌∷◌, ◌==◌, if◌then◌else◌,
}
use af_companion.Graph.Types.{
  GraphNode, GraphEdge, GraphRegion, GraphIr, GraphElementKind, node, edge, region,
  GraphEditOperation, add_node, replace_node, remove_node, add_edge, replace_edge, remove_edge,
  add_region, replace_region, remove_region,
}
use af_companion.Graph.Elements.{IsDistinct, lookup}
use af_companion.Graph.Operations.{
  done, same_kind, any_kind, apply_one, apply_all, with_nodes, with_edges, with_regions,
}
use af_companion.Graph.Operations.Lookup.{
  a_node, an_edge, a_region, find, HasDistinctIds, touched, changed, map_done-eq, and_then-done,
  map_some, map_some-if, add_element-lookup, add_element-IsDistinct, replace_element-lookup,
  replace_element-IsDistinct, remove_element-lookup, remove_element-IsDistinct,
}

-- the elements of the other kinds stay, and those of this one change as the map says
nodes-changed :
    (g h : GraphIr) (id j : String) (kind : GraphElementKind) (e : Option GraphNode)
    (xs : List GraphNode)
    → h ≡ with_nodes g xs
    → lookup (λ x. x.id) j xs ≡ (if id == j then e else lookup (λ x. x.id) j g.nodes)
    → find kind j h ≡ changed (node, id, map_some a_node e) kind j g
nodes-changed g h id j node e xs q l = rw q (map_some-if a_node (id == j) e _ _ l)
nodes-changed g h id j edge e xs q l = rw q (refl)
nodes-changed g h id j region e xs q l = rw q (refl)

nodes-HasDistinctIds :
    (g h : GraphIr) (xs : List GraphNode)
    → h ≡ with_nodes g xs
    → IsDistinct (λ x. x.id) xs
    → HasDistinctIds g
    → HasDistinctIds h
nodes-HasDistinctIds g h xs q d p =
    subst HasDistinctIds (sym q)
      (record { of_nodes = d; of_edges = p.of_edges; of_regions = p.of_regions })

-- the elements of the other kinds stay, and those of this one change as the map says
edges-changed :
    (g h : GraphIr) (id j : String) (kind : GraphElementKind) (e : Option GraphEdge)
    (xs : List GraphEdge)
    → h ≡ with_edges g xs
    → lookup (λ x. x.id) j xs ≡ (if id == j then e else lookup (λ x. x.id) j g.edges)
    → find kind j h ≡ changed (edge, id, map_some an_edge e) kind j g
edges-changed g h id j node e xs q l = rw q (refl)
edges-changed g h id j edge e xs q l = rw q (map_some-if an_edge (id == j) e _ _ l)
edges-changed g h id j region e xs q l = rw q (refl)

edges-HasDistinctIds :
    (g h : GraphIr) (xs : List GraphEdge)
    → h ≡ with_edges g xs
    → IsDistinct (λ x. x.id) xs
    → HasDistinctIds g
    → HasDistinctIds h
edges-HasDistinctIds g h xs q d p =
    subst HasDistinctIds (sym q)
      (record { of_nodes = p.of_nodes; of_edges = d; of_regions = p.of_regions })

-- the elements of the other kinds stay, and those of this one change as the map says
regions-changed :
    (g h : GraphIr) (id j : String) (kind : GraphElementKind) (e : Option GraphRegion)
    (xs : List GraphRegion)
    → h ≡ with_regions g xs
    → lookup (λ x. x.id) j xs ≡ (if id == j then e else lookup (λ x. x.id) j g.regions)
    → find kind j h ≡ changed (region, id, map_some a_region e) kind j g
regions-changed g h id j node e xs q l = rw q (refl)
regions-changed g h id j edge e xs q l = rw q (refl)
regions-changed g h id j region e xs q l = rw q (map_some-if a_region (id == j) e _ _ l)

regions-HasDistinctIds :
    (g h : GraphIr) (xs : List GraphRegion)
    → h ≡ with_regions g xs
    → IsDistinct (λ x. x.id) xs
    → HasDistinctIds g
    → HasDistinctIds h
regions-HasDistinctIds g h xs q d p =
    subst HasDistinctIds (sym q)
      (record { of_nodes = p.of_nodes; of_edges = p.of_edges; of_regions = d })

-- In a graph whose ids are distinct, an operation that succeeds changes the element that it is about,
-- and no other: the new one is found there, or none after a removal.
pub apply_one-find :
    (g h : GraphIr) (o : GraphEditOperation) (index : ℕ) (kind : GraphElementKind) (j : String)
    → HasDistinctIds g
    → apply_one g o index ≡ done h
    → find kind j h ≡ changed (touched o) kind j g
unfolding apply_one
apply_one-find g h (add_node v) index kind j d e =
    let (xs, p, q) = map_done-eq (with_nodes g) _ e in
    nodes-changed g h v.id j kind (some v) xs q
      (add_element-lookup (λ x. x.id) same_kind "node" v g.nodes xs index j p)
apply_one-find g h (replace_node id v) index kind j d e =
    let (xs, p, q) = map_done-eq (with_nodes g) _ e in
    nodes-changed g h id j kind (some v) xs q
      (replace_element-lookup (λ x. x.id) same_kind "node" id v g.nodes xs index j p)
apply_one-find g h (remove_node id) index kind j d e =
    let (xs, p, q) = map_done-eq (with_nodes g) _ e in
    nodes-changed g h id j kind none xs q
      (remove_element-lookup (λ x. x.id) same_kind "node" id g.nodes xs index j p d.of_nodes)
apply_one-find g h (add_edge v) index kind j d e =
    let (xs, p, q) = map_done-eq (with_edges g) _ e in
    edges-changed g h v.id j kind (some v) xs q
      (add_element-lookup (λ x. x.id) any_kind "edge" v g.edges xs index j p)
apply_one-find g h (replace_edge id v) index kind j d e =
    let (xs, p, q) = map_done-eq (with_edges g) _ e in
    edges-changed g h id j kind (some v) xs q
      (replace_element-lookup (λ x. x.id) any_kind "edge" id v g.edges xs index j p)
apply_one-find g h (remove_edge id) index kind j d e =
    let (xs, p, q) = map_done-eq (with_edges g) _ e in
    edges-changed g h id j kind none xs q
      (remove_element-lookup (λ x. x.id) any_kind "edge" id g.edges xs index j p d.of_edges)
apply_one-find g h (add_region v) index kind j d e =
    let (xs, p, q) = map_done-eq (with_regions g) _ e in
    regions-changed g h v.id j kind (some v) xs q
      (add_element-lookup (λ x. x.id) any_kind "region" v g.regions xs index j p)
apply_one-find g h (replace_region id v) index kind j d e =
    let (xs, p, q) = map_done-eq (with_regions g) _ e in
    regions-changed g h id j kind (some v) xs q
      (replace_element-lookup (λ x. x.id) any_kind "region" id v g.regions xs index j p)
apply_one-find g h (remove_region id) index kind j d e =
    let (xs, p, q) = map_done-eq (with_regions g) _ e in
    regions-changed g h id j kind none xs q
      (remove_element-lookup (λ x. x.id) any_kind "region" id g.regions xs index j p d.of_regions)

apply_one-HasDistinctIds :
    (g h : GraphIr) (o : GraphEditOperation) (index : ℕ)
    → HasDistinctIds g
    → apply_one g o index ≡ done h
    → HasDistinctIds h
unfolding apply_one
apply_one-HasDistinctIds g h (add_node v) index d e =
    let (xs, p, q) = map_done-eq (with_nodes g) _ e in
    nodes-HasDistinctIds g h xs q
      (add_element-IsDistinct (λ x. x.id) same_kind "node" v g.nodes xs index p d.of_nodes) d
apply_one-HasDistinctIds g h (replace_node id v) index d e =
    let (xs, p, q) = map_done-eq (with_nodes g) _ e in
    nodes-HasDistinctIds g h xs q
      (replace_element-IsDistinct (λ x. x.id) same_kind "node" id v g.nodes xs index p d.of_nodes) d
apply_one-HasDistinctIds g h (remove_node id) index d e =
    let (xs, p, q) = map_done-eq (with_nodes g) _ e in
    nodes-HasDistinctIds g h xs q
      (remove_element-IsDistinct (λ x. x.id) same_kind "node" id g.nodes xs index p d.of_nodes) d
apply_one-HasDistinctIds g h (add_edge v) index d e =
    let (xs, p, q) = map_done-eq (with_edges g) _ e in
    edges-HasDistinctIds g h xs q
      (add_element-IsDistinct (λ x. x.id) any_kind "edge" v g.edges xs index p d.of_edges) d
apply_one-HasDistinctIds g h (replace_edge id v) index d e =
    let (xs, p, q) = map_done-eq (with_edges g) _ e in
    edges-HasDistinctIds g h xs q
      (replace_element-IsDistinct (λ x. x.id) any_kind "edge" id v g.edges xs index p d.of_edges) d
apply_one-HasDistinctIds g h (remove_edge id) index d e =
    let (xs, p, q) = map_done-eq (with_edges g) _ e in
    edges-HasDistinctIds g h xs q
      (remove_element-IsDistinct (λ x. x.id) any_kind "edge" id g.edges xs index p d.of_edges) d
apply_one-HasDistinctIds g h (add_region v) index d e =
    let (xs, p, q) = map_done-eq (with_regions g) _ e in
    regions-HasDistinctIds g h xs q
      (add_element-IsDistinct (λ x. x.id) any_kind "region" v g.regions xs index p d.of_regions) d
apply_one-HasDistinctIds g h (replace_region id v) index d e =
    let (xs, p, q) = map_done-eq (with_regions g) _ e in
    regions-HasDistinctIds g h xs q
      (replace_element-IsDistinct (λ x. x.id) any_kind "region" id v g.regions xs index p
        d.of_regions)
      d
apply_one-HasDistinctIds g h (remove_region id) index d e =
    let (xs, p, q) = map_done-eq (with_regions g) _ e in
    regions-HasDistinctIds g h xs q
      (remove_element-IsDistinct (λ x. x.id) any_kind "region" id g.regions xs index p d.of_regions)
      d

-- Operations that succeed, any number of them, keep the ids of the elements of each kind distinct.
pub apply_all-HasDistinctIds :
    (os : List GraphEditOperation) (index : ℕ) (g h : GraphIr)
    → HasDistinctIds g
    → apply_all os index g ≡ done h
    → HasDistinctIds h
unfolding apply_all
apply_all-HasDistinctIds [] index g h d e = let q : g ≡ h = cc in subst HasDistinctIds q d
apply_all-HasDistinctIds (o ∷ os) index g h d e =
    let (g1, p, q) = and_then-done (apply_one g o index) (apply_all os (index + 1)) e in
    apply_all-HasDistinctIds os (index + 1) g1 h (apply_one-HasDistinctIds g g1 o index d p) q
