-- ===== src/Graph/Operations/Lookup.antt =====
-- The operations on a graph, as changes of the map from a kind and an id to an element.
use af_companion.Prelude.{
  String, ℕ, ◌≡◌, refl, sym, ap, ◌∙◌, subst, Bool, true, false, ◌&&◌, Option, none, some, List,
  ◌==◌, if◌then◌else◌,
}
use af_companion.Graph.Types.{
  GraphNode, GraphEdge, GraphRegion, GraphIr, GraphElementKind, node, edge, region,
  GraphEditOperation, add_node, replace_node, remove_node, add_edge, replace_edge, remove_edge,
  add_region, replace_region, remove_region,
}
use af_companion.Graph.Elements.{lookup, IsDistinct}
use af_companion.Graph.Elements.Lookup.{
  lookup-append, lookup-assign, lookup-splice, IsDistinct-append, IsDistinct-assign,
  IsDistinct-splice,
}
use af_companion.Graph.Operations.{
  Outcome, done, refused, map_done, add_element, remove_element, replace_element, and_then,
}
use af_companion.Graph.Operations.Elementwise.{
  add_element-done, remove_element-done, replace_element-done,
}

pub data GraphElement : Type 0 where
  a_node : GraphNode → GraphElement
  an_edge : GraphEdge → GraphElement
  a_region : GraphRegion → GraphElement

abbrev pub map_some : {A : Type 0} → (A → GraphElement) → Option A → Option GraphElement
map_some f none = none
map_some f (some a) = some (f a)

-- the first element of a kind that has an id
abbrev pub find : GraphElementKind → String → GraphIr → Option GraphElement
find node j g = map_some a_node (lookup (λ x. x.id) j g.nodes)
find edge j g = map_some an_edge (lookup (λ x. x.id) j g.edges)
find region j g = map_some a_region (lookup (λ x. x.id) j g.regions)

-- No two elements of one kind have one id.
pub record HasDistinctIds (g : GraphIr) : Type 0 where
  pub of_nodes : IsDistinct (λ x. x.id) g.nodes
  pub of_edges : IsDistinct (λ x. x.id) g.edges
  pub of_regions : IsDistinct (λ x. x.id) g.regions

-- the kind and the id of the element that an operation is about, and what it leaves there
abbrev pub touched : GraphEditOperation → GraphElementKind × String × Option GraphElement
touched (add_node v) = (node, v.id, some (a_node v))
touched (replace_node id v) = (node, id, some (a_node v))
touched (remove_node id) = (node, id, none)
touched (add_edge v) = (edge, v.id, some (an_edge v))
touched (replace_edge id v) = (edge, id, some (an_edge v))
touched (remove_edge id) = (edge, id, none)
touched (add_region v) = (region, v.id, some (a_region v))
touched (replace_region id v) = (region, id, some (a_region v))
touched (remove_region id) = (region, id, none)

abbrev pub eq_kind : GraphElementKind → GraphElementKind → Bool
eq_kind node node = true
eq_kind edge edge = true
eq_kind region region = true
eq_kind _ _ = false

-- the map after a change at one place
abbrev pub changed :
    GraphElementKind × String × Option GraphElement
    → GraphElementKind
    → String
    → GraphIr
    → Option GraphElement
changed (k, id, e) kind j g = if eq_kind k kind && (id == j) then e else find kind j g

pub map_done-eq {ℓ κ} :
    {A : Type ℓ} {B : Type κ} (f : A → B) (r : Outcome A) {b : B}
    → map_done f r ≡ done b
    → (a : A) × (r ≡ done a) × (b ≡ f a)
map_done-eq f (done a) e = (a, refl, cc)
map_done-eq f (refused x) e = cc

pub and_then-done {ℓ κ} :
    {A : Type ℓ} {B : Type κ} (r : Outcome A) (f : A → Outcome B) {b : B}
    → and_then r f ≡ done b
    → (a : A) × (r ≡ done a) × (f a ≡ done b)
and_then-done (done a) f e = (a, refl, e)
and_then-done (refused x) f e = cc

pub map_some-if :
    {A : Type 0} (f : A → GraphElement) (b : Bool) (v w u : Option A)
    → u ≡ (if b then v else w)
    → map_some f u ≡ (if b then map_some f v else map_some f w)
map_some-if f true v w u e = ap (map_some f) e
map_some-if f false v w u e = ap (map_some f) e

module _ {A : Type 0} (id_of : A → String) (same : A → A → Bool) (target : String) where
  pub add_element-lookup :
      (v : A) (xs ys : List A) (index : ℕ) (j : String)
      → add_element id_of same target v xs index ≡ done ys
      → lookup id_of j ys ≡ (if id_of v == j then some v else lookup id_of j xs)
  add_element-lookup v xs ys index j e =
      let (new, q) = add_element-done id_of same target v xs ys index e in
      ap (lookup id_of j) q ∙ lookup-append id_of j v xs new

  pub add_element-IsDistinct :
      (v : A) (xs ys : List A) (index : ℕ)
      → add_element id_of same target v xs index ≡ done ys
      → IsDistinct id_of xs
      → IsDistinct id_of ys
  add_element-IsDistinct v xs ys index e d =
      let (new, q) = add_element-done id_of same target v xs ys index e in
      subst (IsDistinct id_of) (sym q) (IsDistinct-append id_of v xs d new)

  pub replace_element-lookup :
      (id : String) (v : A) (xs ys : List A) (index : ℕ) (j : String)
      → replace_element id_of same target id v xs index ≡ done ys
      → lookup id_of j ys ≡ (if id == j then some v else lookup id_of j xs)
  replace_element-lookup id v xs ys index j e =
      let (i, p, h, q, _) = replace_element-done id_of same target id v xs ys index e in
      ap (lookup id_of j) q ∙ lookup-assign id_of j id v xs i p h

  pub replace_element-IsDistinct :
      (id : String) (v : A) (xs ys : List A) (index : ℕ)
      → replace_element id_of same target id v xs index ≡ done ys
      → IsDistinct id_of xs
      → IsDistinct id_of ys
  replace_element-IsDistinct id v xs ys index e d =
      let (i, p, h, q, _) = replace_element-done id_of same target id v xs ys index e in
      subst (IsDistinct id_of) (sym q) (IsDistinct-assign id_of id v xs i d p h)

  pub remove_element-lookup :
      (id : String) (xs ys : List A) (index : ℕ) (j : String)
      → remove_element id_of same target id xs index ≡ done ys
      → IsDistinct id_of xs
      → lookup id_of j ys ≡ (if id == j then none else lookup id_of j xs)
  remove_element-lookup id xs ys index j e d =
      let (i, p, q) = remove_element-done id_of same target id xs ys index e in
      ap (lookup id_of j) q ∙ lookup-splice id_of j id xs i d p

  pub remove_element-IsDistinct :
      (id : String) (xs ys : List A) (index : ℕ)
      → remove_element id_of same target id xs index ≡ done ys
      → IsDistinct id_of xs
      → IsDistinct id_of ys
  remove_element-IsDistinct id xs ys index e d =
      let (i, p, q) = remove_element-done id_of same target id xs ys index e in
      subst (IsDistinct id_of) (sym q) (IsDistinct-splice id_of xs i d)
