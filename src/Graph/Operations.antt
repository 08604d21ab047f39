-- ===== src/Graph/Operations.antt =====
-- graph-domain/src/operations.ts: `applyOne`, its loop in `applyGraphOperations`, and
-- `selectionExists`. An operation is one of the nine of its type, so that the test of its shape,
-- which comes first in the source, has no counterpart.
pub mod Elementwise
pub mod Lookup
pub mod Effect
pub mod Refusal
pub mod Selection
use af_companion.Prelude.{
  String, ℕ, ◌+◌, Bool, true, false, Option, none, some, List, [], ◌∷◌, ◌++◌, get_elem?, ◌==◌,
  if◌then◌else◌, eqb, not,
}
use af_companion.Prelude.Decimal.{decimal}
use af_companion.AppServer.Errors.{◌+++◌}
use af_companion.Graph.Types.{
  GraphNodeKind, input, agent, tool, function, human_input, subworkflow, join, output, GraphNode,
  node_kind, GraphEdge, GraphRegion, GraphIr, GraphElementKind, node, edge, region, GraphSelection,
  GraphEditOperation, add_node, replace_node, remove_node, add_edge, replace_edge, remove_edge,
  add_region, replace_region, remove_region,
}
use af_companion.Graph.Elements.{splice, assign, has_id, find_index}

pub record GraphOperationError : Type 0 where
  pub code : String
  pub path : String
  pub message : String

pub data Outcome {ℓ} (A : Type ℓ) : Type ℓ where
  done : A → Outcome A
  refused : GraphOperationError → Outcome A

abbrev pub map_done {ℓ κ} : {A : Type ℓ} {B : Type κ} → (A → B) → Outcome A → Outcome B
map_done f (done a) = done (f a)
map_done f (refused e) = refused e

abbrev pub refuse {ℓ} : {A : Type ℓ} → String → ℕ → String → String → Outcome A
refuse code index path message = refused (record {
  code = code;
  path = "operations[" +++ decimal index +++ "]" +++ path;
  message = message;
})

abbrev pub kind_index : GraphNodeKind → ℕ
kind_index input = 0
kind_index agent = 1
kind_index tool = 2
kind_index function = 3
kind_index human_input = 4
kind_index subworkflow = 5
kind_index join = 6
kind_index output = 7

-- `current.node_kind === operation.value.node_kind`
abbrev pub same_kind : GraphNode → GraphNode → Bool
same_kind m n = eqb (kind_index (node_kind m)) (kind_index (node_kind n))

-- edges and regions have no kind that a replacement must keep
abbrev pub any_kind {ℓ} : {A : Type ℓ} → A → A → Bool
any_kind current v = true

-- the test on `graph.nodes[found]`
abbrev pub keeps_kind {ℓ} : {A : Type ℓ} → (A → A → Bool) → Option A → A → Bool
keeps_kind same none v = true
keeps_kind same (some current) v = same current v

module _ {ℓ} {A : Type ℓ} (id_of : A → String) (same : A → A → Bool) (target : String) where
  unfoldable pub add_element : A → List A → ℕ → Outcome (List A)
  add_element v xs index =
      if has_id id_of (id_of v) xs
      then refuse "element_exists" index ".value.id" (target +++ " already exists.")
      else done (xs ++ v ∷ [])

  abbrev pub missing : ℕ → Outcome (List A)
  missing index = refuse "element_missing" index ".id" (target +++ " does not exist.")

  abbrev pub remove_at : Option ℕ → List A → ℕ → Outcome (List A)
  remove_at none xs index = missing index
  remove_at (some i) xs index = done (splice i xs)

  unfoldable pub remove_element : String → List A → ℕ → Outcome (List A)
  remove_element id xs index = remove_at (find_index id_of id xs) xs index

  abbrev pub replace_at : Option ℕ → String → A → List A → ℕ → Outcome (List A)
  replace_at none id v xs index = missing index
  replace_at (some i) id v xs index =
      if not (id_of v == id)
      then refuse "id_change_not_allowed" index ".value.id" "replace cannot change an element ID."
      else if not (keeps_kind same (get_elem? xs i) v)
      then refuse "node_kind_change_not_allowed" index ".value.node_kind"
          "Delete and recreate a Node to change its kind."
      else done (assign i v xs)

  unfoldable pub replace_element : String → A → List A → ℕ → Outcome (List A)
  replace_element id v xs index = replace_at (find_index id_of id xs) id v xs index

abbrev pub with_nodes : GraphIr → List GraphNode → GraphIr
with_nodes g nodes = record g { nodes = nodes }

abbrev pub with_edges : GraphIr → List GraphEdge → GraphIr
with_edges g edges = record g { edges = edges }

abbrev pub with_regions : GraphIr → List GraphRegion → GraphIr
with_regions g regions = record g { regions = regions }

-- `applyOne`, given the place of the operation among those that are applied
unfoldable pub apply_one : GraphIr → GraphEditOperation → ℕ → Outcome GraphIr
unfolding add_element remove_element replace_element
apply_one g (add_node v) index =
    map_done (with_nodes g) (add_element (λ x. x.id) same_kind "node" v g.nodes index)
apply_one g (replace_node id v) index =
    map_done (with_nodes g) (replace_element (λ x. x.id) same_kind "node" id v g.nodes index)
apply_one g (remove_node id) index =
    map_done (with_nodes g) (remove_element (λ x. x.id) same_kind "node" id g.nodes index)
apply_one g (add_edge v) index =
    map_done (with_edges g) (add_element (λ x. x.id) any_kind "edge" v g.edges index)
apply_one g (replace_edge id v) index =
    map_done (with_edges g) (replace_element (λ x. x.id) any_kind "edge" id v g.edges index)
apply_one g (remove_edge id) index =
    map_done (with_edges g) (remove_element (λ x. x.id) any_kind "edge" id g.edges index)
apply_one g (add_region v) index =
    map_done (with_regions g) (add_element (λ x. x.id) any_kind "region" v g.regions index)
apply_one g (replace_region id v) index =
    map_done (with_regions g) (replace_element (λ x. x.id) any_kind "region" id v g.regions index)
apply_one g (remove_region id) index =
    map_done (with_regions g) (remove_element (λ x. x.id) any_kind "region" id g.regions index)

abbrev pub and_then {ℓ κ} : {A : Type ℓ} {B : Type κ} → Outcome A → (A → Outcome B) → Outcome B
and_then (done a) f = f a
and_then (refused e) f = refused e

-- `operations.forEach((operation, index) => applyOne(next, operation, index))`, from an index on
unfoldable pub apply_all : List GraphEditOperation → ℕ → GraphIr → Outcome GraphIr
unfolding apply_one
apply_all [] index g = done g
apply_all (o ∷ os) index g = and_then (apply_one g o index) (apply_all os (index + 1))

-- whether the element of a selection is in a graph
unfoldable pub selection_exists : GraphIr → Option GraphSelection → Bool
selection_exists g none = true
selection_exists g (some s) = elim s.kind [
  | node ↦ has_id (λ x. x.id) s.id g.nodes
  | edge ↦ has_id (λ x. x.id) s.id g.edges
  | region ↦ has_id (λ x. x.id) s.id g.regions
]
