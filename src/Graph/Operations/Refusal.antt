-- ===== src/Graph/Operations/Refusal.antt =====
-- When an operation is refused, and with which code.
use af_companion.Prelude.{
  String, ℕ, ◌≡◌, refl, ◌∙◌, Bool, not, Option, none, some, List, ◌⊎◌, get_elem?, arith, ◌==◌,
  if◌then◌else◌, Option-cases, Bool-cases, inl, inr,
}
use af_companion.Graph.Types.{
  GraphIr, GraphEditOperation, add_node, replace_node, remove_node, add_edge, replace_edge,
  remove_edge, add_region, replace_region, remove_region,
}
use af_companion.Graph.Elements.{
  has_id, find_index, lookup, has_id-lookup, lookup-has_id, find_index-lookup, lookup-find_index,
}
use af_companion.Graph.Elements.Lookup.{find_index-eq}
use af_companion.Graph.Operations.{
  Outcome, done, refused, map_done, add_element, remove_element, replace_element, same_kind,
  any_kind, apply_one,
}

unfoldable pub code_of {ℓ} : {A : Type ℓ} → Outcome A → Option String
code_of (done a) = none
code_of (refused e) = some e.code

abbrev pub unless_absent {ℓ} : {A : Type ℓ} → Option A → Option String
unless_absent none = none
unless_absent (some x) = some "element_exists"

abbrev pub unless_present {ℓ} : {A : Type ℓ} → Option A → Option String
unless_present none = some "element_missing"
unless_present (some x) = none

-- the id of the new element, the id that is replaced, and the elements of one kind
abbrev pub unless_replaceable {ℓ} :
    {A : Type ℓ} → (A → A → Bool) → Bool → Option A → A → Option String
unless_replaceable same keeps_id none v = some "element_missing"
unless_replaceable same keeps_id (some x) v =
    if not keeps_id
    then some "id_change_not_allowed"
    else if not (same x v)
    then some "node_kind_change_not_allowed"
    else none

-- the code with which an operation on a graph is refused, read off the first element with its id
abbrev pub refusal : GraphEditOperation → GraphIr → Option String
refusal (add_node v) g = unless_absent (lookup (λ x. x.id) v.id g.nodes)
refusal (replace_node id v) g =
    unless_replaceable same_kind (v.id == id) (lookup (λ x. x.id) id g.nodes) v
refusal (remove_node id) g = unless_present (lookup (λ x. x.id) id g.nodes)
refusal (add_edge v) g = unless_absent (lookup (λ x. x.id) v.id g.edges)
refusal (replace_edge id v) g =
    unless_replaceable any_kind (v.id == id) (lookup (λ x. x.id) id g.edges) v
refusal (remove_edge id) g = unless_present (lookup (λ x. x.id) id g.edges)
refusal (add_region v) g = unless_absent (lookup (λ x. x.id) v.id g.regions)
refusal (replace_region id v) g =
    unless_replaceable any_kind (v.id == id) (lookup (λ x. x.id) id g.regions) v
refusal (remove_region id) g = unless_present (lookup (λ x. x.id) id g.regions)

code_of-map_done {ℓ κ} :
    {A : Type ℓ} {B : Type κ} (f : A → B) (r : Outcome A) → code_of (map_done f r) ≡ code_of r
unfolding code_of
code_of-map_done f (done a) = refl
code_of-map_done f (refused e) = refl

module _ {A : Type 0} (id_of : A → String) (same : A → A → Bool) (target : String) where
  found-or-not :
      (id : String) (xs : List A)
      → ((find_index id_of id xs ≡ none) × (lookup id_of id xs ≡ none))
        ⊎ ((i : ℕ) × (find_index id_of id xs ≡ some i)
            × (x : A) × (get_elem? xs i ≡ some x)
            × (lookup id_of id xs ≡ some x))
  found-or-not id xs = elim (Option-cases (lookup id_of id xs)) [
    | inl e ↦ inl (find_index-lookup id_of id xs e, e)
    | inr (y, e) ↦ elim (Option-cases (find_index id_of id xs)) [
      | inl f ↦ let q = lookup-find_index id_of id xs f in cc
      | inr (i, f) ↦ let (x, g, l) = find_index-eq id_of id xs i f in inr (i, f, x, g, l)
    ]
  ]

  add_element-code :
      (v : A) (xs : List A) (index : ℕ)
      → code_of (add_element id_of same target v xs index)
        ≡ unless_absent (lookup id_of (id_of v) xs)
  unfolding code_of add_element
  add_element-code v xs index = elim (Option-cases (lookup id_of (id_of v) xs)) [
    | inl e ↦ ground (arith, has_id-lookup id_of (id_of v) xs e)
    | inr (y, e) ↦ elim (Bool-cases (has_id id_of (id_of v) xs)) [
      | inl h ↦ ground arith
      | inr h ↦ let q = lookup-has_id id_of (id_of v) xs h in cc
    ]
  ]

  remove_element-code :
      (id : String) (xs : List A) (index : ℕ)
      → code_of (remove_element id_of same target id xs index) ≡ unless_present (lookup id_of id xs)
  unfolding code_of remove_element
  remove_element-code id xs index = elim (found-or-not id xs) [
    | inl (f, e) ↦ ground arith
    | inr (i, f, x, g, e) ↦ ground arith
  ]

  replace_element-code :
      (id : String) (v : A) (xs : List A) (index : ℕ)
      → code_of (replace_element id_of same target id v xs index)
        ≡ unless_replaceable same (id_of v == id) (lookup id_of id xs) v
  unfolding code_of replace_element
  replace_element-code id v xs index = elim (found-or-not id xs) [
    | inl (f, e) ↦ ground arith
    | inr (i, f, x, g, e) ↦ ground arith
  ]

-- An operation is refused where the elements of its kind do not fit it, with the code that tells
-- why: an id that is taken, one that is not there, a changed id, or a changed kind; else it succeeds.
pub apply_one-code :
    (g : GraphIr) (o : GraphEditOperation) (index : ℕ) → code_of (apply_one g o index) ≡ refusal o g
unfolding apply_one
apply_one-code g (add_node v) index =
    code_of-map_done _ (add_element (λ x. x.id) same_kind "node" v g.nodes index)
    ∙ add_element-code (λ x. x.id) same_kind "node" v g.nodes index
apply_one-code g (replace_node id v) index =
    code_of-map_done _ (replace_element (λ x. x.id) same_kind "node" id v g.nodes index)
    ∙ replace_element-code (λ x. x.id) same_kind "node" id v g.nodes index
apply_one-code g (remove_node id) index =
    code_of-map_done _ (remove_element (λ x. x.id) same_kind "node" id g.nodes index)
    ∙ remove_element-code (λ x. x.id) same_kind "node" id g.nodes index
apply_one-code g (add_edge v) index =
    code_of-map_done _ (add_element (λ x. x.id) any_kind "edge" v g.edges index)
    ∙ add_element-code (λ x. x.id) any_kind "edge" v g.edges index
apply_one-code g (replace_edge id v) index =
    code_of-map_done _ (replace_element (λ x. x.id) any_kind "edge" id v g.edges index)
    ∙ replace_element-code (λ x. x.id) any_kind "edge" id v g.edges index
apply_one-code g (remove_edge id) index =
    code_of-map_done _ (remove_element (λ x. x.id) any_kind "edge" id g.edges index)
    ∙ remove_element-code (λ x. x.id) any_kind "edge" id g.edges index
apply_one-code g (add_region v) index =
    code_of-map_done _ (add_element (λ x. x.id) any_kind "region" v g.regions index)
    ∙ add_element-code (λ x. x.id) any_kind "region" v g.regions index
apply_one-code g (replace_region id v) index =
    code_of-map_done _ (replace_element (λ x. x.id) any_kind "region" id v g.regions index)
    ∙ replace_element-code (λ x. x.id) any_kind "region" id v g.regions index
apply_one-code g (remove_region id) index =
    code_of-map_done _ (remove_element (λ x. x.id) any_kind "region" id g.regions index)
    ∙ remove_element-code (λ x. x.id) any_kind "region" id g.regions index
