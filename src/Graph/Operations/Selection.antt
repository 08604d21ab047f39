-- ===== src/Graph/Operations/Selection.antt =====
-- The selection after an operation.
use af_companion.Prelude.{
  String, ℕ, ◌≡◌, refl, sym, ap, ◌∙◌, Option, none, some, List, [], ◌∷◌, arith,
}
use af_companion.Prelude.StringMap.{is_some}
use af_companion.Graph.Types.{
  GraphIr, GraphElementKind, node, edge, region, GraphSelection, GraphEditOperation,
}
use af_companion.Graph.Elements.{has_id, lookup}
use af_companion.Graph.Operations.{done, apply_one, selection_exists}
use af_companion.Graph.Operations.Lookup.{
  GraphElement, map_some, find, HasDistinctIds, touched, changed,
}
use af_companion.Graph.Operations.Effect.{apply_one-find}

has_id-eq {ℓ} :
    {A : Type ℓ} (id_of : A → String) (id : String) (xs : List A)
    → has_id id_of id xs ≡ is_some (lookup id_of id xs)
unfolding has_id lookup
has_id-eq id_of id [] = refl
has_id-eq id_of id (x ∷ xs) = ground (arith, has_id-eq id_of id xs)

is_some-map_some :
    {A : Type 0} (f : A → GraphElement) (o : Option A) → is_some (map_some f o) ≡ is_some o
is_some-map_some f none = refl
is_some-map_some f (some a) = refl

selection_exists-find :
    (g : GraphIr) (kind : GraphElementKind) (id : String)
    → selection_exists g (some (record { kind = kind; id = id })) ≡ is_some (find kind id g)
unfolding selection_exists
selection_exists-find g node id = has_id-eq _ id g.nodes ∙ sym (is_some-map_some _ _)
selection_exists-find g edge id = has_id-eq _ id g.edges ∙ sym (is_some-map_some _ _)
selection_exists-find g region id = has_id-eq _ id g.regions ∙ sym (is_some-map_some _ _)

-- In a graph whose ids are distinct, the selected element is there after an operation that succeeds
-- where the operation has put it there, or where it was there and the operation has not removed it.
pub apply_one-selection_exists :
    (g h : GraphIr) (o : GraphEditOperation) (index : ℕ) (s : GraphSelection)
    → HasDistinctIds g
    → apply_one g o index ≡ done h
    → selection_exists h (some s) ≡ is_some (changed (touched o) s.kind s.id g)
apply_one-selection_exists g h o index s d e =
    selection_exists-find h s.kind s.id ∙ ap is_some (apply_one-find g h o index s.kind s.id d e)
