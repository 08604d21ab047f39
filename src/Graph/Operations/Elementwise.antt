-- ===== src/Graph/Operations/Elementwise.antt =====
-- What the operations on one list of elements do, by the lookup of ids.
use af_companion.Prelude.{
  String, ℕ, ◌≡◌, Bool, true, false, some, List, [], ◌∷◌, ◌++◌, arith, eq_iff, Option-cases, inl,
  inr,
}
use af_companion.Graph.Elements.{splice, assign, has_id, find_index, lookup}
use af_companion.Graph.Elements.Lookup.{find_index-eq}
use af_companion.Graph.Operations.{done, add_element, remove_element, replace_element, keeps_kind}

module _ {ℓ} {A : Type ℓ} (id_of : A → String) (same : A → A → Bool) (target : String) where
  pub add_element-done :
      (v : A) (xs ys : List A) (index : ℕ)
      → add_element id_of same target v xs index ≡ done ys
      → (has_id id_of (id_of v) xs ≡ false) × (ys ≡ xs ++ v ∷ [])
  unfolding add_element
  add_element-done v xs ys index e = (ground arith, ground arith)

  pub remove_element-done :
      (id : String) (xs ys : List A) (index : ℕ)
      → remove_element id_of same target id xs index ≡ done ys
      → (i : ℕ) × (find_index id_of id xs ≡ some i) × (ys ≡ splice i xs)
  unfolding remove_element
  remove_element-done id xs ys index e = elim (Option-cases (find_index id_of id xs)) [
    | inl p ↦ ground arith
    | inr (i, p) ↦ (i, p, ground arith)
  ]

  pub replace_element-done :
      (id : String) (v : A) (xs ys : List A) (index : ℕ)
      → replace_element id_of same target id v xs index ≡ done ys
      → (i : ℕ) × (find_index id_of id xs ≡ some i)
        × (id_of v ≡ id)
        × (ys ≡ assign i v xs)
        × (keeps_kind same (lookup id_of id xs) v ≡ true)
  unfolding replace_element
  replace_element-done id v xs ys index e = elim (Option-cases (find_index id_of id xs)) [
    | inl p ↦ ground arith
    | inr (i, p) ↦
        let (x, g, l) = find_index-eq id_of id xs i p in
        (i, p, ground (arith, eq_iff (id_of v) id), ground arith, ground arith)
  ]
