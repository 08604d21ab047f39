-- ===== src/Graph/Elements.antt =====
-- The array operations of operations.ts and editorState.ts on a list of elements that have ids:
-- `some`, `findIndex`, `splice(i, 1)`, and the assignment to an index.
pub mod Lookup
use af_companion.Prelude.{
  String, ℕ, zero, suc, ◌+◌, ◌≡◌, refl, ap, Bool, true, false, ◌||◌, Option, none, some, List, [],
  ◌∷◌, ◌++◌, map, arith, ◌==◌, if◌then◌else◌, eq_iff, eq_refl, Bool-cases, Option-cases, inl, inr,
}
use af_companion.Prelude.StringMap.{contains}

unfoldable pub splice {ℓ} : {A : Type ℓ} → ℕ → List A → List A
splice i [] = []
splice zero (x ∷ xs) = xs
splice (suc i) (x ∷ xs) = x ∷ splice i xs

unfoldable pub assign {ℓ} : {A : Type ℓ} → ℕ → A → List A → List A
assign i v [] = []
assign zero v (x ∷ xs) = v ∷ xs
assign (suc i) v (x ∷ xs) = x ∷ assign i v xs

abbrev pub next_index : Option ℕ → Option ℕ
next_index none = none
next_index (some i) = some (suc i)

module _ {ℓ} {A : Type ℓ} (id_of : A → String) where
  unfoldable pub has_id : String → List A → Bool
  has_id id [] = false
  has_id id (x ∷ xs) = id_of x == id || has_id id xs

  -- `none` is -1
  unfoldable pub find_index : String → List A → Option ℕ
  find_index id [] = none
  find_index id (x ∷ xs) =
      let rest = find_index id xs in if id_of x == id then some 0 else next_index rest

  -- the first element with an id
  unfoldable pub lookup : String → List A → Option A
  lookup id [] = none
  lookup id (x ∷ xs) = let rest = lookup id xs in if id_of x == id then some x else rest

  -- no two elements have one id
  unfoldable pub IsDistinct : List A → Type 0
  IsDistinct [] = Unit {0}
  IsDistinct (x ∷ xs) = (has_id (id_of x) xs ≡ false) × IsDistinct xs

  pub has_id-lookup : (id : String) (xs : List A) → lookup id xs ≡ none → has_id id xs ≡ false
  unfolding has_id lookup
  has_id-lookup id [] e = refl
  has_id-lookup id (x ∷ xs) e = elim (Bool-cases (id_of x == id)) [
    | inl p ↦ ground arith
    | inr p ↦
        let rest : lookup id xs ≡ none = ground arith in ground (arith, has_id-lookup id xs rest)
  ]

  pub lookup-has_id : (id : String) (xs : List A) → has_id id xs ≡ false → lookup id xs ≡ none
  unfolding has_id lookup
  lookup-has_id id [] e = refl
  lookup-has_id id (x ∷ xs) e =
      let rest : has_id id xs ≡ false = ground arith in ground (arith, lookup-has_id id xs rest)

  pub find_index-lookup :
      (id : String) (xs : List A) → lookup id xs ≡ none → find_index id xs ≡ none
  unfolding find_index lookup
  find_index-lookup id [] e = refl
  find_index-lookup id (x ∷ xs) e = elim (Bool-cases (id_of x == id)) [
    | inl p ↦ ground arith
    | inr p ↦
        let rest : lookup id xs ≡ none = ground arith in
        ground (arith, find_index-lookup id xs rest)
  ]

  pub lookup-find_index :
      (id : String) (xs : List A) → find_index id xs ≡ none → lookup id xs ≡ none
  unfolding find_index lookup
  lookup-find_index id [] e = refl
  lookup-find_index id (x ∷ xs) e = elim (Option-cases (find_index id xs)) [
    | inl p ↦ ground (arith, lookup-find_index id xs p)
    | inr (i, p) ↦ ground arith
  ]
