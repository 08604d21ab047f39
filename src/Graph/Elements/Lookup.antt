-- ===== src/Graph/Elements/Lookup.antt =====
-- What adding, replacing and removing an element does to the lookup by id, and to distinctness.
use af_companion.Prelude.{
  String, ℕ, zero, suc, ◌≡◌, refl, sym, ap, ◌∙◌, true, false, ◌||◌, Option, none, some, List, [],
  ◌∷◌, ◌++◌, get_elem?, arith, ◌==◌, if◌then◌else◌, eq_iff, Bool-cases, inl, inr,
}
use af_companion.Graph.Elements.{
  splice, assign, has_id, find_index, lookup, IsDistinct, next_index, lookup-has_id,
}

next_index-eq :
    (o : Option ℕ) (n : ℕ) → next_index o ≡ some n → (i : ℕ) × (o ≡ some i) × (n ≡ suc i)
next_index-eq none n e = cc
next_index-eq (some i) n e = (i, refl, cc)

module _ {ℓ} {A : Type ℓ} (id_of : A → String) where
  pub lookup-append :
      (j : String) (v : A) (xs : List A)
      → has_id id_of (id_of v) xs ≡ false
      → lookup id_of j (xs ++ v ∷ []) ≡ (if id_of v == j then some v else lookup id_of j xs)
  unfolding has_id lookup
  lookup-append j v [] h = refl
  lookup-append j v (x ∷ xs) h =
      let rest : has_id id_of (id_of v) xs ≡ false = ground arith in
      ground (
        arith,
        lookup-append j v xs rest,
        eq_iff (id_of x) j,
        eq_iff (id_of v) j,
        eq_iff (id_of x) (id_of v),
      )

  -- where the loop stops
  found-here :
      (id : String) (x : A) (xs : List A) (i : ℕ)
      → (id_of x == id) ≡ true
      → find_index id_of id (x ∷ xs) ≡ some i
      → i ≡ 0
  unfolding find_index
  found-here id x xs i p e = ground arith

  found-later :
      (id : String) (x : A) (xs : List A) (i : ℕ)
      → (id_of x == id) ≡ false
      → find_index id_of id (x ∷ xs) ≡ some i
      → (k : ℕ) × (find_index id_of id xs ≡ some k) × (i ≡ suc k)
  unfolding find_index
  found-later id x xs i p e =
      next_index-eq (find_index id_of id xs) i
        (ap (λ b. if b then some 0 else next_index (find_index id_of id xs)) (sym p) ∙ e)

  pub lookup-assign :
      (j id : String) (v : A) (xs : List A) (i : ℕ)
      → find_index id_of id xs ≡ some i
      → id_of v ≡ id
      → lookup id_of j (assign i v xs) ≡ (if id == j then some v else lookup id_of j xs)
  unfolding assign lookup
  lookup-assign j id v [] i e h =
      let p : find_index id_of id [] ≡ none = unfold find_index in refl in cc
  lookup-assign j id v (x ∷ xs) i e h = elim (Bool-cases (id_of x == id)) [
    | inl p ↦
        let z = found-here id x xs i p e in
        rw z
          (ground (arith, eq_iff (id_of x) j, eq_iff (id_of v) j, eq_iff (id_of x) id, eq_iff id j))
    | inr p ↦
        let (k, f, s) = found-later id x xs i p e in
        rw s (
          ground (
            arith,
            lookup-assign j id v xs k f h,
            eq_iff (id_of x) j,
            eq_iff (id_of x) id,
            eq_iff id j,
          ))
  ]

  pub lookup-splice :
      (j id : String) (xs : List A) (i : ℕ)
      → IsDistinct id_of xs
      → find_index id_of id xs ≡ some i
      → lookup id_of j (splice i xs) ≡ (if id == j then none else lookup id_of j xs)
  unfolding splice lookup IsDistinct
  lookup-splice j id [] i d e =
      let p : find_index id_of id [] ≡ none = unfold find_index in refl in cc
  lookup-splice j id (x ∷ xs) i (new, d) e = elim (Bool-cases (id_of x == id)) [
    | inl p ↦
        let z = found-here id x xs i p e in
        let gone = lookup-has_id id_of (id_of x) xs new in
        rw z (ground (arith, gone, eq_iff (id_of x) j, eq_iff (id_of x) id, eq_iff id j))
    | inr p ↦
        let (k, f, s) = found-later id x xs i p e in
        rw s (
          ground (
            arith,
            lookup-splice j id xs k d f,
            eq_iff (id_of x) j,
            eq_iff (id_of x) id,
            eq_iff id j,
          ))
  ]

  -- the element at the index that was found
  pub find_index-eq :
      (id : String) (xs : List A) (i : ℕ)
      → find_index id_of id xs ≡ some i
      → (x : A) × (get_elem? xs i ≡ some x) × (lookup id_of id xs ≡ some x)
  unfolding lookup
  find_index-eq id [] i e = let p : find_index id_of id [] ≡ none = unfold find_index in refl in cc
  find_index-eq id (x ∷ xs) i e = elim (Bool-cases (id_of x == id)) [
    | inl p ↦ let z = found-here id x xs i p e in rw z (x, refl, ground arith)
    | inr p ↦
        let (k, f, s) = found-later id x xs i p e in
        let (y, g, l) = find_index-eq id xs k f in rw s (y, g, ground arith)
  ]

  has_id-append :
      (j : String) (v : A) (xs : List A)
      → has_id id_of j (xs ++ v ∷ []) ≡ (has_id id_of j xs || id_of v == j)
  unfolding has_id
  has_id-append j v [] = ground arith
  has_id-append j v (x ∷ xs) = ground (arith, has_id-append j v xs)

  pub IsDistinct-append :
      (v : A) (xs : List A)
      → IsDistinct id_of xs
      → has_id id_of (id_of v) xs ≡ false
      → IsDistinct id_of (xs ++ v ∷ [])
  unfolding IsDistinct has_id
  IsDistinct-append v [] d h = (refl, tt)
  IsDistinct-append v (x ∷ xs) (new, d) h =
      let rest : has_id id_of (id_of v) xs ≡ false = ground arith in
      (
        ground (
          arith,
          has_id-append (id_of x) v xs,
          eq_iff (id_of x) (id_of v),
          eq_iff (id_of v) (id_of x),
        ),
        IsDistinct-append v xs d rest,
      )

  has_id-assign :
      (j id : String) (v : A) (xs : List A) (i : ℕ)
      → find_index id_of id xs ≡ some i
      → id_of v ≡ id
      → has_id id_of j (assign i v xs) ≡ has_id id_of j xs
  unfolding assign has_id
  has_id-assign j id v [] i e h = refl
  has_id-assign j id v (x ∷ xs) i e h = elim (Bool-cases (id_of x == id)) [
    | inl p ↦
        let z = found-here id x xs i p e in
        rw z (ground (arith, eq_iff (id_of x) id, eq_iff (id_of x) j, eq_iff (id_of v) j))
    | inr p ↦
        let (k, f, s) = found-later id x xs i p e in
        rw s (ground (arith, has_id-assign j id v xs k f h))
  ]

  pub IsDistinct-assign :
      (id : String) (v : A) (xs : List A) (i : ℕ)
      → IsDistinct id_of xs
      → find_index id_of id xs ≡ some i
      → id_of v ≡ id
      → IsDistinct id_of (assign i v xs)
  unfolding assign IsDistinct
  IsDistinct-assign id v [] i d e h = tt
  IsDistinct-assign id v (x ∷ xs) i (new, d) e h = elim (Bool-cases (id_of x == id)) [
    | inl p ↦ let z = found-here id x xs i p e in rw z (ground (arith, eq_iff (id_of x) id), d)
    | inr p ↦
        let (k, f, s) = found-later id x xs i p e in
        rw s (has_id-assign (id_of x) id v xs k f h ∙ new, IsDistinct-assign id v xs k d f h)
  ]

  has_id-splice :
      (j : String) (xs : List A) (i : ℕ)
      → has_id id_of j xs ≡ false
      → has_id id_of j (splice i xs) ≡ false
  unfolding splice has_id
  has_id-splice j [] i e = refl
  has_id-splice j (x ∷ xs) zero e = ground arith
  has_id-splice j (x ∷ xs) (suc i) e =
      let rest : has_id id_of j xs ≡ false = ground arith in
      ground (arith, has_id-splice j xs i rest)

  pub IsDistinct-splice :
      (xs : List A) (i : ℕ) → IsDistinct id_of xs → IsDistinct id_of (splice i xs)
  unfolding splice IsDistinct
  IsDistinct-splice [] i d = tt
  IsDistinct-splice (x ∷ xs) zero (new, d) = d
  IsDistinct-splice (x ∷ xs) (suc i) (new, d) =
      (has_id-splice (id_of x) xs i new, IsDistinct-splice xs i d)
