-- ===== src/Prelude/Evolution.antt =====
-- Lists of objects that a program changes in place: the first that fits is found or changed, and a
-- list evolves when each object changes by a relation, and the objects that are added are fit.
use mathlib.Core.Path.{◌≡◌, refl}
use mathlib.Core.Logic.{inl, inr}
use mathlib.Core.Bool.{Bool, true}
use mathlib.Core.Option.{Option, none, some}
use mathlib.Core.List.{List, [], ◌∷◌, ◌++◌, map}
use native.Mathlib.Omega.{arith}
use Prim.Native.Nat.{ℕ, zero, suc}
use af_companion.Prelude.Tests.{if◌then◌else◌, Bool-cases}
use af_companion.Prelude.Lists.{All, get_elem?}

module _ {ℓ} {A : Type ℓ} (p : A → Bool) where
  -- `list.find(p)`
  unfoldable pub find_first : List A → Option A
  find_first [] = none
  find_first (x ∷ xs) = let rest = find_first xs in if p x then some x else rest

  -- what a change of the object that `list.find(p)` returns does to the list
  unfoldable pub update_first : (A → A) → List A → List A
  update_first f [] = []
  update_first f (x ∷ xs) = let rest = update_first f xs in if p x then f x ∷ xs else x ∷ rest

pub find_first_holds {ℓ} :
    {A : Type ℓ} (p : A → Bool) (xs : List A) (x : A) → find_first p xs ≡ some x → p x ≡ true
unfolding find_first
find_first_holds p [] x e = cc
find_first_holds p (y ∷ xs) x e = elim (Bool-cases (p y)) [
  | inl here ↦ let same : y ≡ x = ground arith in rw (← same) here
  | inr there ↦ find_first_holds p xs x (ground arith)
]

module _ {A : Type 0} (P : A → A → Type 0) (N : A → Type 0) where
  abbrev pub Evolves : List A → List A → Type 0
  Evolves [] ys = All N ys
  Evolves (x ∷ xs) [] = ⊥
  Evolves (x ∷ xs) (y ∷ ys) = P x y × Evolves xs ys

  pub Evolves-refl : ((x : A) → P x x) → (xs : List A) → Evolves xs xs
  Evolves-refl r [] = tt
  Evolves-refl r (x ∷ xs) = (r x, Evolves-refl r xs)

  pub All-Evolves :
      ((x y : A) → N x → P x y → N y) → (xs ys : List A) → All N xs → Evolves xs ys → All N ys
  All-Evolves n [] ys a e = e
  All-Evolves n (x ∷ xs) [] a e = absurd e
  All-Evolves n (x ∷ xs) (y ∷ ys) (a, as') (e, es) = (n x y a e, All-Evolves n xs ys as' es)

  pub Evolves-trans :
      ((x y z : A) → P x y → P y z → P x z)
      → ((x y : A) → N x → P x y → N y)
      → (xs ys zs : List A) → Evolves xs ys
      → Evolves ys zs
      → Evolves xs zs
  Evolves-trans t n [] ys zs a b = All-Evolves n ys zs a b
  Evolves-trans t n (x ∷ xs) [] zs a b = absurd a
  Evolves-trans t n (x ∷ xs) (y ∷ ys) [] a b = absurd b
  Evolves-trans t n (x ∷ xs) (y ∷ ys) (z ∷ zs) (p, a) (q, b) =
      (t x y z p q, Evolves-trans t n xs ys zs a b)

  pub Evolves-map : (f : A → A) → ((x : A) → P x (f x)) → (xs : List A) → Evolves xs (map f xs)
  Evolves-map f h [] = tt
  Evolves-map f h (x ∷ xs) = (h x, Evolves-map f h xs)

  pub Evolves-append : ((x : A) → P x x) → (xs zs : List A) → All N zs → Evolves xs (xs ++ zs)
  Evolves-append r [] zs a = a
  Evolves-append r (x ∷ xs) zs a = (r x, Evolves-append r xs zs a)

  pub Evolves-update_first :
      ((x : A) → P x x)
      → (p : A → Bool) (f : A → A) (xs : List A) (x : A) → find_first p xs ≡ some x
      → P x (f x)
      → Evolves xs (update_first p f xs)
  unfolding find_first update_first
  Evolves-update_first r p f [] x e h = tt
  Evolves-update_first r p f (y ∷ xs) x e h = elim (Bool-cases (p y)) [
    | inl here ↦ let same : y ≡ x = ground arith in rw (here, same) (h, Evolves-refl r xs)
    | inr there ↦
        let found : find_first p xs ≡ some x = ground arith in
        rw there (r y, Evolves-update_first r p f xs x found h)
  ]

  pub get_elem?-Evolves :
      (xs ys : List A) (i : ℕ) (x : A)
      → Evolves xs ys
      → get_elem? xs i ≡ some x
      → (y : A) × (get_elem? ys i ≡ some y) × P x y
  get_elem?-Evolves [] ys i x a e = cc
  get_elem?-Evolves (z ∷ xs) [] i x a e = absurd a
  get_elem?-Evolves (z ∷ xs) (y ∷ ys) zero x (p, a) e =
      let same : z ≡ x = cc in (y, refl, rw (← same) p)
  get_elem?-Evolves (z ∷ xs) (y ∷ ys) (suc i) x (p, a) e = get_elem?-Evolves xs ys i x a e
