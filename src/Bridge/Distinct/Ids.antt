-- ===== src/Bridge/Distinct/Ids.antt =====
-- The ids of the sessions: what keeps them, and what keeps them distinct.
use af_companion.Prelude.{
  arith, String, Bool, false, none, List, [], ◌∷◌, ◌++◌, map, ◌≡◌, refl, ◌||◌, ◌⊎◌, inl, inr, ◌==◌,
  eq_iff, Bool-cases,
}
use af_companion.Prelude.StringMap.{contains}
use af_companion.Prelude.Evolution.{find_first, update_first}
use af_companion.Bridge.Contract.{Session}
use af_companion.Bridge.State.{State, Bridge}
use af_companion.Bridge.Records.{has_session_id, session_of}

abbrev pub session_ids : State → List String
session_ids s = map (λ x. x.session_id) s.sessions

abbrev pub IsDistinct : List String → Type 0
IsDistinct [] = Unit
IsDistinct (x ∷ xs) = (contains x xs ≡ false) × IsDistinct xs

-- No two sessions have the same id.
abbrev pub HasDistinctSessions : State → Type 0
HasDistinctSessions s = IsDistinct (session_ids s)

-- the ids are the same, or one is added that was not there
abbrev pub Adds : List String → List String → Type 0
Adds xs ys = (ys ≡ xs) ⊎ ((x : String) × (contains x xs ≡ false) × (ys ≡ xs ++ x ∷ []))

contains-append :
    (k x : String) (xs : List String) → contains k (xs ++ x ∷ []) ≡ (contains k xs || x == k)
unfolding contains
contains-append k x [] = ground arith
contains-append k x (y ∷ ys) = let rest = contains-append k x ys in ground arith

append-IsDistinct :
    (x : String) (xs : List String)
    → contains x xs ≡ false
    → IsDistinct xs
    → IsDistinct (xs ++ x ∷ [])
unfolding contains
append-IsDistinct x [] new d = (refl, tt)
append-IsDistinct x (y ∷ ys) new (fresh, d) = (
  ground (arith, contains-append y x ys, eq_iff x y, eq_iff y x),
  append-IsDistinct x ys (ground arith) d,
)

pub Adds-IsDistinct : (xs ys : List String) → Adds xs ys → IsDistinct xs → IsDistinct ys
Adds-IsDistinct xs ys (inl e) d = rw e d
Adds-IsDistinct xs ys (inr (x, new, e)) d = rw e (append-IsDistinct x xs new d)

find_first-contains :
    (id : String) (xs : List Session)
    → find_first (has_session_id id) xs ≡ none
    → contains id (map (λ x. x.session_id) xs) ≡ false
unfolding find_first contains
find_first-contains id [] e = refl
find_first-contains id (x ∷ xs) e = let rest = find_first-contains id xs in ground arith

-- a session that is not found has a new id
pub session_of-contains :
    (b : Bridge) (id : String) → session_of b id ≡ none → contains id (session_ids b.state) ≡ false
session_of-contains b id e = find_first-contains id b.state.sessions e

pub map-ids :
    (f : Session → Session)
    → ((x : Session) → (f x).session_id ≡ x.session_id)
    → (xs : List Session) → map (λ x. x.session_id) (map f xs) ≡ map (λ x. x.session_id) xs
map-ids f same [] = refl
map-ids f same (x ∷ xs) = rw (same x, map-ids f same xs) refl

pub update_first-ids :
    (p : Session → Bool) (f : Session → Session)
    → ((x : Session) → (f x).session_id ≡ x.session_id)
    → (xs : List Session)
    → map (λ x. x.session_id) (update_first p f xs) ≡ map (λ x. x.session_id) xs
unfolding update_first
update_first-ids p f same [] = refl
update_first-ids p f same (x ∷ xs) = elim (Bool-cases (p x)) [
  | inl here ↦ rw (here, same x) refl
  | inr there ↦ rw (there, update_first-ids p f same xs) refl
]

pub append-ids :
    (s : Session) (xs : List Session)
    → map (λ x. x.session_id) (xs ++ s ∷ []) ≡ map (λ x. x.session_id) xs ++ s.session_id ∷ []
append-ids s [] = refl
append-ids s (x ∷ xs) = rw (append-ids s xs) refl
