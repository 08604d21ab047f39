-- ===== src/Graph/Membership.antt =====
-- packages/web/src/graph/containerMembership.ts: the membership of nodes in regions. Its regions have
-- the fields of `GraphRegion`.
use af_companion.Prelude.{
  ◌&&◌, String, ℕ, zero, suc, ◌≡◌, refl, ap, ◌∙◌, Bool, false, ◌||◌, Option, none, some, List, [],
  ◌∷◌, ◌++◌, map, get_elem?, arith, ◌==◌, if◌then◌else◌, eq_iff, eq_refl, Bool-cases, inl, inr,
}
use af_companion.Prelude.StringMap.{contains}
use af_companion.Graph.Types.{GraphRegion}

unfoldable pub append_unique : List String → String → List String
append_unique values value = if contains value values then values else values ++ value ∷ []

abbrev append_to : String → String → GraphRegion → GraphRegion
append_to region_id node_id r =
    if r.id == region_id then record r { node_ids = append_unique r.node_ids node_id } else r

unfoldable pub append_node_to_region : List GraphRegion → String → String → List GraphRegion
append_node_to_region regions region_id node_id = map (append_to region_id node_id) regions

-- `values.filter((id) => id !== nodeId)`
unfoldable pub without : String → List String → List String
without k [] = []
without k (j ∷ ids) = let rest = without k ids in if j == k then rest else j ∷ rest

abbrev pub stripped : String → GraphRegion → GraphRegion
stripped node_id r = record r {
  node_ids = without node_id r.node_ids;
  entry_node_ids = without node_id r.entry_node_ids;
  exit_node_ids = without node_id r.exit_node_ids;
}

-- `nextRegionId === region.id`
abbrev pub is_target : Option String → String → Bool
is_target none id = false
is_target (some next_region_id) id = next_region_id == id

abbrev pub moved : String → Option String → GraphRegion → GraphRegion
moved node_id target r =
    let s = stripped node_id r in
    if is_target target r.id then record s { node_ids = append_unique s.node_ids node_id } else s

unfoldable pub move_node_to_region : List GraphRegion → String → Option String → List GraphRegion
unfolding append_unique without
move_node_to_region regions node_id target = map (moved node_id target) regions

contains-append :
    (k j : String) (ids : List String) → contains j (ids ++ k ∷ []) ≡ (contains j ids || k == j)
unfolding contains
contains-append k j [] = ground arith
contains-append k j (i ∷ ids) = ground (arith, contains-append k j ids)

contains-append_unique :
    (k j : String) (ids : List String)
    → contains j (append_unique ids k) ≡ (k == j || contains j ids)
unfolding append_unique
contains-append_unique k j ids = elim (Bool-cases (k == j)) [
  | inl e ↦ ground (arith, contains-append k j ids, eq_iff k j)
  | inr e ↦ ground (arith, contains-append k j ids, eq_iff k j)
]

contains-without :
    (k j : String) (ids : List String)
    → contains j (without k ids) ≡ (if k == j then false else contains j ids)
unfolding contains without
contains-without k j [] = ground arith
contains-without k j (i ∷ ids) =
    ground (arith, contains-without k j ids, eq_iff i k, eq_iff i j, eq_iff k j)

without-append :
    (k : String) (ids : List String) → without k (without k ids ++ k ∷ []) ≡ without k ids
unfolding without
without-append k [] = ground (arith, eq_refl k)
without-append k (i ∷ ids) = ground (arith, without-append k ids)

without_idempotent : (k : String) (ids : List String) → without k (without k ids) ≡ without k ids
unfolding without
without_idempotent k [] = refl
without_idempotent k (i ∷ ids) = ground (arith, without_idempotent k ids)

get_elem?-map {ℓ κ} :
    {A : Type ℓ} {B : Type κ} (f : A → B) (xs : List A) (i : ℕ) {x : A}
    → get_elem? xs i ≡ some x
    → get_elem? (map f xs) i ≡ some (f x)
get_elem?-map f [] i e = cc
get_elem?-map f (y ∷ xs) zero e = cc
get_elem?-map f (y ∷ xs) (suc i) e = get_elem?-map f xs i e

moved-node_ids :
    (node_id j : String) (target : Option String) (r : GraphRegion)
    → contains j (moved node_id target r).node_ids
      ≡ (if node_id == j then is_target target r.id else contains j r.node_ids)
moved-node_ids node_id j target r = elim (Bool-cases (is_target target r.id)) [
  | inl t ↦ ground (
    arith,
    contains-append_unique node_id j (without node_id r.node_ids),
    contains-without node_id j r.node_ids,
  )
  | inr t ↦ ground (arith, contains-without node_id j r.node_ids)
]

-- A node that is moved is a member of the regions that have the target's id, and of no other, and it is
-- nowhere an entry or an exit; the membership of every other node stays, and the regions keep their
-- places.
pub move_node_to_region-members :
    (regions : List GraphRegion) (node_id : String) (target : Option String) (i : ℕ)
    (r : GraphRegion)
    → get_elem? regions i ≡ some r
    → (q : GraphRegion) × (get_elem? (move_node_to_region regions node_id target) i ≡ some q)
      × (q.id ≡ r.id)
      × ((j : String)
          → contains j q.node_ids
            ≡ (if node_id == j then is_target target r.id else contains j r.node_ids))
      × ((j : String)
          → contains j q.entry_node_ids
            ≡ (if node_id == j then false else contains j r.entry_node_ids))
      × ((j : String)
          → contains j q.exit_node_ids
            ≡ (if node_id == j then false else contains j r.exit_node_ids))
unfolding move_node_to_region
move_node_to_region-members regions node_id target i r e = (
  moved node_id target r,
  get_elem?-map (moved node_id target) regions i e,
  ground arith,
  λ j. moved-node_ids node_id j target r,
  λ j. elim (Bool-cases (is_target target r.id)) [
    | inl t ↦ ground (arith, contains-without node_id j r.entry_node_ids)
    | inr t ↦ ground (arith, contains-without node_id j r.entry_node_ids)
  ],
  λ j. elim (Bool-cases (is_target target r.id)) [
    | inl t ↦ ground (arith, contains-without node_id j r.exit_node_ids)
    | inr t ↦ ground (arith, contains-without node_id j r.exit_node_ids)
  ],
)

moved_idempotent :
    (node_id : String) (target : Option String) (r : GraphRegion)
    → moved node_id target (moved node_id target r) ≡ moved node_id target r
unfolding append_unique
moved_idempotent node_id target r = elim (Bool-cases (is_target target r.id)) [
  | inl t ↦ ground (
    arith,
    contains-without node_id node_id r.node_ids,
    eq_refl node_id,
    without-append node_id r.node_ids,
    without_idempotent node_id r.entry_node_ids,
    without_idempotent node_id r.exit_node_ids,
  )
  | inr t ↦ ground (
    arith,
    without_idempotent node_id r.node_ids,
    without_idempotent node_id r.entry_node_ids,
    without_idempotent node_id r.exit_node_ids,
  )
]

-- To move a node to the same target twice is to move it once.
pub move_node_to_region_idempotent :
    (regions : List GraphRegion) (node_id : String) (target : Option String)
    → move_node_to_region (move_node_to_region regions node_id target) node_id target
      ≡ move_node_to_region regions node_id target
unfolding move_node_to_region
move_node_to_region_idempotent [] node_id target = refl
move_node_to_region_idempotent (r ∷ regions) node_id target =
    ap (λ x. x ∷ map (moved node_id target) (map (moved node_id target) regions))
      (moved_idempotent node_id target r)
    ∙ ap (λ xs. moved node_id target r ∷ xs) (move_node_to_region_idempotent regions node_id target)

-- To append a node to a region adds it to the members of the regions with that id, and changes no
-- other membership, entry or exit; the regions keep their places.
pub append_node_to_region-members :
    (regions : List GraphRegion) (region_id node_id : String) (i : ℕ) (r : GraphRegion)
    → get_elem? regions i ≡ some r
    → (q : GraphRegion) × (get_elem? (append_node_to_region regions region_id node_id) i ≡ some q)
      × (q.id ≡ r.id)
      × ((j : String)
          → contains j q.node_ids ≡ ((r.id == region_id && node_id == j) || contains j r.node_ids))
      × (q.entry_node_ids ≡ r.entry_node_ids)
      × (q.exit_node_ids ≡ r.exit_node_ids)
unfolding append_node_to_region append_unique
append_node_to_region-members regions region_id node_id i r e = (
  append_to region_id node_id r,
  get_elem?-map (append_to region_id node_id) regions i e,
  ground arith,
  λ j. ground (arith, contains-append node_id j r.node_ids, eq_iff node_id j),
  ground arith,
  ground arith,
)
