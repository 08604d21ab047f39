-- ===== src/Journey/Decisions.antt =====
-- How the journey comes to its decisions, one step after the other.
use af_companion.Prelude.{
  arith, String, ℕ, Bool, true, false, Option, none, some, List, [], ◌∷◌, ◌≡◌, refl, inl, inr, All,
  Bool-cases,
}
use af_companion.Bridge.Records.{truthy}
use af_companion.Bridge.Snapshots.{Snapshot}
use af_companion.Journey.Recovery.{
  RecoveryState, Observation, recovery_state_from_error_code, some_of, classify_launched,
  classify_snapshot, classify_journey_recovery,
}

module _ {ℓ} {A : Type ℓ} (p : A → Bool) where
  pub All-some_of : (xs : List A) → All (λ x. p x ≡ false) xs → some_of p xs ≡ false
  unfolding some_of
  All-some_of [] h = refl
  All-some_of (x ∷ xs) (h, hs) = rw (h) (All-some_of xs hs)

  pub some_of-All : (xs : List A) → some_of p xs ≡ false → All (λ x. p x ≡ false) xs
  unfolding some_of
  some_of-All [] h = tt
  some_of-All (x ∷ xs) h = elim (Bool-cases (p x)) [
    | inl here ↦ let bad : true ≡ false = ground arith in cc
    | inr other ↦ (other, some_of-All xs (ground arith))
  ]

module _ (date_parse : String → Option ℕ) where
  pub classify_journey_recovery-error :
      (o : Observation) (state : RecoveryState)
      → recovery_state_from_error_code o.error_code ≡ some state
      → classify_journey_recovery date_parse o ≡ some state
  unfolding classify_journey_recovery
  classify_journey_recovery-error o state failed = ground arith

  pub classify_journey_recovery-snapshot :
      (o : Observation) (s : Snapshot)
      → recovery_state_from_error_code o.error_code ≡ none
      → o.snapshot ≡ some s
      → classify_journey_recovery date_parse o ≡ classify_snapshot date_parse o s
  unfolding classify_journey_recovery
  classify_journey_recovery-snapshot o s error seen = ground arith

  pub classify_snapshot-launched :
      (o : Observation) (s : Snapshot) (work_id launched_at : String)
      → s.bridge_available ≡ true
      → truthy o.work_id ≡ some work_id
      → truthy o.launched_at ≡ some launched_at
      → classify_snapshot date_parse o s ≡ classify_launched date_parse o s work_id launched_at
  unfolding classify_snapshot
  classify_snapshot-launched o s work_id launched_at up work at = ground arith
