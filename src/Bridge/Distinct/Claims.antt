-- ===== src/Bridge/Distinct/Claims.antt =====
-- The activations of grants and handoffs, which add a session whose id is not there.
use af_companion.Prelude.{
  arith, String, Bool, true, false, not, ◌&&◌, sym, none, some, [], ◌∷◌, ◌++◌, ap, ◌≡◌, refl, ◌∙◌,
  inl, inr, Option-cases, Option,
}
use af_companion.Prelude.StringMap.{is_some}
use af_companion.Bridge.Contract.{Session}
use af_companion.Bridge.Results.{Holds, read, Result-cases}
use af_companion.Bridge.State.{Handoff, Grant, Bridge}
use af_companion.Bridge.Platform.{HandoffCapsule, GrantCapsule, Capsule, Config, Env}
use af_companion.Bridge.Records.{now_text, session_of}
use af_companion.Bridge.HandoffRecords.{fail_handoff, claim_handoff}
use af_companion.Bridge.GrantRecords.{claim_grant, fail_grant}
use af_companion.Bridge.Handoffs.{handoff_of, change_handoff}
use af_companion.Bridge.Grants.{change_grant}
use af_companion.Bridge.Hooks.{HookInput, prompt_turn}
use af_companion.Bridge.Leases.{new_session}
use af_companion.Bridge.Activation.{
  grant_session, grant_accepts, accepted_grant, claim_accepted_grant, activate_accepted,
  activate_grant,
}
use af_companion.Bridge.HandoffActivation.{
  handoff_session, handoff_accepts, accepts_handoff, claim_accepted_handoff, activate_handoff,
}
use af_companion.Bridge.Entry.{activation_body}
use af_companion.Bridge.Distinct.Ids.{session_ids, Adds, session_of-contains}
use af_companion.Bridge.Distinct.Added.{
  AddsOne, record_claimed-ids, issue_lease-AddsOne, activate_enrollment-AddsOne,
}

change_grant-ids :
    (id : String) (f : Grant → Grant) (b : Bridge)
    → session_ids (change_grant id f b).state ≡ session_ids b.state
unfolding change_grant
change_grant-ids id f b = refl

change_handoff-ids :
    (id : String) (f : Handoff → Handoff) (b : Bridge)
    → session_ids (change_handoff id f b).state ≡ session_ids b.state
unfolding change_handoff
change_handoff-ids id f b = refl

claim_accepted_grant-AddsOne :
    (env : Env) (config : Config) (input : HookInput) (cwd turn id : String) (g : Grant)
    (context : String) (b : Bridge)
    → session_of b input.session_id ≡ none
    → Holds (AddsOne b) (claim_accepted_grant env config input cwd turn id g context b)
unfolding claim_accepted_grant grant_session new_session
claim_accepted_grant-AddsOne env config input cwd turn id g context b fresh =
    elim (Result-cases (read (env.work_item g.work_id))) [
      | inl (item, e) ↦ rw e (
          issue_lease-AddsOne env config _ b _ λ l leases.
            let issued = record b { leases = leases } in
            let f = claim_grant input.session_id turn (now_text env) in
            inr (
              input.session_id,
              session_of-contains b input.session_id fresh,
              record_claimed-ids env input turn g.work_id g.grant_id
                    (grant_session env input cwd g l item.etag) (change_grant id f issued)
                  ∙ ap (λ ids. ids ++ input.session_id ∷ []) (change_grant-ids id f issued),
            ))
      | inr (f, e) ↦ rw e tt
    ]

claim_accepted_handoff-AddsOne :
    (env : Env) (config : Config) (input : HookInput) (cwd turn id : String) (h : Handoff)
    (context : String) (b : Bridge)
    → session_of b input.session_id ≡ none
    → Holds (AddsOne b) (claim_accepted_handoff env config input cwd turn id h context b)
unfolding claim_accepted_handoff handoff_session new_session
claim_accepted_handoff-AddsOne env config input cwd turn id h context b fresh =
    elim (Result-cases (read (env.work_item h.work_id))) [
      | inl (item, e) ↦ rw e (
          issue_lease-AddsOne env config _ b _ λ l leases.
            let issued = record b { leases = leases } in
            let f = claim_handoff input.session_id turn (now_text env) in
            inr (
              input.session_id,
              session_of-contains b input.session_id fresh,
              record_claimed-ids env input turn h.work_id h.handoff_id
                    (handoff_session env input cwd h l item.etag) (change_handoff id f issued)
                  ∙ ap (λ ids. ids ++ input.session_id ∷ []) (change_handoff-ids id f issued),
            ))
      | inr (f, e) ↦ rw e tt
    ]

activate_accepted-AddsOne :
    (env : Env) (config : Config) (input : HookInput) (cwd turn id : String) (g : Grant)
    (b : Bridge)
    → session_of b input.session_id ≡ none
    → Holds (AddsOne b) (activate_accepted env config input cwd turn id g b)
unfolding activate_accepted
activate_accepted-AddsOne env config input cwd turn id g b fresh =
    let changed : Adds (session_ids b.state)
        (session_ids (change_grant id (fail_grant "work_item_changed") b).state) =
      inl (change_grant-ids id (fail_grant "work_item_changed") b) in
    let lost : Adds (session_ids b.state)
        (session_ids (change_grant id (fail_grant "plan_body_unavailable") b).state) =
      inl (change_grant-ids id (fail_grant "plan_body_unavailable") b) in
    grind (arith, claim_accepted_grant-AddsOne)

accepted_grant-fresh :
    (env : Env) (input : HookInput) (digest : String) (b : Bridge) (parsed : GrantCapsule)
    (g : Grant)
    → accepted_grant env input digest b parsed ≡ some g
    → session_of b input.session_id ≡ none
unfolding accepted_grant grant_accepts
accepted_grant-fresh env input digest b parsed g e =
    elim (Option-cases (session_of b input.session_id)) [ inl n ↦ n | inr (s, n) ↦ ground arith ]

activate_grant-AddsOne :
    (env : Env) (config : Config) (input : HookInput) (cwd turn : String) (parsed : GrantCapsule)
    (b : Bridge)
    → Holds (AddsOne b) (activate_grant env config input cwd turn parsed b)
unfolding activate_grant
activate_grant-AddsOne env config input cwd turn parsed b =
    let same : Adds (session_ids b.state) (session_ids b.state) = inl refl in
    elim (Option-cases (accepted_grant env input (env.sha256 cwd) b parsed)) [
      | inl n ↦ ground arith
      | inr (g, n) ↦
          let fresh = accepted_grant-fresh env input (env.sha256 cwd) b parsed g n in
          let activated =
            activate_accepted-AddsOne env config input cwd turn parsed.grant_id g b fresh in
          ground arith
    ]

not_some : (a : Bool) (o : Option Session) → (a && not (is_some o)) ≡ true → o ≡ none
not_some a none e = refl
not_some true (some s) e = cc
not_some false (some s) e = cc

accepts_handoff-fresh :
    (env : Env) (input : HookInput) (raw digest : String) (b : Bridge) (parsed : HandoffCapsule)
    (h : Handoff)
    → accepts_handoff env input raw digest b parsed h ≡ true
    → session_of b input.session_id ≡ none
unfolding accepts_handoff
accepts_handoff-fresh env input raw digest b parsed h e =
    let accepted : Option Session → Bool = λ o. elim o [
      | none ↦ false
      | some source ↦
          handoff_accepts env input raw digest b parsed h source
          && not (is_some (session_of b input.session_id))
    ] in
    elim (Option-cases (session_of b h.from_session_id)) [
      | inl m ↦ let bad : false ≡ true = ap accepted (sym m) ∙ e in cc
      | inr (source, m) ↦
          not_some (handoff_accepts env input raw digest b parsed h source)
            (session_of b input.session_id) (ap accepted (sym m) ∙ e)
    ]

activate_handoff-AddsOne :
    (env : Env) (config : Config) (input : HookInput) (raw cwd turn : String)
    (parsed : HandoffCapsule) (b : Bridge)
    → Holds (AddsOne b) (activate_handoff env config input raw cwd turn parsed b)
unfolding activate_handoff
activate_handoff-AddsOne env config input raw cwd turn parsed b =
    let id = parsed.handoff_id in
    let same : Adds (session_ids b.state) (session_ids b.state) = inl refl in
    let stale : Adds (session_ids b.state)
        (session_ids (change_handoff id (fail_handoff "canonical_handoff_stale") b).state) =
      inl (change_handoff-ids id (fail_handoff "canonical_handoff_stale") b) in
    let lost : Adds (session_ids b.state)
        (session_ids (change_handoff id (fail_handoff "plan_body_unavailable") b).state) =
      inl (change_handoff-ids id (fail_handoff "plan_body_unavailable") b) in
    elim (Option-cases (handoff_of b id)) [
      | inl n ↦ ground arith
      | inr (h, n) ↦ grind (arith, claim_accepted_handoff-AddsOne, accepts_handoff-fresh)
    ]

pub activation_body-AddsOne :
    (env : Env) (config : Config) (input : HookInput) (raw cwd : String) (capsule : Capsule)
    (b : Bridge)
    → Holds (AddsOne b) (activation_body env config input raw cwd capsule b)
unfolding activation_body
activation_body-AddsOne env config input raw cwd (Capsule.enrollment parsed) b =
    activate_enrollment-AddsOne env config input cwd parsed b
activation_body-AddsOne env config input raw cwd (Capsule.materialization_grant parsed) b =
    elim (Option-cases (prompt_turn input.event)) [
      | inl n ↦
          let same : Adds (session_ids b.state) (session_ids b.state) = inl refl in ground arith
      | inr (turn, n) ↦
          let activated = activate_grant-AddsOne env config input cwd turn parsed b in ground arith
    ]
activation_body-AddsOne env config input raw cwd (Capsule.handoff parsed) b =
    elim (Option-cases (prompt_turn input.event)) [
      | inl n ↦
          let same : Adds (session_ids b.state) (session_ids b.state) = inl refl in ground arith
      | inr (turn, n) ↦
          let activated = activate_handoff-AddsOne env config input raw cwd turn parsed b in
          ground arith
    ]
