-- ===== src/Bridge/Moves/Claiming.antt =====
-- `handleHook` on the capsules of grants and handoffs, as moves of the records. A handoff that an
-- activation fails need not be pending.
use af_companion.Prelude.{arith, String, true, some, ◌≡◌, refl, inl, inr, Bool-cases, Option-cases}
use af_companion.Bridge.Contract.{Session, handoff_is_pending, grant_is_pending}
use af_companion.Bridge.Results.{Holds, read, Result-cases}
use af_companion.Bridge.Moves.Activating.{issue_lease-Moves, record_claimed-Moves}
use af_companion.Bridge.State.{Handoff, Grant, Bridge}
use af_companion.Bridge.Platform.{HandoffCapsule, GrantCapsule, Config, Env}
use af_companion.Bridge.Records.{now_text, session_of}
use af_companion.Bridge.HandoffRecords.{canonical_of, fail_handoff, claim_handoff}
use af_companion.Bridge.GrantRecords.{claim_grant}
use af_companion.Bridge.Handoffs.{handoff_of, change_handoff}
use af_companion.Bridge.Grants.{grant_of, change_grant}
use af_companion.Bridge.Hooks.{HookInput}
use af_companion.Bridge.Activation.{
  accepted_grant, record_claimed, grant_session, grant_accepts, claim_accepted_grant,
  activate_accepted, activate_grant,
}
use af_companion.Bridge.HandoffActivation.{
  handoff_session, handoff_accepts, accepts_handoff, claim_accepted_handoff, activate_handoff,
}
use af_companion.Bridge.Moves.{Moves, Moves-refl, Moves-trans}
use af_companion.Bridge.Moves.Time.{Moved}
use af_companion.Bridge.Moves.Parts.{change_handoff-Moves, change_grant-Moves}
use af_companion.Bridge.Moves.Offers.{fail_grant_of-Moves}
use af_companion.Bridge.Moves.Prompts.{claim_handoff-Moves}

claim_accepted_grant-Moves :
    (env : Env) (config : Config) (input : HookInput) (cwd turn id : String) (g : Grant)
    (context : String) (b : Bridge)
    → grant_of b id ≡ some g
    → grant_is_pending g.status ≡ true
    → Holds (Moved b) (claim_accepted_grant env config input cwd turn id g context b)
unfolding claim_accepted_grant claim_grant
claim_accepted_grant-Moves env config input cwd turn id g context b found p =
    elim (Result-cases (read (env.work_item g.work_id))) [
      | inl (item, e) ↦ rw e (
          issue_lease-Moves env config _ b _ λ l leases.
            let issued = record b { leases = leases } in
            let claimed =
              change_grant id (claim_grant input.session_id turn (now_text env)) issued in
            let session = grant_session env input cwd g l item.etag in
            Moves-trans b.state claimed.state
              (record_claimed env input turn g.work_id g.grant_id session claimed).state
              (change_grant-Moves id (claim_grant input.session_id turn (now_text env)) issued g
                found (refl, refl, inl p, inl (inr (refl, refl))))
              (record_claimed-Moves env input turn g.work_id g.grant_id session claimed))
      | inr (f, e) ↦ rw e tt
    ]

claim_accepted_handoff-Moves :
    (env : Env) (config : Config) (input : HookInput) (cwd turn id : String) (h : Handoff)
    (context : String) (b : Bridge)
    → handoff_of b id ≡ some h
    → handoff_is_pending h.status ≡ true
    → Holds (Moved b) (claim_accepted_handoff env config input cwd turn id h context b)
unfolding claim_accepted_handoff
claim_accepted_handoff-Moves env config input cwd turn id h context b found p =
    elim (Result-cases (read (env.work_item h.work_id))) [
      | inl (item, e) ↦ rw e (
          issue_lease-Moves env config _ b _ λ l leases.
            let issued = record b { leases = leases } in
            let claimed =
              change_handoff id (claim_handoff input.session_id turn (now_text env)) issued in
            let session = handoff_session env input cwd h l item.etag in
            Moves-trans b.state claimed.state
              (record_claimed env input turn h.work_id h.handoff_id session claimed).state
              (change_handoff-Moves id (claim_handoff input.session_id turn (now_text env)) issued h
                found (claim_handoff-Moves input.session_id turn (now_text env) h p))
              (record_claimed-Moves env input turn h.work_id h.handoff_id session claimed))
      | inr (f, e) ↦ rw e tt
    ]

grant_accepts-IsPending :
    (env : Env) (input : HookInput) (digest : String) (b : Bridge) (parsed : GrantCapsule)
    (g : Grant) (source : Session)
    → grant_accepts env input digest b parsed g source ≡ true
    → grant_is_pending g.status ≡ true
unfolding grant_accepts
grant_accepts-IsPending env input digest b parsed g source e = ground arith

accepted_grant-IsPending :
    (env : Env) (input : HookInput) (digest : String) (b : Bridge) (parsed : GrantCapsule)
    (g : Grant)
    → accepted_grant env input digest b parsed ≡ some g
    → (grant_of b parsed.grant_id ≡ some g) × (grant_is_pending g.status ≡ true)
unfolding accepted_grant
accepted_grant-IsPending env input digest b parsed g e =
    elim (Option-cases (grant_of b parsed.grant_id)) [
      | inl n ↦ ground arith
      | inr (h, n) ↦ elim (Option-cases (session_of b h.from_session_id)) [
        | inl m ↦ ground arith
        | inr (source, m) ↦ elim (Bool-cases (grant_accepts env input digest b parsed h source)) [
          | inl a ↦
              let pending = grant_accepts-IsPending env input digest b parsed h source a in
              ground arith
          | inr a ↦ ground arith
        ]
      ]
    ]

accepts_handoff-IsPending :
    (env : Env) (input : HookInput) (raw digest : String) (b : Bridge) (parsed : HandoffCapsule)
    (h : Handoff)
    → accepts_handoff env input raw digest b parsed h ≡ true
    → handoff_is_pending h.status ≡ true
unfolding accepts_handoff handoff_accepts
accepts_handoff-IsPending env input raw digest b parsed h e = ground arith

activate_accepted-Moves :
    (env : Env) (config : Config) (input : HookInput) (cwd turn id : String) (g : Grant)
    (b : Bridge)
    → grant_of b id ≡ some g
    → grant_is_pending g.status ≡ true
    → Holds (Moved b) (activate_accepted env config input cwd turn id g b)
unfolding activate_accepted
activate_accepted-Moves env config input cwd turn id g b found pending =
    let changed = fail_grant_of-Moves "work_item_changed" id b g found pending in
    let lost = fail_grant_of-Moves "plan_body_unavailable" id b g found pending in
    grind (arith, claim_accepted_grant-Moves)

pub activate_grant-Moves :
    (env : Env) (config : Config) (input : HookInput) (cwd turn : String) (parsed : GrantCapsule)
    (b : Bridge)
    → Holds (Moved b) (activate_grant env config input cwd turn parsed b)
unfolding activate_grant
activate_grant-Moves env config input cwd turn parsed b =
    elim (Option-cases (accepted_grant env input (env.sha256 cwd) b parsed)) [
      | inl n ↦ let same = Moves-refl b.state in ground arith
      | inr (g, n) ↦
          let accepted = accepted_grant-IsPending env input (env.sha256 cwd) b parsed g n in
          let activated =
            activate_accepted-Moves env config input cwd turn parsed.grant_id g b accepted.0
              accepted.1 in
          ground arith
    ]

-- a handoff that fails, whatever its status is
fail_any-Moves :
    (code id : String) (b : Bridge) (h : Handoff)
    → handoff_of b id ≡ some h
    → Moves b.state (change_handoff id (fail_handoff code) b).state
unfolding fail_handoff canonical_of
fail_any-Moves code id b h found =
    change_handoff-Moves id (fail_handoff code) b h found (refl, inr (refl, refl), inl (inr refl))

pub activate_handoff-Moves :
    (env : Env) (config : Config) (input : HookInput) (raw cwd turn : String)
    (parsed : HandoffCapsule) (b : Bridge)
    → Holds (Moved b) (activate_handoff env config input raw cwd turn parsed b)
unfolding activate_handoff
activate_handoff-Moves env config input raw cwd turn parsed b =
    elim (Option-cases (handoff_of b parsed.handoff_id)) [
      | inl n ↦ let same = Moves-refl b.state in ground arith
      | inr (h, n) ↦
          let id = parsed.handoff_id in
          let same = Moves-refl b.state in
          let stale = fail_any-Moves "canonical_handoff_stale" id b h n in
          let lost = fail_any-Moves "plan_body_unavailable" id b h n in
          grind (arith, claim_accepted_handoff-Moves, accepts_handoff-IsPending)
    ]
