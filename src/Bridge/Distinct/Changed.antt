-- ===== src/Bridge/Distinct/Changed.antt =====
-- The bodies of mutations that change sessions and keep their ids.
use af_companion.Prelude.{
  arith, String, Bool, Option, none, some, map, ap, ◌≡◌, refl, ◌∙◌, inl, inr, Option-cases,
}
use af_companion.Bridge.Contract.{Session}
use af_companion.Bridge.Results.{Result, ok, throw, Holds}
use af_companion.Bridge.State.{Handoff, Delivery, Bridge}
use af_companion.Bridge.Platform.{Config, Env}
use af_companion.Bridge.Records.{now_text, has_session_id, session_of}
use af_companion.Bridge.HandoffRecords.{fail_handoff, claim_handoff}
use af_companion.Bridge.Housekeeping.{age_session, housekeeping}
use af_companion.Bridge.Hooks.{
  HookInput, record_activity, add_activity, record_prompt_receipt, add_receipt, touch,
  change_session, record_hook, record_claim,
}
use af_companion.Bridge.Consumption.{
  change_delivery, consume_next, change_attached, claim_attached, answer_prompt, answer_recorded,
  record_leased_hook,
}
use af_companion.Bridge.Sessions.{
  revoke, release, revoke_session_body, set_alias, update_alias_body,
}
use af_companion.Bridge.Deliveries.{expire_session, restarted, opened}
use af_companion.Bridge.Distinct.Ids.{session_ids, map-ids, update_first-ids}
use af_companion.Bridge.Distinct.Untouched.{SameSessions}

abbrev pub SameIds : {A : Type 0} → Bridge → A × Bridge → Type 0
SameIds b r = session_ids r.1.state ≡ session_ids b.state

change_session-ids :
    (id : String) (f : Session → Session) (b : Bridge)
    → ((x : Session) → (f x).session_id ≡ x.session_id)
    → session_ids (change_session id f b).state ≡ session_ids b.state
unfolding change_session
change_session-ids id f b same = update_first-ids (has_session_id id) f same b.state.sessions

pub housekeeping-ids :
    (env : Env) (config : Config) (b : Bridge)
    → session_ids (housekeeping env config b).state ≡ session_ids b.state
unfolding housekeeping age_session
housekeeping-ids env config b = map-ids (age_session env config) (λ s. refl) b.state.sessions

expire_session-id : (s : Session) → (expire_session s).session_id ≡ s.session_id
unfolding expire_session
expire_session-id s = ground arith

pub opened-ids : (env : Env) (b : Bridge) → session_ids (opened env b).state ≡ session_ids b.state
unfolding opened restarted
opened-ids env b =
    let expired = map-ids expire_session expire_session-id b.state.sessions in ground arith

release-sessions : (id : String) (b : Bridge) → (release id b).state.sessions ≡ b.state.sessions
unfolding release
release-sessions id b = refl

revoked-ids :
    (env : Env) (id reason : String) (b : Bridge)
    → session_ids (release id (change_session id (revoke env reason) b)).state ≡ session_ids b.state
unfolding revoke
revoked-ids env id reason b =
    ap (map (λ x. x.session_id)) (release-sessions id (change_session id (revoke env reason) b))
    ∙ change_session-ids id (revoke env reason) b (λ s. refl)

pub revoke_session_body-ids :
    (env : Env) (id reason : String) (b : Bridge)
    → Holds (SameIds b) (revoke_session_body env id reason b)
unfolding revoke_session_body
revoke_session_body-ids env id reason b =
    let revoked = revoked-ids env id reason b in
    elim (Option-cases (session_of b id)) [ inl e ↦ ground arith | inr (s, e) ↦ ground arith ]

pub update_alias_body-ids :
    (id : String) (alias : Option String) (b : Bridge)
    → Holds (SameIds b) (update_alias_body id alias b)
unfolding update_alias_body set_alias
update_alias_body-ids id alias b =
    let changed = change_session-ids id (set_alias alias) b (λ s. refl) in
    elim (Option-cases (session_of b id)) [ inl e ↦ ground arith | inr (s, e) ↦ ground arith ]

pub record_activity-sessions :
    (env : Env) (id : String) (input : HookInput) (b : Bridge)
    → (record_activity env id input b).state.sessions ≡ b.state.sessions
unfolding record_activity add_activity
record_activity-sessions env id input b = ground arith

pub record_prompt_receipt-sessions :
    (env : Env) (input : HookInput) (b : Bridge)
    → (record_prompt_receipt env input b).state.sessions ≡ b.state.sessions
unfolding record_prompt_receipt add_receipt
record_prompt_receipt-sessions env input b = ground arith

pub record_claim-sessions :
    (env : Env) (a session turn work id : String) (b : Bridge)
    → (record_claim env a session turn work id b).state.sessions ≡ b.state.sessions
unfolding record_claim add_activity
record_claim-sessions env a session turn work id b = ground arith

pub recorded-sessions :
    (env : Env) (id : String) (input : HookInput) (b : Bridge)
    → (record_prompt_receipt env input (record_activity env id input b)).state.sessions
      ≡ b.state.sessions
recorded-sessions env id input b =
    record_prompt_receipt-sessions env input (record_activity env id input b)
    ∙ record_activity-sessions env id input b

record_hook-ids :
    (env : Env) (id : String) (input : HookInput) (b : Bridge)
    → session_ids (record_hook env id input b).state ≡ session_ids b.state
unfolding record_hook touch
record_hook-ids env id input b =
    ap (map (λ x. x.session_id))
      (recorded-sessions env (env.random 0) input (change_session id (touch env input) b))
    ∙ change_session-ids id (touch env input) b (λ s. refl)

change_delivery-sessions :
    (p : Delivery → Bool) (f : Delivery → Delivery) (b : Bridge)
    → (change_delivery p f b).state.sessions ≡ b.state.sessions
unfolding change_delivery
change_delivery-sessions p f b = refl

change_attached-sessions :
    (id : String) (f : Handoff → Handoff) (b : Bridge)
    → (change_attached id f b).state.sessions ≡ b.state.sessions
unfolding change_attached
change_attached-sessions id f b = refl

consume_next-sessions :
    (env : Env) (s : Session) (turn : String) (b : Bridge)
    → (consume_next env s turn b).1.state.sessions ≡ b.state.sessions
unfolding consume_next
consume_next-sessions env s turn b = grind (arith, change_delivery-sessions)

claim_attached-sessions :
    (env : Env) (s : Session) (turn : String) (h : Handoff) (b : Bridge)
    → Holds (SameSessions b) (claim_attached env s turn h b)
unfolding claim_attached
claim_attached-sessions env s turn h b =
    let id = s.session_id in
    let stale = change_attached-sessions id (fail_handoff "canonical_handoff_stale") b in
    let lost = change_attached-sessions id (fail_handoff "plan_body_unavailable") b in
    let ended = change_attached id (fail_handoff "source_inactive") b in
    let consumed =
      consume_next-sessions env s turn ended
      ∙ change_attached-sessions id (fail_handoff "source_inactive") b in
    let claimed = change_attached id (claim_handoff id turn (now_text env)) b in
    let taken =
      record_claim-sessions env (env.random 1) id turn h.work_id h.handoff_id claimed
      ∙ change_attached-sessions id (claim_handoff id turn (now_text env)) b in
    grind arith

answer_prompt-sessions :
    (env : Env) (s : Session) (turn : String) (b : Bridge)
    → Holds (SameSessions b) (answer_prompt env s turn b)
unfolding answer_prompt
answer_prompt-sessions env s turn b = grind (arith, consume_next-sessions, claim_attached-sessions)

answer_recorded-sessions :
    (env : Env) (input : HookInput) (s : Option Session) (b : Bridge)
    → Holds (SameSessions b) (answer_recorded env input s b)
unfolding answer_recorded
answer_recorded-sessions env input none b = refl
answer_recorded-sessions env input (some s) b = grind (arith, answer_prompt-sessions)

answered-ids :
    {A : Type 0} (b c : Bridge) (r : Result (A × Bridge))
    → session_ids c.state ≡ session_ids b.state
    → Holds (SameSessions c) r
    → Holds (SameIds b) r
answered-ids b c (throw f) same h = tt
answered-ids b c (ok r) same h = ap (map (λ x. x.session_id)) h ∙ same

pub record_leased_hook-ids :
    (env : Env) (id : String) (input : HookInput) (b : Bridge)
    → Holds (SameIds b) (record_leased_hook env id input b)
unfolding record_leased_hook
record_leased_hook-ids env id input b = elim (Option-cases (session_of b id)) [
  | inl e ↦ ground arith
  | inr (s, e) ↦
      let recorded = record_hook env id input b in
      let answered =
        answered-ids b recorded (answer_recorded env input (session_of recorded id) recorded)
          (record_hook-ids env id input b)
          (answer_recorded-sessions env input (session_of recorded id) recorded) in
      ground arith
]
