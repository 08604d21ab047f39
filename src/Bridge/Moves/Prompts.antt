-- ===== src/Bridge/Moves/Prompts.antt =====
-- The hooks of an enrolled session, as moves of the records.
use af_companion.Prelude.{
  arith, String, true, Option, none, some, ◌≡◌, refl, inl, inr, Option-cases,
}
use af_companion.Prelude.Evolution.{find_first, Evolves-update_first, find_first_holds}
use af_companion.Bridge.Contract.{Session, handoff_is_pending}
use af_companion.Bridge.Results.{Result, ok, throw, Holds}
use af_companion.Bridge.State.{Handoff, Delivery, Bridge}
use af_companion.Bridge.Platform.{Env}
use af_companion.Bridge.Records.{session_of, now_text}
use af_companion.Bridge.HandoffRecords.{canonical_of, claim_handoff, fail_handoff}
use af_companion.Bridge.Hooks.{
  HookInput, prompt_turn, add_activity, add_receipt, record_activity, record_claim,
  record_prompt_receipt, touch, change_session, record_hook,
}
use af_companion.Bridge.Consumption.{
  next_test, fail_delivery, consume_delivery, delivery_refusal, consume_next, is_attached,
  change_attached, claim_attached, answer_prompt, answer_recorded, record_leased_hook,
}
use af_companion.Bridge.Moves.{
  DeliveryMove, HandoffMove, IsHandoffClean, Moves, HandoffMove-refl, Moves-refl, Moves-trans,
}
use af_companion.Bridge.Moves.Time.{fail_handoff-Moves, Moved}
use af_companion.Bridge.Moves.Parts.{handoffs-Moves, change_session-Moves, change_delivery-Moves}

pub record_activity-Moves :
    (env : Env) (id : String) (input : HookInput) (b : Bridge)
    → Moves b.state (record_activity env id input b).state
unfolding record_activity add_activity
record_activity-Moves env id input b = Moves-refl b.state

pub record_claim-Moves :
    (env : Env) (id session turn work handoff : String) (b : Bridge)
    → Moves b.state (record_claim env id session turn work handoff b).state
unfolding record_claim add_activity
record_claim-Moves env id session turn work handoff b = Moves-refl b.state

pub record_prompt_receipt-Moves :
    (env : Env) (input : HookInput) (b : Bridge)
    → Moves b.state (record_prompt_receipt env input b).state
unfolding record_prompt_receipt add_receipt
record_prompt_receipt-Moves env input b = let same = Moves-refl b.state in ground arith

-- what every hook that is taken leaves, around the rest
pub recorded-Moves :
    (env : Env) (id : String) (input : HookInput) (b : Bridge)
    → Moves b.state (record_prompt_receipt env input (record_activity env id input b)).state
recorded-Moves env id input b =
    let active = record_activity env id input b in
    Moves-trans b.state active.state (record_prompt_receipt env input active).state
      (record_activity-Moves env id input b) (record_prompt_receipt-Moves env input active)

record_hook-Moves :
    (env : Env) (id : String) (input : HookInput) (b : Bridge) (s : Session)
    → session_of b id ≡ some s
    → Moves b.state (record_hook env id input b).state
unfolding record_hook touch
record_hook-Moves env id input b s found =
    let touched = change_session id (touch env input) b in
    Moves-trans b.state touched.state (record_hook env id input b).state
      (change_session-Moves id (touch env input) b s found (refl, omega arith))
      (recorded-Moves env (env.random 0) input touched)

settled_delivery-Moves :
    (env : Env) (id : String) (b : Bridge) (d e : Delivery)
    → find_first (next_test env id b) b.state.deliveries ≡ some d
    → e.delivery_id ≡ d.delivery_id
    → DeliveryMove d e
settled_delivery-Moves env id b d e found same =
    let next = find_first_holds (next_test env id b) b.state.deliveries d found in
    (same, inl (ground arith))

consume_next-Moves :
    (env : Env) (s : Session) (turn : String) (b : Bridge)
    → Moves b.state (consume_next env s turn b).1.state
unfolding consume_next fail_delivery consume_delivery
consume_next-Moves env s turn b =
    elim (Option-cases (find_first (next_test env s.session_id b) b.state.deliveries)) [
      | inl e ↦ let same = Moves-refl b.state in ground arith
      | inr (d, e) ↦ elim (Option-cases (delivery_refusal env s d)) [
        | inl r ↦
            let consumed =
              change_delivery-Moves (next_test env s.session_id b) (consume_delivery env turn) b d e
                (settled_delivery-Moves env s.session_id b d _ e refl) in
            ground arith
        | inr (error, r) ↦
            let failed =
              change_delivery-Moves (next_test env s.session_id b) (fail_delivery error) b d e
                (settled_delivery-Moves env s.session_id b d _ e refl) in
            ground arith
      ]
    ]

change_attached-Moves :
    (id : String) (f : Handoff → Handoff) (b : Bridge) (h : Handoff)
    → find_first (is_attached id) b.state.handoffs ≡ some h
    → HandoffMove h (f h)
    → Moves b.state (change_attached id f b).state
unfolding change_attached
change_attached-Moves id f b h found m = handoffs-Moves b.state _ (
    Evolves-update_first HandoffMove IsHandoffClean HandoffMove-refl (is_attached id) f
      b.state.handoffs h found m)

attached-IsPending :
    (id : String) (b : Bridge) (h : Handoff)
    → find_first (is_attached id) b.state.handoffs ≡ some h
    → handoff_is_pending h.status ≡ true
attached-IsPending id b h found =
    let attached = find_first_holds (is_attached id) b.state.handoffs h found in ground arith

pub claim_handoff-Moves :
    (session turn now : String) (h : Handoff)
    → handoff_is_pending h.status ≡ true
    → HandoffMove h (claim_handoff session turn now h)
unfolding claim_handoff canonical_of
claim_handoff-Moves session turn now h p = (refl, inl p, inl (inr refl))

fail_attached-Moves :
    (code id : String) (b : Bridge) (h : Handoff)
    → find_first (is_attached id) b.state.handoffs ≡ some h
    → Moves b.state (change_attached id (fail_handoff code) b).state
fail_attached-Moves code id b h found =
    change_attached-Moves id (fail_handoff code) b h found
      (fail_handoff-Moves code h (attached-IsPending id b h found))

pub claim_attached_of-Moves :
    (session turn now id : String) (b : Bridge) (h : Handoff)
    → find_first (is_attached id) b.state.handoffs ≡ some h
    → Moves b.state (change_attached id (claim_handoff session turn now) b).state
claim_attached_of-Moves session turn now id b h found =
    change_attached-Moves id (claim_handoff session turn now) b h found
      (claim_handoff-Moves session turn now h (attached-IsPending id b h found))

claim_attached-Moves :
    (env : Env) (s : Session) (turn : String) (h : Handoff) (b : Bridge)
    → find_first (is_attached s.session_id) b.state.handoffs ≡ some h
    → Holds (Moved b) (claim_attached env s turn h b)
unfolding claim_attached
claim_attached-Moves env s turn h b found =
    let id = s.session_id in
    let stale = fail_attached-Moves "canonical_handoff_stale" id b h found in
    let lost = fail_attached-Moves "plan_body_unavailable" id b h found in
    let inactive = fail_attached-Moves "source_inactive" id b h found in
    let ended = change_attached id (fail_handoff "source_inactive") b in
    let consumed =
      Moves-trans b.state ended.state (consume_next env s turn ended).1.state inactive
        (consume_next-Moves env s turn ended) in
    let claimed = change_attached id (claim_handoff id turn (now_text env)) b in
    let recorded = record_claim env (env.random 1) id turn h.work_id h.handoff_id claimed in
    let taken =
      Moves-trans b.state claimed.state recorded.state
        (claim_attached_of-Moves id turn (now_text env) id b h found)
        (record_claim-Moves env (env.random 1) id turn h.work_id h.handoff_id claimed) in
    grind arith

answer_prompt-Moves :
    (env : Env) (s : Session) (turn : String) (b : Bridge)
    → Holds (Moved b) (answer_prompt env s turn b)
unfolding answer_prompt
answer_prompt-Moves env s turn b =
    let consumed = consume_next-Moves env s turn b in
    elim (Option-cases (find_first (is_attached s.session_id) b.state.handoffs)) [
      | inl e ↦ ground arith
      | inr (h, e) ↦ let claimed = claim_attached-Moves env s turn h b e in ground arith
    ]

answer_recorded-Moves :
    (env : Env) (input : HookInput) (s : Option Session) (b : Bridge)
    → Holds (Moved b) (answer_recorded env input s b)
unfolding answer_recorded
answer_recorded-Moves env input none b = Moves-refl b.state
answer_recorded-Moves env input (some s) b = elim (Option-cases (prompt_turn input.event)) [
  | inl e ↦ let same = Moves-refl b.state in ground arith
  | inr (turn, e) ↦ let answered = answer_prompt-Moves env s turn b in ground arith
]

pub Moved-trans :
    {A : Type 0} (b c : Bridge) (r : Result (A × Bridge))
    → Moves b.state c.state
    → Holds (Moved c) r
    → Holds (Moved b) r
Moved-trans b c (throw f) m h = tt
Moved-trans b c (ok (a, d)) m h = Moves-trans b.state c.state d.state m h

pub record_leased_hook-Moves :
    (env : Env) (id : String) (input : HookInput) (b : Bridge)
    → Holds (Moved b) (record_leased_hook env id input b)
unfolding record_leased_hook
record_leased_hook-Moves env id input b = elim (Option-cases (session_of b id)) [
  | inl e ↦ let same = Moves-refl b.state in ground arith
  | inr (s, e) ↦
      let same = Moves-refl b.state in
      let recorded = record_hook env id input b in
      let answered =
        Moved-trans b recorded (answer_recorded env input (session_of recorded id) recorded)
          (record_hook-Moves env id input b s e)
          (answer_recorded-Moves env input (session_of recorded id) recorded) in
      ground arith
]
