-- ===== src/AppServer/EventHub/Drain.antt =====
-- Calls of `next` on a stream with queued events.
use af_companion.Prelude.{
  ℕ, zero, suc, ◌≡◌, refl, sym, ap, ◌∙◌, Bool, true, false, some, List, [], ◌∷◌, ◌++◌, append-nil,
  length, get_elem?, eqb, arith, if◌then◌else◌,
}
use af_companion.AppServer.EventHub.{
  value, Subscriber, EventHub, settle, next_one, Call, call_next, apply, run,
}
use af_companion.AppServer.EventHub.View.{view_step, view-apply}
use af_companion.AppServer.EventHub.Fifo.{values, values-value}

eqb_refl : (n : ℕ) → eqb n n ≡ true
eqb_refl n = ground arith

module _ {ℓ} {T : Type ℓ} where
  -- `next()` on the stream with handle `i`, some times
  unfoldable pub nexts : ℕ → ℕ → List (Call T)
  nexts i zero = []
  nexts i (suc n) = call_next i ∷ nexts i n

  next_one-queued :
      (closed : Bool) (s : Subscriber T) (v : T) (q : List T)
      → s.returned ≡ false
      → s.queue ≡ v ∷ q
      → next_one closed s ≡ settle (value v) (record s { queue = q })
  unfolding next_one
  next_one-queued closed s v q r e = ground arith

  -- As many calls of `next` as events are queued, on a stream that is not returned, resolve promises
  -- with exactly those events, in order, whether the hub is closed or not; the queue is then empty,
  -- and no call is left to wait.
  pub run-nexts :
      (i : ℕ) (q : List T) (h : EventHub T) (s : Subscriber T)
      → get_elem? h.subscribers i ≡ some s
      → s.returned ≡ false
      → s.queue ≡ q
      → (d : Subscriber T) × (get_elem? (run (nexts i (length q)) h).subscribers i ≡ some d)
        × (values d.settled ≡ values s.settled ++ q)
        × (d.queue ≡ [])
        × (d.waiters ≡ s.waiters)
  unfolding run nexts
  run-nexts i [] h s e r same = (s, e, sym (append-nil _), same, refl)
  run-nexts i (v ∷ q) h s e r same =
      let (found, _) = view-apply i (call_next i) h s e in
      let step : (view_step i (call_next i) (h.closed, s)).1
          ≡ settle (value v) (record s { queue = q }) =
        unfold view_step in
        (ap (λ b. if b then next_one h.closed s else s) (eqb_refl i)
          ∙ next_one-queued h.closed s v q r same) in
      let (d, at, all, empty, waiting) =
        run-nexts i q (apply (call_next i) h) (settle (value v) (record s { queue = q }))
          (found ∙ ap some step) r refl in
      (d, at, all ∙ values-value s.settled s.next_ticket v q, empty, waiting)
