-- ===== src/AppServer/EventHub/Fifo.antt =====
-- The events that a stream delivers, beside those that were emitted while it was open.
use af_companion.Prelude.{
  ℕ, ◌≡◌, refl, ap, ◌∙◌, ◌⊎◌, inl, inr, Bool, true, false, not, ◌&&◌, some, List, [], ◌∷◌, ◌++◌,
  append-nil, append_assoc, arith, eqb, get_elem?, length, Bool-cases, if◌then◌else◌,
}
use af_companion.AppServer.EventHub.{
  IteratorResult, done, value, Subscriber, EventHub, new_subscriber, finish, next_one, return_one,
  emit_one, close_one, stream, Call, open_stream, call_next, call_return, call_emit, call_close,
  apply, run,
}
use af_companion.AppServer.EventHub.View.{view_step, view-apply}

module _ {ℓ} {T : Type ℓ} where
  -- the values among the results of a stream's promises
  unfoldable pub values : List (ℕ × IteratorResult T) → List T
  values [] = []
  values ((t, done) ∷ l) = values l
  values ((t, value v) ∷ l) = v ∷ values l

  values-append : (l m : List (ℕ × IteratorResult T)) → values (l ++ m) ≡ values l ++ values m
  unfolding values
  values-append [] m = refl
  values-append ((t, done) ∷ l) m = values-append l m
  values-append ((t, value v) ∷ l) m = ap (λ x. v ∷ x) (values-append l m)

  values-finish : (ws : List ℕ) → values (finish ws) ≡ []
  unfolding values finish
  values-finish [] = refl
  values-finish (w ∷ ws) = values-finish ws

  values-done : (l : List (ℕ × IteratorResult T)) (t : ℕ) → values (l ++ (t, done) ∷ []) ≡ values l
  unfolding values
  values-done l t = values-append l _ ∙ append-nil _

  pub values-value :
      (l : List (ℕ × IteratorResult T)) (t : ℕ) (v : T) (rest : List T)
      → values (l ++ (t, value v) ∷ []) ++ rest ≡ values l ++ (v ∷ rest)
  unfolding values
  values-value l t v rest = rw values-append (append_assoc (values l) (v ∷ []) rest)

  values-finish_append :
      (l : List (ℕ × IteratorResult T)) (ws : List ℕ) → values (l ++ finish ws) ≡ values l
  values-finish_append l ws = rw (values-append, values-finish) (append-nil _)

  -- whether the stream with handle `i` hears the events that come after a call
  unfoldable pub open_after : ℕ → Call T → Bool → Bool
  open_after i (call_return j) listening = if eqb j i then false else listening
  open_after i call_close listening = false
  open_after i _ listening = listening

  unfoldable pub heard_one : Call T → Bool → List T
  heard_one (call_emit v) true = v ∷ []
  heard_one _ listening = []

  -- the events that are emitted before the hub is closed or the stream with handle `i` is returned
  unfoldable pub heard : ℕ → Bool → List (Call T) → List T
  unfolding open_after heard_one
  heard i listening [] = []
  heard i listening (o ∷ os) = heard_one o listening ++ heard i (open_after i o listening) os

  pub record Delivers (listening : Bool) (past : List T) (v : Bool × Subscriber T) : Type ℓ where
    -- what `return` dropped from the queue
    pub lost : List T
    pub fits : values (v.1).settled ++ ((v.1).queue ++ lost) ≡ past
    pub kept : (v.1).returned ≡ false → lost ≡ []
    pub one_side : ((v.1).queue ≡ []) ⊎ ((v.1).waiters ≡ [])
    pub live : listening ≡ ((v.1).subscribed && not v.0)
    pub gone : (v.1).returned ≡ true → ((v.1).subscribed ≡ false) × ((v.1).queue ≡ [])

  next_one-Delivers :
      (listening : Bool) (past : List T) (closed : Bool) (s : Subscriber T)
      → Delivers listening past (closed, s)
      → Delivers listening past (closed, next_one closed s)
  unfolding next_one
  next_one-Delivers listening past closed s d = record {
    lost = d.lost;
    fits = grind (arith, values-done, values-value);
    kept = ground (arith, d.kept);
    one_side = ground (arith, d.one_side);
    live = ground (arith, d.live);
    gone = ground (arith, d.gone);
  }

  return_one-Delivers :
      (listening : Bool) (past : List T) (closed : Bool) (s : Subscriber T)
      → Delivers listening past (closed, s)
      → Delivers false past (closed, return_one s)
  unfolding return_one
  return_one-Delivers listening past closed s d = record {
    lost = s.queue ++ d.lost;
    fits = ground (
      arith,
      d.fits,
      d.gone,
      values-done s.settled s.next_ticket,
      values-done (s.settled ++ finish s.waiters) s.next_ticket,
      values-finish_append s.settled s.waiters,
    );
    kept = ground (arith, d.kept);
    one_side = ground (arith, d.one_side, d.gone);
    live = ground (arith, d.live, d.gone);
    gone = ground (arith, d.gone);
  }

  fits-queue :
      (l : List (ℕ × IteratorResult T)) (q lost past : List T) (v : T)
      → lost ≡ []
      → values l ++ (q ++ lost) ≡ past
      → values l ++ ((q ++ v ∷ []) ++ lost) ≡ past ++ v ∷ []
  fits-queue l q lost past v e h = rw (← h, e) (simp (append-nil, append_assoc))

  fits-hand :
      (l : List (ℕ × IteratorResult T)) (w : ℕ) (lost past : List T) (v : T)
      → lost ≡ []
      → values l ++ lost ≡ past
      → values (l ++ (w, value v) ∷ []) ++ lost ≡ past ++ v ∷ []
  unfolding values
  fits-hand l w lost past v e h = rw (← h, e) (simp (values-append, append-nil))

  emit_one-Delivers :
      (listening : Bool) (past : List T) (closed : Bool) (v : T) (s : Subscriber T)
      → Delivers listening past (closed, s)
      → Delivers listening
          (past ++ heard_one (call_emit v) listening)
          (closed, if closed then s else emit_one v s)
  unfolding emit_one heard_one
  emit_one-Delivers listening past closed v s d = record {
    lost = d.lost;
    fits = grind (arith, fits-hand, fits-queue, append-nil);
    kept = ground (arith, d.kept);
    one_side = ground (arith, d.one_side);
    live = ground (arith, d.live);
    gone = ground (arith, d.gone);
  }

  close_one-Delivers :
      (listening : Bool) (past : List T) (closed : Bool) (s : Subscriber T)
      → Delivers listening past (closed, s)
      → Delivers false past (true, if closed then s else close_one s)
  unfolding close_one
  close_one-Delivers listening past closed s d = record {
    lost = d.lost;
    fits = ground (arith, d.fits, values-finish_append s.settled s.waiters);
    kept = ground (arith, d.kept);
    one_side = ground (arith, d.one_side);
    live = ground (arith, d.live);
    gone = ground (arith, d.gone);
  }

  view_step-Delivers :
      (i : ℕ) (o : Call T) (listening : Bool) (past : List T) (closed : Bool) (s : Subscriber T)
      → Delivers listening past (closed, s)
      → Delivers
          (open_after i o listening)
          (past ++ heard_one o listening)
          (view_step i o (closed, s))
  unfolding view_step open_after heard_one
  view_step-Delivers i open_stream listening past closed s d = rw append-nil d
  view_step-Delivers i (call_next j) listening past closed s d = elim (Bool-cases (eqb j i)) [
    | inl same ↦ rw (append-nil, same) (next_one-Delivers listening past closed s d)
    | inr other ↦ rw (append-nil, other) d
  ]
  view_step-Delivers i (call_return j) listening past closed s d = elim (Bool-cases (eqb j i)) [
    | inl same ↦ rw (append-nil, same) (return_one-Delivers listening past closed s d)
    | inr other ↦ rw (append-nil, other) d
  ]
  view_step-Delivers i (call_emit v) listening past closed s d =
      emit_one-Delivers listening past closed v s d
  view_step-Delivers i call_close listening past closed s d =
      rw append-nil (close_one-Delivers listening past closed s d)

  -- What is found under a handle of a hub has delivered these events.
  pub HasDelivered : ℕ → EventHub T → List T → Type ℓ
  HasDelivered i h past =
      (s : Subscriber T) × (get_elem? h.subscribers i ≡ some s)
      × (lost : List T) × (values s.settled ++ (s.queue ++ lost) ≡ past)
      × (lost ≡ (if s.returned then lost else []))

  run-HasDelivered :
      (i : ℕ) (os : List (Call T)) (h : EventHub T) (s : Subscriber T) (listening : Bool)
      (past : List T)
      → get_elem? h.subscribers i ≡ some s
      → Delivers listening past (h.closed, s)
      → HasDelivered i (run os h) (past ++ heard i listening os)
  unfolding run heard HasDelivered
  run-HasDelivered i [] h s listening past e d =
      (s, e, d.lost, rw append-nil d.fits, ground (arith, d.kept))
  run-HasDelivered i (o ∷ os) h s listening past e d =
      let (found, flag) = view-apply i o h s e in
      rw (← append_assoc) (
        run-HasDelivered i os (apply o h) (view_step i o (h.closed, s)).1 (open_after i o listening)
          (past ++ heard_one o listening) found
          (rw flag (view_step-Delivers i o listening past h.closed s d)))

  get_elem?-stream :
      (ss : List (Subscriber T))
      → get_elem? (ss ++ new_subscriber ∷ []) (length ss) ≡ some new_subscriber
  get_elem?-stream [] = refl
  get_elem?-stream (s ∷ ss) = get_elem?-stream ss

  -- A stream that is opened on any hub is handed exactly the events emitted from then on, until the
  -- hub is closed or the stream is returned, in order: those handed to its promises, then those in
  -- its queue, then those that its `return` dropped, of which there are none while it is not returned.
  pub stream-HasDelivered :
      (h : EventHub T) (os : List (Call T))
      → HasDelivered
          (length h.subscribers)
          (run os (stream h))
          (heard (length h.subscribers) (not h.closed) os)
  unfolding stream values
  stream-HasDelivered h os =
      run-HasDelivered (length h.subscribers) os (stream h) new_subscriber (not h.closed) []
        (get_elem?-stream h.subscribers) (fresh h.closed)
    where
      fresh : (closed : Bool) → Delivers (not closed) [] (closed, new_subscriber {T = T})
      fresh closed = record {
        lost = [];
        fits = refl;
        kept = λ e. refl;
        one_side = inl refl;
        live = refl;
        gone = λ e. absurd (cc);
      }
