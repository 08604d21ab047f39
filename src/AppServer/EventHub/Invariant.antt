-- ===== src/AppServer/EventHub/Invariant.antt =====
-- The promises of a stream: those that are settled, and those that wait.
use af_companion.Prelude.{
  ℕ, zero, suc, ◌+◌, ◌≡◌, refl, subst, some, get_elem?, ap, ◌⊎◌, inl, Bool, true, false, List, [],
  ◌∷◌, ◌++◌, map, append-nil, append_assoc, arith, All, All-append, if◌then◌else◌,
}
use mathlib.Core.Option.{some-injective}
use native.Mathlib.Numerals.{add-one}
use af_companion.AppServer.EventHub.{
  IteratorResult, done, Subscriber, EventHub, new_hub, finish, next_one, return_one, emit_one,
  close_one, at_handle, stream, next, return, emit, close, new_subscriber, Call, open_stream,
  call_next, call_return, call_emit, call_close, apply, run,
}

-- 0, 1, …, n - 1
unfoldable pub upto : ℕ → List ℕ
upto zero = []
upto (suc n) = upto n ++ n ∷ []

module _ {ℓ} {T : Type ℓ} where
  unfoldable pub tickets : List (ℕ × IteratorResult T) → List ℕ
  tickets [] = []
  tickets ((t, r) ∷ l) = t ∷ tickets l

  tickets-append : (l m : List (ℕ × IteratorResult T)) → tickets (l ++ m) ≡ tickets l ++ tickets m
  unfolding tickets
  tickets-append [] m = refl
  tickets-append ((t, r) ∷ l) m = ap (λ x. t ∷ x) (tickets-append l m)

tickets-finish {ℓ} : (T : Type ℓ) (ws : List ℕ) → tickets (finish {T = T} ws) ≡ ws
unfolding tickets finish
tickets-finish T [] = refl
tickets-finish T (w ∷ ws) = ap (λ x. w ∷ x) (tickets-finish T ws)

module _ {ℓ} {T : Type ℓ} where
  -- What holds of one stream of a hub, given whether the hub is closed.
  pub record IsSettled (closed : Bool) (s : Subscriber T) : Type ℓ where
    -- the settled tickets, then the waiting ones, are all tickets in order, each once
    pub in_order : tickets s.settled ++ s.waiters ≡ upto s.next_ticket
    -- events wait for a request, or requests for an event
    pub one_side : (s.queue ≡ []) ⊎ (s.waiters ≡ [])
    pub ended : s.returned ≡ true → (s.waiters ≡ []) × (s.queue ≡ []) × (s.subscribed ≡ false)
    -- only its `return` or the hub's `close` takes a stream out of the set
    pub quiet : s.subscribed ≡ false → (s.returned ≡ true) ⊎ (closed ≡ true)
    pub shut : closed ≡ true → s.waiters ≡ []

  in_order-wait :
      (l : List (ℕ × IteratorResult T)) (ws : List ℕ) (n : ℕ)
      → tickets l ++ ws ≡ upto n
      → tickets l ++ (ws ++ n ∷ []) ≡ upto (n + 1)
  unfolding upto
  in_order-wait l ws n h = rw (add-one, ← append_assoc, h)

  in_order-settle :
      (l : List (ℕ × IteratorResult T)) (ws : List ℕ) (n : ℕ) (r : IteratorResult T)
      → ws ≡ []
      → tickets l ++ ws ≡ upto n
      → tickets (l ++ (n, r) ∷ []) ++ ws ≡ upto (n + 1)
  unfolding upto tickets
  in_order-settle l ws n r e h =
      rw (add-one, ← h, e) (simp (tickets-append, append_assoc, append-nil))

  in_order-deliver :
      (l : List (ℕ × IteratorResult T)) (w : ℕ) (ws : List ℕ) (n : ℕ) (r : IteratorResult T)
      → tickets l ++ (w ∷ ws) ≡ upto n
      → tickets (l ++ (w, r) ∷ []) ++ ws ≡ upto n
  unfolding tickets
  in_order-deliver l w ws n r h = rw (← h) (simp (tickets-append, append_assoc))

  in_order-finish :
      (l : List (ℕ × IteratorResult T)) (ws : List ℕ) (n : ℕ)
      → tickets l ++ ws ≡ upto n
      → tickets (l ++ finish ws) ++ [] ≡ upto n
  in_order-finish l ws n h = rw (← h) (simp (tickets-append, tickets-finish, append-nil))

  next_one-IsSettled :
      (closed : Bool) (s : Subscriber T) → IsSettled closed s → IsSettled closed (next_one closed s)
  unfolding next_one
  next_one-IsSettled closed s h = grind (arith, in_order-settle, in_order-wait)

  return_one-IsSettled :
      (closed : Bool) (s : Subscriber T) → IsSettled closed s → IsSettled closed (return_one s)
  unfolding return_one
  return_one-IsSettled closed s h = ground (
    arith,
    in_order-settle s.settled s.waiters s.next_ticket done,
    in_order-settle (s.settled ++ finish s.waiters) [] s.next_ticket done,
    in_order-finish s.settled s.waiters s.next_ticket,
    h.in_order,
    h.one_side,
    h.ended,
    h.quiet,
    h.shut,
  )

  emit_one-IsSettled :
      (v : T) (s : Subscriber T) → IsSettled false s → IsSettled false (emit_one v s)
  unfolding emit_one
  emit_one-IsSettled v s h = grind (arith, in_order-deliver)

  close_one-IsSettled : (s : Subscriber T) → IsSettled false s → IsSettled true (close_one s)
  unfolding close_one
  close_one-IsSettled s h = grind (arith, in_order-finish)

  at_handle-All :
      (P : Subscriber T → Type ℓ) (f : Subscriber T → Subscriber T) (i : ℕ)
      (ss : List (Subscriber T))
      → ((s : Subscriber T) → P s → P (f s))
      → All P ss
      → All P (at_handle i f ss)
  unfolding at_handle
  at_handle-All P f i [] keep h = tt
  at_handle-All P f zero (s ∷ ss) keep (p, h) = (keep s p, h)
  at_handle-All P f (suc i) (s ∷ ss) keep (p, h) = (p, at_handle-All P f i ss keep h)

  map-All :
      (P Q : Subscriber T → Type ℓ) (f : Subscriber T → Subscriber T) (ss : List (Subscriber T))
      → ((s : Subscriber T) → P s → Q (f s))
      → All P ss
      → All Q (map f ss)
  map-All P Q f [] keep h = tt
  map-All P Q f (s ∷ ss) keep (p, h) = (keep s p, map-All P Q f ss keep h)

  IsSettled-new : (closed : Bool) → IsSettled closed new_subscriber
  unfolding tickets upto
  IsSettled-new closed = record {
    in_order = refl;
    one_side = inl refl;
    ended = λ e. absurd (cc);
    quiet = λ e. absurd (cc);
    shut = λ e. refl;
  }

  IsSound : EventHub T → Type ℓ
  IsSound h = All (IsSettled h.closed) h.subscribers

  emit-All :
      (closed : Bool) (v : T) (ss : List (Subscriber T))
      → All (IsSettled closed) ss
      → IsSound (
          if closed
          then record { subscribers = ss; closed = closed }
          else record { subscribers = map (emit_one v) ss; closed = closed })
  unfolding IsSound
  emit-All true v ss p = p
  emit-All false v ss p = map-All _ _ (emit_one v) ss (emit_one-IsSettled v) p

  close-All :
      (closed : Bool) (ss : List (Subscriber T))
      → All (IsSettled closed) ss
      → IsSound (
          if closed
          then record { subscribers = ss; closed = closed }
          else record { subscribers = map close_one ss; closed = true })
  unfolding IsSound
  close-All true ss p = p
  close-All false ss p = map-All _ _ close_one ss close_one-IsSettled p

  -- Every call, on every stream of a hub, keeps the tickets of all its streams in order.
  apply-IsSound : (o : Call T) (h : EventHub T) → IsSound h → IsSound (apply o h)
  unfolding IsSound apply stream next return emit close
  apply-IsSound open_stream h p = All-append _ h.subscribers _ p (IsSettled-new h.closed, tt)
  apply-IsSound (call_next i) h p =
      at_handle-All _ (next_one h.closed) i h.subscribers (next_one-IsSettled h.closed) p
  apply-IsSound (call_return i) h p =
      at_handle-All _ return_one i h.subscribers (return_one-IsSettled h.closed) p
  apply-IsSound (call_emit v) h p = emit-All h.closed v h.subscribers p
  apply-IsSound call_close h p = close-All h.closed h.subscribers p

  IsSound-run : (os : List (Call T)) (h : EventHub T) → IsSound h → IsSound (run os h)
  unfolding run
  IsSound-run [] h p = p
  IsSound-run (o ∷ os) h p = IsSound-run os (apply o h) (apply-IsSound o h p)

  run-IsSound : (os : List (Call T)) → IsSound (run os new_hub)
  unfolding IsSound
  run-IsSound os = IsSound-run os new_hub tt

  All-get_elem? :
      (P : Subscriber T → Type ℓ) (ss : List (Subscriber T)) (i : ℕ) {s : Subscriber T}
      → All P ss
      → get_elem? ss i ≡ some s
      → P s
  All-get_elem? P [] i h e = cc
  All-get_elem? P (x ∷ ss) zero (p, h) e = subst P (some-injective _ _ e) p
  All-get_elem? P (x ∷ ss) (suc i) (p, h) e = All-get_elem? P ss i h e

  -- After any calls on a new hub, in any order, each of its streams has settled its promises in the
  -- order of the requests, each once: the settled tickets, then the waiting ones, are all that it
  -- gave out. Events queue only where no promise waits.
  pub run-in_order :
      (os : List (Call T)) (i : ℕ) (s : Subscriber T)
      → get_elem? (run os new_hub).subscribers i ≡ some s
      → (tickets s.settled ++ s.waiters ≡ upto s.next_ticket) × ((s.queue ≡ []) ⊎ (s.waiters ≡ []))
  unfolding IsSound
  run-in_order os i s e =
      let h = All-get_elem? (IsSettled (run os new_hub).closed) _ i (run-IsSound os) e in
      (h.in_order, h.one_side)

  -- After any calls on a new hub, no promise of any stream waits once the hub is closed.
  pub run-closed :
      (os : List (Call T)) (i : ℕ) (s : Subscriber T)
      → (run os new_hub).closed ≡ true
      → get_elem? (run os new_hub).subscribers i ≡ some s
      → s.waiters ≡ []
  unfolding IsSound
  run-closed os i s closed e =
      (All-get_elem? (IsSettled (run os new_hub).closed) _ i (run-IsSound os) e).shut closed
