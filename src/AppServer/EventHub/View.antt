-- ===== src/AppServer/EventHub/View.antt =====
-- One stream of a hub by itself, and what each call does to it.
use af_companion.Prelude.{
  ℕ, zero, suc, ◌≡◌, refl, Bool, true, some, List, [], ◌∷◌, ◌++◌, map, arith, eqb, get_elem?,
  if◌then◌else◌,
}
use mathlib.Core.Option
use af_companion.AppServer.EventHub.{
  Subscriber, EventHub, new_subscriber, next_one, return_one, emit_one, close_one, at_handle,
  stream, next, return, emit, close, Call, open_stream, call_next, call_return, call_emit,
  call_close, apply,
}

module _ {ℓ} {T : Type ℓ} where
  -- One stream by itself, with the hub's flag: what a call does to the stream with handle `i`.
  unfoldable pub view_step : ℕ → Call T → Bool × Subscriber T → Bool × Subscriber T
  view_step i open_stream (closed, s) = (closed, s)
  view_step i (call_next j) (closed, s) = (closed, if eqb j i then next_one closed s else s)
  view_step i (call_return j) (closed, s) = (closed, if eqb j i then return_one s else s)
  view_step i (call_emit v) (closed, s) = (closed, if closed then s else emit_one v s)
  view_step i call_close (closed, s) = (true, if closed then s else close_one s)

  get_elem?-at_handle :
      (i j : ℕ) (f : Subscriber T → Subscriber T) (ss : List (Subscriber T))
      → get_elem? (at_handle j f ss) i
        ≡ (if eqb j i then Option.map f (get_elem? ss i) else get_elem? ss i)
  unfolding at_handle
  get_elem?-at_handle i j f [] = ground arith
  get_elem?-at_handle zero zero f (s ∷ ss) = refl
  get_elem?-at_handle zero (suc j) f (s ∷ ss) = ground arith
  get_elem?-at_handle (suc i) zero f (s ∷ ss) = ground arith
  get_elem?-at_handle (suc i) (suc j) f (s ∷ ss) = ground (arith, get_elem?-at_handle i j f ss)

  get_elem?-map :
      (i : ℕ) (f : Subscriber T → Subscriber T) (ss : List (Subscriber T))
      → get_elem? (map f ss) i ≡ Option.map f (get_elem? ss i)
  get_elem?-map i f [] = refl
  get_elem?-map zero f (s ∷ ss) = refl
  get_elem?-map (suc i) f (s ∷ ss) = get_elem?-map i f ss

  get_elem?-append :
      (i : ℕ) (s n : Subscriber T) (ss : List (Subscriber T))
      → get_elem? ss i ≡ some s
      → get_elem? (ss ++ n ∷ []) i ≡ some s
  get_elem?-append i s n [] h = cc
  get_elem?-append zero s n (x ∷ ss) h = h
  get_elem?-append (suc i) s n (x ∷ ss) h = get_elem?-append i s n ss h

  -- A call on the hub does to each of its streams what the step of that stream says.
  pub view-apply :
      (i : ℕ) (o : Call T) (h : EventHub T) (s : Subscriber T)
      → get_elem? h.subscribers i ≡ some s
      → (get_elem? (apply o h).subscribers i ≡ some (view_step i o (h.closed, s)).1)
        × ((apply o h).closed ≡ (view_step i o (h.closed, s)).0)
  unfolding apply stream next return emit close view_step
  view-apply i open_stream h s e = (get_elem?-append i s new_subscriber h.subscribers e, refl)
  view-apply i (call_next j) h s e = (rw (get_elem?-at_handle i j, e) (ground arith), refl)
  view-apply i (call_return j) h s e = (rw (get_elem?-at_handle i j, e) (ground arith), refl)
  view-apply i (call_emit v) h s e = ground (arith, get_elem?-map i (emit_one v) h.subscribers)
  view-apply i call_close h s e = ground (arith, get_elem?-map i close_one h.subscribers)
