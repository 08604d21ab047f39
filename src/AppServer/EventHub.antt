-- ===== src/AppServer/EventHub.antt =====
-- event-hub.ts: the fan-out of events to the streams of its subscribers.
-- A promise that `next` returns is a ticket: `settled` lists the results with which the tickets of
-- one subscriber were resolved, in order. `subscribed` is membership in the hub's set; a
-- subscriber's handle is its place in the list of all streams made.
pub mod Invariant
pub mod View
pub mod Fifo
pub mod Drain
use af_companion.Prelude.{
  ℕ, zero, suc, ◌+◌, Bool, true, false, List, [], ◌∷◌, ◌++◌, map, if◌then◌else◌,
}

pub data IteratorResult {ℓ} (T : Type ℓ) : Type ℓ where
  done : IteratorResult T
  value : T → IteratorResult T

pub record Subscriber {ℓ} (T : Type ℓ) : Type ℓ where
  pub queue : List T
  pub waiters : List ℕ
  pub returned : Bool
  pub subscribed : Bool
  pub next_ticket : ℕ
  pub settled : List (ℕ × IteratorResult T)

pub record EventHub {ℓ} (T : Type ℓ) : Type ℓ where
  pub subscribers : List (Subscriber T)
  pub closed : Bool

module _ {ℓ} {T : Type ℓ} where
  abbrev pub new_subscriber : Subscriber T
  new_subscriber = record {
    queue = [];
    waiters = [];
    returned = false;
    subscribed = true;
    next_ticket = 0;
    settled = [];
  }

  -- `waiter(result)` for every waiter
  unfoldable pub finish : List ℕ → List (ℕ × IteratorResult T)
  finish [] = []
  finish (w ∷ ws) = (w, done) ∷ finish ws

  -- a promise that is resolved as it is made
  abbrev pub settle : IteratorResult T → Subscriber T → Subscriber T
  settle r s = record s {
    next_ticket = s.next_ticket + 1;
    settled = s.settled ++ (s.next_ticket, r) ∷ [];
  }

  abbrev take_queued : List T → Bool → Subscriber T → Subscriber T
  take_queued (v ∷ queue) closed s = settle (value v) (record s { queue = queue })
  take_queued [] closed s =
      if closed
      then settle done s
      else record s { next_ticket = s.next_ticket + 1; waiters = s.waiters ++ s.next_ticket ∷ [] }

  -- `next()` of one stream, given whether the hub is closed
  unfoldable pub next_one : Bool → Subscriber T → Subscriber T
  next_one closed s = if s.returned then settle done s else take_queued s.queue closed s

  -- `return()` of one stream
  unfoldable pub return_one : Subscriber T → Subscriber T
  unfolding finish
  return_one s =
      if s.returned
      then settle done s
      else settle done (record s {
        returned = true;
        subscribed = false;
        queue = [];
        waiters = [];
        settled = s.settled ++ finish s.waiters;
      })

  abbrev deliver : List ℕ → T → Subscriber T → Subscriber T
  deliver (w ∷ ws) v s = record s { waiters = ws; settled = s.settled ++ (w, value v) ∷ [] }
  deliver [] v s = record s { queue = s.queue ++ v ∷ [] }

  -- one round of `emit`, for a subscriber of the set
  unfoldable pub emit_one : T → Subscriber T → Subscriber T
  emit_one v s = if s.subscribed then deliver s.waiters v s else s

  -- one round of `close`, and its removal from the set
  unfoldable pub close_one : Subscriber T → Subscriber T
  unfolding finish
  close_one s =
      if s.subscribed
      then record s { waiters = []; subscribed = false; settled = s.settled ++ finish s.waiters }
      else s

  -- a method of the stream with this handle
  unfoldable pub at_handle :
      ℕ → (Subscriber T → Subscriber T) → List (Subscriber T) → List (Subscriber T)
  at_handle i f [] = []
  at_handle zero f (s ∷ ss) = f s ∷ ss
  at_handle (suc i) f (s ∷ ss) = s ∷ at_handle i f ss

  abbrev pub new_hub : EventHub T
  new_hub = record { subscribers = []; closed = false }

  -- The source adds the subscriber to the set also when the hub is closed.
  unfoldable pub stream : EventHub T → EventHub T
  stream h = record h { subscribers = h.subscribers ++ new_subscriber ∷ [] }

  unfoldable pub next : ℕ → EventHub T → EventHub T
  unfolding next_one at_handle
  next i h = record h { subscribers = at_handle i (next_one h.closed) h.subscribers }

  unfoldable pub return : ℕ → EventHub T → EventHub T
  unfolding return_one at_handle
  return i h = record h { subscribers = at_handle i return_one h.subscribers }

  unfoldable pub emit : T → EventHub T → EventHub T
  unfolding emit_one
  emit v h = if h.closed then h else record h { subscribers = map (emit_one v) h.subscribers }

  unfoldable pub close : EventHub T → EventHub T
  unfolding close_one
  close h =
      if h.closed then h else record { subscribers = map close_one h.subscribers; closed = true }

-- The calls that are made on a hub and its streams, as an explicit sequence.
pub data Call {ℓ} (T : Type ℓ) : Type ℓ where
  open_stream call_close : Call T
  call_next call_return : ℕ → Call T
  call_emit : T → Call T

module _ {ℓ} {T : Type ℓ} where
  unfoldable pub apply : Call T → EventHub T → EventHub T
  apply open_stream h = stream h
  apply (call_next i) h = next i h
  apply (call_return i) h = return i h
  apply (call_emit v) h = emit v h
  apply call_close h = close h

  unfoldable pub run : List (Call T) → EventHub T → EventHub T
  unfolding apply
  run [] h = h
  run (o ∷ os) h = run os (apply o h)
