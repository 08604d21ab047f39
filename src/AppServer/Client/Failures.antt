-- ===== src/AppServer/Client/Failures.antt =====
-- How a client ends: by a failure, by the closing of its transport, or by `close`.
use af_companion.Prelude.{
  ◌+◌, String, ◌≡◌, ap, ◌∙◌, true, false, List, [], ◌++◌, append_assoc, arith, if◌then◌else◌,
}
use af_companion.Json.{Json}
use af_companion.AppServer.Types.{
  initializing, protocol_error, ready, failed, StableUserInput, StartThreadOptions,
}
use af_companion.AppServer.Errors.{Failure, client_state_error, Result, ok, throw, ◌+++◌}
use af_companion.AppServer.EventHub
use af_companion.AppServer.EventHub.{EventHub}
use af_companion.AppServer.Client.State.{
  Client, Effect, reject_requests, reject_turns, is_ready, fail, closing_or_closed, state_text,
  request_id, close_effect, failure_message,
}
use af_companion.AppServer.Client.Messages.{caught, handle_message, read_message}
use af_companion.AppServer.Client.Calls
use af_companion.AppServer.Client.TurnCalls
use af_companion.AppServer.Client.Actions.{step}
use af_companion.AppServer.Client.Actions

-- Nothing is left to wait for: every request and every turn waiter of `c` was rejected with `f`,
-- once, in order; the events have ended.
pub record IsDrained (f : Failure) (c d : Client) : Type 0 where
  pub no_requests : d.pending ≡ []
  pub no_waiters : d.turn_waiters ≡ []
  pub ended : d.events.closed ≡ true
  pub rest : List Effect
  pub settled :
      d.effects
      ≡ c.effects ++ ((reject_requests f c.pending ++ reject_turns f c.turn_waiters) ++ rest)

close-closes : {T : Type 0} (h : EventHub T) → (EventHub.close h).closed ≡ true
unfolding EventHub.close
close-closes h = ground arith

fail-IsDrained :
    (f : Failure) (c : Client)
    → c.failure_handled ≡ false
    → closing_or_closed c.state ≡ false
    → IsDrained f c (fail f c) × ((fail f c).state ≡ failed)
unfolding fail
fail-IsDrained f c unhandled live = (
  record {
    no_requests = ground arith;
    no_waiters = ground arith;
    ended =
        ground (arith, close-closes (EventHub.emit (protocol_error (failure_message f)) c.events));
    rest = close_effect c.connected;
    settled = ground (
      arith,
      append_assoc c.effects (reject_requests f c.pending ++ reject_turns f c.turn_waiters)
          (close_effect c.connected),
    );
  },
  ground arith,
)

fail-reading : (f : Failure) (c : Client) → (fail f c).reading ≡ c.reading
unfolding fail
fail-reading f c = ground arith

read_message-eq-fail :
    (value : Json) (c d : Client) (f : Failure)
    → c.reading ≡ true
    → handle_message value c ≡ (throw f, d)
    → read_message value c ≡ fail f (record d { reading = false })
unfolding read_message
read_message-eq-fail value c d f reading thrown =
    ap (λ b. if b then caught (handle_message value c) else c) reading ∙ ap caught thrown

-- While a client reads, a message whose handler throws, and leaves no failure handled and the client
-- neither closing nor closed, ends the reading: the client has failed, its events have ended, and
-- what it waited for is rejected with the failure that was thrown.
pub read_message-throw :
    (value : Json) (c d : Client) (f : Failure)
    → c.reading ≡ true
    → handle_message value c ≡ (throw f, d)
    → d.failure_handled ≡ false
    → closing_or_closed d.state ≡ false
    → IsDrained f d (read_message value c)
      × ((read_message value c).state ≡ failed)
      × ((read_message value c).reading ≡ false)
read_message-throw value c d f reading thrown unhandled live =
    let (drained, state) = fail-IsDrained f (record d { reading = false }) unhandled live in
    rw (read_message-eq-fail value c d f reading thrown) (
      record {
        no_requests = drained.no_requests;
        no_waiters = drained.no_waiters;
        ended = drained.ended;
        rest = drained.rest;
        settled = drained.settled;
      },
      state,
      fail-reading f (record d { reading = false }),
    )

-- the outcome of a call that is refused, and leaves the client as it is
abbrev pub Refuses : {A : Type 0} → Client → Result A × Client → Type 0
Refuses c r = r ≡ (
  throw (client_state_error ("client is not ready (state: " +++ state_text c.state +++ ")")),
  c,
)

-- While a client is not ready, the calls that send a request about a thread or a turn are refused, and
-- change nothing; `materialize` begins with `startThread`.
pub not_ready :
    (c : Client) (o : StartThreadOptions) (id t : String) (inputs : List StableUserInput)
    → is_ready c.state ≡ false
    → Refuses c (Calls.start_thread o c)
      × Refuses c (Calls.resume_thread id c)
      × Refuses c (TurnCalls.start_turn id inputs c)
      × Refuses c (TurnCalls.steer_turn id t inputs c)
      × Refuses c (TurnCalls.interrupt_turn id t c)
unfolding Calls.start_thread Calls.resume_thread TurnCalls.start_turn TurnCalls.steer_turn
    TurnCalls.interrupt_turn
not_ready c o id t inputs h = (ground arith, ground arith, ground arith, ground arith, ground arith)

-- The first `close` of a connected client, while `initialize` awaits the sending of its last message:
-- when that is done, the client calls itself ready again, although it has closed its connection and
-- its events have ended, and lets requests through.
pub ready_after_close :
    (c : Client) (o : StartThreadOptions)
    → c.connected ≡ true
    → c.close_started ≡ false
    → c.state ≡ initializing
    → ((step Actions.initialize_sent (step Actions.close_done (step Actions.close c))).state
        ≡ ready)
      × ((step Actions.initialize_sent
            (step Actions.close_done (step Actions.close c))).events.closed
          ≡ true)
      × ((id : String) × ((Calls.start_thread o
              (step Actions.initialize_sent (step Actions.close_done (step Actions.close c)))).0
            ≡ ok id))
unfolding step TurnCalls.close TurnCalls.close_done Calls.initialize_sent Calls.start_thread
ready_after_close c o connected first state = (
  ground arith,
  ground (arith, close-closes c.events),
  (request_id c.request_prefix (c.next_request + 1), ground arith),
)
