-- ===== src/Lib.antt =====
-- The Agent Factory companion: a verification library beside its TypeScript sources.
--
-- The companion shows a workflow graph to a developer, lets Codex work on it, and keeps what both
-- see in step. It talks to the Codex App Server through a client (packages/companion/
-- app-server-client): `client.ts` keeps the state of the connection, of the requests and of the
-- threads with their turns; `wire.ts` reads and writes its messages; `event-hub.ts` hands the
-- client's events to any number of streams. The graph and the operations that edit it are in
-- packages/companion/graph-domain; the editor of packages/companion/web stages operations, shows the
-- graph that they would give, and sends them to a server that applies them. The Codex bridge
-- (packages/web/server/codexBridgeStore.ts) enrolls Codex sessions by tickets and leases, and hands
-- plans, grants and selections from one session to another; `journeyRecovery.ts` of
-- packages/web/src/companion tells from its snapshot what a launched journey waits for.
--
-- Which file models which code (the files of AppServer are those of the client's src directory):
--   Prelude, Prelude/*   tests and lists on the native numbers, maps from strings, decimals
--   Json                 JavaScript's parsed values; a number is carried by the text of String(n)
--   AppServer/Types      types.ts
--   AppServer/Errors     errors.ts, and results that may throw
--   AppServer/Wire       wire.ts, one function for each
--   AppServer/EventHub   event-hub.ts: `stream`, `next`, `return`, `emit` and `close`
--   AppServer/Client     client.ts: `State` has the fields and the private helpers, `Turns` and
--                        `Notifications` what messages do to turns, `Messages` the dispatch of
--                        messages, `Calls` and `TurnCalls` the public methods, `Actions` the steps
--   Graph/Types          packages/companion/graph-domain/src/types.ts, and the documents that hold a
--                        graph, of packages/companion/contracts/src/ui-context.ts
--   Graph/Elements       the array operations on elements with ids
--   Graph/Operations     packages/companion/graph-domain/src/operations.ts: `applyOne`, its loop,
--                        `selectionExists`
--   Graph/Editor         packages/companion/web/src/browser/graph/editorState.ts
--   Graph/Membership     packages/web/src/graph/containerMembership.ts
--   Bridge/Contract      packages/web/src/companion/sessionContract.ts and the enumerations of types.ts
--   Bridge/State         the records of the bridge's state; `Platform` what the store reads; `Texts` the
--                        contexts and the marker that it writes
--   Bridge/Results       what an operation returns or throws, as a monad
--   Bridge/Records       the private helpers on one record, with HandoffRecords and GrantRecords
--   Bridge/Housekeeping  `#housekeeping`
--   Bridge/Mutate        `#mutate`: the housekeeping, the body, the trimming, the write, the rollback
--   Bridge/Handoffs      `createPlanHandoff`; Transfers has `continueHandoff`, `attachHandoff` and
--                        `cancelHandoff`
--   Bridge/Grants        `createMaterializationGrant`; GrantOffers `continueMaterializationGrant`
--   Bridge/Hooks         what a hook records; Consumption has `#recordLeasedHook`
--   Bridge/Enrollment    `createEnrollment`; Leases `#issueLease` and `#newSession`
--   Bridge/Tickets, Bridge/Activation, Bridge/HandoffActivation
--                        `#activate` on each of the three kinds of capsules
--   Bridge/Entry         `handleHook`, and `#activate` around them
--   Bridge/Sessions      `attachSession`, `revokeSession`, `updateSessionAlias`, `resetState`
--   Bridge/Deliveries    `createDelivery`, `cancelDelivery`, `snapshot`, and the restart of `open`
--   Bridge/Actions       the public methods as actions, and runs of them
--   Bridge/Snapshots     what `snapshot` answers, and `unavailableSnapshot` of codexCompanionApi.ts
--   Journey/Recovery     packages/web/src/companion/journeyRecovery.ts
-- The other files below these hold their lemmas: Rules, History, Threads, Requests, Failures,
-- Responses and Settlement of the client, Invariant, View, Fifo and Drain of the event hub,
-- RoundTrip of the wire; Lookup, Elementwise, Effect, Refusal and Selection of the graph's
-- operations; Agreement, Undo and Preview of the editor; Moves and the files below it, Settled,
-- Retention, Rollback, Bounds, Fit, Enrolling, Admission and Distinct of the bridge; Decisions, Waiting and
-- Quiet of the journey. Tests holds the theorems at concrete inputs.
--
-- How the model corresponds to the code. A method of the client is a function from a client to a
-- result and a client; what it throws keeps what it has written before. JavaScript runs a method
-- without interruption up to an `await`, so a method that awaits is split there, and each part is
-- an `Action`; a sequence of actions may be any, those that no server would cause included. A
-- promise is known by its key: the request's id, the turn's key, or the number of a call of `next`.
-- What settles a promise, what is sent, and the closing of the connection are recorded in order, in
-- `effects` of the client and in `settled` of a stream. The answers of the server, the moments at
-- which the transport reports something, and the random prefix of request ids are arguments.
--
-- An operation on a graph is a function to a graph or an error, an index of an array a natural
-- number with `none` for -1. Values are never shared, so `structuredClone` has no counterpart.
--
-- An operation of the bridge is a function from an environment, the configuration and a bridge (the
-- state, the lease files by name, the diagnostics) to a result and a bridge. The store runs its
-- mutations one at a time, so a run is a list of actions, those parts of a method included that
-- other actions may come before, after an `await`. `Env` is what one action reads of the platform:
-- one value of the clock, the random values, hashing and encryption, the texts of capsules, the
-- repository's files, and whether a write succeeds. A body of a mutation that throws returns no
-- bridge, since `#mutate` restores the state; a lease is written last before a body returns, and
-- `#activate` removes it when the state is not written. A failure is its HTTP status and its code,
-- without the message. A timestamp is its text, read by `date_parse`, which is total, since the
-- store checks each timestamp that it takes in, and gives no time before 1970; the three parts of
-- an encrypted plan body are one field; an object that the code changes in place is the first of
-- its list that the code's search finds.
--
-- The snapshot of the bridge has the fields that the journey reads. `Date.parse` of the journey is a
-- parameter with `none` for NaN and no time before 1970; the texts of the screen are left out.
--
-- Bounds and fuel. The source's limit of 64 ended turns is `max_detailed_terminal_turns`; the loop
-- that evicts the oldest recurs on the list of turns, so no definition needs fuel. The counter of
-- requests is a natural number: the source's is exact up to 2 ^ 53.
--
-- Not modelled: the validation of graphs and their revisions, the transports, the files and HTTP of
-- the servers, the screens, and the parts of the repository that this library has not reached, among
-- them the readers of the bridge's requests and of its state file, the bridge's HTTP server, and the
-- analyzer. `pristine` of a work item stands for `isPristineWorkItem`.
pub mod Prelude
pub mod Json
pub mod AppServer
pub mod Graph
pub mod Bridge
pub mod Journey
