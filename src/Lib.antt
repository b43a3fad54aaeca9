-- ===== src/Lib.antt =====
-- A verification library for abmind, the memory service: the parts that decide whether a request is
-- carried out once, whether a message is believed, and what a sleeping service hands out.
--
-- The parts, and the files that model them:
--
--   Ledger (Phase, History, Dispatch): the idempotency ledger of the service,
--     src/abmind-request-ledger.ts. `AbmindRequestLedger` is a list of rows; reserve, markStarted,
--     complete, markUnknown, recoverCrashed and cleanup are `reserve`, `mark_started`, `complete`,
--     `mark_unknown`, `recover_crashed` and `cleanup`. A row's life is the relation `Move`.
--   Remote.Auth, Remote.Nonces, Remote.Replay: the check of a signed request. src/remote/signed-auth.ts
--     (verifyRequestSignature, verifyHello, with the canonical texts of src/remote/signed-wire.ts),
--     src/remote/nonce-store.ts (claim, prune) and their order in handleRequest of
--     src/remote/signed-wss-endpoint.ts (`authorize`). SHA-256 and the check of an Ed25519 signature
--     are parameters: they are of node:crypto.
--   Remote.Outbox (Loading, Delivery, Terminal, Credit, Attempt, Due, Marking, Prune): the durable
--     outbox of requests, src/remote/request-outbox.ts. `Outbox` holds the entries in memory and on
--     disk; a write that fails is part of the `Disk` that a call meets, as are the sizes of what
--     JSON.stringify makes. Loading (Reload, Waiting) is the constructor over the file that an earlier
--     process has left.
--   Remote.Route (Phase, Attempts, Loss, Bound, Stale): `RouteController` of
--     src/remote/route-controller.ts, the state machine of the client's connection. Each event of a
--     socket or a timer is an operation, and any event may come at any time, late ones of an earlier
--     socket included. Signatures and sockets are those of node:crypto and ws.
--   Remote.Transport (Messages, Runs, Moves, Handlers, Serving, Limits, Progress):
--     `SignedWssTransport` of src/remote/signed-wss-transport.ts, the client's pump between its
--     callers, the outbox and the route. request, close, sendEntry, recordUncertainFailure,
--     settleTerminalUnknown, handleRouteLost, schedulePump and handleMessage are operations of their
--     names; what the disk, the clock and the socket do during one is a `Moment`. Every handler is a
--     sequence of the small steps of `Move`.
--   Protocol, Service (Guards, Executions, Answers): the registry of methods of src/abmind-protocol.ts,
--     parseEnvelope of src/abmind-request-validation.ts, and `AbmindService` of src/abmind-service.ts
--     from handle to the settlement of a mutation: its guards, the reservation in the ledger, the
--     requests that join a live dispatch, reads, close, and a restart over the same database. What a
--     handler gives is a `Work`, what validatePayload says and the hash are fields of the `Request`.
--   SleepService.Runtime, SleepService.Broker (Kept, Delivery, Calm, Lease, Steps): `RuntimeBroker` of
--     src/sleep-service/runtime-broker.ts, which hands the completions of a sleep run to the provider
--     that holds the lease. A promise is an event of a log; a timer's callback is an operation that
--     may be called at any time.
--   SleepService.Events (Open, Ring, Gaps): `SleepEventRing` of src/sleep-service/sleep-events.ts, the last
--     200 events of a run and those who wait for more.
--   SleepService.Coordinator (Preservation, Agreement, Shutdown, Resumption, LastRunFile):
--     `SleepCoordinator` of src/sleep-service/sleep-coordinator.ts, which starts, cancels, resumes and
--     ends the runs over the broker and the ring, and writes and reads the record of the last one.
--   Frames (Reading): the length-prefixed frames of src/abmind-frame-codec.ts and their accumulator.
--   Questions (Rows, Capacity, Serving, Owners): `DreamQuestionStore` of src/dream-question-store.ts, the
--     questions that the sleep run asks an owner. What it reads of other tables is a `World`.
--   Sleep.Supervision (Deciding), Sleep.Sending (Allowance): the supervision of model calls. src/sleep/supervision.ts
--     (classifyExecutionFailure, decideRecovery, withExecutionFacts) and sendToRuntime with LlmBudget
--     of src/sleep/llm-budget.ts. What an attempt meets, from the clock to the runtime's answer, is a
--     `Turn`, and any turns may come.
--   OperationalTypes (Checks), Operational (Writes, Soundness, Promotion, Concurrency, Scopes,
--     Placement, Pages): the drafts, memories and versions of src/operational-memory-store.ts, with
--     the rows, scopes and checks of src/operational-memory-types.ts. createDraft, promoteDraft,
--     rejectDraft, revise and retire are `create_draft`, `promote_draft`, `reject_draft`, `revise` and
--     `retire`; SHA-256, the canonical JSON and the measures of a text are the parameter `Env`. Pages
--     (Filling, Walk) is listDrafts and getHistory of src/operational-memory-service.ts, page by page.
--   Prelude (Test, Lists, Text, Table): Boolean tests, lists over the native numbers, and the statements of
--     SQL on a list of rows.
--
-- How they interact: the transport sends what the outbox holds over the route, again and again until
-- it is acknowledged or given up; the endpoint believes a frame by its signature and its nonce; the
-- service lets the ledger decide whether the request is carried out, answered from the record or
-- refused. The sleep runs of the same service send their prompts under supervision, the broker hands
-- them to the provider, and the question store keeps what they want to ask. Service is proved over the
-- ledger, the coordinator over the broker and the ring, and the transport over the outbox and the
-- route.
--
-- Numbers are natural; a time is in milliseconds, read from the clock at each call and free to move as
-- it likes unless a theorem says otherwise. A time that the source subtracts from another is compared
-- by addition, or after the test that makes the difference positive. The loop of sendToRuntime takes
-- as much fuel as its allowance of attempts: a round ends the loop or uses up an attempt. Every other
-- loop goes once over a list. The length of a text is the number of its UTF-16 units, as in JavaScript;
-- JSON and the texts of dates are parameters where the file of the outbox is read back. A table is the
-- list of its rows in the order of their insertion, or for a page in the order of its query, and a
-- transaction is one operation.
--
-- Not modelled: the handlers of the service and the validators of payloads, the recall pipeline, the
-- personal memory, the steps of the sleep cycle, sealing, deployment and the command line. Much of that
-- is SQL text, I/O or scoring in floating point.
pub mod Frames
pub mod Ledger
pub mod Operational
pub mod OperationalTypes
pub mod Prelude
pub mod Protocol
pub mod Questions
pub mod Remote
pub mod Service
pub mod Sleep
pub mod SleepService
