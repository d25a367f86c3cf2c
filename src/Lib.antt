-- ===== src/Lib.antt =====
-- Threadwire, the controller that drives the ChatGPT desktop application over the Chrome DevTools
-- Protocol: the components that decide what is safe to do, and what makes them correct.
--
-- A turn enters through the controller's queue, which admits a bounded number of turns and runs one
-- at a time. The thread and project registries turn opaque handles into locators of conversations and
-- projects; a thread that a fresh turn is about to create is reserved first, and committed or rolled
-- back when the turn ends. The readiness gates watch snapshots of the page until the editor is stable
-- and focused. The operation scheduler runs each mutation alone, under a lease of the runtime
-- incarnation that was current when the mutation was queued, and refuses a lease whose state has
-- become uncertain. While a turn's text is written, the turn observation tracker follows the network
-- events of its one write request, and the response stream tracker feeds the data of the selected
-- request to the stream consumer, which turns server-sent records into text deltas.
--
-- Files and code (paths from the repository's root):
--   Prelude           Boolean tests, equality as an interface, lists, UTF-16 text, JavaScript's Map
--   Domain/Errors     src/domain/errors.ts: the error codes, and calls that return or throw
--   Domain/Runtime    src/domain/RuntimeGeneration.ts: RuntimeGenerationTracker, leases
--   Domain/Identity   src/domain/ThreadIdentity.ts and ProjectIdentity.ts: locators and handles
--   Routing/Registry  src/routing/ThreadRegistry.ts: registerWithStatus, reserveProvisionalWithStatus,
--                     commitProvisional, rollbackProvisional, waitForCommit, resolve
--   Routing/Scheduler src/routing/OperationScheduler.ts: schedule, its run and onQueuedAbort, drain,
--                     markRuntimeMutationStateUncertain, as steps of a state machine
--   Response/Json     the JSON values that a record may hold and the text that they carry
--   Response/Consumer src/response/ResponseStreamConsumer.ts: every method
--   Cdp/ResponseTracker src/cdp/CdpResponseStreamTracker.ts: every method, and the promise's two ends
--   Cdp/TurnTracker   src/cdp/CdpTurnObservationTracker.ts, and classifyTurnRequest and
--                     isSuccessfulHttpStatus of src/cdp/ChromeRemoteInterfaceHelpers.ts
--   Readiness/Gate    src/readiness/ExistingReadinessPolicy.ts and types.ts
--   Readiness/Fresh   src/readiness/FreshReadinessPolicy.ts
--   Readiness/Controller src/readiness/ReadinessController.ts: its data and its calls; its children Wait
--                     (waitForRoute) and Routes (the other methods)
--   Controller/TurnQueue src/controller/ControllerTurnQueue.ts
--   Project/Registry  src/project/ProjectRegistry.ts
--   Turn              src/turn/types.ts, the data of src/turn/TurnExecutor.ts, withTimeout of
--                     src/utils/timeout.ts; its children, all of src/turn/TurnExecutor.ts:
--   Turn/Delivery     updateResponseDelivery, finalizeResponseDelivery and what they call
--   Turn/Completion   the end of a turn that made a conversation, confirmCompletedTurn, its rollback
--   Turn/Outcome      waitForTurnOutcome, round by round
--   Turn/Submission   executeInternal and executeScheduled
--   Exec              methods that change an object and may throw, and rules about them
--   Config            src/config/ControllerConfig.ts and src/api/ApiConfig.ts
--   Tests             runs and instances at concrete inputs
--
-- State is passed explicitly: an operation takes the record of its class and returns the new one with
-- its result. What other code decides is an event with its data: the abort of a signal, the end of an
-- operation, a microtask, a network event, the end of a promise. Numbers are natural numbers; the
-- counters of the source stay far below 2^53. A text is its list of UTF-16 code units.
--
-- Fuel and bounds: the search for a free handle has the source's 8 attempts as its fuel and throws
-- when they are spent. The line loop of the stream consumer has the length of its buffer and one,
-- since each round takes a line break out of the buffer. The loop of a turn takes the number of its
-- rounds; after them it may still be polling. The loop of the readiness controller does so too, and
-- needs no more rounds than calls until its timer fires. The other theorems of both hold for any number
-- of rounds.
--
-- A turn and a wait for a page run against a port: each call of the session, the clock, the signal and the listener is
-- answered by a function of the number of calls before it, so that the theorems cover every way in
-- which these may behave. What the listener itself changes is not modelled.
--
-- Parameters: the WHATWG URL parser, the streaming TextDecoder with Base64, JSON.parse, the handle
-- factory and the clock.
--
-- Not modelled: the protocol sessions, the supervision of the application's processes, the router, the
-- creation of projects, the controller that joins the parts, the HTTP server, and messages and causes
-- of errors. They are input and output for the greater part, or build on the parts above.
pub mod Cdp
pub mod Config
pub mod Controller
pub mod Domain
pub mod Exec
pub mod Prelude
pub mod Project
pub mod Readiness
pub mod Response
pub mod Routing
pub mod Turn
pub mod Tests
