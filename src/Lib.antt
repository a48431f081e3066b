-- ===== src/Lib.antt =====
-- plecture keeps durable sessions of autonomous work. A workflow is compiled to a plan of nodes; the
-- plan is set up, checked and torn down; populations decide which resources have a session;
-- completion predicates and verdicts of other sessions decide when work is done.
--
-- The parts, and the code that each models:
--   Base        the names, tests, list and map helpers that the other modules share.
--   Task        the compiler of app/internal/task/task.go: `CompileWorkflow` over `deriveDependsOn`,
--               `applyBlocks`, `assemblePlan` (Task/Plan) and `topoSortNodes` (Task/Sort).
--   Lifecycle   `RunSetup` and `RunCleanup` of app/internal/task/task.go (Lifecycle/Setup,
--               Lifecycle/Cleanup), `invalidateProducedNode` and `transitiveDependents` of
--               app/internal/task/liveness.go (Lifecycle/Setup, Lifecycle/Dependents), on the records
--               `TaskState` of contracts/state/state.go (Lifecycle/Record).
--   Population  app/internal/population/engine.go: `admit` and `failAdmit` (Population/Admit),
--               `Reconcile`, `SweepExpiry` and `decideDestroy` (Population/Sweep), `ApplyPoll` and
--               `ApplyAppearance` (Population/Source), the retry times (Population/Backoff), on the
--               members of app/internal/domain/runtimestate.go and the transactions of
--               app/internal/persistence/populations.go (Population/Member, Population/World).
--   Completion  app/internal/task/donewhen.go: the verdicts with the relation policy of
--               app/internal/domain/session.go (Completion/Judge), the leaves (Completion/Leaf), the
--               predicate (Completion/DoneWhen).
--   Tree        app/internal/domain/session.go: `isAncestor`, `RelationFromTarget` and `Subtree`.
--   Events      contracts/event/event.go: events, filters and patterns (Events, Events/Patterns);
--               app/internal/eventlog/store.go over app/internal/persistence/events.go: the listings
--               and the readers that follow a session through its incarnations (Events/Log);
--               contracts/event/cursor.go and resume.go (Events/Cursors).
--   Dispatch    app/internal/dispatch/dispatcher.go: `processEvent` (Dispatch/Deliver), `drain` and
--               `SeedCursor` (Dispatch/Drain); `retry` of app/internal/channel/retry.go
--               (Dispatch/Retry); the failure streaks of dispatch/channel_health.go and their
--               escalation in service/channel_health.go (Dispatch/Health).
--   Capacity    app/internal/service/childcap.go over app/internal/persistence/reservations.go
--               (Capacity, Capacity/Limit, Capacity/Priority), and the queue of sleeping sessions of
--               app/internal/service/sleep.go (Capacity/Sleep).
--   Reactor     app/internal/reactor/reactor.go: `drain`, `doTick`, `checkHeartbeat` and the backoff,
--               with `BackoffInterval` of app/internal/config/workflow.go.
--   Watchdog    app/internal/service/watchdog.go: `evaluateHealthFor`, `finalizeActivityObservation`,
--               `HealthReport.State` and `shouldNotifyHealth`.
--   Budget      plugins/github/src/internal/ratebudget/ratebudget.go: the backoff that processes share
--               through a file.
-- The dispatcher, the sleep queue and the reactor read and write one log, the rows of Events/Log;
-- the dispatcher and the reactor each have a cursor of their own in it.
-- The run lists of the lifecycle are the ordered lists of a compiled plan, and both use the nodes of
-- Task/Node.
--
-- State is passed on explicitly: the tasks and the reports to the observer in the lifecycle; the
-- population's row, the event log, the admission cache and the hook calls in the engine. The effects of
-- a node, the hooks, the clock, the expression language and Go's text functions are arguments
-- (`Runner`, `Env`, `Runtime`). A hook of the engine may change the population while it runs, as
-- other processes do. The clock reads the same during one pass. A map that is iterated is a list of
-- entries. The workers of one event run in the order of the channels, and a delivery's attempts are
-- answers given beforehand. Processes that compete for a slot are interleaved in any order, one
-- transaction at a time. How a tick ends and what it appends to the log, what is seen of the session before
-- and after it, and when the context ends are arguments of the reactor.
--
-- Fuel: the sort gets one round per node, the search for dependents one per node and one for its
-- start, the climb to an ancestor one per session and one, the wait for a wake four rounds; each is
-- proved to be enough. The loop of retries is structural in the attempts that are left, the readers of
-- the log in its rows. Times are nanoseconds, but the budget's file, which has seconds.
--
-- Not modelled: the resolution of a node's definition (its schemas are compiled by a third-party
-- package), the renderings of results for people, logging, SQL, the services above these
-- parts (chaining, idle eviction, the watchdog's escalation, repair, and the dead man's switch among them), the
-- supervisors' start and stop of loops, the transports of channels, the event bus, the web and
-- command surfaces, and the plugins. Integers of 64 bits wrap where the code counts up without a
-- bound in the population: generations and failures.
pub mod Base
pub mod Budget
pub mod Capacity
pub mod Completion
pub mod Dispatch
pub mod Events
pub mod Lifecycle
pub mod Population
pub mod Reactor
pub mod Task
pub mod Tree
pub mod Watchdog
