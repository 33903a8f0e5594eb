-- ===== src/Lib.antt =====
-- persys-cloud: the scheduler of the control plane, the gateway's pool of schedulers and the automation
-- engine.
--
-- The program. persys-scheduler keeps nodes and workloads in etcd, chooses a node for each workload,
-- retries what fails, and freezes its control plane when etcd is lost. persys-gateway routes requests
-- to one of several schedulers, which it is configured with or discovers through DNS. persys-automation
-- evaluates policies and suggests actions to the scheduler. The other services (persys-intelligence,
-- persys-forgery, persys-federation, vault-manager) call these or stand beside them.
--
-- The files, and the code that they model.
--   Prelude and its children: tests, lists, maps, errors and sorting, with their lemmas. Prelude/Float has
--     Go's rounding of a natural number to the nearest float64.
--   Text: what the program uses of Go's packages strings and strconv (Text/Split has Split, SplitN, Fields
--     and Atoi, Text/Split/Decimal the texts that Atoi reads). Letter case is that of ASCII.
--   Gateway/Pool, Gateway/Discovery: persys-gateway/services/scheduler_pool.go. A pool is a record of
--     clusters; OrderedSchedulers is ordered_schedulers, refreshHealth is refresh_health, MarkUnhealthy is
--     mark_unhealthy, discoverAndMerge is discover_and_merge. DNS, package net and the gRPC probe are
--     parameters.
--   Scheduler/Models: persys-scheduler/internal/models/models.go.
--   Scheduler/Services: the state of a Scheduler, and the shape of a method. A method takes the state and
--     returns a value or an error with the state after it; what it changed before an error stays. Etcd,
--     the clock, UUIDs, Redis, the digest, the texts of numbers and times, and float64 are parameters
--     (Services, Formats, Floats). Scheduler/Keeps and Scheduler/Yields have a rule for each way to build
--     a method, for invariants and for results.
--   Scheduler/Mode: internal/scheduler/mode.go of persys-scheduler. evaluateMode, one tick of the mode
--     supervisor, is evaluate_mode; Snapshot and Thaw have its theorems.
--   Scheduler/Etcd: internal/scheduler/etcd.go. The loop of attempts is `attempts`, with the further
--     attempts as its fuel: five after the first, as in the source.
--   Scheduler/Projection, Scheduler/Store: workload_projection.go, state_store.go, and the reads of
--     scheduler.go (GetWorkloadByID is get_workload_by_id, saveWorkload is save_workload).
--   Scheduler/Storage: the managed volumes of state_store.go, which saveWorkload synchronises.
--   Scheduler/Retry: the retries of workload_control.go. retryBackoff keeps the wrap of its int64; the pure
--     part of UpdateWorkloadRetryOnFailure is retry_on_failure.
--   Scheduler/Workloads: the commands of workload_control.go and scheduler.go, composed of the store, the
--     retries and the guard requireWritable.
--     Workloads/Details is UpdateWorkloadRuntimeDetails. Launch is ScheduleWorkload.
--   Scheduler/Nodes: the selection and assignment of scheduler.go; selectNodeForWorkload is
--     select_node_for_workload. Nodes/Control: node_control.go, with markNodeNotReady as mark_node_not_ready.
--     Nodes/Reads and Nodes/Register: the reads of nodes, RegisterNode, DeleteNode and dns.go.
--   Scheduler/Agent: agent_grpc.go. Agent/Ports reads ports, volumes and project names, Agent/Request builds
--     the request of an apply, and Agent/Delete is DeleteWorkloadWithContext, with Storage/Cleanup for
--     cleanupManagedStorageForWorkload. The calls of the agents are an interface (Agents), the settings a
--     record (Config), paths, gRPC codes and the conversion of a float64 to int64 another one (Platform).
--   Scheduler/Reconcile: reconciler.go. Its guards and pauses stand in Reconcile, failover and records in
--     Reconcile/Actions, applyDesiredState and performReconciliation in Reconcile/Apply, ReconcileWorkload
--     and ReconcileAllWorkloads in Reconcile/Cycle.
--   Scheduler/Drift: drift.go. Drift/Orphan has what is done with a workload that a node reports
--     unexpectedly, as a plan and its execution; Drift/Remedy the comparison and the other remedies.
--   Scheduler/Monitor: monitor.go. One tick of MonitorWorkloads is monitor_workloads.
--   Scheduler/Store/Keys and Store/Replay: the keys of the store, and sequences of saves.
--   Automation: persys-automation/internal. Records has the shapes and what the engine calls (Readers for JSON
--     and cron schedules, Backends for the store, Prometheus, the scheduler and the clock); Suggestions,
--     Engine and Dispatch are engine/engine.go, from an action to a suggestion, the conditions, and
--     dispatch, evaluation and replay; MemoryStore is the store in memory of store/store.go,
--     and Leader is store/leader_elector.go, with the channel of its updates.
--   Tests: a small world with a store, a clock and faults, and the theorems at concrete inputs.
--
-- Choices. A time is the nanoseconds since Go's zero time and an int that is never negative is a number.
-- Go's maps are association lists, ranged over in the order of the list. sort.Slice is insertion sort, as
-- Go's is for up to twelve elements. A value of the state store is what its reader decodes, so the text of
-- JSON is not modelled and its failures are left out. What JSON changes of a value is applied where it is
-- written: an int of the metadata becomes the nearest float64 (stored_status). Locks are not modelled: a method runs by itself. The metadata map
-- of a workload is shared between copies in Go; a command here returns the map as saveWorkload has marked it, and a cached
-- workload does not change with its original. An event's details are left out. Every loop is a recursion
-- on the list that the source ranges over, but for two: the attempts of an etcd call, and the wait for an
-- agent to delete a workload. The wait has delete_rounds rounds, one for each poll interval of the timeout and
-- two more: each round sleeps for one interval, so that the deadline passes within them. It answers false
-- if they ran out.
--
-- Not modelled: of the scheduler, the loops that repeat a cycle, a round or a tick, the statistics and
-- event lists for operators, the choice of the own network address, waitForWorkloadTerminalStatus, which
-- nothing calls, and the conversions of the gRPC API; the gateway's handlers;
-- the Postgres store of persys-automation; and the other services.
-- Generated protocol code, certificates and process start-up only move data in and out.
pub mod Prelude
pub mod Text
pub mod Gateway
pub mod Scheduler
pub mod Automation
mod Tests
