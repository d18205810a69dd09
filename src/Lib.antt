-- ===== src/Lib.antt =====
-- Kubetin, a terminal dashboard for several Kubernetes clusters.
--
-- The parts modelled. Watchers of one cluster publish events into a delivery, whose goroutine
-- hands them to the interface over a buffered channel. Probers and metrics pollers write the
-- state of each cluster into a shared store, from which the fleet table is drawn. On request the
-- program cordons a node and drains it: it lists the pods, verifies the controller of each,
-- evicts them with retries, waits until they are gone, and streams progress events to a modal. At
-- the start it looks for kubeconfig files, reads those whose content the user allowed, and gives
-- each context a name. The dashboard divides the terminal's canvas into panes, and keeps the last
-- network rates of the cluster in focus. The pod table keeps its order from one drawing to the
-- next. A change of the focus stops the watchers of one cluster and starts those of the next; the
-- logs of a container follow it over broken connections.
--
-- * Delivery, for internal/cluster/delivery.go: `newEventDelivery`, `record`, `remove`, `publish`
--   and `run`. Defs holds the state and the publisher, which acts under the lock and so in one
--   step; Run the goroutine, whose place between two blocking operations is a part of the state,
--   and the step relation of publisher, goroutine, consumer and cancellation. `start` only spawns
--   the goroutine. The queue is a list of addresses, the cells at the addresses, the map of pending
--   events and the set of known UIDs are functions; the wake channel of capacity one is a Boolean.
--   Versions of 64 bits wrap, so the schedules considered are shorter than 2^64 - 1 steps.
--   Invariant, Publish, Steps and Loop hold the invariant that ties them to the published history;
--   Eventual and Drains what follows for the consumer.
-- * Drain, for internal/cluster/nodeops.go. Preflight is `listDrainablePods` with the caches of
--   `drainPreflight`, Evict is `evictWithRetry`, Node is `setUnschedulable` and `drain`. The
--   answers of the API server, the clock and cancellation are parameters: a function from the
--   request to the answer, for the eviction one answer for each attempt. Five retries bound the
--   loop of an eviction, so six attempts end it. The wait for the pods takes the answers of each
--   round of polls as a list, whose end is the deadline. A stream is the list of the events sent; a
--   buffer that is full drops an event that is not the last one. Verified is the proof about the
--   preflight, Ends and Stream about the stream.
-- * State, for internal/model/state.go: `Store` with `Set`, `Get`, `ApplyProbe` and
--   `ApplyMetrics`, each under the lock and so one function from store to store. The map from
--   contexts to states is a function with optional values. `Snapshot`, a copy in map order, is left
--   out.
-- * Probe, for internal/cluster/probe.go: a round of `probeOnce` as a function of the answers of
--   its calls and of the state before it (Round), with the lists that it sums up (Nodes,
--   Workloads), what it asks of an error (Errors), the hysteresis (Hysteresis) and the supervisor
--   that commits to the store (Supervisor). Verdict, Carry, Stalled and Shown prove what a round
--   commits and what the store then shows, Counted and Signals what the sums count, Sources how
--   labels lead to sources. Scope is `ResolveScope` for one context as steps of its callers and of
--   the goroutines of calls, each operation on a map one step; Flight, Sticky and Returned are its
--   proofs. Pages of a list are the answers that come within the deadline, so their list is the
--   fuel.
-- * Kubeconfig, for internal/kubeconfig/discover.go (Names, Unique), internal/kubeconfig/trust.go
--   (Trust) and cmd/kubetin/trust.go (Start, Accept). The functions of path/filepath and the label
--   with a number are the record `Texts`. The search for a free number has as fuel one more than
--   the count of names taken; the loop over the directories of a path has the length of the path.
--   What a start sees of the disk is a record of its candidate files and of the hash of each. The
--   text of the trust file, the search for candidate files and the parsing of kubeconfigs are left
--   out.
-- * Dashboard, for internal/ui/dashboard_layout.go: the rectangles of the panes for a canvas, and
--   the border frame, as a list of rows of cells without colours (Layout). Tiles is about the panes
--   and the cells of the frame, Sizes about their heights and widths; Scroll is the window on the
--   lines of the stacked layout, with its proof.
-- * History, for the ring of network rates in internal/ui/history.go with `appendCapped` of
--   internal/ui/fleethealth.go: Ring is the code, Window its theorem.
-- * Fleet, for internal/ui/fleethealth.go with `plural` of internal/ui/event.go and `pct` of
--   internal/ui/sidebar.go: the alerts of a cluster (Alerts), the groups of the fleet and the line
--   that sums it up (Groups). Faults says independently which faults a state shows. Grouped, Ordered,
--   Counts, Severity, Pulse and Silent are the proofs. A sort whose test
--   tells all members apart is the insertion sort of Common/Sort, and one instant is the clock of
--   one drawing.
-- * Network, for internal/cluster/networkpoll.go: `networkRates` (Rates), `tick` and the results
--   of `scrapeNodes` (Poll). What the API server lists and what each kubelet gives in a tick are
--   parameters, and so is the division of float64 numbers. Rotation is the order in which
--   `scrapeNodes` hands out the nodes. Sums, Baselines, Coverage, Jobs and Fair are the proofs. The
--   text that kubelets give (`parseCAdvisor`) is left out; `Out` takes the snapshots.
-- * Logs, for internal/cluster/logstream.go: `logCursor` (Cursor) and the loop of `runStream`
--   (Run). What a stream brings, how it ends, and how the next one opens are parameters, a round of
--   the loop each. Streams says what a stream that resumes at the cursor holds; Lines, Exact, Dropped,
--   Output, Passed and Ends are the proofs. Lines without a timestamp pass. `parseLogTimestamp`,
--   `logsComplete` and the requests are left out. Whether `Out` has room for a line, and
--   where the context ends, are parameters.
-- * Focus, for the `watchCoordinator` of cmd/kubetin/main.go, whose callers, timer and loop are
--   steps on one state (Coordinator), and for `forwardResourceEvents` of
--   cmd/kubetin/resource_batch.go, whose selects are a list of polls (Batch). Settled, Phases,
--   Settling, Ordering and Batched are the proofs.
-- * Table, for the order of the pod table: `lessBy` and `sortedPodUIDs` of internal/ui/pod.go
--   (Rows), `invalidatePodOrder`, `mergePodOrder` and `tableUIDs` of internal/ui/table_cache.go
--   with the calls of internal/ui/app.go (Cache), the end of `mergePodOrder` by itself (Merge).
--   Lowering and searching texts are parameters. Linear and Order prove that the order is linear,
--   Ascending that the members determine an ascending list; Kept, Fresh, Merged, Undisturbed and
--   Changed are the proofs about the cache.
-- * Common holds what the parts share: tests, lists, updates of functions and signed integers
--   over the native numbers. The Examples of each part hold its tests.
--
-- Not modelled: the rest of the terminal interface in internal/ui, the watchers around client-go
-- and fleet detail in internal/cluster, and the rest of the wiring in cmd/kubetin.
pub mod Common
pub mod Dashboard
pub mod Delivery
pub mod Drain
pub mod Fleet
pub mod Focus
pub mod History
pub mod Kubeconfig
pub mod Logs
pub mod Network
pub mod Probe
pub mod State
pub mod Table
