-- ===== src/Lib.antt =====
-- kube-trigger watches sources of events, filters the events and runs actions on them. This library
-- models the program's own logic and proves what makes it correct.
--
-- The command (pkg/cmd) reads a configuration of triggers, checks it, makes one executor and one
-- instance of each type of source, and gives each source an event handler per trigger. A source
-- raises events: the resource watcher through an informer, a rate-limited work queue and a
-- controller, the cron job on a schedule. The handler filters an event and adds a job to the
-- executor, whose workers run it. Apart from that the manager's reconciler (controllers) keeps a
-- worker deployment and its config map for each TriggerService object.
--
-- - Base: the library names that all files share, Boolean tests, decidable texts, Go maps as
--   association lists (Base/Dict) and integers with their 64-bit wrap-around (Base/Int).
-- - Workqueue/Items, Workqueue/Queue: pkg/workqueue/queue.go. The struct `Type` is the record
--   `Queue`; each method is the function of its name, which gives the new state and what it does
--   to the condition variable. Queue/Run has histories of calls, Queue/Invariant the invariant,
--   Queue/Status the life of one item, Queue/Wakeup the goroutines that sleep in `Get` or in
--   `ShutDownWithDrain`, as a step relation, and Queue/Drain those in the drain.
-- - Workqueue/Metrics: pkg/workqueue/metrics.go, with what was sent to the gauges; the clock is a
--   sequence of readings. Metrics/Depth runs the queue with these metrics.
-- - Workqueue/RateLimiter: pkg/workqueue/default_rate_limiters.go, one constructor per limiter.
-- - Workqueue/Indexer: pkg/workqueue/indexer_delaying_queue.go, one function per section that
--   holds the lock, so that Indexer/Run can interleave the sections freely.
-- - Workqueue/PriorityQueue: the heap of pkg/workqueue/delaying_queue.go and its `insert`, with the
--   functions of Go's container/heap on that heap. An entry is a pointer, and the fields of an entry
--   are functions of its pointer. `Due` reads the heap as a map from keys to times; Up, Down,
--   Insertion and Removal are about the operations.
-- - Workqueue/WaitingLoop: `waitingLoop` of both delaying queues, as a step relation over what the
--   loop uses of its queue, the record `Host`. WaitingLoop/Expiry is about the inner loop,
--   WaitingLoop/Invariant about what the loop keeps in every interleaving, WaitingLoop/Progress about
--   what it can do by itself.
-- - Workqueue/DelayingQueue: the rest of pkg/workqueue/delaying_queue.go, over an inner queue;
--   DelayingQueue/Early traces what was asked for and what was handed on, DelayingQueue/Kept where
--   an item is in between, DelayingQueue/Handed how it gets out. For the indexer queue the host of
--   the loop is in Indexer/Stranded; Indexer/Late and Indexer/Lost are about a key that the loop takes
--   from its heap too early.
-- - Workqueue/Parallelizer: pkg/workqueue/parallelizer.go, with its goroutines as a step relation;
--   Parallelizer/Pieces counts how often each piece is worked on.
-- - Workqueue/RateLimitingQueue: pkg/workqueue/rate_limiting_queue.go, over the delaying queue that
--   it embeds; Source/Controller/Requeues runs the controller on it.
-- - Executor: pkg/executor/executor.go. `runJob` is cut into `pick`, `start` and `finish`, since it
--   lets other workers run in between; Executor/Retries and Executor/Race interleave the parts.
--   `AddJob` is cut into its test and its adding, which Executor/Adding interleaves for many callers.
-- - Filter, Action, EventHandler: pkg/filter/filter.go, pkg/action/action.go and
--   pkg/eventhandler/event_handler.go.
-- - Source/Watcher, Source/Controller, Source/CronJob, Source/Registry: the packages under
--   pkg/source. Watcher/Clusters has the clients of the clusters, which the secrets of
--   Watcher/Secrets lead to, and Watcher/Order the loop over the configurations. Controller/Worker
--   follows the worker of a controller from turn to turn, and Controller/Start is its `Run`.
-- - Pipeline: the worker of a controller with the handlers of the triggers, over the executor.
-- - Config, Cmd: pkg/config and pkg/cmd. Cmd/Run is `run`, which puts the parts together; Cmd/Sources
--   and Cmd/Watching are about its loop over the triggers; Cmd/Runner is the runner that calls it, with
--   leader election as a step relation.
-- - Controllers/TriggerService: controllers/triggerservice/triggerservice_controller.go, with the
--   API server as a record of reads and writes on a state of the cluster. TriggerService/Cluster is
--   about its parts, TriggerService/Reconciled about `Reconcile` as a whole.
--
-- Bounds and fuel: most loops of the modelled code run over a list and are structural recursion, and
-- goroutines that loop are step relations. The loops of the heap have fuel: `up` for one more than
-- the index it starts from, `down` for the size of the heap, and the loop that adds ready entries for
-- the size of the heap. The worker of a controller, which does not end, takes as many turns as
-- it is given start times to read: the start time is a variable of the package that any controller may
-- write.
-- Durations of the options are wrapped to 64 bits as in the source, integers that may be negative are
-- the signed integers of Base/Int, and the backoff keeps the conversion from float64 as a parameter
-- that is exact in range only.
--
-- Not modelled: the end of `RunJobs`, with the drain of its queue and the WaitGroup of its workers,
-- informers, the scheduler of cron jobs, the lease that leaders hold and the command line,
-- which are libraries that the program calls; generated code. CUE, the decoders of JSON and YAML, the
-- API server, the clients of clusters, the token bucket and the queue of client-go under the executor
-- are parameters, with laws where a theorem relies on them.
pub mod Base
pub mod Workqueue
pub mod Executor
pub mod Filter
pub mod Action
pub mod EventHandler
pub mod Source
pub mod Config
pub mod Cmd
pub mod Controllers
pub mod Pipeline
