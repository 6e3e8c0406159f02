-- ===== src/Workqueue/Metrics.antt =====
-- pkg/workqueue/metrics.go: what the queue reports. The providers of gauges, counters and
-- histograms are interfaces; the model keeps what is sent to them. Durations are in nanoseconds.
use Prim.Native.String.{String}
use text.Mathlib.Text.{◌==◌ as text_eq}
use kube_trigger.Base.{
  ℕ, suc, ◌+◌, ◌-◌, ◌≡◌, Bool, true, false, ◌||◌, Option, none, some, List, [], ◌∷◌, ltb,
  if◌then◌else◌, length, ◌==◌,
}
use kube_trigger.Base.Dict
use kube_trigger.Workqueue.Queue.{Metrics}
pub mod Depth

-- `defaultQueueMetrics`. `clock` gives the readings of the clock in order, and `reads` counts
-- those taken; `incs` and `decs` are the calls of the depth gauge, `unfinished` the last values
-- of the two gauges on unfinished work.
pub record DefaultMetrics (K : Type 0) : Type 0 where
  pub clock : ℕ → ℕ
  pub reads : ℕ
  pub incs : ℕ
  pub decs : ℕ
  pub adds : ℕ
  pub latency : List ℕ
  pub work_duration : List ℕ
  pub add_times : List (K × ℕ)
  pub start_times : List (K × ℕ)
  pub unfinished : Option (ℕ × ℕ)

-- The clock's readings as they come: `Now` moves on to the next one.
abbrev pub now : {K : Type 0} → DefaultMetrics K → ℕ
now m = m.clock m.reads

-- The values of `queueMetrics`: `noMetrics`, or a pointer, nil or not.
pub data QueueMetrics (K : Type 0) : Type 0 where
  no_metrics : QueueMetrics K
  default_metrics : Option (DefaultMetrics K) → QueueMetrics K

module _ {K : Type 0} (dec : Discrete K) where
  unfoldable pub add : DefaultMetrics K → K → DefaultMetrics K
  add m x = elim (Dict.get dec x m.add_times) [
    | none ↦ record m {
      adds = suc m.adds;
      incs = suc m.incs;
      add_times = Dict.put dec x (now m) m.add_times;
      reads = suc m.reads;
    }
    | some _ ↦ record m { adds = suc m.adds; incs = suc m.incs }
  ]

  unfoldable pub observe_latency : DefaultMetrics K → K → Option ℕ → DefaultMetrics K
  observe_latency m x none = m
  observe_latency m x (some start) = record m {
    latency = (now m - start) ∷ m.latency;
    add_times = Dict.remove dec x m.add_times;
    reads = suc m.reads;
  }

  unfoldable pub get : DefaultMetrics K → K → DefaultMetrics K
  unfolding observe_latency
  get m x =
      observe_latency
        (record m {
          decs = suc m.decs;
          start_times = Dict.put dec x (now m) m.start_times;
          reads = suc m.reads;
        })
        x (Dict.get dec x m.add_times)

  unfoldable pub done : DefaultMetrics K → K → DefaultMetrics K
  done m x = elim (Dict.get dec x m.start_times) [
    | none ↦ m
    | some start ↦ record m {
      work_duration = (now m - start) ∷ m.work_duration;
      start_times = Dict.remove dec x m.start_times;
      reads = suc m.reads;
    }
  ]

-- The loop of `updateUnfinishedWork`: total and greatest age, reading the clock for each entry.
pub ages : {K : Type 0} → (ℕ → ℕ) → ℕ → ℕ × ℕ → List (K × ℕ) → ℕ × ℕ
ages clock i acc [] = acc
ages clock i (total, oldest) ((x, start) ∷ rest) =
    let age = clock i - start in
    ages clock (suc i) (total + age, if ltb oldest age then age else oldest) rest

pub update_unfinished_work : {K : Type 0} → DefaultMetrics K → DefaultMetrics K
unfolding ages
update_unfinished_work m = record m {
  unfinished = some (ages m.clock m.reads (0, 0) m.start_times);
  reads = m.reads + length m.start_times;
}

-- A method on nil returns at once, and those of `noMetrics` do nothing.
abbrev pub on_default :
    {K : Type 0} → (DefaultMetrics K → DefaultMetrics K) → QueueMetrics K → QueueMetrics K
on_default f no_metrics = no_metrics
on_default f (default_metrics none) = default_metrics none
on_default f (default_metrics (some m)) = default_metrics (some (f m))

abbrev pub queue_metrics : {K : Type 0} → Discrete K → Metrics (QueueMetrics K) K
queue_metrics dec = record {
  on_add = λ m x. on_default (λ d. add dec d x) m;
  on_get = λ m x. on_default (λ d. get dec d x) m;
  on_done = λ m x. on_default (λ d. done dec d x) m;
  update_unfinished_work = on_default update_unfinished_work;
}

abbrev pub fresh_metrics : {K : Type 0} → (ℕ → ℕ) → DefaultMetrics K
fresh_metrics clock = record {
  clock = clock;
  reads = 0;
  incs = 0;
  decs = 0;
  adds = 0;
  latency = [];
  work_duration = [];
  add_times = [];
  start_times = [];
  unfinished = none;
}

-- A provider of metrics: the one that does nothing, or another.
pub data Provider (P : Type 0) : Type 0 where
  noop_metrics_provider : Provider P
  given : P → Provider P

-- `queueMetricsFactory`: the provider, and whether `setProvider` has been called.
pub record Factory (P : Type 0) : Type 0 where
  pub provider : P
  pub is_set : Bool

unfoldable pub set_provider : {P : Type 0} → Factory P → P → Factory P
set_provider f p = if f.is_set then f else record { provider = p; is_set = true }

-- `globalMetricsFactory` at the start.
unfoldable pub global_metrics_factory : {P : Type 0} → Factory (Provider P)
global_metrics_factory = record { provider = noop_metrics_provider; is_set = false }

abbrev is_noop : {P : Type 0} → Provider P → Bool
is_noop noop_metrics_provider = true
is_noop (given p) = false

-- `newQueueMetrics` for the name of a queue.
unfoldable pub new_queue_metrics :
    {P K : Type 0} → Factory (Provider P) → String → (ℕ → ℕ) → QueueMetrics K
new_queue_metrics f name clock =
    if text_eq name "" || is_noop f.provider
    then no_metrics
    else default_metrics (some (fresh_metrics clock))

-- `defaultRetryMetrics`: the counter of retries, behind a pointer that is nil without a name.
unfoldable pub new_retry_metrics : Bool → Option ℕ
new_retry_metrics unnamed = if unnamed then none else some 0

unfoldable pub retry : Option ℕ → Option ℕ
retry none = none
retry (some n) = some (suc n)
