-- ===== src/Workqueue/Indexer.antt =====
-- pkg/workqueue/indexer_delaying_queue.go: a queue of keys with delays, which keeps for each key the
-- last item that was added. Times are in nanoseconds since an epoch. Of the
-- goroutine `waitingLoop`, which is in Workqueue/WaitingLoop, the queue sees only calls of `push`.
pub mod Invariant
pub mod Run
pub mod Stranded
pub mod Late
pub mod Lost
mod Tests
use kube_trigger.Base.{
  ℕ, suc, ◌+◌, ◌-◌, ◌≡◌, Bool, true, false, not, ◌&&◌, ◌||◌, Option, none, some, List, [], ◌∷◌,
  ◌++◌, ltb, leb, ◌==◌, if◌then◌else◌, length, has,
}
use kube_trigger.Base.Dict
use kube_trigger.Base.Int.{ℤ, pos, negsuc}
use kube_trigger.Workqueue.Items.{insert, delete}
use kube_trigger.Workqueue.Queue.{Metrics, Notify, silent, signal}

-- `waitEntry`: an entry has one owner, the table of prepared or that of processed entries.
pub record Entry (X : Type 0) : Type 0 where
  pub payload : X
  pub ready_at : ℕ

-- `stopped` tells whether `stopOnce` has run, so that `stopCh` is closed; `waiting_for_add` is the
-- buffer of the channel of that name.
pub record Indexer (M K X : Type 0) : Type 0 where
  pub queue : List K
  pub dirty : List K
  pub known : List (K × Entry X)
  pub processing : List (K × Entry X)
  pub shutting_down : Bool
  pub drain : Bool
  pub stopped : Bool
  pub waiting_for_add : List (K × ℕ)
  pub metrics : M

-- The item's own key and order: `keyFunc`, with `none` for its error, and `LessOrEqual`, with `none`
-- where the first item does not implement `Compared`.
pub record Keyed (K X : Type 0) : Type 0 where
  pub key_func : X → Option K
  pub less_or_equal : X → X → Option Bool

abbrev pub queue_item_cap : ℕ
queue_item_cap = 128

abbrev pub channel_cap : ℕ
channel_cap = 1000

-- A time before the epoch is cut off at it.
abbrev pub add_duration : ℕ → ℤ → ℕ
add_duration t (pos d) = t + d
add_duration t (negsuc d) = t - suc d

abbrev pub known_in : {V : Type 0} → Option V → Bool
known_in none = false
known_in (some v) = true

-- What is left to do after the locked part of `AddAfter`.
pub data Pending (K : Type 0) : Type 0 where
  nothing : Pending K
  send : K → ℕ → Pending K

pub data Got (X : Type 0) : Type 0 where
  wait closed nil_dereference : Got X
  item : X → Got X

unfoldable pub new_indexer : {M K X : Type 0} → M → Indexer M K X
new_indexer m = record {
  queue = [];
  dirty = [];
  known = [];
  processing = [];
  shutting_down = false;
  drain = false;
  stopped = false;
  waiting_for_add = [];
  metrics = m;
}

module _ {K X : Type 0} (keyed : Keyed K X) where
  -- The entry of a key that is prepared already, when the item is added once more.
  unfoldable pub renew : Entry X → X → ℕ → Entry X
  renew w x read_at = record {
    payload = elim (keyed.less_or_equal w.payload x) [
      | none ↦ w.payload
      | some b ↦ if b then x else w.payload
    ];
    ready_at = if ltb read_at w.ready_at then read_at else w.ready_at;
  }

  -- Whether an item being processed is newer than the one added, which is dropped then.
  unfoldable pub outdated : Option (Entry X) → X → Bool
  outdated none x = false
  outdated (some p) x = elim (keyed.less_or_equal p.payload x) [ none ↦ false | some b ↦ not b ]

module _ {M K X : Type 0} (dec : Discrete K) where
  -- Without an entry the goroutine panics, and the state after that is left open.
  unfoldable pub take_entry : Indexer M K X → K → List K → Option (Entry X) → Indexer M K X × Got X
  take_entry q k rest none = (q, nil_dereference)
  take_entry q k rest (some e) = (
    record q {
      queue = rest;
      processing = Dict.put dec k e q.processing;
      dirty = delete dec k q.dirty;
      known = Dict.remove dec k q.known;
    },
    item e.payload,
  )

  unfoldable pub take_head : Indexer M K X → List K → Indexer M K X × Got X
  take_head q [] = (q, if q.shutting_down then closed else wait)
  take_head q (k ∷ rest) = take_entry q k rest (Dict.get dec k q.known)

  -- One round of the loop of `Get`.
  unfoldable pub get : Indexer M K X → Indexer M K X × Got X
  get q = take_head q q.queue

module _ {M K X : Type 0} where
  -- `shouldAdd`: whether the caller of `Add` need not wait.
  unfoldable pub should_add : Indexer M K X → Bool
  should_add q = ltb (length q.known + length q.processing) queue_item_cap || q.shutting_down

module _ {M K X : Type 0} (dec : Discrete K) (ops : Metrics M K) where
  -- `push`, at the time that its call of the clock gives.
  unfoldable pub push : Indexer M K X → K → ℕ → Indexer M K X × Notify
  push q k now = if q.shutting_down then (q, silent) else elim (Dict.get dec k q.known) [
    | none ↦ (q, silent)
    | some w ↦
        if ltb now w.ready_at
        then (q, silent)
        else if has dec k q.dirty
        then (q, silent)
        else if known_in (Dict.get dec k q.processing)
        then (record q { metrics = ops.on_add q.metrics k; dirty = insert dec k q.dirty }, silent)
        else (
          record q {
            metrics = ops.on_add q.metrics k;
            dirty = insert dec k q.dirty;
            queue = q.queue ++ k ∷ [];
          },
          signal,
        )
  ]

  unfoldable pub finish : Indexer M K X → K → Indexer M K X
  finish q k =
      if has dec k q.dirty
      then record q {
        metrics = ops.on_done q.metrics k;
        processing = Dict.remove dec k q.processing;
        queue = q.queue ++ k ∷ [];
      }
      else record q {
        metrics = ops.on_done q.metrics k;
        processing = Dict.remove dec k q.processing;
      }

module _ {M K X : Type 0} (dec : Discrete K) (ops : Metrics M K) (keyed : Keyed K X) where
  -- The function literal of `AddAfter`, which holds the lock; the Boolean is `needPush`.
  unfoldable pub register : Indexer M K X → K → X → ℕ → Indexer M K X × Bool
  register q k x read_at = if q.shutting_down then (q, false) else elim (Dict.get dec k q.known) [
    | some w ↦ (
      record q { known = Dict.put dec k (renew keyed w x read_at) q.known },
      ltb read_at w.ready_at,
    )
    | none ↦ if outdated keyed (Dict.get dec k q.processing) x then (q, false) else (
      record q {
        known = Dict.put dec k (record { payload = x; ready_at = read_at }) q.known;
        metrics = ops.on_add q.metrics k;
      },
      true,
    )
  ]

  -- The end of `AddAfter`: the key is pushed at once if its time is past at the second reading of the
  -- clock (`later` is the reading in `push`), and otherwise has to be sent to the waiting loop.
  unfoldable pub dispatch : Indexer M K X × Bool → K → ℕ → ℕ → ℕ → Indexer M K X × Pending K
  dispatch (q, need) k read_at now later =
      if need
      then if ltb read_at now then ((push dec ops q k later).0, nothing) else (q, send k read_at)
      else (q, nothing)

  -- `AddAfter`, with the three readings of the clock that it can take.
  unfoldable pub add_after : Indexer M K X → X → ℤ → ℕ × ℕ × ℕ → Indexer M K X × Pending K
  add_after q x delay (start, now, later) = elim (keyed.key_func x) [
    | none ↦ (q, nothing)
    | some k ↦
        let read_at = add_duration start delay in
        dispatch (register q k x read_at) k read_at now later
  ]

  unfoldable pub add : Indexer M K X → X → ℕ × ℕ × ℕ → Option (Indexer M K X × Pending K)
  add q x times = if should_add q then some (add_after q x (pos 0) times) else none

  unfoldable pub done : Indexer M K X → X → Indexer M K X
  done q x = elim (keyed.key_func x) [ none ↦ q | some k ↦ finish dec ops q k ]

module _ {M K X : Type 0} where
  unfoldable pub length_of : Indexer M K X → ℕ
  length_of q = length q.known + length q.processing

  unfoldable pub set_drain : Indexer M K X → Bool → Indexer M K X
  set_drain q b = record q { drain = b }

  unfoldable pub shutdown : Indexer M K X → Indexer M K X
  shutdown q = record q { shutting_down = true }

  -- The first call of either shutdown runs under `stopOnce`; every later one changes nothing.
  unfoldable pub shut_down : Indexer M K X → Indexer M K X
  shut_down q = if q.stopped then q else record (shutdown q) { stopped = true }

  unfoldable pub start_drain : Indexer M K X → Indexer M K X
  start_drain q = if q.stopped then q else record (shutdown (set_drain q true)) { stopped = true }

  unfoldable pub is_processing : Indexer M K X → Bool
  is_processing q = not (length q.processing == 0)

  unfoldable pub should_drain : Indexer M K X → Bool
  should_drain q = q.drain

  unfoldable pub is_shutting_down : Indexer M K X → Bool
  is_shutting_down q = q.shutting_down

  -- `waitForProcessing`: whether the goroutine sleeps.
  unfoldable pub wait_for_processing : Indexer M K X → Bool
  wait_for_processing q = if length q.processing == 0 then false else true

  -- The test of the loop of `ShutDownWithDrain`.
  unfoldable pub must_drain : Indexer M K X → Bool
  unfolding is_processing should_drain
  must_drain q = is_processing q && should_drain q

  -- `pushDelayQueue`: either case of its `select` that can go on may be taken.
  pub data Sends (q : Indexer M K X) (k : K) (ready_at : ℕ) (r : Indexer M K X) : Type 0 where
    stops : q.stopped ≡ true → r ≡ q → Sends q k ready_at r
    queues :
        ltb (length q.waiting_for_add) channel_cap ≡ true
        → r ≡ record q { waiting_for_add = q.waiting_for_add ++ (k, ready_at) ∷ [] }
        → Sends q k ready_at r
