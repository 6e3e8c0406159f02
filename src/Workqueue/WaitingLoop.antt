-- ===== src/Workqueue/WaitingLoop.antt =====
-- `waitingLoop`, which pkg/workqueue/delaying_queue.go and pkg/workqueue/indexer_delaying_queue.go
-- both have: the goroutine that holds entries until they are ready.
pub mod Expiry
pub mod Keeps
pub mod Progress
pub mod Invariant
use kube_trigger.Base.{
  ℕ, zero, suc, ◌+◌, ◌≡◌, ◌⊎◌, Bool, true, false, List, [], ◌∷◌, ltb, if◌then◌else◌,
}
use kube_trigger.Workqueue.PriorityQueue.{
  PriorityQueue, Waiting, key, peek, insert, take_first, new_waiting,
}

-- What the loop uses of its queue: `ShuttingDown`, whether `stopCh` is closed, the buffer of the
-- channel `waitingForAddCh`, and `Add` or `push`, which gets the time at which it is called.
pub record Host (W K : Type 0) : Type 0 where
  pub is_down : W → Bool
  pub is_stopped : W → Bool
  pub channel : W → List (K × ℕ)
  pub set_channel : List (K × ℕ) → W → W
  pub hand : W → K → ℕ → W

-- Where the goroutine is: before a round, in the loop that adds ready entries with the value of
-- `now`, in the `select`, in the loop that drains the channel, or at its end.
pub data Phase : Type 0 where
  starting draining returned : Phase
  expiring selecting : (now : ℕ) → Phase

-- `host` is what all goroutines share, `time` what a reading of the clock gives.
pub record Loop (W K : Type 0) : Type 0 where
  pub host : W
  pub waiting : Waiting K
  pub phase : Phase
  pub time : ℕ

unfoldable pub new_loop : {W K : Type 0} → K → W → Loop W K
new_loop nil w = record { host = w; waiting = new_waiting nil; phase = starting; time = 0 }

-- Whether the loop that adds ready entries stops at the heap.
unfoldable pub is_settled : {K : Type 0} → ℕ → Waiting K → ℕ → Bool
is_settled now w zero = true
is_settled now w (suc n) = ltb now (w.queue.ready_at (peek w.queue))

module _ {K : Type 0} (dec : Discrete K) where
  -- The loop that adds ready entries, without interruption, to the keys that it hands over. The first argument is fuel.
  unfoldable pub expire : ℕ → ℕ → Waiting K → Waiting K × List K
  expire zero now w = (w, [])
  expire (suc f) now w =
      let r = take_first dec w in
      let rest = expire f now r.0 in
      if is_settled now w w.queue.size then (w, []) else (rest.0, r.1 ∷ rest.1)

module _ {W K : Type 0} (dec : Discrete K) (host : Host W K) where
  -- What is done with an entry from the channel.
  unfoldable pub accept : Loop W K → K → ℕ → Loop W K
  accept l k t =
      if ltb l.time t
      then record l { waiting = insert dec l.waiting k t }
      else record l { host = host.hand l.host k l.time }

  -- One turn of the loop that adds ready entries.
  unfoldable pub expire_one : Loop W K → Loop W K
  expire_one l =
      let r = take_first dec l.waiting in
      record l { waiting = r.0; host = host.hand l.host r.1 l.time }

  -- One step of the loop, or of the goroutines around it: those change what is shared as `Other` says
  -- for the time, and time passes.
  pub data Step (Other : ℕ → W → W → Type 0) (l v : Loop W K) : Type 0 where
    begins :
        l.phase ≡ starting
        → host.is_down l.host ≡ false
        → v ≡ record l { phase = expiring l.time }
        → Step Other l v
    ends :
        l.phase ≡ starting
        → host.is_down l.host ≡ true
        → v ≡ record l { phase = returned }
        → Step Other l v
    expires :
        (now : ℕ)
        → l.phase ≡ expiring now
        → is_settled now l.waiting l.waiting.queue.size ≡ false
        → v ≡ expire_one l
        → Step Other l v
    settles :
        (now : ℕ)
        → l.phase ≡ expiring now
        → is_settled now l.waiting l.waiting.queue.size ≡ true
        → v ≡ record l { phase = selecting now }
        → Step Other l v
    -- The heartbeat or the timer.
    wakes : (now : ℕ) → l.phase ≡ selecting now → v ≡ record l { phase = starting } → Step Other l v
    stops :
        (now : ℕ)
        → l.phase ≡ selecting now
        → host.is_stopped l.host ≡ true
        → v ≡ record l { phase = returned }
        → Step Other l v
    receives :
        (now : ℕ) (k : K) (t : ℕ) (rest : List (K × ℕ))
        → (l.phase ≡ selecting now) ⊎ (l.phase ≡ draining)
        → host.channel l.host ≡ (k, t) ∷ rest
        → v ≡ accept (record l { host = host.set_channel rest l.host; phase = draining }) k t
        → Step Other l v
    drained :
        l.phase ≡ draining
        → host.channel l.host ≡ []
        → v ≡ record l { phase = starting }
        → Step Other l v
    passes : (n : ℕ) → v ≡ record l { time = l.time + n } → Step Other l v
    others : (w : W) → Other l.time l.host w → v ≡ record l { host = w } → Step Other l v

  pub data Reach (Other : ℕ → W → W → Type 0) (l : Loop W K) : Loop W K → Type 0 where
    here : Reach Other l l
    next : {u v : Loop W K} → Reach Other l u → Step Other u v → Reach Other l v
