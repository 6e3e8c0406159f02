-- ===== src/Workqueue/WaitingLoop/Progress.antt =====
-- What the waiting loops of pkg/workqueue can do by themselves, whatever the state of the goroutines
-- around them.
use kube_trigger.Base.{
  ℕ, zero, suc, ◌+◌, ◌≤◌, ◌≡◌, ◌≢◌, refl, ◌∙◌, arith, true, false, List, [], ◌∷◌, ltb, Bool-cases,
  inl, inr, ◌⊎◌,
}
use kube_trigger.Workqueue.PriorityQueue.{take_first}
use kube_trigger.Workqueue.PriorityQueue.Removal.{take_first-Removes}
use kube_trigger.Workqueue.WaitingLoop.{
  Host, Phase, starting, draining, returned, expiring, selecting, Loop, is_settled, accept,
  expire_one, Step, begins, ends, expires, settles, wakes, stops, receives, drained, passes, others,
  Reach, here, next,
}
use kube_trigger.Workqueue.WaitingLoop.Keeps.{Keeps}
use kube_trigger.Workqueue.WaitingLoop.Invariant.{IsSound, Step-IsSound}

-- What a host promises of handing an entry over and of taking one from the channel.
pub record Obeys {W K : Type 0} (host : Host W K) : Type 0 where
  pub hand_channel : (w : W) (k : K) (now : ℕ) → host.channel (host.hand w k now) ≡ host.channel w
  pub hand_down : (w : W) (k : K) (now : ℕ) → host.is_down (host.hand w k now) ≡ host.is_down w
  pub set_channel : (c : List (K × ℕ)) (w : W) → host.channel (host.set_channel c w) ≡ c
  pub set_down : (c : List (K × ℕ)) (w : W) → host.is_down (host.set_channel c w) ≡ host.is_down w

-- No goroutine around the loop does anything.
abbrev pub Alone : {W : Type 0} → ℕ → W → W → Type 0
Alone now w v = ⊥

module _ {W K : Type 0} (dec : Discrete K) (host : Host W K) where
  Reach-append :
      (Other : ℕ → W → W → Type 0) (l u v : Loop W K)
      → Reach dec host Other l u
      → Reach dec host Other u v
      → Reach dec host Other l v
  Reach-append Other l u v r here = r
  Reach-append Other l u v r (next {u = m} s step) = next (Reach-append Other l u m r s) step

  Step-Alone :
      (Other : ℕ → W → W → Type 0) (l v : Loop W K)
      → Step dec host Alone l v
      → Step dec host Other l v
  Step-Alone Other l v (begins p d e) = begins p d e
  Step-Alone Other l v (ends p d e) = ends p d e
  Step-Alone Other l v (expires now p o e) = expires now p o e
  Step-Alone Other l v (settles now p o e) = settles now p o e
  Step-Alone Other l v (wakes now p e) = wakes now p e
  Step-Alone Other l v (stops now p d e) = stops now p d e
  Step-Alone Other l v (receives now k t rest p a e) = receives now k t rest p a e
  Step-Alone Other l v (drained p a e) = drained p a e
  Step-Alone Other l v (passes n e) = passes n e
  Step-Alone Other l v (others w o e) = absurd o

  -- What the loop does alone it can do in any company.
  pub Reach-Alone :
      (Other : ℕ → W → W → Type 0) (l v : Loop W K)
      → Reach dec host Alone l v
      → Reach dec host Other l v
  Reach-Alone Other l v here = here
  Reach-Alone Other l v (next {u} r step) =
      next (Reach-Alone Other l u r) (Step-Alone Other u v step)

  abbrev pub Anything : W → Type 0
  Anything w = Unit {0}

  abbrev pub Whatever : W → K → ℕ → Type 0
  Whatever w k t = Unit {0}

  pub keeps : Keeps host Alone Anything Whatever
  keeps = record {
    head_asked = λ w k t rest v at. tt;
    tail_good = λ w k t rest v at. tt;
    tail_asked = λ w rest j s asked. tt;
    hand_good = λ w k t now v asked le. tt;
    hand_asked = λ w k now j s asked. tt;
    other_good = λ w v now other g. tt;
    other_asked = λ w v now j s other asked. tt;
  }

  abbrev pub Sound : Loop W K → Type 0
  Sound = IsSound dec host Alone Anything Whatever keeps

  -- The loop can get to a goal by itself.
  abbrev pub Can : (Loop W K → Type 0) → Loop W K → Type 0
  Can Goal l = (v : Loop W K) × Reach dec host Alone l v × Goal v

  after_step :
      (Goal : Loop W K → Type 0) (l u : Loop W K)
      → Step dec host Alone l u
      → Can Goal u
      → Can Goal l
  after_step Goal l u step (v, r, goal) = (v, Reach-append Alone l u v (next here step) r, goal)

  and_then :
      (Goal Next : Loop W K → Type 0) (l : Loop W K)
      → ((v : Loop W K) → Goal v → Can Next v)
      → Can Goal l
      → Can Next l
  and_then Goal Next l go (u, r, goal) =
      let (v, s, last) = go u goal in (v, Reach-append Alone l u v r s, last)

  step-Sound : (l u : Loop W K) → Sound l → Step dec host Alone l u → Sound u
  step-Sound = Step-IsSound dec host Alone Anything Whatever keeps

  -- Before a round, with nothing in the channel.
  pub record Idle (l : Loop W K) : Type 0 where
    pub sound : Sound l
    pub phase : l.phase ≡ starting
    pub up : host.is_down l.host ≡ false
    pub empty : host.channel l.host ≡ []

  -- In the `select` after a round at a time, with the channel.
  pub record Asleep (now : ℕ) (c : List (K × ℕ)) (l : Loop W K) : Type 0 where
    pub sound : Sound l
    pub phase : l.phase ≡ selecting now
    pub up : host.is_down l.host ≡ false
    pub channel : host.channel l.host ≡ c

  -- In the `select` after a round at the time or later, with nothing in the channel.
  pub record Done (b : ℕ) (l : Loop W K) : Type 0 where
    pub now : ℕ
    pub late : b ≤ now
    pub phase : l.phase ≡ selecting now
    pub empty : host.channel l.host ≡ []

  module _ (laws : Obeys host) where
    accept-kept :
        (l : Loop W K) (k : K) (t : ℕ)
        → ((accept dec host l k t).phase ≡ l.phase)
          × (host.is_down (accept dec host l k t).host ≡ host.is_down l.host)
          × (host.channel (accept dec host l k t).host ≡ host.channel l.host)
    unfolding accept
    accept-kept l k t = elim (Bool-cases (ltb l.time t)) [
      | inl later ↦ rw (accept, later) (refl, refl, refl)
      | inr ready ↦
          rw (accept, ready)
            (refl, laws.hand_down l.host k l.time, laws.hand_channel l.host k l.time)
    ]

    -- The loop takes an entry from the channel, and then goes on.
    receive :
        (k : K) (t : ℕ) (rest : List (K × ℕ)) (l : Loop W K) (now : ℕ)
        → Sound l
        → (l.phase ≡ selecting now) ⊎ (l.phase ≡ draining)
        → host.is_down l.host ≡ false
        → host.channel l.host ≡ (k, t) ∷ rest
        → ((u : Loop W K)
            → Sound u
            → u.phase ≡ draining
            → host.is_down u.host ≡ false
            → host.channel u.host ≡ rest
            → Can Idle u)
        → Can Idle l
    receive k t rest l now sound phase up at go =
        let base : Loop W K = record l { host = host.set_channel rest l.host; phase = draining } in
        let u = accept dec host base k t in
        let step : Step dec host Alone l u = receives now k t rest phase at refl in
        let (same, down, channel) = accept-kept base k t in
        after_step Idle l u step (
          go u (step-Sound l u sound step) same (down ∙ laws.set_down rest l.host ∙ up)
            (channel ∙ laws.set_channel rest l.host))

    drain :
        (c : List (K × ℕ)) (l : Loop W K)
        → Sound l
        → l.phase ≡ draining
        → host.is_down l.host ≡ false
        → host.channel l.host ≡ c
        → Can Idle l
    drain [] l sound phase up at =
        let step : Step dec host Alone l (record l { phase = starting }) = drained phase at refl in
        after_step Idle l (record l { phase = starting }) step
          (
            record l { phase = starting },
            here,
            record {
              sound = step-Sound l (record l { phase = starting }) sound step;
              phase = refl;
              up = up;
              empty = at;
            },
          )
    drain ((k, t) ∷ rest) l sound phase up at =
        receive k t rest l 0 sound (inr phase) up at (drain rest)

    settle :
        (now : ℕ) (c : List (K × ℕ)) (l : Loop W K)
        → Sound l
        → l.phase ≡ expiring now
        → host.is_down l.host ≡ false
        → host.channel l.host ≡ c
        → is_settled now l.waiting l.waiting.queue.size ≡ true
        → Can (Asleep now c) l
    settle now c l sound phase up at over =
        let u : Loop W K = record l { phase = selecting now } in
        let step : Step dec host Alone l u = settles now phase over refl in
        after_step (Asleep now c) l u step (
          u,
          here,
          record { sound = step-Sound l u sound step; phase = refl; up = up; channel = at },
        )

    -- The round ends, since each turn makes the heap smaller.
    expire_all :
        (n now : ℕ) (c : List (K × ℕ)) (l : Loop W K)
        → Sound l
        → l.phase ≡ expiring now
        → l.waiting.queue.size ≡ n
        → host.is_down l.host ≡ false
        → host.channel l.host ≡ c
        → Can (Asleep now c) l
    unfolding is_settled expire_one
    expire_all zero now c l sound phase size up at =
        settle now c l sound phase up at (rw (size) refl)
    expire_all (suc n) now c l sound phase size up at =
        elim (Bool-cases (is_settled now l.waiting l.waiting.queue.size)) [
          | inl over ↦ settle now c l sound phase up at over
          | inr open_ ↦
              let u = expire_one dec host l in
              let step : Step dec host Alone l u = expires now phase open_ refl in
              let k = (take_first dec l.waiting).1 in
              let (_, _, _, smaller) = take_first-Removes dec l.waiting n sound.valid size in
              after_step (Asleep now c) l u step (
                expire_all n now c u (step-Sound l u sound step) phase smaller
                  (laws.hand_down l.host k l.time ∙ up) (laws.hand_channel l.host k l.time ∙ at))
        ]

    begin :
        (l : Loop W K)
        → Sound l
        → l.phase ≡ starting
        → host.is_down l.host ≡ false
        → Can (Asleep l.time (host.channel l.host)) l
    begin l sound phase up =
        let u : Loop W K = record l { phase = expiring l.time } in
        let step : Step dec host Alone l u = begins phase up refl in
        after_step (Asleep l.time (host.channel l.host)) l u step (
          expire_all u.waiting.queue.size l.time (host.channel l.host) u (step-Sound l u sound step)
            refl refl up refl)

    idle : (now : ℕ) (c : List (K × ℕ)) (l : Loop W K) → Asleep now c l → Can Idle l
    idle now [] l a =
        let u : Loop W K = record l { phase = starting } in
        let step : Step dec host Alone l u = wakes now a.phase refl in
        after_step Idle l u step (
          u,
          here,
          record {
            sound = step-Sound l u a.sound step;
            phase = refl;
            up = a.up;
            empty = a.channel;
          },
        )
    idle now ((k, t) ∷ rest) l a =
        receive k t rest l now a.sound (inl a.phase) a.up a.channel (drain rest)

    -- From wherever it is, a loop that has not returned can get to its start with an empty channel.
    idle_anywhere :
        (p : Phase) (l : Loop W K)
        → l.phase ≡ p
        → Sound l
        → p ≢ returned
        → host.is_down l.host ≡ false
        → Can Idle l
    idle_anywhere starting l phase sound going up =
        and_then (Asleep l.time (host.channel l.host)) Idle l (idle l.time (host.channel l.host))
          (begin l sound phase up)
    idle_anywhere draining l phase sound going up =
        drain (host.channel l.host) l sound phase up refl
    idle_anywhere returned l phase sound going up = absurd (going refl)
    idle_anywhere (expiring now) l phase sound going up =
        and_then (Asleep now (host.channel l.host)) Idle l (idle now (host.channel l.host))
          (expire_all l.waiting.queue.size now (host.channel l.host) l sound phase refl up refl)
    idle_anywhere (selecting now) l phase sound going up =
        idle now (host.channel l.host) l
          (record { sound = sound; phase = phase; up = up; channel = refl })

    round : (b : ℕ) (l : Loop W K) → Idle l → Can (Done b) l
    round b l i =
        let u : Loop W K = record l { time = l.time + b } in
        let step : Step dec host Alone l u = passes b refl in
        and_then (Asleep u.time (host.channel u.host)) (Done b) l
          (λ v a. (
            v,
            here,
            record {
              now = u.time;
              late = omega arith;
              phase = a.phase;
              empty = a.channel ∙ i.empty;
            },
          ))
          (after_step (Asleep u.time (host.channel u.host)) l u step
            (begin u (step-Sound l u i.sound step) i.phase i.up))

    -- A loop that has not returned, and whose queue is not shut down, can get by itself to its
    -- `select` with an empty channel, after a round at a time as late as one likes.
    pub can_finish :
        (b : ℕ) (l : Loop W K)
        → Sound l
        → l.phase ≢ returned
        → host.is_down l.host ≡ false
        → Can (Done b) l
    can_finish b l sound going up =
        and_then Idle (Done b) l (round b) (idle_anywhere l.phase l refl sound going up)
