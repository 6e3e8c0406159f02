-- ===== src/Workqueue/WaitingLoop/Keeps.antt =====
-- What the goroutines around the waiting loops of pkg/workqueue have to keep.
use kube_trigger.Base.{ℕ, ◌≤◌, ◌≡◌, List, ◌∷◌}
use kube_trigger.Workqueue.WaitingLoop.{Host}

module _ {W K : Type 0} (host : Host W K) where
  -- What the goroutines around the loop have to keep: `Good` of what they share, and what `Asked`
  -- says of the keys and times on their way.
  pub record Keeps (Other : ℕ → W → W → Type 0) (Good : W → Type 0) (Asked : W → K → ℕ → Type 0)
      : Type 0 where
    pub head_asked :
        (w : W) (k : K) (t : ℕ) (rest : List (K × ℕ))
        → Good w
        → host.channel w ≡ (k, t) ∷ rest
        → Asked w k t
    pub tail_good :
        (w : W) (k : K) (t : ℕ) (rest : List (K × ℕ))
        → Good w
        → host.channel w ≡ (k, t) ∷ rest
        → Good (host.set_channel rest w)
    pub tail_asked :
        (w : W) (rest : List (K × ℕ)) (j : K) (s : ℕ)
        → Asked w j s
        → Asked (host.set_channel rest w) j s
    pub hand_good :
        (w : W) (k : K) (t now : ℕ) → Good w → Asked w k t → t ≤ now → Good (host.hand w k now)
    pub hand_asked :
        (w : W) (k : K) (now : ℕ) (j : K) (s : ℕ) → Asked w j s → Asked (host.hand w k now) j s
    pub other_good : (w v : W) (now : ℕ) → Other now w v → Good w → Good v
    pub other_asked :
        (w v : W) (now : ℕ) (j : K) (s : ℕ) → Other now w v → Asked w j s → Asked v j s
