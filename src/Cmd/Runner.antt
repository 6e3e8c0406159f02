-- ===== src/Cmd/Runner.antt =====
-- The struct `Runner` of pkg/cmd/cmd.go and `runCli`, which waits for it: leader election of client-go
-- calls back when the process starts and stops to lead.
mod Tests
use kube_trigger.Base.{
  In, ℕ, zero, suc, ◌+◌, ◌≡◌, ◌⊎◌, sym, ap, ◌∙◌, Bool, true, false, Option, none, some, List, [],
  ◌∷◌, ◌++◌, if◌then◌else◌,
}

-- What is sent to `errChan`; `E` are the errors that `run` returns.
pub data Failure (E : Type 0) : Type 0 where
  of_run : E → Failure E
  leader_election_lost : Failure E

-- `once` tells whether the `sync.Once` has run; `senders` are the goroutines that wait to send to
-- `errChan`, which has no buffer; `running` counts the goroutines in `start`. `result` is what `runCli`
-- has returned, if it has. `started` counts the calls of `start`, `returned` has its errors, and `lost`
-- tells whether the elector has called back because the process no longer leads: no code reads these.
pub record Runner (E : Type 0) : Type 0 where
  pub once : Bool
  pub senders : List (Failure E)
  pub running : ℕ
  pub result : Option (Option (Failure E))
  pub started : ℕ
  pub returned : List E
  pub lost : Bool

module _ {E : Type 0} where
  unfoldable pub new_runner : Runner E
  new_runner = record {
    once = false;
    senders = [];
    running = 0;
    result = none;
    started = 0;
    returned = [];
    lost = false;
  }

  -- A call of `r.start`.
  unfoldable pub begin : Runner E → Runner E
  begin r = record r { running = suc r.running; started = suc r.started }

  -- `Start`, when the lock and the elector can be made: `elects` is `enableLeaderElection`.
  unfoldable pub start : Bool → Runner E → Runner E
  unfolding begin
  start elects r = if elects then r else begin r

  unfoldable pub on_started_leading : Runner E → Runner E
  unfolding begin
  on_started_leading r = if r.once then r else record (begin r) { once = true }

  unfoldable pub on_stopped_leading : Runner E → Runner E
  on_stopped_leading r = record r { senders = r.senders ++ leader_election_lost ∷ [] }

  -- A call of `r.start` returns.
  unfoldable pub end_run : Option E → ℕ → Runner E → Runner E
  end_run none n r = record r { running = n }
  end_run (some e) n r = record r {
    running = n;
    senders = r.senders ++ of_run e ∷ [];
    returned = e ∷ r.returned;
  }

  -- The goroutines and the `select` of `runCli`.
  pub data Step (elects : Bool) (r v : Runner E) : Type 0 where
    leads : elects ≡ true → v ≡ on_started_leading r → Step elects r v
    loses : elects ≡ true → v ≡ on_stopped_leading (record r { lost = true }) → Step elects r v
    run_ends : (e : Option E) (n : ℕ) → r.running ≡ suc n → v ≡ end_run e n r → Step elects r v
    receives :
        (before after : List (Failure E)) (f : Failure E)
        → r.result ≡ none
        → r.senders ≡ before ++ f ∷ after
        → v ≡ record r { senders = before ++ after; result = some (some f) }
        → Step elects r v
    -- The context is cancelled, or a signal comes.
    stops : r.result ≡ none → v ≡ record r { result = some none } → Step elects r v

  pub data Reach (elects : Bool) (r : Runner E) : Runner E → Type 0 where
    here : Reach elects r r
    next : {u v : Runner E} → Reach elects r u → Step elects u v → Reach elects r v

  -- A failure that has happened: `run` has returned the error, or the process has stopped to lead.
  abbrev pub Happened : Bool → List E → Failure E → Type 0
  Happened lost errs (of_run e) = In e errs
  Happened lost errs leader_election_lost = lost ≡ true

  abbrev AllHappened : Bool → List E → List (Failure E) → Type 0
  AllHappened elects errs [] = Unit {0}
  AllHappened elects errs (f ∷ fs) = Happened elects errs f × AllHappened elects errs fs

  record IsSound (elects : Bool) (r : Runner E) : Type 0 where
    pub led : elects ≡ true → r.started ≡ (if r.once then 1 else 0)
    pub alone : elects ≡ false → r.started ≡ 1
    pub sent : AllHappened r.lost r.returned r.senders
    pub election : r.lost ≡ true → elects ≡ true
    pub told : (f : Failure E) → r.result ≡ some (some f) → Happened r.lost r.returned f
