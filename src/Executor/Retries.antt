-- ===== src/Executor/Retries.antt =====
-- How often failed jobs are retried in pkg/executor/executor.go.
use kube_trigger.Base.{ℕ, zero, suc, ◌==◌, ◌≢◌, if◌then◌else◌, some, ◌≡◌, Bool, true, ◌⊎◌}
use kube_trigger.Base.Int.{pos}
use kube_trigger.Executor.{
  Executor, Jobs, JobQueue, CtxErr, active, deadline_exceeded, push_job, skips, pick, start, finish,
}

-- How often a job has been retried after so many failures in a row: up to the limit, then it is given
-- up, and counted anew.
unfoldable pub retries_after : ℕ → ℕ → ℕ
retries_after limit zero = 0
retries_after limit (suc n) = let r = retries_after limit n in if r == limit then 0 else suc r

module _ {Q J I : Type 0} (dec : Discrete I) (jobs : Jobs J I) (ops : JobQueue Q J) where
  -- A run that failed, or was cut off by the timeout.
  abbrev pub Fails : Bool → CtxErr → Type 0
  Fails failed ctx = ((failed ≡ true) × (ctx ≡ active)) ⊎ (ctx ≡ deadline_exceeded)

  -- From one executor to another, by what callers of `AddJob` and any number of workers do: runs of the
  -- job `k` fail, as often as the number says, and none succeeds or is skipped; all else may happen.
  pub data FailsTimes (k : J) (e : Executor Q I) : ℕ → Executor Q I → Type 0 where
    here : FailsTimes k e 0 e
    fails :
        {n : ℕ} {u : Executor Q I} (failed : Bool) (ctx : CtxErr)
        → FailsTimes k e n u
        → Fails failed ctx
        → FailsTimes k e (suc n) (finish dec jobs ops u k failed ctx).0
    finishes :
        {n : ℕ} {u : Executor Q I} (j : J) (failed : Bool) (ctx : CtxErr)
        → FailsTimes k e n u
        → ¬ (k ≡ j)
        → FailsTimes k e n (finish dec jobs ops u j failed ctx).0
    takes :
        {n : ℕ} {u : Executor Q I} (ctx : CtxErr)
        → FailsTimes k e n u
        → (pick dec jobs ops u ctx).1 ≢ skips
        → FailsTimes k e n (pick dec jobs ops u ctx).0
    skips_other :
        {n : ℕ} {u : Executor Q I} (j : J)
        → FailsTimes k e n u
        → (ops.get u.queue).1 ≡ some j
        → ¬ (k ≡ j)
        → FailsTimes k e n (pick dec jobs ops u active).0
    starts :
        {n : ℕ} {u : Executor Q I} (j : J)
        → FailsTimes k e n u
        → FailsTimes k e n (start dec jobs u j)
    adds :
        {n : ℕ} {u : Executor Q I} (j : J)
        → FailsTimes k e n u
        → FailsTimes k e n (push_job ops u j)

  -- The settings are those of before.
  abbrev SameSettings : Executor Q I → Executor Q I → Type 0
  SameSettings e v = (v.max_retries ≡ e.max_retries) × (v.allow_retries ≡ e.allow_retries)

  -- The settings, and the count of a job.
  abbrev Keeps : J → Executor Q I → Executor Q I → Type 0
  Keeps k e v = SameSettings e v × (ops.num_requeues v.queue k ≡ ops.num_requeues e.queue k)

  -- The executor retries, with a limit, and has counted so many retries of the job.
  abbrev Counted : J → ℕ → Executor Q I → ℕ → Type 0
  Counted k limit e r =
      (e.max_retries ≡ pos limit) × (e.allow_retries ≡ true) × (ops.num_requeues e.queue k ≡ r)
