-- ===== src/Executor/Race.antt =====
-- Workers of pkg/executor/executor.go side by side: `runJob` tests the mark of a running job and sets
-- it in two steps.
use kube_trigger.Base.{
  if◌then◌else◌, ◌≡◌, refl, sym, ap, ◌∙◌, Bool, false, some, List, [], ◌∷◌, ◌++◌, arith, has,
}
use kube_trigger.Executor.{
  Executor, Jobs, JobQueue, CtxErr, active, skips, exits, checked, pick, check, start, finish,
  get_job_status,
}

-- Where a worker is in `runJob`.
pub data Phase (J : Type 0) : Type 0 where
  free : Phase J
  has_checked : J → Phase J
  runs : J → Phase J
  ended : Phase J

pub record Workers (Q J I : Type 0) : Type 0 where
  pub executor : Executor Q I
  pub phases : List (Phase J)

module _ {Q J I : Type 0} (dec : Discrete I) (jobs : Jobs J I) (ops : JobQueue Q J) where
  -- One worker moves on, those before and after it in the list stay.
  pub data Step (w v : Workers Q J I) : Type 0 where
    picks :
        (before after : List (Phase J)) (ctx : CtxErr) (j : J)
        → w.phases ≡ before ++ free ∷ after
        → (pick dec jobs ops w.executor ctx).1 ≡ checked j
        → v ≡ record {
          executor = (pick dec jobs ops w.executor ctx).0;
          phases = before ++ has_checked j ∷ after;
        }
        → Step w v
    skipped :
        (before after : List (Phase J)) (ctx : CtxErr)
        → w.phases ≡ before ++ free ∷ after
        → (pick dec jobs ops w.executor ctx).1 ≡ skips
        → v ≡ record w { executor = (pick dec jobs ops w.executor ctx).0 }
        → Step w v
    -- The context is done, or the queue has been shut down.
    quits :
        (before after : List (Phase J)) (ctx : CtxErr)
        → w.phases ≡ before ++ free ∷ after
        → (pick dec jobs ops w.executor ctx).1 ≡ exits
        → v ≡ record {
          executor = (pick dec jobs ops w.executor ctx).0;
          phases = before ++ ended ∷ after;
        }
        → Step w v
    starts :
        (before after : List (Phase J)) (j : J)
        → w.phases ≡ before ++ has_checked j ∷ after
        → v ≡ record { executor = start dec jobs w.executor j; phases = before ++ runs j ∷ after }
        → Step w v
    finishes :
        (before after : List (Phase J)) (j : J) (failed : Bool) (ctx : CtxErr)
        → w.phases ≡ before ++ runs j ∷ after
        → v ≡ record {
          executor = (finish dec jobs ops w.executor j failed ctx).0;
          phases =
              before
              ++ (if (finish dec jobs ops w.executor j failed ctx).1 then free else ended) ∷ after;
        }
        → Step w v

  pub data Reach (w : Workers Q J I) : Workers Q J I → Type 0 where
    here : Reach w w
    next : {u v : Workers Q J I} → Reach w u → Step u v → Reach w v

  pick-checked :
      (e : Executor Q I) (j : J)
      → (ops.get e.queue).1 ≡ some j
      → jobs.is_nil j ≡ false
      → get_job_status dec jobs e j ≡ false
      → pick dec jobs ops e active ≡ (record e { queue = (ops.get e.queue).0 }, checked j)
  unfolding pick check get_job_status
  pick-checked e j got real idle = rw (got, pick, real, idle) (ground arith)

  abbrev pub after_gets : Executor Q I → Executor Q I
  after_gets e = record e { queue = (ops.get (ops.get e.queue).0).0 }

  -- Two workers can run the same job at once: if the queue hands out two jobs with one identifier,
  -- neither nil and none of that identifier running, then two free workers can both get to run them,
  -- whatever the jobs say of concurrency.
  pub both_run :
      (e : Executor Q I) (i j : J)
      → (ops.get e.queue).1 ≡ some i
      → (ops.get (ops.get e.queue).0).1 ≡ some j
      → jobs.is_nil i ≡ false
      → jobs.is_nil j ≡ false
      → jobs.id i ≡ jobs.id j
      → get_job_status dec jobs e i ≡ false
      → Reach
          (record { executor = e; phases = free ∷ free ∷ [] })
          (record {
            executor = start dec jobs (start dec jobs (after_gets e) i) j;
            phases = runs i ∷ runs j ∷ [];
          })
  unfolding get_job_status
  both_run e i j got_i got_j real_i real_j same idle =
      let idle_j : get_job_status dec jobs e j ≡ false =
        ap (λ k. has dec k e.running_jobs) (sym same) ∙ idle in
      let e' = record e { queue = (ops.get e.queue).0 } in
      let first = pick-checked e i got_i real_i idle in
      let second = pick-checked e' j got_j real_j idle_j in
      next
        (next
          (next
            (next here (
              picks [] (free ∷ []) active i refl (ap (λ p. p.1) first)
                (λ k. record { executor = (sym first k).0; phases = has_checked i ∷ free ∷ [] })))
            (picks (has_checked i ∷ []) [] active j refl (ap (λ p. p.1) second) (λ k. record {
              executor = (sym second k).0;
              phases = has_checked i ∷ has_checked j ∷ [];
            })))
          (starts [] (has_checked j ∷ []) i refl refl))
        (starts (runs i ∷ []) [] j refl refl)
