-- ===== src/Cmd/Sources.antt =====
-- Which sources pkg/cmd/cmd.go runs for the triggers of a configuration.
use kube_trigger.Base.{
  ◌≡◌, ◌∙◌, Option, none, some, List, [], ◌∷◌, ◌++◌, arith, Option-cases, inl, inr,
}
use kube_trigger.Base.Dict
use kube_trigger.Base.Dict.{get-put, get-put_self}
use kube_trigger.Base.Text.{String-discrete}
use kube_trigger.Source.Watcher.{ok}
use kube_trigger.Source.CronJob.{format_schedule}
use kube_trigger.Source.CronJob
use kube_trigger.Source.Registry.{Registry, resource_watcher, cron_job}
use kube_trigger.Source.Registry
use kube_trigger.Config.{Trigger}
use kube_trigger.Cmd.{
  Instance, Instances, Parsers, ticking, init, choose, store, load_trigger, load_triggers,
}

module _ {P S H : Type 0} (parsers : Parsers P S) (reg : Registry) where
  load_triggers-append :
      (ts us : List (Trigger P × H)) (m n : Instances S H)
      → load_triggers parsers reg m ts ≡ some n
      → load_triggers parsers reg m (ts ++ us) ≡ load_triggers parsers reg n us
  unfolding load_triggers
  load_triggers-append [] us m n h = ground arith
  load_triggers-append ((t, eh) ∷ ts) us m n h =
      elim (Option-cases (load_trigger parsers reg m t eh)) [
        | inl broken ↦ absurd (ground arith)
        | inr (m', done) ↦ rw (done, load_triggers) (load_triggers-append ts us m' n (ground arith))
      ]

  cron_init :
      (o : Option (Instance S H)) (p : P) (eh : H) (c : CronJob.Config) (s : S)
      → parsers.cron_config p ≡ some c
      → parsers.schedule (format_schedule c) ≡ some s
      → init parsers (choose cron_job o) p eh
        ≡ ok (ticking (record { config = some c; scheduled = (s, eh) ∷ [] }))
  unfolding init choose CronJob.init
  cron_init none p eh c s parsed timed = rw (parsed, CronJob.init, timed)
  cron_init (some i) p eh c s parsed timed = rw (parsed, CronJob.init, timed)

  load_trigger-cron_job :
      (m : Instances S H) (t : Trigger P) (eh : H) (c : CronJob.Config) (s : S)
      → Registry.get reg t.source_type ≡ some cron_job
      → parsers.cron_config t.source_properties ≡ some c
      → parsers.schedule (format_schedule c) ≡ some s
      → load_trigger parsers reg m t eh
        ≡ some (
            Dict.put String-discrete t.source_type
              (ticking (record { config = some c; scheduled = (s, eh) ∷ [] }))
              m)
  unfolding load_trigger store
  load_trigger-cron_job m t eh c s registered parsed timed = rw (
    registered,
    load_trigger,
    cron_init (Dict.get String-discrete t.source_type m) t.source_properties eh c s parsed timed,
  )

  -- Of the triggers whose source is a cron job, only the last one is run: whatever triggers come
  -- before it, after a trigger with a cron job, good properties and a good schedule the one instance
  -- of the type has the schedule and the handler of that trigger, and no other.
  pub load_triggers-cron_job :
      (ts : List (Trigger P × H)) (t : Trigger P) (eh : H) (c : CronJob.Config) (s : S)
      (m n : Instances S H)
      → Registry.get reg t.source_type ≡ some cron_job
      → parsers.cron_config t.source_properties ≡ some c
      → parsers.schedule (format_schedule c) ≡ some s
      → load_triggers parsers reg m ts ≡ some n
      → (r : Instances S H) × (load_triggers parsers reg m (ts ++ (t, eh) ∷ []) ≡ some r)
        × (Dict.get String-discrete t.source_type r
            ≡ some (ticking (record { config = some c; scheduled = (s, eh) ∷ [] })))
  unfolding load_triggers
  load_triggers-cron_job ts t eh c s m n registered parsed timed before =
      let job = ticking (record { config = some c; scheduled = (s, eh) ∷ [] }) in
      (
        Dict.put String-discrete t.source_type job n,
        load_triggers-append ts ((t, eh) ∷ []) m n before
            ∙ rw (load_trigger-cron_job n t eh c s registered parsed timed, load_triggers),
        get-put_self String-discrete t.source_type job n,
      )
