-- ===== src/Cmd/Run.antt =====
-- `run` of pkg/cmd/cmd.go: from the options to the sources that run and the executor whose workers run.
use Prim.Native.String.{String}
use kube_trigger.Base.{◌≡◌, ◌≢◌, Bool, false, not, Option, none, some, List, [], ◌∷◌, if◌then◌else◌}
use kube_trigger.Base.Dict
use kube_trigger.Base.Text.{String-discrete}
use kube_trigger.Base.Int.{ℤ}
use kube_trigger.Executor.{Executor}
use kube_trigger.Executor
use kube_trigger.Source.Watcher.{Started}
use kube_trigger.Source.Watcher.Clusters.{Access}
use kube_trigger.Source.Watcher
use kube_trigger.Source.CronJob
use kube_trigger.Source.Registry.{Registry, new_with_builtin_sources}
use kube_trigger.Source.Registry
use kube_trigger.Config.{
  Trigger, ConfigError, ReadError, Read, ok, err, Files, new_from_file_or_dir,
}
use kube_trigger.Config
use kube_trigger.Config.Loading.{AllKnown}
use kube_trigger.Cmd.{
  Options, get_executor_config, Instance, Instances, Parsers, watching, ticking, load_triggers,
}
use kube_trigger.Cmd.Watching.{held, asked_for, watcher_type}

-- What `run` uses from outside: whether there is a client, the files, whether the template loader finds
-- an action's definition, how properties are read, the queue of the executor, the handler that
-- `NewFromConfig` makes of a trigger, the clusters, and the flag with the type of their getter.
pub record Outside (C P S Q I H : Type 0) : Type 0 where
  pub has_client : Bool
  pub files : Files C P
  pub load : String → Bool
  pub parsers : Parsers P S
  pub new_queue : ℤ → ℤ → ℤ → ℤ → Q
  pub handler : Executor Q I → Trigger P → H
  pub access : Access
  pub multi_cluster_config_type : String

pub data RunError : Type 0 where
  no_client no_executor : RunError
  unreadable : ReadError → RunError
  invalid : ConfigError → RunError

-- What a source does once it runs: the controllers of a watcher, or the schedules of a cron job.
pub data Activity (S H : Type 0) : Type 0 where
  watches : List (Started H) → Activity S H
  ticks : List (S × H) → Activity S H

-- `works` is the state in which `RunJobs` is called.
pub data RunResult (S Q I H : Type 0) : Type 0 where
  fails : RunError → RunResult S Q I H
  panics : RunResult S Q I H
  works : Executor Q I → Instances S H → List (Activity S H) → RunResult S Q I H

module _ {S H : Type 0} (access : Access) (typ : String) where
  -- `Run` of a source; what it starts before an error stays.
  unfoldable pub run_instance : Instance S H → Activity S H
  unfolding CronJob.run
  run_instance (watching w) = watches (Watcher.run access typ w).0
  run_instance (ticking c) = ticks (CronJob.run c false)

  -- The loop over the map of instances, whose order is not fixed in Go; an error is only logged.
  unfoldable pub run_instances : Instances S H → List (Activity S H)
  unfolding run_instance
  run_instances [] = []
  run_instances ((name, i) ∷ rest) = run_instance i ∷ run_instances rest

module _ {C P S Q I H : Type 0} (out : Outside C P S Q I H) where
  unfoldable pub with_handlers : Executor Q I → List (Trigger P) → List (Trigger P × H)
  with_handlers exe [] = []
  with_handlers exe (t ∷ ts) = (t, out.handler exe t) ∷ with_handlers exe ts

  -- With the executor: the loop over the triggers, which may panic, and that over the instances.
  unfoldable pub launch : Executor Q I → Option (Instances S H) → RunResult S Q I H
  launch exe none = panics
  launch exe (some m) = works exe m (run_instances out.access out.multi_cluster_config_type m)

  -- With what `executor.New` returns.
  unfoldable pub set_up : List (Trigger P) → Option (Executor Q I) → RunResult S Q I H
  unfolding launch
  set_up ts none = fails no_executor
  set_up ts (some exe) =
      launch exe (load_triggers out.parsers new_with_builtin_sources [] (with_handlers exe ts))

  -- With the error of `Validate`, if there is one.
  unfoldable pub validated : Options → List (Trigger P) → Option ConfigError → RunResult S Q I H
  unfolding set_up
  validated o ts (some e) = fails (invalid e)
  validated o ts none = set_up ts (Executor.new out.new_queue (get_executor_config o))

  -- With the configuration that was read.
  unfoldable pub configured : Options → Read (List (Trigger P)) → RunResult S Q I H
  unfolding validated
  configured o (err e) = fails (unreadable e)
  configured o (ok ts) = validated o ts (Config.validate new_with_builtin_sources out.load ts)

  unfoldable pub run : Options → RunResult S Q I H
  unfolding configured
  run o =
      if not out.has_client
      then fails no_client
      else configured o (new_from_file_or_dir out.files o.config)

  -- What a run that gets to its workers has done before.
  pub record Works (o : Options) (exe : Executor Q I) (m : Instances S H) (ts : List (Trigger P))
      : Type 0 where
    pub read : new_from_file_or_dir out.files o.config ≡ ok ts
    pub some_trigger : ts ≢ []
    pub known : AllKnown new_with_builtin_sources out.load ts
    pub made : Executor.new out.new_queue (get_executor_config o) ≡ some exe
    pub watched :
        (k : String)
        → held (Dict.get String-discrete watcher_type m) k
          ≡ asked_for out.parsers k (with_handlers exe ts)
