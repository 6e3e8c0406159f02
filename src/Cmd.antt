-- ===== src/Cmd.antt =====
-- pkg/cmd: the options of the command (options.go), and the loop over the triggers in `run`
-- (cmd.go).
pub mod Sources
pub mod Run
pub mod Runner
pub mod Watching
mod Tests
pub mod Validation
use Prim.Native.String.{String}
use text.Mathlib.Text.{◌==◌}
use kube_trigger.Base.{
  ℕ, Bool, true, false, ◌||◌, not, Option, none, some, List, [], ◌∷◌, if◌then◌else◌,
}
use kube_trigger.Base.Dict
use kube_trigger.Base.Text.{String-discrete}
use kube_trigger.Base.Int.{ℤ, pos, ltb_ℤ, wrap64, ◌*ℤ◌}
use kube_trigger.Executor.{Config}
use kube_trigger.Source.Watcher.{
  Labels, Watcher, InitResult, ok, bad_properties, panics, new_watcher,
}
use kube_trigger.Source.Watcher
use kube_trigger.Source.CronJob.{CronJob, new_cron_job}
use kube_trigger.Source.CronJob
use kube_trigger.Source.Registry.{Registry, Kind, resource_watcher, cron_job, singleton}
use kube_trigger.Source.Registry
use kube_trigger.Config.{Trigger}

-- The struct `option`.
pub record Options : Type 0 where
  pub log_level : String
  pub config : String
  pub queue_size : ℤ
  pub workers : ℤ
  pub per_worker_qps : ℤ
  pub max_retry : ℤ
  pub retry_delay : ℤ
  pub action_retry : Bool
  pub timeout : ℤ
  pub registry_size : ℤ

-- The values that `addFlags` gives to the fields; no flag sets `ActionRetry`.
abbrev pub default_options : Options
default_options = record {
  log_level = "info";
  config = "config.cue";
  queue_size = pos 50;
  workers = pos 4;
  per_worker_qps = pos 2;
  max_retry = pos 5;
  retry_delay = pos 2;
  action_retry = false;
  timeout = pos 10;
  registry_size = pos 100;
}

pub data OptionError : Type 0 where
  bad_log_level no_config bad_queue_size bad_workers bad_per_worker_qps : OptionError
  bad_max_retry bad_retry_delay bad_timeout bad_registry_size : OptionError

abbrev positive : ℤ → Bool
positive z = ltb_ℤ (pos 0) z

abbrev non_negative : ℤ → Bool
non_negative z = not (ltb_ℤ z (pos 0))

-- `parse_level` tells whether `logrus.ParseLevel` knows the level.
unfoldable pub validate : (String → Bool) → Options → Option OptionError
validate parse_level o =
    if not (parse_level o.log_level)
    then some bad_log_level
    else if o.config == ""
    then some no_config
    else if not (positive o.queue_size)
    then some bad_queue_size
    else if not (positive o.workers)
    then some bad_workers
    else if not (positive o.per_worker_qps)
    then some bad_per_worker_qps
    else if not (non_negative o.max_retry)
    then some bad_max_retry
    else if not (non_negative o.retry_delay)
    then some bad_retry_delay
    else if not (positive o.timeout)
    then some bad_timeout
    else if not (positive o.registry_size)
    then some bad_registry_size
    else none

-- A number of seconds as a duration: the product of two 64-bit integers.
unfoldable pub seconds : ℤ → ℤ
seconds n = wrap64 (pos 1_000_000_000 *ℤ n)

unfoldable pub get_executor_config : Options → Config
unfolding seconds
get_executor_config o = record {
  queue_size = o.queue_size;
  workers = o.workers;
  max_job_retries = o.max_retry;
  base_retry_delay = seconds o.retry_delay;
  retry_job_after_failure = o.action_retry;
  per_worker_qps = o.per_worker_qps;
  timeout = seconds o.timeout;
}

-- A value of the interface `Source`: `S` are parsed schedules, `H` event handlers.
pub data Instance (S H : Type 0) : Type 0 where
  watching : Watcher H → Instance S H
  ticking : CronJob S H → Instance S H

-- The method `New`.
abbrev pub fresh : {S H : Type 0} → Kind → Instance S H
fresh resource_watcher = watching new_watcher
fresh cron_job = ticking new_cron_job

abbrev pub Instances : Type 0 → Type 0 → Type 0
Instances S H = List (String × Instance S H)

-- How the two kinds of source read their properties, and what they call.
pub record Parsers (P S : Type 0) : Type 0 where
  pub watcher_config : P → Option Watcher.Config
  pub cron_config : P → Option CronJob.Config
  pub marshal : Labels → Option String
  pub schedule : List ℕ → Option S

abbrev pub lift_watcher : {S H : Type 0} → InitResult (Watcher H) → InitResult (Instance S H)
lift_watcher (ok w) = ok (watching w)
lift_watcher bad_properties = bad_properties
lift_watcher panics = panics

abbrev lift_cron : {S H : Type 0} → Option (CronJob S H) → InitResult (Instance S H)
lift_cron none = bad_properties
lift_cron (some c) = ok (ticking c)

module _ {S H : Type 0} where
  -- The instance that a trigger initialises: that of an earlier trigger, if there is to be one only.
  unfoldable pub choose : Kind → Option (Instance S H) → Instance S H
  choose k none = fresh k
  choose k (some earlier) = if singleton k then earlier else fresh k

  unfoldable pub store : Instances S H → String → InitResult (Instance S H) → Option (Instances S H)
  store m name (ok s) = some (Dict.put String-discrete name s m)
  store m name bad_properties = some m
  store m name panics = none

module _ {P S H : Type 0} (parsers : Parsers P S) where
  -- The method `Init`.
  unfoldable pub init : Instance S H → P → H → InitResult (Instance S H)
  init (watching w) p eh =
      lift_watcher (Watcher.init parsers.marshal w (parsers.watcher_config p) eh)
  init (ticking c) p eh = lift_cron (CronJob.init parsers.schedule (parsers.cron_config p) eh)

  -- One turn of the loop over the triggers, with the event handler made for the trigger; `none` is a
  -- panic.
  unfoldable pub load_trigger : Registry → Instances S H → Trigger P → H → Option (Instances S H)
  load_trigger reg m t eh = elim (Registry.get reg t.source_type) [
    | none ↦ some m
    | some k ↦
        store m t.source_type
          (init (choose k (Dict.get String-discrete t.source_type m)) t.source_properties eh)
  ]

  unfoldable pub load_triggers :
      Registry → Instances S H → List (Trigger P × H) → Option (Instances S H)
  load_triggers reg m [] = some m
  load_triggers reg m ((t, eh) ∷ ts) = elim (load_trigger reg m t eh) [
    | none ↦ none
    | some m' ↦ load_triggers reg m' ts
  ]
