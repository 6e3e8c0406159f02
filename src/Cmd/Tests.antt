-- ===== src/Cmd/Tests.antt =====
-- The options of pkg/cmd, and two triggers with cron jobs.
use kube_trigger.Base.{ℕ, ◌≡◌, refl, true, false, none, some, List, [], ◌∷◌}
use kube_trigger.Base.Dict
use kube_trigger.Base.Text.{String-discrete}
use kube_trigger.Base.Int.{ℤ, pos}
use kube_trigger.Executor
use kube_trigger.Source.CronJob
use kube_trigger.Source.Registry
use kube_trigger.Source.Registry.{new_with_builtin_sources}
use kube_trigger.Config.{Trigger}
use kube_trigger.Cmd.{
  Instances, Parsers, watching, ticking, choose, init, store, load_trigger, load_triggers,
}
use kube_trigger.Source.Watcher
use kube_trigger.Source.Watcher.{merge_events, labels_key, Labels}
use kube_trigger.Executor.{Executor}
use kube_trigger.Source.Watcher.Clusters.{Access}
use kube_trigger.Config.{Files, parsers as file_parsers}
use kube_trigger.Config
use kube_trigger.Cmd.Run.{Outside}
use kube_trigger.Cmd.Sources.{load_triggers-cron_job}

-- The queue is made of its four numbers.
abbrev Made : Type 0
Made = ℤ × ℤ × ℤ × ℤ

abbrev new_queue : ℤ → ℤ → ℤ → ℤ → Made
new_queue base max qps burst = (base, max, qps, burst)

abbrev cron : ℕ → CronJob.Config
cron n = record { schedule = n ∷ []; time_zone = [] }

-- Properties are the one byte of a schedule, which stands for itself.
abbrev parsers : Parsers ℕ (List ℕ)
parsers = record {
  watcher_config = λ p. none;
  cron_config = λ p. some (cron p);
  marshal = λ ls. none;
  schedule = λ s. some s;
}

abbrev trigger : ℕ → Trigger ℕ
trigger n = record {
  source_type = "cronjob";
  source_properties = n;
  filter = "";
  action_type = "patch";
  action_properties = n;
}

-- The second cron job takes the place of the first.
load_triggers-cron_job_example :
    (r : Instances (List ℕ) ℕ) × (load_triggers parsers new_with_builtin_sources []
        ((trigger 65, 1) ∷ (trigger 66, 2) ∷ [])
      ≡ some r)
    × (Dict.get String-discrete "cronjob" r
        ≡ some (ticking (record { config = some (cron 66); scheduled = (66 ∷ [], 2) ∷ [] })))
unfolding load_triggers load_trigger Registry.get Registry.new_with_builtin_sources Dict.get
    Dict.put CronJob.format_schedule CronJob.to_string String-discrete store init choose
    CronJob.init
load_triggers-cron_job_example =
    load_triggers-cron_job parsers new_with_builtin_sources ((trigger 65, 1) ∷ []) (trigger 66) 2
      (cron 66) (66 ∷ []) []
      (("cronjob", ticking (record { config = some (cron 65); scheduled = (65 ∷ [], 1) ∷ [] }))
        ∷ [])
      refl refl refl refl

abbrev pods : Watcher.Config
pods = record {
  api_version = "v1";
  kind = "Pod";
  namespace = "";
  events = [];
  matching_labels = none;
  clusters = [];
}

abbrev watch_parsers : Parsers ℕ (List ℕ)
watch_parsers = record parsers { watcher_config = λ p. some pods }

abbrev watch : Trigger ℕ
watch = record (trigger 65) { source_type = "resource-watcher" }

-- One file, whose content is the list of triggers.
abbrev files : Files (List (Trigger ℕ)) ℕ
files = record {
  stat = λ path. some false;
  read_dir = λ path. none;
  join = λ a b. b;
  ext = λ path. ".cue";
  read_file = λ path. some (watch ∷ trigger 66 ∷ watch ∷ []);
  cue_json = λ c. some c;
  unmarshal_json = λ c. some c;
  unmarshal_yaml = λ c. none;
}

abbrev access : Access
access = record {
  new_client = true;
  get_secret = λ namespace name. none;
  new_for_config = λ e. true;
  http_client_for = λ e. true;
  new_mapper = λ e. true;
}

-- Handlers are the properties of their triggers.
abbrev outside : Outside (List (Trigger ℕ)) ℕ (List ℕ) Made ℕ ℕ
outside = record {
  has_client = true;
  files = files;
  load = λ action. true;
  parsers = watch_parsers;
  new_queue = new_queue;
  handler = λ exe t. t.source_properties;
  access = access;
  multi_cluster_config_type = "cluster-gateway";
}

abbrev executor : Executor Made ℕ
executor = record {
  workers = pos 4;
  max_queue_size = pos 50;
  max_retries = pos 5;
  allow_retries = false;
  timeout = pos 10_000_000_000;
  running_jobs = [];
  queue = new_queue (pos 2_000_000_000) Executor.max_retry_delay (pos 8) (pos 50);
}

abbrev running : Instances (List ℕ) ℕ
running =
    (
      "resource-watcher",
      watching (record {
        configs = ("v1-Pod--", pods) ∷ [];
        event_handlers = ("v1-Pod--", 65 ∷ 65 ∷ []) ∷ [];
      }),
    )
    ∷ ("cronjob", ticking (record { config = some (cron 66); scheduled = (66 ∷ [], 66) ∷ [] }))
    ∷ []
