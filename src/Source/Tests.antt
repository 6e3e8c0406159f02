-- ===== src/Source/Tests.antt =====
-- The sources of pkg/source on small configurations.
use Prim.Native.String.{String}
use kube_trigger.Base.{
  has, ite, ◌+◌, ℕ_discrete, inl, ℕ, ◌≡◌, refl, true, Option, none, some, List, [], ◌∷◌, ◌++◌,
}
use kube_trigger.Base.Dict
use kube_trigger.Base.Int.{ℤ, pos}
use kube_trigger.Workqueue.RateLimiter.{exponential}
use kube_trigger.Workqueue.RateLimitingQueue.{Delaying, RateLimitingQueue, num_requeues}
use kube_trigger.Source.Controller.Requeues.{rate_limiting, process_next_item-requeues}
use kube_trigger.Base.Text.{String-discrete}
use kube_trigger.Source.Watcher.{Config, Labels, Watcher, ok, key, init, handlers_of}
use kube_trigger.Source.Watcher.Merging.{init_known, Merges}
use kube_trigger.Source.Controller.{
  InformerEvent, Objects, RateLimiting, Controller, call_event_handler, process_next_item,
}
use kube_trigger.Source.Controller.{setup}
use kube_trigger.Source.Controller.Worker.{asked, delivered, taken}
use kube_trigger.Source.CronJob.{to_string, is_empty, to_string_again}
use kube_trigger.Source.CronJob

abbrev pub pods : Config
pods = record {
  api_version = "v1";
  kind = "Pod";
  namespace = "";
  events = "create" ∷ [];
  matching_labels = some [];
  clusters = "local" ∷ [];
}

abbrev pub remote_pods : Config
remote_pods = record pods { events = "delete" ∷ "create" ∷ []; clusters = "remote" ∷ [] }

abbrev no_json : Labels → Option String
no_json ls = none

-- One configuration has been read, with the handler 1.
abbrev watcher : Watcher ℕ
watcher = record { configs = ("v1-Pod--", pods) ∷ []; event_handlers = ("v1-Pod--", 1 ∷ []) ∷ [] }

init_known_example :
    (w' : Watcher ℕ) × (m : Config) × (init no_json watcher (some remote_pods) 2 ≡ ok w')
    × (Dict.get String-discrete (key no_json remote_pods) w'.configs ≡ some m)
    × Merges pods remote_pods m
    × (Dict.get String-discrete (key no_json remote_pods) w'.event_handlers
        ≡ some (
            handlers_of (Dict.get String-discrete (key no_json remote_pods) watcher.event_handlers)
            ++ 2 ∷ []))
unfolding key Dict.get String-discrete
init_known_example = init_known no_json watcher pods remote_pods 2 refl (inl (λ e. cc))

-- Objects are the times of their creation.
abbrev times : Objects ℕ
times = record { created_at = λ t. t }

abbrev head : List (InformerEvent ℕ) → Option (InformerEvent ℕ)
head [] = none
head (e ∷ es) = some e

abbrev tail : List (InformerEvent ℕ) → List (InformerEvent ℕ)
tail [] = []
tail (e ∷ es) = es

-- A queue that forgets nothing and retries at once.
abbrev queue : RateLimiting (List (InformerEvent ℕ)) (InformerEvent ℕ)
queue = record {
  add = λ q e. q ++ e ∷ [];
  get = λ q. (tail q, head q);
  done = λ q e. q;
  forget = λ q e. q;
  add_rate_limited = λ q e. q ++ e ∷ [];
  num_requeues = λ q e. 0;
}

-- The world is the list of the objects that the one handler has seen; the handler always fails.
abbrev controller : Controller (List ℕ) ℕ
controller = record {
  event_handlers = (λ t e w. (e.object ∷ w, true)) ∷ [];
  listen_events = "create" ∷ [];
  controller_type = "Pod";
}

abbrev creation : InformerEvent ℕ
creation = record { kind = "create"; cluster = "local"; object = 12 }

abbrev deletion : InformerEvent ℕ
deletion = record creation { kind = "delete" }

only_the_creation :
    delivered
      (asked times pods)
      (setup pods controller.event_handlers)
      (taken queue (10 ∷ 11 ∷ []) (creation ∷ deletion ∷ []))
      []
    ≡ 12 ∷ []
unfolding delivered asked taken setup call_event_handler String-discrete has
only_the_creation = refl

-- `TZ=Z @daily` by its bytes.
abbrev daily : CronJob.Config
daily = record { schedule = b'@' ∷ b'd' ∷ []; time_zone = b'Z' ∷ [] }

to_string_again_example :
    to_string (record { schedule = to_string daily; time_zone = b'X' ∷ [] }) ≡ to_string daily
to_string_again_example = to_string_again daily (b'X' ∷ []) refl

Event-discrete : Discrete (InformerEvent ℕ)
Event-discrete = hlevel (String-discrete, ℕ_discrete)

-- The queue above, as a delaying queue without delays.
abbrev delaying : Delaying (List (InformerEvent ℕ)) (InformerEvent ℕ)
delaying = record {
  add = λ q e. q ++ e ∷ [];
  get = λ q. (tail q, head q);
  done = λ q e. q;
  add_after = λ q e delay. q ++ e ∷ [];
}

abbrev reserve : ℕ → ℕ × ℤ
reserve n = (n + 1, pos 7)

-- The creation has failed twice.
abbrev failed_twice : RateLimitingQueue (List (InformerEvent ℕ)) ℕ (InformerEvent ℕ)
failed_twice = record { delaying = creation ∷ []; limiter = exponential ((creation, 2) ∷ []) 3 100 }

process_next_item-requeues_example :
    num_requeues Event-discrete
      (process_next_item
        (rate_limiting Event-discrete delaying reserve pos)
        times
        10
        controller
        failed_twice
        []).0
      creation
    ≡ ite (Event-discrete creation creation) 0 (num_requeues Event-discrete failed_twice creation)
process_next_item-requeues_example =
    process_next_item-requeues Event-discrete delaying reserve pos times 10 controller failed_twice
      [] creation creation refl
