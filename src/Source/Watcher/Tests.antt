-- ===== src/Source/Watcher/Tests.antt =====
-- A resource watcher on two clusters, one of which has a secret.
use mathlib.Core.List.{Perm}
use mathlib.Core.List.Perm
use text.Mathlib.Text.{◌==◌}
use kube_trigger.Base.{ℕ, ◌≡◌, refl, true, false, ◌↔◌, none, some, [], ◌∷◌, map, if◌then◌else◌}
use kube_trigger.Base.Dict
use kube_trigger.Base.Text.{String-discrete}
use kube_trigger.Source.Watcher
use kube_trigger.Source.Watcher.{Config, Watcher, run_configs, start_all}
use kube_trigger.Source.Watcher.Clusters.{
  Access, RestConfig, SecretData, rest_config, cluster_gateway_secret_getter,
  new_multi_clusters_getter, get_rest_config_from_secret, get_from_config,
  get_dynamic_client_and_mapper,
}
use kube_trigger.Source.Watcher.Secrets.{entry_text, get_dynamic_client_and_mapper-remote}
use kube_trigger.Source.Watcher.Order.{sight, planned, run-Perm}
use kube_trigger.Source.Tests.{pods, remote_pods}

-- The cluster `remote` has a secret with its endpoint only, and the watcher two configurations.
abbrev access : Access
access = record {
  new_client = true;
  get_secret = λ namespace name.
      if name == "remote" then some (("endpoint", "https://remote") ∷ []) else none;
  new_for_config = λ e. true;
  http_client_for = λ e. true;
  new_mapper = λ e. true;
}

abbrev open_config : RestConfig
open_config = record {
  host = "https://remote";
  key_data = "";
  cert_data = "";
  ca_data = none;
  insecure = true;
}

get_dynamic_client_and_mapper-remote_example :
    (secret : SecretData) × (access.get_secret "vela-system" "remote" ≡ some secret)
    × (("remote" == "local") ≡ false)
    × ("https://remote" ≡ entry_text (Dict.get String-discrete "endpoint" secret))
    × ("" ≡ entry_text (Dict.get String-discrete "tls.key" secret))
    × ("" ≡ entry_text (Dict.get String-discrete "tls.crt" secret))
    × (none ≡ Dict.get String-discrete "ca.crt" secret)
    × (true ≡ true ↔ (Dict.get String-discrete "ca.crt" secret ≡ none))
    × (true ≡ true)
    × (true ≡ true)
    × (true ≡ true)
unfolding get_dynamic_client_and_mapper get_rest_config_from_secret get_from_config rest_config
    Dict.get String-discrete
get_dynamic_client_and_mapper-remote_example =
    get_dynamic_client_and_mapper-remote access cluster_gateway_secret_getter "remote" open_config
      refl

abbrev anywhere : Config
anywhere = record pods { kind = "Node"; clusters = [] }

abbrev two_configs : Watcher ℕ
two_configs = record {
  configs = ("v1-Pod--", remote_pods) ∷ ("v1-Node--", anywhere) ∷ [];
  event_handlers = ("v1-Pod--", 1 ∷ []) ∷ ("v1-Node--", 2 ∷ []) ∷ [];
}

run-Perm_example :
    ((Watcher.run access "cluster-gateway-secret" two_configs).1
      ≡ (Watcher.run access "cluster-gateway-secret" (record two_configs {
        configs = ("v1-Node--", anywhere) ∷ ("v1-Pod--", remote_pods) ∷ [];
      })).1)
    × ((Watcher.run access "cluster-gateway-secret" two_configs).1 ≡ false
        → Perm
            (Watcher.run access "cluster-gateway-secret" two_configs).0
            (Watcher.run access "cluster-gateway-secret" (record two_configs {
              configs = ("v1-Node--", anywhere) ∷ ("v1-Pod--", remote_pods) ∷ [];
            })).0
          × (map sight (Watcher.run access "cluster-gateway-secret" two_configs).0
              ≡ planned two_configs.event_handlers two_configs.configs))
run-Perm_example =
    run-Perm access "cluster-gateway-secret" two_configs
      (("v1-Node--", anywhere) ∷ ("v1-Pod--", remote_pods) ∷ [])
      (Perm.swap ("v1-Node--", anywhere) ("v1-Pod--", remote_pods) [])

-- The hypothesis holds: both controllers run, on the two clusters.
run_two :
    map sight (Watcher.run access "cluster-gateway-secret" two_configs).0
    ≡ ("remote", remote_pods, 1 ∷ [])
      ∷ ("local", record anywhere { clusters = "local" ∷ [] }, 2 ∷ [])
      ∷ []
unfolding Watcher.run run_configs start_all new_multi_clusters_getter get_dynamic_client_and_mapper
    get_rest_config_from_secret get_from_config rest_config Dict.get String-discrete
run_two = refl
