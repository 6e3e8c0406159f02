-- ===== src/Source/Watcher/Clusters.antt =====
-- The clients of the clusters that a resource watcher watches: `MultiClustersGetter` of
-- pkg/source/builtin/k8sresourcewatcher/k8s_resource_watcher.go.
use Prim.Native.String.{String}
use text.Mathlib.Text.{◌==◌}
use mathlib.Core.Option
use kube_trigger.Base.{Bool, true, false, not, Option, none, some, List, if◌then◌else◌}
use kube_trigger.Base.Dict
use kube_trigger.Base.Text.{String-discrete}

-- The fields of `rest.Config` that are set here; bytes are text.
pub record RestConfig : Type 0 where
  pub host : String
  pub key_data : String
  pub cert_data : String
  pub ca_data : Option String
  pub insecure : Bool

-- Whose configuration is dialled: the program's own, or the one made from a secret.
pub data Endpoint : Type 0 where
  own : Endpoint
  remote : RestConfig → Endpoint

-- A dynamic client with its mapper: the ones that the whole program shares, or new ones.
pub data Clients : Type 0 where
  shared : Clients
  dialled : Endpoint → Clients

abbrev pub SecretData : Type 0
SecretData = List (String × String)

-- What is called outside: whether `client.New` succeeds, the secret of a namespace and a name, and
-- whether `dynamic.NewForConfig`, `rest.HTTPClientFor` and `apiutil.NewDynamicRESTMapper` succeed.
pub record Access : Type 0 where
  pub new_client : Bool
  pub get_secret : String → String → Option SecretData
  pub new_for_config : Endpoint → Bool
  pub http_client_for : Endpoint → Bool
  pub new_mapper : Endpoint → Bool

pub data Getter : Type 0 where
  cluster_gateway_getter cluster_gateway_secret_getter : Getter

abbrev default_cluster : String
default_cluster = "local"

-- A missing key of the map reads as no bytes.
abbrev pub bytes : Option String → String
bytes none = ""
bytes (some s) = s

unfoldable pub rest_config : SecretData → RestConfig
rest_config secret =
    let conf : RestConfig = record {
      host = bytes (Dict.get String-discrete "endpoint" secret);
      key_data = bytes (Dict.get String-discrete "tls.key" secret);
      cert_data = bytes (Dict.get String-discrete "tls.crt" secret);
      ca_data = none;
      insecure = false;
    } in
    elim (Dict.get String-discrete "ca.crt" secret) [
      | none ↦ record conf { insecure = true }
      | some ca ↦ record conf { ca_data = some ca }
    ]

module _ (access : Access) where
  unfoldable pub new_multi_clusters_getter : String → Option Getter
  new_multi_clusters_getter typ =
      if not access.new_client
      then none
      else if typ == "cluster-gateway"
      then some cluster_gateway_getter
      else if typ == "cluster-gateway-secret"
      then some cluster_gateway_secret_getter
      else none

  unfoldable pub get_rest_config_from_secret : String → Option RestConfig
  get_rest_config_from_secret cluster =
      Option.map rest_config (access.get_secret "vela-system" cluster)

  unfoldable pub get_from_config : Endpoint → Option Clients
  get_from_config e =
      if not (access.new_for_config e)
      then none
      else if not (access.http_client_for e)
      then none
      else if not (access.new_mapper e)
      then none
      else some (dialled e)

  -- With the configuration that the secret gives, if it can be read.
  abbrev pub from_secret : Option RestConfig → Option Clients
  from_secret none = none
  from_secret (some config) = get_from_config (remote config)

  -- `GetDynamicClientAndMapper` of the two getters.
  unfoldable pub get_dynamic_client_and_mapper : Getter → String → Option Clients
  get_dynamic_client_and_mapper cluster_gateway_getter cluster = some shared
  get_dynamic_client_and_mapper cluster_gateway_secret_getter cluster =
      if cluster == default_cluster
      then get_from_config own
      else from_secret (get_rest_config_from_secret cluster)
