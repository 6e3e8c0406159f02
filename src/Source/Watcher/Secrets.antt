-- ===== src/Source/Watcher/Secrets.antt =====
-- What the secret of a cluster says of its client, in
-- pkg/source/builtin/k8sresourcewatcher/k8s_resource_watcher.go.
use Prim.Native.String.{String}
use text.Mathlib.Text.{◌==◌}
use mathlib.Core.Option
use kube_trigger.Base.{
  subst, ◌≡◌, refl, sym, ap, ◌∙◌, ◌↔◌, Bool, true, false, Option, none, some, arith, Option-cases,
  inl, inr, if◌then◌else◌,
}
use kube_trigger.Base.Dict
use kube_trigger.Base.Text.{String-discrete}
use kube_trigger.Source.Watcher.Clusters.{
  Access, Clients, Endpoint, RestConfig, SecretData, Getter, own, remote, dialled,
  cluster_gateway_getter, cluster_gateway_secret_getter, rest_config, get_rest_config_from_secret,
  get_from_config, bytes, from_secret, get_dynamic_client_and_mapper,
}

-- The text of an entry, empty if there is none.
abbrev pub entry_text : Option String → String
entry_text none = ""
entry_text (some s) = s

bytes-entry_text : (o : Option String) → bytes o ≡ entry_text o
bytes-entry_text none = refl
bytes-entry_text (some s) = refl

-- What the secret says of the endpoint and of the client's own certificate.
rest_config-entries :
    (secret : SecretData)
    → ((rest_config secret).host ≡ entry_text (Dict.get String-discrete "endpoint" secret))
      × ((rest_config secret).key_data ≡ entry_text (Dict.get String-discrete "tls.key" secret))
      × ((rest_config secret).cert_data ≡ entry_text (Dict.get String-discrete "tls.crt" secret))
unfolding rest_config
rest_config-entries secret = elim (Option-cases (Dict.get String-discrete "ca.crt" secret)) [
  | inl lost ↦
      rw (rest_config, lost)
        (
          bytes-entry_text (Dict.get String-discrete "endpoint" secret),
          bytes-entry_text (Dict.get String-discrete "tls.key" secret),
          bytes-entry_text (Dict.get String-discrete "tls.crt" secret),
        )
  | inr (ca, found) ↦
      rw (rest_config, found)
        (
          bytes-entry_text (Dict.get String-discrete "endpoint" secret),
          bytes-entry_text (Dict.get String-discrete "tls.key" secret),
          bytes-entry_text (Dict.get String-discrete "tls.crt" secret),
        )
]

-- The certificate of the server goes unchecked exactly if the secret has no authority for it.
rest_config-insecure :
    (secret : SecretData)
    → ((rest_config secret).ca_data ≡ Dict.get String-discrete "ca.crt" secret)
      × ((rest_config secret).insecure ≡ true ↔ (Dict.get String-discrete "ca.crt" secret ≡ none))
unfolding rest_config
rest_config-insecure secret = elim (Option-cases (Dict.get String-discrete "ca.crt" secret)) [
  | inl lost ↦ rw (rest_config, lost) (refl, ((λ h. refl), (λ h. refl)))
  | inr (ca, found) ↦ rw (rest_config, found) (refl, ((λ h. absurd (cc)), (λ h. absurd (cc))))
]

get_from_config-all :
    (access : Access) (e : Endpoint) (cli : Clients)
    → get_from_config access e ≡ some cli
    → (cli ≡ dialled e)
      × (access.new_for_config e ≡ true)
      × (access.http_client_for e ≡ true)
      × (access.new_mapper e ≡ true)
unfolding get_from_config
get_from_config-all access e cli h = (ground arith, ground arith, ground arith, ground arith)

from_secret-remote :
    (access : Access) (is_local : Bool) (found : Option RestConfig) (conf : RestConfig)
    → (if is_local then get_from_config access own else from_secret access found)
      ≡ some (dialled (remote conf))
    → (is_local ≡ false)
      × (found ≡ some conf)
      × (get_from_config access (remote conf) ≡ some (dialled (remote conf)))
from_secret-remote access true found conf h =
    let (same, _, _, _) = get_from_config-all access own (dialled (remote conf)) h in absurd (cc)
from_secret-remote access false none conf h = absurd (cc)
from_secret-remote access false (some c) conf h =
    let (same, _, _, _) = get_from_config-all access (remote c) (dialled (remote conf)) h in
    let e : c ≡ conf = cc in
    (
      refl,
      ap some e,
      subst (λ x. get_from_config access (remote x) ≡ some (dialled (remote conf))) e h,
    )

map-some :
    {A B : Type 0} (f : A → B) (o : Option A) (b : B)
    → Option.map f o ≡ some b
    → (a : A) × (o ≡ some a) × (b ≡ f a)
map-some f none b h = absurd (cc)
map-some f (some a) b h = (a, refl, cc)

-- A client made from a secret belongs to another cluster than the local one. The secret with the
-- cluster's name is in the namespace of the program, the client has its endpoint, key, certificate and
-- authority, and the endpoint can be dialled; the server's certificate goes unchecked exactly if the
-- secret has no authority.
pub get_dynamic_client_and_mapper-remote :
    (access : Access) (g : Getter) (cluster : String) (conf : RestConfig)
    → get_dynamic_client_and_mapper access g cluster ≡ some (dialled (remote conf))
    → (secret : SecretData) × (access.get_secret "vela-system" cluster ≡ some secret)
      × ((cluster == "local") ≡ false)
      × (conf.host ≡ entry_text (Dict.get String-discrete "endpoint" secret))
      × (conf.key_data ≡ entry_text (Dict.get String-discrete "tls.key" secret))
      × (conf.cert_data ≡ entry_text (Dict.get String-discrete "tls.crt" secret))
      × (conf.ca_data ≡ Dict.get String-discrete "ca.crt" secret)
      × (conf.insecure ≡ true ↔ (Dict.get String-discrete "ca.crt" secret ≡ none))
      × (access.new_for_config (remote conf) ≡ true)
      × (access.http_client_for (remote conf) ≡ true)
      × (access.new_mapper (remote conf) ≡ true)
unfolding get_dynamic_client_and_mapper get_rest_config_from_secret
get_dynamic_client_and_mapper-remote access cluster_gateway_getter cluster conf h = absurd (cc)
get_dynamic_client_and_mapper-remote access cluster_gateway_secret_getter cluster conf h =
    let (far, found, made) =
      from_secret-remote access (cluster == "local") (get_rest_config_from_secret access cluster)
        conf h in
    let (secret, there, e) =
      map-some rest_config (access.get_secret "vela-system" cluster) conf found in
    let (same, a, b, c) = get_from_config-all access (remote conf) (dialled (remote conf)) made in
    (
      secret,
      there,
      far,
      ap (λ x. x.host) e ∙ (rest_config-entries secret).0,
      ap (λ x. x.key_data) e ∙ (rest_config-entries secret).1,
      ap (λ x. x.cert_data) e ∙ (rest_config-entries secret).2,
      ap (λ x. x.ca_data) e ∙ (rest_config-insecure secret).0,
      subst (λ x. x.insecure ≡ true ↔ (Dict.get String-discrete "ca.crt" secret ≡ none)) (sym e)
          (rest_config-insecure secret).1,
      a,
      b,
      c,
    )
