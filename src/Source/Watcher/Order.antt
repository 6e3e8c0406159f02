-- ===== src/Source/Watcher/Order.antt =====
-- The order in which `Run` of pkg/source/builtin/k8sresourcewatcher goes through the map of its
-- configurations, which is not fixed in Go.
use Prim.Native.String.{String}
use mathlib.Core.Logic.{∥∥₁_elim}
use mathlib.Core.List.{append-nil, append_assoc, map-append, Perm, Perm-prop, Permᴰ}
use mathlib.Core.List.Perm
use mathlib.Core.List.Permᴰ
use kube_trigger.Base.{
  ◌≡◌, refl, sym, ap, ◌∙◌, subst, Bool, true, false, Option, none, some, List, [], ◌∷◌, ◌++◌, map,
  if◌then◌else◌, arith, some-injective, Option-cases, inl, inr,
}
use kube_trigger.Base.Dict
use kube_trigger.Base.Text.{String-discrete}
use kube_trigger.Source.Watcher.Clusters.{
  Access, Clients, new_multi_clusters_getter, get_dynamic_client_and_mapper,
}
use kube_trigger.Source.Watcher.{
  Watcher, Config, Started, default_clusters, handlers_of, start_all, run_configs,
}
use kube_trigger.Source.Watcher

-- Two results without an order: neither is there, or both are with the same elements.
module _ {A : Type 0} where
  abbrev Like : Option (List A) → Option (List A) → Type 0
  Like none none = Unit {0}
  Like none (some b) = ⊥
  Like (some a) none = ⊥
  Like (some a) (some b) = Perm a b

  abbrev both : Option (List A) → Option (List A) → Option (List A)
  both none p = none
  both (some a) none = none
  both (some a) (some b) = some (a ++ b)

  Like-refl : (p : Option (List A)) → Like p p
  Like-refl none = tt
  Like-refl (some a) = Perm.refl a

  Like-prop : (p q : Option (List A)) → IsProp (Like p q)
  Like-prop none none = λ x y. refl
  Like-prop none (some b) = λ x y. absurd x
  Like-prop (some a) none = λ x y. absurd x
  Like-prop (some a) (some b) = Perm-prop

  Like-trans : (p q r : Option (List A)) → Like p q → Like q r → Like p r
  Like-trans none none none h k = tt
  Like-trans none none (some c) h k = k
  Like-trans none (some b) r h k = absurd h
  Like-trans (some a) none r h k = absurd h
  Like-trans (some a) (some b) none h k = k
  Like-trans (some a) (some b) (some c) h k = Perm.trans h k

  both-Like : (o p q : Option (List A)) → Like p q → Like (both o p) (both o q)
  both-Like none p q h = tt
  both-Like (some a) none none h = tt
  both-Like (some a) none (some c) h = h
  both-Like (some a) (some b) none h = h
  both-Like (some a) (some b) (some c) h = Perm.append_left a h

  Like-swap : (o p q : Option (List A)) → Like (both o (both p q)) (both p (both o q))
  Like-swap none none q = tt
  Like-swap none (some b) q = tt
  Like-swap (some a) none q = tt
  Like-swap (some a) (some b) none = tt
  Like-swap (some a) (some b) (some c) =
      subst (λ l. Perm (a ++ (b ++ c)) l) (append_assoc b a c)
        (subst (λ l. Perm l ((b ++ a) ++ c)) (append_assoc a b c)
          (Perm.append_right c ∣ Permᴰ.append_comm a b ∣₁))

  both-some :
      (p q : Option (List A)) (l : List A)
      → both p q ≡ some l
      → (a b : List A) × (p ≡ some a) × (q ≡ some b) × (l ≡ (a ++ b))
  both-some none q l h = absurd (cc)
  both-some (some a) none l h = absurd (cc)
  both-some (some a) (some b) l h = (a, b, refl, refl, sym (some-injective (a ++ b) l h))

  -- What a loop with an accumulator comes to.
  abbrev Ends : List A → Option (List A) → List A × Bool → Type 0
  Ends acc none r = r.1 ≡ true
  Ends acc (some l) r = r ≡ (acc ++ l, false)

  then-Ends :
      (acc : List A) (p q : Option (List A)) (r : List A × Bool) (k : List A → List A × Bool)
      → Ends acc p r
      → ((l : List A) → Ends l q (k l))
      → Ends acc (both p q) (if r.1 then r else k r.0)
  then-Ends acc none q r k h g = ground arith
  then-Ends acc (some l) none r k h g = rw (h) (g (acc ++ l))
  then-Ends acc (some l) (some m) r k h g =
      rw (h) (g (acc ++ l) ∙ ap (λ x. (x, false)) (append_assoc acc l m))

  Ends-Like :
      (p q : Option (List A)) (r s : List A × Bool)
      → Ends [] p r
      → Ends [] q s
      → Like p q
      → (r.1 ≡ s.1) × (r.1 ≡ false → Perm r.0 s.0)
  Ends-Like none none r s h k l = (h ∙ sym k, λ f. absurd (cc))
  Ends-Like none (some b) r s h k l = absurd l
  Ends-Like (some a) none r s h k l = absurd l
  Ends-Like (some a) (some b) r s h k l = rw (h, k) (refl, λ f. l)

  Ends-some : (p : Option (List A)) (r : List A × Bool) → Ends [] p r → r.1 ≡ false → p ≡ some r.0
  Ends-some none r h f = absurd (cc)
  Ends-some (some a) r h f = ap (λ x. some x.0) (sym h)

abbrev with_clusters : Config → Config
with_clusters c = record c { clusters = default_clusters c.clusters }

module _ {H : Type 0} where
  abbrev sights : String × Config → List H → List String → List (String × Config × List H)
  sights (k, c) hs [] = []
  sights (k, c) hs (x ∷ xs) = (x, with_clusters c, hs) ∷ sights (k, c) hs xs

  -- For each configuration, and each of its clusters or the default one, the handlers of its key.
  abbrev pub planned :
      List (String × List H) → List (String × Config) → List (String × Config × List H)
  planned m [] = []
  planned m ((k, c) ∷ cs) =
      sights (k, c) (handlers_of (Dict.get String-discrete k m)) (default_clusters c.clusters)
      ++ planned m cs

  abbrev pub sight : Started H → String × Config × List H
  sight s = (s.cluster, s.config, s.handlers)

module _ {H : Type 0} (clients_of : String → Option Clients) where
  abbrev begun : String → Config → List H → Option Clients → Option (List (Started H))
  begun cluster c hs none = none
  begun cluster c hs (some cli) =
      some (record { cluster = cluster; clients = cli; config = c; handlers = hs } ∷ [])

  abbrev each_cluster : Config → List H → List String → Option (List (Started H))
  each_cluster c hs [] = some []
  each_cluster c hs (x ∷ xs) = both (begun x c hs (clients_of x)) (each_cluster c hs xs)

  abbrev one_config : List (String × List H) → String × Config → Option (List (Started H))
  one_config m (k, c) =
      each_cluster (with_clusters c) (handlers_of (Dict.get String-discrete k m))
        (default_clusters c.clusters)

  abbrev each_config : List (String × List H) → List (String × Config) → Option (List (Started H))
  each_config m [] = some []
  each_config m (kc ∷ cs) = both (one_config m kc) (each_config m cs)

  start_all-Ends :
      (xs : List String) (c : Config) (hs : List H) (acc : List (Started H))
      → Ends acc (each_cluster c hs xs) (start_all clients_of xs c hs acc)
  unfolding start_all
  start_all-Ends [] c hs acc = ap (λ l. (l, false)) (sym (append-nil acc))
  start_all-Ends (x ∷ xs) c hs acc = elim (Option-cases (clients_of x)) [
    | inl lost ↦ rw (start_all, lost) refl
    | inr (cli, reached) ↦
        rw (start_all, reached)
          (then-Ends acc (begun x c hs (some cli)) (each_cluster c hs xs) (_, false)
            (λ l. start_all clients_of xs c hs l) refl (λ l. start_all-Ends xs c hs l))
  ]

  run_configs-Ends :
      (w : Watcher H) (cs : List (String × Config)) (acc : List (Started H))
      → Ends acc (each_config w.event_handlers cs) (run_configs clients_of w cs acc)
  unfolding run_configs
  run_configs-Ends w [] acc = ap (λ l. (l, false)) (sym (append-nil acc))
  run_configs-Ends w ((k, c) ∷ cs) acc =
      then-Ends acc (one_config w.event_handlers (k, c)) (each_config w.event_handlers cs) _
        (λ l. run_configs clients_of w cs l)
        (start_all-Ends (default_clusters c.clusters) (with_clusters c) _ acc)
        (λ l. run_configs-Ends w cs l)

  each_config-Like :
      (m : List (String × List H)) (cs ds : List (String × Config))
      → Permᴰ cs ds
      → Like (each_config m cs) (each_config m ds)
  each_config-Like m cs ds Permᴰ.nil = Perm.nil
  each_config-Like m cs ds (Permᴰ.cons {a = a} {b = b} {l₁ = l} {l₂ = n} e p) =
      rw (e)
        (both-Like (one_config m b) (each_config m l) (each_config m n) (each_config-Like m l n p))
  each_config-Like m cs ds (Permᴰ.swap {a' = a} {b' = b} {l = l} e f) =
      rw (e, f) (Like-swap (one_config m b) (one_config m a) (each_config m l))
  each_config-Like m cs ds (Permᴰ.trans {l₂ = n} p q) =
      Like-trans (each_config m cs) (each_config m n) (each_config m ds) (each_config-Like m cs n p)
        (each_config-Like m n ds q)

  begun-sight :
      (x : String) (c : Config) (hs : List H) (o : Option Clients) (a : List (Started H))
      → begun x c hs o ≡ some a
      → map sight a ≡ (x, c, hs) ∷ []
  begun-sight x c hs none a h = absurd (cc)
  begun-sight x c hs (some cli) a h = ap (map sight) (sym (some-injective _ a h))

  each_cluster-sights :
      (k : String) (c : Config) (hs : List H) (xs : List String) (l : List (Started H))
      → each_cluster (with_clusters c) hs xs ≡ some l
      → map sight l ≡ sights (k, c) hs xs
  each_cluster-sights k c hs [] l h = rw (sym (some-injective [] l h)) refl
  each_cluster-sights k c hs (x ∷ xs) l h =
      let (a, b, first, rest, e) = both-some (begun x (with_clusters c) hs (clients_of x)) _ l h in
      ap (map sight) e
      ∙ map-append sight a b
      ∙ ap (λ y. y ++ map sight b) (begun-sight x (with_clusters c) hs (clients_of x) a first)
      ∙ ap (λ y. (x, with_clusters c, hs) ∷ y) (each_cluster-sights k c hs xs b rest)

  each_config-planned :
      (m : List (String × List H)) (cs : List (String × Config)) (l : List (Started H))
      → each_config m cs ≡ some l
      → map sight l ≡ planned m cs
  each_config-planned m [] l h = rw (sym (some-injective [] l h)) refl
  each_config-planned m ((k, c) ∷ cs) l h =
      let (a, b, first, rest, e) = both-some (one_config m (k, c)) _ l h in
      ap (map sight) e
      ∙ map-append sight a b
      ∙ ap (λ x. x ++ map sight b) (each_cluster-sights k c _ (default_clusters c.clusters) a first)
      ∙ ap
          (λ x.
            sights (k, c) (handlers_of (Dict.get String-discrete k m)) (default_clusters c.clusters)
            ++ x)
          (each_config-planned m cs b rest)

  run_configs-Perm :
      (w v : Watcher H) (cs ds : List (String × Config))
      → w.event_handlers ≡ v.event_handlers
      → Perm cs ds
      → ((run_configs clients_of w cs []).1 ≡ (run_configs clients_of v ds []).1)
        × ((run_configs clients_of w cs []).1 ≡ false
            → Perm (run_configs clients_of w cs []).0 (run_configs clients_of v ds []).0
              × (map sight (run_configs clients_of w cs []).0 ≡ planned w.event_handlers cs))
  run_configs-Perm w v cs ds e p =
      let (same, perm) =
        Ends-Like (each_config w.event_handlers cs) (each_config v.event_handlers ds) _ _
          (run_configs-Ends w cs []) (run_configs-Ends v ds [])
          (subst (λ m. Like (each_config w.event_handlers cs) (each_config m ds)) e
            (∥∥₁_elim p (Like-prop _ _) (each_config-Like w.event_handlers cs ds))) in
      (
        same,
        λ f. (
          perm f,
          each_config-planned w.event_handlers cs _
              (Ends-some (each_config w.event_handlers cs) _ (run_configs-Ends w cs []) f),
        ),
      )

-- In whatever order the map of configurations is gone through, a watcher fails to run or it does not;
-- and when it does not, it starts the same controllers, one for each configuration and each of its
-- clusters, or the local one when it names none, with the handlers of the configuration's key.
pub run-Perm :
    {H : Type 0} (access : Access) (typ : String) (w : Watcher H) (cs : List (String × Config))
    → Perm w.configs cs
    → ((Watcher.run access typ w).1 ≡ (Watcher.run access typ (record w { configs = cs })).1)
      × ((Watcher.run access typ w).1 ≡ false
          → Perm (Watcher.run access typ w).0 (Watcher.run access typ (record w { configs = cs })).0
            × (map sight (Watcher.run access typ w).0 ≡ planned w.event_handlers w.configs))
unfolding Watcher.run
run-Perm access typ w cs p = elim (Option-cases (new_multi_clusters_getter access typ)) [
  | inl unknown ↦ rw (Watcher.run, unknown) (refl, λ f. absurd (cc))
  | inr (getter, known) ↦
      rw (Watcher.run, known)
        (run_configs-Perm (get_dynamic_client_and_mapper access getter) w
          (record w { configs = cs }) w.configs cs refl p)
]
