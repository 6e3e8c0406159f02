-- ===== src/Cmd/Watching.antt =====
-- Which handlers the resource watcher of pkg/cmd/cmd.go has after the loop over the triggers.
use Prim.Native.String.{String}
use mathlib.Core.List.{append-nil, append_assoc}
use kube_trigger.Base.{
  subst, some-injective, ◌≡◌, refl, sym, ap, ◌∙◌, Option, none, some, List, [], ◌∷◌, ◌++◌, arith,
  Option-cases, inl, inr, ite, if_pos, if_neg,
}
use kube_trigger.Base.Dict
use kube_trigger.Base.Dict.{get-put, get-put_self}
use kube_trigger.Base.Text.{String-discrete}
use kube_trigger.Source.Watcher.{
  Watcher, Config, Labels, InitResult, ok, bad_properties, panics, key, merge, merge_into,
  add_handler, handlers_of, new_watcher,
}
use kube_trigger.Source.Watcher
use kube_trigger.Source.Registry.{Registry, Kind, resource_watcher, cron_job}
use kube_trigger.Source.Registry
use kube_trigger.Config.{Trigger}
use kube_trigger.Cmd.{
  Instance, Instances, Parsers, lift_watcher, watching, ticking, init, choose, store, load_trigger,
  load_triggers,
}
use kube_trigger.Source.Watcher.Called.{called, only_if, init_lem}

abbrev pub watcher_type : String
watcher_type = "resource-watcher"

module _ {S H : Type 0} where
  -- The handlers that the instance of the resource watcher calls for the events of a key.
  abbrev pub held : Option (Instance S H) → String → List H
  held none k = []
  held (some (watching w)) k = called w k
  held (some (ticking c)) k = []

module _ {P S H : Type 0} (parsers : Parsers P S) where
  -- What a trigger for the resource watcher adds to the handlers of a key.
  abbrev adds : String → Option Config → H → List H
  adds k none eh = []
  adds k (some c) eh = only_if (String-discrete k (key parsers.marshal c)) eh

  -- The handlers of the triggers for the resource watcher whose configuration has the key, in order.
  unfoldable pub asked_for : String → List (Trigger P × H) → List H
  asked_for k [] = []
  asked_for k ((t, eh) ∷ ts) =
      ite (String-discrete t.source_type watcher_type)
        (adds k (parsers.watcher_config t.source_properties) eh) []
      ++ asked_for k ts

module _ {P S H : Type 0} (parsers : Parsers P S) (reg : Registry) where
  -- The instance of the resource watcher that there is, or will be.
  data IsWatcher (w : Watcher H) : Option (Instance S H) → Type 0 where
    made : IsWatcher w (some (watching w))
    missing : w ≡ new_watcher → IsWatcher w none

  abbrev instance_of : Instances S H → Option (Instance S H)
  instance_of m = Dict.get String-discrete watcher_type m

  chosen :
      (o : Option (Instance S H)) (w : Watcher H)
      → IsWatcher w o
      → choose resource_watcher o ≡ watching w
  unfolding choose
  chosen none w (missing e) = ap watching (sym e)
  chosen (some i) w made = refl

  abbrev Kept : Instances S H → Watcher H → Option Config → H → Type 0
  Kept n w c eh =
      (v : Watcher H) × IsWatcher v (instance_of n)
      × ((k : String) → called v k ≡ called w k ++ adds parsers k c eh)

  stored-Kept :
      (m n : Instances S H) (w : Watcher H) (c : Option Config) (eh : H)
      → IsWatcher w (instance_of m)
      → store m watcher_type (lift_watcher (Watcher.init parsers.marshal w c eh)) ≡ some n
      → Kept n w c eh
  unfolding store Watcher.init
  stored-Kept m n w none eh known done = (
    w,
    subst (λ i. IsWatcher w (instance_of i)) (some-injective _ _ done) known,
    λ k. sym (append-nil (called w k)),
  )
  stored-Kept m n w (some c) eh known done = elim (init_lem parsers.marshal w c eh) [
    | inl broken ↦ absurd (cc (sym (ap (λ r. store m watcher_type (lift_watcher r)) broken) ∙ done))
    | inr (v, is, added) ↦
        let put : Dict.put String-discrete watcher_type (watching v) m ≡ n =
          some-injective _ _ (sym (ap (λ r. store m watcher_type (lift_watcher r)) is) ∙ done) in
        (
          v,
          subst (IsWatcher v)
              (sym (get-put_self String-discrete watcher_type (watching v) m) ∙ ap instance_of put)
              made,
          added,
        )
  ]

  load_trigger-watcher :
      (m n : Instances S H) (t : Trigger P) (eh : H) (w : Watcher H)
      → IsWatcher w (instance_of m)
      → Registry.get reg watcher_type ≡ some resource_watcher
      → t.source_type ≡ watcher_type
      → load_trigger parsers reg m t eh ≡ some n
      → Kept n w (parsers.watcher_config t.source_properties) eh
  unfolding load_trigger init
  load_trigger-watcher m n t eh w known registered named done =
      stored-Kept m n w (parsers.watcher_config t.source_properties) eh known (
        sym (
          rw
            (
              ap (Registry.get reg) named ∙ registered,
              load_trigger,
              named,
              chosen (instance_of m) w known,
            )
            refl)
        ∙ done)

  store-other :
      (m n : Instances S H) (name : String) (r : InitResult (Instance S H))
      → ¬ (name ≡ watcher_type)
      → store m name r ≡ some n
      → instance_of n ≡ instance_of m
  unfolding store
  store-other m n name (ok s) other done =
      sym (ap instance_of (some-injective _ _ done))
      ∙ get-put String-discrete watcher_type name s m
      ∙ if_neg (String-discrete watcher_type name) (λ e. other (sym e)) _ _
  store-other m n name bad_properties other done = sym (ap instance_of (some-injective _ _ done))
  store-other m n name panics other done = absurd (cc)

  load_trigger-other :
      (m n : Instances S H) (t : Trigger P) (eh : H)
      → ¬ (t.source_type ≡ watcher_type)
      → load_trigger parsers reg m t eh ≡ some n
      → instance_of n ≡ instance_of m
  unfolding load_trigger
  load_trigger-other m n t eh other done = elim (Option-cases (Registry.get reg t.source_type)) [
    | inl unknown ↦
        let same : m ≡ n = some-injective _ _ (sym (rw (unknown, load_trigger) refl) ∙ done) in
        sym (ap instance_of same)
    | inr (kind, registered) ↦
        store-other m n t.source_type
          (init parsers (choose kind (Dict.get String-discrete t.source_type m)) t.source_properties
            eh)
          other (sym (rw (registered, load_trigger) refl) ∙ done)
  ]

  held-called :
      (o : Option (Instance S H)) (w : Watcher H) (k : String)
      → IsWatcher w o
      → held o k ≡ called w k
  unfolding new_watcher Dict.get
  held-called none w k (missing e) = sym (ap (λ x. called x k) e)
  held-called (some i) w k made = refl

  load_all :
      (ts : List (Trigger P × H)) (m n : Instances S H) (w : Watcher H) (k : String)
      → Registry.get reg watcher_type ≡ some resource_watcher
      → IsWatcher w (instance_of m)
      → load_triggers parsers reg m ts ≡ some n
      → held (instance_of n) k ≡ called w k ++ asked_for parsers k ts
  unfolding load_triggers asked_for
  load_all [] m n w k registered known done =
      ap (λ x. held (instance_of x) k) (sym (some-injective _ _ done))
      ∙ held-called (instance_of m) w k known
      ∙ sym (append-nil (called w k))
  load_all ((t, eh) ∷ ts) m n w k registered known done =
      elim (Option-cases (load_trigger parsers reg m t eh)) [
        | inl broken ↦ absurd (ground arith)
        | inr (m', loaded) ↦
            let rest : load_triggers parsers reg m' ts ≡ some n =
              sym (rw (loaded, load_triggers) refl) ∙ done in
            elim (String-discrete t.source_type watcher_type) [
              | yes named ↦
                  let (v, made_v, added) =
                    load_trigger-watcher m m' t eh w known registered named loaded in
                  load_all ts m' n v k registered made_v rest
                  ∙ ap (λ hs. hs ++ asked_for parsers k ts) (added k)
                  ∙ append_assoc (called w k) _ (asked_for parsers k ts)
                  ∙ ap (λ hs. called w k ++ (hs ++ asked_for parsers k ts))
                      (sym (if_pos (String-discrete t.source_type watcher_type) named _ _))
              | no other ↦
                  load_all ts m' n w k registered
                    (subst (IsWatcher w) (sym (load_trigger-other m m' t eh other loaded)) known)
                    rest
                  ∙ ap (λ hs. called w k ++ (hs ++ asked_for parsers k ts))
                      (sym (if_neg (String-discrete t.source_type watcher_type) other _ _))
            ]
      ]

  -- When the loop over the triggers ends without a panic, the instance of the resource watcher calls, for
  -- the events of a key, exactly the handlers of the triggers of that source whose properties parse and
  -- whose configuration has the key, in the order of the triggers.
  pub load_triggers-watched :
      (ts : List (Trigger P × H)) (n : Instances S H) (k : String)
      → Registry.get reg watcher_type ≡ some resource_watcher
      → load_triggers parsers reg [] ts ≡ some n
      → held (Dict.get String-discrete watcher_type n) k ≡ asked_for parsers k ts
  unfolding Dict.get new_watcher
  load_triggers-watched ts n k registered done =
      load_all ts [] n new_watcher k registered (missing refl) done
      ∙ ap (λ hs. hs ++ asked_for parsers k ts) {x = called new_watcher k} {y = []} refl
