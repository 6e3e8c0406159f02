-- ===== src/Action.antt =====
-- pkg/action/action.go: the job that a trigger hands to the executor.
use Prim.Native.String.{String}
use kube_trigger.Base.{Bool, false, Option, none, some, if◌then◌else◌}
use kube_trigger.Executor.{Jobs}

-- The struct `Job`; `P` are properties and `C` the data of an event.
pub record Job (P C : Type 0) : Type 0 where
  pub source_type : String
  pub id : String
  pub context : C
  pub properties : P
  pub template : String

-- `ActionMeta` of api/v1alpha1/triggerservice_types.go.
pub record ActionMeta (P : Type 0) : Type 0 where
  pub kind : String
  pub properties : P

pub data ActionError : Type 0 where
  no_template no_hash bad_render bad_value : ActionError

pub data Created (J : Type 0) : Type 0 where
  created : J → Created J
  failed : ActionError → Created J

module _ {P C : Type 0} where
  -- `load` is the template loader of github.com/kubevela/pkg for a type of action, with the template
  -- compiled, and `hash` the hash of hashstructure in base 16.
  unfoldable pub new :
      (String → Option String)
      → (ActionMeta P → Option String)
      → ActionMeta P
      → C
      → Created (Job P C)
  new load hash meta data_ = elim (load meta.kind) [
    | none ↦ failed no_template
    | some t ↦ elim (hash meta) [
      | none ↦ failed no_hash
      | some h ↦ created (record {
        source_type = meta.kind;
        id = h;
        context = data_;
        properties = meta.properties;
        template = t;
      })
    ]
  ]

  unfoldable pub allow_concurrency : Job P C → Bool
  allow_concurrency j = false

  -- `compile` renders a template with parameters and context, and says whether the value has an error.
  unfoldable pub run : (String → P → C → Option Bool) → Job P C → Option ActionError
  run compile j = elim (compile j.template j.properties j.context) [
    | none ↦ some bad_render
    | some bad ↦ if bad then some bad_value else none
  ]

  -- `Job` as the executor's interface of that name; `action.New` returns no nil without an error.
  abbrev pub jobs : Jobs (Job P C) String
  jobs = record { id = λ j. j.id; allow_concurrency = allow_concurrency; is_nil = λ j. false }
