-- ===== src/Config.antt =====
-- pkg/config: the configuration of triggers (config.go) and where it is read from (parser.go).
pub mod Loading
mod Tests
use Prim.Native.String.{String}
use kube_trigger.Base.{
  ◌≡◌, Bool, true, false, Option, none, some, List, [], ◌∷◌, ◌++◌, if◌then◌else◌,
}
use kube_trigger.Base.Dict
use kube_trigger.Base.Text.{String-discrete}
use kube_trigger.Source.Registry.{Registry, get}

-- `TriggerMeta` of api/v1alpha1/triggerservice_types.go; `P` are the raw properties.
pub record Trigger (P : Type 0) : Type 0 where
  pub source_type : String
  pub source_properties : P
  pub filter : String
  pub action_type : String
  pub action_properties : P

pub data ConfigError : Type 0 where
  no_triggers : ConfigError
  no_source no_action : String → ConfigError

-- `load` tells whether the template loader finds the definition of an action.
unfoldable pub validate_all :
    {P : Type 0} → Registry → (String → Bool) → List (Trigger P) → Option ConfigError
validate_all reg load [] = none
validate_all reg load (t ∷ ts) =
    let rest = validate_all reg load ts in
    elim (get reg t.source_type) [
      | none ↦ some (no_source t.source_type)
      | some _ ↦ if load t.action_type then rest else some (no_action t.action_type)
    ]

unfoldable pub validate :
    {P : Type 0} → Registry → (String → Bool) → List (Trigger P) → Option ConfigError
validate reg load [] = some no_triggers
validate reg load (t ∷ ts) = validate_all reg load (t ∷ ts)

-- Reading: the file system, the joining of paths and the decoders are given. `C` is the content of a
-- file, `stat` tells whether a path is a directory, and `cue_json` is `CompileString`, then
-- `MarshalJSON`.
pub data ReadError : Type 0 where
  no_file unsupported_extension unreadable unparsable : ReadError

pub data Read (A : Type 0) : Type 0 where
  ok : A → Read A
  err : ReadError → Read A

pub record Files (C P : Type 0) : Type 0 where
  pub stat : String → Option Bool
  pub read_dir : String → Option (List (String × Bool))
  pub join : String → String → String
  pub ext : String → String
  pub read_file : String → Option C
  pub cue_json : C → Option C
  pub unmarshal_json : C → Option (List (Trigger P))
  pub unmarshal_yaml : C → Option (List (Trigger P))

-- The loop of `findFilesInDir` over the entries of a directory: name, and whether it is one itself.
unfoldable pub plain_files : (String → String) → List (String × Bool) → List String
plain_files path [] = []
plain_files path ((name, is_dir) ∷ rest) =
    let more = plain_files path rest in if is_dir then more else path name ∷ more

module _ {C P : Type 0} (files : Files C P) where
  unfoldable pub find_files_in_dir : String → Option (List String)
  find_files_in_dir dir = elim (files.read_dir dir) [
    | none ↦ none
    | some entries ↦ some (plain_files (files.join dir) entries)
  ]

  unfoldable pub json_parser : C → Option (List (Trigger P))
  json_parser c = files.unmarshal_json c

  unfoldable pub yaml_parser : C → Option (List (Trigger P))
  yaml_parser c = files.unmarshal_yaml c

  unfoldable pub cue_parser : C → Option (List (Trigger P))
  cue_parser c = elim (files.cue_json c) [ none ↦ none | some j ↦ files.unmarshal_json j ]

  -- The table `parsers`.
  unfoldable pub parsers : List (String × (C → Option (List (Trigger P))))
  parsers =
      (".cue", cue_parser)
      ∷ (".yaml", yaml_parser)
      ∷ (".yml", yaml_parser)
      ∷ (".json", json_parser)
      ∷ []

  unfoldable pub parse_content :
      Option C → (C → Option (List (Trigger P))) → Read (List (Trigger P))
  parse_content none parser = err unreadable
  parse_content (some c) parser = elim (parser c) [ none ↦ err unparsable | some ts ↦ ok ts ]

  unfoldable pub parse_from_file : String → Read (List (Trigger P))
  parse_from_file path = elim (Dict.get String-discrete (files.ext path) parsers) [
    | none ↦ err unsupported_extension
    | some parser ↦ parse_content (files.read_file path) parser
  ]

  -- The loop over the files of a directory: a file with another extension is skipped.
  unfoldable pub load_files : List String → List (Trigger P) → Read (List (Trigger P))
  load_files [] acc = ok acc
  load_files (f ∷ fs) acc =
      let more = λ (ts : List (Trigger P)). load_files fs (acc ++ ts) in
      elim (parse_from_file f) [
        | ok ts ↦ more ts
        | err unsupported_extension ↦ more []
        | err e ↦ err e
      ]

  unfoldable pub new_from_file_or_dir : String → Read (List (Trigger P))
  new_from_file_or_dir path = elim (files.stat path) [
    | none ↦ err no_file
    | some is_dir ↦
        if is_dir
        then elim (find_files_in_dir path) [ none ↦ err no_file | some fs ↦ load_files fs [] ]
        else parse_from_file path
  ]
