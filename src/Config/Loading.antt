-- ===== src/Config/Loading.antt =====
-- What pkg/config loads and accepts.
use Prim.Native.String.{String}
use kube_trigger.Base.{
  ◌≡◌, ◌≢◌, refl, sym, ap, ◌∙◌, Bool, true, false, not, ◌↔◌, Option, none, some, ite, List, [], ◌∷◌,
  ◌++◌, arith, map, if◌then◌else◌,
}
use mathlib.Core.List.{append_assoc, append-nil}
use kube_trigger.Base.Dict
use kube_trigger.Base.Text.{String-discrete}
use kube_trigger.Source.Registry.{Registry, get}
use kube_trigger.Config.{
  Trigger, validate, validate_all, Files, Read, ok, err, unsupported_extension, no_file, unreadable,
  unparsable, parse_from_file, load_files, new_from_file_or_dir, find_files_in_dir, plain_files,
  parse_content, parsers, json_parser, yaml_parser, cue_parser,
}

-- Every trigger has a source that is registered and an action whose definition is found.
abbrev pub AllKnown : {P : Type 0} → Registry → (String → Bool) → List (Trigger P) → Type 0
AllKnown reg load [] = Unit {0}
AllKnown reg load (t ∷ ts) =
    (get reg t.source_type ≢ none) × (load t.action_type ≡ true) × AllKnown reg load ts

module _ {P : Type 0} (reg : Registry) (load : String → Bool) where
  validate_all_sound :
      (ts : List (Trigger P)) → validate_all reg load ts ≡ none → AllKnown reg load ts
  unfolding validate_all
  validate_all_sound [] h = tt
  validate_all_sound (t ∷ ts) h = (ground arith, ground arith, validate_all_sound ts (ground arith))

  validate_all_complete :
      (ts : List (Trigger P)) → AllKnown reg load ts → validate_all reg load ts ≡ none
  unfolding validate_all
  validate_all_complete [] h = refl
  validate_all_complete (t ∷ ts) h = ground (arith, validate_all_complete ts h.2)

  -- A configuration is accepted exactly when it has a trigger, and every trigger names a registered
  -- source and an action whose definition is found.
  pub validate-AllKnown :
      (ts : List (Trigger P)) → (validate reg load ts ≡ none) ↔ ((ts ≢ []) × AllKnown reg load ts)
  unfolding validate
  validate-AllKnown [] = (λ h. cc, λ h. absurd (h.0 refl))
  validate-AllKnown (t ∷ ts) =
      (λ h. (λ e. cc, validate_all_sound (t ∷ ts) h), λ h. validate_all_complete (t ∷ ts) h.1)

unfoldable pub filter {ℓ} : {A : Type ℓ} → (A → Bool) → List A → List A
filter p [] = []
filter p (a ∷ as') = let rest = filter p as' in if p a then a ∷ rest else rest

-- The names of the entries that are no directories.
unfoldable pub plain_names : List (String × Bool) → List String
unfolding filter
plain_names entries = map (λ e. e.0) (filter (λ e. not e.1) entries)

-- The specification of one file: its extension tells its format, and CUE is read by way of JSON.
pub data Format : Type 0 where
  cue json yaml : Format

unfoldable pub format : String → Option Format
format ext = ite (String-discrete ext ".cue") (some cue) (
    ite (String-discrete ext ".yaml") (some yaml) (
      ite (String-discrete ext ".yml") (some yaml)
        (ite (String-discrete ext ".json") (some json) none)))

-- The specification of many: the triggers of the files that a parser takes, in the order of the files; the first error that is
-- not about the extension ends it.
pub collected : {P : Type 0} → List (Read (List (Trigger P))) → Read (List (Trigger P))
collected [] = ok []
collected (r ∷ rs) =
    let rest = collected rs in
    elim r [
      | ok ts ↦ elim rest [ ok more ↦ ok (ts ++ more) | err e ↦ err e ]
      | err unsupported_extension ↦ rest
      | err e ↦ err e
    ]

abbrev pub prepend :
    {P : Type 0} → List (Trigger P) → Read (List (Trigger P)) → Read (List (Trigger P))
prepend acc (ok ts) = ok (acc ++ ts)
prepend acc (err e) = err e

prepend-nil : {P : Type 0} (r : Read (List (Trigger P))) → prepend [] r ≡ r
prepend-nil (ok ts) = refl
prepend-nil (err e) = refl

prepend_append :
    {P : Type 0} (acc ts : List (Trigger P)) (r : Read (List (Trigger P)))
    → prepend (acc ++ ts) r ≡ prepend acc (elim r [ ok more ↦ ok (ts ++ more) | err e ↦ err e ])
prepend_append acc ts (ok more) = ap ok (append_assoc acc ts more)
prepend_append acc ts (err e) = refl

module _ {C P : Type 0} (files : Files C P) where
  unfoldable pub decode : Format → C → Option (List (Trigger P))
  decode cue c = elim (files.cue_json c) [ none ↦ none | some j ↦ files.unmarshal_json j ]
  decode json c = files.unmarshal_json c
  decode yaml c = files.unmarshal_yaml c

  unfoldable pub decoded : Option C → Format → Read (List (Trigger P))
  decoded none f = err unreadable
  decoded (some c) f = elim (decode f c) [ none ↦ err unparsable | some ts ↦ ok ts ]

  pub file_read : String → Read (List (Trigger P))
  unfolding format decoded
  file_read path = elim (format (files.ext path)) [
    | none ↦ err unsupported_extension
    | some f ↦ decoded (files.read_file path) f
  ]

  parse_content-decoded :
      (o : Option C) (parser : C → Option (List (Trigger P))) (f : Format)
      → ((c : C) → parser c ≡ decode f c)
      → parse_content files o parser ≡ decoded o f
  unfolding parse_content decoded
  parse_content-decoded none parser f same = refl
  parse_content-decoded (some c) parser f same =
      ap (λ r. elim r [ none ↦ err unparsable | some ts ↦ ok ts ]) (same c)

  -- Four decisions, and what each comes to.
  chosen-decoded :
      {A B D E : Type 0} (path : String) (a : Dec A) (b : Dec B) (d : Dec D) (e : Dec E)
      → (elim (ite a (some (cue_parser files)) (
          ite b
            (some (yaml_parser files))
            (ite d (some (yaml_parser files)) (ite e (some (json_parser files)) none)))) [
              | none ↦ err unsupported_extension
              | some parser ↦ parse_content files (files.read_file path) parser
            ])
        ≡ elim (ite a (some cue) (ite b (some yaml) (ite d (some yaml) (ite e (some json) none)))) [
          | none ↦ err unsupported_extension
          | some f ↦ decoded (files.read_file path) f
        ]
  unfolding decode json_parser yaml_parser cue_parser
  chosen-decoded path (yes _) b d e = parse_content-decoded (files.read_file path) _ cue (λ c. refl)
  chosen-decoded path (no _) (yes _) d e =
      parse_content-decoded (files.read_file path) _ yaml (λ c. refl)
  chosen-decoded path (no _) (no _) (yes _) e =
      parse_content-decoded (files.read_file path) _ yaml (λ c. refl)
  chosen-decoded path (no _) (no _) (no _) (yes _) =
      parse_content-decoded (files.read_file path) _ json (λ c. refl)
  chosen-decoded path (no _) (no _) (no _) (no _) = refl

  parse_from_file-file_read : (path : String) → parse_from_file files path ≡ file_read path
  unfolding file_read format parse_from_file Dict.get parsers
  parse_from_file-file_read path =
      let ext = files.ext path in
      chosen-decoded path (String-discrete ext ".cue") (String-discrete ext ".yaml")
        (String-discrete ext ".yml") (String-discrete ext ".json")

  parsed-plain_files :
      (at : String → String) (entries : List (String × Bool))
      → map (parse_from_file files) (plain_files at entries)
        ≡ map (λ name. file_read (at name)) (plain_names entries)
  unfolding plain_files plain_names filter
  parsed-plain_files at [] = refl
  parsed-plain_files at ((name, true) ∷ rest) = parsed-plain_files at rest
  parsed-plain_files at ((name, false) ∷ rest) =
      rw (parse_from_file-file_read (at name), parsed-plain_files at rest)

  read_all : List String → Read (List (Trigger P))
  read_all fs = collected (map (parse_from_file files) fs)

  load_one :
      (f : String) (fs : List String) (acc : List (Trigger P)) (r : Read (List (Trigger P)))
      → parse_from_file files f ≡ r
      → ((acc' : List (Trigger P)) → load_files files fs acc' ≡ prepend acc' (read_all fs))
      → load_files files (f ∷ fs) acc ≡ prepend acc (read_all (f ∷ fs))
  unfolding load_files collected read_all
  load_one f fs acc (ok ts) e ih =
      rw (e, load_files, collected) (ih (acc ++ ts) ∙ prepend_append acc ts (read_all fs))
  load_one f fs acc (err no_file) e ih = rw (e, load_files, collected)
  load_one f fs acc (err unsupported_extension) e ih =
      rw (e, load_files, collected) (rw append-nil (ih acc))
  load_one f fs acc (err unreadable) e ih = rw (e, load_files, collected)
  load_one f fs acc (err unparsable) e ih = rw (e, load_files, collected)

  load_files-prepend :
      (fs : List String) (acc : List (Trigger P))
      → load_files files fs acc ≡ prepend acc (read_all fs)
  unfolding load_files collected read_all
  load_files-prepend [] acc = ap ok (sym (append-nil acc))
  load_files-prepend (f ∷ fs) acc =
      load_one f fs acc (parse_from_file files f) refl (load_files-prepend fs)

  load_files-collected :
      (fs : List String) → load_files files fs [] ≡ collected (map (parse_from_file files) fs)
  unfolding read_all
  load_files-collected fs =
      load_files-prepend fs [] ∙ prepend-nil (collected (map (parse_from_file files) fs))

  -- A directory gives the triggers of its files with a known extension, in the order of its entries;
  -- its sub-directories and the other files are skipped, and the first file that cannot be read or
  -- parsed ends the loading with its error and without triggers.
  pub new_from_file_or_dir-collected :
      (path : String) (entries : List (String × Bool))
      → files.stat path ≡ some true
      → files.read_dir path ≡ some entries
      → new_from_file_or_dir files path
        ≡ collected (map (λ name. file_read (files.join path name)) (plain_names entries))
  unfolding new_from_file_or_dir find_files_in_dir
  new_from_file_or_dir-collected path entries is_dir listed =
      rw (is_dir, listed, new_from_file_or_dir, find_files_in_dir)
        (load_files-collected (plain_files (files.join path) entries)
          ∙ ap collected (parsed-plain_files (files.join path) entries))
