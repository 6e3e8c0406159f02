-- ===== src/Config/Tests.antt =====
-- Loading of pkg/config from a small directory.
use kube_trigger.Base.{ℕ, ◌≡◌, ◌≢◌, refl, true, false, ◌↔◌, none, some, [], ◌∷◌, map, if◌then◌else◌}
use text.Mathlib.Text.{◌==◌}
use kube_trigger.Source.Registry.{new_with_builtin_sources}
use kube_trigger.Config.{Trigger, validate, Files, new_from_file_or_dir}
use kube_trigger.Config.Loading.{
  AllKnown, validate-AllKnown, collected, file_read, plain_names, filter,
  new_from_file_or_dir-collected,
}

abbrev trigger : ℕ → Trigger ℕ
trigger n = record {
  source_type = "cronjob";
  source_properties = n;
  filter = "";
  action_type = "patch";
  action_properties = n;
}

-- Contents are numbers, and a file holds the trigger of its number.
abbrev files : Files ℕ ℕ
files = record {
  stat = λ path. some true;
  read_dir = λ path. some (("a.yaml", false) ∷ ("old", true) ∷ ("b.txt", false) ∷ []);
  join = λ dir name. name;
  ext = λ path. if path == "a.yaml" then ".yaml" else ".txt";
  read_file = λ path. some 3;
  cue_json = λ n. none;
  unmarshal_json = λ n. none;
  unmarshal_yaml = λ n. some (trigger n ∷ []);
}

validate-AllKnown_example :
    (validate new_with_builtin_sources (λ s. true) (trigger 1 ∷ []) ≡ none)
    ↔ ((trigger 1 ∷ [] ≢ []) × AllKnown new_with_builtin_sources (λ s. true) (trigger 1 ∷ []))
validate-AllKnown_example = validate-AllKnown new_with_builtin_sources (λ s. true) (trigger 1 ∷ [])

new_from_file_or_dir-collected_example :
    new_from_file_or_dir files "dir"
    ≡ collected (map (λ name. file_read files name) ("a.yaml" ∷ "b.txt" ∷ []))
unfolding plain_names filter
new_from_file_or_dir-collected_example =
    new_from_file_or_dir-collected files "dir"
      (("a.yaml", false) ∷ ("old", true) ∷ ("b.txt", false) ∷ []) refl refl
