-- ===== src/Filter.antt =====
-- pkg/filter/filter.go: whether an event passes the filter of a trigger. CUE is a library that the
-- program calls.
use Prim.Native.String.{String, ◌++◌ as join}
use kube_trigger.Base.{
  ◌≡◌, Bool, true, false, Option, none, some, List, [], ◌∷◌, ◌++◌, arith, if◌then◌else◌,
}

-- What the file uses of CUE: parsing (`ParseFile` and `fix.File`, with the declarations, and whether
-- the list of imports is nil), formatting (`format.Node`; `trim_space` is Go's `strings.TrimSpace`), compiling, and looking at a value.
pub record Cue (V D : Type 0) : Type 0 where
  pub parse : String → Option (List D × Bool)
  pub is_import : D → Bool
  pub format : List D → Option String
  pub trim_space : String → String
  pub compile : String → Option V
  pub fails : V → Bool
  pub lookup : V → String → V
  pub exists : V → Bool
  pub as_bool : V → Option Bool

pub data FilterError : Type 0 where
  bad_template bad_compile bad_value bad_result : FilterError

-- One turn of the loop over the declarations appends to one of the two slices.
unfoldable pub split_decls : {D : Type 0} → (D → Bool) → List D × List D → List D → List D × List D
split_decls is_import acc [] = acc
split_decls is_import (imports, contents) (d ∷ ds) =
    split_decls is_import
      (if is_import d then (imports ++ d ∷ [], contents) else (imports, contents ++ d ∷ [])) ds

-- `fmt.Sprintf(filterTemplate, …)`.
abbrev pub filter_template : String → String → String
filter_template imports content =
    join "\n" (join imports (join "\nfilter: {\n\t" (join content "\n}\n")))

module _ {V D : Type 0} (cue : Cue V D) where
  unfoldable pub encode_decls_to_string : List D → Option String
  encode_decls_to_string decls = elim (cue.format decls) [
    | none ↦ none
    | some bytes ↦ some (cue.trim_space bytes)
  ]

  unfoldable pub encode_both : List D × List D → Option String
  encode_both (imports, contents) = elim (encode_decls_to_string imports) [
    | none ↦ none
    | some i ↦ elim (encode_decls_to_string contents) [
      | none ↦ none
      | some c ↦ some (filter_template i c)
    ]
  ]

  unfoldable pub build_filter_template : String → Option String
  build_filter_template filter = elim (cue.parse filter) [
    | none ↦ none
    | some (decls, no_imports) ↦
        if no_imports
        then some (join "filter: " filter)
        else encode_both (split_decls cue.is_import ([], []) decls)
  ]

  -- The value that decides: `filter.filter` if it exists, and else `filter`.
  unfoldable pub decide : V → Bool × Option FilterError
  decide v =
      let inner = cue.lookup v "filter.filter" in
      let result = if cue.exists inner then inner else cue.lookup v "filter" in
      if cue.fails result
      then (false, some bad_result)
      else elim (cue.as_bool result) [ none ↦ (true, none) | some b ↦ (b, none) ]

  unfoldable pub apply_filter : String → Bool × Option FilterError
  apply_filter filter = elim (build_filter_template filter) [
    | none ↦ (false, some bad_template)
    | some template ↦ elim (cue.compile template) [
      | none ↦ (false, some bad_compile)
      | some v ↦ if cue.fails v then (false, some bad_value) else decide v
    ]
  ]

  -- An error of any stage filters the event out.
  pub apply_filter_error :
      (filter : String) (e : FilterError)
      → (apply_filter filter).1 ≡ some e
      → (apply_filter filter).0 ≡ false
  unfolding apply_filter decide
  apply_filter_error filter e h = ground arith
