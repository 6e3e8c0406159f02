-- ===== src/Base/Dict.antt =====
-- Go maps as association lists, over a key type with decidable equality.
use mathlib.Core.Path.{◌≡◌, refl, sym, ◌∙◌}
use mathlib.Core.Logic.{ite, if_pos, if_neg}
use mathlib.Core.Option.{Option, none, some}
use mathlib.Core.List.{List, [], ◌∷◌}

module _ {ℓ κ} {K : Type ℓ} {V : Type κ} (dec : Discrete K) where
  unfoldable pub get : K → List (K × V) → Option V
  get k [] = none
  get k ((j, v) ∷ m) = ite (dec k j) (some v) (get k m)

  unfoldable pub put : K → V → List (K × V) → List (K × V)
  put k v [] = (k, v) ∷ []
  put k v ((j, w) ∷ m) = ite (dec k j) ((k, v) ∷ m) ((j, w) ∷ put k v m)

  -- Takes out every entry of the key.
  unfoldable pub remove : K → List (K × V) → List (K × V)
  remove k [] = []
  remove k ((j, w) ∷ m) = let rest = remove k m in ite (dec k j) rest ((j, w) ∷ rest)

  pub get-put :
      (j k : K) (v : V) (m : List (K × V)) → get j (put k v m) ≡ ite (dec j k) (some v) (get j m)
  unfolding get put
  get-put j k v [] = refl
  get-put j k v ((i, w) ∷ m) = elim (dec k i) [
    | yes e ↦ rw (if_pos _ e) (elim (dec j k) [
      | yes f ↦ simp (if_pos {C = Option V} (dec j k) f)
      | no n ↦
          simp (
            if_neg {C = Option V} (dec j k) n,
            if_neg {C = Option V} (dec j i) (λ g. n (g ∙ sym e)),
          )
    ])
    | no n ↦ rw (if_neg _ n) (elim (dec j i) [
      | yes f ↦
          simp (
            if_pos {C = Option V} (dec j i) f,
            if_neg {C = Option V} (dec j k) (λ g. n (sym g ∙ f)),
          )
      | no g ↦ simp (if_neg {C = Option V} (dec j i) g) (get-put j k v m)
    ])
  ]

  pub get-put_self : (k : K) (v : V) (m : List (K × V)) → get k (put k v m) ≡ some v
  get-put_self k v m = get-put k k v m ∙ if_pos (dec k k) refl (some v) (get k m)

  pub get-remove : (j k : K) (m : List (K × V)) → get j (remove k m) ≡ ite (dec j k) none (get j m)
  unfolding get remove
  get-remove j k [] = elim (dec j k) [ yes e ↦ rw (if_pos _ e) | no n ↦ rw (if_neg _ n) ]
  get-remove j k ((i, w) ∷ m) = elim (dec k i) [
    | yes e ↦
        rw (if_pos _ e, get-remove j k m)
          (elim (dec j k) [
            | yes f ↦ simp (if_pos {C = Option V} (dec j k) f)
            | no n ↦ simp (
              if_neg {C = Option V} (dec j k) n,
              if_neg {C = Option V} (dec j i) (λ g. n (g ∙ sym e)),
            )
          ])
    | no n ↦ rw (if_neg _ n) (elim (dec j i) [
      | yes f ↦
          simp (
            if_pos {C = Option V} (dec j i) f,
            if_neg {C = Option V} (dec j k) (λ g. n (sym g ∙ f)),
          )
      | no g ↦ simp (if_neg {C = Option V} (dec j i) g) (get-remove j k m)
    ])
  ]
