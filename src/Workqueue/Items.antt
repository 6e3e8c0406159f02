-- ===== src/Workqueue/Items.antt =====
-- The type `set` of pkg/workqueue/queue.go: a Go map with empty values, as a list of its keys.
use kube_trigger.Base.{
  suc, ◌≡◌, refl, sym, ap, subst, ite, if_pos, if_neg, true, false, List, [], ◌∷◌, arith,
  if◌then◌else◌, length, has, IsDistinct, Bool-cases, inl, inr,
}

-- `delete` takes out every copy of the key, so that it serves for any list; `insert` adds no copy.
module _ {ℓ} {K : Type ℓ} (dec : Discrete K) where
  unfoldable pub insert : K → List K → List K
  insert x s = if has dec x s then s else x ∷ s

  unfoldable pub delete : K → List K → List K
  delete x [] = []
  delete x (y ∷ ys) = let rest = delete x ys in ite (dec x y) rest (y ∷ rest)

  pub has-insert :
      (y x : K) (s : List K) → has dec y (insert x s) ≡ ite (dec y x) true (has dec y s)
  unfolding insert has
  has-insert y x s = ground arith

  pub has-delete :
      (y x : K) (s : List K) → has dec y (delete x s) ≡ ite (dec y x) false (has dec y s)
  unfolding delete has
  has-delete y x [] = ground arith
  has-delete y x (z ∷ zs) = elim (dec x z) [
    | yes e ↦ rw (if_pos _ e, has-delete y x zs) (ground arith)
    | no n ↦ rw (if_neg _ n) (ground (arith, has-delete y x zs))
  ]

  pub insert-IsDistinct : (x : K) (s : List K) → IsDistinct dec s → IsDistinct dec (insert x s)
  unfolding insert
  insert-IsDistinct x s d = elim (Bool-cases (has dec x s)) [
    | inl old ↦ rw old d
    | inr new ↦ rw new (new, d)
  ]

  pub delete-IsDistinct : (x : K) (s : List K) → IsDistinct dec s → IsDistinct dec (delete x s)
  unfolding delete
  delete-IsDistinct x [] d = tt
  delete-IsDistinct x (y ∷ ys) d = elim (dec x y) [
    | yes e ↦ rw (if_pos _ e) (delete-IsDistinct x ys d.1)
    | no n ↦ rw (if_neg _ n) (ground (arith, has-delete y x ys), delete-IsDistinct x ys d.1)
  ]

  pub length-insert :
      (x : K) (s : List K) → has dec x s ≡ false → length (insert x s) ≡ suc (length s)
  unfolding insert
  length-insert x s new = rw new

  pub delete_absent : (x : K) (s : List K) → has dec x s ≡ false → delete x s ≡ s
  unfolding delete has
  delete_absent x [] absent = refl
  delete_absent x (y ∷ ys) absent = elim (dec x y) [
    | yes e ↦ absurd (ground arith)
    | no n ↦ rw (if_neg _ n) (ap (◌∷◌ y) (delete_absent x ys (ground arith)))
  ]

  pub length-delete :
      (x : K) (s : List K)
      → has dec x s ≡ true
      → IsDistinct dec s
      → suc (length (delete x s)) ≡ length s
  unfolding delete has
  length-delete x [] here d = absurd (cc)
  length-delete x (y ∷ ys) here d = elim (dec x y) [
    | yes e ↦ rw (if_pos _ e) (
        ap (λ l. suc (length l))
          (delete_absent x ys (subst (λ z. has dec z ys ≡ false) (sym e) d.0)))
    | no n ↦ rw (if_neg _ n) (ap suc (length-delete x ys (ground arith) d.1))
  ]
