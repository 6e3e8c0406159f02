-- ===== src/Workqueue/WaitingLoop/Expiry.antt =====
-- The loop that adds ready entries, in the waiting loops of pkg/workqueue.
use kube_trigger.Base.{
  ℕ, zero, suc, ◌≤◌, ◌<◌, ◌≡◌, refl, sym, ap, ◌∙◌, arith, Bool, true, false, List, [], ◌∷◌, leb,
  if◌then◌else◌, Option, none, some, Option-cases, Bool-cases, inl, inr, if_pos, if_neg, has,
  has-cons, IsDistinct,
}
use kube_trigger.Workqueue.PriorityQueue.{Waiting, key, peek, take_first}
use kube_trigger.Workqueue.PriorityQueue.Mapped.{IsValid}
use kube_trigger.Workqueue.PriorityQueue.Due.{due}
use kube_trigger.Workqueue.PriorityQueue.Removal.{take_first-Removes, due-entry}
use kube_trigger.Workqueue.PriorityQueue.Order.{root_least}
use kube_trigger.Workqueue.WaitingLoop.{is_settled, expire}

-- Whether there is a time, and it has come.
abbrev pub is_past : ℕ → Option ℕ → Bool
is_past now none = false
is_past now (some t) = leb t now

-- A time that is still to come.
abbrev pub still : ℕ → Option ℕ → Option ℕ
still now none = none
still now (some t) = if leb t now then none else some t

module _ {K : Type 0} (dec : Discrete K) where
  -- At the end of the loop no key is due.
  pub is_settled-due :
      (now : ℕ) (w : Waiting K) (j : K) (t n : ℕ)
      → IsValid dec w
      → w.queue.size ≡ n
      → is_settled now w n ≡ true
      → due dec w j ≡ some t
      → now < t
  unfolding is_settled peek
  is_settled-due now w j t zero v size over h =
      let (i, less, at) = due-entry dec w j t v h in absurd (omega arith)
  is_settled-due now w j t (suc n) v size over h =
      let (i, less, at) = due-entry dec w j t v h in
      ground (arith, root_least w.queue.size w.queue i v.heap less)

  -- What the loop comes to at a time, from one heap to another.
  abbrev pub Expires : ℕ → Waiting K → Waiting K × List K → Type 0
  Expires now w r =
      IsValid dec r.0
      × ((j : K) → due dec r.0 j ≡ still now (due dec w j))
      × ((j : K) → has dec j r.1 ≡ is_past now (due dec w j))
      × IsDistinct dec r.1

  settled-Expires :
      (now : ℕ) (w : Waiting K)
      → IsValid dec w
      → is_settled now w w.queue.size ≡ true
      → Expires now w (w, [])
  unfolding has
  settled-Expires now w v over = (
    v,
    (λ j. elim (Option-cases (due dec w j)) [
      | inl none_due ↦ rw (none_due)
      | inr (t, h) ↦
          let later : leb t now ≡ false =
            ground (arith, is_settled-due now w j t w.queue.size v refl over h) in
          rw (h, later)
    ]),
    (λ j. elim (Option-cases (due dec w j)) [
      | inl none_due ↦ rw (none_due)
      | inr (t, h) ↦
          let later : leb t now ≡ false =
            ground (arith, is_settled-due now w j t w.queue.size v refl over h) in
          rw (h, later)
    ]),
    tt,
  )

  unsettled-past :
      (now : ℕ) (w : Waiting K) (n : ℕ)
      → is_settled now w (suc n) ≡ false
      → leb (key w.queue 0) now ≡ true
  unfolding is_settled peek
  unsettled-past now w n h = ground arith

  -- One turn, and then the rest of the loop.
  turn-Expires :
      (now n : ℕ) (w : Waiting K) (r : Waiting K × List K)
      → IsValid dec w
      → w.queue.size ≡ suc n
      → is_settled now w (suc n) ≡ false
      → Expires now (take_first dec w).0 r
      → Expires now w (r.0, (take_first dec w).1 ∷ r.1)
  unfolding has
  turn-Expires now n w r v size open_ (valid, dues, handed, distinct) =
      let ((_, without), first, _, _) = take_first-Removes dec w n v size in
      let k = (take_first dec w).1 in
      let past = unsettled-past now w n open_ in
      (
        valid,
        (λ j. elim (dec j k) [
          | yes e ↦
              let here : due dec w j ≡ some (key w.queue 0) = ap (due dec w) e ∙ first in
              let gone : due dec (take_first dec w).0 j ≡ none =
                without j ∙ if_pos (dec j k) e _ _ in
              dues j ∙ rw (here, gone, past)
          | no ne ↦ dues j ∙ ap (still now) (without j ∙ if_neg (dec j k) ne _ _)
        ]),
        (λ j. elim (dec j k) [
          | yes e ↦
              let here : due dec w j ≡ some (key w.queue 0) = ap (due dec w) e ∙ first in
              has-cons dec j k r.1 ∙ rw (here, past) (if_pos (dec j k) e _ _)
          | no ne ↦
              has-cons dec j k r.1
              ∙ if_neg (dec j k) ne _ _
              ∙ handed j
              ∙ ap (is_past now) (without j ∙ if_neg (dec j k) ne _ _)
        ]),
        (
          handed k ∙ ap (is_past now) (without k ∙ if_pos (dec k k) refl none (due dec w k)),
          distinct,
        ),
      )

  expire-Expires_sized :
      (f now n : ℕ) (w : Waiting K)
      → IsValid dec w
      → w.queue.size ≡ n
      → n ≤ f
      → Expires now w (expire dec f now w)
  unfolding expire is_settled
  expire-Expires_sized zero now n w v size enough =
      let none_left : w.queue.size ≡ 0 = omega arith in
      settled-Expires now w v (ap (is_settled now w) none_left)
  expire-Expires_sized (suc f) now zero w v size enough =
      let over : is_settled now w w.queue.size ≡ true = ap (is_settled now w) size in
      rw (over, expire) (settled-Expires now w v over)
  expire-Expires_sized (suc f) now (suc n) w v size enough =
      elim (Bool-cases (is_settled now w w.queue.size)) [
        | inl over ↦ rw (over, expire) (settled-Expires now w v over)
        | inr more ↦
            let ((valid, _), _, _, smaller) = take_first-Removes dec w n v size in
            let rest =
              expire-Expires_sized f now n (take_first dec w).0 valid smaller (omega arith) in
            let open_ = sym (ap (is_settled now w) size) ∙ more in
            rw (more, expire) (turn-Expires now n w _ v size open_ rest)
      ]

  -- With fuel for every entry of a valid heap, the loop that adds ready entries ends at a valid heap.
  -- It hands over, once each, exactly the keys that are due by its time, and every other key is
  -- due afterwards when it was.
  pub expire-Expires :
      (f now : ℕ) (w : Waiting K)
      → IsValid dec w
      → w.queue.size ≤ f
      → Expires now w (expire dec f now w)
  expire-Expires f now w v enough = expire-Expires_sized f now w.queue.size w v refl enough
