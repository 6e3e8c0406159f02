-- ===== src/Base/Text.antt =====
-- Decidable equality of texts, in the form that maps and sets take.
use Prim.Native.String.{String}
use text.Mathlib.Text.{◌==◌}
use text.Mathlib.TextEquality.{eq_iff}
use mathlib.Core.Path.{sym, ◌∙◌}
use mathlib.Core.Bool.{false≢true}
use mathlib.Core.Logic.{inl, inr}
use kube_trigger.Base.Tests.{Bool-cases}

unfoldable pub String-discrete : Discrete String
unfolding Bool-cases
String-discrete a b = elim (Bool-cases (a == b)) [
  | inl e ↦ yes ((eq_iff a b).0 e)
  | inr n ↦ no (λ p. false≢true (sym n ∙ (eq_iff a b).1 p))
]
