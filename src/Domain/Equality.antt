-- ===== src/Domain/Equality.antt =====
-- `#[derive(PartialEq)]`: two values are equal when all their fields are.
use mathlib.Core.Bool.{decide, decide_iff}
use native.Mathlib.Decide.{ℕ_discrete}
use openim_sdk_core_rust.Base.{◌≡◌, String, Bool, true, ◌↔◌, arith, Bool-cases, inl, inr}
use openim_sdk_core_rust.Base.Int.{ℤ}
use openim_sdk_core_rust.Base.Keys.{string_eq}

pub differs : (s t : String) → string_eq.beq s t ≡ Bool.false → ¬ (s ≡ t)
differs s t e p = ground (arith, (string_eq.beq_iff s t).1 p)

unfoldable pub String_discrete : Discrete String
String_discrete s t = elim (Bool-cases (string_eq.beq s t)) [
  | inl e ↦ yes ((string_eq.beq_iff s t).0 e)
  | inr e ↦ no (differs s t e)
]

unfoldable pub ℤ_discrete : Discrete ℤ
unfolding ℕ_discrete
ℤ_discrete = hlevel ℕ_discrete

module _ {A : Type 0} (discrete : Discrete A) where
  -- `==` of a type that derives it
  unfoldable pub equal : A → A → Bool
  unfolding decide
  equal a b = decide (discrete a b)

  pub equal_iff : (a b : A) → (equal a b ≡ true) ↔ (a ≡ b)
  unfolding equal
  equal_iff a b = decide_iff (discrete a b)
