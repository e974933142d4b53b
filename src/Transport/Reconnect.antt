-- ===== src/Transport/Reconnect.antt =====
-- crates/openim-transport-core/src/lib.rs: `ReconnectPolicy`. A `Duration` is its number of
-- milliseconds.
use native.Mathlib.Nat.{pow-le-pow_right, mul-le-mul_left}
use openim_sdk_core_rust.Base.{
  ℕ, ◌-◌, ◌*◌, ◌^◌, ◌≤◌, ◌<◌, min, ◌≡◌, Bool, ◌&&◌, ◌||◌, Option, some, none, arith, ltb, leb,
  is_some, ◌==◌, if◌then◌else◌, inl, inr, Bool-cases,
}

pub record ReconnectPolicy : Type 0 where
  pub max_attempts : ℕ
  pub initial_delay : ℕ
  pub max_delay : ℕ

abbrev pub default_policy : ReconnectPolicy
default_policy = record { max_attempts = 5; initial_delay = 300; max_delay = 5000 }

abbrev pub gives_up : ReconnectPolicy → ℕ → Bool
gives_up p attempt = attempt == 0 || (ltb 0 p.max_attempts && ltb p.max_attempts attempt)

-- `saturating_mul` of a `u128`, cut to the largest delay and to a `u64`
abbrev pub delay_ms : ReconnectPolicy → ℕ → ℕ
delay_ms p attempt =
    let shift = min (attempt - 1) 31 in
    min (min (min (p.initial_delay * 2 ^ shift) (2 ^ 128 - 1)) p.max_delay) (2 ^ 64 - 1)

unfoldable pub delay_for_attempt : ReconnectPolicy → ℕ → Option ℕ
delay_for_attempt p attempt = if gives_up p attempt then none else some (delay_ms p attempt)

delay_ms_mono : (p : ReconnectPolicy) (a b : ℕ) → a ≤ b → delay_ms p a ≤ delay_ms p b
delay_ms_mono p a b h =
    let shifts : min (a - 1) 31 ≤ min (b - 1) 31 = omega arith in
    let powers : 2 ^ min (a - 1) 31 ≤ 2 ^ min (b - 1) 31 =
      pow-le-pow_right {n = 2} (omega arith) shifts in
    let products : p.initial_delay * 2 ^ min (a - 1) 31 ≤ p.initial_delay * 2 ^ min (b - 1) 31 =
      mul-le-mul_left p.initial_delay powers in
    omega (arith, products)

made : (p : ReconnectPolicy) (a : ℕ) {d : ℕ} → delay_for_attempt p a ≡ some d → delay_ms p a ≡ d
unfolding delay_for_attempt
made p a {d} h = elim (Bool-cases (gives_up p a)) [
  | inl over ↦ ground (arith, over)
  | inr on ↦ ground (arith, on)
]

-- A delay never exceeds the policy's largest one and fits a `u64`, and a later attempt that is
-- still made never waits less than an earlier one.
pub delay_for_attempt_monotone :
    (p : ReconnectPolicy) (a b : ℕ) {d e : ℕ}
    → a ≤ b
    → delay_for_attempt p a ≡ some d
    → delay_for_attempt p b ≡ some e
    → (d ≤ e) × (e ≤ p.max_delay) × (e < 2 ^ 64)
delay_for_attempt_monotone p a b {d} {e} h first later =
    let before = made p a {d = d} first in
    let after_it = made p b {d = e} later in
    (
      omega (arith, before, after_it, delay_ms_mono p a b h),
      omega (arith, after_it),
      omega (arith, after_it),
    )

-- An attempt is made exactly when it is counted from 1 and within the policy's limit, where 0
-- means that there is none.
pub delay_for_attempt_defined :
    (p : ReconnectPolicy) (attempt : ℕ)
    → is_some (delay_for_attempt p attempt)
      ≡ (ltb 0 attempt && (p.max_attempts == 0 || leb attempt p.max_attempts))
unfolding delay_for_attempt
delay_for_attempt_defined p attempt = ground arith
