-- ===== src/Base/Text.antt =====
-- Texts as the source uses them: order, decimal numbers, and the tests of `str`.
use Prim.Native.Char.{code}
use Prim.Native.Nat.{compare as compare_ℕ}
use Prim.Native.String.{◌++◌, compare, then as then_first}
use Prim.Native.String.compare
use text.Mathlib.Text.{◌==◌ as str_eq}
use openim_sdk_core_rust.Base.{
  ℕ, zero, suc, ◌/◌, ◌%◌, String, Ordering, ◌≡◌, refl, Bool, arith, ◌==◌, ltb, if◌then◌else◌,
}
use openim_sdk_core_rust.Base.Int.{ℤ, pos, negsuc}

-- `is_empty`
abbrev pub is_empty : String → Bool
is_empty s = str_eq s ""

abbrev pub swap : Ordering → Ordering
swap Ordering.lt = Ordering.gt
swap Ordering.eq = Ordering.eq
swap Ordering.gt = Ordering.lt

compare_ℕ_swap : (a b : ℕ) → compare_ℕ b a ≡ swap (compare_ℕ a b)
compare_ℕ_swap a b = ground arith

then_swap : (a b : Ordering) → then_first (swap a) (swap b) ≡ swap (then_first a b)
then_swap Ordering.lt b = refl
then_swap Ordering.eq b = refl
then_swap Ordering.gt b = refl

pub compare-swap : (s t : String) → compare t s ≡ swap (compare s t)
compare-swap String.[] String.[] = rw compare.nil-nil
compare-swap String.[] (String.◌∷◌ d t) = rw (compare.nil-cons, compare.cons-nil)
compare-swap (String.◌∷◌ c s) String.[] = rw (compare.nil-cons, compare.cons-nil)
compare-swap (String.◌∷◌ c s) (String.◌∷◌ d t) =
    rw
      (
        compare.cons-cons d c t s,
        compare.cons-cons c d s t,
        compare_ℕ_swap (code c) (code d),
        compare-swap s t,
      )
      (then_swap (compare_ℕ (code c) (code d)) (compare s t))

-- the decimal digit of a number below ten
abbrev digit : ℕ → String
digit n =
    if n == 0
    then "0"
    else if n == 1
    then "1"
    else if n == 2
    then "2"
    else if n == 3
    then "3"
    else if n == 4
    then "4"
    else if n == 5
    then "5"
    else if n == 6
    then "6"
    else if n == 7
    then "7"
    else if n == 8
    then "8"
    else "9"

-- on fuel above the number, which `to_string` gives
to_string_from : ℕ → ℕ → String
to_string_from zero n = ""
to_string_from (suc fuel) n =
    let higher = to_string_from fuel (n / 10) in
    if ltb n 10 then digit n else higher ++ digit (n % 10)

-- an unsigned number as `{}` prints it
unfoldable pub to_string : ℕ → String
unfolding to_string_from
to_string n = to_string_from (suc n) n

unfoldable pub to_string_ℤ : ℤ → String
unfolding to_string
to_string_ℤ (pos n) = to_string n
to_string_ℤ (negsuc n) = "-" ++ to_string (suc n)

prints : (to_string 0 ≡ "0") × (to_string 1005 ≡ "1005") × (to_string_ℤ (negsuc 41) ≡ "-42")
unfolding to_string to_string_ℤ
prints = (refl, refl, refl)
