-- ===== src/Domain/File/Limit/Bounds.antt =====
-- How large the parts of a file are, and how many there are.
use native.Mathlib.Nat.{mul_comm, lt_of_mul-lt-mul_right, div-add-mod, mod-lt}
use mathlib.Core.Path.{subst}
use openim_sdk_core_rust.Base.{
  ℕ, zero, suc, ◌+◌, ◌-◌, ◌*◌, ◌/◌, ◌%◌, ◌^◌, ◌≤◌, ◌<◌, min, ◌≡◌, refl, inl, inr, sym, ap, ◌∙◌, [],
  length, arith, ltb, leb, ◌==◌, Bool-cases, if◌then◌else◌, some,
}
use openim_sdk_core_rust.Errors.{passed, ok_or-ok, ok, ok_injective}
use openim_sdk_core_rust.Domain.File.Types.{FileDigest}
use openim_sdk_core_rust.Domain.File.Plan.{MultipartUploadPlan, plan_multipart, parts_from}
use openim_sdk_core_rust.Base.Text.{is_empty}
use openim_sdk_core_rust.Domain.File.Limit.{ObjectPartLimit, checked_mul, div_ceil, part_size_for}

suc_times : (q b : ℕ) → (q + 1) * b ≡ b * q + b
suc_times q b = omega (arith, mul_comm (q + 1) b)

cover_more :
    (a b q r : ℕ) → b * q + r ≡ a → r < b → 0 < r → (a ≤ (q + 1) * b) × ((q + 1) * b < a + b)
cover_more a b q r e low more =
    (omega (arith, e, low, more, suc_times q b), omega (arith, e, low, more, suc_times q b))

cover_exact : (a b q r : ℕ) → b * q + r ≡ a → 0 < b → r ≡ 0 → (a ≤ q * b) × (q * b < a + b)
cover_exact a b q r e positive exact = (
  omega (arith, e, positive, exact, mul_comm q b),
  omega (arith, e, positive, exact, mul_comm q b),
)

-- as many parts as `div_ceil` gives cover the whole, and one less would not do
div_ceil-bounds : (a b : ℕ) → 0 < b → (a ≤ div_ceil a b * b) × (div_ceil a b * b < a + b)
div_ceil-bounds a b positive =
    let e : b * (a / b) + a % b ≡ a = div-add-mod a b in
    let low : a % b < b = mod-lt a positive in
    elim (Bool-cases (ltb 0 (a % b))) [
      | inl more ↦ rw more (cover_more a b (a / b) (a % b) e low (ground (arith, more)))
      | inr exact ↦ rw exact (cover_exact a b (a / b) (a % b) e positive (ground (arith, exact)))
    ]

-- what a success says of the limit, and the size that it gives
checked_mul-eq : (a b : ℕ) {c : ℕ} → checked_mul a b ≡ some c → c ≡ a * b
checked_mul-eq a b h = elim (Bool-cases (ltb (a * b) (2 ^ 64))) [
  | inl fits ↦ ground (arith, h, fits)
  | inr over ↦ ground (arith, h, over)
]

checked :
    (limit : ObjectPartLimit) (file_size size : ℕ)
    → part_size_for limit file_size ≡ ok size
    → (0 < limit.min_part_size)
      × (0 < limit.max_num_size)
      × (file_size ≤ limit.max_part_size * limit.max_num_size)
      × (size ≡ (
          if leb file_size (limit.min_part_size * limit.max_num_size)
          then limit.min_part_size
          else div_ceil file_size limit.max_num_size))
unfolding part_size_for
checked limit file_size size made =
    let (a, next) = passed (file_size == 0) _ _ made in
    let (b, next) = passed (limit.min_part_size == 0) _ _ next in
    let (c, next) = passed (limit.max_part_size == 0) _ _ next in
    let (d, next) = passed (limit.max_num_size == 0) _ _ next in
    let (max_total, most, next) =
      ok_or-ok (checked_mul limit.max_part_size limit.max_num_size) _ _ next in
    let (e, next) = passed (ltb max_total file_size) _ _ next in
    let (min_total, least, next) =
      ok_or-ok (checked_mul limit.min_part_size limit.max_num_size) _ _ next in
    let same = checked_mul-eq limit.max_part_size limit.max_num_size most in
    let low = checked_mul-eq limit.min_part_size limit.max_num_size least in
    (
      ground (arith, b),
      ground (arith, d),
      ground (arith, e, same),
      sym (ok_injective next)
          ∙ ap
              (λ x.
                if leb file_size x
                then limit.min_part_size
                else div_ceil file_size limit.max_num_size)
              low,
    )

-- The size of the parts, by what the server allows, where `part_size_for` gives one: it is not 0,
-- as many parts of it as the server allows hold the whole file, it is not below the least size that
-- the server allows, and not above the greatest where the least is not above that.
pub part_size_for-bounds :
    (limit : ObjectPartLimit) (file_size size : ℕ)
    → part_size_for limit file_size ≡ ok size
    → (0 < size)
      × (file_size ≤ size * limit.max_num_size)
      × (limit.min_part_size ≤ size)
      × (limit.min_part_size ≤ limit.max_part_size → size ≤ limit.max_part_size)
part_size_for-bounds limit file_size size made =
    let (positive, some_parts, fits, is) = checked limit file_size size made in
    elim (Bool-cases (leb file_size (limit.min_part_size * limit.max_num_size))) [
      | inl small ↦
          let least : size ≡ limit.min_part_size = is ∙ ground (arith, small) in
          let below : file_size ≤ limit.min_part_size * limit.max_num_size =
            ground (arith, small) in
          (
            omega (arith, least, positive),
            subst (λ x. file_size ≤ x * limit.max_num_size) (sym least) below,
            omega (arith, least),
            λ ordered. omega (arith, least, ordered),
          )
      | inr large ↦
          let ceil : size ≡ div_ceil file_size limit.max_num_size = is ∙ ground (arith, large) in
          let above : limit.min_part_size * limit.max_num_size < file_size =
            ground (arith, large) in
          let bounds =
            subst
              (λ x.
                (file_size ≤ x * limit.max_num_size)
                × (x * limit.max_num_size < file_size + limit.max_num_size))
              (sym ceil) (div_ceil-bounds file_size limit.max_num_size some_parts) in
          let more : limit.min_part_size < size =
            lt_of_mul-lt-mul_right limit.max_num_size (omega (arith, above, bounds.0)) in
          let fewer : size < limit.max_part_size + 1 = lt_of_mul-lt-mul_right limit.max_num_size (
            omega (
              arith,
              bounds.1,
              fits,
              suc_times limit.max_part_size limit.max_num_size,
              mul_comm limit.max_part_size limit.max_num_size,
            )) in
          (omega (arith, more), bounds.0, omega (arith, more), λ ordered. omega (arith, fewer))
    ]

-- the parts of a rest of the file
parts_from-done :
    (fuel : ℕ) (file : FileDigest) (part_size offset part_number : ℕ)
    → file.file_size ≤ offset
    → parts_from fuel file part_size offset part_number ≡ []
unfolding parts_from
parts_from-done zero file part_size offset part_number over = refl
parts_from-done (suc fuel) file part_size offset part_number over = ground (arith, over)

length-parts_from :
    (fuel : ℕ) (file : FileDigest) (part_size offset part_number : ℕ)
    → 0 < part_size
    → offset ≤ file.file_size
    → length (parts_from fuel file part_size offset part_number) * part_size
      < (file.file_size - offset) + part_size
unfolding parts_from
length-parts_from zero file part_size offset part_number positive within = omega (arith, positive)
length-parts_from (suc fuel) file part_size offset part_number positive within =
    let next = offset + min (file.file_size - offset) part_size in
    let number = (part_number + 1) % 2 ^ 32 in
    elim (Bool-cases (ltb offset file.file_size)) [
      | inr over ↦ rw over (omega (arith, positive))
      | inl more ↦
          let below : offset < file.file_size = ground (arith, more) in
          let rest = parts_from fuel file part_size next number in
          rw more (elim (Bool-cases (ltb next file.file_size)) [
            | inl again ↦
                let under : next < file.file_size = ground (arith, again) in
                let fewer =
                  length-parts_from fuel file part_size next number positive
                    (omega (arith, under)) in
                omega (
                  arith,
                  fewer,
                  under,
                  below,
                  suc_times (length rest) part_size,
                  mul_comm (length rest) part_size,
                )
            | inr over ↦
                let none_left : length rest ≡ 0 =
                  ap length
                    (parts_from-done fuel file part_size next number (ground (arith, over))) in
                let one_part : suc (length rest) * part_size ≡ part_size =
                  ap (λ n. suc n * part_size) none_left ∙ omega arith in
                omega (arith, one_part, below)
          ])
    ]

-- A file cut into parts of the size that `part_size_for` gives has no more parts than the server
-- allows.
pub plan_multipart-part_size_for :
    (limit : ObjectPartLimit) (file : FileDigest) (size : ℕ) (plan : MultipartUploadPlan)
    → part_size_for limit file.file_size ≡ ok size
    → plan_multipart file size ≡ ok plan
    → length plan.parts ≤ limit.max_num_size
unfolding plan_multipart
plan_multipart-part_size_for limit file size plan sized planned =
    let (positive, fits, _, _) = part_size_for-bounds limit file.file_size size sized in
    let (_, next) = passed (is_empty file.file_name) _ _ planned in
    let (_, made) = passed (size == 0) _ _ next in
    let parts = ap (λ p. length p.parts) (ok_injective made) in
    let few = length-parts_from file.file_size file size 0 1 positive (omega arith) in
    let within : length (parts_from file.file_size file size 0 1) < limit.max_num_size + 1 =
      lt_of_mul-lt-mul_right size (
        omega (
          arith,
          few,
          fits,
          suc_times limit.max_num_size size,
          mul_comm limit.max_num_size size,
          mul_comm size limit.max_num_size,
        )) in
    omega (arith, within, parts)
