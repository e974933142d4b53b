-- ===== src/Domain/File/Signing/Granted.antt =====
-- Which parts a session asks the server to sign.
use openim_sdk_core_rust.Base.{
  ℕ, zero, suc, ◌+◌, ◌-◌, ◌^◌, ◌≤◌, ◌<◌, min, ◌≡◌, refl, ap, ◌∙◌, some, get_elem?, length, arith,
}
use openim_sdk_core_rust.Domain.File.Signing.{
  MultipartUploadSession, numbers_from, next_part_numbers,
}

length-numbers_from : (first count : ℕ) → length (numbers_from first count) ≡ count
unfolding numbers_from
length-numbers_from first zero = refl
length-numbers_from first (suc count) = ap suc (length-numbers_from (first + 1) count)

get_elem?-numbers_from :
    (first count i : ℕ) → i < count → get_elem? (numbers_from first count) i ≡ some (first + i)
unfolding numbers_from
get_elem?-numbers_from first zero i h = absurd (omega (arith, h))
get_elem?-numbers_from first (suc count) zero h = ap some (omega arith)
get_elem?-numbers_from first (suc count) (suc i) h =
    get_elem?-numbers_from (first + 1) count i (omega (arith, h)) ∙ ap some (omega arith)

-- For a number that is not above the count of parts of an upload, where the upload has fewer than 2 ^ 32 parts and
-- a batch at least one: a session asks the server to sign consecutive parts from that one on, each
-- once and in order: as many as the batch allows, or all that are left of the upload where these are
-- fewer.
pub next_part_numbers-exact :
    (s : MultipartUploadSession) (part_number : ℕ)
    → part_number ≤ s.part_count
    → s.part_count < 2 ^ 32
    → 0 < s.batch_sign_count
    → (length (next_part_numbers s part_number)
        ≡ min s.batch_sign_count ((s.part_count + 1) - part_number))
      × ((i : ℕ)
          → i < length (next_part_numbers s part_number)
          → get_elem? (next_part_numbers s part_number) i ≡ some (part_number + i))
unfolding next_part_numbers
next_part_numbers-exact s part_number within small some_ =
    let end = min (min (part_number + (s.batch_sign_count - 1)) (2 ^ 32 - 1)) s.part_count in
    let count = (end + 1) - part_number in
    let counted = length-numbers_from part_number count in
    (
      counted ∙ omega (arith, within, small, some_),
      λ i below. get_elem?-numbers_from part_number count i (omega (arith, counted, below)),
    )
