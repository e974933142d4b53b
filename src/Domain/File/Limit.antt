-- ===== src/Domain/File/Limit.antt =====
-- crates/openim-domain/src/file.rs: the size of the parts, by what the server allows.
pub mod Bounds
use Prim.Native.String.{◌++◌}
use openim_sdk_core_rust.Base.{
  ℕ, ◌+◌, ◌*◌, ◌/◌, ◌%◌, ◌^◌, Option, none, some, ltb, leb, ◌==◌, if◌then◌else◌,
}
use openim_sdk_core_rust.Base.Text.{to_string}
use openim_sdk_core_rust.Errors.{Result, ok, err, args, ok_or, ◌>>=◌}
use openim_sdk_core_rust.Domain.File.Types.{FileDigest}

-- `max_num_size` is a `u32`, the others are `u64`
pub record ObjectPartLimit : Type 0 where
  pub min_part_size : ℕ
  pub max_part_size : ℕ
  pub max_num_size : ℕ

-- `checked_mul` on `u64`
abbrev pub checked_mul : ℕ → ℕ → Option ℕ
checked_mul a b = if ltb (a * b) (2 ^ 64) then some (a * b) else none

-- `div_ceil`
abbrev pub div_ceil : ℕ → ℕ → ℕ
div_ceil a b = if ltb 0 (a % b) then a / b + 1 else a / b

-- what follows the checks, by the two products
abbrev pub size_within : ObjectPartLimit → ℕ → ℕ → Result ℕ
size_within limit file_size max_total =
    if ltb max_total file_size
    then err (args ("size must be less than " ++ to_string max_total ++ "b"))
    else (ok_or (checked_mul limit.min_part_size limit.max_num_size)
          (args "part limit exceeds u64 range")
        >>= λ min_total. ok (
            if leb file_size min_total
            then limit.min_part_size
            else div_ceil file_size limit.max_num_size))

unfoldable pub part_size_for : ObjectPartLimit → ℕ → Result ℕ
part_size_for limit file_size =
    if file_size == 0
    then err (args "size must be greater than 0")
    else if limit.min_part_size == 0
    then err (args "min_part_size is zero")
    else if limit.max_part_size == 0
    then err (args "max_part_size is zero")
    else if limit.max_num_size == 0
    then err (args "max_num_size is zero")
    else (ok_or (checked_mul limit.max_part_size limit.max_num_size)
          (args "part limit exceeds u64 range")
        >>= size_within limit file_size)

abbrev pub part_size_from_limit : FileDigest → ObjectPartLimit → Result ℕ
part_size_from_limit file limit = part_size_for limit file.file_size
