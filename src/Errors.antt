-- ===== src/Errors.antt =====
-- crates/openim-errors/src/lib.rs: error codes, their categories, `OpenImError` and `Result`.
use openim_sdk_core_rust.Base.{
  ℕ, ◌≡◌, refl, String, Bool, true, false, ◌&&◌, Option, none, some, if◌then◌else◌, List, [], ◌∷◌,
  All,
}
use openim_sdk_core_rust.Base.Int.{ℤ, pos, leb_ℤ, eqb_ℤ}
use openim_sdk_core_rust.Base.Text.{is_empty}
use Prim.Native.String.{◌++◌}

pub data ErrorCategory : Type 0 where
  common user message conversation group unknown : ErrorCategory

-- an `i32` behind a newtype
pub record ErrorCode : Type 0 where
  pub value : ℤ

abbrev pub error_code : ℕ → ErrorCode
error_code n = record { value = pos n }

abbrev pub args_code : ErrorCode
args_code = error_code 10002

abbrev pub sdk_internal_code : ErrorCode
sdk_internal_code = error_code 10006

abbrev pub network_code : ErrorCode
network_code = error_code 10000

abbrev pub msg_decompression_code : ErrorCode
msg_decompression_code = error_code 10201

-- a range pattern `lo..=hi`
abbrev within : ℕ → ℕ → ℤ → Bool
within lo hi c = leb_ℤ (pos lo) c && leb_ℤ c (pos hi)

unfoldable pub category : ErrorCode → ErrorCategory
category c =
    if within 10000 10099 c.value
    then ErrorCategory.common
    else if within 10100 10199 c.value
    then ErrorCategory.user
    else if within 10200 10299 c.value
    then ErrorCategory.message
    else if within 10300 10399 c.value
    then ErrorCategory.conversation
    else if within 10400 10499 c.value
    then ErrorCategory.group
    else ErrorCategory.unknown

pub record OpenImError : Type 0 where
  pub code : ErrorCode
  pub message : String
  pub detail : Option String

abbrev pub new_error : ErrorCode → String → OpenImError
new_error c m = record { code = c; message = m; detail = none }

abbrev pub with_detail : OpenImError → String → OpenImError
with_detail e d = record e { detail = some d }

abbrev pub args : String → OpenImError
args = new_error args_code

abbrev pub sdk_internal : String → OpenImError
sdk_internal = new_error sdk_internal_code

-- `Result<A>`; `panic` is a computation that ends in a panic instead (an index out of range).
pub data Result {ℓ} (A : Type ℓ) : Type ℓ where
  ok : A → Result A
  err : OpenImError → Result A
  panic : Result A

infixl 5 ◌>>=◌
-- the `?` operator
abbrev pub ◌>>=◌ {ℓ κ} : {A : Type ℓ} {B : Type κ} → Result A → (A → Result B) → Result B
panic >>= rest = panic
err failure >>= rest = err failure
ok value >>= rest = rest value

-- a check, and what follows it
infixl 5 ◌>>◌
abbrev pub ◌>>◌ {ℓ} : {B : Type ℓ} → Result (Unit {0}) → Result B → Result B
check >> rest = check >>= λ _. rest

-- `ok_or_else`
abbrev pub ok_or {ℓ} : {A : Type ℓ} → Option A → OpenImError → Result A
ok_or none e = err e
ok_or (some a) e = ok a

abbrev pub is_ok {ℓ} : {A : Type ℓ} → Result A → Bool
is_ok (ok _) = true
is_ok (err _) = false
is_ok panic = false

-- a read of a slice by an index, which panics out of range
abbrev pub or_panic {ℓ} : {A : Type ℓ} → Option A → Result A
or_panic none = panic
or_panic (some a) = ok a

-- a `for` loop whose body only checks
abbrev pub each {ℓ} : {A : Type ℓ} → (A → Result (Unit {0})) → List A → Result (Unit {0})
each f [] = ok tt
each f (x ∷ xs) = f x >> each f xs

pub each-ok {ℓ} :
    {A : Type ℓ} (f : A → Result (Unit {0})) (xs : List A)
    → All (λ x. f x ≡ ok tt) xs
    → each f xs ≡ ok tt
each-ok f [] h = refl
each-ok f (x ∷ xs) h = rw (h.0) (each-ok f xs h.1)

pub ok_injective {ℓ} : {A : Type ℓ} {a b : A} → ok a ≡ ok b → a ≡ b
ok_injective h = cc

pub >>=-eq-ok {ℓ κ} :
    {A : Type ℓ} {B : Type κ} (first : Result A) (rest : A → Result B) {b : B}
    → (first >>= rest) ≡ ok b
    → (a : A) × (first ≡ ok a) × (rest a ≡ ok b)
>>=-eq-ok panic rest h = cc
>>=-eq-ok (err failure) rest h = cc
>>=-eq-ok (ok value) rest h = (value, refl, h)

-- a read that succeeds, and what follows it
pub ok_or-ok {ℓ κ} :
    {A : Type ℓ} {B : Type κ} (o : Option A) (f : A → Result B) (e : OpenImError) {b : B}
    → (ok_or o e >>= f) ≡ ok b
    → (a : A) × (o ≡ some a) × (f a ≡ ok b)
ok_or-ok none f e made = cc
ok_or-ok (some a) f e made = (a, refl, made)

-- a guard that is passed, and what follows it
pub passed {ℓ} :
    {A : Type ℓ} (test : Bool) (e : OpenImError) (r : Result A) {a : A}
    → (if test then err e else r) ≡ ok a
    → (test ≡ false) × (r ≡ ok a)
passed true e r h = cc
passed false e r h = (refl, h)

-- `ensure_not_empty`, which each crate that validates identifiers declares for itself
abbrev pub ensure_not_empty : String → String → Result (Unit {0})
ensure_not_empty value field = if is_empty value then err (args (field ++ " is empty")) else ok tt

-- the error of a websocket response; code 0 is success
unfoldable pub ws_error : ℤ → String → Option OpenImError
ws_error err_code err_msg =
    if eqb_ℤ err_code (pos 0) then none else some (new_error (record { value = err_code }) err_msg)
