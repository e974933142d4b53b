-- ===== src/Types.antt =====
-- crates/openim-types/src/lib.rs: the numeric enums of the protocol, `Pagination`, `VersionState`.
use openim_sdk_core_rust.Base.{
  ℕ, ◌≡◌, refl, String, Option, some, List, [], ◌∷◌, find, arith, if◌then◌else◌,
}
use openim_sdk_core_rust.Base.Int.{ℤ, pos, ltb_ℤ, leb_ℤ, eqb_ℤ, eqb_ℤ_iff}

pub data Platform : Type 0 where
  ios android windows macos web mini_web linux android_pad ipad admin harmony_os : Platform

pub data SessionType : Type 0 where
  single write_group read_group notification : SessionType

pub data MessageContentType : Type 0 where
  text picture sound video file at_text merger card location custom typing quote face
        advanced_text :
      MessageContentType
  markdown_text : MessageContentType

pub data MessageStatus : Type 0 where
  sending send_success send_failed has_deleted filtered : MessageStatus

-- what `numeric_i32_enum!` is given: the variants in order, and the value of each
pub record NumericEnum (A : Type 0) : Type 0 where
  pub variants : List A
  pub value : A → ℤ

-- what `numeric_i32_enum!` defines
abbrev pub as_i32 : {A : Type 0} ⦃n : NumericEnum A⦄ → A → ℤ
as_i32 ⦃n⦄ = n.value

-- a `match` on the values in order, `None` where none fits
unfoldable pub from_i32 : {A : Type 0} ⦃n : NumericEnum A⦄ → ℤ → Option A
from_i32 ⦃n⦄ v = find (λ a. eqb_ℤ v (n.value a)) n.variants

abbrev pub platform_value : Platform → ℤ
platform_value Platform.ios = pos 1
platform_value Platform.android = pos 2
platform_value Platform.windows = pos 3
platform_value Platform.macos = pos 4
platform_value Platform.web = pos 5
platform_value Platform.mini_web = pos 6
platform_value Platform.linux = pos 7
platform_value Platform.android_pad = pos 8
platform_value Platform.ipad = pos 9
platform_value Platform.admin = pos 10
platform_value Platform.harmony_os = pos 11

instance abbrev pub platform_enum : NumericEnum Platform
platform_enum = record {
  variants =
      Platform.ios ∷ Platform.android ∷ Platform.windows ∷ Platform.macos ∷ Platform.web
      ∷ Platform.mini_web ∷ Platform.linux ∷ Platform.android_pad ∷ Platform.ipad ∷ Platform.admin
      ∷ Platform.harmony_os ∷ [];
  value = platform_value;
}

abbrev pub session_type_value : SessionType → ℤ
session_type_value SessionType.single = pos 1
session_type_value SessionType.write_group = pos 2
session_type_value SessionType.read_group = pos 3
session_type_value SessionType.notification = pos 4

instance abbrev pub session_type_enum : NumericEnum SessionType
session_type_enum = record {
  variants =
      SessionType.single ∷ SessionType.write_group ∷ SessionType.read_group
      ∷ SessionType.notification ∷ [];
  value = session_type_value;
}

abbrev pub content_type_value : MessageContentType → ℤ
content_type_value MessageContentType.text = pos 101
content_type_value MessageContentType.picture = pos 102
content_type_value MessageContentType.sound = pos 103
content_type_value MessageContentType.video = pos 104
content_type_value MessageContentType.file = pos 105
content_type_value MessageContentType.at_text = pos 106
content_type_value MessageContentType.merger = pos 107
content_type_value MessageContentType.card = pos 108
content_type_value MessageContentType.location = pos 109
content_type_value MessageContentType.custom = pos 110
content_type_value MessageContentType.typing = pos 113
content_type_value MessageContentType.quote = pos 114
content_type_value MessageContentType.face = pos 115
content_type_value MessageContentType.advanced_text = pos 117
content_type_value MessageContentType.markdown_text = pos 118

instance abbrev pub content_type_enum : NumericEnum MessageContentType
content_type_enum = record {
  variants =
      MessageContentType.text ∷ MessageContentType.picture ∷ MessageContentType.sound
      ∷ MessageContentType.video ∷ MessageContentType.file ∷ MessageContentType.at_text
      ∷ MessageContentType.merger ∷ MessageContentType.card ∷ MessageContentType.location
      ∷ MessageContentType.custom ∷ MessageContentType.typing ∷ MessageContentType.quote
      ∷ MessageContentType.face ∷ MessageContentType.advanced_text
      ∷ MessageContentType.markdown_text ∷ [];
  value = content_type_value;
}

abbrev pub status_value : MessageStatus → ℤ
status_value MessageStatus.sending = pos 1
status_value MessageStatus.send_success = pos 2
status_value MessageStatus.send_failed = pos 3
status_value MessageStatus.has_deleted = pos 4
status_value MessageStatus.filtered = pos 5

instance abbrev pub status_enum : NumericEnum MessageStatus
status_enum = record {
  variants =
      MessageStatus.sending ∷ MessageStatus.send_success ∷ MessageStatus.send_failed
      ∷ MessageStatus.has_deleted ∷ MessageStatus.filtered ∷ [];
  value = status_value;
}

-- `i32` fields
pub record Pagination : Type 0 where
  pub page_number : ℤ
  pub show_number : ℤ

abbrev pub default_pagination : Pagination
default_pagination = record { page_number = pos 0; show_number = pos 200 }

unfoldable pub normalized : Pagination → Pagination
normalized p = record {
  page_number = if ltb_ℤ p.page_number (pos 0) then pos 0 else p.page_number;
  show_number = if leb_ℤ p.show_number (pos 0) then pos 200 else p.show_number;
}

pub record VersionState : Type 0 where
  pub version_id : String
  pub version : ℕ
  pub uid_list : List String

abbrev pub empty_version_state : VersionState
empty_version_state = record { version_id = ""; version = 0; uid_list = [] }

-- Reading back the number of a variant gives the variant, in each of the four enums.
pub from_i32-as_i32 :
    ((p : Platform) → from_i32 (as_i32 p) ≡ some p)
    × ((t : SessionType) → from_i32 (as_i32 t) ≡ some t)
    × ((c : MessageContentType) → from_i32 (as_i32 c) ≡ some c)
    × ((s : MessageStatus) → from_i32 (as_i32 s) ≡ some s)
unfolding from_i32
from_i32-as_i32 = (
  elim [ Platform.ios ↦ refl | _ ↦ refl ],
  elim [ SessionType.single ↦ refl | _ ↦ refl ],
  elim [ MessageContentType.text ↦ refl | _ ↦ refl ],
  elim [ MessageStatus.sending ↦ refl | _ ↦ refl ],
)

find_value :
    {A : Type 0} (value : A → ℤ) (v : ℤ) (variants : List A) {a : A}
    → find (λ x. eqb_ℤ v (value x)) variants ≡ some a
    → value a ≡ v
find_value value v [] h = ground arith
find_value value v (x ∷ xs) {a} h =
    ground (arith, eqb_ℤ_iff v (value x), find_value value v xs {a = a})

-- A number is read only as the variant that has it: the reading is exact, and every other
-- number is refused.
pub from_i32_exact :
    {A : Type 0} ⦃n : NumericEnum A⦄ (v : ℤ) {a : A} → from_i32 v ≡ some a → as_i32 a ≡ v
unfolding from_i32
from_i32_exact ⦃n⦄ v h = find_value n.value v n.variants h
