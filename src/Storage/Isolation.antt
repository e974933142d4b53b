-- ===== src/Storage/Isolation.antt =====
-- crates/openim-storage-core/src/lib.rs: that the names of the IndexedDB databases tell users apart.
use Prim.Native.String.append
use Prim.Native.String.{◌++◌}
use openim_sdk_core_rust.Base.{String, ◌≡◌, refl, ap, ◌∙◌, sym, arith, inl, inr, Bool-cases}
use openim_sdk_core_rust.Base.Text.{is_empty}
use openim_sdk_core_rust.Errors.{Result, ok, err, panic}
use openim_sdk_core_rust.Storage.{openim_indexeddb_name, big_version}

tail : String → String
tail String.[] = ""
tail (String.◌∷◌ c s) = s

prefix-cancel : (p s t : String) → p ++ s ≡ p ++ t → s ≡ t
unfolding tail
prefix-cancel String.[] s t h = sym (append.nil s) ∙ h ∙ append.nil t
prefix-cancel (String.◌∷◌ c p) s t h =
    prefix-cancel p s t (ap tail (sym (append.cons c p s) ∙ h ∙ append.cons c p t))

text_of : Result String → String
text_of (ok n) = n
text_of (err e) = ""
text_of panic = ""

named :
    (user : String) {n : String}
    → openim_indexeddb_name user ≡ ok n
    → "OpenIM_" ++ big_version ++ "_" ++ user ≡ n
unfolding openim_indexeddb_name text_of
named user {n} h = elim (Bool-cases (is_empty user)) [
  | inl empty ↦ ground (arith, empty)
  | inr full ↦
      let given : openim_indexeddb_name user ≡ ok ("OpenIM_" ++ big_version ++ "_" ++ user) =
        rw full refl in
      ap text_of (sym given ∙ h)
]

-- Two users whose IndexedDB databases have one name are the same user.
pub openim_indexeddb_name-injective :
    (a b : String) {n : String}
    → openim_indexeddb_name a ≡ ok n
    → openim_indexeddb_name b ≡ ok n
    → a ≡ b
openim_indexeddb_name-injective a b {n} p q = prefix-cancel "_" a b (
    prefix-cancel big_version ("_" ++ a) ("_" ++ b) (
      prefix-cancel "OpenIM_" (big_version ++ "_" ++ a) (big_version ++ "_" ++ b)
        (named a {n = n} p ∙ sym (named b {n = n} q))))
