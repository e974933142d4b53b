-- ===== src/Storage/Sqlite.antt =====
-- crates/openim-storage-sqlite/src/lib.rs: what the repositories write to the database and read
-- from it. The database and the JSON texts are given.
pub mod Laws
pub mod Messages
pub mod Conversations
pub mod Versions
use Prim.Native.Char.{code}
use Prim.Native.String.{◌++◌}
use openim_sdk_core_rust.Base.{
  String, Option, none, some, inl, inr, ◌==◌, if◌then◌else◌, ◌≡◌, refl, ap, ◌∙◌, arith,
}
use openim_sdk_core_rust.Base.Text.{is_empty}
use openim_sdk_core_rust.Errors.{Result, ok, err, sdk_internal}
use openim_sdk_core_rust.Action.{Action}
use openim_sdk_core_rust.Transport.Wire.{Fallible}

-- the texts that `serde_json` gives for a value, and their reading
pub record Json (A : Type 0) : Type 0 where
  pub to_string : A → Fallible String
  pub from_str : String → Fallible A

-- a JSON text, or its reading, with `map_err(json_error)`
abbrev pub or_json_error : {A : Type 0} → Fallible A → Result A
or_json_error (inl e) = err (sdk_internal ("sqlite json error: " ++ e))
or_json_error (inr a) = ok a

-- a call of the database, with `map_err(sqlite_error)`
abbrev pub or_sqlite_error : {A : Type 0} → Fallible A → Result A
or_sqlite_error (inl e) = err (sdk_internal ("sqlite error: " ++ e))
or_sqlite_error (inr a) = ok a

-- a statement that changes the database
abbrev pub execute : {D : Type 0} → (D → Fallible (Unit {0}) × D) → Action D (Unit {0})
execute statement d = (or_sqlite_error (statement d).0, (statement d).1)

-- `identifier.replace('"', "\"\"")`
unfoldable pub doubled_quotes : String → String
doubled_quotes String.[] = ""
doubled_quotes (String.◌∷◌ c s) =
    let rest = doubled_quotes s in if code c == 34 then "\"\"" ++ rest else String.◌∷◌ c rest

unfoldable pub quoted_identifier : String → String
quoted_identifier identifier = "\"" ++ doubled_quotes identifier ++ "\""

unfoldable pub non_empty : String → Option String
non_empty value = if is_empty value then none else some value

-- `unwrap_or_default` on a text
abbrev pub text_or_empty : Option String → String
text_or_empty none = ""
text_or_empty (some s) = s

-- `strip_prefix`
unfoldable pub strip_prefix : String → String → Option String
strip_prefix String.[] s = some s
strip_prefix (String.◌∷◌ c p) String.[] = none
strip_prefix (String.◌∷◌ c p) (String.◌∷◌ d s) =
    let rest = strip_prefix p s in if code c == code d then rest else none
