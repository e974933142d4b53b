-- ===== src/Storage.antt =====
-- crates/openim-storage-core/src/lib.rs: the names of a user's databases, and the records kept there.
pub mod Isolation
pub mod Sqlite
use Prim.Native.String.{◌++◌}
use openim_sdk_core_rust.Base.{ℕ, String, Bool, ◌⊎◌, inl, inr, List, [], if◌then◌else◌}
use openim_sdk_core_rust.Base.Int.{ℤ, pos}
use openim_sdk_core_rust.Base.Text.{is_empty}
use openim_sdk_core_rust.Errors.{Result, ok, err, args, sdk_internal}

abbrev pub big_version : String
big_version = "v3"

pub record AppSdkVersion : Type 0 where
  pub version : String
  pub installed : Bool

pub record VersionRecord : Type 0 where
  pub table_name : String
  pub entity_id : String
  pub version_id : String
  pub version : ℕ
  pub create_time : ℤ
  pub uid_list : List String

abbrev pub new_record : String → String → VersionRecord
new_record table_name entity_id = record {
  table_name = table_name;
  entity_id = entity_id;
  version_id = "";
  version = 0;
  create_time = pos 0;
  uid_list = [];
}

-- the operating system's paths: `join`, `is_absolute`, and the current directory or the text of
-- the error that reading it gives
pub record Paths : Type 0 where
  pub join : String → String → String
  pub is_absolute : String → Bool
  pub current_dir : String ⊎ String

abbrev pub in_current_dir : Paths → String → Result String
in_current_dir paths path = elim paths.current_dir [
  | inl e ↦ err (sdk_internal ("read current dir failed: " ++ e))
  | inr cwd ↦ ok (paths.join cwd path)
]

unfoldable pub openim_db_file : Paths → String → String → Result String
openim_db_file paths db_dir login_user_id =
    if is_empty login_user_id
    then err (args "login_user_id is empty")
    else (let path =
          paths.join db_dir ("OpenIM_" ++ big_version ++ "_" ++ login_user_id ++ ".db") in
        let relative = in_current_dir paths path in
        if paths.is_absolute path then ok path else relative)

unfoldable pub openim_indexeddb_name : String → Result String
openim_indexeddb_name login_user_id =
    if is_empty login_user_id
    then err (args "login_user_id is empty")
    else ok ("OpenIM_" ++ big_version ++ "_" ++ login_user_id)

-- `encode` is the JSON text of a pair of texts, or the text of the error that encoding it gives
unfoldable pub version_sync_key :
    (String → String → String ⊎ String) → String → String → Result String
version_sync_key encode table_name entity_id =
    if is_empty table_name
    then err (args "table_name is empty")
    else if is_empty entity_id
    then err (args "entity_id is empty")
    else elim (encode table_name entity_id) [
      | inl e ↦ err (sdk_internal ("encode version sync key failed: " ++ e))
      | inr key ↦ ok key
    ]
