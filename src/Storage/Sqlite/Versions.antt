-- ===== src/Storage/Sqlite/Versions.antt =====
-- crates/openim-storage-sqlite/src/lib.rs: the stores of the version of the SDK and of the versions
-- of what was synchronised.
use openim_sdk_core_rust.Base.{
  ℕ, ◌^◌, ltb, String, Option, none, some, List, [], ◌∷◌, if◌then◌else◌,
}
use openim_sdk_core_rust.Base.Int.{ℤ, pos, negsuc}
use openim_sdk_core_rust.Base.Text.{is_empty}
use openim_sdk_core_rust.Errors.{Result, ok, err, args, sdk_internal, ok_or, ◌>>=◌ as ◌>>=?◌}
use openim_sdk_core_rust.Action.{Action, lift, query, ◌>>=◌}
use openim_sdk_core_rust.Storage.{AppSdkVersion, VersionRecord}
use openim_sdk_core_rust.Transport.Wire.{Fallible}
use openim_sdk_core_rust.Storage.Sqlite.{
  Json, execute, or_json_error, or_sqlite_error, text_or_empty,
}

-- what is told apart of a cell; a blob is given by its bytes
pub data Value : Type 0 where
  null : Value
  text : String → Value
  blob : List ℕ → Value
  other : Value

pub record RawVersionRecord : Type 0 where
  pub table_name : String
  pub entity_id : String
  pub version_id : Option String
  pub version : Option ℤ
  pub create_time : Option ℤ
  pub uid_list : Value

-- the readings of a list of identifiers, from a text and from bytes
pub record UidLists : Type 0 where
  pub json : Json (List String)
  pub from_slice : List ℕ → Fallible (List String)

-- what the database does for the statements of the two stores, over its state
pub record VersionsDb (D : Type 0) : Type 0 where
  pub select_version : String → String → D → Fallible (Option RawVersionRecord)
  pub upsert_version : RawVersionRecord → D → Fallible (Unit {0}) × D
  pub delete_version : String → String → D → Fallible (Unit {0}) × D
  pub select_app : D → Fallible (Option AppSdkVersion)
  pub select_app_version : D → Fallible (Option String)
  pub update_app : AppSdkVersion → String → D → Fallible (Unit {0}) × D
  pub insert_app : AppSdkVersion → D → Fallible (Unit {0}) × D

-- `i64::try_from` of a `u64`, and `u64::try_from` of an `i64`
unfoldable pub i64_try_from : ℕ → Option ℤ
i64_try_from n = if ltb n (2 ^ 63) then some (pos n) else none

unfoldable pub u64_try_from : ℤ → Option ℕ
u64_try_from (pos n) = some n
u64_try_from (negsuc n) = none

-- `unwrap_or_default` on an `i64`
abbrev pub number_or_zero : Option ℤ → ℤ
number_or_zero none = pos 0
number_or_zero (some n) = n

unfoldable pub decode_uid_list : UidLists → Value → Result (List String)
decode_uid_list lists Value.null = ok []
decode_uid_list lists (Value.text s) =
    if is_empty s then ok [] else or_json_error (lists.json.from_str s)
decode_uid_list lists (Value.blob []) = ok []
decode_uid_list lists (Value.blob (b ∷ bytes)) = or_json_error (lists.from_slice (b ∷ bytes))
decode_uid_list lists Value.other = err (sdk_internal "sqlite id_list has unsupported type")

unfoldable pub try_from : UidLists → RawVersionRecord → Result VersionRecord
try_from lists raw =
    ok_or (u64_try_from (number_or_zero raw.version)) (sdk_internal "sqlite version is negative")
    >>=? λ version. decode_uid_list lists raw.uid_list >>=? λ uid_list. ok (record {
      table_name = raw.table_name;
      entity_id = raw.entity_id;
      version_id = text_or_empty raw.version_id;
      version = version;
      create_time = number_or_zero raw.create_time;
      uid_list = uid_list;
    })

-- `map(...).transpose()`
abbrev pub each_version : UidLists → Option RawVersionRecord → Result (Option VersionRecord)
each_version lists none = ok none
each_version lists (some raw) = try_from lists raw >>=? λ r. ok (some r)

-- the row that `set_version_sync` writes
unfoldable pub version_row : VersionRecord → ℤ → String → RawVersionRecord
version_row r version uid_list = record {
  table_name = r.table_name;
  entity_id = r.entity_id;
  version_id = some r.version_id;
  version = some version;
  create_time = some r.create_time;
  uid_list = Value.text uid_list;
}

module _ {D : Type 0} (db : VersionsDb D) where
  unfoldable pub get_app_sdk_version : D → Result (Option AppSdkVersion)
  get_app_sdk_version d = or_sqlite_error (db.select_app d)

  abbrev pub replace_app : AppSdkVersion → Option String → Action D (Unit {0})
  replace_app version none = execute (db.insert_app version)
  replace_app version (some existing_version) = execute (db.update_app version existing_version)

  unfoldable pub set_app_sdk_version : AppSdkVersion → Action D (Unit {0})
  set_app_sdk_version version = do
    existing ← query (λ d. or_sqlite_error (db.select_app_version d))
    replace_app version existing

  unfoldable pub get_version_sync : UidLists → String → String → D → Result (Option VersionRecord)
  get_version_sync lists table_name entity_id d =
      or_sqlite_error (db.select_version table_name entity_id d) >>=? each_version lists

  unfoldable pub set_version_sync : UidLists → VersionRecord → Action D (Unit {0})
  set_version_sync lists r = do
    version ← lift (ok_or (i64_try_from r.version) (args "version exceeds sqlite integer range"))
    uid_list ← lift (or_json_error (lists.json.to_string r.uid_list))
    execute (db.upsert_version (version_row r version uid_list))

  unfoldable pub delete_version_sync : String → String → Action D (Unit {0})
  delete_version_sync table_name entity_id = execute (db.delete_version table_name entity_id)
