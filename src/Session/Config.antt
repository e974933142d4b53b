-- ===== src/Session/Config.antt =====
-- crates/openim-session/src/lib.rs: the configuration of a session, its credentials and its storage.
use openim_sdk_core_rust.Base.{
  String, Bool, true, false, ◌&&◌, not, Option, none, some, if◌then◌else◌,
}
use openim_sdk_core_rust.Base.Int.{eqb_ℤ}
use openim_sdk_core_rust.Base.Keys.{◌==◌, string_eq}
use openim_sdk_core_rust.Errors.{Result, ok, ensure_not_empty, ◌>>=◌, ◌>>◌}
use openim_sdk_core_rust.Types.{Platform, platform_value}
use openim_sdk_core_rust.Storage.{Paths, openim_db_file, openim_indexeddb_name}
use openim_sdk_core_rust.Transport.Wire.{TransportConfig, new_config}

pub record SessionConfig : Type 0 where
  pub platform : Platform
  pub api_addr : String
  pub ws_addr : String
  pub data_dir : Option String

abbrev pub new_session_config : Platform → String → String → SessionConfig
new_session_config platform api_addr ws_addr = record {
  platform = platform;
  api_addr = api_addr;
  ws_addr = ws_addr;
  data_dir = none;
}

abbrev pub with_data_dir : SessionConfig → String → SessionConfig
with_data_dir c data_dir = record c { data_dir = some data_dir }

unfoldable pub validate_config : SessionConfig → Result (Unit {0})
validate_config c = do
  ensure_not_empty c.api_addr "api_addr"
  ensure_not_empty c.ws_addr "ws_addr"
  elim c.data_dir [ none ↦ ok tt | some data_dir ↦ ensure_not_empty data_dir "data_dir" ]

pub record LoginCredentials : Type 0 where
  pub user_id : String
  pub token : String

unfoldable pub validate_credentials : LoginCredentials → Result (Unit {0})
validate_credentials c = ensure_not_empty c.user_id "user_id" >> ensure_not_empty c.token "token"

-- `generated` is what `gen_operation_id` gives
unfoldable pub transport_config : String → SessionConfig → LoginCredentials → Result TransportConfig
transport_config generated config credentials =
    validate_credentials credentials
    >> ok (
        new_config generated config.ws_addr credentials.user_id credentials.token
          (platform_value config.platform))

pub data StorageTarget : Type 0 where
  unconfigured : StorageTarget
  sqlite : (path : String) → StorageTarget
  indexed_db : (name : String) → StorageTarget

-- `==` of a `StorageTarget`
unfoldable pub same_storage : StorageTarget → StorageTarget → Bool
same_storage StorageTarget.unconfigured StorageTarget.unconfigured = true
same_storage (StorageTarget.sqlite p) (StorageTarget.sqlite q) = p == q
same_storage (StorageTarget.indexed_db m) (StorageTarget.indexed_db n) = m == n
same_storage _ _ = false

-- `Platform::Web | Platform::MiniWeb`
abbrev pub is_web : Platform → Bool
is_web Platform.web = true
is_web Platform.mini_web = true
is_web _ = false

abbrev pub native_target : Paths → Option String → String → Result StorageTarget
native_target paths none login_user_id = ok StorageTarget.unconfigured
native_target paths (some data_dir) login_user_id =
    openim_db_file paths data_dir login_user_id >>= λ path. ok (StorageTarget.sqlite path)

abbrev pub web_target : String → Result StorageTarget
web_target login_user_id =
    openim_indexeddb_name login_user_id >>= λ name. ok (StorageTarget.indexed_db name)

unfoldable pub storage_target : Paths → SessionConfig → String → Result StorageTarget
storage_target paths config login_user_id =
    ensure_not_empty login_user_id "login_user_id"
    >> (if is_web config.platform
        then web_target login_user_id
        else native_target paths config.data_dir login_user_id)

-- `==` of two flags
abbrev pub same_bool : Bool → Bool → Bool
same_bool true b = b
same_bool false b = not b

unfoldable pub same_transport_config : TransportConfig → TransportConfig → Bool
same_transport_config left right =
    left.ws_addr == right.ws_addr
    && left.user_id == right.user_id
    && left.token == right.token
    && eqb_ℤ left.platform_id right.platform_id
    && left.operation_id == right.operation_id
    && left.sdk_type == right.sdk_type
    && left.sdk_version == right.sdk_version
    && same_bool left.is_background right.is_background
    && same_bool left.compression right.compression
    && same_bool left.send_response right.send_response
