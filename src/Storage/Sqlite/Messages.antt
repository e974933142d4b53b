-- ===== src/Storage/Sqlite/Messages.antt =====
-- crates/openim-storage-sqlite/src/lib.rs: the repository of messages.
pub mod Rows
pub mod RoundTrip
use Prim.Native.String.{◌++◌}
use openim_sdk_core_rust.Base.{
  ℕ, ◌*◌, ◌-◌, ◌^◌, min, String, Bool, Option, none, some, List, [], ◌∷◌, if◌then◌else◌,
}
use openim_sdk_core_rust.Base.Int.{ℤ, pos, pos_part, eqb_ℤ}
use openim_sdk_core_rust.Base.Text.{is_empty}
use openim_sdk_core_rust.Errors.{Result, ok, err, panic, args, sdk_internal, ok_or, ◌>>=◌ as ◌>>=?◌}
use openim_sdk_core_rust.Types.{
  SessionType, MessageContentType, MessageStatus, from_i32, as_i32, session_type_enum,
  content_type_enum, status_enum, status_value, Pagination, normalized,
}
use openim_sdk_core_rust.Action.{Action, lift, pure, query, ◌>>=◌, ◌>>◌}
use openim_sdk_core_rust.Domain.Message.Content.{MessageContent}
use openim_sdk_core_rust.Domain.Message.Chat.{ChatMessage}
use openim_sdk_core_rust.Transport.Wire.{Fallible}
use openim_sdk_core_rust.Storage.Sqlite.{
  Json, or_json_error, or_sqlite_error, execute, quoted_identifier, non_empty, text_or_empty,
  strip_prefix,
}

-- the columns that are written and read; the `i32` of an enum is an integer
pub record RawChatMessage : Type 0 where
  pub client_msg_id : String
  pub server_msg_id : String
  pub send_id : String
  pub recv_id : String
  pub session_type : ℤ
  pub content_type : ℤ
  pub content : String
  pub is_read : Bool
  pub status : ℤ
  pub seq : ℤ
  pub send_time : ℤ
  pub create_time : ℤ
  pub attached_info : String
  pub ex : String
  pub local_ex : String

-- what the database does for the statements of the repository, over its state; a table of chat logs
-- is named by a quoted identifier, and by its name in `sqlite_master`
pub record ChatLogsDb (D : Type 0) : Type 0 where
  pub create_chat_logs : String → D → Fallible (Unit {0}) × D
  pub upsert_chat_log : String → RawChatMessage → D → Fallible (Unit {0}) × D
  pub table_exists : String → D → Fallible Bool
  pub select_chat_log : String → String → D → Fallible (Option RawChatMessage)
  pub select_chat_logs : String → ℤ → ℤ → D → Fallible (List RawChatMessage)

unfoldable pub chat_logs_table_name : String → Result String
chat_logs_table_name conversation_id =
    if is_empty conversation_id
    then err (args "conversation_id is empty")
    else ok ("chat_logs_" ++ conversation_id)

unfoldable pub without_prefix : String → String → String
without_prefix prefix conversation_id = elim (strip_prefix prefix conversation_id) [
  | none ↦ conversation_id
  | some rest ↦ rest
]

unfoldable pub group_id_from_conversation : String → SessionType → String
group_id_from_conversation conversation_id SessionType.write_group =
    without_prefix "g_" conversation_id
group_id_from_conversation conversation_id SessionType.read_group =
    without_prefix "sg_" conversation_id
group_id_from_conversation conversation_id SessionType.single = ""
group_id_from_conversation conversation_id SessionType.notification = ""

-- the row that `save_message` writes; `content` is the JSON text of the content
unfoldable pub chat_log_row : ChatMessage → String → RawChatMessage
chat_log_row message content = record {
  client_msg_id = message.client_msg_id;
  server_msg_id = text_or_empty message.server_msg_id;
  send_id = message.send_id;
  recv_id = message.recv_id;
  session_type = as_i32 message.session_type;
  content_type = as_i32 message.content_type;
  content = content;
  is_read = message.is_read;
  status = as_i32 message.status;
  seq = message.seq;
  send_time = message.send_time;
  create_time = message.create_time;
  attached_info = message.attached_info;
  ex = message.ex;
  local_ex = message.local_ex;
}

unfoldable pub into_chat_message :
    Json MessageContent → String → RawChatMessage → Result ChatMessage
into_chat_message json conversation_id raw =
    ok_or (from_i32 raw.session_type) (sdk_internal "sqlite message has invalid session_type")
    >>=? λ session_type.
        ok_or (from_i32 raw.content_type) (sdk_internal "sqlite message has invalid content_type")
        >>=? λ content_type.
            ok_or (from_i32 raw.status) (sdk_internal "sqlite message has invalid status")
            >>=? λ status. or_json_error (json.from_str raw.content) >>=? λ content. ok (record {
              client_msg_id = raw.client_msg_id;
              server_msg_id = non_empty raw.server_msg_id;
              conversation_id = conversation_id;
              send_id = raw.send_id;
              recv_id = raw.recv_id;
              group_id = group_id_from_conversation conversation_id session_type;
              session_type = session_type;
              content_type = content_type;
              content = content;
              is_read = raw.is_read;
              status = status;
              seq = raw.seq;
              send_time = raw.send_time;
              create_time = raw.create_time;
              attached_info = raw.attached_info;
              ex = raw.ex;
              local_ex = raw.local_ex;
              revoked = eqb_ℤ (status_value status) (status_value MessageStatus.has_deleted);
            })

-- `map(...).transpose()`
abbrev pub each_chat_message :
    Json MessageContent → String → Option RawChatMessage → Result (Option ChatMessage)
each_chat_message json conversation_id none = ok none
each_chat_message json conversation_id (some raw) =
    into_chat_message json conversation_id raw >>=? λ message. ok (some message)

-- `map(...).collect()`
unfoldable pub all_chat_messages :
    Json MessageContent → String → List RawChatMessage → Result (List ChatMessage)
all_chat_messages json conversation_id [] = ok []
all_chat_messages json conversation_id (raw ∷ rest) =
    into_chat_message json conversation_id raw >>=? λ message.
    all_chat_messages json conversation_id rest >>=? λ others. ok (message ∷ others)

module _ {D : Type 0} (db : ChatLogsDb D) (json : Json MessageContent) where
  unfoldable pub ensure_chat_logs_table : String → Action D String
  ensure_chat_logs_table conversation_id = do
    table_name ← lift (chat_logs_table_name conversation_id)
    execute (db.create_chat_logs (quoted_identifier table_name))
    pure table_name

  unfoldable pub save_message : ChatMessage → Action D (Unit {0})
  save_message message = do
    table_name ← ensure_chat_logs_table message.conversation_id
    content ← lift (or_json_error (json.to_string message.content))
    execute (db.upsert_chat_log (quoted_identifier table_name) (chat_log_row message content))

  unfoldable pub load_message : String → String → D → Result (Option ChatMessage)
  load_message conversation_id client_msg_id d =
      chat_logs_table_name conversation_id >>=? λ table_name.
      or_sqlite_error (db.table_exists table_name d) >>=? λ exists.
      if exists
      then (or_sqlite_error (db.select_chat_log (quoted_identifier table_name) client_msg_id d)
          >>=? each_chat_message json conversation_id)
      else ok none

  -- the product of `i64`s saturates
  unfoldable pub load_history : String → Pagination → D → Result (List ChatMessage)
  load_history conversation_id pagination d =
      chat_logs_table_name conversation_id >>=? λ table_name.
      or_sqlite_error (db.table_exists table_name d) >>=? λ exists.
      if exists
      then (let page = normalized pagination in
          let limit = pos_part page.show_number in
          let offset = min (pos_part page.page_number * limit) (2 ^ 63 - 1) in
          or_sqlite_error
            (db.select_chat_logs (quoted_identifier table_name) (pos limit) (pos offset) d)
          >>=? all_chat_messages json conversation_id)
      else ok []
