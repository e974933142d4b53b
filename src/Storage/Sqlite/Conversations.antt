-- ===== src/Storage/Sqlite/Conversations.antt =====
-- crates/openim-storage-sqlite/src/lib.rs: the repository of conversations.
pub mod RoundTrip
use openim_sdk_core_rust.Base.{
  ℕ, ◌^◌, ltb, String, Bool, Option, none, some, List, [], ◌∷◌, if◌then◌else◌,
}
use openim_sdk_core_rust.Base.Int.{ℤ, pos, negsuc}
use openim_sdk_core_rust.Base.Text.{is_empty}
use openim_sdk_core_rust.Errors.{Result, ok, err, panic, sdk_internal, ok_or, ◌>>=◌ as ◌>>=?◌}
use openim_sdk_core_rust.Types.{SessionType, from_i32, as_i32, session_type_enum}
use openim_sdk_core_rust.Action.{Action, lift, pure, ◌>>=◌, ◌>>◌}
use openim_sdk_core_rust.Domain.Message.Chat.{MessageSnapshot}
use openim_sdk_core_rust.Domain.Conversation.Info.{ConversationInfo}
use openim_sdk_core_rust.Transport.Wire.{Fallible}
use openim_sdk_core_rust.Storage.Sqlite.{Json, execute, or_json_error, or_sqlite_error}

abbrev pub local_conversations_table : String
local_conversations_table = "local_conversations"

pub record RawConversation : Type 0 where
  pub owner_user_id : String
  pub conversation_id : String
  pub conversation_type : ℤ
  pub user_id : String
  pub group_id : String
  pub show_name : String
  pub face_url : String
  pub recv_msg_opt : ℤ
  pub unread_count : ℤ
  pub latest_msg : String
  pub latest_msg_send_time : ℤ
  pub draft_text : String
  pub draft_text_time : ℤ
  pub is_pinned : Bool
  pub max_seq : ℤ
  pub min_seq : ℤ
  pub ex : String

-- what the database does for the statements of the repository, over its state
pub record ConversationsDb (D : Type 0) : Type 0 where
  pub create_tables : D → Fallible (Unit {0}) × D
  pub upsert_conversation : RawConversation → D → Fallible (Unit {0}) × D
  pub delete_conversation : String → String → D → Fallible (Unit {0}) × D
  pub table_exists : String → D → Fallible Bool
  pub select_conversations : String → D → Fallible (List RawConversation)

-- the row that `save_conversation` writes; `latest_msg` is the text of the latest message
unfoldable pub conversation_row : ConversationInfo → String → RawConversation
conversation_row c latest_msg = record {
  owner_user_id = c.owner_user_id;
  conversation_id = c.conversation_id;
  conversation_type = as_i32 c.conversation_type;
  user_id = c.user_id;
  group_id = c.group_id;
  show_name = c.show_name;
  face_url = c.face_url;
  recv_msg_opt = c.recv_msg_opt;
  unread_count = pos c.unread_count;
  latest_msg = latest_msg;
  latest_msg_send_time = c.latest_msg_send_time;
  draft_text = c.draft_text;
  draft_text_time = c.draft_text_time;
  is_pinned = c.is_pinned;
  max_seq = c.max_seq;
  min_seq = c.min_seq;
  ex = c.ex;
}

-- `u32::try_from`
unfoldable pub u32_try_from : ℤ → Option ℕ
u32_try_from (pos n) = if ltb n (2 ^ 32) then some n else none
u32_try_from (negsuc n) = none

unfoldable pub latest_text : Json MessageSnapshot → Option MessageSnapshot → Result String
latest_text json none = ok ""
latest_text json (some snapshot) = or_json_error (json.to_string snapshot)

unfoldable pub latest_message_of : Json MessageSnapshot → String → Result (Option MessageSnapshot)
latest_message_of json latest_msg =
    if is_empty latest_msg
    then ok none
    else (or_json_error (json.from_str latest_msg) >>=? λ snapshot. ok (some snapshot))

unfoldable pub into_conversation : Json MessageSnapshot → RawConversation → Result ConversationInfo
into_conversation json raw =
    ok_or (from_i32 raw.conversation_type)
      (sdk_internal "sqlite conversation has invalid conversation_type")
    >>=? λ conversation_type.
        ok_or (u32_try_from raw.unread_count) (sdk_internal "sqlite unread_count is negative")
        >>=? λ unread_count. latest_message_of json raw.latest_msg >>=? λ latest_message.
            ok (record {
              owner_user_id = raw.owner_user_id;
              conversation_id = raw.conversation_id;
              conversation_type = conversation_type;
              user_id = raw.user_id;
              group_id = raw.group_id;
              show_name = raw.show_name;
              face_url = raw.face_url;
              recv_msg_opt = raw.recv_msg_opt;
              unread_count = unread_count;
              latest_message = latest_message;
              latest_msg_send_time = raw.latest_msg_send_time;
              draft_text = raw.draft_text;
              draft_text_time = raw.draft_text_time;
              is_pinned = raw.is_pinned;
              max_seq = raw.max_seq;
              min_seq = raw.min_seq;
              ex = raw.ex;
            })

-- `map(...).collect()`
unfoldable pub all_conversations :
    Json MessageSnapshot → List RawConversation → Result (List ConversationInfo)
all_conversations json [] = ok []
all_conversations json (raw ∷ rest) =
    into_conversation json raw >>=? λ c. all_conversations json rest >>=? λ others. ok (c ∷ others)

module _ {D : Type 0} (db : ConversationsDb D) (json : Json MessageSnapshot) where
  unfoldable pub save_conversation : ConversationInfo → Action D (Unit {0})
  save_conversation conversation = do
    execute db.create_tables
    latest_msg ← lift (latest_text json conversation.latest_message)
    execute (db.upsert_conversation (conversation_row conversation latest_msg))

  unfoldable pub remove_conversation : String → String → Action D (Unit {0})
  remove_conversation owner_user_id conversation_id =
      execute (db.delete_conversation owner_user_id conversation_id)

  unfoldable pub load_conversations : String → D → Result (List ConversationInfo)
  load_conversations owner_user_id d =
      or_sqlite_error (db.table_exists local_conversations_table d) >>=? λ exists.
      if exists
      then (or_sqlite_error (db.select_conversations owner_user_id d) >>=? all_conversations json)
      else ok []
