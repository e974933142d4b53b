-- ===== src/Examples/Storage.antt =====
-- The theorems about the stores at a database of names and rows, and a JSON of one content.
use openim_sdk_core_rust.Base.{
  String, true, false, none, some, inl, inr, List, [], ◌≡◌, refl, sym, ap, ◌∙◌, map, arith,
  Bool-cases, if◌then◌else◌,
}
use openim_sdk_core_rust.Base.Int.{pos}
use openim_sdk_core_rust.Base.Keys.{string_eq, pair_eq}
use openim_sdk_core_rust.Base.Text.{is_empty}
use openim_sdk_core_rust.Base.HashMap
use openim_sdk_core_rust.Base.HashSet
use openim_sdk_core_rust.Errors.{ok}
use openim_sdk_core_rust.Types.{SessionType, MessageContentType, MessageStatus}
use openim_sdk_core_rust.Transport.Wire.{Fallible}
use openim_sdk_core_rust.Domain.Message.Content.{MessageContent, content_type, validate}
use openim_sdk_core_rust.Domain.Message.Chat.{
  ChatMessage, validate_message, conversation_id_by_session_type, conversation_id_by_message,
}
use openim_sdk_core_rust.Storage.Sqlite.{Json, quoted_identifier}
use openim_sdk_core_rust.Storage.Sqlite.Messages.{
  RawChatMessage, ChatLogsDb, chat_logs_table_name, ensure_chat_logs_table, save_message,
  load_message,
}
use openim_sdk_core_rust.Storage.Sqlite.Messages.RoundTrip.{IsSqlite, load_message-save_message}

-- the quoted names of the tables, and the rows by table and key
abbrev Tables : Type 0
Tables = List String × HashMap.HashMap (String × String) RawChatMessage

abbrev tables_db : ChatLogsDb Tables
tables_db = record {
  create_chat_logs = λ table d. (inr tt, (HashSet.insert table d.0, d.1));
  upsert_chat_log =
      λ table row d. (inr tt, (d.0, HashMap.insert (table, row.client_msg_id) row d.1));
  table_exists = λ table d. inr (HashSet.contains d.0 (quoted_identifier table));
  select_chat_log = λ table key d. inr (HashMap.get (table, key) d.1);
  select_chat_logs = λ table limit offset d. inr (map (λ p. p.1) d.1);
}

abbrev tables_law : IsSqlite tables_db
tables_law = record {
  is_table = λ d table. HashSet.contains d.0 (quoted_identifier table);
  is_taken = λ d table. HashSet.contains d.0 (quoted_identifier table);
  exists = λ table d. refl;
  created = λ table d made free.
      HashSet.contains-insert (quoted_identifier table) (quoted_identifier table) d.0
      ∙ ground (arith, string_eq.beq_iff (quoted_identifier table) (quoted_identifier table));
  kept = λ table written row d there. there;
  selected = λ table row d made. ap inr (
      HashMap.get-insert (table, row.client_msg_id) (table, row.client_msg_id) row d.1
      ∙ ground (arith, pair_eq.beq_iff (table, row.client_msg_id) (table, row.client_msg_id)));
}

abbrev as_text : MessageContent → Fallible String
as_text (MessageContent.text s) = if is_empty s then inl "empty" else inr s
as_text (MessageContent.picture p) = inl "picture"
as_text (MessageContent.file f) = inl "file"

abbrev texts : Json MessageContent
texts = record { to_string = as_text; from_str = λ s. inr (MessageContent.text s) }

as_text-read :
    (c : MessageContent) (s : String)
    → as_text c ≡ inr s
    → Path (Fallible MessageContent) (inr (MessageContent.text s)) (inr c)
as_text-read (MessageContent.text t) s h = elim (Bool-cases (is_empty t)) [
  | inl empty ↦ ground (arith, empty)
  | inr full ↦ ground (arith, full)
]
as_text-read (MessageContent.picture p) s h = cc
as_text-read (MessageContent.file f) s h = cc

as_text-not_empty : (c : MessageContent) (s : String) → as_text c ≡ inr s → is_empty s ≡ false
as_text-not_empty (MessageContent.text t) s h = elim (Bool-cases (is_empty t)) [
  | inl empty ↦ ground (arith, empty)
  | inr full ↦ ground (arith, full)
]
as_text-not_empty (MessageContent.picture p) s h = cc
as_text-not_empty (MessageContent.file f) s h = cc

abbrev kept_message : ChatMessage
kept_message = record {
  client_msg_id = "m1";
  server_msg_id = some "s1";
  conversation_id = "g_team";
  send_id = "ann";
  recv_id = "";
  group_id = "team";
  session_type = SessionType.write_group;
  content_type = MessageContentType.text;
  content = MessageContent.text "hello";
  is_read = true;
  status = MessageStatus.send_success;
  seq = pos 7;
  send_time = pos 11;
  create_time = pos 10;
  attached_info = "";
  ex = "";
  local_ex = "";
  revoked = false;
}

acknowledged_by : (s : String) → some "s1" ≡ some s → is_empty s ≡ false
acknowledged_by s h = ap (λ o. elim o [ none ↦ false | some x ↦ is_empty x ]) (sym h)

load_message-save_message_example :
    load_message tables_db texts "g_team" "m1"
      (save_message tables_db texts kept_message ([], [])).1
    ≡ ok (some kept_message)
unfolding validate_message conversation_id_by_message conversation_id_by_session_type content_type
    validate save_message ensure_chat_logs_table chat_logs_table_name
load_message-save_message_example =
    load_message-save_message tables_db texts tables_law
      (record { read = as_text-read; not_empty = as_text-not_empty }) kept_message ([], [])
      (save_message tables_db texts kept_message ([], [])).1
      (record { acknowledged = acknowledged_by; direct = λ h. cc; deleted = refl }) refl (inr refl)
      refl
