-- ===== src/Storage/Sqlite/Messages/RoundTrip.antt =====
-- That a message that is saved is loaded again.
use Prim.Native.String.{◌++◌}
use openim_sdk_core_rust.Base.{String, Bool, true, false, some, inr, ◌⊎◌, ◌≡◌, refl, sym, ap, ◌∙◌}
use openim_sdk_core_rust.Base.Keys.{string_eq}
use openim_sdk_core_rust.Base.Text.{is_empty}
use openim_sdk_core_rust.Errors.{ok, ok_injective}
use openim_sdk_core_rust.Types.{session_type_enum, content_type_enum, status_enum}
use openim_sdk_core_rust.Action.{lift-ok, lift, pure, >>=-ran, ◌>>=◌ as ◌>>=!◌}
use openim_sdk_core_rust.Domain.Message.Content.{MessageContent}
use openim_sdk_core_rust.Domain.Message.Chat.{ChatMessage, validate_message}
use openim_sdk_core_rust.Storage.Sqlite.{Json, execute, quoted_identifier, or_json_error}
use openim_sdk_core_rust.Storage.Sqlite.Laws.{
  IsJson, or_json_error-ok, or_sqlite_error-ok, executed,
}
use openim_sdk_core_rust.Storage.Sqlite.Messages.{
  RawChatMessage, ChatLogsDb, chat_logs_table_name, chat_log_row, ensure_chat_logs_table,
  save_message, load_message,
}
use openim_sdk_core_rust.Storage.Sqlite.Messages.Rows.{
  IsStorable, validated, into_chat_message-chat_log_row,
}

-- what the statements of SQLite do: `sqlite_master` keeps a name as it was written, but a name is
-- taken also by a table whose name differs in case, and `IF NOT EXISTS` then makes none; a row that
-- is written is the one that its key selects
pub record IsSqlite {D : Type 0} (db : ChatLogsDb D) : Type 1 where
  pub is_table : D → String → Bool
  pub is_taken : D → String → Bool
  pub exists : (table : String) (d : D) → db.table_exists table d ≡ inr (is_table d table)
  pub created :
      (table : String) (d : D)
      → (db.create_chat_logs (quoted_identifier table) d).0 ≡ inr tt
      → (is_table d table ≡ true) ⊎ (is_taken d table ≡ false)
      → is_table (db.create_chat_logs (quoted_identifier table) d).1 table ≡ true
  pub kept :
      (table written : String) (row : RawChatMessage) (d : D)
      → is_table d table ≡ true
      → is_table (db.upsert_chat_log written row d).1 table ≡ true
  pub selected :
      (table : String) (row : RawChatMessage) (d : D)
      → (db.upsert_chat_log table row d).0 ≡ inr tt
      → db.select_chat_log table row.client_msg_id (db.upsert_chat_log table row d).1
        ≡ inr (some row)

-- the table of a message that is saved is named by its conversation
table_named :
    (conversation_id : String)
    → is_empty conversation_id ≡ false
    → chat_logs_table_name conversation_id ≡ ok ("chat_logs_" ++ conversation_id)
unfolding chat_logs_table_name
table_named conversation_id full = rw full refl

-- what opens the table of a conversation that is named
opened :
    {D : Type 0} (db : ChatLogsDb D) (json : Json MessageContent) (conversation_id : String) (d : D)
    → is_empty conversation_id ≡ false
    → let table = "chat_logs_" ++ conversation_id in
      ensure_chat_logs_table db json conversation_id d
      ≡ (execute (db.create_chat_logs (quoted_identifier table)) >>=! λ _. pure table) d
unfolding ensure_chat_logs_table
opened db json conversation_id d full =
    lift-ok (chat_logs_table_name conversation_id) _ d (table_named conversation_id full)

-- the statements that `save_message` ran where it succeeded
ran :
    {D : Type 0} (db : ChatLogsDb D) (json : Json MessageContent) (m : ChatMessage) (d e : D)
    → is_empty m.conversation_id ≡ false
    → save_message db json m d ≡ (ok tt, e)
    → let table = "chat_logs_" ++ m.conversation_id in
      let made = db.create_chat_logs (quoted_identifier table) d in
      (text : String) × (made.0 ≡ inr tt)
      × (json.to_string m.content ≡ inr text)
      × (db.upsert_chat_log (quoted_identifier table) (chat_log_row m text) made.1 ≡ (inr tt, e))
unfolding save_message
ran db json m d e full saved =
    let table = "chat_logs_" ++ m.conversation_id in
    let opening = ensure_chat_logs_table db json m.conversation_id in
    let create = execute (db.create_chat_logs (quoted_identifier table)) in
    let (named, ensured, next) = >>=-ran opening _ d saved in
    let (_, made, left) =
      >>=-ran create (λ _. pure table) d
        (sym (opened db json m.conversation_id d full) ∙ ap (λ r. (r, (opening d).1)) ensured) in
    let (text, printed, last) =
      >>=-ran (lift (or_json_error (json.to_string m.content))) _ _ next in
    (
      text,
      or_sqlite_error-ok _ made,
      or_json_error-ok _ printed,
      ap (λ t. db.upsert_chat_log (quoted_identifier t) (chat_log_row m text) (create d).1)
            (ok_injective (ap (λ p. p.0) left))
          ∙ ap (λ u. db.upsert_chat_log (quoted_identifier named) (chat_log_row m text) u)
              (ap (λ p. p.1) left)
          ∙ executed _ last,
    )

-- A valid message of which the columns hold everything is loaded, equal to itself, after a
-- `save_message` that succeeds, where `sqlite_master` has the table of the conversation already
-- or no table whose name is taken for it.
pub load_message-save_message :
    {D : Type 0} (db : ChatLogsDb D) (json : Json MessageContent) (sqlite : IsSqlite db)
    (texts : IsJson json) (m : ChatMessage) (d e : D)
    → IsStorable m
    → validate_message m ≡ ok tt
    → let table = "chat_logs_" ++ m.conversation_id in
      (sqlite.is_table d table ≡ true) ⊎ (sqlite.is_taken d table ≡ false)
      → save_message db json m d ≡ (ok tt, e)
      → load_message db json m.conversation_id m.client_msg_id e ≡ ok (some m)
unfolding load_message chat_log_row
load_message-save_message db json sqlite texts m d e storable valid free saved =
    let table = "chat_logs_" ++ m.conversation_id in
    let full = (validated m valid).1 in
    let (text, made, printed, written) = ran db json m d e full saved in
    let created = db.create_chat_logs (quoted_identifier table) d in
    let row = chat_log_row m text in
    let there : db.table_exists table e ≡ inr true =
      sqlite.exists table e
      ∙ ap (λ p. inr (sqlite.is_table p.1 table)) (sym written)
      ∙ ap inr (
          sqlite.kept table (quoted_identifier table) row created.1
            (sqlite.created table d made free)) in
    let found : db.select_chat_log (quoted_identifier table) m.client_msg_id e ≡ inr (some row) =
      ap (λ p. db.select_chat_log (quoted_identifier table) m.client_msg_id p.1) (sym written)
      ∙ sqlite.selected (quoted_identifier table) row created.1 (ap (λ p. p.0) written) in
    let read =
      into_chat_message-chat_log_row json m text (texts.read m.content text printed) storable
        valid in
    rw (table_named m.conversation_id full, there, found, read) refl
