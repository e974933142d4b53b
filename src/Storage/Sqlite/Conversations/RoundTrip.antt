-- ===== src/Storage/Sqlite/Conversations/RoundTrip.antt =====
-- That the row of a conversation is read back as the conversation.
use openim_sdk_core_rust.Base.{
  ◌<◌, ◌^◌, ltb, String, Option, none, some, ◌≡◌, true, refl, sym, arith,
}
use openim_sdk_core_rust.Errors.{ok, ok_injective}
use openim_sdk_core_rust.Types.{from_i32-as_i32, session_type_enum}
use openim_sdk_core_rust.Domain.Message.Chat.{MessageSnapshot}
use openim_sdk_core_rust.Domain.Conversation.Info.{ConversationInfo}
use openim_sdk_core_rust.Storage.Sqlite.{Json}
use openim_sdk_core_rust.Storage.Sqlite.Laws.{IsJson, or_json_error-ok}
use openim_sdk_core_rust.Storage.Sqlite.Conversations.{
  conversation_row, into_conversation, latest_text, latest_message_of, u32_try_from,
}

latest_message_of-latest_text :
    (json : Json MessageSnapshot) (texts : IsJson json) (o : Option MessageSnapshot) {s : String}
    → latest_text json o ≡ ok s
    → latest_message_of json s ≡ ok o
unfolding latest_text latest_message_of
latest_message_of-latest_text json texts none {s} h = rw (sym (ok_injective h)) refl
latest_message_of-latest_text json texts (some snapshot) {s} h =
    let made = or_json_error-ok _ h in
    rw (texts.not_empty snapshot s made, texts.read snapshot s made) refl

-- A conversation whose count of unread messages is a `u32` is read back, equal to itself, from the
-- row that is written for it with the text of its latest message.
pub into_conversation-conversation_row :
    (json : Json MessageSnapshot) (texts : IsJson json) (c : ConversationInfo) (s : String)
    → c.unread_count < 2 ^ 32
    → latest_text json c.latest_message ≡ ok s
    → into_conversation json (conversation_row c s) ≡ ok c
unfolding into_conversation conversation_row u32_try_from
into_conversation-conversation_row json texts c s small printed =
    let fits : ltb c.unread_count (2 ^ 32) ≡ true = ground arith in
    rw
      (
        from_i32-as_i32.1 c.conversation_type,
        fits,
        latest_message_of-latest_text json texts c.latest_message printed,
      )
      refl
