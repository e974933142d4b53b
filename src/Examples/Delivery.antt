-- ===== src/Examples/Delivery.antt =====
-- The theorems about the messages of a session at a small service.
use openim_sdk_core_rust.Base.{String, false, none, some, [], ◌∷◌, inr, ◌≡◌, refl}
use openim_sdk_core_rust.Base.Int.{pos}
use openim_sdk_core_rust.Base.Keys.{string_eq, pair_eq}
use openim_sdk_core_rust.Base.HashMap
use openim_sdk_core_rust.Base.Sort.{sort_by}
use openim_sdk_core_rust.Errors.{ok}
use openim_sdk_core_rust.Types.{SessionType, MessageContentType, MessageStatus, from_i32}
use openim_sdk_core_rust.Domain.Message.Content.{MessageContent, content_type, validate}
use openim_sdk_core_rust.Domain.Message.Chat.{
  ChatMessage, incoming, outgoing, route_target, validate_message, conversation_id_by_session_type,
  conversation_id_by_message, snapshot,
}
use openim_sdk_core_rust.Domain.Conversation.Info.{ConversationInfo, applied, should_replace_latest}
use openim_sdk_core_rust.Domain.Conversation.Service.{
  ConversationService, apply_message, find_or_insert, get_conversation, total_unread_count, sum_u32,
}
use openim_sdk_core_rust.Transport.Wire.{IncomingTransportMessage, Fallible}
use openim_sdk_core_rust.Session.Batch.{
  ConversationDispatchBatch, place, sort_messages, apply_messages_to_conversations,
}
use openim_sdk_core_rust.Session.Batch.Listing.{listed, IsOnce}
use openim_sdk_core_rust.Session.Batch.Sorting.{apply_messages_to_conversations-exact}
use openim_sdk_core_rust.Session.Messages.{decode_transport_message, build_transport_message}
use openim_sdk_core_rust.Session.Messages.Decoding.{decode_transport_message-IsMadeOf}

abbrev news : ChatMessage
news = record {
  client_msg_id = "m1";
  server_msg_id = some "s1";
  conversation_id = "g_team";
  send_id = "bob";
  recv_id = "";
  group_id = "team";
  session_type = SessionType.write_group;
  content_type = MessageContentType.text;
  content = MessageContent.text "hello";
  is_read = false;
  status = MessageStatus.send_success;
  seq = pos 5;
  send_time = pos 10;
  create_time = pos 10;
  attached_info = "";
  ex = "";
  local_ex = "";
  revoked = false;
}

abbrev pub chat : ConversationInfo
chat = record {
  owner_user_id = "ann";
  conversation_id = "g_team";
  conversation_type = SessionType.write_group;
  user_id = "";
  group_id = "team";
  show_name = "team";
  face_url = "";
  recv_msg_opt = pos 0;
  unread_count = 2;
  latest_message = none;
  latest_msg_send_time = pos 0;
  draft_text = "";
  draft_text_time = pos 0;
  is_pinned = false;
  max_seq = pos 4;
  min_seq = pos 0;
  ex = "";
}

abbrev service : ConversationService
service = record { conversations = (("ann", "g_team"), chat) ∷ [] }

abbrev after : ConversationService
after = record { conversations = (("ann", "g_team"), applied "ann" news chat) ∷ [] }

-- the batch of one message to a conversation that is there
abbrev batch : ConversationDispatchBatch
batch = record {
  new_conversations = [];
  changed_conversations = applied "ann" news chat ∷ [];
  total_unread_count = some 3;
}

applied_once : apply_messages_to_conversations "ann" (news ∷ []) service ≡ (ok batch, after)
unfolding apply_messages_to_conversations sort_messages total_unread_count get_conversation
    apply_message find_or_insert applied place HashMap.get HashMap.insert HashMap.remove sum_u32
    should_replace_latest snapshot sort_by
applied_once = refl

apply_messages_to_conversations-exact_example :
    IsOnce batch.changed_conversations
    × (listed "g_team" batch.changed_conversations ≡ some (applied "ann" news chat))
    × (listed "g_team" batch.new_conversations ≡ none)
unfolding HashMap.get
apply_messages_to_conversations-exact_example =
    let h =
      apply_messages_to_conversations-exact "ann" (news ∷ []) service after batch
        ((refl, refl, refl), tt) applied_once in
    (h.6.0, h.6.1 "g_team", h.5.1 "g_team")

abbrev wire_news : IncomingTransportMessage
wire_news = record {
  send_id = "bob";
  recv_id = "";
  group_id = "team";
  client_msg_id = "m1";
  server_msg_id = "s1";
  session_type = pos 2;
  content_type = pos 101;
  content_json = "{\"content\":\"hello\"}";
  seq = pos 5;
  send_time = pos 10;
  create_time = pos 0;
  status = pos 2;
  is_read = false;
  attached_info = "";
  ex = "";
}

-- a parser that knows one text
abbrev parser : String → Fallible String
parser json = inr "hello"

decode_transport_message-IsMadeOf_example :
    (session_type : SessionType) × (text : String) × (parser wire_news.content_json ≡ inr text)
unfolding decode_transport_message build_transport_message from_i32 incoming outgoing route_target
    conversation_id_by_session_type conversation_id_by_message validate_message validate
    content_type
decode_transport_message-IsMadeOf_example =
    let h = decode_transport_message-IsMadeOf parser wire_news news refl in (h.0, h.1, h.4)
