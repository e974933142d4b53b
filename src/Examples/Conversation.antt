-- ===== src/Examples/Conversation.antt =====
-- The theorems about crates/openim-domain/src/conversation.rs at a small service.
use openim_sdk_core_rust.Base.{true, false, none, some, [], ◌∷◌, ◌≡◌, refl, ap, arith}
use openim_sdk_core_rust.Base.Int.{pos}
use openim_sdk_core_rust.Base.Keys.{string_eq, pair_eq}
use openim_sdk_core_rust.Base.HashMap
use openim_sdk_core_rust.Errors.{is_ok}
use openim_sdk_core_rust.Types.{SessionType, MessageContentType, MessageStatus}
use openim_sdk_core_rust.Domain.Message.Content.{MessageContent}
use openim_sdk_core_rust.Domain.Message.Chat.{ChatMessage}
use openim_sdk_core_rust.Domain.Conversation.Info.{
  ConversationInfo, validate_conversation, conversation_key,
}
use openim_sdk_core_rust.Domain.Conversation.Service.{
  ConversationService, mark_all_read, sync_conversations,
}
use openim_sdk_core_rust.Domain.Conversation.Sync.{sync_conversations-mirrors}
use openim_sdk_core_rust.Domain.Sync.Listing.{empty-IsKeyed}
use openim_sdk_core_rust.Domain.Conversation.Unread.{mark_all_read-total_unread_count}
use openim_sdk_core_rust.Domain.Conversation.Apply.{apply_messages, apply_messages-counts}

abbrev chat : ConversationInfo
chat = record {
  owner_user_id = "ann";
  conversation_id = "g_team";
  conversation_type = SessionType.write_group;
  user_id = "";
  group_id = "team";
  show_name = "team";
  face_url = "";
  recv_msg_opt = pos 0;
  unread_count = 2;
  latest_message = none;
  latest_msg_send_time = pos 0;
  draft_text = "";
  draft_text_time = pos 0;
  is_pinned = false;
  max_seq = pos 4;
  min_seq = pos 0;
  ex = "";
}

abbrev service : ConversationService
service = record { conversations = (("ann", "g_team"), chat) ∷ [] }

abbrev news : ChatMessage
news = record {
  client_msg_id = "m1";
  server_msg_id = some "s1";
  conversation_id = "g_team";
  send_id = "bob";
  recv_id = "";
  group_id = "team";
  session_type = SessionType.write_group;
  content_type = MessageContentType.text;
  content = MessageContent.text "hello";
  is_read = false;
  status = MessageStatus.send_success;
  seq = pos 5;
  send_time = pos 10;
  create_time = pos 10;
  attached_info = "";
  ex = "";
  local_ex = "";
  revoked = false;
}

mark_all_read-total_unread_count_example : is_ok (mark_all_read "ann" service).0 ≡ true
mark_all_read-total_unread_count_example =
    ap (λ p. is_ok p.0) (mark_all_read-total_unread_count "ann" service refl).2

apply_messages-counts_example :
    is_ok (apply_messages "ann" chat (news ∷ news ∷ []) service).0 ≡ true
unfolding HashMap.get
apply_messages-counts_example =
    ap (λ p. is_ok p.0)
      (apply_messages-counts "ann" "g_team" (news ∷ news ∷ []) chat service refl (refl, (refl, tt))
        refl (omega arith)).2

sync_conversations-mirrors_example :
    is_ok (sync_conversations "ann" (chat ∷ []) (record { conversations = [] })).0 ≡ true
unfolding validate_conversation
sync_conversations-mirrors_example =
    ap (λ p. is_ok p.0)
      (sync_conversations-mirrors "ann" (chat ∷ []) (record { conversations = [] }) refl
        ((refl, refl), tt) (tt, tt) (empty-IsKeyed conversation_key)).2
