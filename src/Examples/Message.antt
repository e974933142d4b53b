-- ===== src/Examples/Message.antt =====
-- The theorems about crates/openim-domain/src/message.rs at a small service.
use openim_sdk_core_rust.Base.{ℕ, true, false, none, some, List, [], ◌∷◌, ◌≡◌, refl, ap, ◌⊎◌, arith}
use openim_sdk_core_rust.Base.Int.{pos, negsuc}
use openim_sdk_core_rust.Base.Keys.{string_eq, pair_eq}
use openim_sdk_core_rust.Base.HashMap
use openim_sdk_core_rust.Errors.{Result, ok, is_ok}
use openim_sdk_core_rust.Types.{SessionType, MessageContentType, MessageStatus, Pagination}
use openim_sdk_core_rust.Domain.Message.Content.{MessageContent, content_type, validate}
use openim_sdk_core_rust.Domain.Message.Chat.{
  ChatMessage, validate_message, conversation_id_by_session_type, conversation_id_by_message,
  outgoing,
}
use openim_sdk_core_rust.Domain.Message.Service.{
  SendMessageAck, new_service, send_message, sync_message_range,
}
use openim_sdk_core_rust.Domain.Message.Invariant.{
  Step, IsReachable, IsValid, IsWellFormed, message_service-IsWellFormed,
}
use openim_sdk_core_rust.Domain.Message.Sending.{send_message-outcome}
use openim_sdk_core_rust.Domain.Message.Range.{
  sync_message_range-merges, sync_message_range_all_or_nothing,
}
use openim_sdk_core_rust.Domain.Message.Routing.{conversation_id_symmetric, outgoing_accepts}
use openim_sdk_core_rust.Domain.Message.Paging.{pages, pages-take}

abbrev hello : ChatMessage
hello = record {
  client_msg_id = "m1";
  server_msg_id = none;
  conversation_id = "g_team";
  send_id = "ann";
  recv_id = "";
  group_id = "team";
  session_type = SessionType.write_group;
  content_type = MessageContentType.text;
  content = MessageContent.text "hello";
  is_read = true;
  status = MessageStatus.sending;
  seq = pos 0;
  send_time = pos 10;
  create_time = pos 10;
  attached_info = "";
  ex = "";
  local_ex = "";
  revoked = false;
}

hello-IsValid : IsValid hello
unfolding validate_message conversation_id_by_message conversation_id_by_session_type content_type
    validate
hello-IsValid = refl

abbrev answer : ChatMessage → Result SendMessageAck
answer _ = ok (record { server_msg_id = "s1"; seq = pos 7; send_time = pos 11 })

send_message-outcome_example :
    HashMap.get ("g_team", "m1") (send_message hello answer new_service).1.messages
    ≡ some (record hello {
      server_msg_id = some "s1";
      seq = pos 7;
      send_time = pos 11;
      status = MessageStatus.send_success;
    })
send_message-outcome_example =
    (send_message-outcome hello answer new_service ("g_team", "m1") hello-IsValid).1

message_service-IsWellFormed_example : IsWellFormed (send_message hello answer new_service).1
message_service-IsWellFormed_example =
    message_service-IsWellFormed
      (IsReachable.next IsReachable.start (Step.message_sent hello answer))

sync_message_range-merges_example :
    is_ok (sync_message_range "g_team" (hello ∷ []) new_service).0 ≡ true
sync_message_range-merges_example =
    ap (λ p. is_ok p.0)
      (sync_message_range-merges "g_team" (hello ∷ []) new_service refl ((refl, hello-IsValid), tt)
        (tt, tt) (message_service-IsWellFormed IsReachable.start)).2

sync_message_range_all_or_nothing_example :
    (is_ok (sync_message_range "g_other" (hello ∷ []) new_service).0 ≡ true)
    ⊎ ((sync_message_range "g_other" (hello ∷ []) new_service).1 ≡ new_service)
sync_message_range_all_or_nothing_example =
    sync_message_range_all_or_nothing "g_other" (hello ∷ []) new_service

conversation_id_symmetric_example :
    conversation_id_by_session_type "bob" "ann" SessionType.single
    ≡ conversation_id_by_session_type "ann" "bob" SessionType.single
conversation_id_symmetric_example = (conversation_id_symmetric "bob" "ann" refl refl).0

outgoing_accepts_example :
    is_ok (outgoing "m1" "ann" "bob" SessionType.single (MessageContent.text "hi") (pos 1)) ≡ true
unfolding validate
outgoing_accepts_example =
    outgoing_accepts "m1" "ann" "bob" SessionType.single (MessageContent.text "hi") (pos 1)

abbrev three : List ℕ
three = 1 ∷ 2 ∷ 3 ∷ []

pages-take_example : pages 2 2 three ≡ three
pages-take_example = pages-take 2 2 three (omega arith) (omega arith)

abbrev odd_page : Pagination
odd_page = record { page_number = negsuc 3; show_number = pos 1 }
