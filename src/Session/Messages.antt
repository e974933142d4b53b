-- ===== src/Session/Messages.antt =====
-- crates/openim-session/src/lib.rs: which messages a session sends and shows, and how the
-- transport's become messages. The parser of JSON and the decoder of protobuf are given.
pub mod Decoding
use openim_sdk_core_rust.Base.{
  ℕ, String, Bool, not, ◌||◌, Option, none, some, List, [], ◌∷◌, ◌++◌ as ◌⧺◌, inl, inr, ◌⊎◌,
  is_empty as is_empty_list, if◌then◌else◌,
}
use openim_sdk_core_rust.Base.Int.{ℤ, pos, ltb_ℤ}
use openim_sdk_core_rust.Base.Keys.{◌==◌, string_eq}
use openim_sdk_core_rust.Base.Text.{is_empty, to_string_ℤ}
use Prim.Native.String.{◌++◌}
use openim_sdk_core_rust.Errors.{
  Result, ok, err, args, sdk_internal, ok_or, each, ensure_not_empty, ◌>>=◌ as ◌>>=?◌,
  ◌>>◌ as ◌>>?◌,
}
use openim_sdk_core_rust.Types.{
  SessionType, MessageContentType, MessageStatus, from_i32, session_type_enum, content_type_enum,
  status_enum,
}
use openim_sdk_core_rust.Action.{Action, lift, pure, gets, query, modify, ◌>>=◌, ◌>>◌}
use openim_sdk_core_rust.Domain.Message.Content.{MessageContent}
use openim_sdk_core_rust.Domain.Message.Chat.{ChatMessage, incoming}
use openim_sdk_core_rust.Domain.Message.Service as Messages
use openim_sdk_core_rust.Domain.Message.Service.{
  MessageService, SendMessageAck, receive_message, sync_message_range,
}
use openim_sdk_core_rust.Domain.Conversation.Info.{ConversationInfo}
use openim_sdk_core_rust.Domain.Conversation.Service.{ConversationService}
use openim_sdk_core_rust.Transport.Wire.{
  TransportEvent, GeneralWsResp, IncomingTransportMessage, Fallible, PushMessages,
  decode_push_messages_response,
}
use openim_sdk_core_rust.Session.Batch.{ConversationDispatchBatch, apply_messages_to_conversations}
use openim_sdk_core_rust.Session.Events.{SessionEvent}
use openim_sdk_core_rust.Session.Resources.{
  SessionRuntimeResources, HandleApi, drain_transport_events,
}
use openim_sdk_core_rust.Session.State.{OpenImSession, emit, ensure_logged_in, logged_in_user_id}

abbrev pub ensure_outgoing_owner : String → ChatMessage → Result (Unit {0})
ensure_outgoing_owner owner_user_id message =
    if message.send_id == owner_user_id
    then ok tt
    else err (args "message send_id does not match login user")

abbrev pub ensure_message_visible_to_owner : String → ChatMessage → Result (Unit {0})
ensure_message_visible_to_owner owner_user_id message =
    if message.send_id == owner_user_id || message.recv_id == owner_user_id
    then ok tt
    else if not (is_empty message.group_id)
    then ok tt
    else err (args "message is outside login user scope")

abbrev pub text_content : Fallible String → Result (Option MessageContent)
text_content (inl e) = err (args ("invalid text message content json: " ++ e))
text_content (inr content) = ok (some (MessageContent.text content))

-- `parse_text` reads the field `content` of a JSON object
abbrev pub decode_content :
    (String → Fallible String)
    → IncomingTransportMessage
    → MessageContentType
    → Result (Option MessageContent)
decode_content parse_text message MessageContentType.text =
    text_content (parse_text message.content_json)
decode_content parse_text message MessageContentType.typing = ok none
decode_content parse_text message _ = err (
    args ("transport content_type " ++ to_string_ℤ message.content_type ++ " is not supported yet"))

abbrev pub transport_target : IncomingTransportMessage → SessionType → String
transport_target message SessionType.single = message.recv_id
transport_target message SessionType.notification = message.recv_id
transport_target message SessionType.write_group = message.group_id
transport_target message SessionType.read_group = message.group_id

-- what is set once the message is built
abbrev pub with_transport_fields : IncomingTransportMessage → ChatMessage → ChatMessage
with_transport_fields message decoded = record decoded {
  create_time =
      if ltb_ℤ (pos 0) message.create_time then message.create_time else decoded.send_time;
  is_read = message.is_read;
  status = elim (from_i32 message.status) [
    | none ↦ MessageStatus.send_success
    | some status ↦ status
  ];
  attached_info = message.attached_info;
  ex = message.ex;
}

-- the message of a content that is decoded
unfoldable pub build_transport_message :
    IncomingTransportMessage → SessionType → Option MessageContent → Result (Option ChatMessage)
build_transport_message message session_type none = ok none
build_transport_message message session_type (some content) =
    incoming message.client_msg_id message.server_msg_id message.send_id
      (transport_target message session_type) session_type content message.seq message.send_time
    >>=? λ decoded. ok (some (with_transport_fields message decoded))

unfoldable pub decode_transport_message :
    (String → Fallible String) → IncomingTransportMessage → Result (Option ChatMessage)
decode_transport_message parse_text message =
    ok_or (from_i32 message.session_type)
      (args ("unsupported transport session_type " ++ to_string_ℤ message.session_type))
    >>=? λ session_type.
        ok_or (from_i32 message.content_type)
          (args ("unsupported transport content_type " ++ to_string_ℤ message.content_type))
        >>=? λ content_type.
            decode_content parse_text message content_type
            >>=? build_transport_message message session_type

-- the messages of one push
unfoldable pub decode_each :
    (String → Fallible String) → List IncomingTransportMessage → Result (List ChatMessage)
decode_each parse_text [] = ok []
decode_each parse_text (message ∷ rest) =
    decode_transport_message parse_text message >>=? λ decoded.
    decode_each parse_text rest >>=? λ others.
    ok (elim decoded [ none ↦ others | some m ↦ m ∷ others ])

-- `map_err` on the decoding of a push
abbrev pub or_internal : {A : Type 0} → Fallible A → Result A
or_internal (inl e) = err (sdk_internal ("decode transport push messages failed: " ++ e))
or_internal (inr a) = ok a

-- the messages of an event: of a push, and of no other
abbrev pub decode_event :
    (List ℕ → Fallible PushMessages)
    → (String → Fallible String)
    → TransportEvent
    → Result (List ChatMessage)
decode_event decode parse_text (TransportEvent.push resp) =
    or_internal (decode_push_messages_response decode resp) >>=? decode_each parse_text
decode_event decode parse_text _ = ok []

-- the loop over the events
unfoldable pub decode_events :
    (List ℕ → Fallible PushMessages)
    → (String → Fallible String)
    → List TransportEvent
    → Result (List ChatMessage)
decode_events decode parse_text [] = ok []
decode_events decode parse_text (event ∷ rest) =
    decode_event decode parse_text event >>=? λ messages.
    decode_events decode parse_text rest >>=? λ others. ok (messages ⧺ others)
