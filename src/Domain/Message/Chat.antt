-- ===== src/Domain/Message/Chat.antt =====
-- crates/openim-domain/src/message.rs: `ChatMessage`, its conversation, and what makes it valid.
use Prim.Native.String.{◌++◌, compare}
use openim_sdk_core_rust.Base.{
  String, Bool, true, false, not, Ordering, Option, some, none, [], ◌∷◌, get_elem?, if◌then◌else◌,
}
use openim_sdk_core_rust.Base.Int.{ℤ, pos, eqb_ℤ, compare_ℤ}
use openim_sdk_core_rust.Base.Keys.{◌==◌, string_eq}
use openim_sdk_core_rust.Base.Sort.{sort_by, then_with}
use openim_sdk_core_rust.Errors.{Result, ok, err, args, ensure_not_empty, or_panic, ◌>>=◌, ◌>>◌}
use openim_sdk_core_rust.Types.{SessionType, MessageContentType, content_type_value, MessageStatus}
use openim_sdk_core_rust.Domain.Equality.{String_discrete, ℤ_discrete}
use openim_sdk_core_rust.Domain.Message.Content.{
  MessageContent, MessageContent_discrete, content_type, validate, summary,
}

pub record ChatMessage : Type 0 where
  pub client_msg_id : String
  pub server_msg_id : Option String
  pub conversation_id : String
  pub send_id : String
  pub recv_id : String
  pub group_id : String
  pub session_type : SessionType
  pub content_type : MessageContentType
  pub content : MessageContent
  pub is_read : Bool
  pub status : MessageStatus
  pub seq : ℤ
  pub send_time : ℤ
  pub create_time : ℤ
  pub attached_info : String
  pub ex : String
  pub local_ex : String
  pub revoked : Bool

pub SessionType_discrete : Discrete SessionType
SessionType_discrete = hlevel

unfoldable pub MessageContentType_discrete : Discrete MessageContentType
MessageContentType_discrete = hlevel

unfoldable pub MessageStatus_discrete : Discrete MessageStatus
MessageStatus_discrete = hlevel

unfoldable pub ChatMessage_discrete : Discrete ChatMessage
ChatMessage_discrete = hlevel (
  String_discrete, ℤ_discrete, SessionType_discrete, MessageContentType_discrete,
  MessageStatus_discrete, MessageContent_discrete,
)

-- `members.sort()` on an array of two, and the reads of its two places
abbrev pub joined : String → String → String → Result String
joined prefix a b = do
  let members = sort_by compare (a ∷ b ∷ [])
  first ← or_panic (get_elem? members 0)
  second ← or_panic (get_elem? members 1)
  ok (prefix ++ first ++ "_" ++ second)

abbrev pub conversation_id_of : SessionType → String → String → Result String
conversation_id_of SessionType.single sender target = joined "si_" sender target
conversation_id_of SessionType.write_group sender target = ok ("g_" ++ target)
conversation_id_of SessionType.read_group sender target = ok ("sg_" ++ target)
conversation_id_of SessionType.notification sender target = joined "sn_" sender target

unfoldable pub conversation_id_by_session_type : String → String → SessionType → Result String
conversation_id_by_session_type owner_or_send_id target_id session_type = do
  ensure_not_empty owner_or_send_id "owner_or_send_id"
  ensure_not_empty target_id "target_id"
  conversation_id_of session_type owner_or_send_id target_id

-- the field that names the other side: `recv_id`, or `group_id` for a group
abbrev pub target_of : SessionType → String → String → String
target_of SessionType.single recv_id group_id = recv_id
target_of SessionType.write_group recv_id group_id = group_id
target_of SessionType.read_group recv_id group_id = group_id
target_of SessionType.notification recv_id group_id = recv_id

unfoldable pub conversation_id_by_message : ChatMessage → Result String
conversation_id_by_message m =
    conversation_id_by_session_type m.send_id (target_of m.session_type m.recv_id m.group_id)
      m.session_type

-- `recv_id` and `group_id` of a message to a target
abbrev pub receivers : SessionType → String → String × String
receivers SessionType.single target_id = (target_id, "")
receivers SessionType.write_group target_id = ("", target_id)
receivers SessionType.read_group target_id = ("", target_id)
receivers SessionType.notification target_id = (target_id, "")

unfoldable pub route_target : String → String → SessionType → Result (String × String × String)
route_target send_id target_id session_type = do
  conversation_id ← conversation_id_by_session_type send_id target_id session_type
  let (recv_id, group_id) = receivers session_type target_id
  ok (conversation_id, recv_id, group_id)

abbrev pub same_content_type : MessageContentType → MessageContentType → Bool
same_content_type a b = eqb_ℤ (content_type_value a) (content_type_value b)

abbrev pub ensure_target : SessionType → String → String → Result (Unit {0})
ensure_target SessionType.single recv_id group_id = ensure_not_empty recv_id "recv_id"
ensure_target SessionType.write_group recv_id group_id = ensure_not_empty group_id "group_id"
ensure_target SessionType.read_group recv_id group_id = ensure_not_empty group_id "group_id"
ensure_target SessionType.notification recv_id group_id = ensure_not_empty recv_id "recv_id"

unfoldable pub validate_message : ChatMessage → Result (Unit {0})
validate_message m = do
  ensure_not_empty m.client_msg_id "client_msg_id"
  ensure_not_empty m.conversation_id "conversation_id"
  ensure_not_empty m.send_id "send_id"
  if not (same_content_type m.content_type (content_type m.content))
      then err (args "content_type does not match content")
      else ok tt
  ensure_target m.session_type m.recv_id m.group_id
  routed ← conversation_id_by_message m
  if not (routed == m.conversation_id)
      then err (args "conversation_id does not match message route")
      else ok tt
  validate m.content

unfoldable pub outgoing :
    String → String → String → SessionType → MessageContent → ℤ → Result ChatMessage
outgoing client_msg_id send_id target_id session_type content send_time = do
  (conversation_id, recv_id, group_id) ← route_target send_id target_id session_type
  let message : ChatMessage = record {
    client_msg_id = client_msg_id;
    server_msg_id = none;
    conversation_id = conversation_id;
    send_id = send_id;
    recv_id = recv_id;
    group_id = group_id;
    session_type = session_type;
    content_type = content_type content;
    content = content;
    is_read = true;
    status = MessageStatus.sending;
    seq = pos 0;
    send_time = send_time;
    create_time = send_time;
    attached_info = "";
    ex = "";
    local_ex = "";
    revoked = false;
  }
  validate_message message
  ok message

unfoldable pub incoming :
    String → String → String → String → SessionType → MessageContent → ℤ → ℤ → Result ChatMessage
incoming client_msg_id server_msg_id send_id target_id session_type content seq send_time = do
  built ← outgoing client_msg_id send_id target_id session_type content send_time
  let message = record built {
    server_msg_id = some server_msg_id;
    is_read = false;
    status = MessageStatus.send_success;
    seq = seq;
  }
  validate_message message
  ok message

pub record MessageSnapshot : Type 0 where
  pub client_msg_id : String
  pub sender_user_id : String
  pub content_type : MessageContentType
  pub summary : String
  pub send_time : ℤ
  pub seq : ℤ

-- `From<&ChatMessage>`
unfoldable pub snapshot : ChatMessage → MessageSnapshot
snapshot m = record {
  client_msg_id = m.client_msg_id;
  sender_user_id = m.send_id;
  content_type = m.content_type;
  summary = summary m.content;
  send_time = m.send_time;
  seq = m.seq;
}

abbrev pub message_key : ChatMessage → String × String
message_key m = (m.conversation_id, m.client_msg_id)

unfoldable pub message_order : ChatMessage → ChatMessage → Ordering
message_order left right = then_with (compare_ℤ left.seq right.seq) (
    then_with (compare_ℤ left.send_time right.send_time)
      (compare left.client_msg_id right.client_msg_id))
