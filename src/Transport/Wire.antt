-- ===== src/Transport/Wire.antt =====
-- crates/openim-protocol/src/constants.rs and envelope.rs, and of
-- crates/openim-transport-core/src/lib.rs the configuration, the events and the envelopes.
pub mod Routing
use Prim.Native.String.{◌++◌, compare}
use openim_sdk_core_rust.Base.{
  ℕ, String, Bool, true, false, not, ◌&&◌, Ordering, ◌⊎◌, inl, inr, List, [], ◌∷◌, ◌++◌ as ◌⧺◌, map,
  if◌then◌else◌,
}
use openim_sdk_core_rust.Base.Int.{ℤ, pos, eqb_ℤ, compare_ℤ}
use openim_sdk_core_rust.Base.HashMap.{HashMap, values}
use openim_sdk_core_rust.Base.Sort.{sort_by, then_with}
use openim_sdk_core_rust.Base.Text.{is_empty, to_string_ℤ}
use openim_sdk_core_rust.Transport.Pending.{PendingRequests, resolve}

pub data WsReqIdentifier : Type 0 where
  get_newest_seq pull_msg_by_range send_msg send_signal_msg pull_msg_by_seq_list
        get_conv_max_read_seq pull_conv_last_message push_msg kick_online_msg logout_msg :
      WsReqIdentifier
  set_background_status sub_user_online_status : WsReqIdentifier

unfoldable pub identifier : WsReqIdentifier → ℤ
identifier WsReqIdentifier.get_newest_seq = pos 1001
identifier WsReqIdentifier.pull_msg_by_range = pos 1002
identifier WsReqIdentifier.send_msg = pos 1003
identifier WsReqIdentifier.send_signal_msg = pos 1004
identifier WsReqIdentifier.pull_msg_by_seq_list = pos 1005
identifier WsReqIdentifier.get_conv_max_read_seq = pos 1006
identifier WsReqIdentifier.pull_conv_last_message = pos 1007
identifier WsReqIdentifier.push_msg = pos 2001
identifier WsReqIdentifier.kick_online_msg = pos 2002
identifier WsReqIdentifier.logout_msg = pos 2003
identifier WsReqIdentifier.set_background_status = pos 2004
identifier WsReqIdentifier.sub_user_online_status = pos 2005

-- `data` are bytes
pub record GeneralWsReq : Type 0 where
  pub req_identifier : ℤ
  pub token : String
  pub send_id : String
  pub operation_id : String
  pub msg_incr : String
  pub data_bytes : List ℕ

unfoldable pub new_request : WsReqIdentifier → String → String → String → List ℕ → GeneralWsReq
new_request req_identifier send_id operation_id msg_incr data_bytes = record {
  req_identifier = identifier req_identifier;
  token = "";
  send_id = send_id;
  operation_id = operation_id;
  msg_incr = msg_incr;
  data_bytes = data_bytes;
}

pub record GeneralWsResp : Type 0 where
  pub req_identifier : ℤ
  pub err_code : ℤ
  pub err_msg : String
  pub msg_incr : String
  pub operation_id : String
  pub data_bytes : List ℕ

pub record TransportConfig : Type 0 where
  pub ws_addr : String
  pub user_id : String
  pub token : String
  pub platform_id : ℤ
  pub operation_id : String
  pub sdk_type : String
  pub sdk_version : String
  pub is_background : Bool
  pub compression : Bool
  pub send_response : Bool

-- `generated` is what `gen_operation_id` gives, which reads the clock and a counter
unfoldable pub new_config : String → String → String → String → ℤ → TransportConfig
new_config generated ws_addr user_id token platform_id = record {
  ws_addr = ws_addr;
  user_id = user_id;
  token = token;
  platform_id = platform_id;
  operation_id = generated;
  sdk_type = "js";
  sdk_version = "rust-phase1-poc";
  is_background = false;
  compression = true;
  send_response = true;
}

unfoldable pub gen_msg_incr : String → String → String
gen_msg_incr generated user_id = user_id ++ "_" ++ generated

-- `build_protobuf_request`: `encoded` are the bytes of the message; both generated ids are given
unfoldable pub build_protobuf_request :
    String → TransportConfig → WsReqIdentifier → List ℕ → GeneralWsReq × String
build_protobuf_request generated config req_identifier encoded =
    let msg_incr = gen_msg_incr generated config.user_id in
    (new_request req_identifier config.user_id config.operation_id msg_incr encoded, msg_incr)

pub data TransportEvent : Type 0 where
  connected : TransportEvent
  disconnected : (reason : String) → TransportEvent
  response : GeneralWsResp → TransportEvent
  push : GeneralWsResp → TransportEvent
  heartbeat_ping : TransportEvent
  heartbeat_pong : TransportEvent
  reconnect_scheduled : (attempt delay : ℕ) → TransportEvent
  request_timeout : (msg_incr : String) → TransportEvent

pub record IncomingTransportMessage : Type 0 where
  pub send_id : String
  pub recv_id : String
  pub group_id : String
  pub client_msg_id : String
  pub server_msg_id : String
  pub session_type : ℤ
  pub content_type : ℤ
  pub content_json : String
  pub seq : ℤ
  pub send_time : ℤ
  pub create_time : ℤ
  pub status : ℤ
  pub is_read : Bool
  pub attached_info : String
  pub ex : String

-- an `anyhow` result: the text of the error, or the value
abbrev pub Fallible : Type 0 → Type 0
Fallible A = String ⊎ A

unfoldable pub ensure_success_response : GeneralWsResp → Fallible (Unit {0})
ensure_success_response resp =
    if eqb_ℤ resp.err_code (pos 0)
    then inr tt
    else inl (
        "websocket response error: identifier="
        ++ to_string_ℤ resp.req_identifier
        ++ " code="
        ++ to_string_ℤ resp.err_code
        ++ " msg="
        ++ resp.err_msg)

-- what protobuf decodes from a push: the messages of each conversation, as they are appended
pub record PushMessages : Type 0 where
  pub msgs : HashMap String (List IncomingTransportMessage)
  pub notification_msgs : HashMap String (List IncomingTransportMessage)

abbrev pub concat : {A : Type 0} → List (List A) → List A
concat [] = []
concat (xs ∷ rest) = xs ⧺ concat rest

unfoldable pub append_pull_messages_map :
    List IncomingTransportMessage
    → HashMap String (List IncomingTransportMessage)
    → List IncomingTransportMessage
append_pull_messages_map out pulled = out ⧺ concat (values pulled)

unfoldable pub incoming_order : IncomingTransportMessage → IncomingTransportMessage → Ordering
incoming_order left right = then_with (compare_ℤ left.seq right.seq) (
    then_with (compare_ℤ left.send_time right.send_time)
      (compare left.client_msg_id right.client_msg_id))

-- `decode` is the protobuf decoder
unfoldable pub decode_push_messages_response :
    (List ℕ → Fallible PushMessages) → GeneralWsResp → Fallible (List IncomingTransportMessage)
decode_push_messages_response decode resp = elim (ensure_success_response resp) [
  | inl e ↦ inl e
  | inr _ ↦ elim (decode resp.data_bytes) [
    | inl e ↦ inl "decode websocket protobuf response data failed"
    | inr decoded ↦ inr (
        sort_by incoming_order (
          append_pull_messages_map (append_pull_messages_map [] decoded.msgs)
            decoded.notification_msgs))
  ]
]

unfoldable pub route_envelope : GeneralWsResp → PendingRequests → TransportEvent × PendingRequests
route_envelope resp pending =
    if eqb_ℤ resp.req_identifier (identifier WsReqIdentifier.push_msg)
    then (TransportEvent.push resp, pending)
    else if is_empty resp.msg_incr
    then (TransportEvent.push resp, pending)
    else (if (resolve resp.msg_incr pending).0
        then (TransportEvent.response resp, (resolve resp.msg_incr pending).1)
        else (TransportEvent.push resp, (resolve resp.msg_incr pending).1))
