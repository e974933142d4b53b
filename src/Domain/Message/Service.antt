-- ===== src/Domain/Message/Service.antt =====
-- crates/openim-domain/src/message.rs: `MessageService`, the store of messages, and paging.
use openim_sdk_core_rust.Base.{
  ℕ, ◌*◌, ◌-◌, ◌^◌, min, String, Bool, true, not, Option, some, List, [], ◌∷◌, length,
  is_empty as is_empty_list, filter, take, drop, if◌then◌else◌,
}
use openim_sdk_core_rust.Base.Int.{ℤ, pos_part, eqb_ℤ}
use openim_sdk_core_rust.Base.Keys.{◌==◌, string_eq, pair_eq}
use openim_sdk_core_rust.Base.HashMap
use openim_sdk_core_rust.Base.HashMap.{HashMap, values}
use openim_sdk_core_rust.Base.Sort.{sort_by}
use openim_sdk_core_rust.Errors.{
  Result, ok, err, panic, args, ensure_not_empty, ok_or, each, ◌>>◌ as ◌>>?◌, ◌>>=◌ as ◌>>=?◌,
}
use openim_sdk_core_rust.Action.{Action, lift, pure, query, modify, ◌>>=◌, ◌>>◌}
use openim_sdk_core_rust.Types.{MessageStatus, status_value, Pagination, normalized}
use openim_sdk_core_rust.Sync.Diff.{DiffOptions}
use openim_sdk_core_rust.Domain.{DomainSyncSummary}
use openim_sdk_core_rust.Domain.Equality.{equal}
use openim_sdk_core_rust.Domain.Sync.{sync_items}
use openim_sdk_core_rust.Domain.Sync.Owned.{put}
use openim_sdk_core_rust.Domain.Message.Chat.{
  ChatMessage, ChatMessage_discrete, validate_message, message_key, message_order,
}

pub record SendMessageAck : Type 0 where
  pub server_msg_id : String
  pub seq : ℤ
  pub send_time : ℤ

-- `HashMap<(ConversationId, ClientMsgId), ChatMessage>`
abbrev pub Messages : Type 0
Messages = HashMap (String × String) ChatMessage

pub record MessageService : Type 0 where
  pub messages : Messages

abbrev pub new_service : MessageService
new_service = record { messages = [] }

abbrev pub on_messages : {A : Type 0} → Action Messages A → Action MessageService A
on_messages m s = ((m s.messages).0, record { messages = (m s.messages).1 })

unfoldable pub upsert_message : ChatMessage → Action MessageService (Unit {0})
upsert_message message = do
  lift (validate_message message)
  on_messages (modify (HashMap.insert (message_key message) message))

-- the place that `message_mut` finds
unfoldable pub message_mut : String → String → MessageService → Result ChatMessage
message_mut conversation_id client_msg_id s =
    ensure_not_empty conversation_id "conversation_id"
    >>? ensure_not_empty client_msg_id "client_msg_id"
    >>? ok_or (HashMap.get (conversation_id, client_msg_id) s.messages) (args "message not found")

-- a write through `message_mut`, which hands out the message as it is then
unfoldable pub update_message :
    String → String → (ChatMessage → ChatMessage) → Action MessageService ChatMessage
update_message conversation_id client_msg_id change = do
  message ← query (message_mut conversation_id client_msg_id)
  on_messages (modify (HashMap.insert (conversation_id, client_msg_id) (change message)))
  pure (change message)

abbrev pub acknowledged : SendMessageAck → ChatMessage → ChatMessage
acknowledged ack m = record m {
  server_msg_id = some ack.server_msg_id;
  seq = ack.seq;
  send_time = ack.send_time;
  status = MessageStatus.send_success;
}

unfoldable pub ack_send_success :
    String → String → SendMessageAck → Action MessageService ChatMessage
ack_send_success conversation_id client_msg_id ack = do
  lift (ensure_not_empty ack.server_msg_id "server_msg_id")
  update_message conversation_id client_msg_id (acknowledged ack)

abbrev pub failed : ChatMessage → ChatMessage
failed m = record m { status = MessageStatus.send_failed }

unfoldable pub mark_send_failed : String → String → Action MessageService ChatMessage
mark_send_failed conversation_id client_msg_id = update_message conversation_id client_msg_id failed

abbrev pub read : ChatMessage → ChatMessage
read m = record m { is_read = true }

unfoldable pub mark_read : String → String → Action MessageService ChatMessage
mark_read conversation_id client_msg_id = update_message conversation_id client_msg_id read

abbrev pub withdrawn : ChatMessage → ChatMessage
withdrawn m = record m { revoked = true; status = MessageStatus.has_deleted }

unfoldable pub revoke_message : String → String → Action MessageService ChatMessage
revoke_message conversation_id client_msg_id =
    update_message conversation_id client_msg_id withdrawn

-- what `send_message` stores before it calls the sender
abbrev pub sent : ChatMessage → ChatMessage
sent m = record m { status = MessageStatus.sending; is_read = true }

-- the `match` on the sender's answer
unfoldable pub settle : ChatMessage → Result SendMessageAck → Action MessageService ChatMessage
settle message (ok ack) = ack_send_success message.conversation_id message.client_msg_id ack
settle message (err e) = do
  _ ← mark_send_failed message.conversation_id message.client_msg_id
  lift (err e)
settle message panic = lift panic

-- `sender` is what the implementation of `MessageSender` answers for a message
unfoldable pub send_message :
    ChatMessage → (ChatMessage → Result SendMessageAck) → Action MessageService ChatMessage
send_message message sender = do
  lift (validate_message message)
  upsert_message (sent message)
  settle (sent message) (sender (sent message))

-- `status == MessageStatus::Sending`
abbrev pub is_sending : ChatMessage → Bool
is_sending m = eqb_ℤ (status_value m.status) (status_value MessageStatus.sending)

abbrev pub received : ChatMessage → ChatMessage
received m = if is_sending m then record m { status = MessageStatus.send_success } else m

unfoldable pub receive_message : ChatMessage → Action MessageService ChatMessage
receive_message message = do
  lift (validate_message message)
  upsert_message (received message)
  pure (received message)

unfoldable pub get_message : String → String → MessageService → Result (Option ChatMessage)
get_message conversation_id client_msg_id s =
    ensure_not_empty conversation_id "conversation_id"
    >>? ensure_not_empty client_msg_id "client_msg_id"
    >>? ok (HashMap.get (conversation_id, client_msg_id) s.messages)

unfoldable pub all_messages : String → MessageService → Result (List ChatMessage)
all_messages conversation_id s =
    ensure_not_empty conversation_id "conversation_id"
    >>? ok (
        sort_by message_order
          (filter (λ message. message.conversation_id == conversation_id) (values s.messages)))

-- `saturating_mul` on a `usize` of 64 bits
abbrev pub saturating_mul : ℕ → ℕ → ℕ
saturating_mul a b = min (a * b) (2 ^ 64 - 1)

unfoldable pub paginate : {T : Type 0} → List T → Pagination → List T
paginate items pagination =
    let page = normalized pagination in
    let start = saturating_mul (pos_part page.page_number) (pos_part page.show_number) in
    take (pos_part page.show_number) (drop start items)

-- `Vec::reverse`
unfoldable pub reverse_onto : {T : Type 0} → List T → List T → List T
reverse_onto [] acc = acc
reverse_onto (x ∷ xs) acc = reverse_onto xs (x ∷ acc)

unfoldable pub history : String → Pagination → MessageService → Result (List ChatMessage)
history conversation_id pagination s = all_messages conversation_id s >>=? λ messages.
    ok (paginate (reverse_onto messages []) pagination)

-- the check of one message of the server
abbrev pub ensure_in_conversation : String → ChatMessage → Result (Unit {0})
ensure_in_conversation conversation_id message =
    validate_message message
    >>? (if not (message.conversation_id == conversation_id)
        then err (args "server message conversation_id mismatch")
        else ok tt)

abbrev pub range_options : DiffOptions
range_options = record { skip_deletion = true; include_unchanged = true }

unfoldable pub sync_message_range :
    String → List ChatMessage → Action MessageService DomainSyncSummary
sync_message_range conversation_id server_messages = do
  lift (ensure_not_empty conversation_id "conversation_id")
  lift (each (ensure_in_conversation conversation_id) server_messages)
  local_messages ← query (all_messages conversation_id)
  on_messages (
      sync_items ChatMessage.client_msg_id (equal ChatMessage_discrete) range_options
        (put ChatMessage.conversation_id ChatMessage.client_msg_id) (λ _. pure tt) server_messages
        local_messages)

unfoldable pub len : MessageService → ℕ
len s = length s.messages

unfoldable pub is_empty_service : MessageService → Bool
is_empty_service s = is_empty_list s.messages
