-- ===== src/Session/Delivery.antt =====
-- crates/openim-session/src/lib.rs: the messages that a session sends, pulls and receives, and what
-- its listeners are told. The sender and the transport are given by what they answer.
use openim_sdk_core_rust.Base.{
  ℕ, String, Option, none, some, List, [], ◌∷◌, is_empty as is_empty_list, if◌then◌else◌,
}
use openim_sdk_core_rust.Errors.{Result, err, sdk_internal, each, ensure_not_empty}
use openim_sdk_core_rust.Action.{Action, lift, pure, query, modify, ◌>>=◌, ◌>>◌}
use openim_sdk_core_rust.Domain.Message.Chat.{ChatMessage}
use openim_sdk_core_rust.Domain.Message.Service as Messages
use openim_sdk_core_rust.Domain.Message.Service.{
  MessageService, SendMessageAck, receive_message, sync_message_range,
}
use openim_sdk_core_rust.Domain.Conversation.Info.{ConversationInfo}
use openim_sdk_core_rust.Domain.Conversation.Service.{ConversationService}
use openim_sdk_core_rust.Transport.Wire.{Fallible, PushMessages}
use openim_sdk_core_rust.Session.Batch.{ConversationDispatchBatch, apply_messages_to_conversations}
use openim_sdk_core_rust.Session.Events.{SessionEvent}
use openim_sdk_core_rust.Session.Messages.{
  ensure_outgoing_owner, ensure_message_visible_to_owner, decode_events,
}
use openim_sdk_core_rust.Session.Resources.{
  SessionRuntimeResources, HandleApi, drain_transport_events,
}
use openim_sdk_core_rust.Session.State.{OpenImSession, emit, ensure_logged_in, logged_in_user_id}

-- what the implementation of `SessionMessageTransport` answers
pub record SessionMessageTransport : Type 0 where
  pub pull_messages : String → String → Result (List ChatMessage)
  pub pop_push_messages : String → Result (List ChatMessage)

module _ {R H : Type 0} where
  -- a call of a service
  abbrev pub on_message_service :
      {A : Type 0} → Action MessageService A → Action (OpenImSession R H) A
  on_message_service m s = (
    (m s.domains.messages).0,
    record s { domains = record s.domains { messages = (m s.domains.messages).1 } },
  )

  abbrev pub on_conversation_service :
      {A : Type 0} → Action ConversationService A → Action (OpenImSession R H) A
  on_conversation_service m s = (
    (m s.domains.conversations).0,
    record s { domains = record s.domains { conversations = (m s.domains.conversations).1 } },
  )

  unfoldable pub dispatch_new_messages : List ChatMessage → Action (OpenImSession R H) (Unit {0})
  dispatch_new_messages messages = do
    query ensure_logged_in
    modify (if is_empty_list messages then (λ s. s) else emit (SessionEvent.new_messages messages))

  unfoldable pub dispatch_conversation_changed :
      List ConversationInfo → Action (OpenImSession R H) (Unit {0})
  dispatch_conversation_changed conversations = do
    query ensure_logged_in
    modify (
        if is_empty_list conversations
        then (λ s. s)
        else emit (SessionEvent.conversation_changed conversations))

  unfoldable pub dispatch_new_conversations :
      List ConversationInfo → Action (OpenImSession R H) (Unit {0})
  dispatch_new_conversations conversations = do
    query ensure_logged_in
    modify (
        if is_empty_list conversations
        then (λ s. s)
        else emit (SessionEvent.new_conversations conversations))

  unfoldable pub dispatch_total_unread_count_changed : ℕ → Action (OpenImSession R H) (Unit {0})
  dispatch_total_unread_count_changed total_unread_count = do
    query ensure_logged_in
    modify (emit (SessionEvent.total_unread_count_changed total_unread_count))

  abbrev pub dispatch_total : Option ℕ → Action (OpenImSession R H) (Unit {0})
  dispatch_total none = pure tt
  dispatch_total (some total) = dispatch_total_unread_count_changed total

  unfoldable pub dispatch_conversation_events :
      ConversationDispatchBatch → Action (OpenImSession R H) (Unit {0})
  dispatch_conversation_events batch = do
    dispatch_new_conversations batch.new_conversations
    dispatch_conversation_changed batch.changed_conversations
    dispatch_total batch.total_unread_count

  -- `sender` is what the implementation of `MessageSender` answers
  unfoldable pub send_message :
      ChatMessage → (ChatMessage → Result SendMessageAck) → Action (OpenImSession R H) ChatMessage
  send_message message sender = do
    owner_user_id ← query logged_in_user_id
    lift (ensure_outgoing_owner owner_user_id message)
    sent ← on_message_service (Messages.send_message message sender)
    conversations ←
        on_conversation_service (apply_messages_to_conversations owner_user_id (sent ∷ []))
    dispatch_conversation_events conversations
    pure sent

  -- what `pull_messages` does with messages that are not none
  unfoldable pub store_pulled :
      String → String → List ChatMessage → Action (OpenImSession R H) (List ChatMessage)
  store_pulled owner_user_id conversation_id messages = do
    lift (each (ensure_message_visible_to_owner owner_user_id) messages)
    _ ← on_message_service (sync_message_range conversation_id messages)
    conversations ← on_conversation_service (apply_messages_to_conversations owner_user_id messages)
    dispatch_new_messages messages
    dispatch_conversation_events conversations
    pure messages

  unfoldable pub pull_messages :
      String → SessionMessageTransport → Action (OpenImSession R H) (List ChatMessage)
  pull_messages conversation_id transport = do
    owner_user_id ← query logged_in_user_id
    lift (ensure_not_empty conversation_id "conversation_id")
    messages ← lift (transport.pull_messages owner_user_id conversation_id)
    if is_empty_list messages
        then pure messages
        else store_pulled owner_user_id conversation_id messages

  -- the loop of `apply_transport_messages`
  unfoldable pub receive_each :
      String → List ChatMessage → Action (OpenImSession R H) (List ChatMessage)
  receive_each owner_user_id [] = pure []
  receive_each owner_user_id (message ∷ rest) = do
    lift (ensure_message_visible_to_owner owner_user_id message)
    received ← on_message_service (receive_message message)
    others ← receive_each owner_user_id rest
    pure (received ∷ others)

  unfoldable pub apply_transport_messages :
      String → List ChatMessage → Action (OpenImSession R H) (List ChatMessage)
  apply_transport_messages owner_user_id pushed = do
    received ← receive_each owner_user_id pushed
    conversations ← on_conversation_service (apply_messages_to_conversations owner_user_id received)
    dispatch_new_messages received
    dispatch_conversation_events conversations
    pure received

  unfoldable pub receive_transport_pushes :
      SessionMessageTransport → Action (OpenImSession R H) (List ChatMessage)
  receive_transport_pushes transport = do
    owner_user_id ← query logged_in_user_id
    pushed ← lift (transport.pop_push_messages owner_user_id)
    if is_empty_list pushed then pure pushed else apply_transport_messages owner_user_id pushed

  -- a call of the resources that a session holds, through `runtime_resources_mut`
  abbrev pub on_held :
      {A : Type 0}
      → Action (SessionRuntimeResources H) A
      → Option (SessionRuntimeResources H)
      → Action (OpenImSession R H) A
  on_held m none s = (err (sdk_internal "runtime resources missing"), s)
  on_held m (some r) s = ((m r).0, record s { runtime_resources = some (m r).1 })

  unfoldable pub on_runtime_resources :
      {A : Type 0} → Action (SessionRuntimeResources H) A → Action (OpenImSession R H) A
  on_runtime_resources m = do query ensure_logged_in; (λ s. on_held m s.runtime_resources s)

  -- `decode` reads protobuf, and `parse_text` JSON
  unfoldable pub pump_transport_events :
      HandleApi H
      → (List ℕ → Fallible PushMessages)
      → (String → Fallible String)
      → Action (OpenImSession R H) (List ChatMessage)
  pump_transport_events handles decode parse_text = do
    owner_user_id ← query logged_in_user_id
    events ← on_runtime_resources (drain_transport_events handles)
    pushed ← lift (decode_events decode parse_text events)
    if is_empty_list pushed then pure [] else apply_transport_messages owner_user_id pushed
