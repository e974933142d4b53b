-- ===== src/Session/Lifecycle.antt =====
-- The life cycle of a session: one step for each call that may change its state.
pub mod Invariant
pub mod Reachable
pub mod Delivered
pub mod Dispatched
pub mod Kept
pub mod Transitions
pub mod Granted
pub mod Progress
use openim_sdk_core_rust.Base.{ℕ, String, List, ◌≡◌}
use openim_sdk_core_rust.Errors.{Result, ok}
use openim_sdk_core_rust.Storage.{Paths}
use openim_sdk_core_rust.Domain.Message.Chat.{ChatMessage}
use openim_sdk_core_rust.Domain.Conversation.Info.{ConversationInfo}
use openim_sdk_core_rust.Domain.Message.Service.{SendMessageAck}
use openim_sdk_core_rust.Transport.Wire.{Fallible, PushMessages}
use openim_sdk_core_rust.Session.Delivery.{
  SessionMessageTransport, send_message, pull_messages, receive_transport_pushes,
  pump_transport_events, dispatch_new_messages, dispatch_conversation_changed,
  dispatch_new_conversations, dispatch_total_unread_count_changed,
}
use openim_sdk_core_rust.Session.Events.{DomainServices}
use openim_sdk_core_rust.Session.Batch.Owned.{IsOwned}
use openim_sdk_core_rust.Session.Config.{SessionConfig, LoginCredentials}
use openim_sdk_core_rust.Session.Resources.{HandleApi}
use openim_sdk_core_rust.Session.State.{
  ResourceAdapter, OpenImSession, with_resource_adapter, init, login, logout, uninit, start_task,
  domains_mut, stop_task, register_listener, unregister_listener,
}

module _ {R H : Type 0} (adapter : ResourceAdapter R H) (handles : HandleApi H) where
  -- one call, however it ends
  pub data Step : OpenImSession R H → OpenImSession R H → Type 0 where
    inited : {s : OpenImSession R H} → Step s (init adapter handles s).1
    logged_in :
        {s : OpenImSession R H} (paths : Paths) (generated : String)
        (credentials : LoginCredentials)
        → Step s (login adapter handles paths generated credentials s).1
    logged_out : {s : OpenImSession R H} → Step s (logout adapter handles s).1
    uninited : {s : OpenImSession R H} → Step s (uninit adapter handles s).1
    task_started : {s : OpenImSession R H} (name : String) → Step s (start_task name s).1
    task_stopped : {s : OpenImSession R H} (name : String) → Step s (stop_task name s).1
    registered : {s : OpenImSession R H} → Step s (register_listener s).1
    unregistered : {s : OpenImSession R H} (id : ℕ) → Step s (unregister_listener id s).1
    sent :
        {s : OpenImSession R H} (message : ChatMessage)
        (sender : ChatMessage → Result SendMessageAck)
        → Step s (send_message message sender s).1
    pulled :
        {s : OpenImSession R H} (conversation_id : String) (transport : SessionMessageTransport)
        → Step s (pull_messages conversation_id transport s).1
    received :
        {s : OpenImSession R H} (transport : SessionMessageTransport)
        → Step s (receive_transport_pushes transport s).1
    pumped :
        {s : OpenImSession R H} (decode : List ℕ → Fallible PushMessages)
        (parse_text : String → Fallible String)
        → Step s (pump_transport_events handles decode parse_text s).1
    told_messages :
        {s : OpenImSession R H} (messages : List ChatMessage)
        → Step s (dispatch_new_messages messages s).1
    told_changed :
        {s : OpenImSession R H} (conversations : List ConversationInfo)
        → Step s (dispatch_conversation_changed conversations s).1
    told_new :
        {s : OpenImSession R H} (conversations : List ConversationInfo)
        → Step s (dispatch_new_conversations conversations s).1
    told_total :
        {s : OpenImSession R H} (total_unread_count : ℕ)
        → Step s (dispatch_total_unread_count_changed total_unread_count s).1
    services_lent :
        {s : OpenImSession R H} (change : DomainServices → DomainServices)
        → Step s (domains_mut change s).1

  pub data IsReachable : OpenImSession R H → Type 0 where
    start :
        {s : OpenImSession R H} (config : SessionConfig) (state : R)
        → with_resource_adapter config state ≡ ok s
        → IsReachable s
    next : {s t : OpenImSession R H} → IsReachable s → Step s t → IsReachable t

  -- a caller who is lent the services leaves every conversation in them under the user's keys
  abbrev pub IsMindfulStep : {s t : OpenImSession R H} → Step s t → Type 0
  IsMindfulStep {s} (Step.services_lent change) =
      IsOwned s.login_user_id (change s.domains).conversations
  IsMindfulStep _ = Unit

  -- on the way to the session, every caller who was lent the services did so
  abbrev pub IsMindful : {s : OpenImSession R H} → IsReachable s → Type 0
  IsMindful (IsReachable.start config state made) = Unit
  IsMindful (IsReachable.next before step) = IsMindful before × IsMindfulStep step
