-- ===== src/Session/Events.antt =====
-- crates/openim-session/src/lib.rs: the states of a session, what its listeners are told, and the
-- services that it holds.
use openim_sdk_core_rust.Base.{ℕ, String, Bool, true, false, List}
use openim_sdk_core_rust.Domain.User
use openim_sdk_core_rust.Domain.User.{UserService}
use openim_sdk_core_rust.Domain.Relation
use openim_sdk_core_rust.Domain.Relation.{RelationService}
use openim_sdk_core_rust.Domain.Group
use openim_sdk_core_rust.Domain.Group.{GroupService}
use openim_sdk_core_rust.Domain.Message.Chat.{ChatMessage}
use openim_sdk_core_rust.Domain.Message.Service as Messages
use openim_sdk_core_rust.Domain.Message.Service.{MessageService}
use openim_sdk_core_rust.Domain.Conversation.Info.{ConversationInfo}
use openim_sdk_core_rust.Domain.Conversation.Service as Conversations
use openim_sdk_core_rust.Domain.Conversation.Service.{ConversationService}
use openim_sdk_core_rust.Session.Resources.{SessionResourceKind}

pub data SessionState : Type 0 where
  created initialized logged_in logged_out uninitialized : SessionState

-- `state == SessionState::LoggedIn`
abbrev pub is_logged_in : SessionState → Bool
is_logged_in SessionState.logged_in = true
is_logged_in _ = false

pub data SessionEvent : Type 0 where
  initialized uninitialized : SessionEvent
  logged_in logged_out : (user_id : String) → SessionEvent
  listener_registered listener_unregistered : (listener_id : ℕ) → SessionEvent
  task_started task_stopped : (name : String) → SessionEvent
  resource_opened resource_closed :
      (resource_kind : SessionResourceKind) (name : String) → SessionEvent
  new_messages : List ChatMessage → SessionEvent
  new_conversations conversation_changed : List ConversationInfo → SessionEvent
  total_unread_count_changed : (total : ℕ) → SessionEvent

pub record DomainServices : Type 0 where
  pub users : UserService
  pub relations : RelationService
  pub groups : GroupService
  pub messages : MessageService
  pub conversations : ConversationService

abbrev pub default_services : DomainServices
default_services = record {
  users = User.new_service;
  relations = Relation.new_service;
  groups = Group.new_service;
  messages = Messages.new_service;
  conversations = Conversations.new_service;
}
