-- ===== src/Session/Lifecycle/Dispatched.antt =====
-- What the calls that only tell listeners of something keep.
use openim_sdk_core_rust.Base.{ℕ, Bool, true, false, List, refl, if◌then◌else◌}
use openim_sdk_core_rust.Action.{lift-keeps, query, ◌>>=◌, modify}
use openim_sdk_core_rust.Domain.Message.Chat.{ChatMessage}
use openim_sdk_core_rust.Domain.Conversation.Info.{ConversationInfo}
use openim_sdk_core_rust.Session.Events.{SessionEvent}
use openim_sdk_core_rust.Session.State.{OpenImSession, emit, ensure_logged_in}
use openim_sdk_core_rust.Session.Delivery.{
  dispatch_new_messages, dispatch_conversation_changed, dispatch_new_conversations,
  dispatch_total_unread_count_changed,
}
use openim_sdk_core_rust.Session.Lifecycle.Invariant.{IsWatched, emit-IsWatched}
use openim_sdk_core_rust.Session.Lifecycle.Delivered.{IsKept}

module _ {W R H : Type 0} where
  emit_if-IsKept :
      (test : Bool) (event : SessionEvent) (s : OpenImSession R H)
      → IsWatched W s
      → IsKept W s ((if test then (λ t. t) else emit event) s)
  unfolding emit
  emit_if-IsKept true event s h = (h, refl)
  emit_if-IsKept false event s h = (emit-IsWatched event s h, refl)

  dispatch-IsKept :
      (test : Bool) (event : SessionEvent) (s : OpenImSession R H)
      → IsWatched W s
      → IsKept W s
          (◌>>=◌ (query ensure_logged_in) (λ _. modify (if test then (λ t. t) else emit event)) s).1
  dispatch-IsKept test event s h =
      lift-keeps (IsKept W s) (ensure_logged_in s) _ s (h, refl)
        (λ _ _. emit_if-IsKept test event s h)

  pub dispatch_new_messages-IsKept :
      (ms : List ChatMessage) (s : OpenImSession R H)
      → IsWatched W s
      → IsKept W s (dispatch_new_messages ms s).1
  unfolding dispatch_new_messages
  dispatch_new_messages-IsKept ms s h = dispatch-IsKept _ _ s h

  pub dispatch_conversation_changed-IsKept :
      (cs : List ConversationInfo) (s : OpenImSession R H)
      → IsWatched W s
      → IsKept W s (dispatch_conversation_changed cs s).1
  unfolding dispatch_conversation_changed
  dispatch_conversation_changed-IsKept cs s h = dispatch-IsKept _ _ s h

  pub dispatch_new_conversations-IsKept :
      (cs : List ConversationInfo) (s : OpenImSession R H)
      → IsWatched W s
      → IsKept W s (dispatch_new_conversations cs s).1
  unfolding dispatch_new_conversations
  dispatch_new_conversations-IsKept cs s h = dispatch-IsKept _ _ s h

  pub dispatch_total_unread_count_changed-IsKept :
      (total : ℕ) (s : OpenImSession R H)
      → IsWatched W s
      → IsKept W s (dispatch_total_unread_count_changed total s).1
  unfolding dispatch_total_unread_count_changed
  dispatch_total_unread_count_changed-IsKept total s h = dispatch-IsKept false _ s h
