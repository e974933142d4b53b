-- ===== src/Session/Lifecycle/Delivered.antt =====
-- What the calls that send and receive messages keep.
use openim_sdk_core_rust.Base.{
  ℕ, String, Bool, true, false, Option, none, some, List, [], ◌∷◌, ◌≡◌, refl, sym, ap, ◌∙◌, arith,
  is_empty as is_empty_list, if◌then◌else◌,
}
use mathlib.Core.Path.{subst}
use openim_sdk_core_rust.Errors.{Result, ok, each, ensure_not_empty}
use openim_sdk_core_rust.Action.{Action, >>=-keeps, lift-keeps, pure, query, ◌>>=◌, ◌>>◌, modify}
use openim_sdk_core_rust.Domain.Message.Chat.{ChatMessage}
use openim_sdk_core_rust.Domain.Message.Service as Messages
use openim_sdk_core_rust.Domain.Message.Service.{
  MessageService, SendMessageAck, receive_message, sync_message_range,
}
use openim_sdk_core_rust.Transport.Wire.{Fallible, PushMessages}
use openim_sdk_core_rust.Session.Batch.{ConversationDispatchBatch, apply_messages_to_conversations}
use openim_sdk_core_rust.Session.Batch.Owned.{IsOwned, apply_messages_to_conversations-IsOwned}
use openim_sdk_core_rust.Session.Events.{SessionEvent, SessionState, is_logged_in}
use openim_sdk_core_rust.Session.Messages.{
  ensure_outgoing_owner, ensure_message_visible_to_owner, decode_events,
}
use openim_sdk_core_rust.Session.Resources.{
  SessionRuntimeResources, HandleApi, drain_transport_events,
}
use openim_sdk_core_rust.Session.State.{OpenImSession, emit, ensure_logged_in, logged_in_user_id}
use openim_sdk_core_rust.Session.Delivery.{
  on_message_service, on_conversation_service, dispatch_new_messages, dispatch_conversation_changed,
  dispatch_new_conversations, dispatch_total_unread_count_changed, dispatch_total,
  dispatch_conversation_events, send_message, store_pulled, pull_messages, receive_each,
  apply_transport_messages, receive_transport_pushes, on_held, on_runtime_resources,
  pump_transport_events, SessionMessageTransport,
}
use openim_sdk_core_rust.Session.Lifecycle.Invariant.{IsWatched, BelongsTo, emit-IsWatched}

module _ {R H : Type 0} where
  logged_in_user_id_lem :
      (s : OpenImSession R H) (owner : String)
      → logged_in_user_id s ≡ ok owner
      → (s.login_user_id ≡ some owner) × (is_logged_in s.state ≡ true)
  unfolding logged_in_user_id ensure_logged_in
  logged_in_user_id_lem s owner h = (ground (arith, h), ground (arith, h))

  -- a consistent session of a user, whose state stays
  abbrev pub IsHeld : Type 0 → SessionState → String → OpenImSession R H → Type 0
  IsHeld W state owner s = IsWatched W s × (s.login_user_id ≡ some owner) × (s.state ≡ state)

  -- what a call leaves: a consistent session in the state that it was in
  abbrev pub IsKept : Type 0 → OpenImSession R H → OpenImSession R H → Type 0
  IsKept W s t = IsWatched W t × (t.state ≡ s.state)

module _ {W R H : Type 0} where
  emit_if-IsHeld :
      (state : SessionState) (owner : String) (test : Bool) (event : SessionEvent)
      (s : OpenImSession R H)
      → IsHeld W state owner s
      → IsHeld W state owner ((if test then (λ t. t) else emit event) s)
  unfolding emit
  emit_if-IsHeld state owner true event s h = h
  emit_if-IsHeld state owner false event s h = (emit-IsWatched event s h.0, h.1, h.2)

  -- an event that is emitted once the session is known to be logged in
  dispatch-IsHeld :
      (state : SessionState) (owner : String) (test : Bool) (event : SessionEvent)
      (s : OpenImSession R H)
      → IsHeld W state owner s
      → IsHeld W state owner
          (◌>>=◌ (query ensure_logged_in) (λ _. modify (if test then (λ t. t) else emit event)) s).1
  dispatch-IsHeld state owner test event s h =
      lift-keeps (IsHeld W state owner) (ensure_logged_in s) _ s h
        (λ _ _. emit_if-IsHeld state owner test event s h)

  dispatch_new_messages-IsHeld :
      (state : SessionState) (owner : String) (ms : List ChatMessage) (s : OpenImSession R H)
      → IsHeld W state owner s
      → IsHeld W state owner (dispatch_new_messages ms s).1
  unfolding dispatch_new_messages
  dispatch_new_messages-IsHeld state owner ms s h = dispatch-IsHeld state owner _ _ s h

  dispatch_total-IsHeld :
      (state : SessionState) (owner : String) (total : Option ℕ) (s : OpenImSession R H)
      → IsHeld W state owner s
      → IsHeld W state owner (dispatch_total total s).1
  unfolding dispatch_total_unread_count_changed
  dispatch_total-IsHeld state owner none s h = h
  dispatch_total-IsHeld state owner (some total) s h = dispatch-IsHeld state owner false _ s h

  dispatch_conversation_events-IsHeld :
      (state : SessionState) (owner : String) (batch : ConversationDispatchBatch)
      (s : OpenImSession R H)
      → IsHeld W state owner s
      → IsHeld W state owner (dispatch_conversation_events batch s).1
  unfolding dispatch_conversation_events dispatch_new_conversations dispatch_conversation_changed
  dispatch_conversation_events-IsHeld state owner batch s h =
      >>=-keeps (IsHeld W state owner) (dispatch_new_conversations batch.new_conversations) _ s
        (dispatch-IsHeld state owner _ _ s h)
        (λ _ t k.
          >>=-keeps (IsHeld W state owner)
            (dispatch_conversation_changed batch.changed_conversations) _ t
            (dispatch-IsHeld state owner _ _ t k)
            (λ _ u. dispatch_total-IsHeld state owner batch.total_unread_count u))

  on_message_service-IsHeld :
      {A : Type 0} (state : SessionState) (owner : String) (m : Action MessageService A)
      (s : OpenImSession R H)
      → IsHeld W state owner s
      → IsHeld W state owner (on_message_service m s).1
  on_message_service-IsHeld state owner m s (h, user, now) = (
    record {
      known = h.known;
      opened = h.opened;
      blank = λ nobody. ground (arith, nobody, user);
      owned = h.owned;
    },
    user,
    now,
  )

  apply_messages_to_conversations-IsHeld :
      (state : SessionState) (owner : String) (ms : List ChatMessage) (s : OpenImSession R H)
      → IsHeld W state owner s
      → IsHeld W state owner
          (on_conversation_service (apply_messages_to_conversations owner ms) s).1
  apply_messages_to_conversations-IsHeld state owner ms s (h, user, now) =
      let owned = λ (w : W). subst (λ u. IsOwned u s.domains.conversations) user (h.owned w) in
      let kept = λ (w : W).
        apply_messages_to_conversations-IsOwned owner ms s.domains.conversations (owned w) in
      (
        record {
          known = h.known;
          opened = h.opened;
          blank = λ nobody. ground (arith, nobody, user);
          owned = λ w.
              subst
                (λ u.
                  IsOwned u (apply_messages_to_conversations owner ms s.domains.conversations).1)
                (sym user) (kept w);
        },
        user,
        now,
      )

  -- the calls that begin with the user who is logged in
  for_owner :
      {A : Type 0} (f : String → Action (OpenImSession R H) A) (s : OpenImSession R H)
      → IsWatched W s
      → ((owner : String) → IsHeld W s.state owner s → IsHeld W s.state owner (f owner s).1)
      → IsWatched W (◌>>=◌ (query logged_in_user_id) f s).1
        × ((◌>>=◌ (query logged_in_user_id) f s).1.state ≡ s.state)
  for_owner f s h k =
      lift-keeps (λ t. (IsWatched W) t × (t.state ≡ s.state)) (logged_in_user_id s) f s (h, refl)
        (λ owner known.
          let (kept, user, now) = k owner (h, (logged_in_user_id_lem s owner known).0, refl) in
          (kept, now))

  pub send_message-IsKept :
      (message : ChatMessage) (sender : ChatMessage → Result SendMessageAck) (s : OpenImSession R H)
      → IsWatched W s
      → IsKept W s (send_message message sender s).1
  unfolding send_message
  send_message-IsKept message sender s h = for_owner _ s h (λ owner k.
      let P = IsHeld W s.state owner in
      lift-keeps P (ensure_outgoing_owner owner message) _ s k (λ _ _.
        >>=-keeps P (on_message_service (Messages.send_message message sender)) _ s
          (on_message_service-IsHeld s.state owner (Messages.send_message message sender) s k)
          (λ sent t k.
            >>=-keeps P
              (on_conversation_service (apply_messages_to_conversations owner (sent ∷ []))) _ t
              (apply_messages_to_conversations-IsHeld s.state owner (sent ∷ []) t k)
              (λ batch u k.
                >>=-keeps P (dispatch_conversation_events batch) _ u
                  (dispatch_conversation_events-IsHeld s.state owner batch u k) (λ _ v k. k)))))

  -- the tail of the calls that receive messages
  announce-IsHeld :
      (state : SessionState) (owner : String) (ms : List ChatMessage) (s : OpenImSession R H)
      → IsHeld W state owner s
      → IsHeld W state owner
          ((do
            conversations ← on_conversation_service (apply_messages_to_conversations owner ms)
            dispatch_new_messages ms
            dispatch_conversation_events conversations
            pure ms)
            s).1
  announce-IsHeld state owner ms s h =
      let P = IsHeld W state owner in
      >>=-keeps P (on_conversation_service (apply_messages_to_conversations owner ms)) _ s
        (apply_messages_to_conversations-IsHeld state owner ms s h)
        (λ batch t k.
          >>=-keeps P (dispatch_new_messages ms) _ t
            (dispatch_new_messages-IsHeld state owner ms t k)
            (λ _ u k.
              >>=-keeps P (dispatch_conversation_events batch) _ u
                (dispatch_conversation_events-IsHeld state owner batch u k) (λ _ v k. k)))

  store_pulled-IsHeld :
      (state : SessionState) (owner conversation_id : String) (ms : List ChatMessage)
      (s : OpenImSession R H)
      → IsHeld W state owner s
      → IsHeld W state owner (store_pulled owner conversation_id ms s).1
  unfolding store_pulled
  store_pulled-IsHeld state owner conversation_id ms s h =
      let P = IsHeld W state owner in
      lift-keeps P (each (ensure_message_visible_to_owner owner) ms) _ s h (λ _ _.
        >>=-keeps P (on_message_service (sync_message_range conversation_id ms)) _ s
          (on_message_service-IsHeld state owner (sync_message_range conversation_id ms) s h)
          (λ _ t. announce-IsHeld state owner ms t))

  -- a list that is handed out as it is where it is empty
  unless_empty :
      {A : Type 0} (state : SessionState) (owner : String) (test : Bool)
      (a b : Action (OpenImSession R H) A) (s : OpenImSession R H)
      → IsHeld W state owner (a s).1
      → IsHeld W state owner (b s).1
      → IsHeld W state owner ((if test then a else b) s).1
  unless_empty state owner true a b s h k = h
  unless_empty state owner false a b s h k = k

  pub pull_messages-IsKept :
      (conversation_id : String) (transport : SessionMessageTransport) (s : OpenImSession R H)
      → IsWatched W s
      → IsKept W s (pull_messages conversation_id transport s).1
  unfolding pull_messages
  pull_messages-IsKept conversation_id transport s h = for_owner _ s h (λ owner k.
      let P = IsHeld W s.state owner in
      lift-keeps P (ensure_not_empty conversation_id "conversation_id") _ s k (λ _ _.
        lift-keeps P (transport.pull_messages owner conversation_id) _ s k (λ ms _.
          unless_empty s.state owner (is_empty_list ms) (pure ms)
            (store_pulled owner conversation_id ms) s k
            (store_pulled-IsHeld s.state owner conversation_id ms s k))))

  receive_each-IsHeld :
      (state : SessionState) (owner : String) (ms : List ChatMessage) (s : OpenImSession R H)
      → IsHeld W state owner s
      → IsHeld W state owner (receive_each owner ms s).1
  unfolding receive_each
  receive_each-IsHeld state owner [] s h = h
  receive_each-IsHeld state owner (m ∷ rest) s h =
      let P = IsHeld W state owner in
      lift-keeps P (ensure_message_visible_to_owner owner m) _ s h (λ _ _.
        >>=-keeps P (on_message_service (receive_message m)) _ s
          (on_message_service-IsHeld state owner (receive_message m) s h)
          (λ got t k.
            >>=-keeps P (receive_each owner rest) _ t (receive_each-IsHeld state owner rest t k)
              (λ _ u k. k)))

  apply_transport_messages-IsHeld :
      (state : SessionState) (owner : String) (ms : List ChatMessage) (s : OpenImSession R H)
      → IsHeld W state owner s
      → IsHeld W state owner (apply_transport_messages owner ms s).1
  unfolding apply_transport_messages
  apply_transport_messages-IsHeld state owner ms s h =
      >>=-keeps (IsHeld W state owner) (receive_each owner ms) _ s
        (receive_each-IsHeld state owner ms s h) (λ got t. announce-IsHeld state owner got t)

  pub receive_transport_pushes-IsKept :
      (transport : SessionMessageTransport) (s : OpenImSession R H)
      → IsWatched W s
      → IsKept W s (receive_transport_pushes transport s).1
  unfolding receive_transport_pushes
  receive_transport_pushes-IsKept transport s h = for_owner _ s h (λ owner k.
      lift-keeps (IsHeld W s.state owner) (transport.pop_push_messages owner) _ s k (λ ms _.
        unless_empty s.state owner (is_empty_list ms) (pure ms) (apply_transport_messages owner ms)
          s k (apply_transport_messages-IsHeld s.state owner ms s k)))

  on_held-IsHeld :
      {A : Type 0} (state : SessionState) (owner : String)
      (m : Action (SessionRuntimeResources H) A) (held : Option (SessionRuntimeResources H))
      (s : OpenImSession R H)
      → ((r : SessionRuntimeResources H) → (m r).1.user_id ≡ r.user_id)
      → s.runtime_resources ≡ held
      → IsHeld W state owner s
      → IsHeld W state owner (on_held m held s).1
  on_held-IsHeld state owner m none s same there h = h
  on_held-IsHeld state owner m (some r) s same there (h, user, now) =
      let of : s.login_user_id ≡ some r.user_id =
        subst (BelongsTo s.login_user_id) there h.opened in
      (
        record {
          known = h.known;
          opened = of ∙ ap some (sym (same r));
          blank = h.blank;
          owned = h.owned;
        },
        user,
        now,
      )

  pub pump_transport_events-IsKept :
      (handles : HandleApi H) (decode : List ℕ → Fallible PushMessages)
      (parse_text : String → Fallible String) (s : OpenImSession R H)
      → IsWatched W s
      → IsKept W s (pump_transport_events handles decode parse_text s).1
  unfolding pump_transport_events on_runtime_resources drain_transport_events
  pump_transport_events-IsKept handles decode parse_text s h = for_owner _ s h (λ owner k.
      let P = IsHeld W s.state owner in
      >>=-keeps P (on_runtime_resources (drain_transport_events handles)) _ s
        (lift-keeps P (ensure_logged_in s) _ s k (λ _ _.
          on_held-IsHeld s.state owner (drain_transport_events handles) s.runtime_resources s
            (λ r. refl) refl k))
        (λ events t k. lift-keeps P (decode_events decode parse_text events) _ t k (λ ms _.
          unless_empty s.state owner (is_empty_list ms) (pure [])
            (apply_transport_messages owner ms) t k
            (apply_transport_messages-IsHeld s.state owner ms t k))))
