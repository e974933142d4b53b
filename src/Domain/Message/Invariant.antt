-- ===== src/Domain/Message/Invariant.antt =====
-- The states that the methods of `MessageService` lead to.
use mathlib.Core.Path.{subst}
use openim_sdk_core_rust.Base.{
  String, List, [], ◌∷◌, ◌≡◌, refl, sym, ◌∙◌, All, arith, some, inl, inr, Option-cases,
}
use openim_sdk_core_rust.Base.Keys.{string_eq, pair_eq}
use openim_sdk_core_rust.Base.HashMap
use openim_sdk_core_rust.Base.HashMap.{All-insert, All-get}
use openim_sdk_core_rust.Errors.{Result, ok, err, panic, each, ensure_not_empty, >>=-eq-ok}
use openim_sdk_core_rust.Action.{lift-keeps, >>=-keeps, pure}
use openim_sdk_core_rust.Sync.Diff.Reference.{diff_actions}
use openim_sdk_core_rust.Sync.Diff.Equivalence.{diff_by-eq-diff_actions}
use openim_sdk_core_rust.Domain.{empty_summary}
use openim_sdk_core_rust.Domain.Equality.{equal}
use openim_sdk_core_rust.Domain.Sync.{sync_items}
use openim_sdk_core_rust.Domain.Sync.Owned.{put}
use openim_sdk_core_rust.Domain.Sync.Stores.{diff_actions-MayStore, apply_actions-stores}
use openim_sdk_core_rust.Domain.Sync.Listing.{IsKeyed, empty-IsKeyed, insert-IsKeyed, key_of-get}
use openim_sdk_core_rust.Domain.Message.Chat.{
  ChatMessage, ChatMessage_discrete, validate_message, conversation_id_by_message, message_key,
}
use openim_sdk_core_rust.Domain.Message.Service.{
  SendMessageAck, MessageService, new_service, upsert_message, message_mut, update_message,
  acknowledged, ack_send_success, failed, mark_send_failed, read, mark_read, withdrawn,
  revoke_message, sent, settle, send_message, received, receive_message, sync_message_range,
  range_options, ensure_in_conversation, all_messages,
}

abbrev pub IsValid : ChatMessage → Type 0
IsValid m = validate_message m ≡ ok tt

-- one call of a method that may write, however it ends and whatever the sender answers
pub data Step : MessageService → MessageService → Type 0 where
  upserted : {s : MessageService} (m : ChatMessage) → Step s (upsert_message m s).1
  message_sent :
      {s : MessageService} (m : ChatMessage) (sender : ChatMessage → Result SendMessageAck)
      → Step s (send_message m sender s).1
  message_received : {s : MessageService} (m : ChatMessage) → Step s (receive_message m s).1
  send_acknowledged :
      {s : MessageService} (c id : String) (ack : SendMessageAck)
      → Step s (ack_send_success c id ack s).1
  send_rejected : {s : MessageService} (c id : String) → Step s (mark_send_failed c id s).1
  marked_read : {s : MessageService} (c id : String) → Step s (mark_read c id s).1
  revoked : {s : MessageService} (c id : String) → Step s (revoke_message c id s).1
  range_synced :
      {s : MessageService} (c : String) (server : List ChatMessage)
      → Step s (sync_message_range c server s).1

pub data IsReachable : MessageService → Type 0 where
  start : IsReachable new_service
  next : {s t : MessageService} → IsReachable s → Step s t → IsReachable t

-- every message stands once, under its conversation and its identifier, and is valid
pub record IsWellFormed (s : MessageService) : Type 0 where
  pub keyed : IsKeyed message_key s.messages
  pub valid : All (λ p. IsValid p.1) s.messages

store-IsWellFormed :
    (m : ChatMessage) (s : MessageService)
    → IsValid m
    → IsWellFormed s
    → IsWellFormed (record { messages = HashMap.insert (message_key m) m s.messages })
store-IsWellFormed m s h w = record {
  keyed = insert-IsKeyed message_key m s.messages w.keyed;
  valid = All-insert (λ k v. IsValid v) (message_key m) m s.messages h w.valid;
}

message_mut-get :
    (c id : String) (s : MessageService) {m : ChatMessage}
    → message_mut c id s ≡ ok m
    → HashMap.get (c, id) s.messages ≡ some m
unfolding message_mut
message_mut-get c id s {m} found = elim (Option-cases (HashMap.get (c, id) s.messages)) [
  | inl absent ↦ ground (arith, absent)
  | inr (v, present) ↦ ground (arith, present)
]

upsert-IsWellFormed :
    (m : ChatMessage) (s : MessageService) → IsWellFormed s → IsWellFormed (upsert_message m s).1
unfolding upsert_message
upsert-IsWellFormed m s w =
    lift-keeps IsWellFormed (validate_message m) _ s w (λ _ h. store-IsWellFormed m s h w)

-- a change that keeps the key and the validity of a message
record IsSafe (change : ChatMessage → ChatMessage) : Type 0 where
  same_key : (m : ChatMessage) → message_key (change m) ≡ message_key m
  still_valid : (m : ChatMessage) → IsValid m → IsValid (change m)

acknowledged-IsSafe : (ack : SendMessageAck) → IsSafe (acknowledged ack)
unfolding validate_message conversation_id_by_message
acknowledged-IsSafe ack = record { same_key = λ _. refl; still_valid = λ _ h. h }

failed-IsSafe : IsSafe failed
unfolding validate_message conversation_id_by_message
failed-IsSafe = record { same_key = λ _. refl; still_valid = λ _ h. h }

read-IsSafe : IsSafe read
unfolding validate_message conversation_id_by_message
read-IsSafe = record { same_key = λ _. refl; still_valid = λ _ h. h }

withdrawn-IsSafe : IsSafe withdrawn
unfolding validate_message conversation_id_by_message
withdrawn-IsSafe = record { same_key = λ _. refl; still_valid = λ _ h. h }

update-IsWellFormed :
    (change : ChatMessage → ChatMessage) (c id : String) (s : MessageService)
    → IsSafe change
    → IsWellFormed s
    → IsWellFormed (update_message c id change s).1
unfolding update_message
update-IsWellFormed change c id s safe w =
    lift-keeps IsWellFormed (message_mut c id s) _ s w (λ m found.
      let present = message_mut-get c id s found in
      let key = key_of-get message_key (c, id) s.messages {v = m} w.keyed present in
      subst (λ k. IsWellFormed (record { messages = HashMap.insert k (change m) s.messages }))
        (safe.same_key m ∙ sym key)
        (store-IsWellFormed (change m) s
          (safe.still_valid m
            (All-get (λ k v. IsValid v) s.messages (c, id) {v = m} w.valid present))
          w))

settle-IsWellFormed :
    (m : ChatMessage) (answer : Result SendMessageAck) (s : MessageService)
    → IsWellFormed s
    → IsWellFormed (settle m answer s).1
unfolding settle ack_send_success mark_send_failed
settle-IsWellFormed m (ok ack) s w =
    lift-keeps IsWellFormed (ensure_not_empty ack.server_msg_id "server_msg_id") _ s w (λ _ _.
      update-IsWellFormed (acknowledged ack) m.conversation_id m.client_msg_id s
        (acknowledged-IsSafe ack) w)
settle-IsWellFormed m (err e) s w =
    >>=-keeps IsWellFormed (update_message m.conversation_id m.client_msg_id failed) _ s
      (update-IsWellFormed failed m.conversation_id m.client_msg_id s failed-IsSafe w) (λ _ _ h. h)
settle-IsWellFormed m panic s w = w

each-All :
    (c : String) (server : List ChatMessage)
    → each (ensure_in_conversation c) server ≡ ok tt
    → All IsValid server
each-All c [] h = tt
each-All c (m ∷ rest) h =
    let (_, first, others) =
      >>=-eq-ok (ensure_in_conversation c m) (λ _. each (ensure_in_conversation c) rest) h in
    let (_, valid, _) = >>=-eq-ok (validate_message m) _ first in (valid, each-All c rest others)

Step-IsWellFormed : {s t : MessageService} → Step s t → IsWellFormed s → IsWellFormed t
unfolding send_message receive_message ack_send_success mark_send_failed mark_read revoke_message
    sync_message_range sync_items
Step-IsWellFormed {s} (Step.upserted m) w = upsert-IsWellFormed m s w
Step-IsWellFormed {s} (Step.message_sent m sender) w =
    lift-keeps IsWellFormed (validate_message m) _ s w (λ _ _.
      >>=-keeps IsWellFormed (upsert_message (sent m)) _ s (upsert-IsWellFormed (sent m) s w)
        (λ _ t. settle-IsWellFormed (sent m) (sender (sent m)) t))
Step-IsWellFormed {s} (Step.message_received m) w =
    lift-keeps IsWellFormed (validate_message m) _ s w (λ _ _.
      >>=-keeps IsWellFormed (upsert_message (received m)) _ s
        (upsert-IsWellFormed (received m) s w) (λ _ _ h. h))
Step-IsWellFormed {s} (Step.send_acknowledged c id ack) w =
    lift-keeps IsWellFormed (ensure_not_empty ack.server_msg_id "server_msg_id") _ s w
      (λ _ _. update-IsWellFormed (acknowledged ack) c id s (acknowledged-IsSafe ack) w)
Step-IsWellFormed {s} (Step.send_rejected c id) w =
    update-IsWellFormed failed c id s failed-IsSafe w
Step-IsWellFormed {s} (Step.marked_read c id) w = update-IsWellFormed read c id s read-IsSafe w
Step-IsWellFormed {s} (Step.revoked c id) w =
    update-IsWellFormed withdrawn c id s withdrawn-IsSafe w
Step-IsWellFormed {s} (Step.range_synced c server) w =
    lift-keeps IsWellFormed (ensure_not_empty c "conversation_id") _ s w (λ _ _.
      lift-keeps IsWellFormed (each (ensure_in_conversation c) server) _ s w (λ _ passed.
        lift-keeps IsWellFormed (all_messages c s) _ s w (λ local _.
          rw
            (diff_by-eq-diff_actions ChatMessage.client_msg_id (equal ChatMessage_discrete)
              range_options local server)
            (apply_actions-stores IsValid
              (put ChatMessage.conversation_id ChatMessage.client_msg_id) (λ _. pure tt)
              (λ t. IsWellFormed (record { messages = t }))
              (λ v t h u. store-IsWellFormed v (record { messages = t }) h u)
              (diff_actions ChatMessage.client_msg_id (equal ChatMessage_discrete) range_options
                local server)
              empty_summary s.messages
              (diff_actions-MayStore IsValid ChatMessage.client_msg_id (equal ChatMessage_discrete)
                range_options local server refl (each-All c server passed))
              w))))

-- In every state that the methods lead to from a new service, whatever they are called with,
-- whatever the sender answers and however the calls end, each message stands once, under its own
-- conversation and identifier, and passes `validate_message`.
pub message_service-IsWellFormed : {s : MessageService} → IsReachable s → IsWellFormed s
message_service-IsWellFormed IsReachable.start = record {
  keyed = empty-IsKeyed message_key;
  valid = tt;
}
message_service-IsWellFormed (IsReachable.next before step) =
    Step-IsWellFormed step (message_service-IsWellFormed before)
