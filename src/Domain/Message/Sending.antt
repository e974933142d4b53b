-- ===== src/Domain/Message/Sending.antt =====
-- How sending a message ends, by what the sender answers.
use openim_sdk_core_rust.Base.{
  String, false, some, ◌≡◌, refl, ap, ◌∙◌, inl, inr, arith, Bool-cases, if◌then◌else◌,
}
use openim_sdk_core_rust.Base.Keys.{string_eq, pair_eq, beq_refl, ◌==◌}
use openim_sdk_core_rust.Base.HashMap
use openim_sdk_core_rust.Base.Text.{is_empty}
use openim_sdk_core_rust.Errors.{Result, ok, err, panic, args}
use openim_sdk_core_rust.Action.{lift-ok, >>=_of_ok}
use openim_sdk_core_rust.Domain.Message.Chat.{
  ChatMessage, validate_message, conversation_id_by_message, message_key,
}
use openim_sdk_core_rust.Domain.Message.Service.{
  SendMessageAck, MessageService, upsert_message, message_mut, update_message, acknowledged,
  ack_send_success, failed, mark_send_failed, sent, settle, send_message,
}
use openim_sdk_core_rust.Domain.Message.Invariant.{IsValid}

-- what `send_message` returns, by the sender's answer
abbrev pub outcome : ChatMessage → Result SendMessageAck → Result ChatMessage
outcome m (ok ack) =
    if is_empty ack.server_msg_id
    then err (args "server_msg_id is empty")
    else ok (acknowledged ack (sent m))
outcome m (err e) = err e
outcome m panic = panic

-- the message that is stored then: one that an empty server identifier acknowledges stays as it
-- was while it was sent
abbrev pub settled : ChatMessage → Result SendMessageAck → ChatMessage
settled m (ok ack) = if is_empty ack.server_msg_id then sent m else acknowledged ack (sent m)
settled m (err e) = failed (sent m)
settled m panic = sent m

named :
    (m : ChatMessage)
    → IsValid m
    → (is_empty m.conversation_id ≡ false) × (is_empty m.client_msg_id ≡ false)
unfolding validate_message
named m valid = (
  elim (Bool-cases (is_empty m.client_msg_id)) [
    | inl a ↦ ground (arith, a)
    | inr b ↦ ground (arith, b)
  ],
  ground arith,
)

-- a change to a message that is stored
update_stored :
    (m : ChatMessage) (change : ChatMessage → ChatMessage) (s : MessageService)
    → is_empty m.conversation_id ≡ false
    → is_empty m.client_msg_id ≡ false
    → HashMap.get (message_key m) s.messages ≡ some m
    → update_message m.conversation_id m.client_msg_id change s
      ≡ (ok (change m), record { messages = HashMap.insert (message_key m) (change m) s.messages })
unfolding update_message message_mut
update_stored m change s p q found = ground (arith, p, q, found)

settle-outcome :
    (m : ChatMessage) (answer : Result SendMessageAck) (s : MessageService) (k : String × String)
    → is_empty m.conversation_id ≡ false
    → is_empty m.client_msg_id ≡ false
    → HashMap.get (message_key m) s.messages ≡ some (sent m)
    → ((settle (sent m) answer s).0 ≡ outcome m answer)
      × (HashMap.get k (settle (sent m) answer s).1.messages
          ≡ (if message_key m == k then some (settled m answer) else HashMap.get k s.messages))
unfolding settle ack_send_success mark_send_failed
settle-outcome m (ok ack) s k p q stored =
    let done = update_stored (sent m) (acknowledged ack) s p q stored in
    elim (Bool-cases (is_empty ack.server_msg_id)) [
      | inl empty ↦ (
        ground (arith, empty),
        ground
            (arith, empty, pair_eq.beq_iff (message_key m) k, ap (λ j. HashMap.get j s.messages)),
      )
      | inr full ↦ (
        ground (arith, full, done),
        ground (
          arith,
          full,
          done,
          HashMap.get-insert (message_key m) k (acknowledged ack (sent m)) s.messages,
        ),
      )
    ]
settle-outcome m (err e) s k p q stored =
    let done = update_stored (sent m) failed s p q stored in
    (
      ground (arith, done),
      ground (arith, done, HashMap.get-insert (message_key m) k (failed (sent m)) s.messages),
    )
settle-outcome m panic s k p q stored = (refl, ground (arith, pair_eq.beq_iff (message_key m) k))

sent-IsValid : (m : ChatMessage) → IsValid m → IsValid (sent m)
unfolding validate_message conversation_id_by_message
sent-IsValid m valid = valid

-- the service once the message is stored
abbrev stored : ChatMessage → MessageService → MessageService
stored m s = record { messages = HashMap.insert (message_key m) (sent m) s.messages }

upsert_sent :
    (m : ChatMessage) (s : MessageService)
    → IsValid m
    → upsert_message (sent m) s ≡ (ok tt, stored m s)
unfolding upsert_message
upsert_sent m s valid = lift-ok (validate_message (sent m)) _ s (sent-IsValid m valid)

send_settles :
    (m : ChatMessage) (sender : ChatMessage → Result SendMessageAck) (s : MessageService)
    → IsValid m
    → send_message m sender s ≡ settle (sent m) (sender (sent m)) (stored m s)
unfolding send_message
send_settles m sender s valid =
    lift-ok (validate_message m) _ s valid
    ∙ >>=_of_ok (upsert_message (sent m)) (λ _. settle (sent m) (sender (sent m))) s
        (upsert_sent m s valid)

-- Sending a valid message, whatever the service holds and whatever the sender answers: the caller
-- gets what `outcome` says; the message stands in the store then as `settled` says, so
-- acknowledged with the server's identifier, sequence number and time, or failed, or, where the
-- acknowledgement's identifier is empty, still sending; every other message is untouched.
pub send_message-outcome :
    (m : ChatMessage) (sender : ChatMessage → Result SendMessageAck) (s : MessageService)
    (k : String × String)
    → IsValid m
    → ((send_message m sender s).0 ≡ outcome m (sender (sent m)))
      × (HashMap.get k (send_message m sender s).1.messages ≡ (
          if message_key m == k
          then some (settled m (sender (sent m)))
          else HashMap.get k s.messages))
send_message-outcome m sender s k valid =
    let (p, q) = named m valid in
    let here = HashMap.get-insert (message_key m) (message_key m) (sent m) s.messages in
    let there = HashMap.get-insert (message_key m) k (sent m) s.messages in
    let (result, reads) =
      settle-outcome m (sender (sent m)) (stored m s) k p q
        (ground (arith, here, beq_refl (message_key m))) in
    (
      ap (λ r. r.0) (send_settles m sender s valid) ∙ result,
      ap (λ r. HashMap.get k r.1.messages) (send_settles m sender s valid)
          ∙ reads
          ∙ ground (arith, there),
    )
