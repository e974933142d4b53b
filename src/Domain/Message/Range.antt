-- ===== src/Domain/Message/Range.antt =====
-- What the store holds after a range of a conversation was synchronised.
use openim_sdk_core_rust.Base.{
  String, true, false, List, none, some, ◌≡◌, ◌≢◌, ◌⊎◌, refl, ap, ◌∙◌, inl, arith, All, All-imp,
  length,
}
use openim_sdk_core_rust.Base.Keys.{string_eq, pair_eq}
use openim_sdk_core_rust.Base.HashMap
use openim_sdk_core_rust.Base.Text.{is_empty}
use openim_sdk_core_rust.Errors.{ok, is_ok, each, each-ok, ensure_not_empty}
use openim_sdk_core_rust.Action.{Action, lift-ok, lift-IsAtomic, pure}
use openim_sdk_core_rust.Sync.Diff.Reference.{last_by, diff_actions}
use openim_sdk_core_rust.Domain.{DomainSyncSummary, total}
use openim_sdk_core_rust.Domain.Equality.{equal, equal_iff}
use openim_sdk_core_rust.Domain.Sync.{sync_items}
use openim_sdk_core_rust.Domain.Sync.Mirror.{IsDistinctBy}
use openim_sdk_core_rust.Domain.Sync.Owned.{
  owned, put, drop, sync_items-mirrors, sync_items_total, sync_items-discard,
}
use openim_sdk_core_rust.Domain.Message.Chat.{ChatMessage, ChatMessage_discrete, message_order}
use openim_sdk_core_rust.Domain.Message.Service.{
  MessageService, Messages, sync_message_range, range_options, ensure_in_conversation, all_messages,
  on_messages,
}
use openim_sdk_core_rust.Domain.Message.Invariant.{IsValid, IsWellFormed}

-- what the server may send: valid messages of the conversation
abbrev pub IsMessageOf : String → ChatMessage → Type 0
IsMessageOf c m = (m.conversation_id ≡ c) × IsValid m

message_equal_sound : (a b : ChatMessage) → equal ChatMessage_discrete a b ≡ true → a ≡ b
message_equal_sound a b = (equal_iff ChatMessage_discrete a b).0

abbrev sync_map : String → List ChatMessage → List ChatMessage → Action Messages DomainSyncSummary
sync_map c server local =
    sync_items ChatMessage.client_msg_id (equal ChatMessage_discrete) range_options
      (put ChatMessage.conversation_id ChatMessage.client_msg_id) (λ _. pure tt) server local

discards :
    (c : String) (server local : List ChatMessage) (m : Messages)
    → sync_map c server local m
      ≡ sync_items ChatMessage.client_msg_id
          (equal ChatMessage_discrete)
          range_options
          (put ChatMessage.conversation_id ChatMessage.client_msg_id)
          (drop ChatMessage.conversation_id ChatMessage.client_msg_id)
          server
          local
          m
discards c server local m =
    sync_items-discard ChatMessage.conversation_id ChatMessage.client_msg_id message_order
      (equal ChatMessage_discrete) message_equal_sound range_options c (λ _. pure tt) server local m
      refl

abbrev local_messages : String → MessageService → List ChatMessage
local_messages c s =
    owned ChatMessage.conversation_id ChatMessage.client_msg_id message_order c s.messages

-- past the checks, `sync_message_range` is the synchronisation of the map
accepted :
    (c : String) (server : List ChatMessage) (s : MessageService)
    → is_empty c ≡ false
    → each (ensure_in_conversation c) server ≡ ok tt
    → sync_message_range c server s ≡ on_messages (sync_map c server (local_messages c s)) s
unfolding sync_message_range all_messages
accepted c server s there passed =
    lift-ok (ensure_not_empty c "conversation_id") _ s (ground (arith, there))
    ∙ lift-ok (each (ensure_in_conversation c) server) _ s passed
    ∙ lift-ok (all_messages c s) _ s (ground (arith, there))

-- For a conversation with an identifier, a server list of valid messages of it, no two with the
-- same client identifier, and a service in a state that its methods reach: `sync_message_range`
-- succeeds and counts every action; it stores exactly what the server sent, keeps every message of
-- the conversation that the server did not mention, and every message of other conversations.
pub sync_message_range-merges :
    (c : String) (server : List ChatMessage) (s : MessageService)
    → is_empty c ≡ false
    → All (IsMessageOf c) server
    → IsDistinctBy ChatMessage.client_msg_id server
    → IsWellFormed s
    → (summary : DomainSyncSummary) × (t : MessageService) × (sync_message_range c server s
        ≡ (ok summary, t))
      × (total summary
          ≡ length (
              diff_actions ChatMessage.client_msg_id
                (equal ChatMessage_discrete)
                range_options
                (local_messages c s)
                server))
      × ((id : String)
          → HashMap.get (c, id) t.messages ≡ (elim (last_by ChatMessage.client_msg_id id server) [
            | none ↦ HashMap.get (c, id) s.messages
            | some m ↦ some m
          ]))
      × ((o id : String) → o ≢ c → HashMap.get (o, id) t.messages ≡ HashMap.get (o, id) s.messages)
sync_message_range-merges c server s there messages distinct w =
    let (summary, m, done, counted, reads, frame) =
      sync_items-mirrors ChatMessage.conversation_id ChatMessage.client_msg_id message_order
        (equal ChatMessage_discrete) message_equal_sound range_options c server s.messages w.keyed
        (All-imp (IsMessageOf c) (λ v. v.conversation_id ≡ c) (λ v h. h.0) server messages)
        distinct in
    (
      summary,
      record { messages = m },
      accepted c server s there (
            each-ok (ensure_in_conversation c) server (
              All-imp (IsMessageOf c) _
                (λ v h. ground (arith, h.1, string_eq.beq_iff v.conversation_id c)) server
                messages))
          ∙ ap (λ p. (p.0, record { messages = p.1 }))
              (discards c server (local_messages c s) s.messages ∙ done),
      counted,
      reads,
      frame,
    )

-- `sync_message_range` succeeds or leaves the service as it was.
pub sync_message_range_all_or_nothing :
    (c : String) (server : List ChatMessage) (s : MessageService)
    → (is_ok (sync_message_range c server s).0 ≡ true) ⊎ ((sync_message_range c server s).1 ≡ s)
unfolding sync_message_range
sync_message_range_all_or_nothing c server s =
    lift-IsAtomic (ensure_not_empty c "conversation_id") _ s (λ _ _.
      lift-IsAtomic (each (ensure_in_conversation c) server) _ s (λ _ _.
        lift-IsAtomic (all_messages c s) _ s (λ local _.
          let (summary, t, done) =
            sync_items_total ChatMessage.conversation_id ChatMessage.client_msg_id message_order
              (equal ChatMessage_discrete) message_equal_sound range_options c server local
              s.messages in
          inl (ap (λ p. is_ok p.0) (discards c server local s.messages ∙ done)))))
