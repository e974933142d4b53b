-- ===== src/Domain/Conversation/Apply.antt =====
-- What a sequence of messages does to a conversation.
use openim_sdk_core_rust.Base.{
  ℕ, ◌+◌, ◌-◌, ◌^◌, ◌≤◌, min, ◌≡◌, refl, ap, ◌∙◌, String, false, some, List, [], ◌∷◌, filter, arith,
  if◌then◌else◌, All, length,
}
use openim_sdk_core_rust.Base.Int.{ℤ, ◌≤ℤ◌}
use openim_sdk_core_rust.Base.Keys.{◌==◌, string_eq, pair_eq}
use openim_sdk_core_rust.Base.HashMap
use openim_sdk_core_rust.Base.Text.{is_empty}
use openim_sdk_core_rust.Errors.{ok}
use openim_sdk_core_rust.Action.{Action, pure, >>=_of_ok, ◌>>=◌}
use openim_sdk_core_rust.Domain.Message.Chat.{ChatMessage}
use openim_sdk_core_rust.Domain.Conversation.Info.{ConversationInfo, applied, is_unread}
use openim_sdk_core_rust.Domain.Conversation.Service.{
  ConversationService, find_or_insert, apply_message,
}

-- `apply_message` for each message in turn
unfoldable pub apply_messages :
    String → ConversationInfo → List ChatMessage → Action ConversationService ConversationInfo
apply_messages owner last [] = pure last
apply_messages owner last (m ∷ rest) = do c ← apply_message owner m; apply_messages owner c rest

unfoldable pub applied_all : String → List ChatMessage → ConversationInfo → ConversationInfo
applied_all owner [] c = c
applied_all owner (m ∷ rest) c = applied_all owner rest (applied owner m c)

-- a message to a conversation that is stored changes it alone
apply_message-stored :
    (owner : String) (m : ChatMessage) (c : ConversationInfo) (s : ConversationService)
    → is_empty owner ≡ false
    → HashMap.get (owner, m.conversation_id) s.conversations ≡ some c
    → apply_message owner m s ≡ (
      ok (applied owner m c),
      record {
        conversations =
            HashMap.insert (owner, m.conversation_id) (applied owner m c) s.conversations;
      },
    )
unfolding apply_message find_or_insert
apply_message-stored owner m c s there found = ground (arith, there, found)

apply_messages-applied :
    (owner conversation_id : String) (ms : List ChatMessage) (c : ConversationInfo)
    (s : ConversationService)
    → is_empty owner ≡ false
    → All (λ m. m.conversation_id ≡ conversation_id) ms
    → HashMap.get (owner, conversation_id) s.conversations ≡ some c
    → (t : ConversationService) × (apply_messages owner c ms s ≡ (ok (applied_all owner ms c), t))
      × (HashMap.get (owner, conversation_id) t.conversations ≡ some (applied_all owner ms c))
      × ((k : String × String)
          → ((owner, conversation_id) == k) ≡ false
          → HashMap.get k t.conversations ≡ HashMap.get k s.conversations)
unfolding apply_messages applied_all
apply_messages-applied owner id [] c s there same found = (s, refl, found, λ _ _. refl)
apply_messages-applied owner id (m ∷ rest) c s there same found =
    let present = ap (λ i. HashMap.get (owner, i) s.conversations) same.0 ∙ found in
    let next : ConversationService = record {
      conversations = HashMap.insert (owner, m.conversation_id) (applied owner m c) s.conversations;
    } in
    let here : HashMap.get (owner, id) next.conversations ≡ some (applied owner m c) = ground (
      arith,
      HashMap.get-insert (owner, m.conversation_id) (owner, id) (applied owner m c) s.conversations,
      same.0,
      pair_eq.beq_iff (owner, m.conversation_id) (owner, id),
    ) in
    let (t, done, stored, frame) =
      apply_messages-applied owner id rest (applied owner m c) next there same.1 here in
    (
      t,
      >>=_of_ok (apply_message owner m) (λ d. apply_messages owner d rest) s
            (apply_message-stored owner m c s there present)
          ∙ done,
      stored,
      λ k other.
          frame k other
          ∙ ground (
            arith,
            HashMap.get-insert (owner, m.conversation_id) k (applied owner m c) s.conversations,
            other,
            ap (λ i. (owner, i) == k) same.0,
          ),
    )

-- how many of the messages count as unread for the owner
abbrev pub unread_of : String → List ChatMessage → ℕ
unread_of owner ms = length (filter (is_unread owner) ms)

applied-unread :
    (owner : String) (m : ChatMessage) (c : ConversationInfo)
    → (applied owner m c).unread_count
      ≡ (if is_unread owner m then min (c.unread_count + 1) (2 ^ 32 - 1) else c.unread_count)
unfolding applied
applied-unread owner m c = ground arith

applied-max_seq :
    (owner : String) (m : ChatMessage) (c : ConversationInfo)
    → (c.max_seq ≤ℤ (applied owner m c).max_seq) × (m.seq ≤ℤ (applied owner m c).max_seq)
unfolding applied
applied-max_seq owner m c = (ground arith, ground arith)

≤ℤ_trans : (a b c : ℤ) → a ≤ℤ b → b ≤ℤ c → a ≤ℤ c
≤ℤ_trans a b c p q = omega arith

applied_all-unread :
    (owner : String) (ms : List ChatMessage) (c : ConversationInfo)
    → c.unread_count ≤ 2 ^ 32 - 1
    → (applied_all owner ms c).unread_count ≡ min (c.unread_count + unread_of owner ms) (2 ^ 32 - 1)
unfolding applied_all
applied_all-unread owner [] c small = omega arith
applied_all-unread owner (m ∷ rest) c small =
    ground (arith, applied-unread owner m c, applied_all-unread owner rest (applied owner m c))

applied_all-max_seq :
    (owner : String) (ms : List ChatMessage) (c : ConversationInfo)
    → (c.max_seq ≤ℤ (applied_all owner ms c).max_seq)
      × All (λ m. m.seq ≤ℤ (applied_all owner ms c).max_seq) ms
unfolding applied_all
applied_all-max_seq owner [] c = (omega arith, tt)
applied_all-max_seq owner (m ∷ rest) c =
    let (here, seen) = applied-max_seq owner m c in
    let (above, others) = applied_all-max_seq owner rest (applied owner m c) in
    (
      ≤ℤ_trans c.max_seq (applied owner m c).max_seq _ here above,
      (≤ℤ_trans m.seq (applied owner m c).max_seq _ seen above, others),
    )

-- A run of messages of one conversation that is stored, applied one after the other by
-- `apply_message` for an owner with an identifier: every call succeeds; the conversation that the
-- last one returns is the one stored; its unread count is the old one and the number of messages
-- from others that are neither read nor revoked, saturated at the largest `u32`; its `max_seq` is
-- no smaller than the old one nor than any message's sequence number; other conversations are
-- untouched.
pub apply_messages-counts :
    (owner conversation_id : String) (ms : List ChatMessage) (c : ConversationInfo)
    (s : ConversationService)
    → is_empty owner ≡ false
    → All (λ m. m.conversation_id ≡ conversation_id) ms
    → HashMap.get (owner, conversation_id) s.conversations ≡ some c
    → c.unread_count ≤ 2 ^ 32 - 1
    → (d : ConversationInfo) × (t : ConversationService) × (apply_messages owner c ms s ≡ (ok d, t))
      × (HashMap.get (owner, conversation_id) t.conversations ≡ some d)
      × (d.unread_count ≡ min (c.unread_count + unread_of owner ms) (2 ^ 32 - 1))
      × (c.max_seq ≤ℤ d.max_seq)
      × All (λ m. m.seq ≤ℤ d.max_seq) ms
      × ((k : String × String)
          → ((owner, conversation_id) == k) ≡ false
          → HashMap.get k t.conversations ≡ HashMap.get k s.conversations)
apply_messages-counts owner id ms c s there same found small =
    let (t, done, stored, frame) = apply_messages-applied owner id ms c s there same found in
    let (above, seen) = applied_all-max_seq owner ms c in
    (
      applied_all owner ms c,
      t,
      done,
      stored,
      applied_all-unread owner ms c small,
      above,
      seen,
      frame,
    )
