-- ===== src/Domain/Conversation/Sync.antt =====
-- What the conversations of one owner are after a synchronisation.
use openim_sdk_core_rust.Base.{
  String, true, false, List, ◌≡◌, ◌≢◌, ◌⊎◌, ap, ◌∙◌, inl, arith, All, All-imp, length,
}
use openim_sdk_core_rust.Base.Keys.{string_eq, pair_eq}
use openim_sdk_core_rust.Base.HashMap
use openim_sdk_core_rust.Base.Text.{is_empty}
use openim_sdk_core_rust.Errors.{ok, is_ok, each, each-ok, ensure_not_empty}
use openim_sdk_core_rust.Action.{lift-ok, lift-IsAtomic}
use openim_sdk_core_rust.Sync.Diff.{default_options}
use openim_sdk_core_rust.Sync.Diff.Reference.{last_by, diff_actions}
use openim_sdk_core_rust.Domain.{DomainSyncSummary, total}
use openim_sdk_core_rust.Domain.Equality.{equal, equal_iff}
use openim_sdk_core_rust.Domain.Sync.{sync_items}
use openim_sdk_core_rust.Domain.Sync.Listing.{IsKeyed}
use openim_sdk_core_rust.Domain.Sync.Mirror.{IsDistinctBy}
use openim_sdk_core_rust.Domain.Sync.Owned.{sync_items-mirrors, sync_items_total, owned, put, drop}
use openim_sdk_core_rust.Domain.Conversation.Info.{
  ConversationInfo, ConversationInfo_discrete, validate_conversation, conversation_order,
  conversation_key,
}
use openim_sdk_core_rust.Domain.Conversation.Service.{
  ConversationService, all_conversations, ensure_of_owner, on_conversations, sync_conversations,
}

conversation_equal_sound :
    (a b : ConversationInfo) → equal ConversationInfo_discrete a b ≡ true → a ≡ b
conversation_equal_sound a b = (equal_iff ConversationInfo_discrete a b).0

-- what the server may send: valid conversations of the owner
abbrev pub IsConversationOf : String → ConversationInfo → Type 0
IsConversationOf owner c = (c.owner_user_id ≡ owner) × (validate_conversation c ≡ ok tt)

abbrev pub local_conversations : String → ConversationService → List ConversationInfo
local_conversations owner s =
    owned ConversationInfo.owner_user_id ConversationInfo.conversation_id conversation_order owner
      s.conversations

-- past the checks, `sync_conversations` is the synchronisation of the map
accepted :
    (owner : String) (server : List ConversationInfo) (s : ConversationService)
    → is_empty owner ≡ false
    → each (ensure_of_owner owner) server ≡ ok tt
    → sync_conversations owner server s
      ≡ on_conversations
          (sync_items ConversationInfo.conversation_id
            (equal ConversationInfo_discrete)
            default_options
            (put ConversationInfo.owner_user_id ConversationInfo.conversation_id)
            (drop ConversationInfo.owner_user_id ConversationInfo.conversation_id)
            server
            (local_conversations owner s))
          s
unfolding sync_conversations all_conversations
accepted owner server s there passed =
    lift-ok (ensure_not_empty owner "owner_user_id") _ s (ground (arith, there))
    ∙ lift-ok (each (ensure_of_owner owner) server) _ s passed
    ∙ lift-ok (all_conversations owner s) _ s (ground (arith, there))

-- For an owner with an identifier, a server list of valid conversations of that owner, no two with
-- the same identifier, and a service whose conversations stand under their keys:
-- `sync_conversations` succeeds and counts every action; the owner's conversations are then exactly
-- what the server sent, and those of other owners are as before.
pub sync_conversations-mirrors :
    (owner : String) (server : List ConversationInfo) (s : ConversationService)
    → is_empty owner ≡ false
    → All (IsConversationOf owner) server
    → IsDistinctBy ConversationInfo.conversation_id server
    → IsKeyed conversation_key s.conversations
    → (summary : DomainSyncSummary) × (t : ConversationService) × (sync_conversations owner server s
        ≡ (ok summary, t))
      × (total summary
          ≡ length (
              diff_actions ConversationInfo.conversation_id
                (equal ConversationInfo_discrete)
                default_options
                (local_conversations owner s)
                server))
      × ((i : String)
          → HashMap.get (owner, i) t.conversations
            ≡ last_by ConversationInfo.conversation_id i server)
      × ((o i : String)
          → o ≢ owner
          → HashMap.get (o, i) t.conversations ≡ HashMap.get (o, i) s.conversations)
sync_conversations-mirrors owner server s there valid distinct keyed =
    let (summary, m, done, counted, reads, frame) =
      sync_items-mirrors ConversationInfo.owner_user_id ConversationInfo.conversation_id
        conversation_order (equal ConversationInfo_discrete) conversation_equal_sound
        default_options owner server s.conversations keyed
        (All-imp (IsConversationOf owner) (λ v. v.owner_user_id ≡ owner) (λ v h. h.0) server valid)
        distinct in
    (
      summary,
      record { conversations = m },
      accepted owner server s there (
            each-ok (ensure_of_owner owner) server (
              All-imp (IsConversationOf owner) _
                (λ v h. ground (arith, h.1, string_eq.beq_iff v.owner_user_id owner)) server valid))
          ∙ ap (λ p. (p.0, record { conversations = p.1 })) done,
      counted,
      λ i. ground (arith, reads i),
      frame,
    )

-- `sync_conversations` succeeds or leaves the service as it was.
pub sync_conversations_all_or_nothing :
    (owner : String) (server : List ConversationInfo) (s : ConversationService)
    → (is_ok (sync_conversations owner server s).0 ≡ true)
      ⊎ ((sync_conversations owner server s).1 ≡ s)
unfolding sync_conversations
sync_conversations_all_or_nothing owner server s =
    lift-IsAtomic (ensure_not_empty owner "owner_user_id") _ s (λ _ _.
      lift-IsAtomic (each (ensure_of_owner owner) server) _ s (λ _ _.
        lift-IsAtomic (all_conversations owner s) _ s (λ local _.
          let (summary, t, done) =
            sync_items_total ConversationInfo.owner_user_id ConversationInfo.conversation_id
              conversation_order (equal ConversationInfo_discrete) conversation_equal_sound
              default_options owner server local s.conversations in
          inl (ap (λ p. is_ok p.0) done))))
