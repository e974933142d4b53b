-- ===== src/Domain/Conversation/Service.antt =====
-- crates/openim-domain/src/conversation.rs: `ConversationService`.
use openim_sdk_core_rust.Base.{
  ℕ, ◌+◌, ◌%◌, ◌^◌, String, Bool, not, Option, some, none, List, [], ◌∷◌, map, length,
  is_empty as is_empty_list, filter, if◌then◌else◌,
}
use openim_sdk_core_rust.Base.Int.{ℤ}
use openim_sdk_core_rust.Base.Keys.{◌==◌, string_eq, pair_eq}
use openim_sdk_core_rust.Base.HashMap
use openim_sdk_core_rust.Base.HashMap.{HashMap, values}
use openim_sdk_core_rust.Base.Sort.{sort_by}
use openim_sdk_core_rust.Errors.{
  Result, ok, err, args, ensure_not_empty, ok_or, each, ◌>>◌ as ◌>>?◌, ◌>>=◌ as ◌>>=?◌,
}
use openim_sdk_core_rust.Action.{Action, lift, pure, query, modify, ◌>>=◌, ◌>>◌}
use openim_sdk_core_rust.Types.{Pagination}
use openim_sdk_core_rust.Sync.Diff.{default_options}
use openim_sdk_core_rust.Domain.{DomainSyncSummary}
use openim_sdk_core_rust.Domain.Equality.{equal}
use openim_sdk_core_rust.Domain.Sync.{sync_items}
use openim_sdk_core_rust.Domain.Sync.Owned.{put, drop}
use openim_sdk_core_rust.Domain.Message.Chat.{ChatMessage}
use openim_sdk_core_rust.Domain.Message.Service.{paginate}
use openim_sdk_core_rust.Domain.Conversation.Info.{
  ConversationInfo, ConversationInfo_discrete, from_message, applied, ensure_pair,
  validate_conversation, conversation_order, conversation_key,
}

-- `HashMap<(UserId, ConversationId), ConversationInfo>`
abbrev pub Conversations : Type 0
Conversations = HashMap (String × String) ConversationInfo

pub record ConversationService : Type 0 where
  pub conversations : Conversations

abbrev pub new_service : ConversationService
new_service = record { conversations = [] }

abbrev pub on_conversations : {A : Type 0} → Action Conversations A → Action ConversationService A
on_conversations m s = ((m s.conversations).0, record { conversations = (m s.conversations).1 })

unfoldable pub upsert_conversation : ConversationInfo → Action ConversationService (Unit {0})
upsert_conversation conversation = do
  lift (validate_conversation conversation)
  on_conversations (modify (HashMap.insert (conversation_key conversation) conversation))

unfoldable pub get_conversation :
    String → String → ConversationService → Result (Option ConversationInfo)
get_conversation owner_user_id conversation_id s =
    ensure_pair owner_user_id conversation_id
    >>? ok (HashMap.get (owner_user_id, conversation_id) s.conversations)

unfoldable pub delete_conversation : String → String → Action ConversationService (Unit {0})
delete_conversation owner_user_id conversation_id = do
  lift (ensure_pair owner_user_id conversation_id)
  on_conversations (modify (HashMap.remove (owner_user_id, conversation_id)))

unfoldable pub all_conversations : String → ConversationService → Result (List ConversationInfo)
all_conversations owner_user_id s =
    ensure_not_empty owner_user_id "owner_user_id"
    >>? ok (
        sort_by conversation_order (
          filter (λ conversation. conversation.owner_user_id == owner_user_id)
            (values s.conversations)))

unfoldable pub paged_conversations :
    String → Pagination → ConversationService → Result (List ConversationInfo)
paged_conversations owner_user_id pagination s =
    all_conversations owner_user_id s >>=? λ conversations. ok (paginate conversations pagination)

-- the place that `apply_message` finds, or makes for the message
unfoldable pub find_or_insert : String → ChatMessage → Action ConversationService ConversationInfo
find_or_insert owner_user_id message s =
    elim (HashMap.get (owner_user_id, message.conversation_id) s.conversations) [
      | some conversation ↦ (ok conversation, s)
      | none ↦
          (do
            conversation ← lift (from_message owner_user_id message)
            on_conversations
                (modify (HashMap.insert (owner_user_id, message.conversation_id) conversation))
            pure conversation)
            s
    ]

unfoldable pub apply_message : String → ChatMessage → Action ConversationService ConversationInfo
apply_message owner_user_id message = do
  lift (ensure_not_empty owner_user_id "owner_user_id")
  conversation ← find_or_insert owner_user_id message
  on_conversations (
      modify (
        HashMap.insert (owner_user_id, message.conversation_id)
          (applied owner_user_id message conversation)))
  pure (applied owner_user_id message conversation)

-- the place that `conversation_mut` finds
unfoldable pub conversation_mut : String → String → ConversationService → Result ConversationInfo
conversation_mut owner_user_id conversation_id s =
    ensure_pair owner_user_id conversation_id
    >>? ok_or (HashMap.get (owner_user_id, conversation_id) s.conversations)
        (args "conversation not found")

-- a write through `conversation_mut`, which hands out the conversation as it was
unfoldable pub update_conversation :
    String
    → String
    → (ConversationInfo → ConversationInfo)
    → Action ConversationService ConversationInfo
update_conversation owner_user_id conversation_id change = do
  conversation ← query (conversation_mut owner_user_id conversation_id)
  on_conversations (modify (HashMap.insert (owner_user_id, conversation_id) (change conversation)))
  pure conversation

abbrev pub cleared : ConversationInfo → ConversationInfo
cleared c = record c { unread_count = 0 }

unfoldable pub mark_conversation_read : String → String → Action ConversationService ℕ
mark_conversation_read owner_user_id conversation_id = do
  previous ← update_conversation owner_user_id conversation_id cleared
  pure previous.unread_count

-- the loop over `values_mut`: the sum that it returns, a `u32`, and the map that it leaves
unfoldable pub clear_all : String → ℕ → Conversations → ℕ × Conversations
clear_all owner_user_id sum [] = (sum, [])
clear_all owner_user_id sum ((k, c) ∷ rest) =
    let (mine, mine_left) = clear_all owner_user_id ((sum + c.unread_count) % 2 ^ 32) rest in
    let (others, others_left) = clear_all owner_user_id sum rest in
    if c.owner_user_id == owner_user_id
    then (mine, (k, cleared c) ∷ mine_left)
    else (others, (k, c) ∷ others_left)

unfoldable pub mark_all_read : String → Action ConversationService ℕ
mark_all_read owner_user_id = do
  lift (ensure_not_empty owner_user_id "owner_user_id")
  on_conversations (λ m. (ok (clear_all owner_user_id 0 m).0, (clear_all owner_user_id 0 m).1))

unfoldable pub set_draft :
    String → String → String → ℤ → Action ConversationService ConversationInfo
set_draft owner_user_id conversation_id draft_text draft_text_time = do
  conversation ←
      update_conversation owner_user_id conversation_id
        (λ c. record c { draft_text = draft_text; draft_text_time = draft_text_time })
  pure (record conversation { draft_text = draft_text; draft_text_time = draft_text_time })

unfoldable pub set_pinned : String → String → Bool → Action ConversationService ConversationInfo
set_pinned owner_user_id conversation_id is_pinned = do
  conversation ←
      update_conversation owner_user_id conversation_id (λ c. record c { is_pinned = is_pinned })
  pure (record conversation { is_pinned = is_pinned })

-- `sum` of a `u32` iterator
unfoldable pub sum_u32 : ℕ → List ℕ → ℕ
sum_u32 sum [] = sum
sum_u32 sum (x ∷ xs) = sum_u32 ((sum + x) % 2 ^ 32) xs

unfoldable pub total_unread_count : String → ConversationService → Result ℕ
total_unread_count owner_user_id s =
    ensure_not_empty owner_user_id "owner_user_id"
    >>? ok (
        sum_u32 0 (
          map ConversationInfo.unread_count
            (filter (λ c. c.owner_user_id == owner_user_id) (values s.conversations))))

-- the check of one conversation of the server
abbrev pub ensure_of_owner : String → ConversationInfo → Result (Unit {0})
ensure_of_owner owner_user_id conversation =
    validate_conversation conversation
    >>? (if not (conversation.owner_user_id == owner_user_id)
        then err (args "server conversation owner_user_id mismatch")
        else ok tt)

unfoldable pub sync_conversations :
    String → List ConversationInfo → Action ConversationService DomainSyncSummary
sync_conversations owner_user_id server_conversations = do
  lift (ensure_not_empty owner_user_id "owner_user_id")
  lift (each (ensure_of_owner owner_user_id) server_conversations)
  local_conversations ← query (all_conversations owner_user_id)
  on_conversations (
      sync_items ConversationInfo.conversation_id (equal ConversationInfo_discrete) default_options
        (put ConversationInfo.owner_user_id ConversationInfo.conversation_id)
        (drop ConversationInfo.owner_user_id ConversationInfo.conversation_id) server_conversations
        local_conversations)

unfoldable pub len : ConversationService → ℕ
len s = length s.conversations

unfoldable pub is_empty : ConversationService → Bool
is_empty s = is_empty_list s.conversations
