-- ===== src/Session/Batch.antt =====
-- crates/openim-session/src/lib.rs: what a sequence of messages does to the conversations of the
-- user who is logged in, and what its listeners are told of it. A `BTreeMap` is an association list
-- that is read out in the order of its keys.
pub mod Owned
pub mod Listing
pub mod Placing
pub mod Sorting
use Prim.Native.String.{compare}
use openim_sdk_core_rust.Base.{
  ℕ, String, Bool, true, false, Option, none, some, List, [], ◌∷◌, map, is_some, ◌==◌ as nat_beq,
  if◌then◌else◌,
}
use openim_sdk_core_rust.Base.Keys.{string_eq}
use openim_sdk_core_rust.Base.HashMap
use openim_sdk_core_rust.Base.HashMap.{HashMap, contains_key}
use openim_sdk_core_rust.Base.Sort.{sort_by}
use openim_sdk_core_rust.Action.{Action, pure, query, ◌>>=◌}
use openim_sdk_core_rust.Domain.Message.Chat.{ChatMessage}
use openim_sdk_core_rust.Domain.Conversation.Info.{ConversationInfo}
use openim_sdk_core_rust.Domain.Conversation.Service.{
  ConversationService, get_conversation, apply_message, total_unread_count,
}

pub record ConversationDispatchBatch : Type 0 where
  pub new_conversations : List ConversationInfo
  pub changed_conversations : List ConversationInfo
  pub total_unread_count : Option ℕ

-- the two maps of the loop
pub record Sorted : Type 0 where
  pub new_conversations : HashMap String ConversationInfo
  pub changed : HashMap String ConversationInfo

-- where the loop puts a conversation, by whether it existed before its message
unfoldable pub place : Bool → ConversationInfo → Sorted → Sorted
place true c b =
    if contains_key c.conversation_id b.new_conversations
    then record b { new_conversations = HashMap.insert c.conversation_id c b.new_conversations }
    else record b { changed = HashMap.insert c.conversation_id c b.changed }
place false c b = record {
  new_conversations = HashMap.insert c.conversation_id c b.new_conversations;
  changed = HashMap.remove c.conversation_id b.changed;
}

-- the loop over the messages
unfoldable pub sort_messages :
    String → List ChatMessage → Sorted → Action ConversationService Sorted
sort_messages owner_user_id [] b = pure b
sort_messages owner_user_id (message ∷ rest) b = do
  existing ← query (get_conversation owner_user_id message.conversation_id)
  conversation ← apply_message owner_user_id message
  sort_messages owner_user_id rest (place (is_some existing) conversation b)

-- `into_values`
abbrev pub into_values : HashMap String ConversationInfo → List ConversationInfo
into_values m = map (λ p. p.1) (sort_by (λ p q. compare p.0 q.0) m)

unfoldable pub apply_messages_to_conversations :
    String → List ChatMessage → Action ConversationService ConversationDispatchBatch
apply_messages_to_conversations owner_user_id messages = do
  previous_total_unread ← query (total_unread_count owner_user_id)
  b ← sort_messages owner_user_id messages (record { new_conversations = []; changed = [] })
  total ← query (total_unread_count owner_user_id)
  pure (record {
    new_conversations = into_values b.new_conversations;
    changed_conversations = into_values b.changed;
    total_unread_count = if nat_beq total previous_total_unread then none else some total;
  })
