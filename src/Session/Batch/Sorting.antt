-- ===== src/Session/Batch/Sorting.antt =====
-- Which conversations a batch of messages reports as new, and which as changed.
use mathlib.Core.Path.{subst}
use openim_sdk_core_rust.Base.{
  ℕ, String, Bool, false, ◌&&◌, ◌||◌, Option, none, some, List, [], ◌∷◌, any, ◌≡◌, sym, ap, ◌∙◌,
  arith, Option-cases, inl, inr, is_some, if◌then◌else◌, ◌==◌ as nat_beq,
}
use openim_sdk_core_rust.Base.Keys.{◌==◌, string_eq, pair_eq}
use openim_sdk_core_rust.Base.HashMap
use openim_sdk_core_rust.Base.HashMap.{HashMap, contains_key}
use openim_sdk_core_rust.Errors.{ok, ok_injective}
use openim_sdk_core_rust.Action.{>>=-ran, query}
use openim_sdk_core_rust.Domain.Message.Chat.{ChatMessage}
use openim_sdk_core_rust.Domain.Conversation.Info.{ConversationInfo}
use openim_sdk_core_rust.Domain.Conversation.Service.{
  ConversationService, apply_message, total_unread_count, get_conversation,
}
use openim_sdk_core_rust.Session.Batch.{
  Sorted, place, sort_messages, apply_messages_to_conversations, ConversationDispatchBatch,
}
use openim_sdk_core_rust.Session.Batch.Listing.{
  IsListing, into_values-IsListing, sort_messages-IsKeyed,
}
use openim_sdk_core_rust.Session.Batch.Owned.{IsOwned, apply_message-Answers}
use openim_sdk_core_rust.Session.Batch.Placing.{
  stored, IsSorted, Lasts, place_step, get_conversation_lem,
}

sort_messages-IsSorted :
    (owner : String) (ms : List ChatMessage) (before s t : ConversationService) (b d : Sorted)
    (touched : Bool) (id : String)
    → IsOwned (some owner) s
    → sort_messages owner ms b s ≡ (ok d, t)
    → IsSorted owner before s b touched id × Lasts owner before s id
    → IsSorted owner before t d (touched || any (λ m. m.conversation_id == id) ms) id
unfolding sort_messages
sort_messages-IsSorted owner [] before s t b d touched id owned ran h =
    let same = ok_injective (ap (λ q. q.0) ran) in
    let kept = subst (λ x. IsSorted owner before s x touched id) same h.0 in
    let now = subst (λ x. IsSorted owner before x d touched id) (ap (λ q. q.1) ran) kept in
    subst (λ x. IsSorted owner before t d x id) (ground arith) now
sort_messages-IsSorted owner (m ∷ rest) before s t b d touched id owned ran h =
    let (existing, read, next) =
      >>=-ran (query (get_conversation owner m.conversation_id)) _ s ran in
    let (c, done, last) = >>=-ran (apply_message owner m) _ s next in
    let found = get_conversation_lem owner m.conversation_id s existing read in
    elim (apply_message-Answers owner m s owned) [
      | inl (e, u, answered, is, held, here, frame) ↦
          let same : c ≡ e = ok_injective (sym done ∙ ap (λ q. q.0) answered) in
          let onward =
            subst
              (λ x.
                sort_messages owner rest (place (is_some existing) x b) (apply_message owner m s).1
                ≡ (ok d, t))
              same last in
          let from_u =
            subst (λ x. sort_messages owner rest (place (is_some existing) e b) x ≡ (ok d, t))
              (ap (λ q. q.1) answered) onward in
          let begun =
            subst (λ x. sort_messages owner rest (place (is_some x) e b) u ≡ (ok d, t)) (sym found)
              from_u in
          let step = place_step owner before s u b e m touched id is here frame h in
          subst (λ x. IsSorted owner before t d x id) (ground arith)
            (sort_messages-IsSorted owner rest before u t _ d (touched || m.conversation_id == id)
              id held begun step)
      | inr (_, failed) ↦ ground (arith, done, failed)
    ]

-- before any message
unsorted :
    (owner : String) (s : ConversationService) (id : String)
    → IsSorted owner s s (record { new_conversations = []; changed = [] }) false id
      × Lasts owner s s id
unfolding HashMap.get
unsorted owner s id = elim (Option-cases (stored owner id s)) [
  | inl absent ↦ ((ground (arith, absent), ground (arith, absent)), λ was. was)
  | inr (c, present) ↦ ((ground (arith, present), ground (arith, present)), λ was. was)
]

-- what is stored now for an identifier that had nothing stored before
abbrev pub begun :
    String → ConversationService → ConversationService → String → Option ConversationInfo
begun owner before now id = if is_some (stored owner id before) then none else stored owner id now

-- what is stored now for an identifier that had something stored and that a message is for
abbrev pub touched_by :
    String
    → List ChatMessage
    → ConversationService
    → ConversationService
    → String
    → Option ConversationInfo
touched_by owner ms before now id =
    if is_some (stored owner id before) && any (λ m. m.conversation_id == id) ms
    then stored owner id now
    else none

-- Messages applied to the conversations of a user, all of whose conversations stand under their own
-- keys: where that succeeds, the batch lists as new, each once, what is stored now for exactly the
-- identifiers that had nothing stored before and have now; as changed, each once, what is stored
-- now for exactly those that had something and that a message was for; and it gives the total of
-- unread messages exactly where that differs from the total before.
pub apply_messages_to_conversations-exact :
    (owner : String) (ms : List ChatMessage) (s t : ConversationService)
    (batch : ConversationDispatchBatch)
    → IsOwned (some owner) s
    → apply_messages_to_conversations owner ms s ≡ (ok batch, t)
    → (previous total : ℕ) × (total_unread_count owner s ≡ ok previous)
      × (total_unread_count owner t ≡ ok total)
      × (batch.total_unread_count ≡ (if nat_beq total previous then none else some total))
      × IsListing (begun owner s t) batch.new_conversations
      × IsListing (touched_by owner ms s t) batch.changed_conversations
unfolding apply_messages_to_conversations
apply_messages_to_conversations-exact owner ms s t batch owned ran =
    let empty : Sorted = record { new_conversations = []; changed = [] } in
    let (previous, before, next) = >>=-ran (query (total_unread_count owner)) _ s ran in
    let (b, done, last) = >>=-ran (sort_messages owner ms empty) _ s next in
    let (total, after, end) = >>=-ran (query (total_unread_count owner)) _ _ last in
    let left = ap (λ q. q.1) end in
    let ran_to =
      ap (λ x. (x, (sort_messages owner ms empty s).1)) done ∙ ap (λ x. (ok b, x)) left in
    let same = ok_injective (ap (λ q. q.0) end) in
    let (new, changed) = sort_messages-IsKeyed owner ms empty b s t ran_to ((tt, tt), (tt, tt)) in
    let sorted = λ (id : String).
      sort_messages-IsSorted owner ms s s t empty b false id owned ran_to (unsorted owner s id) in
    let listed_new = into_values-IsListing b.new_conversations new in
    let listed_changed = into_values-IsListing b.changed changed in
    (
      previous,
      total,
      before,
      ap (total_unread_count owner) (sym left) ∙ after,
      ap (λ x. x.total_unread_count) (sym same),
      subst (λ x. IsListing (begun owner s t) x.new_conversations) same
          (listed_new.0, λ id. listed_new.1 id ∙ (sorted id).0),
      subst (λ x. IsListing (touched_by owner ms s t) x.changed_conversations) same
          (listed_changed.0, λ id. listed_changed.1 id ∙ (sorted id).1),
    )
