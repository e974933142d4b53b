-- ===== src/Session/Batch/Owned.antt =====
-- Whose conversations the messages of a user make.
use mathlib.Core.Path.{subst}
use openim_sdk_core_rust.Base.{
  ◌⊎◌, String, Bool, true, false, Option, none, some, List, [], ◌∷◌, ◌≡◌, refl, sym, ap, ◌∙◌, arith,
  All, Option-cases, Bool-cases, inl, inr, is_some, if◌then◌else◌,
}
use openim_sdk_core_rust.Base.Keys.{◌==◌, string_eq, pair_eq, beq_refl}
use openim_sdk_core_rust.Base.HashMap
use openim_sdk_core_rust.Base.HashMap.{HashMap}
use openim_sdk_core_rust.Base.Text.{is_empty}
use openim_sdk_core_rust.Errors.{
  is_ok, ok, err, panic, Result, ok_injective, >>=-eq-ok, ensure_not_empty,
}
use openim_sdk_core_rust.Action.{
  Action, pure, modify, lift-ok, >>=-failed, lift-keeps, >>=-keeps, ◌>>=◌, ◌>>◌,
}
use openim_sdk_core_rust.Domain.Message.Chat.{ChatMessage}
use openim_sdk_core_rust.Domain.Conversation.Info.{
  ConversationInfo, from_message, conversation_target, applied, raise_max_seq, replace_latest,
  should_replace_latest, is_unread,
}
use openim_sdk_core_rust.Domain.Conversation.Service.{
  ConversationService, on_conversations, find_or_insert, apply_message, total_unread_count,
  get_conversation,
}
use openim_sdk_core_rust.Session.Batch.{
  Sorted, place, sort_messages, apply_messages_to_conversations,
}

-- a conversation that stands under its own key, and is of the user
abbrev pub IsOf : Option String → String × String → ConversationInfo → Type 0
IsOf user key c = (user ≡ some key.0) × (c.owner_user_id ≡ key.0) × (c.conversation_id ≡ key.1)

abbrev pub IsOwned : Option String → ConversationService → Type 0
IsOwned user s = All (λ p. IsOf user p.0 p.1) s.conversations

from_message-IsOf :
    (owner : String) (m : ChatMessage) (c : ConversationInfo)
    → from_message owner m ≡ ok c
    → IsOf (some owner) (owner, m.conversation_id) c
unfolding from_message
from_message-IsOf owner m c made =
    let (u, _, rest) = >>=-eq-ok (ensure_not_empty owner "owner_user_id") _ made in
    let (target, _, built) = >>=-eq-ok (conversation_target owner m) _ rest in
    let e = ok_injective built in
    (refl, sym (ap (λ x. x.owner_user_id) e), sym (ap (λ x. x.conversation_id) e))

-- conversations of the same user that stand under the same key
abbrev Alike : ConversationInfo → ConversationInfo → Type 0
Alike c d = (d.owner_user_id ≡ c.owner_user_id) × (d.conversation_id ≡ c.conversation_id)

Alike-if :
    (test : Bool) (c d e : ConversationInfo)
    → Alike c e
    → Alike e d
    → Alike c (if test then d else e)
Alike-if true c d e h k = (k.0 ∙ h.0, k.1 ∙ h.1)
Alike-if false c d e h k = h

pub applied-Alike :
    (owner : String) (m : ChatMessage) (c : ConversationInfo) → Alike c (applied owner m c)
unfolding applied
applied-Alike owner m c =
    let raised = raise_max_seq m c in
    let replaced = replace_latest m raised in
    Alike-if (is_unread owner m) c _ replaced
      (Alike-if (should_replace_latest raised m) c _ raised
        (Alike-if _ c _ c (refl, refl) (refl, refl)) (refl, refl))
      (refl, refl)

applied-IsOf :
    (owner : String) (m : ChatMessage) (key : String × String) (c : ConversationInfo)
    → IsOf (some owner) key c
    → IsOf (some owner) key (applied owner m c)
applied-IsOf owner m key c (of, by_, at) =
    let same = applied-Alike owner m c in (of, same.0 ∙ by_, same.1 ∙ at)

-- what a call for a message may do: hand out a conversation that stands under the message's key,
-- the others as they were, or fail and change nothing
abbrev pub Answers :
    String
    → ChatMessage
    → ConversationService
    → Result ConversationInfo × ConversationService
    → Type 0
Answers owner m s ran =
    ((c : ConversationInfo) × (t : ConversationService) × (ran ≡ (ok c, t))
      × IsOf (some owner) (owner, m.conversation_id) c
      × IsOwned (some owner) t
      × (HashMap.get (owner, m.conversation_id) t.conversations ≡ some c)
      × ((k : String × String)
          → ((owner, m.conversation_id) == k) ≡ false
          → HashMap.get k t.conversations ≡ HashMap.get k s.conversations))
    ⊎ (ran.1 ≡ s) × (is_ok ran.0 ≡ false)

found-Answers :
    (owner : String) (m : ChatMessage) (s : ConversationService) (d : ConversationInfo)
    → IsOwned (some owner) s
    → HashMap.get (owner, m.conversation_id) s.conversations ≡ some d
    → Answers owner m s (find_or_insert owner m s)
unfolding find_or_insert
found-Answers owner m s d h found = inl (
  d,
  s,
  ground (arith, found),
  HashMap.All-get (IsOf (some owner)) s.conversations (owner, m.conversation_id) h found,
  h,
  found,
  λ k other. refl,
)

insert-frame :
    (key : String × String) (c : ConversationInfo) (s : ConversationService) (k : String × String)
    → (key == k) ≡ false
    → HashMap.get k (HashMap.insert key c s.conversations) ≡ HashMap.get k s.conversations
insert-frame key c s k other = ground (arith, HashMap.get-insert key k c s.conversations, other)

insert-here :
    (key : String × String) (c : ConversationInfo) (s : ConversationService)
    → HashMap.get key (HashMap.insert key c s.conversations) ≡ some c
insert-here key c s = ground (arith, HashMap.get-insert key key c s.conversations, beq_refl key)

fresh-Answers :
    (owner : String) (m : ChatMessage) (s : ConversationService) (made : Result ConversationInfo)
    → IsOwned (some owner) s
    → HashMap.get (owner, m.conversation_id) s.conversations ≡ none
    → from_message owner m ≡ made
    → Answers owner m s (find_or_insert owner m s)
unfolding find_or_insert
fresh-Answers owner m s (ok c) h fresh made =
    let is = from_message-IsOf owner m c made in
    inl (
      c,
      record { conversations = HashMap.insert (owner, m.conversation_id) c s.conversations },
      ground (arith, fresh, made),
      is,
      HashMap.All-insert (IsOf (some owner)) (owner, m.conversation_id) c s.conversations is h,
      insert-here (owner, m.conversation_id) c s,
      insert-frame (owner, m.conversation_id) c s,
    )
fresh-Answers owner m s (err e) h fresh made =
    inr (ground (arith, fresh, made), ground (arith, fresh, made))
fresh-Answers owner m s panic h fresh made =
    inr (ground (arith, fresh, made), ground (arith, fresh, made))

find_or_insert-Answers :
    (owner : String) (m : ChatMessage) (s : ConversationService)
    → IsOwned (some owner) s
    → Answers owner m s (find_or_insert owner m s)
find_or_insert-Answers owner m s h =
    elim (Option-cases (HashMap.get (owner, m.conversation_id) s.conversations)) [
      | inl fresh ↦ fresh-Answers owner m s (from_message owner m) h fresh refl
      | inr (d, found) ↦ found-Answers owner m s d h found
    ]

-- what `apply_message` does with the place that it found
abbrev store_applied :
    String → ChatMessage → ConversationInfo → Action ConversationService ConversationInfo
store_applied owner m c = do
  on_conversations (modify (HashMap.insert (owner, m.conversation_id) (applied owner m c)))
  pure (applied owner m c)

-- `apply_message` answers so, and stores what it hands out
pub apply_message-Answers :
    (owner : String) (m : ChatMessage) (s : ConversationService)
    → IsOwned (some owner) s
    → Answers owner m s (apply_message owner m s)
unfolding apply_message
apply_message-Answers owner m s h = elim (Bool-cases (is_empty owner)) [
  | inl nobody ↦ inr (ground (arith, nobody), ground (arith, nobody))
  | inr someone ↦ elim (find_or_insert-Answers owner m s h) [
    | inl (c, t, ran, is, owned, here, frame) ↦
        let next = applied-IsOf owner m (owner, m.conversation_id) c is in
        inl (
          applied owner m c,
          record {
            conversations =
                HashMap.insert (owner, m.conversation_id) (applied owner m c) t.conversations;
          },
          ground (arith, someone, ran),
          next,
          HashMap.All-insert (IsOf (some owner)) (owner, m.conversation_id) (applied owner m c)
              t.conversations next owned,
          insert-here (owner, m.conversation_id) (applied owner m c) t,
          λ k other.
              insert-frame (owner, m.conversation_id) (applied owner m c) t k other ∙ frame k other,
        )
    | inr (same, failed) ↦
        let begun =
          lift-ok (ensure_not_empty owner "owner_user_id")
            (λ _. ◌>>=◌ (find_or_insert owner m) (store_applied owner m)) s
            (ground (arith, someone)) in
        let ended = >>=-failed (find_or_insert owner m) (store_applied owner m) s failed in
        inr (ap (λ r. r.1) begun ∙ ended.0 ∙ same, ap (λ r. is_ok r.0) begun ∙ ended.1)
  ]
]

apply_message-IsOwned :
    (owner : String) (m : ChatMessage) (s : ConversationService)
    → IsOwned (some owner) s
    → IsOwned (some owner) (apply_message owner m s).1
apply_message-IsOwned owner m s h = elim (apply_message-Answers owner m s h) [
  | inl (c, t, ran, is, owned, here, frame) ↦ subst (λ q. IsOwned (some owner) q.1) (sym ran) owned
  | inr (same, failed) ↦ subst (IsOwned (some owner)) (sym same) h
]

sort_messages-IsOwned :
    (owner : String) (ms : List ChatMessage) (b : Sorted) (s : ConversationService)
    → IsOwned (some owner) s
    → IsOwned (some owner) (sort_messages owner ms b s).1
unfolding sort_messages
sort_messages-IsOwned owner [] b s h = h
sort_messages-IsOwned owner (m ∷ rest) b s h =
    lift-keeps (IsOwned (some owner)) (get_conversation owner m.conversation_id s) _ s h
      (λ existing _.
        >>=-keeps (IsOwned (some owner)) (apply_message owner m) _ s
          (apply_message-IsOwned owner m s h)
          (λ c t. sort_messages-IsOwned owner rest (place (is_some existing) c b) t))

-- the conversations that messages are applied to stay those of one user
pub apply_messages_to_conversations-IsOwned :
    (owner : String) (ms : List ChatMessage) (s : ConversationService)
    → IsOwned (some owner) s
    → IsOwned (some owner) (apply_messages_to_conversations owner ms s).1
unfolding apply_messages_to_conversations
apply_messages_to_conversations-IsOwned owner ms s h =
    lift-keeps (IsOwned (some owner)) (total_unread_count owner s) _ s h (λ previous _.
      >>=-keeps (IsOwned (some owner)) (sort_messages owner ms _) _ s
        (sort_messages-IsOwned owner ms _ s h)
        (λ b t k.
          lift-keeps (IsOwned (some owner)) (total_unread_count owner t) _ t k (λ total _. k)))
