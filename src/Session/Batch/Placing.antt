-- ===== src/Session/Batch/Placing.antt =====
-- Where the loop over the messages puts the conversation of each.
use mathlib.Core.Path.{subst}
use openim_sdk_core_rust.Base.{
  String, Bool, true, false, ◌&&◌, ◌||◌, Option, none, some, ◌≡◌, sym, ap, ◌∙◌, arith, Option-cases,
  Bool-cases, inl, inr, is_some, if◌then◌else◌,
}
use openim_sdk_core_rust.Base.Keys.{◌==◌, string_eq, pair_eq, beq_refl}
use openim_sdk_core_rust.Base.HashMap
use openim_sdk_core_rust.Base.HashMap.{HashMap, contains_key}
use openim_sdk_core_rust.Errors.{ok, ok_injective, >>=-eq-ok}
use openim_sdk_core_rust.Domain.Message.Chat.{ChatMessage}
use openim_sdk_core_rust.Domain.Conversation.Info.{ConversationInfo, ensure_pair}
use openim_sdk_core_rust.Domain.Conversation.Service.{ConversationService, get_conversation}
use openim_sdk_core_rust.Session.Batch.{Sorted, place}
use openim_sdk_core_rust.Session.Batch.Owned.{IsOf}

abbrev pub stored : String → String → ConversationService → Option ConversationInfo
stored owner id s = HashMap.get (owner, id) s.conversations

-- the maps hold what is stored for an identifier: among the new ones where nothing was stored for
-- it at first, among the changed ones where something was, and a message was for it
abbrev pub IsSorted :
    String → ConversationService → ConversationService → Sorted → Bool → String → Type 0
IsSorted owner before now b touched id =
    (HashMap.get id b.new_conversations
      ≡ (if is_some (stored owner id before) then none else stored owner id now))
    × (HashMap.get id b.changed
        ≡ (if is_some (stored owner id before) && touched then stored owner id now else none))

-- what was stored at first is stored still
abbrev pub Lasts : String → ConversationService → ConversationService → String → Type 0
Lasts owner before now id =
    is_some (stored owner id before) ≡ true → is_some (stored owner id now) ≡ true

-- the conversation of a message
place-same :
    (owner : String) (before s t : ConversationService) (b : Sorted) (c : ConversationInfo)
    (touched : Bool) (id : String)
    → c.conversation_id ≡ id
    → IsSorted owner before s b touched id
    → Lasts owner before s id
    → stored owner id t ≡ some c
    → IsSorted owner before t (place (is_some (stored owner id s)) c b) true id
unfolding place
place-same owner before s t b c touched id same h lasts here =
    let grown = HashMap.get-insert c.conversation_id id c b.new_conversations in
    let more = HashMap.get-insert c.conversation_id id c b.changed in
    let less = HashMap.get-remove c.conversation_id id b.changed in
    let key = beq_refl id in
    let at = ap (λ x. HashMap.get x b.new_conversations) same in
    let eq = ap (λ x. x == id) same in
    elim (Option-cases (stored owner id s)) [
      | inl absent ↦ elim (Option-cases (stored owner id before)) [
        | inl fresh ↦ ground (arith, absent, fresh, grown, less, eq, key, here)
        | inr (d, old) ↦ ground (arith, absent, old, lasts)
      ]
      | inr (d, present) ↦ elim (Option-cases (stored owner id before)) [
        | inl fresh ↦ ground (arith, present, fresh, grown, more, eq, key, here, h.0, h.1, at)
        | inr (o, old) ↦ ground (arith, present, old, grown, more, eq, key, here, h.0, h.1, at)
      ]
    ]

-- every other conversation
place-other :
    (owner : String) (before s t : ConversationService) (b : Sorted) (c : ConversationInfo)
    (existed touched : Bool) (id : String)
    → (c.conversation_id == id) ≡ false
    → IsSorted owner before s b touched id
    → stored owner id t ≡ stored owner id s
    → IsSorted owner before t (place existed c b) touched id
unfolding place
place-other owner before s t b c true touched id other h frame =
    let grown = HashMap.get-insert c.conversation_id id c b.new_conversations in
    let more = HashMap.get-insert c.conversation_id id c b.changed in
    elim (Bool-cases (contains_key c.conversation_id b.new_conversations)) [
      | inl held ↦ ground (arith, held, grown, more, other, h.0, h.1, frame)
      | inr lacks ↦ ground (arith, lacks, grown, more, other, h.0, h.1, frame)
    ]
place-other owner before s t b c false touched id other h frame =
    let grown = HashMap.get-insert c.conversation_id id c b.new_conversations in
    let less = HashMap.get-remove c.conversation_id id b.changed in
    ground (arith, grown, less, other, h.0, h.1, frame)

pub get_conversation_lem :
    (owner id : String) (s : ConversationService) (found : Option ConversationInfo)
    → get_conversation owner id s ≡ ok found
    → stored owner id s ≡ found
unfolding get_conversation
get_conversation_lem owner id s found h =
    let (_, _, same) = >>=-eq-ok (ensure_pair owner id) _ h in ok_injective same

-- one message, for any identifier
pub place_step :
    (owner : String) (before s t : ConversationService) (b : Sorted) (c : ConversationInfo)
    (m : ChatMessage) (touched : Bool) (id : String)
    → IsOf (some owner) (owner, m.conversation_id) c
    → stored owner m.conversation_id t ≡ some c
    → ((k : String × String)
        → ((owner, m.conversation_id) == k) ≡ false
        → HashMap.get k t.conversations ≡ HashMap.get k s.conversations)
    → IsSorted owner before s b touched id × Lasts owner before s id
    → IsSorted owner before t
        (place (is_some (stored owner m.conversation_id s)) c b)
        (touched || m.conversation_id == id)
        id
      × Lasts owner before t id
place_step owner before s t b c m touched id is here frame (h, lasts) =
    elim (Bool-cases (m.conversation_id == id)) [
      | inl same ↦
          let e = (string_eq.beq_iff m.conversation_id id).0 same in
          let found : stored owner id t ≡ some c = ap (λ x. stored owner x t) (sym e) ∙ here in
          (
            subst
                (λ x.
                  IsSorted owner before t (place (is_some (stored owner x s)) c b)
                    (touched || m.conversation_id == id) id)
                (sym e)
                (subst (λ x. IsSorted owner before t (place (is_some (stored owner id s)) c b) x id)
                  (ground (arith, same))
                  (place-same owner before s t b c touched id (is.2 ∙ e) h lasts found)),
            λ _. ap is_some found,
          )
      | inr other ↦
          let apart : pair_eq.beq (owner, m.conversation_id) (owner, id) ≡ false =
            ground (arith, other) in
          let kept = frame (owner, id) apart in
          (
            subst
                (λ x.
                  IsSorted owner before t (place (is_some (stored owner m.conversation_id s)) c b) x
                    id)
                (ground (arith, other))
                (place-other owner before s t b c (is_some (stored owner m.conversation_id s))
                  touched id (ap (λ x. x == id) is.2 ∙ other) h kept),
            λ was. ap is_some kept ∙ lasts was,
          )
    ]
