-- ===== src/Session/Batch/Listing.antt =====
-- The conversations that a `BTreeMap` hands out: each once, under its identifier.
use mathlib.Core.Path.{subst}
use Prim.Native.String.{compare}
use openim_sdk_core_rust.Base.{
  not, is_some, String, Bool, true, false, Option, none, some, List, [], ◌∷◌, map, find, ◌≡◌, refl,
  ap, ◌∙◌, arith, All, Bool-cases, inl, inr, if◌then◌else◌, Ordering,
}
use openim_sdk_core_rust.Base.Keys.{◌==◌, string_eq}
use openim_sdk_core_rust.Base.HashMap
use openim_sdk_core_rust.Base.HashMap.{HashMap, IsDistinct, contains_key}
use openim_sdk_core_rust.Base.Sort.{insert_by, sort_by, All-sort_by}
use openim_sdk_core_rust.Domain.Conversation.Info.{ConversationInfo}
use openim_sdk_core_rust.Errors.{ok, ok_injective}
use openim_sdk_core_rust.Action.{>>=-ran, query}
use openim_sdk_core_rust.Domain.Message.Chat.{ChatMessage}
use openim_sdk_core_rust.Domain.Conversation.Service.{
  ConversationService, apply_message, get_conversation,
}
use openim_sdk_core_rust.Session.Batch.{sort_messages, Sorted, place, into_values}

abbrev pub listed : String → List ConversationInfo → Option ConversationInfo
listed id = find (λ c. c.conversation_id == id)

-- no two of the conversations have the same identifier
abbrev pub IsOnce : List ConversationInfo → Type 0
IsOnce [] = Unit
IsOnce (c ∷ cs) = (listed c.conversation_id cs ≡ none) × IsOnce cs

-- a list of exactly the conversations that a function gives, each once
abbrev pub IsListing : (String → Option ConversationInfo) → List ConversationInfo → Type 0
IsListing given cs = IsOnce cs × ((id : String) → listed id cs ≡ given id)

-- each conversation of a map stands once, under its own identifier
abbrev IsOwn : String × ConversationInfo → Type 0
IsOwn p = p.1.conversation_id ≡ p.0

abbrev pub IsKeyed : HashMap String ConversationInfo → Type 0
IsKeyed m = IsDistinct m × All (λ p. p.1.conversation_id ≡ p.0) m

module _ {V : Type 0} (cmp : String × V → String × V → Ordering) where
  get-insert_by :
      (p : String × V) (m : HashMap String V) (k : String)
      → HashMap.get p.0 m ≡ none
      → HashMap.get k (insert_by cmp p m) ≡ (if p.0 == k then some p.1 else HashMap.get k m)
  unfolding HashMap.get insert_by
  get-insert_by p [] k h = ground arith
  get-insert_by p (q ∷ m) k h = ground (
    arith,
    get-insert_by p m k,
    string_eq.beq_iff q.0 k,
    string_eq.beq_iff p.0 k,
    string_eq.beq_iff q.0 p.0,
  )

  insert_by-IsDistinct :
      (p : String × V) (m : HashMap String V)
      → HashMap.get p.0 m ≡ none
      → IsDistinct m
      → IsDistinct (insert_by cmp p m)
  unfolding HashMap.get insert_by
  insert_by-IsDistinct p [] h d = (refl, tt)
  insert_by-IsDistinct p (q ∷ m) h d = ground (
    arith,
    get-insert_by p m q.0,
    insert_by-IsDistinct p m,
    string_eq.beq_iff p.0 q.0,
    string_eq.beq_iff q.0 p.0,
  )

  sort_by-IsDistinct :
      (m : HashMap String V)
      → IsDistinct m
      → IsDistinct (sort_by cmp m)
        × ((k : String) → HashMap.get k (sort_by cmp m) ≡ HashMap.get k m)
  unfolding HashMap.get sort_by
  sort_by-IsDistinct [] d = (tt, λ k. refl)
  sort_by-IsDistinct ((j, v) ∷ m) d =
      let (rest, same) = sort_by-IsDistinct m d.1 in
      let fresh = same j ∙ d.0 in
      (
        insert_by-IsDistinct (j, v) (sort_by cmp m) fresh rest,
        λ k. get-insert_by (j, v) (sort_by cmp m) k fresh ∙ ground (arith, same k),
      )

listed-map :
    (m : HashMap String ConversationInfo) (id : String)
    → All (λ p. p.1.conversation_id ≡ p.0) m
    → listed id (map (λ p. p.1) m) ≡ HashMap.get id m
unfolding HashMap.get
listed-map [] id own = refl
listed-map ((j, c) ∷ m) id own = ground (arith, listed-map m id own.1, ap (λ x. x == id) own.0)

map-IsOnce : (m : HashMap String ConversationInfo) → IsKeyed m → IsOnce (map (λ p. p.1) m)
map-IsOnce [] h = tt
map-IsOnce ((j, c) ∷ m) h = (
  listed-map m c.conversation_id h.1.1 ∙ ap (λ x. HashMap.get x m) h.1.0 ∙ h.0.0,
  map-IsOnce m (h.0.1, h.1.1),
)

-- what is handed out of a map whose conversations stand under their own identifiers
pub into_values-IsListing :
    (m : HashMap String ConversationInfo)
    → IsKeyed m
    → IsListing (λ id. HashMap.get id m) (into_values m)
into_values-IsListing m (distinct, own) =
    let order = λ (p q : String × ConversationInfo). compare p.0 q.0 in
    let (once, same) = sort_by-IsDistinct order m distinct in
    let kept = All-sort_by order IsOwn m own in
    (
      map-IsOnce (sort_by order m) (once, kept),
      λ id. listed-map (sort_by order m) id kept ∙ same id,
    )

insert-IsKeyed :
    (c : ConversationInfo) (m : HashMap String ConversationInfo)
    → IsKeyed m
    → IsKeyed (HashMap.insert c.conversation_id c m)
insert-IsKeyed c m (distinct, own) = (
  HashMap.insert-IsDistinct c.conversation_id c m distinct,
  HashMap.All-insert (λ k v. v.conversation_id ≡ k) c.conversation_id c m refl own,
)

-- the two maps stay so where the loop puts a conversation
pub place-IsKeyed :
    (existed : Bool) (c : ConversationInfo) (b : Sorted)
    → IsKeyed b.new_conversations × IsKeyed b.changed
    → IsKeyed (place existed c b).new_conversations × IsKeyed (place existed c b).changed
unfolding place HashMap.remove
place-IsKeyed true c b (new, old) =
    elim (Bool-cases (contains_key c.conversation_id b.new_conversations)) [
      | inl held ↦ rw held (insert-IsKeyed c b.new_conversations new, old)
      | inr lacks ↦ rw lacks (new, insert-IsKeyed c b.changed old)
    ]
place-IsKeyed false c b (new, old) = (
  insert-IsKeyed c b.new_conversations new,
  (
    HashMap.remove-IsDistinct c.conversation_id b.changed old.0,
    HashMap.All-filter IsOwn (λ p. not (p.0 == c.conversation_id)) b.changed old.1,
  ),
)

-- the maps that the loop leaves
pub sort_messages-IsKeyed :
    (owner : String) (ms : List ChatMessage) (b d : Sorted) (s t : ConversationService)
    → sort_messages owner ms b s ≡ (ok d, t)
    → IsKeyed b.new_conversations × IsKeyed b.changed
    → IsKeyed d.new_conversations × IsKeyed d.changed
unfolding sort_messages
sort_messages-IsKeyed owner [] b d s t ran h =
    subst (λ x. IsKeyed x.new_conversations × IsKeyed x.changed) (ok_injective (ap (λ q. q.0) ran))
      h
sort_messages-IsKeyed owner (m ∷ rest) b d s t ran h =
    let (existing, read, next) =
      >>=-ran (query (get_conversation owner m.conversation_id)) _ s ran in
    let (c, done, last) = >>=-ran (apply_message owner m) _ s next in
    sort_messages-IsKeyed owner rest (place (is_some existing) c b) d _ t last
      (place-IsKeyed (is_some existing) c b h)
