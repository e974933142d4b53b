-- ===== src/Domain/Conversation/Unread.antt =====
-- The unread counts of one owner, and clearing them.
use openim_sdk_core_rust.Base.{
  ℕ, ◌+◌, ◌%◌, ◌^◌, ◌≡◌, refl, String, false, some, none, List, [], ◌∷◌, map, filter, arith,
  if◌then◌else◌,
}
use openim_sdk_core_rust.Base.Keys.{◌==◌, string_eq, pair_eq}
use openim_sdk_core_rust.Base.HashMap
use openim_sdk_core_rust.Base.HashMap.{values}
use openim_sdk_core_rust.Base.Text.{is_empty}
use openim_sdk_core_rust.Errors.{ok}
use openim_sdk_core_rust.Domain.Conversation.Info.{ConversationInfo}
use openim_sdk_core_rust.Domain.Conversation.Service.{
  ConversationService, Conversations, cleared, clear_all, mark_all_read, sum_u32,
  total_unread_count,
}

-- the unread counts of one owner
abbrev pub unread_counts : String → Conversations → List ℕ
unread_counts owner m =
    map ConversationInfo.unread_count (filter (λ c. c.owner_user_id == owner) (values m))

clear_all-sum :
    (owner : String) (sum : ℕ) (m : Conversations)
    → (clear_all owner sum m).0 ≡ sum_u32 sum (unread_counts owner m)
unfolding clear_all sum_u32
clear_all-sum owner sum [] = refl
clear_all-sum owner sum ((k, c) ∷ rest) = ground (
  arith,
  clear_all-sum owner ((sum + c.unread_count) % 2 ^ 32) rest,
  clear_all-sum owner sum rest,
)

clear_all-cleared :
    (owner : String) (sum : ℕ) (m : Conversations)
    → sum_u32 0 (unread_counts owner (clear_all owner sum m).1) ≡ 0
unfolding clear_all sum_u32
clear_all-cleared owner sum [] = refl
clear_all-cleared owner sum ((k, c) ∷ rest) = ground (
  arith,
  clear_all-cleared owner ((sum + c.unread_count) % 2 ^ 32) rest,
  clear_all-cleared owner sum rest,
)

-- one conversation after the clearing
abbrev pub cleared_for : String → ConversationInfo → ConversationInfo
cleared_for owner c = if c.owner_user_id == owner then cleared c else c

clear_all-get :
    (owner : String) (sum : ℕ) (m : Conversations) (k : String × String)
    → HashMap.get k (clear_all owner sum m).1
      ≡ (elim (HashMap.get k m) [ none ↦ none | some c ↦ some (cleared_for owner c) ])
unfolding clear_all HashMap.get
clear_all-get owner sum [] k = refl
clear_all-get owner sum ((j, c) ∷ rest) k = ground (
  arith,
  clear_all-get owner ((sum + c.unread_count) % 2 ^ 32) rest k,
  clear_all-get owner sum rest k,
)

-- For an owner with an identifier, `mark_all_read` succeeds and returns what `total_unread_count`
-- said before (both wrap as a `u32` does); afterwards the total is 0, each conversation of the
-- owner has its unread count cleared and is otherwise as before, and every other conversation is
-- as before.
pub mark_all_read-total_unread_count :
    (owner : String) (s : ConversationService)
    → is_empty owner ≡ false
    → (n : ℕ) × (t : ConversationService) × (mark_all_read owner s ≡ (ok n, t))
      × (total_unread_count owner s ≡ ok n)
      × (total_unread_count owner t ≡ ok 0)
      × ((k : String × String)
          → HashMap.get k t.conversations ≡ (elim (HashMap.get k s.conversations) [
            | none ↦ none
            | some c ↦ some (cleared_for owner c)
          ]))
unfolding mark_all_read total_unread_count
mark_all_read-total_unread_count owner s there = (
  (clear_all owner 0 s.conversations).0,
  record { conversations = (clear_all owner 0 s.conversations).1 },
  ground (arith, there),
  ground (arith, there, clear_all-sum owner 0 s.conversations),
  ground (arith, there, clear_all-cleared owner 0 s.conversations),
  clear_all-get owner 0 s.conversations,
)
