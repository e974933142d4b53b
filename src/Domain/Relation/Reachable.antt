-- ===== src/Domain/Relation/Reachable.antt =====
-- The states that the methods of `RelationService` lead to.
use openim_sdk_core_rust.Base.{String, List}
use openim_sdk_core_rust.Base.Keys.{string_eq, pair_eq}
use openim_sdk_core_rust.Errors.{each, ◌>>◌}
use openim_sdk_core_rust.Action.{lift-keeps}
use openim_sdk_core_rust.Domain.Equality.{equal}
use openim_sdk_core_rust.Sync.Diff.{default_options}
use openim_sdk_core_rust.Domain.Sync.Listing.{
  IsKeyed, empty-IsKeyed, insert-IsKeyed, remove-IsKeyed,
}
use openim_sdk_core_rust.Domain.Sync.Owned.{sync_items-IsKeyed}
use openim_sdk_core_rust.Domain.Relation.{
  FriendInfo, FriendInfo_discrete, BlacklistInfo, BlacklistInfo_discrete, RelationService,
  new_service, friend_key, black_key, by_friend, by_blocked, upsert_friend, delete_friend,
  sync_friends, upsert_blacklist, delete_blacklist, sync_blacklist, ensure_pair, ensure_owner,
  ensure_user_id, all_friends, all_blacklist,
}
use openim_sdk_core_rust.Domain.Relation.Friends.{friend_equal_sound}
use openim_sdk_core_rust.Domain.Relation.Blacklist.{black_equal_sound}

-- one call of a method that may write, however it ends
pub data Step : RelationService → RelationService → Type 0 where
  friend_upserted : {s : RelationService} (f : FriendInfo) → Step s (upsert_friend f s).1
  friend_deleted :
      {s : RelationService} (owner name : String) → Step s (delete_friend owner name s).1
  friends_synced :
      {s : RelationService} (owner : String) (server : List FriendInfo)
      → Step s (sync_friends owner server s).1
  black_upserted : {s : RelationService} (b : BlacklistInfo) → Step s (upsert_blacklist b s).1
  black_deleted :
      {s : RelationService} (owner name : String) → Step s (delete_blacklist owner name s).1
  blacklist_synced :
      {s : RelationService} (owner : String) (server : List BlacklistInfo)
      → Step s (sync_blacklist owner server s).1

pub data IsReachable : RelationService → Type 0 where
  start : IsReachable new_service
  next : {s t : RelationService} → IsReachable s → Step s t → IsReachable t

pub record IsWellFormed (s : RelationService) : Type 0 where
  pub friends_keyed : IsKeyed friend_key s.friends
  pub blacklist_keyed : IsKeyed black_key s.blacklist

Step-IsWellFormed : {s t : RelationService} → Step s t → IsWellFormed s → IsWellFormed t
unfolding upsert_friend delete_friend sync_friends upsert_blacklist delete_blacklist sync_blacklist
Step-IsWellFormed {s} (Step.friend_upserted f) w =
    lift-keeps IsWellFormed (ensure_pair f.owner_user_id f.friend_user_id) _ s w (λ _ _. record {
      friends_keyed = insert-IsKeyed friend_key f s.friends w.friends_keyed;
      blacklist_keyed = w.blacklist_keyed;
    })
Step-IsWellFormed {s} (Step.friend_deleted owner name) w =
    lift-keeps IsWellFormed (ensure_pair owner name) _ s w (λ _ _. record {
      friends_keyed = remove-IsKeyed friend_key (owner, name) s.friends w.friends_keyed;
      blacklist_keyed = w.blacklist_keyed;
    })
Step-IsWellFormed {s} (Step.friends_synced owner server) w =
    lift-keeps IsWellFormed (ensure_user_id owner "owner_user_id") _ s w (λ _ _.
      lift-keeps IsWellFormed
        (each
          (λ f. ensure_owner owner f.owner_user_id >> ensure_pair f.owner_user_id f.friend_user_id)
          server)
        _ s w
        (λ _ _. lift-keeps IsWellFormed (all_friends owner s) _ s w (λ local _. record {
          friends_keyed =
              sync_items-IsKeyed FriendInfo.owner_user_id FriendInfo.friend_user_id by_friend
                (equal FriendInfo_discrete) friend_equal_sound default_options owner server local
                s.friends w.friends_keyed;
          blacklist_keyed = w.blacklist_keyed;
        })))
Step-IsWellFormed {s} (Step.black_upserted b) w =
    lift-keeps IsWellFormed (ensure_pair b.owner_user_id b.blocked_user_id) _ s w (λ _ _. record {
      friends_keyed = w.friends_keyed;
      blacklist_keyed = insert-IsKeyed black_key b s.blacklist w.blacklist_keyed;
    })
Step-IsWellFormed {s} (Step.black_deleted owner name) w =
    lift-keeps IsWellFormed (ensure_pair owner name) _ s w (λ _ _. record {
      friends_keyed = w.friends_keyed;
      blacklist_keyed = remove-IsKeyed black_key (owner, name) s.blacklist w.blacklist_keyed;
    })
Step-IsWellFormed {s} (Step.blacklist_synced owner server) w =
    lift-keeps IsWellFormed (ensure_user_id owner "owner_user_id") _ s w (λ _ _.
      lift-keeps IsWellFormed
        (each
          (λ b. ensure_owner owner b.owner_user_id >> ensure_pair b.owner_user_id b.blocked_user_id)
          server)
        _ s w
        (λ _ _. lift-keeps IsWellFormed (all_blacklist owner s) _ s w (λ local _. record {
          friends_keyed = w.friends_keyed;
          blacklist_keyed =
              sync_items-IsKeyed BlacklistInfo.owner_user_id BlacklistInfo.blocked_user_id
                by_blocked (equal BlacklistInfo_discrete) black_equal_sound default_options owner
                server local s.blacklist w.blacklist_keyed;
        })))

-- In every state that the methods lead to from a new service, whatever they are called with and
-- however the calls end, each friend and each blacklist entry stands once, under its own pair.
pub relation_service-IsWellFormed : {s : RelationService} → IsReachable s → IsWellFormed s
relation_service-IsWellFormed IsReachable.start = record {
  friends_keyed = empty-IsKeyed friend_key;
  blacklist_keyed = empty-IsKeyed black_key;
}
relation_service-IsWellFormed (IsReachable.next before step) =
    Step-IsWellFormed step (relation_service-IsWellFormed before)
