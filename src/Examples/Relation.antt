-- ===== src/Examples/Relation.antt =====
-- The theorems about crates/openim-domain/src/relation.rs at a small service.
use openim_sdk_core_rust.Base.{true, [], ◌∷◌, ◌≡◌, refl, ap}
use openim_sdk_core_rust.Base.Int.{pos}
use openim_sdk_core_rust.Base.Keys.{string_eq, pair_eq}
use openim_sdk_core_rust.Base.HashMap
use openim_sdk_core_rust.Errors.{is_ok}
use openim_sdk_core_rust.Domain.Sync.Listing.{IsKeyed, empty-IsKeyed, insert-IsKeyed}
use openim_sdk_core_rust.Domain.Relation.{
  FriendInfo, BlacklistInfo, RelationService, new_service, friend_key, black_key, upsert_friend,
  sync_friends, sync_blacklist,
}
use openim_sdk_core_rust.Domain.Relation.Friends.{sync_friends-mirrors}
use openim_sdk_core_rust.Domain.Relation.Blacklist.{sync_blacklist-mirrors}
use openim_sdk_core_rust.Domain.Relation.Reachable.{
  Step, IsReachable, IsWellFormed, relation_service-IsWellFormed,
}

abbrev friend : FriendInfo
friend = record {
  owner_user_id = "ann";
  friend_user_id = "bob";
  nickname = "Bob";
  remark = "";
  face_url = "";
  updated_at = pos 1;
}

abbrev renamed : FriendInfo
renamed = record friend { nickname = "Robert" }

abbrev newcomer : FriendInfo
newcomer = record friend { friend_user_id = "cid" }

abbrev blocked : BlacklistInfo
blocked = record {
  owner_user_id = "ann";
  blocked_user_id = "eve";
  nickname = "Eve";
  face_url = "";
  updated_at = pos 1;
}

abbrev service : RelationService
service = record {
  friends = (("ann", "bob"), friend) ∷ [];
  blacklist = (("ann", "eve"), blocked) ∷ [];
}

service-friends : IsKeyed friend_key service.friends
unfolding HashMap.insert
service-friends = insert-IsKeyed friend_key friend [] (empty-IsKeyed friend_key)

service-blacklist : IsKeyed black_key service.blacklist
unfolding HashMap.insert
service-blacklist = insert-IsKeyed black_key blocked [] (empty-IsKeyed black_key)

sync_friends-mirrors_example : is_ok (sync_friends "ann" (renamed ∷ newcomer ∷ []) service).0 ≡ true
sync_friends-mirrors_example =
    ap (λ p. is_ok p.0)
      (sync_friends-mirrors "ann" (renamed ∷ newcomer ∷ []) service refl
        ((refl, refl), ((refl, refl), tt)) ((refl, tt), (tt, tt)) service-friends).2

sync_blacklist-mirrors_example : is_ok (sync_blacklist "ann" [] service).0 ≡ true
sync_blacklist-mirrors_example =
    ap (λ p. is_ok p.0) (sync_blacklist-mirrors "ann" [] service refl tt tt service-blacklist).2

relation_service-IsWellFormed_example : IsWellFormed (upsert_friend friend new_service).1
relation_service-IsWellFormed_example =
    relation_service-IsWellFormed (IsReachable.next IsReachable.start (Step.friend_upserted friend))
