-- ===== src/Domain/Conversation/Info.antt =====
-- crates/openim-domain/src/conversation.rs: `ConversationInfo`, its checks, and how a message
-- changes it.
use native.Mathlib.Decide.{ℕ_discrete}
use Prim.Native.String.{compare}
use openim_sdk_core_rust.Base.{
  ℕ, ◌+◌, ◌-◌, ◌^◌, min, String, Bool, true, false, not, ◌&&◌, ◌||◌, Ordering, Option, some, none,
  if◌then◌else◌,
}
use openim_sdk_core_rust.Base.Int.{ℤ, pos, ltb_ℤ, leb_ℤ, eqb_ℤ, compare_ℤ}
use openim_sdk_core_rust.Base.Keys.{◌==◌, string_eq}
use openim_sdk_core_rust.Base.Sort.{then_with}
use openim_sdk_core_rust.Errors.{Result, ok, ensure_not_empty, ◌>>=◌, ◌>>◌}
use openim_sdk_core_rust.Types.{SessionType}
use openim_sdk_core_rust.Domain.Equality.{String_discrete, ℤ_discrete}
use openim_sdk_core_rust.Domain.Message.Chat.{
  ChatMessage, MessageSnapshot, snapshot, SessionType_discrete, MessageContentType_discrete,
}

pub record ConversationInfo : Type 0 where
  pub owner_user_id : String
  pub conversation_id : String
  pub conversation_type : SessionType
  pub user_id : String
  pub group_id : String
  pub show_name : String
  pub face_url : String
  pub recv_msg_opt : ℤ
  pub unread_count : ℕ
  pub latest_message : Option MessageSnapshot
  pub latest_msg_send_time : ℤ
  pub draft_text : String
  pub draft_text_time : ℤ
  pub is_pinned : Bool
  pub max_seq : ℤ
  pub min_seq : ℤ
  pub ex : String

pub MessageSnapshot_discrete : Discrete MessageSnapshot
MessageSnapshot_discrete = hlevel (String_discrete, ℤ_discrete, MessageContentType_discrete)

unfoldable pub ConversationInfo_discrete : Discrete ConversationInfo
ConversationInfo_discrete =
    hlevel (ℕ_discrete, String_discrete, ℤ_discrete, SessionType_discrete, MessageSnapshot_discrete)

-- the user on the other side
abbrev pub other_user : String → ChatMessage → String
other_user owner_user_id m = if m.send_id == owner_user_id then m.recv_id else m.send_id

-- `user_id`, `group_id` and `show_name`
abbrev pub user_target : String → ChatMessage → Result (String × String × String)
user_target owner_user_id m =
    ensure_not_empty (other_user owner_user_id m) "user_id"
    >> ok (other_user owner_user_id m, "", other_user owner_user_id m)

abbrev pub group_target : ChatMessage → Result (String × String × String)
group_target m = ensure_not_empty m.group_id "group_id" >> ok ("", m.group_id, m.group_id)

unfoldable pub conversation_target : String → ChatMessage → Result (String × String × String)
conversation_target owner_user_id m = elim m.session_type [
  | SessionType.single ↦ user_target owner_user_id m
  | SessionType.write_group ↦ group_target m
  | SessionType.read_group ↦ group_target m
  | SessionType.notification ↦ user_target owner_user_id m
]

unfoldable pub from_message : String → ChatMessage → Result ConversationInfo
from_message owner_user_id m = do
  ensure_not_empty owner_user_id "owner_user_id"
  (user_id, group_id, show_name) ← conversation_target owner_user_id m
  ok (record {
    owner_user_id = owner_user_id;
    conversation_id = m.conversation_id;
    conversation_type = m.session_type;
    user_id = user_id;
    group_id = group_id;
    show_name = show_name;
    face_url = "";
    recv_msg_opt = pos 0;
    unread_count = 0;
    latest_message = none;
    latest_msg_send_time = pos 0;
    draft_text = "";
    draft_text_time = pos 0;
    is_pinned = false;
    max_seq = pos 0;
    min_seq = pos 0;
    ex = "";
  })

-- whether a message is newer than the latest one: by sequence number and time where both have
-- a sequence number, by time alone otherwise
abbrev pub is_newer : MessageSnapshot → ChatMessage → Bool
is_newer latest m =
    if ltb_ℤ (pos 0) m.seq && ltb_ℤ (pos 0) latest.seq
    then ltb_ℤ latest.seq m.seq || eqb_ℤ m.seq latest.seq && leb_ℤ latest.send_time m.send_time
    else leb_ℤ latest.send_time m.send_time

unfoldable pub should_replace_latest : ConversationInfo → ChatMessage → Bool
should_replace_latest c m = elim c.latest_message [ none ↦ true | some latest ↦ is_newer latest m ]

-- `u32::saturating_add(1)`
abbrev pub saturating_suc : ℕ → ℕ
saturating_suc n = min (n + 1) (2 ^ 32 - 1)

abbrev pub is_unread : String → ChatMessage → Bool
is_unread owner_user_id m = not (m.send_id == owner_user_id) && not m.is_read && not m.revoked

-- what `apply_message` writes into the conversation
abbrev pub raise_max_seq : ChatMessage → ConversationInfo → ConversationInfo
raise_max_seq m c = if ltb_ℤ c.max_seq m.seq then record c { max_seq = m.seq } else c

abbrev pub replace_latest : ChatMessage → ConversationInfo → ConversationInfo
replace_latest m c =
    if should_replace_latest c m
    then record c { latest_msg_send_time = m.send_time; latest_message = some (snapshot m) }
    else c

abbrev pub count_unread : String → ChatMessage → ConversationInfo → ConversationInfo
count_unread owner_user_id m c =
    if is_unread owner_user_id m
    then record c { unread_count = saturating_suc c.unread_count }
    else c

unfoldable pub applied : String → ChatMessage → ConversationInfo → ConversationInfo
applied owner_user_id m c = count_unread owner_user_id m (replace_latest m (raise_max_seq m c))

abbrev pub ensure_pair : String → String → Result (Unit {0})
ensure_pair owner_user_id conversation_id =
    ensure_not_empty owner_user_id "owner_user_id"
    >> ensure_not_empty conversation_id "conversation_id"

abbrev pub ensure_member : SessionType → String → String → Result (Unit {0})
ensure_member SessionType.single user_id group_id = ensure_not_empty user_id "user_id"
ensure_member SessionType.write_group user_id group_id = ensure_not_empty group_id "group_id"
ensure_member SessionType.read_group user_id group_id = ensure_not_empty group_id "group_id"
ensure_member SessionType.notification user_id group_id = ensure_not_empty user_id "user_id"

unfoldable pub validate_conversation : ConversationInfo → Result (Unit {0})
validate_conversation c =
    ensure_pair c.owner_user_id c.conversation_id
    >> ensure_member c.conversation_type c.user_id c.group_id

-- `bool::cmp`
abbrev pub compare_bool : Bool → Bool → Ordering
compare_bool false false = Ordering.eq
compare_bool false true = Ordering.lt
compare_bool true false = Ordering.gt
compare_bool true true = Ordering.eq

unfoldable pub conversation_order : ConversationInfo → ConversationInfo → Ordering
conversation_order left right = then_with (compare_bool right.is_pinned left.is_pinned) (
    then_with (compare_ℤ right.latest_msg_send_time left.latest_msg_send_time)
      (compare left.conversation_id right.conversation_id))

abbrev pub conversation_key : ConversationInfo → String × String
conversation_key c = (c.owner_user_id, c.conversation_id)
