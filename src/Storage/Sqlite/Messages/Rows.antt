-- ===== src/Storage/Sqlite/Messages/Rows.antt =====
-- That the row of a message is read back as the message.
use Prim.Native.String.{◌++◌}
use Prim.Native.String.append
use openim_sdk_core_rust.Base.{
  String, Bool, true, false, not, Option, none, some, inr, ◌≡◌, refl, sym, ap, ◌∙◌, arith,
  if◌then◌else◌,
}
use openim_sdk_core_rust.Base.Int.{eqb_ℤ}
use openim_sdk_core_rust.Base.Keys.{string_eq, ◌==◌}
use openim_sdk_core_rust.Base.Text.{is_empty}
use openim_sdk_core_rust.Errors.{ok, ok_injective, >>=-eq-ok, ensure_not_empty}
use openim_sdk_core_rust.Types.{
  SessionType, MessageStatus, status_value, from_i32-as_i32, session_type_enum, content_type_enum,
  status_enum,
}
use openim_sdk_core_rust.Domain.Message.Content.{MessageContent, content_type}
use openim_sdk_core_rust.Domain.Message.Chat.{
  ChatMessage, validate_message, conversation_id_by_message, conversation_id_by_session_type,
  target_of, same_content_type, ensure_target,
}
use openim_sdk_core_rust.Storage.Sqlite.{Json, non_empty, text_or_empty, strip_prefix}
use openim_sdk_core_rust.Storage.Sqlite.Messages.{
  group_id_from_conversation, without_prefix, chat_log_row, into_chat_message,
}

-- whether the type is one of a group
abbrev pub is_group : SessionType → Bool
is_group SessionType.single = false
is_group SessionType.write_group = true
is_group SessionType.read_group = true
is_group SessionType.notification = false

-- what the columns of a row can hold of a message
pub record IsStorable (m : ChatMessage) : Type 0 where
  pub acknowledged : (s : String) → m.server_msg_id ≡ some s → is_empty s ≡ false
  pub direct : is_group m.session_type ≡ false → m.group_id ≡ ""
  pub deleted : eqb_ℤ (status_value m.status) (status_value MessageStatus.has_deleted) ≡ m.revoked

strip_prefix_own : (p s : String) → strip_prefix p (p ++ s) ≡ some s
unfolding strip_prefix
strip_prefix_own String.[] s = ap some (append.nil s)
strip_prefix_own (String.◌∷◌ c p) s =
    ap (strip_prefix (String.◌∷◌ c p)) (append.cons c p s) ∙ ground (arith, strip_prefix_own p s)

without_prefix_own : (p s : String) → without_prefix p (p ++ s) ≡ s
unfolding without_prefix
without_prefix_own p s = ground (arith, strip_prefix_own p s)

-- the group that a conversation is of
group_of_route :
    (t : SessionType) (send_id recv_id group_id routed : String)
    → conversation_id_by_session_type send_id (target_of t recv_id group_id) t ≡ ok routed
    → (is_group t ≡ false → group_id ≡ "")
    → group_id_from_conversation routed t ≡ group_id
unfolding conversation_id_by_session_type group_id_from_conversation
group_of_route SessionType.single send_id recv_id group_id routed made direct = sym (direct refl)
group_of_route SessionType.notification send_id recv_id group_id routed made direct =
    sym (direct refl)
group_of_route SessionType.write_group send_id recv_id group_id routed made direct =
    let (_, _, next) = >>=-eq-ok (ensure_not_empty send_id "owner_or_send_id") _ made in
    let (_, _, last) = >>=-eq-ok (ensure_not_empty group_id "target_id") _ next in
    ap (without_prefix "g_") (sym (ok_injective last)) ∙ without_prefix_own "g_" group_id
group_of_route SessionType.read_group send_id recv_id group_id routed made direct =
    let (_, _, next) = >>=-eq-ok (ensure_not_empty send_id "owner_or_send_id") _ made in
    let (_, _, last) = >>=-eq-ok (ensure_not_empty group_id "target_id") _ next in
    ap (without_prefix "sg_") (sym (ok_injective last)) ∙ without_prefix_own "sg_" group_id

-- a message that is valid is in the conversation that its route names
pub validated :
    (m : ChatMessage)
    → validate_message m ≡ ok tt
    → (conversation_id_by_message m ≡ ok m.conversation_id) × (is_empty m.conversation_id ≡ false)
unfolding validate_message
validated m valid =
    let (_, _, next) = >>=-eq-ok (ensure_not_empty m.client_msg_id "client_msg_id") _ valid in
    let (_, named, next) =
      >>=-eq-ok (ensure_not_empty m.conversation_id "conversation_id") _ next in
    let (_, _, next) = >>=-eq-ok (ensure_not_empty m.send_id "send_id") _ next in
    let (_, _, next) =
      >>=-eq-ok
        (if not (same_content_type m.content_type (content_type m.content)) then _ else ok tt) _
        next in
    let (_, _, next) = >>=-eq-ok (ensure_target m.session_type m.recv_id m.group_id) _ next in
    let (routed, route, next) = >>=-eq-ok (conversation_id_by_message m) _ next in
    let (_, same, _) = >>=-eq-ok (if not (routed == m.conversation_id) then _ else ok tt) _ next in
    (
      route ∙ ap ok ((string_eq.beq_iff routed m.conversation_id).0 (ground (arith, same))),
      ground (arith, named),
    )

kept_server_id :
    (o : Option String)
    → ((s : String) → o ≡ some s → is_empty s ≡ false)
    → non_empty (text_or_empty o) ≡ o
unfolding non_empty
kept_server_id none h = refl
kept_server_id (some s) h = ground (arith, h s refl)

-- the row of a valid message is read back as the message
pub into_chat_message-chat_log_row :
    (json : Json MessageContent) (m : ChatMessage) (s : String)
    → json.from_str s ≡ inr m.content
    → IsStorable m
    → validate_message m ≡ ok tt
    → into_chat_message json m.conversation_id (chat_log_row m s) ≡ ok m
unfolding into_chat_message chat_log_row conversation_id_by_message
into_chat_message-chat_log_row json m s reads storable valid =
    rw
      (
        from_i32-as_i32.1 m.session_type,
        from_i32-as_i32.2 m.content_type,
        from_i32-as_i32.3 m.status,
        reads,
        kept_server_id m.server_msg_id storable.acknowledged,
        group_of_route m.session_type m.send_id m.recv_id m.group_id m.conversation_id
            (validated m valid).0 storable.direct,
        storable.deleted,
      )
      refl
