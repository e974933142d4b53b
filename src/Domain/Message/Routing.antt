-- ===== src/Domain/Message/Routing.antt =====
-- Where a message goes: both sides of a conversation name it alike, and the messages that the
-- constructors build are routed where they say.
use Prim.Native.String.{◌++◌, compare}
use Prim.Native.String.compare
use Prim.Native.String.append
use openim_sdk_core_rust.Base.{
  String, false, not, ◌&&◌, ◌≡◌, refl, inl, inr, [], ◌∷◌, arith, Bool-cases,
}
use openim_sdk_core_rust.Base.Int.{ℤ}
use openim_sdk_core_rust.Base.Keys.{string_eq, beq_refl}
use openim_sdk_core_rust.Base.Sort.{sort_by, insert_by, Ordering-cases}
use openim_sdk_core_rust.Base.Text.{is_empty, compare-swap}
use openim_sdk_core_rust.Errors.{ok, is_ok}
use openim_sdk_core_rust.Types.{SessionType}
use openim_sdk_core_rust.Domain.Message.Content.{MessageContent, validate}
use openim_sdk_core_rust.Domain.Message.Chat.{
  conversation_id_by_session_type, conversation_id_by_message, joined, conversation_id_of, outgoing,
  route_target, validate_message,
}

-- sorting two texts puts them in one order, whichever is given first
sort_two : (a b : String) → sort_by compare (a ∷ b ∷ []) ≡ sort_by compare (b ∷ a ∷ [])
unfolding sort_by insert_by
sort_two a b = ground (arith, string_eq.beq_iff a b, compare-swap a b)

prefixed : (p s : String) → is_empty p ≡ false → is_empty (p ++ s) ≡ false
prefixed String.[] s h = cc
prefixed (String.◌∷◌ c p) s h = rw (append.cons c p s, compare.cons-nil)

joined-ok :
    (prefix a b : String)
    → is_empty prefix ≡ false
    → (c : String) × (joined prefix a b ≡ ok c) × (is_empty c ≡ false)
unfolding sort_by insert_by
joined-ok prefix a b h = elim (Ordering-cases (compare a b)) [
  | inl after ↦ (prefix ++ b ++ "_" ++ a, ground (arith, after), prefixed prefix (b ++ "_" ++ a) h)
  | inr before ↦
      (prefix ++ a ++ "_" ++ b, ground (arith, before), prefixed prefix (a ++ "_" ++ b) h)
]

-- The two members of a single chat, or of a notification, compute the same conversation id: for
-- two identifiers that are not empty the id does not depend on which of them is the sender.
pub conversation_id_symmetric :
    (a b : String)
    → is_empty a ≡ false
    → is_empty b ≡ false
    → (conversation_id_by_session_type a b SessionType.single
        ≡ conversation_id_by_session_type b a SessionType.single)
      × (conversation_id_by_session_type a b SessionType.notification
          ≡ conversation_id_by_session_type b a SessionType.notification)
unfolding conversation_id_by_session_type
conversation_id_symmetric a b p q = (ground (arith, sort_two a b), ground (arith, sort_two a b))

routed_ok :
    (t : SessionType) (send target : String)
    → (c : String) × (conversation_id_of t send target ≡ ok c) × (is_empty c ≡ false)
routed_ok SessionType.single send target = joined-ok "si_" send target refl
routed_ok SessionType.write_group send target = ("g_" ++ target, refl, prefixed "g_" target refl)
routed_ok SessionType.read_group send target = ("sg_" ++ target, refl, prefixed "sg_" target refl)
routed_ok SessionType.notification send target = joined-ok "sn_" send target refl

accepts :
    (client send target : String) (t : SessionType) (content : MessageContent) (time : ℤ)
    (c : String)
    → conversation_id_of t send target ≡ ok c
    → is_empty c ≡ false
    → is_empty send ≡ false
    → is_empty target ≡ false
    → is_ok (outgoing client send target t content time) ≡ (
        not (is_empty client)
        && not (is_empty send)
        && not (is_empty target)
        && is_ok (validate content))
unfolding outgoing route_target conversation_id_by_session_type validate_message
    conversation_id_by_message
accepts client send target SessionType.single content time c routed named sender there =
    ground (arith, routed, named, sender, there, beq_refl c)
accepts client send target SessionType.write_group content time c routed named sender there =
    ground (arith, sender, there, prefixed "g_" target refl, beq_refl ("g_" ++ target))
accepts client send target SessionType.read_group content time c routed named sender there =
    ground (arith, sender, there, prefixed "sg_" target refl, beq_refl ("sg_" ++ target))
accepts client send target SessionType.notification content time c routed named sender there =
    ground (arith, routed, named, sender, there, beq_refl c)

-- `outgoing` succeeds exactly when the message's, the sender's and the target's identifiers are
-- not empty and the content is valid: the message that it builds always passes the checks on
-- its route and its content type.
pub outgoing_accepts :
    (client send target : String) (t : SessionType) (content : MessageContent) (time : ℤ)
    → is_ok (outgoing client send target t content time) ≡ (
        not (is_empty client)
        && not (is_empty send)
        && not (is_empty target)
        && is_ok (validate content))
unfolding outgoing route_target conversation_id_by_session_type validate_message
    conversation_id_by_message
outgoing_accepts client send target t content time =
    let (c, routed, named) = routed_ok t send target in
    elim (Bool-cases (is_empty send)) [
      | inl no_sender ↦ ground (arith, no_sender)
      | inr sender ↦ elim (Bool-cases (is_empty target)) [
        | inl no_target ↦ ground (arith, sender, no_target)
        | inr there ↦ accepts client send target t content time c routed named sender there
      ]
    ]
