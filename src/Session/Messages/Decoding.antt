-- ===== src/Session/Messages/Decoding.antt =====
-- What a message of the transport becomes.
use mathlib.Core.Path.{subst}
use openim_sdk_core_rust.Base.{String, Option, none, some, ◌≡◌, refl, sym, ap, ◌∙◌, inl, inr}
use openim_sdk_core_rust.Base.Int.{ℤ}
use openim_sdk_core_rust.Errors.{ok_or-ok, ok, ok_injective, >>=-eq-ok}
use openim_sdk_core_rust.Types.{
  SessionType, MessageContentType, from_i32, from_i32_exact, as_i32, content_type_enum,
  session_type_enum,
}
use openim_sdk_core_rust.Domain.Message.Content.{MessageContent}
use openim_sdk_core_rust.Domain.Message.Chat.{
  ChatMessage, incoming, outgoing, validate_message, conversation_id_by_message, route_target,
}
use openim_sdk_core_rust.Transport.Wire.{IncomingTransportMessage, Fallible}
use openim_sdk_core_rust.Session.Messages.{
  text_content, decode_content, decode_transport_message, build_transport_message, transport_target,
  with_transport_fields,
}

-- what a message that is received keeps of what it is made from
pub record IsMadeOf (client_msg_id server_msg_id send_id : String) (session_type : SessionType)
    (content : MessageContent) (seq send_time : ℤ) (d : ChatMessage) : Type 0 where
  pub valid : validate_message d ≡ ok tt
  pub client : d.client_msg_id ≡ client_msg_id
  pub server : d.server_msg_id ≡ some server_msg_id
  pub sender : d.send_id ≡ send_id
  pub kind : d.session_type ≡ session_type
  pub holds : d.content ≡ content
  pub ordered : d.seq ≡ seq
  pub dated : d.send_time ≡ send_time

incoming-IsMadeOf :
    (client_msg_id server_msg_id send_id target_id : String) (session_type : SessionType)
    (content : MessageContent) (seq send_time : ℤ) (d : ChatMessage)
    → incoming client_msg_id server_msg_id send_id target_id session_type content seq send_time
      ≡ ok d
    → IsMadeOf client_msg_id server_msg_id send_id session_type content seq send_time d
unfolding incoming outgoing
incoming-IsMadeOf client_msg_id server_msg_id send_id target_id session_type content seq send_time d
      made =
    let (built, out, rest) =
      >>=-eq-ok (outgoing client_msg_id send_id target_id session_type content send_time) _ made in
    let (route, routed, more) = >>=-eq-ok (route_target send_id target_id session_type) _ out in
    let (_, _, same) = >>=-eq-ok (validate_message _) _ more in
    let (u, valid, fin) = >>=-eq-ok (validate_message _) _ rest in
    let e = ok_injective fin in
    let o = ok_injective same in
    record {
      valid = ap validate_message (sym e) ∙ valid;
      client = ap (λ x. x.client_msg_id) (sym e) ∙ ap (λ x. x.client_msg_id) (sym o);
      server = ap (λ x. x.server_msg_id) (sym e);
      sender = ap (λ x. x.send_id) (sym e) ∙ ap (λ x. x.send_id) (sym o);
      kind = ap (λ x. x.session_type) (sym e) ∙ ap (λ x. x.session_type) (sym o);
      holds = ap (λ x. x.content) (sym e) ∙ ap (λ x. x.content) (sym o);
      ordered = ap (λ x. x.seq) (sym e);
      dated = ap (λ x. x.send_time) (sym e) ∙ ap (λ x. x.send_time) (sym o);
    }

text_content-text :
    (parsed : Fallible String) (content : MessageContent)
    → text_content parsed ≡ ok (some content)
    → (text : String) × (parsed ≡ inr text) × (content ≡ MessageContent.text text)
text_content-text (inl e) content made = cc
text_content-text (inr text) content made = (text, refl, cc)

-- the content of a message that is not passed over is a text
decode_content-text :
    (parse_text : String → Fallible String) (m : IncomingTransportMessage)
    (kind : MessageContentType) (content : MessageContent)
    → decode_content parse_text m kind ≡ ok (some content)
    → (kind ≡ MessageContentType.text)
      × ((text : String) × (parse_text m.content_json ≡ inr text)
          × (content ≡ MessageContent.text text))
decode_content-text parse_text m MessageContentType.text content made =
    (refl, text_content-text (parse_text m.content_json) content made)
decode_content-text parse_text m MessageContentType.picture content made = cc
decode_content-text parse_text m MessageContentType.sound content made = cc
decode_content-text parse_text m MessageContentType.video content made = cc
decode_content-text parse_text m MessageContentType.file content made = cc
decode_content-text parse_text m MessageContentType.at_text content made = cc
decode_content-text parse_text m MessageContentType.merger content made = cc
decode_content-text parse_text m MessageContentType.card content made = cc
decode_content-text parse_text m MessageContentType.location content made = cc
decode_content-text parse_text m MessageContentType.custom content made = cc
decode_content-text parse_text m MessageContentType.quote content made = cc
decode_content-text parse_text m MessageContentType.face content made = cc
decode_content-text parse_text m MessageContentType.advanced_text content made = cc
decode_content-text parse_text m MessageContentType.markdown_text content made = cc
decode_content-text parse_text m MessageContentType.typing content made = cc

build_transport_message-IsMadeOf :
    (m : IncomingTransportMessage) (session_type : SessionType) (content : Option MessageContent)
    (d : ChatMessage)
    → build_transport_message m session_type content ≡ ok (some d)
    → (c : MessageContent) × (content ≡ some c)
      × IsMadeOf m.client_msg_id m.server_msg_id m.send_id session_type c m.seq m.send_time d
unfolding build_transport_message validate_message conversation_id_by_message
build_transport_message-IsMadeOf m session_type none d made = cc
build_transport_message-IsMadeOf m session_type (some content) d made =
    let (built, in_, rest) =
      >>=-eq-ok
        (incoming m.client_msg_id m.server_msg_id m.send_id (transport_target m session_type)
          session_type content m.seq m.send_time)
        _ made in
    let h =
      incoming-IsMadeOf m.client_msg_id m.server_msg_id m.send_id (transport_target m session_type)
        session_type content m.seq m.send_time built in_ in
    let e : with_transport_fields m built ≡ d = cc in
    (
      content,
      refl,
      record {
        valid = ap validate_message (sym e) ∙ h.valid;
        client = ap (λ x. x.client_msg_id) (sym e) ∙ h.client;
        server = ap (λ x. x.server_msg_id) (sym e) ∙ h.server;
        sender = ap (λ x. x.send_id) (sym e) ∙ h.sender;
        kind = ap (λ x. x.session_type) (sym e) ∙ h.kind;
        holds = ap (λ x. x.content) (sym e) ∙ h.holds;
        ordered = ap (λ x. x.seq) (sym e) ∙ h.ordered;
        dated = ap (λ x. x.send_time) (sym e) ∙ h.dated;
      },
    )

-- A message of the transport that becomes a message of the session: its session type is a known
-- one, its content type is that of texts, and its content parses to a text; the message is valid,
-- so that the services accept it, and has its identifiers, its sender, its session type, that text,
-- its sequence number and its time.
pub decode_transport_message-IsMadeOf :
    (parse_text : String → Fallible String) (m : IncomingTransportMessage) (d : ChatMessage)
    → decode_transport_message parse_text m ≡ ok (some d)
    → (session_type : SessionType) × (text : String) × (as_i32 session_type ≡ m.session_type)
      × (as_i32 MessageContentType.text ≡ m.content_type)
      × (parse_text m.content_json ≡ inr text)
      × IsMadeOf m.client_msg_id m.server_msg_id m.send_id session_type
          (MessageContent.text text)
          m.seq
          m.send_time
          d
unfolding decode_transport_message
decode_transport_message-IsMadeOf parse_text m d made =
    let (session_type, known, rest) = ok_or-ok (from_i32 m.session_type) _ _ made in
    let (kind, read, more) = ok_or-ok (from_i32 m.content_type) _ _ rest in
    let (content, decoded, build) = >>=-eq-ok (decode_content parse_text m kind) _ more in
    let (c, is, whole) = build_transport_message-IsMadeOf m session_type content d build in
    let (texts, read_as) = decode_content-text parse_text m kind c (decoded ∙ ap ok is) in
    let (text, parsed, same) = read_as in
    (
      session_type,
      text,
      from_i32_exact m.session_type known,
      ap as_i32 (sym texts) ∙ from_i32_exact m.content_type read,
      parsed,
      subst
          (λ x.
            IsMadeOf m.client_msg_id m.server_msg_id m.send_id session_type x m.seq m.send_time d)
          same whole,
    )
