-- ===== src/Examples/Transport.antt =====
-- The theorems about crates/openim-transport-core/src/lib.rs at small inputs.
use openim_sdk_core_rust.Base.{
  ◌≤◌, ◌<◌, ◌^◌, String, Option, some, none, inl, inr, ◌⊎◌, sym, ap, ◌∙◌, Bool-cases, if◌then◌else◌,
  true, false, [], ◌∷◌, ◌≡◌, refl, arith,
}
use openim_sdk_core_rust.Base.Keys.{string_eq, ◌==◌}
use openim_sdk_core_rust.Base.HashMap
use openim_sdk_core_rust.Base.HashSet.{contains as contains_id}
use openim_sdk_core_rust.Transport.Frames.{
  JsonValues, TextHeartbeatFrame, heartbeat_ping_text, frame_of, text_heartbeat_frame,
  text_pong_response,
}
use openim_sdk_core_rust.Transport.Frames.Heartbeat.{IsJsonValues, text_pong_response_settled}
use openim_sdk_core_rust.Transport.Reconnect.{
  default_policy, delay_for_attempt, delay_for_attempt_monotone,
}
use openim_sdk_core_rust.Transport.Wire.{Fallible, GeneralWsResp, TransportEvent, route_envelope}
use openim_sdk_core_rust.Transport.Wire.Routing.{route_envelope-exact}
use openim_sdk_core_rust.Base.Int.{pos}
use openim_sdk_core_rust.Transport.Pending.{PendingRequests, expire_at, contains, expire_at-exact}

delay_for_attempt_monotone_example : (600 ≤ 2400) × (2400 ≤ 5000) × (2400 < 2 ^ 64)
unfolding delay_for_attempt
delay_for_attempt_monotone_example =
    delay_for_attempt_monotone default_policy 2 4 (omega arith) refl refl

abbrev waiting : PendingRequests
waiting = record { entries = ("r1", 10) ∷ ("r2", 90) ∷ [] }

expire_at-exact_example :
    (contains_id (expire_at 100 50 waiting).0 "r1" ≡ true)
    × (contains "r1" (expire_at 100 50 waiting).1 ≡ false)
unfolding HashMap.get
expire_at-exact_example = expire_at-exact 100 50 waiting "r1" (refl, (refl, tt))

abbrev reply : GeneralWsResp
reply = record {
  req_identifier = pos 1001;
  msg_incr = "r1";
  operation_id = "op";
  err_code = pos 0;
  err_msg = "";
  data_bytes = [];
}

-- the reply to a request that waits is a response, and the request waits no longer
route_envelope-exact_example :
    ((route_envelope reply waiting).0 ≡ TransportEvent.response reply)
    × (contains "r1" (route_envelope reply waiting).1 ≡ false)
unfolding HashMap.get contains
route_envelope-exact_example = route_envelope-exact reply waiting "r1"

abbrev pong_text : String
pong_text = "{\"type\":\"pong\"}"

-- the text of an object that has a type and nothing else
type_text : Option String → Fallible String
type_text none = inl "no type"
type_text (some kind) =
    if kind == "ping"
    then inr heartbeat_ping_text
    else if kind == "pong"
    then inr pong_text
    else inl "another type"

-- objects of texts, of which those that are only a ping or a pong have a text, and are read
abbrev objects : JsonValues (HashMap.HashMap String String)
objects = record {
  from_str = λ s.
      if s == heartbeat_ping_text
      then some (("type", "ping") ∷ [])
      else if s == pong_text
      then some (("type", "pong") ∷ [])
      else none;
  type_of = HashMap.get "type";
  insert_type = HashMap.insert "type";
  to_string = λ v. type_text (HashMap.get "type" v);
}

abbrev type_in : Option (HashMap.HashMap String String) → Option String
type_in none = none
type_in (some v) = HashMap.get "type" v

-- two equal texts are read alike
read_alike :
    (t s : String) (w : HashMap.HashMap String String)
    → Path (Fallible String) (inr t) (inr s)
    → objects.from_str s ≡ some w
    → HashMap.get "type" w ≡ type_in (objects.from_str t)
read_alike t s w same read =
    let e : t ≡ s = cc in sym (ap (λ x. type_in (objects.from_str x)) e ∙ ap type_in read)

types_kept :
    (o : Option String) (w : HashMap.HashMap String String) (s : String)
    → type_text o ≡ inr s
    → objects.from_str s ≡ some w
    → HashMap.get "type" w ≡ o
unfolding type_text HashMap.get
types_kept none w s printed read = cc
types_kept (some kind) w s printed read = elim (Bool-cases (kind == "ping")) [
  | inl ping ↦
      let text : type_text (some kind) ≡ inr heartbeat_ping_text = rw ping refl in
      read_alike heartbeat_ping_text s w (sym text ∙ printed) read
      ∙ ap some (sym ((string_eq.beq_iff kind "ping").0 ping))
  | inr other ↦ elim (Bool-cases (kind == "pong")) [
    | inl pong ↦
        let text : type_text (some kind) ≡ inr pong_text = rw (other, pong) refl in
        read_alike pong_text s w (sym text ∙ printed) read
        ∙ ap some (sym ((string_eq.beq_iff kind "pong").0 pong))
    | inr neither ↦ ground (arith, other, neither)
  ]
]

objects_law : IsJsonValues objects
objects_law = record {
  typed = λ v old new had. HashMap.get-insert "type" "type" new v;
  kept = λ v w s. types_kept (HashMap.get "type" v) w s;
}

text_pong_response_settled_example :
    ((text_heartbeat_frame objects pong_text ≡ inr (some TextHeartbeatFrame.pong))
      ⊎ ((objects.from_str pong_text ≡ none) × (text_heartbeat_frame objects pong_text ≡ inr none)))
    × (text_pong_response objects pong_text ≡ inr none)
unfolding text_pong_response text_heartbeat_frame frame_of type_text HashMap.get HashMap.insert
text_pong_response_settled_example =
    text_pong_response_settled objects objects_law heartbeat_ping_text pong_text refl
