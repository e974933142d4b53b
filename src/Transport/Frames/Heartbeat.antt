-- ===== src/Transport/Frames/Heartbeat.antt =====
-- That heartbeats end: what answers a ping is not answered.
use openim_sdk_core_rust.Base.{
  String, Option, none, some, inl, inr, ◌≡◌, ◌⊎◌, refl, sym, ap, ◌∙◌, arith, Bool-cases,
  Option-cases,
}
use openim_sdk_core_rust.Base.Keys.{string_eq, ◌==◌}
use openim_sdk_core_rust.Transport.Wire.{Fallible}
use openim_sdk_core_rust.Transport.Frames.{
  JsonValues, TextHeartbeatFrame, frame_of, frame_of_parsed, text_heartbeat_frame,
  text_pong_response, pong_of, ◌>>=◌,
}

-- an object whose type is replaced has the new type; the text of a value, where it can be read (a
-- reader has a limit of depth), is read with the type that the value had, though a number in it may
-- come back as another
pub record IsJsonValues {V : Type 0} (values : JsonValues V) : Type 0 where
  pub typed :
      (v : V) (old new : String)
      → values.type_of v ≡ some old
      → values.type_of (values.insert_type new v) ≡ some new
  pub kept :
      (v w : V) (s : String)
      → values.to_string v ≡ inr s
      → values.from_str s ≡ some w
      → values.type_of w ≡ values.type_of v

answered :
    (r : Fallible (Option TextHeartbeatFrame)) {s : String}
    → (r >>= λ o. inr (pong_of o)) ≡ inr (some s)
    → r ≡ inr (some (TextHeartbeatFrame.ping s))
answered (inl e) h = cc
answered (inr none) h = cc
answered (inr (some (TextHeartbeatFrame.ping t))) h = cc
answered (inr (some TextHeartbeatFrame.pong)) h = cc

printed :
    (r : Fallible String) {s : String}
    → (r >>= λ t. inr (some (TextHeartbeatFrame.ping t))) ≡ inr (some (TextHeartbeatFrame.ping s))
    → r ≡ inr s
printed (inl e) h = cc
printed (inr t) h = cc

module _ {V : Type 0} (values : JsonValues V) where
  -- a ping is a value with a type, and its answer the text of the value as a pong
  pinged :
      (v : V) (o : Option String) {s : String}
      → frame_of values v o ≡ inr (some (TextHeartbeatFrame.ping s))
      → (kind : String) × (o ≡ some kind) × (values.to_string (values.insert_type "pong" v) ≡ inr s)
  unfolding frame_of
  pinged v none h = cc
  pinged v (some kind) h = elim (Bool-cases (kind == "ping")) [
    | inl ping ↦
        let step : frame_of values v (some kind) ≡ (
            values.to_string (values.insert_type "pong" v) >>= λ t.
            inr (some (TextHeartbeatFrame.ping t))) =
          rw ping refl in
        (kind, refl, printed _ (sym step ∙ h))
    | inr other ↦ elim (Bool-cases (kind == "pong")) [
      | inl pong ↦ ground (arith, other, pong)
      | inr neither ↦ ground (arith, other, neither)
    ]
  ]

  framed :
      (t : String) {s : String}
      → text_heartbeat_frame values t ≡ inr (some (TextHeartbeatFrame.ping s))
      → (v : V) × (kind : String) × (values.type_of v ≡ some kind)
        × (values.to_string (values.insert_type "pong" v) ≡ inr s)
  unfolding text_heartbeat_frame
  framed t h = elim (Option-cases (values.from_str t)) [
    | inl absent ↦ ground (arith, absent)
    | inr (v, present) ↦
        let (kind, had, text) =
          pinged v (values.type_of v) (sym (ap (frame_of_parsed values) present) ∙ h) in
        (v, kind, had, text)
  ]

-- Where an object takes the type that it is given, and a text that is read back has the type of the
-- value that it was made of: the text that answers a ping is read as a pong, or else cannot be read
-- as JSON and is no heartbeat; in both cases it is not answered.
pub text_pong_response_settled :
    {V : Type 0} (values : JsonValues V) (laws : IsJsonValues values) (t s : String)
    → text_pong_response values t ≡ inr (some s)
    → ((text_heartbeat_frame values s ≡ inr (some TextHeartbeatFrame.pong))
        ⊎ ((values.from_str s ≡ none) × (text_heartbeat_frame values s ≡ inr none)))
      × (text_pong_response values s ≡ inr none)
unfolding text_pong_response text_heartbeat_frame frame_of
text_pong_response_settled values laws t s h =
    let (v, kind, had, text) = framed values t (answered (text_heartbeat_frame values t) h) in
    let pong = values.insert_type "pong" v in
    let reply = λ (r : Fallible (Option TextHeartbeatFrame)). r >>= λ o. inr (pong_of o) in
    elim (Option-cases (values.from_str s)) [
      | inl unread ↦
          let read : text_heartbeat_frame values s ≡ inr none =
            ap (frame_of_parsed values) unread in
          (inr (unread, read), ap reply read)
      | inr (w, found) ↦
          let typed = laws.kept pong w s text found ∙ laws.typed v kind "pong" had in
          let read : text_heartbeat_frame values s ≡ inr (some TextHeartbeatFrame.pong) =
            ap (frame_of_parsed values) found ∙ ap (frame_of values w) typed in
          (inl read, ap reply read)
    ]
