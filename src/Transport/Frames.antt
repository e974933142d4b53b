-- ===== src/Transport/Frames.antt =====
-- crates/openim-transport-core/src/lib.rs: the address of a connection and its acknowledgement, the
-- heartbeat frames, and the payloads of the frames.
pub mod Heartbeat
use Prim.Native.String.{◌++◌}
use openim_sdk_core_rust.Base.{
  ℕ, String, Bool, Option, none, some, inl, inr, List, [], ◌∷◌, ◌++◌ as ◌⧺◌, if◌then◌else◌,
}
use openim_sdk_core_rust.Base.Int.{ℤ, pos, eqb_ℤ}
use openim_sdk_core_rust.Base.Keys.{string_eq, ◌==◌}
use openim_sdk_core_rust.Base.Text.{to_string_ℤ}
use openim_sdk_core_rust.Transport.Wire.{
  Fallible, TransportConfig, GeneralWsReq, GeneralWsResp, ensure_success_response,
}

-- `?` on what may fail
infixl 5 ◌>>=◌
abbrev pub ◌>>=◌ : {A B : Type 0} → Fallible A → (A → Fallible B) → Fallible B
inl e >>= f = inl e
inr a >>= f = f a

-- the crate `url`: a text is read, and a pair is added to the query
pub record Urls (U : Type 0) : Type 0 where
  pub parse : String → Fallible U
  pub append_pair : U → String × String → U

abbrev pub append_pairs : {U : Type 0} → Urls U → U → List (String × String) → U
append_pairs urls url [] = url
append_pairs urls url (pair ∷ rest) = append_pairs urls (urls.append_pair url pair) rest

-- a pair that is there under a condition
abbrev pub pair_if : Bool → String → String → List (String × String)
pair_if test key value = if test then (key, value) ∷ [] else []

unfoldable pub query_pairs : TransportConfig → List (String × String)
query_pairs config =
    ("sendID", config.user_id)
    ∷ ("token", config.token)
    ∷ ("platformID", to_string_ℤ config.platform_id)
    ∷ ("operationID", config.operation_id)
    ∷ ("isBackground", if config.is_background then "true" else "false")
    ∷ ("sdkVersion", config.sdk_version)
    ∷ ("sdkType", config.sdk_type)
    ∷ (pair_if config.compression "compression" "gzip"
        ⧺ pair_if config.send_response "isMsgResp" "true")

unfoldable pub connect_url : {U : Type 0} → Urls U → TransportConfig → Fallible U
connect_url urls config = elim (urls.parse config.ws_addr) [
  | inl e ↦ inl "ws_addr must be a valid ws:// or wss:// URL"
  | inr url ↦ inr (append_pairs urls url (query_pairs config))
]

pub record ApiResponse : Type 0 where
  pub err_code : ℤ
  pub err_msg : String
  pub err_detail : String

unfoldable pub ensure_connect_ack : ApiResponse → Fallible (Unit {0})
ensure_connect_ack response =
    if eqb_ℤ response.err_code (pos 0)
    then inr tt
    else inl (
        "websocket auth failed: code="
        ++ to_string_ℤ response.err_code
        ++ " msg="
        ++ response.err_msg
        ++ " detail="
        ++ response.err_detail)

-- `from_text` and `from_bytes` are the two, by what reads the response
unfoldable pub ensure_connect_ack_from :
    {T : Type 0} → (T → Fallible ApiResponse) → T → Fallible (Unit {0})
ensure_connect_ack_from read frame = read frame >>= ensure_connect_ack

-- JSON values: a text is one or is none; `get("type")` as a text; `insert` of a type in an object;
-- and the text of a value
pub record JsonValues (V : Type 0) : Type 0 where
  pub from_str : String → Option V
  pub type_of : V → Option String
  pub insert_type : String → V → V
  pub to_string : V → Fallible String

pub data TextHeartbeatFrame : Type 0 where
  ping : (pong_text : String) → TextHeartbeatFrame
  pong : TextHeartbeatFrame

abbrev pub heartbeat_ping_text : String
heartbeat_ping_text = "{\"type\":\"ping\"}"

unfoldable pub frame_of :
    {V : Type 0} → JsonValues V → V → Option String → Fallible (Option TextHeartbeatFrame)
frame_of values message none = inr none
frame_of values message (some kind) =
    if kind == "ping"
    then (values.to_string (values.insert_type "pong" message) >>= λ pong_text.
        inr (some (TextHeartbeatFrame.ping pong_text)))
    else if kind == "pong"
    then inr (some TextHeartbeatFrame.pong)
    else inr none

abbrev pub frame_of_parsed :
    {V : Type 0} → JsonValues V → Option V → Fallible (Option TextHeartbeatFrame)
frame_of_parsed values none = inr none
frame_of_parsed values (some message) = frame_of values message (values.type_of message)

unfoldable pub text_heartbeat_frame :
    {V : Type 0} → JsonValues V → String → Fallible (Option TextHeartbeatFrame)
text_heartbeat_frame values frame = frame_of_parsed values (values.from_str frame)

abbrev pub pong_of : Option TextHeartbeatFrame → Option String
pong_of none = none
pong_of (some (TextHeartbeatFrame.ping pong_text)) = some pong_text
pong_of (some TextHeartbeatFrame.pong) = none

unfoldable pub text_pong_response : {V : Type 0} → JsonValues V → String → Fallible (Option String)
text_pong_response values frame = text_heartbeat_frame values frame >>= λ o. inr (pong_of o)

-- the codec of the protocol
pub record Codec : Type 0 where
  pub encode_json_request : GeneralWsReq → Fallible (List ℕ)
  pub decode_json_response : List ℕ → Fallible GeneralWsResp
  pub gzip_compress : List ℕ → Fallible (List ℕ)
  pub gzip_decompress : List ℕ → Fallible (List ℕ)

unfoldable pub encode_request_payload : Codec → GeneralWsReq → Bool → Fallible (List ℕ)
encode_request_payload codec req compression = codec.encode_json_request req >>= λ payload.
    if compression then codec.gzip_compress payload else inr payload

unfoldable pub decode_response_payload : Codec → List ℕ → Bool → Fallible GeneralWsResp
decode_response_payload codec payload compression =
    (if compression then codec.gzip_decompress payload else inr payload)
    >>= codec.decode_json_response

-- `M::decode` with its context
abbrev pub or_undecoded : {M : Type 0} → Fallible M → Fallible M
or_undecoded (inl e) = inl "decode websocket protobuf response data failed"
or_undecoded (inr m) = inr m

unfoldable pub decode_response_data :
    {M : Type 0} → (List ℕ → Fallible M) → GeneralWsResp → Fallible M
decode_response_data decode resp =
    ensure_success_response resp >>= λ _. or_undecoded (decode resp.data_bytes)
