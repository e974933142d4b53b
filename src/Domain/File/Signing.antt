-- ===== src/Domain/File/Signing.antt =====
-- crates/openim-domain/src/file.rs: the signed requests that upload the parts. What the crate `url`
-- does is given. A `BTreeMap` is an association list that is read out in the order of its keys.
pub mod Granted
use Prim.Native.String.{◌++◌, compare}
use openim_sdk_core_rust.Base.{
  ℕ, zero, suc, ◌+◌, ◌-◌, ◌^◌, min, max, String, Bool, true, false, ◌||◌, not, Option, none, some,
  List, [], ◌∷◌, ◌++◌ as ◌⧺◌, map, find, any, inl, inr, ltb, ◌==◌, if◌then◌else◌,
}
use openim_sdk_core_rust.Base.Int.{ℤ}
use openim_sdk_core_rust.Base.Keys.{string_eq}
use openim_sdk_core_rust.Base.HashMap
use openim_sdk_core_rust.Base.HashMap.{HashMap}
use openim_sdk_core_rust.Base.Sort.{sort_by}
use openim_sdk_core_rust.Base.Text.{is_empty, to_string}
use openim_sdk_core_rust.Errors.{
  Result, ok, err, panic, args, sdk_internal, ensure_not_empty, ◌>>=◌ as ◌>>=?◌, ◌>>◌ as ◌>>?◌,
}
use openim_sdk_core_rust.Action.{Action, lift, pure, gets, query, modify, ◌>>=◌, ◌>>◌}
use openim_sdk_core_rust.Transport.Wire.{Fallible}
use openim_sdk_core_rust.Domain.File.Types.{FileDigest}
use openim_sdk_core_rust.Domain.File.Plan.{UploadPart}
use openim_sdk_core_rust.Domain.File.Transfer.{UploadedPart, FileUploadClient}

pub record KeyValues : Type 0 where
  pub key : String
  pub values : List String

pub record SignedPart : Type 0 where
  pub part_number : ℕ
  pub url : String
  pub query : List KeyValues
  pub header : List KeyValues

pub record AuthSignParts : Type 0 where
  pub url : String
  pub query : List KeyValues
  pub header : List KeyValues
  pub parts : List SignedPart

pub record AuthSignRequest : Type 0 where
  pub upload_id : String
  pub part_numbers : List ℕ

pub record ObjectUploadInfo : Type 0 where
  pub upload_id : String
  pub part_size : ℕ
  pub sign : AuthSignParts
  pub expire_time : ℤ

pub record SignedUploadPartRequest : Type 0 where
  pub part_number : ℕ
  pub method : String
  pub url : String
  pub headers : List KeyValues
  pub content_length : ℕ

-- what the crate `url` does: parsing, reading the pairs of the query, replacing them, and printing
pub record UrlApi (U : Type 0) : Type 0 where
  pub parse : String → Fallible U
  pub query_pairs : U → List (String × String)
  pub with_query_pairs : List (String × String) → U → U
  pub print : U → String

-- `entry(key).or_default().push(value)`
abbrev pub push_value :
    String × String → HashMap String (List String) → HashMap String (List String)
push_value (key, value) query =
    HashMap.insert key
      ((elim (HashMap.get key query) [ none ↦ [] | some values ↦ values ]) ⧺ value ∷ []) query

unfoldable pub query_map_from :
    List (String × String) → HashMap String (List String) → HashMap String (List String)
query_map_from [] query = query
query_map_from (pair ∷ rest) query = query_map_from rest (push_value pair query)

abbrev pub query_map : {U : Type 0} → UrlApi U → U → HashMap String (List String)
query_map api url = query_map_from (api.query_pairs url) []

unfoldable pub apply_key_values :
    List KeyValues → HashMap String (List String) → HashMap String (List String)
apply_key_values [] target = target
apply_key_values (value ∷ rest) target =
    apply_key_values rest (HashMap.insert value.key value.values target)

abbrev pub in_key_order : HashMap String (List String) → List (String × List String)
in_key_order = sort_by (λ p q. compare p.0 q.0)

-- the pairs that are appended to the query
unfoldable pub query_list : List (String × List String) → List (String × String)
query_list [] = []
query_list ((key, values) ∷ rest) = map (λ value. (key, value)) values ⧺ query_list rest

-- the `KeyValues` of an entry
abbrev pub key_values : String × List String → KeyValues
key_values p = record { key = p.0; values = p.1 }

abbrev pub parsed_url : {U : Type 0} → Fallible U → Result U
parsed_url (inl e) = err (args ("signed upload url is invalid: " ++ e))
parsed_url (inr url) = ok url

unfoldable pub build_signed_put_request :
    {U : Type 0} → UrlApi U → AuthSignParts → SignedPart → ℕ → Result SignedUploadPartRequest
build_signed_put_request api sign part content_length =
    let raw_url = if is_empty part.url then sign.url else part.url in
    ensure_not_empty raw_url "url"
    >>? (parsed_url (api.parse raw_url) >>=? λ url.
        let query =
          in_key_order
            (apply_key_values part.query (apply_key_values sign.query (query_map api url))) in
        let headers =
          in_key_order (apply_key_values part.header (apply_key_values sign.header [])) in
        ok (record {
          part_number = part.part_number;
          method = "PUT";
          url = api.print (api.with_query_pairs (query_list query) url);
          headers = map key_values headers;
          content_length = content_length;
        }))

unfoldable pub contains_part : AuthSignParts → ℕ → Bool
contains_part sign part_number = any (λ part. part.part_number == part_number) sign.parts

unfoldable pub build_put_request :
    {U : Type 0} → UrlApi U → AuthSignParts → ℕ → ℕ → Option (Result SignedUploadPartRequest)
build_put_request api sign part_number content_length =
    elim (find (λ part. part.part_number == part_number) sign.parts) [
      | none ↦ none
      | some part ↦ some (build_signed_put_request api sign part content_length)
    ]

-- the counts are `u32`, the size is a `u64`
pub record MultipartUploadSession : Type 0 where
  pub upload_id : String
  pub part_size : ℕ
  pub part_count : ℕ
  pub batch_sign_count : ℕ
  pub sign : AuthSignParts
  pub expire_time : ℤ

unfoldable pub new_session : ObjectUploadInfo → ℕ → ℕ → Result MultipartUploadSession
new_session upload part_count batch_sign_count =
    ensure_not_empty upload.upload_id "upload_id"
    >>? (if upload.part_size == 0
        then err (args "upload part_size is zero")
        else if part_count == 0
        then err (args "part_count is zero")
        else ok (record {
          upload_id = upload.upload_id;
          part_size = upload.part_size;
          part_count = part_count;
          batch_sign_count = max batch_sign_count 1;
          sign = upload.sign;
          expire_time = upload.expire_time;
        }))

-- the numbers from one on, as many as given
unfoldable pub numbers_from : ℕ → ℕ → List ℕ
numbers_from first zero = []
numbers_from first (suc count) = first ∷ numbers_from (first + 1) count

-- `saturating_add` on `u32`; the range ends at `end`, and is empty where that is below its start
unfoldable pub next_part_numbers : MultipartUploadSession → ℕ → List ℕ
next_part_numbers s part_number =
    let end = min (min (part_number + (s.batch_sign_count - 1)) (2 ^ 32 - 1)) s.part_count in
    numbers_from part_number ((end + 1) - part_number)

-- the request of a part once its signature is there
abbrev pub or_unsigned : Option (Result SignedUploadPartRequest) → Result SignedUploadPartRequest
or_unsigned none = err (sdk_internal "server part sign invalid")
or_unsigned (some request) = request

-- `auth_sign` is what the implementation of `ObjectStorageApi` answers
abbrev pub ensure_signed :
    (AuthSignRequest → Result AuthSignParts) → ℕ → Bool → Action MultipartUploadSession (Unit {0})
ensure_signed auth_sign part_number true = pure tt
ensure_signed auth_sign part_number false = do
  request ←
      gets (λ s. record { upload_id = s.upload_id; part_numbers = next_part_numbers s part_number })
  sign ← lift (auth_sign request)
  modify (λ s. record s { sign = sign })

unfoldable pub signed_part_request :
    {U : Type 0}
    → UrlApi U
    → (AuthSignRequest → Result AuthSignParts)
    → ℕ
    → ℕ
    → Action MultipartUploadSession SignedUploadPartRequest
signed_part_request api auth_sign part_number content_length = do
  query (λ s.
      if part_number == 0 || ltb s.part_count part_number
      then err (args "invalid part_number")
      else ok tt)
  (λ s. ensure_signed auth_sign part_number (contains_part s.sign part_number) s)
  query (λ s. or_unsigned (build_put_request api s.sign part_number content_length))

-- `upload_part` of `SignedMultipartUploadClient`; `put_part` is what the `HttpUploadClient` answers
unfoldable pub upload_signed_part :
    {U : Type 0}
    → UrlApi U
    → (AuthSignRequest → Result AuthSignParts)
    → (SignedUploadPartRequest → Result UploadedPart)
    → FileUploadClient MultipartUploadSession
upload_signed_part api auth_sign put_part file part = do
  request ← signed_part_request api auth_sign part.part_number part.size
  uploaded ← lift (put_part request)
  if uploaded.part_number == part.part_number
      then pure uploaded
      else lift (
          err (
            args (
              "uploaded part_number mismatch: expected "
              ++ to_string part.part_number
              ++ ", got "
              ++ to_string uploaded.part_number)))
