-- ===== src/Transport/Wire/Routing.antt =====
-- Where an envelope goes.
use openim_sdk_core_rust.Base.{
  String, Bool, not, ◌&&◌, ◌≡◌, ap, arith, inl, inr, Bool-cases, if◌then◌else◌,
}
use openim_sdk_core_rust.Base.Int.{pos, eqb_ℤ}
use openim_sdk_core_rust.Base.Keys
use openim_sdk_core_rust.Base.Keys.{string_eq}
use openim_sdk_core_rust.Base.HashMap
use openim_sdk_core_rust.Base.Text.{is_empty}
use openim_sdk_core_rust.Transport.Pending.{PendingRequests, contains, resolve}
use openim_sdk_core_rust.Transport.Wire.{GeneralWsResp, TransportEvent, identifier, route_envelope}

-- whether an envelope answers a request that waits
abbrev pub is_answer : GeneralWsResp → PendingRequests → Bool
is_answer resp pending =
    not (eqb_ℤ resp.req_identifier (pos 2001))
    && not (is_empty resp.msg_incr)
    && contains resp.msg_incr pending

-- An envelope is delivered as a response exactly when it is no push, names a request and that
-- request waits, and as a push otherwise; the request that it answers waits no longer, so that a
-- second envelope for it is a push, and every other request waits as before.
pub route_envelope-exact :
    (resp : GeneralWsResp) (pending : PendingRequests) (id : String)
    → ((route_envelope resp pending).0 ≡ (
        if is_answer resp pending then TransportEvent.response resp else TransportEvent.push resp))
      × (contains id (route_envelope resp pending).1
          ≡ (contains id pending && not (is_answer resp pending && Keys.◌==◌ resp.msg_incr id)))
unfolding route_envelope resolve contains identifier
route_envelope-exact resp pending id = (
  ground (arith, HashMap.get-remove resp.msg_incr id pending.entries),
  elim (Bool-cases (Keys.◌==◌ resp.msg_incr id)) [
    | inl same ↦ ground (
      arith,
      same,
      HashMap.get-remove resp.msg_incr id pending.entries,
      ap (λ i. HashMap.get i pending.entries) ((string_eq.beq_iff resp.msg_incr id).0 same),
    )
    | inr other ↦ ground (arith, other, HashMap.get-remove resp.msg_incr id pending.entries)
  ],
)
