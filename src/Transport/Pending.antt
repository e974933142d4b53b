-- ===== src/Transport/Pending.antt =====
-- crates/openim-transport-core/src/lib.rs: `PendingRequests` and `route_envelope`. A `Duration` is
-- a number of one unit of time.
use openim_sdk_core_rust.Base.{
  ℕ, ◌-◌, String, Bool, true, false, not, some, none, List, [], ◌∷◌, ◌≡◌, refl, ap, arith, leb,
  length, filter_map, if◌then◌else◌, inl, inr, Bool-cases, Option-cases, is_empty as is_empty_list,
}
use openim_sdk_core_rust.Base.Keys
use openim_sdk_core_rust.Base.Keys.{string_eq}
use openim_sdk_core_rust.Base.HashMap
use openim_sdk_core_rust.Base.HashMap.{HashMap, IsDistinct, contains_key}
use openim_sdk_core_rust.Base.HashSet.{contains as contains_id}
use openim_sdk_core_rust.Base.Text.{is_empty}

pub record PendingRequests : Type 0 where
  pub entries : HashMap String ℕ

unfoldable pub register_at : String → ℕ → PendingRequests → PendingRequests
register_at msg_incr sent_at s =
    if not (is_empty msg_incr)
    then record { entries = HashMap.insert msg_incr sent_at s.entries }
    else s

unfoldable pub contains : String → PendingRequests → Bool
contains msg_incr s = contains_key msg_incr s.entries

-- `remove` hands out what it removes
unfoldable pub resolve : String → PendingRequests → Bool × PendingRequests
resolve msg_incr s =
    (contains_key msg_incr s.entries, record { entries = HashMap.remove msg_incr s.entries })

-- `now.saturating_sub(sent_at) >= timeout`
abbrev pub is_expired : ℕ → ℕ → ℕ → Bool
is_expired now timeout sent_at = leb timeout (now - sent_at)

unfoldable pub expired_ids : ℕ → ℕ → HashMap String ℕ → List String
expired_ids now timeout = filter_map (λ p. if is_expired now timeout p.1 then some p.0 else none)

-- the loop that removes the expired identifiers
unfoldable pub remove_each : List String → HashMap String ℕ → HashMap String ℕ
remove_each [] m = m
remove_each (id ∷ ids) m = remove_each ids (HashMap.remove id m)

unfoldable pub expire_at : ℕ → ℕ → PendingRequests → List String × PendingRequests
expire_at now timeout s =
    let expired = expired_ids now timeout s.entries in
    (expired, record { entries = remove_each expired s.entries })

unfoldable pub clear : PendingRequests → PendingRequests
clear s = record { entries = [] }

unfoldable pub len : PendingRequests → ℕ
len s = length s.entries

unfoldable pub is_empty_table : PendingRequests → Bool
is_empty_table s = is_empty_list s.entries

remove_each-get :
    (ids : List String) (m : HashMap String ℕ) (k : String)
    → HashMap.get k (remove_each ids m) ≡ (if contains_id ids k then none else HashMap.get k m)
unfolding remove_each
remove_each-get [] m k = refl
remove_each-get (id ∷ ids) m k = ground (
  arith,
  remove_each-get ids (HashMap.remove id m) k,
  HashMap.get-remove id k m,
  string_eq.beq_iff id k,
  string_eq.beq_iff k id,
)

-- the identifiers that expire are those of the entries that have expired
contains-expired_ids :
    (now timeout : ℕ) (m : HashMap String ℕ) (k : String)
    → IsDistinct m
    → contains_id (expired_ids now timeout m) k
      ≡ (elim (HashMap.get k m) [ none ↦ false | some t ↦ is_expired now timeout t ])
unfolding expired_ids HashMap.get
contains-expired_ids now timeout [] k d = refl
contains-expired_ids now timeout ((j, t) ∷ m) k d = elim (Bool-cases (Keys.◌==◌ j k)) [
  | inl same ↦ ground (
    arith,
    contains-expired_ids now timeout m k d.1,
    string_eq.beq_iff j k,
    string_eq.beq_iff k j,
    ap (λ i. HashMap.get i m) ((string_eq.beq_iff j k).0 same),
  )
  | inr other ↦ ground (
    arith,
    contains-expired_ids now timeout m k d.1,
    string_eq.beq_iff j k,
    string_eq.beq_iff k j,
  )
]

-- Expiring a table without duplicate identifiers: an identifier is reported exactly when it was
-- waiting and the timeout has passed since it was sent; it waits no longer then, and every other
-- identifier waits as before.
pub expire_at-exact :
    (now timeout : ℕ) (s : PendingRequests) (k : String)
    → IsDistinct s.entries
    → (contains_id (expire_at now timeout s).0 k
        ≡ (elim (HashMap.get k s.entries) [ none ↦ false | some t ↦ is_expired now timeout t ]))
      × (contains k (expire_at now timeout s).1 ≡ (elim (HashMap.get k s.entries) [
        | none ↦ false
        | some t ↦ not (is_expired now timeout t)
      ]))
unfolding expire_at contains
expire_at-exact now timeout s k d =
    let ids = expired_ids now timeout s.entries in
    let said = contains-expired_ids now timeout s.entries k d in
    (
      said,
      elim (Option-cases (HashMap.get k s.entries)) [
        | inl absent ↦ ground (arith, said, absent, remove_each-get ids s.entries k)
        | inr (t, present) ↦ ground (arith, said, present, remove_each-get ids s.entries k)
      ],
    )

-- A registered request is answered once: resolving it after it is registered under an identifier
-- that is not empty succeeds, and resolving it a second time does not.
pub resolve-register_at :
    (id : String) (sent_at : ℕ) (s : PendingRequests)
    → is_empty id ≡ false
    → ((resolve id (register_at id sent_at s)).0 ≡ true)
      × ((resolve id (resolve id (register_at id sent_at s)).1).0 ≡ false)
unfolding resolve register_at
resolve-register_at id sent_at s named = (
  ground (arith, named, HashMap.get-insert id id sent_at s.entries, string_eq.beq_iff id id),
  ground (
    arith,
    named,
    HashMap.get-remove id id (HashMap.insert id sent_at s.entries),
    string_eq.beq_iff id id,
  ),
)
