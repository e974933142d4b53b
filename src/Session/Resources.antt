-- ===== src/Session/Resources.antt =====
-- crates/openim-session/src/lib.rs: the resources that a login opens, and closing them.
pub mod CloseAll
use mathlib.Core.List.{reverse}
use openim_sdk_core_rust.Base.{
  String, Bool, not, Option, none, some, List, [], ◌∷◌, ◌++◌, map, if◌then◌else◌,
}
use openim_sdk_core_rust.Base.Keys.{◌==◌, string_eq}
use openim_sdk_core_rust.Errors.{
  Result, ok, err, panic, OpenImError, sdk_internal, ensure_not_empty, ◌>>=◌, ◌>>◌,
}
use openim_sdk_core_rust.Action.{Action}
use openim_sdk_core_rust.Transport.Wire.{TransportConfig, TransportEvent}
use openim_sdk_core_rust.Session.Config.{
  LoginCredentials, StorageTarget, same_storage, same_transport_config,
}

pub data SessionResourceKind : Type 0 where
  storage transport sync : SessionResourceKind

pub record SessionResourceInfo : Type 0 where
  pub kind : SessionResourceKind
  pub name : String

-- the implementation of `SessionResourceHandle`, over the state that a handle keeps
pub record HandleApi (H : Type 0) : Type 0 where
  pub close : Action H (Unit {0})
  pub drain_transport_events : Action H (List TransportEvent)

pub record SessionResource (H : Type 0) : Type 0 where
  pub kind : SessionResourceKind
  pub name : String
  pub handle : H

module _ {H : Type 0} where
  unfoldable pub new_resource : SessionResourceKind → String → H → Result (SessionResource H)
  new_resource kind name handle =
      ensure_not_empty name "resource_name"
      >> ok (record { kind = kind; name = name; handle = handle })

  abbrev pub info : SessionResource H → SessionResourceInfo
  info r = record { kind = r.kind; name = r.name }

pub record SessionRuntimeResources (H : Type 0) : Type 0 where
  pub user_id : String
  pub transport : TransportConfig
  pub storage : StorageTarget
  pub resources : List (SessionResource H)

module _ {H : Type 0} where
  unfoldable pub new_resources :
      String → TransportConfig → StorageTarget → Result (SessionRuntimeResources H)
  new_resources user_id config target =
      ensure_not_empty user_id "user_id"
      >> ok (record { user_id = user_id; transport = config; storage = target; resources = [] })

  unfoldable pub add_resource :
      SessionResource H → SessionRuntimeResources H → SessionRuntimeResources H
  add_resource resource r = record r { resources = r.resources ++ resource ∷ [] }

  unfoldable pub resource_infos : SessionRuntimeResources H → List SessionResourceInfo
  resource_infos r = map info r.resources

  unfoldable pub ensure_matches :
      LoginCredentials
      → TransportConfig
      → StorageTarget
      → SessionRuntimeResources H
      → Result (Unit {0})
  ensure_matches credentials config target r =
      if not (r.user_id == credentials.user_id)
      then err (sdk_internal "resource adapter returned resources for a different user")
      else if not (same_transport_config r.transport config)
      then err (sdk_internal "resource adapter returned resources for a different transport config")
      else if not (same_storage r.storage target)
      then err (sdk_internal "resource adapter returned resources for a different storage target")
      else ok tt

-- the first of two errors
abbrev pub or_first : Option OpenImError → OpenImError → Option OpenImError
or_first none e = some e
or_first (some first) e = some first

-- the three variables of the loop of `close_all`
pub record Closing (H : Type 0) : Type 0 where
  pub closed : List SessionResourceInfo
  pub remaining : List (SessionResource H)
  pub first_error : Option OpenImError

module _ {H : Type 0} (api : HandleApi H) where
  -- one turn of the loop, by how the handle's `close` ended and what it left; a handle that
  -- panics ends the loop
  unfoldable pub close_turn :
      SessionResource H → Result (Unit {0}) → H → Closing H → Result (Closing H)
  close_turn r (ok _) left c = ok (record c { closed = c.closed ++ info r ∷ [] })
  close_turn r (err e) left c = ok (record c {
    remaining = c.remaining ++ record r { handle = left } ∷ [];
    first_error = or_first c.first_error e;
  })
  close_turn r panic left c = panic

  -- the loop over the resources in the order in which they are popped
  unfoldable pub close_popped : List (SessionResource H) → Closing H → Result (Closing H)
  close_popped [] c = ok c
  close_popped (r ∷ rest) c =
      close_turn r (api.close r.handle).0 (api.close r.handle).1 c >>= close_popped rest

  abbrev pub start_closing : Closing H
  start_closing = record { closed = []; remaining = []; first_error = none }

  -- what is not popped yet where a handle panics; the resources that were popped are lost then
  unfoldable pub unpopped : List (SessionResource H) → List (SessionResource H)
  unpopped [] = []
  unpopped (r ∷ rest) = elim (api.close r.handle).0 [ panic ↦ rest | _ ↦ unpopped rest ]

  -- what is returned, and the resources that stay
  unfoldable pub finish_closing :
      SessionRuntimeResources H
      → Result (Closing H)
      → Result (List SessionResourceInfo) × SessionRuntimeResources H
  finish_closing r (ok c) = (
    (elim c.first_error [ none ↦ ok c.closed | some e ↦ err e ]),
    record r { resources = reverse c.remaining },
  )
  finish_closing r (err e) = (err e, r)
  finish_closing r panic =
      (panic, record r { resources = reverse (unpopped (reverse r.resources)) })

  unfoldable pub close_all : Action (SessionRuntimeResources H) (List SessionResourceInfo)
  close_all r = finish_closing r (close_popped (reverse r.resources) start_closing)

  -- the loop over the resources in their order; the error of one ends it
  unfoldable pub drain_from :
      List (SessionResource H)
      → List TransportEvent
      → Result (List TransportEvent) × List (SessionResource H)
  drain_from [] events = (ok events, [])
  drain_from (r ∷ rest) events =
      let (answer, left) = api.drain_transport_events r.handle in
      elim answer [
        | ok more ↦
            let (result, others) = drain_from rest (events ++ more) in
            (result, record r { handle = left } ∷ others)
        | err e ↦ (err e, record r { handle = left } ∷ rest)
        | panic ↦ (panic, record r { handle = left } ∷ rest)
      ]

  unfoldable pub drain_transport_events : Action (SessionRuntimeResources H) (List TransportEvent)
  drain_transport_events r =
      let (result, left) = drain_from r.resources [] in (result, record r { resources = left })
