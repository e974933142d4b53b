-- ===== src/Examples/Session.antt =====
-- The theorems about the life cycle of a session, with the adapter that keeps nothing.
use openim_sdk_core_rust.Base.{
  String, true, false, none, some, List, [], ◌∷◌, inl, inr, ◌⊎◌, ◌≡◌, refl, arith, All, any, Bool,
  Bool-cases, if◌then◌else◌,
}
use openim_sdk_core_rust.Base.Int.{pos, eqb_ℤ_iff}
use openim_sdk_core_rust.Base.Keys.{string_eq, beq_refl}
use openim_sdk_core_rust.Base.Text.{is_empty}
use openim_sdk_core_rust.Errors.{ok, err, args, is_ok}
use openim_sdk_core_rust.Types.{Platform}
use openim_sdk_core_rust.Action.{pure}
use openim_sdk_core_rust.Storage.{Paths, openim_indexeddb_name}
use openim_sdk_core_rust.Storage.Isolation.{openim_indexeddb_name-injective}
use openim_sdk_core_rust.Transport.Wire.{TransportConfig, new_config}
use openim_sdk_core_rust.Base.HashMap
use openim_sdk_core_rust.Base.Sort
use openim_sdk_core_rust.Session.State
use openim_sdk_core_rust.Session.Tasks
use openim_sdk_core_rust.Session.Config
use openim_sdk_core_rust.Session.Resources
use openim_sdk_core_rust.Session.Config.{
  SessionConfig, new_session_config, LoginCredentials, validate_config, validate_credentials,
  StorageTarget, storage_target, same_storage, same_bool, same_transport_config,
}
use openim_sdk_core_rust.Session.Events.{SessionState, DomainServices, default_services}
use openim_sdk_core_rust.Session.Tasks.{new_registry}
use openim_sdk_core_rust.Session.Resources.{
  SessionResourceKind, SessionResource, SessionRuntimeResources, HandleApi, new_resources,
  ensure_matches, close_all,
}
use openim_sdk_core_rust.Session.Resources.CloseAll.{close_all-exact, fails, IsCalm}
use openim_sdk_core_rust.Session.State.{
  OpenImSession, noop_adapter, with_resource_adapter, init, login, domains_mut, ensure_logged_in,
}
use openim_sdk_core_rust.Session.Lifecycle.{Step, IsReachable}
use openim_sdk_core_rust.Session.Lifecycle.Invariant.{IsConsistent}
use openim_sdk_core_rust.Session.Lifecycle.Reachable.{session-IsConsistent, session-IsOwned}
use openim_sdk_core_rust.Session.Batch.Owned.{IsOwned}
use openim_sdk_core_rust.Examples.Delivery.{chat}
use openim_sdk_core_rust.Session.Lifecycle.Transitions.{may_follow, Step-follows}
use openim_sdk_core_rust.Session.Lifecycle.Granted.{Run, IsWilling}
use openim_sdk_core_rust.Session.Lifecycle.Progress.{login-Run}

-- handles that say whether they can be closed
abbrev closable : HandleApi String
closable = record {
  close = λ h. ((if is_empty h then ok tt else err (args h)), h);
  drain_transport_events = pure [];
}

-- handles with nothing to close
abbrev plain : HandleApi (Unit {0})
plain = record { close = pure tt; drain_transport_events = pure [] }

abbrev config : SessionConfig
config = new_session_config Platform.web "https://api.example" "wss://ws.example"

abbrev paths : Paths
paths = record { join = λ a b. b; is_absolute = λ p. true; current_dir = inr "/" }

abbrev ann : LoginCredentials
ann = record { user_id = "ann"; token = "t" }

abbrev Session : Type 0
Session = OpenImSession (Unit {0}) (Unit {0})

abbrev fresh : Session
fresh = record {
  config = config;
  state = SessionState.created;
  login_user_id = none;
  domains = default_services;
  listeners = new_registry;
  tasks = [];
  resources = tt;
  runtime_resources = none;
  delivered = [];
}

made : with_resource_adapter config tt ≡ ok fresh
unfolding with_resource_adapter validate_config
made = refl

abbrev ready : Session
ready = (init noop_adapter plain fresh).1

abbrev ready_reachable : IsReachable noop_adapter plain ready
ready_reachable = IsReachable.next (IsReachable.start config tt made) Step.inited

abbrev lent : DomainServices → DomainServices
lent d = record d { conversations = record { conversations = (("ann", "g_team"), chat) ∷ [] } }

abbrev busy : Session
busy = (domains_mut lent (login noop_adapter plain paths "op" ann ready).1).1

abbrev busy_reachable : IsReachable noop_adapter plain busy
busy_reachable =
    IsReachable.next (IsReachable.next ready_reachable (Step.logged_in paths "op" ann))
      (Step.services_lent lent)

session-IsConsistent_example : IsConsistent busy
session-IsConsistent_example = session-IsConsistent noop_adapter plain busy_reachable

logged_in_ann : (login noop_adapter plain paths "op" ann ready).1.login_user_id ≡ some "ann"
unfolding login validate_credentials init noop_adapter State.emit Config.transport_config
    storage_target openim_indexeddb_name new_resources ensure_matches same_transport_config
    new_config same_storage State.start_task Tasks.start State.emit_each Resources.resource_infos
    HashMap.get HashMap.insert Sort.insert_by Sort.sort_by Tasks.called Tasks.is_running
logged_in_ann = refl

session-IsOwned_example : IsOwned busy.login_user_id busy.domains.conversations
session-IsOwned_example =
    session-IsOwned noop_adapter plain busy_reachable
      (((tt, tt), tt), ((logged_in_ann, refl, refl), tt))

Step-follows_example :
    ((login noop_adapter plain paths "op" ann ready).1.state ≡ ready.state)
    ⊎ (may_follow ready.state (login noop_adapter plain paths "op" ann ready).1.state ≡ true)
Step-follows_example =
    Step-follows noop_adapter plain ready_reachable (Step.logged_in paths "op" ann)

same_bool_refl : (b : Bool) → same_bool b b ≡ true
same_bool_refl true = refl
same_bool_refl false = refl

same_transport_config_refl : (c : TransportConfig) → same_transport_config c c ≡ true
unfolding same_transport_config
same_transport_config_refl c = ground (
  arith,
  beq_refl c.ws_addr,
  beq_refl c.user_id,
  beq_refl c.token,
  (eqb_ℤ_iff c.platform_id c.platform_id).1 refl,
  beq_refl c.operation_id,
  beq_refl c.sdk_type,
  beq_refl c.sdk_version,
  same_bool_refl c.is_background,
  same_bool_refl c.compression,
  same_bool_refl c.send_response,
)

same_storage_refl : (s : StorageTarget) → same_storage s s ≡ true
unfolding same_storage
same_storage_refl StorageTarget.unconfigured = refl
same_storage_refl (StorageTarget.sqlite p) = beq_refl p
same_storage_refl (StorageTarget.indexed_db n) = beq_refl n

abbrev opened :
    LoginCredentials → TransportConfig → StorageTarget → SessionRuntimeResources (Unit {0})
opened c target storage = record {
  user_id = c.user_id;
  transport = target;
  storage = storage;
  resources = [];
}

opens :
    (c : LoginCredentials) (target : TransportConfig) (storage : StorageTarget)
    → validate_credentials c ≡ ok tt
    → (new_resources c.user_id target storage ≡ ok (opened c target storage))
      × (ensure_matches c target storage (opened c target storage) ≡ ok tt)
unfolding new_resources ensure_matches validate_credentials
opens c target storage valid = elim (Bool-cases (is_empty c.user_id)) [
  | inl empty ↦ ground (arith, valid, empty)
  | inr named ↦ (
    ground (arith, named),
    ground
        (arith, beq_refl c.user_id, same_transport_config_refl target, same_storage_refl storage),
  )
]

plain-IsCalm : (xs : List (SessionResource (Unit {0}))) → All (IsCalm plain) xs
plain-IsCalm [] = tt
plain-IsCalm (x ∷ xs) = (refl, plain-IsCalm xs)

plain_closes : (xs : List (SessionResource (Unit {0}))) → any (fails plain) xs ≡ false
plain_closes [] = refl
plain_closes (x ∷ xs) = plain_closes xs

willing : IsWilling noop_adapter plain
unfolding noop_adapter
willing = record {
  inits = λ c r. refl;
  opens = λ config c target storage r valid.
      (opened c target storage, (opens c target storage valid).0, (opens c target storage valid).1);
  lets_go = λ user r. refl;
  closes =
      λ r. (_, (close_all-exact plain r (plain-IsCalm r.resources)).2 (plain_closes r.resources));
}

login-Run_example :
    (t : Session) × Run noop_adapter plain fresh t
    × ((t.state ≡ SessionState.logged_in) × (t.login_user_id ≡ some "ann"))
unfolding validate_credentials storage_target openim_indexeddb_name
login-Run_example =
    login-Run noop_adapter plain willing paths "op" ann
      {storage = StorageTarget.indexed_db "OpenIM_v3_ann"} (IsReachable.start config tt made) refl
      refl

abbrev two : SessionRuntimeResources String
two = record {
  user_id = "ann";
  transport = new_config "op" "wss://ws.example" "ann" "t" (pos 5);
  storage = StorageTarget.unconfigured;
  resources =
      record { kind = SessionResourceKind.storage; name = "db"; handle = "" }
      ∷ record { kind = SessionResourceKind.transport; name = "ws"; handle = "busy" }
      ∷ [];
}

close_all-exact_example : is_ok (close_all closable two).0 ≡ false
close_all-exact_example = (close_all-exact closable two (refl, (refl, tt))).0

openim_indexeddb_name-injective_example : ann.user_id ≡ "ann"
unfolding openim_indexeddb_name
openim_indexeddb_name-injective_example =
    openim_indexeddb_name-injective "ann" "ann" {n = "OpenIM_v3_ann"} refl refl
