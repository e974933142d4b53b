-- ===== src/Session/State.antt =====
-- crates/openim-session/src/lib.rs: `OpenImSession` and its life cycle.
use openim_sdk_core_rust.Base.{
  ℕ, String, Bool, not, Option, none, some, List, [], ◌∷◌, ◌++◌, map, if◌then◌else◌,
}
use openim_sdk_core_rust.Errors.{Result, ok, err, panic, args, sdk_internal, ok_or, ◌>>◌ as ◌>>?◌}
use openim_sdk_core_rust.Action.{Action, lift, pure, gets, query, modify, ◌>>=◌, ◌>>◌}
use openim_sdk_core_rust.Storage.{Paths}
use openim_sdk_core_rust.Transport.Wire.{TransportConfig}
use openim_sdk_core_rust.Session.Config.{
  SessionConfig, validate_config, LoginCredentials, validate_credentials, transport_config,
  StorageTarget, storage_target,
}
use openim_sdk_core_rust.Session.Events.{
  SessionState, is_logged_in, SessionEvent, DomainServices, default_services,
}
use openim_sdk_core_rust.Session.Resources.{
  SessionResourceInfo, SessionRuntimeResources, HandleApi, close_all, ensure_matches,
  resource_infos, new_resources,
}
use openim_sdk_core_rust.Session.Tasks
use openim_sdk_core_rust.Session.Tasks.{
  Tasks, ListenerRegistry, new_registry, register, unregister, called, stop_all,
}

-- the implementation of `SessionResourceAdapter`, over the state that it keeps
pub record ResourceAdapter (R H : Type 0) : Type 0 where
  pub init : SessionConfig → Action R (Unit {0})
  pub login :
      SessionConfig
      → LoginCredentials
      → TransportConfig
      → StorageTarget
      → Action R (SessionRuntimeResources H)
  pub logout : String → Action R (Unit {0})
  pub uninit : Action R (Unit {0})

-- `NoopSessionResourceAdapter`, which keeps nothing
unfoldable pub noop_adapter : {H : Type 0} → ResourceAdapter (Unit {0}) H
noop_adapter = record {
  init = λ config. pure tt;
  login =
      λ config credentials target storage. lift (new_resources credentials.user_id target storage);
  logout = λ user_id. pure tt;
  uninit = pure tt;
}

-- `delivered` is what the listeners were called with, in order
pub record OpenImSession (R H : Type 0) : Type 0 where
  pub config : SessionConfig
  pub state : SessionState
  pub login_user_id : Option String
  pub domains : DomainServices
  pub listeners : ListenerRegistry
  pub tasks : Tasks
  pub resources : R
  pub runtime_resources : Option (SessionRuntimeResources H)
  pub delivered : List (ℕ × SessionEvent)

abbrev pub closed_events : List SessionResourceInfo → List SessionEvent
closed_events = map (λ r. SessionEvent.resource_closed r.kind r.name)

abbrev pub opened_events : List SessionResourceInfo → List SessionEvent
opened_events = map (λ r. SessionEvent.resource_opened r.kind r.name)

-- the match of `login` on the state
abbrev pub may_login : SessionState → Result (Unit {0})
may_login SessionState.initialized = ok tt
may_login SessionState.logged_out = ok tt
may_login SessionState.logged_in = err (args "session already logged in")
may_login _ = err (args "session is not initialized")

module _ {R H : Type 0} where
  unfoldable pub with_resource_adapter : SessionConfig → R → Result (OpenImSession R H)
  with_resource_adapter config adapter_state =
      validate_config config
      >>? ok (record {
        config = config;
        state = SessionState.created;
        login_user_id = none;
        domains = default_services;
        listeners = new_registry;
        tasks = [];
        resources = adapter_state;
        runtime_resources = none;
        delivered = [];
      })

  -- every listener is called, in the order of the identifiers
  unfoldable pub emit : SessionEvent → OpenImSession R H → OpenImSession R H
  emit event s = record s {
    delivered = s.delivered ++ map (λ id. (id, event)) (called s.listeners);
  }

  unfoldable pub emit_each : List SessionEvent → OpenImSession R H → OpenImSession R H
  emit_each [] s = s
  emit_each (event ∷ rest) s = emit_each rest (emit event s)

  -- a call of the adapter
  abbrev pub on_adapter : {A : Type 0} → Action R A → Action (OpenImSession R H) A
  on_adapter m s = ((m s.resources).0, record s { resources = (m s.resources).1 })

  abbrev pub on_tasks : {A : Type 0} → Action Tasks A → Action (OpenImSession R H) A
  on_tasks m s = ((m s.tasks).0, record s { tasks = (m s.tasks).1 })

  unfoldable pub start_task : String → Action (OpenImSession R H) (Unit {0})
  start_task name = do
    started ← on_tasks (Tasks.start name)
    modify (if started then emit (SessionEvent.task_started name) else (λ s. s))

  unfoldable pub stop_task : String → Action (OpenImSession R H) (Unit {0})
  stop_task name = do
    stopped ← on_tasks (Tasks.stop name)
    modify (if stopped then emit (SessionEvent.task_stopped name) else (λ s. s))

  unfoldable pub stop_all_tasks : OpenImSession R H → OpenImSession R H
  stop_all_tasks s =
      emit_each (map SessionEvent.task_stopped (stop_all s.tasks).0)
        (record s { tasks = (stop_all s.tasks).1 })

  unfoldable pub register_listener : Action (OpenImSession R H) ℕ
  register_listener s =
      let (listener_id, registry) = register s.listeners in
      (
        ok listener_id,
        emit (SessionEvent.listener_registered listener_id) (record s { listeners = registry }),
      )

  unfoldable pub unregister_listener : ℕ → Action (OpenImSession R H) Bool
  unregister_listener listener_id s =
      let (removed, registry) = unregister listener_id s.listeners in
      let left = record s { listeners = registry } in
      (
        ok removed,
        if removed then emit (SessionEvent.listener_unregistered listener_id) left else left,
      )

  unfoldable pub ensure_logged_in : OpenImSession R H → Result (Unit {0})
  ensure_logged_in s =
      if not (is_logged_in s.state) then err (args "session is not logged in") else ok tt

  unfoldable pub logged_in_user_id : OpenImSession R H → Result String
  logged_in_user_id s =
      ensure_logged_in s >>? ok_or s.login_user_id (sdk_internal "login user missing")

  -- `change` is what the caller does with the services that it is lent
  unfoldable pub domains_mut :
      (DomainServices → DomainServices) → Action (OpenImSession R H) (Unit {0})
  domains_mut change = do
    query ensure_logged_in
    modify (λ s. record s { domains = change s.domains })

  -- what is written back when the closing of the runtime's resources has ended
  abbrev pub closed_to :
      SessionRuntimeResources H
      → Result (List SessionResourceInfo)
      → Action (OpenImSession R H) (List SessionResourceInfo)
  closed_to left (ok closed) s = (ok closed, record s { runtime_resources = none })
  closed_to left (err e) s = (err e, record s { runtime_resources = some left })
  closed_to left panic s = (panic, record s { runtime_resources = some left })

  module _ (handles : HandleApi H) where
    abbrev pub close_held :
        Option (SessionRuntimeResources H) → Action (OpenImSession R H) (List SessionResourceInfo)
    close_held none s = (ok [], s)
    close_held (some r) s = closed_to (close_all handles r).1 (close_all handles r).0 s

    unfoldable pub close_runtime_resources : Action (OpenImSession R H) (List SessionResourceInfo)
    close_runtime_resources s = close_held s.runtime_resources s

  -- what a logout and an uninit leave
  abbrev pub leave : SessionState → OpenImSession R H → OpenImSession R H
  leave state s = record s { login_user_id = none; domains = default_services; state = state }

  -- what a login writes before it starts the tasks
  abbrev pub enter :
      LoginCredentials → SessionRuntimeResources H → OpenImSession R H → OpenImSession R H
  enter credentials runtime s = record s {
    login_user_id = some credentials.user_id;
    runtime_resources = some runtime;
    domains = default_services;
    state = SessionState.logged_in;
  }

  module _ (adapter : ResourceAdapter R H) (handles : HandleApi H) where
    abbrev pub initialize : Action (OpenImSession R H) (Unit {0})
    initialize = do
      config ← gets (λ s. s.config)
      on_adapter (adapter.init config)
      modify (λ s. emit SessionEvent.initialized (record s { state = SessionState.initialized }))

    abbrev pub init_from : SessionState → Action (OpenImSession R H) (Unit {0})
    init_from SessionState.created s = initialize s
    init_from SessionState.uninitialized s = initialize s
    init_from _ s = (ok tt, s)

    unfoldable pub init : Action (OpenImSession R H) (Unit {0})
    init s = init_from s.state s

    -- `generated` is what `gen_operation_id` gives for this call
    unfoldable pub login : Paths → String → LoginCredentials → Action (OpenImSession R H) (Unit {0})
    login paths generated credentials = do
      lift (validate_credentials credentials)
      query (λ s. may_login s.state)
      config ← gets (λ s. s.config)
      transport ← lift (transport_config generated config credentials)
      storage ← lift (storage_target paths config credentials.user_id)
      runtime ← on_adapter (adapter.login config credentials transport storage)
      lift (ensure_matches credentials transport storage runtime)
      modify (enter credentials runtime)
      start_task "transport"
      start_task "sync"
      modify (emit_each (opened_events (resource_infos runtime)))
      modify (emit (SessionEvent.logged_in credentials.user_id))

    abbrev pub log_out : String → Action (OpenImSession R H) (Unit {0})
    log_out user_id = do
      on_adapter (adapter.logout user_id)
      closed ← close_runtime_resources handles
      modify stop_all_tasks
      modify (leave SessionState.logged_out)
      modify (emit_each (closed_events closed))
      modify (emit (SessionEvent.logged_out user_id))

    abbrev pub logout_of : Option String → Action (OpenImSession R H) (Unit {0})
    logout_of none s = (ok tt, s)
    logout_of (some user_id) s = log_out user_id s

    unfoldable pub logout : Action (OpenImSession R H) (Unit {0})
    logout s = logout_of s.login_user_id s

    unfoldable pub uninit : Action (OpenImSession R H) (Unit {0})
    uninit = do
      on_adapter adapter.uninit
      closed ← close_runtime_resources handles
      modify stop_all_tasks
      modify (leave SessionState.uninitialized)
      modify (emit_each (closed_events closed))
      modify (emit SessionEvent.uninitialized)
