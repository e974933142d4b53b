-- ===== src/Session/Lifecycle/Granted.antt =====
-- The calls of a session whose adapter and handles refuse nothing.
use mathlib.Core.Path.{subst}
use openim_sdk_core_rust.Base.{
  String, Bool, true, false, Option, none, some, List, [], ◌∷◌, ◌≡◌, refl, sym, ap, ◌∙◌,
  if◌then◌else◌,
}
use openim_sdk_core_rust.Base.Keys.{string_eq}
use openim_sdk_core_rust.Errors.{◌>>◌ as ◌>>?◌, ok}
use openim_sdk_core_rust.Action.{Action, ◌>>◌, >>=-keeps, lift-ok, >>=_of_ok, ◌>>=◌, modify}
use openim_sdk_core_rust.Storage.{Paths}
use openim_sdk_core_rust.Transport.Wire.{TransportConfig, new_config}
use openim_sdk_core_rust.Types.{platform_value}
use openim_sdk_core_rust.Session.Config.{
  SessionConfig, LoginCredentials, StorageTarget, validate_credentials, transport_config,
  storage_target,
}
use openim_sdk_core_rust.Session.Events.{SessionState, SessionEvent}
use openim_sdk_core_rust.Session.Resources.{
  SessionResourceInfo, SessionRuntimeResources, HandleApi, close_all, ensure_matches,
  resource_infos,
}
use openim_sdk_core_rust.Session.Tasks.{start}
use openim_sdk_core_rust.Session.State.{
  ResourceAdapter, OpenImSession, emit, emit_each, on_adapter, on_tasks, start_task, stop_all_tasks,
  closed_to, close_runtime_resources, leave, closed_events, opened_events, may_login, enter,
  initialize, login, log_out, close_held,
}
use openim_sdk_core_rust.Session.Lifecycle.{Step}

module _ {R H : Type 0} (adapter : ResourceAdapter R H) (handles : HandleApi H) where
  -- any number of calls
  pub data Run : OpenImSession R H → OpenImSession R H → Type 0 where
    done : {s : OpenImSession R H} → Run s s
    call : {s t u : OpenImSession R H} → Step adapter handles s t → Run t u → Run s u

  -- an adapter and handles that refuse nothing to credentials that are valid
  pub record IsWilling : Type 0 where
    pub inits : (config : SessionConfig) (r : R) → (adapter.init config r).0 ≡ ok tt
    pub opens :
        (config : SessionConfig) (c : LoginCredentials) (target : TransportConfig)
        (storage : StorageTarget) (r : R)
        → validate_credentials c ≡ ok tt
        → (runtime : SessionRuntimeResources H) × ((adapter.login config c target storage r).0
            ≡ ok runtime)
          × (ensure_matches c target storage runtime ≡ ok tt)
    pub lets_go : (user : String) (r : R) → (adapter.logout user r).0 ≡ ok tt
    pub closes :
        (r : SessionRuntimeResources H)
        → (closed : List SessionResourceInfo) × ((close_all handles r).0 ≡ ok closed)

module _ {R H : Type 0} where
  -- events change only what was delivered
  emit_each-eq :
      (events : List SessionEvent) (s : OpenImSession R H)
      → emit_each events s ≡ record s { delivered = (emit_each events s).delivered }
  unfolding emit_each emit
  emit_each-eq [] s = refl
  emit_each-eq (event ∷ rest) s = emit_each-eq rest (emit event s)

  -- an adapter's call that succeeds
  on_adapter_of_ok :
      {A : Type 0} (m : Action R A) (s : OpenImSession R H) {a : A}
      → (m s.resources).0 ≡ ok a
      → on_adapter m s ≡ (ok a, record s { resources = (m s.resources).1 })
  on_adapter_of_ok m s e = ap (λ q. (q, record s { resources = (m s.resources).1 })) e

  -- the user whom a session has, and that it is logged in
  abbrev pub HasUser : String → OpenImSession R H → Type 0
  HasUser user t = (t.state ≡ SessionState.logged_in) × (t.login_user_id ≡ some user)

  emit_if-HasUser :
      (user : String) (flag : Bool) (event : SessionEvent) (s : OpenImSession R H)
      → HasUser user s
      → HasUser user ((if flag then emit event else (λ t. t)) s)
  unfolding emit
  emit_if-HasUser user true event s h = h
  emit_if-HasUser user false event s h = h

  start_task-HasUser :
      (user name : String) (s : OpenImSession R H)
      → HasUser user s
      → HasUser user (start_task name s).1
  unfolding start_task
  start_task-HasUser user name s h =
      >>=-keeps (HasUser user) (on_tasks (start name)) _ s h
        (λ started t. emit_if-HasUser user started (SessionEvent.task_started name) t)

  emit_each-HasUser :
      (user : String) (events : List SessionEvent) (s : OpenImSession R H)
      → HasUser user s
      → HasUser user (emit_each events s)
  emit_each-HasUser user events s h = (
    ap (λ t. t.state) (emit_each-eq events s) ∙ h.0,
    ap (λ t. t.login_user_id) (emit_each-eq events s) ∙ h.1,
  )

  module _ (adapter : ResourceAdapter R H) (handles : HandleApi H)
      (willing : IsWilling adapter handles) where
    pub initialize_lem :
        (s : OpenImSession R H)
        → ((initialize adapter handles s).1.state ≡ SessionState.initialized)
          × ((initialize adapter handles s).1.config ≡ s.config)
    unfolding emit
    initialize_lem s =
        let e =
          >>=_of_ok (on_adapter (adapter.init s.config))
            (λ _.
              modify (λ t.
                emit SessionEvent.initialized (record t { state = SessionState.initialized })))
            s (on_adapter_of_ok (adapter.init s.config) s (willing.inits s.config s.resources)) in
        (ap (λ q. q.1.state) e, ap (λ q. q.1.config) e)

    close_held_lem :
        (held : Option (SessionRuntimeResources H)) (s : OpenImSession R H)
        → (closed : List SessionResourceInfo) × (u : OpenImSession R H) × (close_held handles held s
            ≡ (ok closed, u))
          × (u.config ≡ s.config)
    close_held_lem none s = ([], s, refl, refl)
    close_held_lem (some r) s =
        let (closed, e) = willing.closes r in
        (
          closed,
          record s { runtime_resources = none },
          ap (λ q. closed_to (close_all handles r).1 q s) e,
          refl,
        )

    pub log_out_lem :
        (user : String) (s : OpenImSession R H)
        → ((log_out adapter handles user s).1.state ≡ SessionState.logged_out)
          × ((log_out adapter handles user s).1.config ≡ s.config)
    unfolding emit stop_all_tasks close_runtime_resources
    log_out_lem user s =
        let t = record s { resources = (adapter.logout user s.resources).1 } in
        let (closed, u, shut, same) = close_held_lem t.runtime_resources t in
        let left =
          emit_each (closed_events closed) (leave SessionState.logged_out (stop_all_tasks u)) in
        let rest : List SessionResourceInfo → Action (OpenImSession R H) (Unit {0}) = λ closed. (do
          modify stop_all_tasks
          modify (leave SessionState.logged_out)
          modify (emit_each (closed_events closed))
          modify (emit (SessionEvent.logged_out user))) in
        let e : log_out adapter handles user s ≡ (ok tt, emit (SessionEvent.logged_out user) left) =
          >>=_of_ok (on_adapter (adapter.logout user))
            (λ _. ◌>>=◌ (close_runtime_resources handles) rest) s
            (on_adapter_of_ok (adapter.logout user) s (willing.lets_go user s.resources))
          ∙ >>=_of_ok (close_runtime_resources handles) rest t shut in
        (
          ap (λ q. q.1.state) e ∙ ap (λ t. t.state) (emit_each-eq (closed_events closed) _),
          ap (λ q. q.1.config) e
              ∙ ap (λ t. t.config) (emit_each-eq (closed_events closed) _)
              ∙ ap (λ t. t.config) (emit_each-eq _ _)
              ∙ same,
        )

    transport_config_lem :
        (generated : String) (config : SessionConfig) (c : LoginCredentials)
        → validate_credentials c ≡ ok tt
        → (target : TransportConfig) × (transport_config generated config c ≡ ok target)
    unfolding transport_config
    transport_config_lem generated config c valid =
        let target =
          new_config generated config.ws_addr c.user_id c.token (platform_value config.platform) in
        (target, ap (λ q. q >>? ok target) valid)

    -- the tail of a login
    enter-HasUser :
        (c : LoginCredentials) (r : SessionRuntimeResources H) (s : OpenImSession R H)
        → HasUser c.user_id
            ((do
              modify (enter c r)
              start_task "transport"
              start_task "sync"
              modify (emit_each (opened_events (resource_infos r)))
              modify (emit (SessionEvent.logged_in c.user_id)))
              s).1
    unfolding emit
    enter-HasUser c r s =
        >>=-keeps (HasUser c.user_id) (start_task "transport") _ (enter c r s)
          (start_task-HasUser c.user_id "transport" (enter c r s) (refl, refl))
          (λ _ u k.
            >>=-keeps (HasUser c.user_id) (start_task "sync") _ u
              (start_task-HasUser c.user_id "sync" u k)
              (λ _ v k. emit_each-HasUser c.user_id (opened_events (resource_infos r)) v k))

    -- a login that nothing refuses
    pub login-HasUser :
        (paths : Paths) (generated : String) (c : LoginCredentials) (s : OpenImSession R H)
        {storage : StorageTarget}
        → validate_credentials c ≡ ok tt
        → may_login s.state ≡ ok tt
        → storage_target paths s.config c.user_id ≡ ok storage
        → HasUser c.user_id (login adapter handles paths generated c s).1
    unfolding login
    login-HasUser paths generated c s {storage} valid allowed stored =
        let (target, made) = transport_config_lem generated s.config c valid in
        let (r, opened, matched) = willing.opens s.config c target storage s.resources valid in
        let t = record s { resources = (adapter.login s.config c target storage s.resources).1 } in
        let e =
          lift-ok (validate_credentials c) _ s valid
          ∙ lift-ok (may_login s.state) _ s allowed
          ∙ lift-ok (transport_config generated s.config c) _ s made
          ∙ lift-ok (storage_target paths s.config c.user_id) _ s stored
          ∙ >>=_of_ok (on_adapter (adapter.login s.config c target storage)) _ s
              (on_adapter_of_ok (adapter.login s.config c target storage) s opened)
          ∙ lift-ok (ensure_matches c target storage r) _ t matched in
        subst (λ q. HasUser c.user_id q.1) (sym e) (enter-HasUser c r t)
