-- ===== src/Session/Lifecycle/Transitions.antt =====
-- How the state of a session may change.
use openim_sdk_core_rust.Base.{
  Bool-cases, String, Bool, true, false, Option, none, some, ◌≡◌, refl, ap, ◌∙◌, ◌⊎◌, inl, inr,
  is_some,
}
use openim_sdk_core_rust.Base.Keys.{string_eq}
use openim_sdk_core_rust.Errors.{ok}
use openim_sdk_core_rust.Action.{>>=-keeps, >>=-leads, lift-keeps}
use openim_sdk_core_rust.Storage.{Paths}
use openim_sdk_core_rust.Session.Lifecycle.Dispatched.{
  dispatch_new_messages-IsKept, dispatch_conversation_changed-IsKept,
  dispatch_new_conversations-IsKept, dispatch_total_unread_count_changed-IsKept,
}
use openim_sdk_core_rust.Session.Lifecycle.Delivered.{
  send_message-IsKept, pull_messages-IsKept, receive_transport_pushes-IsKept,
  pump_transport_events-IsKept,
}
use openim_sdk_core_rust.Session.Config.{
  LoginCredentials, validate_credentials, transport_config, storage_target,
}
use openim_sdk_core_rust.Session.Events.{SessionState, is_logged_in, SessionEvent, DomainServices}
use openim_sdk_core_rust.Session.Resources.{HandleApi, ensure_matches, resource_infos}
use openim_sdk_core_rust.Session.State.{
  domains_mut, ensure_logged_in, ResourceAdapter, OpenImSession, emit, on_adapter, start_task,
  register_listener, opened_events, may_login, enter, initialize, init, login, log_out, logout,
  uninit, init_from, logout_of,
}
use openim_sdk_core_rust.Session.Lifecycle.{Step, IsReachable}
use openim_sdk_core_rust.Session.Lifecycle.Invariant.{IsConsistent}
use openim_sdk_core_rust.Session.Lifecycle.Reachable.{session-IsConsistent, session-IsWatched}
use openim_sdk_core_rust.Session.Lifecycle.Kept.{
  StaysOr, emit_each-state, start_task-state, stop_task-state, unregister_listener-state,
  left-state,
}

-- the changes of state that a session may make
abbrev pub may_follow : SessionState → SessionState → Bool
may_follow SessionState.created SessionState.initialized = true
may_follow SessionState.uninitialized SessionState.initialized = true
may_follow SessionState.initialized SessionState.logged_in = true
may_follow SessionState.logged_out SessionState.logged_in = true
may_follow SessionState.logged_in SessionState.logged_out = true
may_follow _ SessionState.uninitialized = true
may_follow _ _ = false

module _ {R H : Type 0} where
  module _ (adapter : ResourceAdapter R H) (handles : HandleApi H) where
    log_out-state :
        (user : String) (s : OpenImSession R H)
        → StaysOr s.state SessionState.logged_out (log_out adapter handles user s).1
    log_out-state user s =
        >>=-leads (λ t. t.state ≡ s.state) (StaysOr s.state SessionState.logged_out)
          (on_adapter (adapter.logout user)) _ s refl (λ t. inl)
          (λ _ t.
            left-state adapter handles s.state SessionState.logged_out
              (SessionEvent.logged_out user) t)

    uninit-state :
        (s : OpenImSession R H)
        → StaysOr s.state SessionState.uninitialized (uninit adapter handles s).1
    unfolding uninit
    uninit-state s =
        >>=-leads (λ t. t.state ≡ s.state) (StaysOr s.state SessionState.uninitialized)
          (on_adapter adapter.uninit) _ s refl (λ t. inl)
          (λ _ t.
            left-state adapter handles s.state SessionState.uninitialized SessionEvent.uninitialized
              t)

    initialize-state :
        (s : OpenImSession R H)
        → StaysOr s.state SessionState.initialized (initialize adapter handles s).1
    unfolding emit
    initialize-state s =
        >>=-leads (λ t. t.state ≡ s.state) (StaysOr s.state SessionState.initialized)
          (on_adapter (adapter.init s.config)) _ s refl (λ t. inl) (λ _ t k. inr refl)

    init_from-state :
        (before : SessionState) (s : OpenImSession R H)
        → s.state ≡ before
        → ((init_from adapter handles before s).1.state ≡ before)
          ⊎ (may_follow before (init_from adapter handles before s).1.state ≡ true)
    init_from-state SessionState.created s e = elim (initialize-state s) [
      | inl same ↦ inl (same ∙ e)
      | inr to ↦ inr (ap (may_follow SessionState.created) to)
    ]
    init_from-state SessionState.uninitialized s e = elim (initialize-state s) [
      | inl same ↦ inl (same ∙ e)
      | inr to ↦ inr (ap (may_follow SessionState.uninitialized) to)
    ]
    init_from-state SessionState.initialized s e = inl e
    init_from-state SessionState.logged_in s e = inl e
    init_from-state SessionState.logged_out s e = inl e

    -- the states that a login may leave
    abbrev LoginLeaves : SessionState → OpenImSession R H → Type 0
    LoginLeaves before t =
        (t.state ≡ before) ⊎ (may_login before ≡ ok tt) × (t.state ≡ SessionState.logged_in)

    login-state :
        (paths : Paths) (generated : String) (c : LoginCredentials) (s : OpenImSession R H)
        → LoginLeaves s.state (login adapter handles paths generated c s).1
    unfolding login emit
    login-state paths generated c s =
        let P = LoginLeaves s.state in
        let In : OpenImSession R H → Type 0 = λ t. t.state ≡ SessionState.logged_in in
        lift-keeps P (validate_credentials c) _ s (inl refl) (λ _ _.
          lift-keeps P (may_login s.state) _ s (inl refl) (λ _ allowed.
            lift-keeps P (transport_config generated s.config c) _ s (inl refl) (λ target _.
              lift-keeps P (storage_target paths s.config c.user_id) _ s (inl refl) (λ storage _.
                >>=-leads (λ t. t.state ≡ s.state) P
                  (on_adapter (adapter.login s.config c target storage)) _ s refl (λ t. inl)
                  (λ r t k. lift-keeps P (ensure_matches c target storage r) _ t (inl k) (λ _ _.
                    inr (
                      allowed,
                      >>=-keeps In (start_task "transport") _ (enter c r t)
                          (start_task-state "transport" (enter c r t))
                          (λ _ u k.
                            >>=-keeps In (start_task "sync") _ u (start_task-state "sync" u ∙ k)
                              (λ _ v k. emit_each-state (opened_events (resource_infos r)) v ∙ k)),
                    )))))))

    -- a login is allowed from the states that precede a logged in one
    may_login-follows :
        (before : SessionState)
        → may_login before ≡ ok tt
        → may_follow before SessionState.logged_in ≡ true
    may_login-follows SessionState.created h = cc
    may_login-follows SessionState.initialized h = refl
    may_login-follows SessionState.logged_in h = cc
    may_login-follows SessionState.logged_out h = refl
    may_login-follows SessionState.uninitialized h = cc

    follows-uninitialized :
        (before : SessionState) → may_follow before SessionState.uninitialized ≡ true
    follows-uninitialized SessionState.created = refl
    follows-uninitialized SessionState.initialized = refl
    follows-uninitialized SessionState.logged_in = refl
    follows-uninitialized SessionState.logged_out = refl
    follows-uninitialized SessionState.uninitialized = refl

    follows-logged_out :
        (before : SessionState)
        → is_logged_in before ≡ true
        → may_follow before SessionState.logged_out ≡ true
    follows-logged_out SessionState.created h = cc
    follows-logged_out SessionState.initialized h = cc
    follows-logged_out SessionState.logged_in h = refl
    follows-logged_out SessionState.logged_out h = cc
    follows-logged_out SessionState.uninitialized h = cc

    abbrev Follows : SessionState → SessionState → Type 0
    Follows before state = (state ≡ before) ⊎ (may_follow before state ≡ true)

    logout_of-Follows :
        (user : Option String) (s : OpenImSession R H)
        → is_logged_in s.state ≡ is_some user
        → Follows s.state (logout_of adapter handles user s).1.state
    logout_of-Follows none s h = inl refl
    logout_of-Follows (some user) s h = elim (log_out-state user s) [
      | inl same ↦ inl same
      | inr out ↦ inr (ap (may_follow s.state) out ∙ follows-logged_out s.state h)
    ]

    logout-Follows :
        (s : OpenImSession R H)
        → IsConsistent s
        → Follows s.state (logout adapter handles s).1.state
    unfolding logout
    logout-Follows s h = logout_of-Follows s.login_user_id s h.known

    init-Follows : (s : OpenImSession R H) → Follows s.state (init adapter handles s).1.state
    unfolding init
    init-Follows s = init_from-state s.state s refl

    domains_mut-state :
        (change : DomainServices → DomainServices) (s : OpenImSession R H)
        → (domains_mut change s).1.state ≡ s.state
    unfolding domains_mut ensure_logged_in
    domains_mut-state change s = elim (Bool-cases (is_logged_in s.state)) [
      | inl in_ ↦ rw in_ refl
      | inr out ↦ rw out refl
    ]

    -- The state of a session that any calls have led to changes in one call only as the life cycle
    -- has it: a session becomes initialized from new or uninitialized, logged in from initialized
    -- or logged out, logged out from logged in, and uninitialized from any state; a call that does
    -- not do that, or that ends in an error before it, leaves the state.
    pub Step-follows :
        {s t : OpenImSession R H}
        → IsReachable adapter handles s
        → Step adapter handles s t
        → (t.state ≡ s.state) ⊎ (may_follow s.state t.state ≡ true)
    unfolding register_listener emit
    Step-follows {s} r Step.inited = init-Follows s
    Step-follows {s} r (Step.logged_in paths generated c) = elim (login-state paths generated c s) [
      | inl same ↦ inl same
      | inr (allowed, now) ↦ inr (ap (may_follow s.state) now ∙ may_login-follows s.state allowed)
    ]
    Step-follows {s} r Step.logged_out = logout-Follows s (session-IsConsistent adapter handles r)
    Step-follows {s} r Step.uninited = elim (uninit-state s) [
      | inl same ↦ inl same
      | inr now ↦ inr (ap (may_follow s.state) now ∙ follows-uninitialized s.state)
    ]
    Step-follows {s} r (Step.task_started name) = inl (start_task-state name s)
    Step-follows {s} r (Step.task_stopped name) = inl (stop_task-state name s)
    Step-follows {s} r Step.registered = inl refl
    Step-follows {s} r (Step.unregistered id) = inl (unregister_listener-state id s)
    Step-follows {s} r (Step.sent m sender) =
        inl (send_message-IsKept m sender s (session-IsWatched adapter handles r)).1
    Step-follows {s} r (Step.pulled id transport) =
        inl (pull_messages-IsKept id transport s (session-IsWatched adapter handles r)).1
    Step-follows {s} r (Step.received transport) =
        inl (receive_transport_pushes-IsKept transport s (session-IsWatched adapter handles r)).1
    Step-follows {s} r (Step.pumped decode parse_text) =
        inl
          (pump_transport_events-IsKept handles decode parse_text s
            (session-IsWatched adapter handles r)).1
    Step-follows {s} r (Step.told_messages ms) =
        inl (dispatch_new_messages-IsKept ms s (session-IsWatched adapter handles r)).1
    Step-follows {s} r (Step.told_changed cs) =
        inl (dispatch_conversation_changed-IsKept cs s (session-IsWatched adapter handles r)).1
    Step-follows {s} r (Step.told_new cs) =
        inl (dispatch_new_conversations-IsKept cs s (session-IsWatched adapter handles r)).1
    Step-follows {s} r (Step.told_total total) =
        inl
          (dispatch_total_unread_count_changed-IsKept total s
            (session-IsWatched adapter handles r)).1
    Step-follows {s} r (Step.services_lent change) = inl (domains_mut-state change s)
