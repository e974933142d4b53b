-- ===== src/Session/Lifecycle/Reachable.antt =====
-- What every reachable session satisfies.
use mathlib.Core.Path.{subst}
use openim_sdk_core_rust.Base.{
  String, Bool-cases, inl, inr, false, some, ◌≡◌, refl, sym, ap, ◌∙◌, arith,
}
use openim_sdk_core_rust.Base.Keys.{string_eq}
use openim_sdk_core_rust.Errors.{>>=-eq-ok, ok_injective, ok}
use openim_sdk_core_rust.Action.{>>=-keeps, lift-keeps}
use openim_sdk_core_rust.Storage.{Paths}
use openim_sdk_core_rust.Transport.Wire.{TransportConfig}
use openim_sdk_core_rust.Session.Lifecycle.Dispatched.{
  dispatch_new_messages-IsKept, dispatch_conversation_changed-IsKept,
  dispatch_new_conversations-IsKept, dispatch_total_unread_count_changed-IsKept,
}
use openim_sdk_core_rust.Session.Lifecycle.Delivered.{
  send_message-IsKept, pull_messages-IsKept, receive_transport_pushes-IsKept,
  pump_transport_events-IsKept,
}
use openim_sdk_core_rust.Session.Config.{
  SessionConfig, LoginCredentials, StorageTarget, validate_config, validate_credentials,
  transport_config, storage_target,
}
use openim_sdk_core_rust.Session.Events.{SessionState, is_logged_in, SessionEvent, DomainServices}
use openim_sdk_core_rust.Session.Resources.{
  SessionRuntimeResources, HandleApi, ensure_matches, resource_infos,
}
use openim_sdk_core_rust.Session.State.{
  ResourceAdapter, OpenImSession, with_resource_adapter, emit, domains_mut, ensure_logged_in,
  on_adapter, start_task, opened_events, may_login, enter, initialize, init, login, init_from,
}
use openim_sdk_core_rust.Session.Lifecycle.{Step, IsReachable, IsMindfulStep, IsMindful}
use openim_sdk_core_rust.Session.Batch.Owned.{IsOwned}
use openim_sdk_core_rust.Session.Lifecycle.Invariant.{
  IsConsistent, IsWatched-IsConsistent, IsWatched, emit-IsWatched, emit_each-IsWatched,
  start_task-IsWatched, stop_task-IsWatched, register_listener-IsWatched,
  unregister_listener-IsWatched, logout-IsWatched, uninit-IsWatched,
}

module _ {H : Type 0} where
  -- resources that were matched against credentials are of their user
  ensure_matches-owner :
      (c : LoginCredentials) (target : TransportConfig) (storage : StorageTarget)
      (r : SessionRuntimeResources H)
      → ensure_matches c target storage r ≡ ok tt
      → r.user_id ≡ c.user_id
  unfolding ensure_matches
  ensure_matches-owner c target storage r matched =
      (string_eq.beq_iff r.user_id c.user_id).0 (ground (arith, matched))

module _ {W R H : Type 0} where
  enter-IsWatched :
      (c : LoginCredentials) (r : SessionRuntimeResources H) (s : OpenImSession R H)
      → r.user_id ≡ c.user_id
      → IsWatched W (enter c r s)
  enter-IsWatched c r s owner = record {
    known = refl;
    opened = ap some (sym owner);
    blank = λ impossible. refl;
    owned = λ _. tt;
  }

  module _ (adapter : ResourceAdapter R H) (handles : HandleApi H) where
    initialize-IsWatched :
        (s : OpenImSession R H)
        → IsWatched W s
        → is_logged_in s.state ≡ false
        → IsWatched W (initialize adapter handles s).1
    unfolding emit
    initialize-IsWatched s h out =
        (>>=-keeps (λ t. (IsWatched W) t × (is_logged_in t.state ≡ false))
          (on_adapter (adapter.init s.config)) _ s
          (record { known = h.known; opened = h.opened; blank = h.blank; owned = h.owned }, out)
          (λ _ t k. (
            emit-IsWatched SessionEvent.initialized (record t { state = SessionState.initialized })
                (record {
                  known = sym k.1 ∙ k.0.known;
                  opened = k.0.opened;
                  blank = k.0.blank;
                  owned = k.0.owned;
                }),
            refl,
          ))).0

    login-IsWatched :
        (paths : Paths) (generated : String) (c : LoginCredentials) (s : OpenImSession R H)
        → IsWatched W s
        → IsWatched W (login adapter handles paths generated c s).1
    unfolding login
    login-IsWatched paths generated c s h =
        lift-keeps (IsWatched W) (validate_credentials c) _ s h (λ _ _.
          lift-keeps (IsWatched W) (may_login s.state) _ s h (λ _ _.
            lift-keeps (IsWatched W) (transport_config generated s.config c) _ s h (λ target _.
              lift-keeps (IsWatched W) (storage_target paths s.config c.user_id) _ s h (λ storage _.
                >>=-keeps (IsWatched W) (on_adapter (adapter.login s.config c target storage)) _ s
                  (record { known = h.known; opened = h.opened; blank = h.blank; owned = h.owned })
                  (λ r t k.
                    lift-keeps (IsWatched W) (ensure_matches c target storage r) _ t k (λ _ matched.
                      >>=-keeps (IsWatched W) (start_task "transport") _ (enter c r t)
                        (start_task-IsWatched "transport" (enter c r t)
                          (enter-IsWatched c r t (ensure_matches-owner c target storage r matched)))
                        (λ _ u k.
                          >>=-keeps (IsWatched W) (start_task "sync") _ u
                            (start_task-IsWatched "sync" u k)
                            (λ _ v k.
                              emit-IsWatched (SessionEvent.logged_in c.user_id) _
                                (emit_each-IsWatched (opened_events (resource_infos r)) v k)))))))))

    init_from-IsWatched :
        (state : SessionState) (s : OpenImSession R H)
        → s.state ≡ state
        → IsWatched W s
        → IsWatched W (init_from adapter handles state s).1
    init_from-IsWatched SessionState.created s e h = initialize-IsWatched s h (ap is_logged_in e)
    init_from-IsWatched SessionState.uninitialized s e h =
        initialize-IsWatched s h (ap is_logged_in e)
    init_from-IsWatched SessionState.initialized s e h = h
    init_from-IsWatched SessionState.logged_in s e h = h
    init_from-IsWatched SessionState.logged_out s e h = h

    init-IsWatched :
        (s : OpenImSession R H) → IsWatched W s → IsWatched W (init adapter handles s).1
    unfolding init
    init-IsWatched s h = init_from-IsWatched s.state s refl h

    with_resource_adapter-IsWatched :
        (config : SessionConfig) (state : R) {s : OpenImSession R H}
        → with_resource_adapter config state ≡ ok s
        → IsWatched W s
    unfolding with_resource_adapter
    with_resource_adapter-IsWatched config state {s} made =
        let (u, valid, same) = >>=-eq-ok (validate_config config) _ made in
        subst (IsWatched W) (ok_injective same)
          (record { known = refl; opened = refl; blank = λ _. refl; owned = λ _. tt })

    domains_mut-IsWatched :
        (change : DomainServices → DomainServices) (s : OpenImSession R H)
        → (W → IsOwned s.login_user_id (change s.domains).conversations)
        → IsWatched W s
        → IsWatched W (domains_mut change s).1
    unfolding domains_mut ensure_logged_in
    domains_mut-IsWatched change s mindful h = elim (Bool-cases (is_logged_in s.state)) [
      | inl in_ ↦ rw in_ (record {
        known = h.known;
        opened = h.opened;
        blank = λ absent. ground (arith, in_, h.known, absent);
        owned = mindful;
      })
      | inr out ↦ rw out h
    ]

    Step-IsWatched :
        {s t : OpenImSession R H} (step : Step adapter handles s t)
        → (W → IsMindfulStep adapter handles step)
        → IsWatched W s
        → IsWatched W t
    Step-IsWatched {s} Step.inited mindful h = init-IsWatched s h
    Step-IsWatched {s} (Step.logged_in paths generated c) mindful h =
        login-IsWatched paths generated c s h
    Step-IsWatched {s} Step.logged_out mindful h = logout-IsWatched adapter handles s h
    Step-IsWatched {s} Step.uninited mindful h = uninit-IsWatched adapter handles s h
    Step-IsWatched {s} (Step.task_started name) mindful h = start_task-IsWatched name s h
    Step-IsWatched {s} (Step.task_stopped name) mindful h = stop_task-IsWatched name s h
    Step-IsWatched {s} Step.registered mindful h = register_listener-IsWatched s h
    Step-IsWatched {s} (Step.unregistered id) mindful h = unregister_listener-IsWatched id s h
    Step-IsWatched {s} (Step.sent m sender) mindful h = (send_message-IsKept m sender s h).0
    Step-IsWatched {s} (Step.pulled id transport) mindful h =
        (pull_messages-IsKept id transport s h).0
    Step-IsWatched {s} (Step.received transport) mindful h =
        (receive_transport_pushes-IsKept transport s h).0
    Step-IsWatched {s} (Step.pumped decode parse_text) mindful h =
        (pump_transport_events-IsKept handles decode parse_text s h).0
    Step-IsWatched {s} (Step.told_messages ms) mindful h = (dispatch_new_messages-IsKept ms s h).0
    Step-IsWatched {s} (Step.told_changed cs) mindful h =
        (dispatch_conversation_changed-IsKept cs s h).0
    Step-IsWatched {s} (Step.told_new cs) mindful h = (dispatch_new_conversations-IsKept cs s h).0
    Step-IsWatched {s} (Step.told_total total) mindful h =
        (dispatch_total_unread_count_changed-IsKept total s h).0
    Step-IsWatched {s} (Step.services_lent change) mindful h =
        domains_mut-IsWatched change s mindful h

module _ {R H : Type 0} (adapter : ResourceAdapter R H) (handles : HandleApi H) where
  -- a weaker watch
  unwatched : {V W : Type 0} {s : OpenImSession R H} → (W → V) → IsWatched V s → IsWatched W s
  unwatched f h = record {
    known = h.known;
    opened = h.opened;
    blank = h.blank;
    owned = λ w. h.owned (f w);
  }

  pub session-IsWatched :
      {s : OpenImSession R H} (run : IsReachable adapter handles s)
      → IsWatched (IsMindful adapter handles run) s
  session-IsWatched (IsReachable.start config state made) =
      with_resource_adapter-IsWatched adapter handles config state made
  session-IsWatched (IsReachable.next before step) =
      Step-IsWatched adapter handles step (λ w. w.1)
        (unwatched (λ w. w.0) (session-IsWatched before))

  -- However a session was created and whatever was called on it, and also after calls that ended in
  -- an error, whatever its callers did with the services that they were lent: it is logged in
  -- exactly when it has a user; resources that it holds are that user's, and without a user it holds
  -- none; and without a user its services are as when new.
  pub session-IsConsistent :
      {s : OpenImSession R H} → IsReachable adapter handles s → IsConsistent s
  session-IsConsistent run = IsWatched-IsConsistent (session-IsWatched run)

  -- However a session was created and whatever was called on it, and also after calls that ended in
  -- an error: if every caller who was lent the services left in them only conversations of the user
  -- under that user's keys, then every conversation that the session holds is of the user who is
  -- logged in, and stands under its own key.
  pub session-IsOwned :
      {s : OpenImSession R H} (run : IsReachable adapter handles s)
      → IsMindful adapter handles run
      → IsOwned s.login_user_id s.domains.conversations
  session-IsOwned run mindful = (session-IsWatched run).owned mindful
