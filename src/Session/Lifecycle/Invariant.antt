-- ===== src/Session/Lifecycle/Invariant.antt =====
-- What holds of a session between two calls.
use mathlib.Core.Path.{subst}
use openim_sdk_core_rust.Base.{
  ℕ, String, Bool, true, false, Option, none, some, List, [], ◌∷◌, ◌≡◌, refl, sym, ap, ◌∙◌, inl,
  inr, is_some, Bool-cases, if◌then◌else◌, map,
}
use openim_sdk_core_rust.Base.Keys.{string_eq}
use openim_sdk_core_rust.Errors.{Result, ok, err, panic}
use openim_sdk_core_rust.Action.{Action, ◌>>◌, >>=-keeps, ◌>>=◌, modify}
use openim_sdk_core_rust.Session.Batch.Owned.{IsOwned}
use openim_sdk_core_rust.Session.Events.{SessionState, is_logged_in, SessionEvent, default_services}
use openim_sdk_core_rust.Session.Resources.{
  SessionResourceInfo, SessionRuntimeResources, HandleApi, close_all, finish_closing, Closing,
}
use openim_sdk_core_rust.Session.Tasks.{stop_all, start, stop, unregister}
use openim_sdk_core_rust.Session.State.{
  ResourceAdapter, OpenImSession, emit, emit_each, on_adapter, on_tasks, start_task, stop_task,
  stop_all_tasks, register_listener, unregister_listener, closed_to, close_runtime_resources, leave,
  closed_events, log_out, logout, uninit, close_held, logout_of,
}

-- the resources of a login belong to the user who is logged in
abbrev pub BelongsTo : {H : Type 0} → Option String → Option (SessionRuntimeResources H) → Type 0
BelongsTo user none = user ≡ none
BelongsTo user (some r) = user ≡ some r.user_id

module _ {R H : Type 0} where
  -- whether someone is logged in is said alike by the state, the user, and the resources; without a
  -- user the services are as when new
  pub record IsConsistent (s : OpenImSession R H) : Type 0 where
    pub known : is_logged_in s.state ≡ is_some s.login_user_id
    pub opened : BelongsTo s.login_user_id s.runtime_resources
    pub blank : s.login_user_id ≡ none → s.domains ≡ default_services

  -- and the conversations are those of the user, where what is done to them elsewhere is watched
  pub record IsWatched (W : Type 0) (s : OpenImSession R H) : Type 0 where
    pub known : is_logged_in s.state ≡ is_some s.login_user_id
    pub opened : BelongsTo s.login_user_id s.runtime_resources
    pub blank : s.login_user_id ≡ none → s.domains ≡ default_services
    pub owned : W → IsOwned s.login_user_id s.domains.conversations

  emit_each-eq :
      (events : List SessionEvent) (s : OpenImSession R H)
      → (emit_each events s).runtime_resources ≡ s.runtime_resources
  unfolding emit_each emit
  emit_each-eq [] s = refl
  emit_each-eq (event ∷ rest) s = emit_each-eq rest (emit event s)

module _ {H : Type 0} (handles : HandleApi H) where
  finish_closing-eq :
      (r : SessionRuntimeResources H) (answer : Result (Closing H))
      → (finish_closing handles r answer).1.user_id ≡ r.user_id
  unfolding finish_closing
  finish_closing-eq r (ok c) = refl
  finish_closing-eq r (err e) = refl
  finish_closing-eq r panic = refl

  close_all-eq : (r : SessionRuntimeResources H) → (close_all handles r).1.user_id ≡ r.user_id
  unfolding close_all
  close_all-eq r = finish_closing-eq r _

module _ {W R H : Type 0} where
  pub IsWatched-IsConsistent : {s : OpenImSession R H} → IsWatched W s → IsConsistent s
  IsWatched-IsConsistent h = record { known = h.known; opened = h.opened; blank = h.blank }

  pub emit-IsWatched :
      (event : SessionEvent) (s : OpenImSession R H) → IsWatched W s → IsWatched W (emit event s)
  unfolding emit
  emit-IsWatched event s h = record {
    known = h.known;
    opened = h.opened;
    blank = h.blank;
    owned = h.owned;
  }

  pub emit_each-IsWatched :
      (events : List SessionEvent) (s : OpenImSession R H)
      → IsWatched W s
      → IsWatched W (emit_each events s)
  unfolding emit_each
  emit_each-IsWatched [] s h = h
  emit_each-IsWatched (event ∷ rest) s h =
      emit_each-IsWatched rest (emit event s) (emit-IsWatched event s h)

  -- an event that is emitted only where a flag is set
  emit_if-IsWatched :
      (flag : Bool) (event : SessionEvent) (s : OpenImSession R H)
      → IsWatched W s
      → IsWatched W ((if flag then emit event else (λ t. t)) s)
  emit_if-IsWatched true event s h = emit-IsWatched event s h
  emit_if-IsWatched false event s h = h

  pub start_task-IsWatched :
      (name : String) (s : OpenImSession R H) → IsWatched W s → IsWatched W (start_task name s).1
  unfolding start_task
  start_task-IsWatched name s h =
      >>=-keeps (IsWatched W) (on_tasks (start name))
        (λ started. modify (if started then emit (SessionEvent.task_started name) else (λ t. t))) s
        (record { known = h.known; opened = h.opened; blank = h.blank; owned = h.owned })
        (λ started t. emit_if-IsWatched started (SessionEvent.task_started name) t)

  pub stop_task-IsWatched :
      (name : String) (s : OpenImSession R H) → IsWatched W s → IsWatched W (stop_task name s).1
  unfolding stop_task
  stop_task-IsWatched name s h =
      >>=-keeps (IsWatched W) (on_tasks (stop name))
        (λ stopped. modify (if stopped then emit (SessionEvent.task_stopped name) else (λ t. t))) s
        (record { known = h.known; opened = h.opened; blank = h.blank; owned = h.owned })
        (λ stopped t. emit_if-IsWatched stopped (SessionEvent.task_stopped name) t)

  -- what a logout and an uninit write once the resources are closed
  leave-IsWatched :
      (state : SessionState) (s : OpenImSession R H)
      → is_logged_in state ≡ false
      → s.runtime_resources ≡ none
      → IsWatched W (leave state (stop_all_tasks s))
  unfolding stop_all_tasks
  leave-IsWatched state s out closed =
      let stopped = map SessionEvent.task_stopped (stop_all s.tasks).0 in
      let left = record s { tasks = (stop_all s.tasks).1 } in
      let gone : (emit_each stopped left).runtime_resources ≡ none =
        emit_each-eq stopped left ∙ closed in
      record { known = out; opened = rw gone refl; blank = λ _. refl; owned = λ _. tt }

  pub register_listener-IsWatched :
      (s : OpenImSession R H) → IsWatched W s → IsWatched W (register_listener s).1
  unfolding register_listener
  register_listener-IsWatched s h =
      emit-IsWatched _ _
        (record { known = h.known; opened = h.opened; blank = h.blank; owned = h.owned })

  pub unregister_listener-IsWatched :
      (id : ℕ) (s : OpenImSession R H) → IsWatched W s → IsWatched W (unregister_listener id s).1
  unfolding unregister_listener
  unregister_listener-IsWatched id s h =
      let left = record s { listeners = (unregister id s.listeners).1 } in
      let calm : IsWatched W left = record {
        known = h.known;
        opened = h.opened;
        blank = h.blank;
        owned = h.owned;
      } in
      elim (Bool-cases (unregister id s.listeners).0) [
        | inl removed ↦
            rw removed (emit-IsWatched (SessionEvent.listener_unregistered id) left calm)
        | inr missing ↦ rw missing calm
      ]

  closed_to-keeps :
      {B : Type 0} (left : SessionRuntimeResources H) (answer : Result (List SessionResourceInfo))
      (f : List SessionResourceInfo → Action (OpenImSession R H) B) (s : OpenImSession R H)
      → IsWatched W s
      → s.login_user_id ≡ some left.user_id
      → ((closed : List SessionResourceInfo) (t : OpenImSession R H)
          → t.runtime_resources ≡ none
          → IsWatched W (f closed t).1)
      → IsWatched W (◌>>=◌ (closed_to left answer) f s).1
  closed_to-keeps left (ok closed) f s h owner k =
      k closed (record s { runtime_resources = none }) refl
  closed_to-keeps left (err e) f s h owner k = record {
    known = h.known;
    opened = owner;
    blank = h.blank;
    owned = h.owned;
  }
  closed_to-keeps left panic f s h owner k = record {
    known = h.known;
    opened = owner;
    blank = h.blank;
    owned = h.owned;
  }

  module _ (adapter : ResourceAdapter R H) (handles : HandleApi H) where
    close_held-keeps :
        {B : Type 0} (held : Option (SessionRuntimeResources H))
        (f : List SessionResourceInfo → Action (OpenImSession R H) B) (s : OpenImSession R H)
        → IsWatched W s
        → s.runtime_resources ≡ held
        → ((closed : List SessionResourceInfo) (t : OpenImSession R H)
            → t.runtime_resources ≡ none
            → IsWatched W (f closed t).1)
        → IsWatched W (◌>>=◌ (close_held handles held) f s).1
    close_held-keeps none f s h gone k = k [] s gone
    close_held-keeps (some r) f s h there k =
        let owner : s.login_user_id ≡ some r.user_id =
          subst (BelongsTo s.login_user_id) there h.opened in
        closed_to-keeps (close_all handles r).1 (close_all handles r).0 f s h
          (owner ∙ ap some (sym (close_all-eq handles r))) k

    -- closing the resources, and what follows it where they are all closed
    close_runtime_resources-keeps :
        {B : Type 0} (f : List SessionResourceInfo → Action (OpenImSession R H) B)
        (s : OpenImSession R H)
        → IsWatched W s
        → ((closed : List SessionResourceInfo) (t : OpenImSession R H)
            → t.runtime_resources ≡ none
            → IsWatched W (f closed t).1)
        → IsWatched W (◌>>=◌ (close_runtime_resources handles) f s).1
    unfolding close_runtime_resources
    close_runtime_resources-keeps f s h k = close_held-keeps s.runtime_resources f s h refl k

    -- the tail of a logout and of an uninit
    left-IsWatched :
        (state : SessionState) (event : SessionEvent) (s : OpenImSession R H)
        → is_logged_in state ≡ false
        → IsWatched W s
        → (IsWatched W)
            (◌>>=◌
              (close_runtime_resources handles)
              (λ closed. do
                modify stop_all_tasks
                modify (leave state)
                modify (emit_each (closed_events closed))
                modify (emit event))
              s).1
    left-IsWatched state event s out h = close_runtime_resources-keeps _ s h (λ closed t gone.
        emit-IsWatched event _
          (emit_each-IsWatched (closed_events closed) _ (leave-IsWatched state t out gone)))

    log_out-IsWatched :
        (user_id : String) (s : OpenImSession R H)
        → IsWatched W s
        → IsWatched W (log_out adapter handles user_id s).1
    log_out-IsWatched user_id s h =
        >>=-keeps (IsWatched W) (on_adapter (adapter.logout user_id)) _ s
          (record { known = h.known; opened = h.opened; blank = h.blank; owned = h.owned })
          (λ _ t. left-IsWatched SessionState.logged_out (SessionEvent.logged_out user_id) t refl)

    logout_of-IsWatched :
        (user : Option String) (s : OpenImSession R H)
        → IsWatched W s
        → IsWatched W (logout_of adapter handles user s).1
    logout_of-IsWatched none s h = h
    logout_of-IsWatched (some user_id) s h = log_out-IsWatched user_id s h

    pub logout-IsWatched :
        (s : OpenImSession R H) → IsWatched W s → IsWatched W (logout adapter handles s).1
    unfolding logout
    logout-IsWatched s h = logout_of-IsWatched s.login_user_id s h

    pub uninit-IsWatched :
        (s : OpenImSession R H) → IsWatched W s → IsWatched W (uninit adapter handles s).1
    unfolding uninit
    uninit-IsWatched s h =
        >>=-keeps (IsWatched W) (on_adapter adapter.uninit) _ s
          (record { known = h.known; opened = h.opened; blank = h.blank; owned = h.owned })
          (λ _ t. left-IsWatched SessionState.uninitialized SessionEvent.uninitialized t refl)
