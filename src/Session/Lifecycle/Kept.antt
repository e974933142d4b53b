-- ===== src/Session/Lifecycle/Kept.antt =====
-- What the parts of a call do to the state of a session.
use openim_sdk_core_rust.Base.{
  ℕ, String, Bool, true, false, Option, none, some, List, [], ◌∷◌, ◌≡◌, refl, ◌∙◌, ◌⊎◌, inl, inr,
  Bool-cases, if◌then◌else◌,
}
use openim_sdk_core_rust.Base.Keys.{string_eq}
use openim_sdk_core_rust.Errors.{Result, ok, err, panic}
use openim_sdk_core_rust.Action.{◌>>◌, >>=-keeps, ◌>>=◌, modify}
use openim_sdk_core_rust.Session.Events.{SessionState, SessionEvent}
use openim_sdk_core_rust.Session.Resources.{
  SessionResourceInfo, SessionRuntimeResources, HandleApi, close_all,
}
use openim_sdk_core_rust.Session.Tasks.{start, stop, unregister}
use openim_sdk_core_rust.Session.State.{
  ResourceAdapter, OpenImSession, emit, emit_each, on_tasks, start_task, stop_task, stop_all_tasks,
  unregister_listener, closed_to, close_runtime_resources, leave, closed_events, close_held,
}

module _ {R H : Type 0} where
  -- the state stays, or is the one given
  abbrev pub StaysOr : SessionState → SessionState → OpenImSession R H → Type 0
  StaysOr before state t = (t.state ≡ before) ⊎ (t.state ≡ state)

  pub emit_each-state :
      (events : List SessionEvent) (s : OpenImSession R H) → (emit_each events s).state ≡ s.state
  unfolding emit_each emit
  emit_each-state [] s = refl
  emit_each-state (event ∷ rest) s = emit_each-state rest (emit event s)

  pub emit_if-state :
      (flag : Bool) (event : SessionEvent) (s : OpenImSession R H)
      → ((if flag then emit event else (λ t. t)) s).state ≡ s.state
  unfolding emit
  emit_if-state true event s = refl
  emit_if-state false event s = refl

  pub start_task-state :
      (name : String) (s : OpenImSession R H) → (start_task name s).1.state ≡ s.state
  unfolding start_task
  start_task-state name s =
      >>=-keeps (λ t. t.state ≡ s.state) (on_tasks (start name)) _ s refl
        (λ started t k. emit_if-state started (SessionEvent.task_started name) t ∙ k)

  pub stop_task-state :
      (name : String) (s : OpenImSession R H) → (stop_task name s).1.state ≡ s.state
  unfolding stop_task
  stop_task-state name s =
      >>=-keeps (λ t. t.state ≡ s.state) (on_tasks (stop name)) _ s refl
        (λ stopped t k. emit_if-state stopped (SessionEvent.task_stopped name) t ∙ k)

  pub unregister_listener-state :
      (id : ℕ) (s : OpenImSession R H) → (unregister_listener id s).1.state ≡ s.state
  unfolding unregister_listener emit
  unregister_listener-state id s = elim (Bool-cases (unregister id s.listeners).0) [
    | inl removed ↦ rw removed refl
    | inr missing ↦ rw missing refl
  ]

  module _ (adapter : ResourceAdapter R H) (handles : HandleApi H) where
    closed_to-state :
        (left : SessionRuntimeResources H) (answer : Result (List SessionResourceInfo))
        (s : OpenImSession R H)
        → (closed_to left answer s).1.state ≡ s.state
    closed_to-state left (ok closed) s = refl
    closed_to-state left (err e) s = refl
    closed_to-state left panic s = refl

    pub close_held-state :
        (held : Option (SessionRuntimeResources H)) (s : OpenImSession R H)
        → (close_held handles held s).1.state ≡ s.state
    close_held-state none s = refl
    close_held-state (some r) s = closed_to-state (close_all handles r).1 (close_all handles r).0 s

    -- the tail of a logout and of an uninit
    pub left-state :
        (before state : SessionState) (event : SessionEvent) (s : OpenImSession R H)
        → s.state ≡ before
        → StaysOr before state
            (◌>>=◌
              (close_runtime_resources handles)
              (λ closed. do
                modify stop_all_tasks
                modify (leave state)
                modify (emit_each (closed_events closed))
                modify (emit event))
              s).1
    unfolding close_runtime_resources emit
    left-state before state event s e =
        >>=-keeps (StaysOr before state) (close_held handles s.runtime_resources) _ s
          (inl (close_held-state s.runtime_resources s ∙ e))
          (λ closed t k.
            inr (emit_each-state (closed_events closed) (leave state (stop_all_tasks t))))
