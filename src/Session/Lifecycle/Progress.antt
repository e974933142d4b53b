-- ===== src/Session/Lifecycle/Progress.antt =====
-- That a session can always be logged in again.
use openim_sdk_core_rust.Base.{String, some, ◌≡◌, refl, ap, ◌∙◌, inl, inr, arith, Option-cases}
use openim_sdk_core_rust.Base.Keys.{string_eq}
use openim_sdk_core_rust.Errors.{ok}
use openim_sdk_core_rust.Storage.{Paths}
use openim_sdk_core_rust.Session.Config.{
  LoginCredentials, StorageTarget, validate_credentials, storage_target,
}
use openim_sdk_core_rust.Session.Events.{SessionState}
use openim_sdk_core_rust.Session.Resources.{HandleApi}
use openim_sdk_core_rust.Session.State.{
  ResourceAdapter, OpenImSession, may_login, init, login, logout, init_from, logout_of,
}
use openim_sdk_core_rust.Session.Lifecycle.{Step, IsReachable}
use openim_sdk_core_rust.Session.Lifecycle.Invariant.{IsConsistent}
use openim_sdk_core_rust.Session.Lifecycle.Reachable.{session-IsConsistent}
use openim_sdk_core_rust.Session.Lifecycle.Granted.{
  Run, IsWilling, HasUser, initialize_lem, log_out_lem, login-HasUser,
}

module _ {R H : Type 0} where
  module _ (adapter : ResourceAdapter R H) (handles : HandleApi H)
      (willing : IsWilling adapter handles) where
    -- a session that one call brings to a state that may log in
    next_to_login :
        (paths : Paths) (generated : String) (c : LoginCredentials) {s t : OpenImSession R H}
        {storage : StorageTarget} (ready : SessionState)
        → Step adapter handles s t
        → (t.state ≡ ready) × (t.config ≡ s.config)
        → may_login ready ≡ ok tt
        → validate_credentials c ≡ ok tt
        → storage_target paths s.config c.user_id ≡ ok storage
        → (u : OpenImSession R H) × Run adapter handles s u × HasUser c.user_id u
    next_to_login paths generated c {s} {t} ready step (at, same) allowed valid stored = (
      (login adapter handles paths generated c t).1,
      Run.call step (Run.call (Step.logged_in paths generated c) Run.done),
      login-HasUser adapter handles willing paths generated c t valid (ap may_login at ∙ allowed)
          (ap (λ x. storage_target paths x c.user_id) same ∙ stored),
    )

    from_state :
        (paths : Paths) (generated : String) (c : LoginCredentials) (s : OpenImSession R H)
        {storage : StorageTarget} (state : SessionState)
        → s.state ≡ state
        → IsConsistent s
        → validate_credentials c ≡ ok tt
        → storage_target paths s.config c.user_id ≡ ok storage
        → (t : OpenImSession R H) × Run adapter handles s t × HasUser c.user_id t
    unfolding init logout
    from_state paths generated c s SessionState.created e h valid stored =
        let same = ap (λ x. init_from adapter handles x s) e in
        next_to_login paths generated c SessionState.initialized Step.inited
          (
            ap (λ q. q.1.state) same ∙ (initialize_lem adapter handles willing s).0,
            ap (λ q. q.1.config) same ∙ (initialize_lem adapter handles willing s).1,
          )
          refl valid stored
    from_state paths generated c s SessionState.uninitialized e h valid stored =
        let same = ap (λ x. init_from adapter handles x s) e in
        next_to_login paths generated c SessionState.initialized Step.inited
          (
            ap (λ q. q.1.state) same ∙ (initialize_lem adapter handles willing s).0,
            ap (λ q. q.1.config) same ∙ (initialize_lem adapter handles willing s).1,
          )
          refl valid stored
    from_state paths generated c s SessionState.initialized e h valid stored = (
      (login adapter handles paths generated c s).1,
      Run.call (Step.logged_in paths generated c) Run.done,
      login-HasUser adapter handles willing paths generated c s valid (ap may_login e) stored,
    )
    from_state paths generated c s SessionState.logged_out e h valid stored = (
      (login adapter handles paths generated c s).1,
      Run.call (Step.logged_in paths generated c) Run.done,
      login-HasUser adapter handles willing paths generated c s valid (ap may_login e) stored,
    )
    from_state paths generated c s SessionState.logged_in e h valid stored =
        elim (Option-cases s.login_user_id) [
          | inl nobody ↦ ground (arith, h.known, e, nobody)
          | inr (user, there) ↦
              let same = ap (λ x. logout_of adapter handles x s) there in
              next_to_login paths generated c SessionState.logged_out Step.logged_out
                (
                  ap (λ q. q.1.state) same ∙ (log_out_lem adapter handles willing user s).0,
                  ap (λ q. q.1.config) same ∙ (log_out_lem adapter handles willing user s).1,
                )
                refl valid stored
        ]

    -- With an adapter and handles that refuse nothing, a session that any calls have led to can be
    -- brought, by further calls, to being logged in as any user whose credentials are valid and
    -- whose storage the configuration names.
    pub login-Run :
        (paths : Paths) (generated : String) (c : LoginCredentials) {s : OpenImSession R H}
        {storage : StorageTarget}
        → IsReachable adapter handles s
        → validate_credentials c ≡ ok tt
        → storage_target paths s.config c.user_id ≡ ok storage
        → (t : OpenImSession R H) × Run adapter handles s t
          × ((t.state ≡ SessionState.logged_in) × (t.login_user_id ≡ some c.user_id))
    login-Run paths generated c {s} r valid stored =
        from_state paths generated c s s.state refl (session-IsConsistent adapter handles r) valid
          stored
