-- ===== src/Domain/Sync/Effects.antt =====
-- What a plan does to a store, seen through its reads.
use mathlib.Core.Path.{fun_ext}
use openim_sdk_core_rust.Base.{
  ◌+◌, ◌≡◌, refl, ap, ◌∙◌, Option, none, some, List, [], ◌∷◌, ◌++◌, map, arith, All, any, length,
  if◌then◌else◌,
}
use openim_sdk_core_rust.Base.Keys.{Eq, ◌==◌}
use openim_sdk_core_rust.Errors.{ok}
use openim_sdk_core_rust.Action.{Action, >>=_of_ok, >>=-keeps}
use openim_sdk_core_rust.Sync.Diff.{SyncAction}
use openim_sdk_core_rust.Domain.{DomainSyncSummary, total, summarize_action}
use openim_sdk_core_rust.Domain.Sync.{apply_action, apply_actions}

module _ {T K : Type 0} ⦃e : Eq K⦄ (key_of : T → K) where
  -- reads after a value is stored, and after it is discarded
  abbrev pub stored : T → (K → Option T) → K → Option T
  stored v f k = if key_of v == k then some v else f k

  abbrev pub discarded : T → (K → Option T) → K → Option T
  discarded v f k = if key_of v == k then none else f k

  abbrev pub effect : SyncAction T → (K → Option T) → K → Option T
  effect (SyncAction.insert v) f = stored v f
  effect (SyncAction.update v _) f = stored v f
  effect (SyncAction.delete v) f = discarded v f
  effect (SyncAction.unchanged _ _) f = f

  unfoldable pub effects : List (SyncAction T) → (K → Option T) → K → Option T
  effects [] f = f
  effects (a ∷ rest) f = effects rest (effect a f)

  pub effects-append :
      (xs ys : List (SyncAction T)) (f : K → Option T)
      → effects (xs ++ ys) f ≡ effects ys (effects xs f)
  unfolding effects
  effects-append [] ys f = refl
  effects-append (x ∷ xs) ys f = effects-append xs ys (effect x f)

  pub effects-delete :
      (xs : List T) (f : K → Option T) (k : K)
      → effects (map SyncAction.delete xs) f k ≡ (if any (λ x. key_of x == k) xs then none else f k)
  unfolding effects
  effects-delete [] f k = refl
  effects-delete (x ∷ xs) f k = ground (arith, effects-delete xs (discarded x f) k)

summarize_action-total :
    {T : Type 0} (summary : DomainSyncSummary) (a : SyncAction T)
    → total (summarize_action summary a) ≡ total summary + 1
unfolding summarize_action
summarize_action-total summary (SyncAction.insert _) = omega arith
summarize_action-total summary (SyncAction.update _ _) = omega arith
summarize_action-total summary (SyncAction.delete _) = omega arith
summarize_action-total summary (SyncAction.unchanged _ _) = omega arith

-- what a plan may hold: it deletes only items that the service can discard
abbrev pub MayApply : {T : Type 0} → (T → Type 0) → SyncAction T → Type 0
MayApply Discardable (SyncAction.delete v) = Discardable v
MayApply Discardable _ = Unit

-- A store whose reads follow the actions: what `apply_actions` asks of a service.
module _ {T S K : Type 0} ⦃e : Eq K⦄ (key_of : T → K) (Discardable : T → Type 0) (store : T → S → S)
    (discard : T → Action S (Unit {0})) (look : S → K → Option T) where
  pub record IsStore : Type 0 where
    pub look-store : (v : T) (s : S) (k : K) → look (store v s) k ≡ stored key_of v (look s) k
    pub look-discard :
        (v : T) (s : S)
        → Discardable v
        → (t : S) × (discard v s ≡ (ok tt, t))
          × ((k : K) → look t k ≡ discarded key_of v (look s) k)

  module _ (laws : IsStore) where
    apply_action-effect :
        (a : SyncAction T) (s : S)
        → MayApply Discardable a
        → (t : S) × (apply_action store discard a s ≡ (ok tt, t))
          × (look t ≡ effect key_of a (look s))
    unfolding apply_action
    apply_action-effect (SyncAction.insert v) s h = (store v s, refl, fun_ext (laws.look-store v s))
    apply_action-effect (SyncAction.update v _) s h =
        (store v s, refl, fun_ext (laws.look-store v s))
    apply_action-effect (SyncAction.delete v) s h =
        let (t, done, reads) = laws.look-discard v s h in (t, done, fun_ext reads)
    apply_action-effect (SyncAction.unchanged _ _) s h = (s, refl, refl)

    -- the loop ends well, has counted every action, and its store reads as the plan says
    pub apply_actions-effects :
        (actions : List (SyncAction T)) (summary : DomainSyncSummary) (s : S)
        → All (MayApply Discardable) actions
        → (summary' : DomainSyncSummary) × (t : S) × (apply_actions store discard actions summary s
            ≡ (ok summary', t))
          × (total summary' ≡ total summary + length actions)
          × (look t ≡ effects key_of actions (look s))
    unfolding apply_actions effects
    apply_actions-effects [] summary s h = (summary, s, refl, omega arith, refl)
    apply_actions-effects (a ∷ rest) summary s h =
        let (t, done, reads) = apply_action-effect a s h.0 in
        let (summary', u, finished, counted, seen) =
          apply_actions-effects rest (summarize_action summary a) t h.1 in
        (
          summary',
          u,
          >>=_of_ok (apply_action store discard a)
                (λ _. apply_actions store discard rest (summarize_action summary a)) s done
              ∙ finished,
          omega (arith, summarize_action-total summary a),
          seen ∙ ap (effects key_of rest) reads,
        )

-- What each action of a plan keeps, the loop keeps, however it ends.
module _ {T S : Type 0} (store : T → S → S) (discard : T → Action S (Unit {0})) (P : S → Type 0)
    (stores : (v : T) (s : S) → P s → P (store v s))
    (discards : (v : T) (s : S) → P s → P (discard v s).1) where
  apply_action-keeps : (a : SyncAction T) (s : S) → P s → P (apply_action store discard a s).1
  unfolding apply_action
  apply_action-keeps (SyncAction.insert v) s h = stores v s h
  apply_action-keeps (SyncAction.update v _) s h = stores v s h
  apply_action-keeps (SyncAction.delete v) s h = discards v s h
  apply_action-keeps (SyncAction.unchanged _ _) s h = h

  pub apply_actions-keeps :
      (actions : List (SyncAction T)) (summary : DomainSyncSummary) (s : S)
      → P s
      → P (apply_actions store discard actions summary s).1
  unfolding apply_actions
  apply_actions-keeps [] summary s h = h
  apply_actions-keeps (a ∷ rest) summary s h =
      >>=-keeps P (apply_action store discard a)
        (λ _. apply_actions store discard rest (summarize_action summary a)) s
        (apply_action-keeps a s h) (λ _ t. apply_actions-keeps rest (summarize_action summary a) t)
