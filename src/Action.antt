-- ===== src/Action.antt =====
-- A method with `&mut self`: it returns a result and the state that it leaves, also where it ends
-- in an error, since what was written before an early return stays written.
use openim_sdk_core_rust.Base.{◌≡◌, ap, refl, true, false, ◌⊎◌, inr}
use openim_sdk_core_rust.Errors.{Result, ok, err, panic, is_ok}

abbrev pub Action {ℓ κ} : Type ℓ → Type κ → Type (ℓ ⊔ κ)
Action S A = S → Result A × S

-- what follows a step, by how the step ended
abbrev pub after {ℓ κ μ} :
    {S : Type ℓ} {A : Type κ} {B : Type μ} → (A → Action S B) → Result A → S → Result B × S
after f (ok a) t = f a t
after f (err e) t = (err e, t)
after f panic t = (panic, t)

infixl 5 ◌>>=◌ ◌>>◌
abbrev pub ◌>>=◌ {ℓ κ μ} :
    {S : Type ℓ} {A : Type κ} {B : Type μ} → Action S A → (A → Action S B) → Action S B
◌>>=◌ m f s = after f (m s).0 (m s).1

abbrev pub ◌>>◌ {ℓ κ} : {S : Type ℓ} {B : Type κ} → Action S (Unit {0}) → Action S B → Action S B
m >> k = m >>= λ _. k

module _ {ℓ κ} {S : Type ℓ} {A : Type κ} where
  abbrev pub pure : A → Action S A
  pure a s = (ok a, s)

  -- a fallible computation that does not touch the state
  abbrev pub lift : Result A → Action S A
  lift r s = (r, s)

  abbrev pub gets : (S → A) → Action S A
  gets f s = (ok (f s), s)

  -- `?` on a read of the state
  abbrev pub query : (S → Result A) → Action S A
  query f s = (f s, s)

abbrev pub modify {ℓ} : {S : Type ℓ} → (S → S) → Action S (Unit {0})
modify f s = (ok tt, f s)

-- a step that ends well hands its result and its state to what follows
pub >>=_of_ok {ℓ κ μ} :
    {S : Type ℓ} {A : Type κ} {B : Type μ} (m : Action S A) (f : A → Action S B) (s : S) {a : A}
    {t : S}
    → m s ≡ (ok a, t)
    → ◌>>=◌ m f s ≡ f a t
>>=_of_ok m f s done = ap (λ p. after f p.0 p.1) done

after-keeps {ℓ κ μ ν} :
    {S : Type ℓ} {A : Type κ} {B : Type μ} (P : S → Type ν) (f : A → Action S B) (r : Result A)
    (t : S)
    → P t
    → ((a : A) (u : S) → P u → P (f a u).1)
    → P (after f r t).1
after-keeps P f (ok a) t h k = k a t h
after-keeps P f (err e) t h k = h
after-keeps P f panic t h k = h

-- what the first step and every continuation keep, their sequence keeps
pub >>=-keeps {ℓ κ μ ν} :
    {S : Type ℓ} {A : Type κ} {B : Type μ} (P : S → Type ν) (m : Action S A) (f : A → Action S B)
    (s : S)
    → P (m s).1
    → ((a : A) (t : S) → P t → P (f a t).1)
    → P (◌>>=◌ m f s).1
>>=-keeps P m f s h k = after-keeps P f (m s).0 (m s).1 h k

-- a check that passes, and one that fails
pub lift-ok {ℓ κ μ} :
    {S : Type ℓ} {A : Type κ} {B : Type μ} (r : Result A) (f : A → Action S B) (s : S) {a : A}
    → r ≡ ok a
    → ◌>>=◌ (lift r) f s ≡ f a s
lift-ok r f s done = ap (λ q. after f q s) done

-- an action that succeeds or leaves the state as it was
abbrev pub IsAtomic {ℓ κ} : {S : Type ℓ} {A : Type κ} → Action S A → S → Type ℓ
IsAtomic m s = (is_ok (m s).0 ≡ true) ⊎ ((m s).1 ≡ s)

-- checks and reads before an atomic action make it no less so
pub lift-IsAtomic {ℓ κ μ} :
    {S : Type ℓ} {A : Type κ} {B : Type μ} (r : Result A) (f : A → Action S B) (s : S)
    → ((a : A) → r ≡ ok a → IsAtomic (f a) s)
    → IsAtomic (◌>>=◌ (lift r) f) s
lift-IsAtomic (ok a) f s h = h a refl
lift-IsAtomic (err e) f s h = inr refl
lift-IsAtomic panic f s h = inr refl

-- a check before an action keeps what the action keeps
pub lift-keeps {ℓ κ μ ν} :
    {S : Type ℓ} {A : Type κ} {B : Type μ} (P : S → Type ν) (r : Result A) (f : A → Action S B)
    (s : S)
    → P s
    → ((a : A) → r ≡ ok a → P (f a s).1)
    → P (◌>>=◌ (lift r) f s).1
lift-keeps P (ok a) f s w h = h a refl
lift-keeps P (err e) f s w h = w
lift-keeps P panic f s w h = w

-- what holds after the first step is enough where the sequence ends early, and for what follows
pub >>=-leads {ℓ κ μ ν ξ} :
    {S : Type ℓ} {A : Type κ} {B : Type μ} (P : S → Type ν) (Q : S → Type ξ) (m : Action S A)
    (f : A → Action S B) (s : S)
    → P (m s).1
    → ((t : S) → P t → Q t)
    → ((a : A) (t : S) → P t → Q (f a t).1)
    → Q (◌>>=◌ m f s).1
>>=-leads P Q m f s h early k = elim (m s).0 as (λ r. Q (after f r (m s).1).1) [
  | ok a ↦ k a (m s).1 h
  | err e ↦ early (m s).1 h
  | panic ↦ early (m s).1 h
]

after-ran {ℓ κ μ} :
    {S : Type ℓ} {A : Type κ} {B : Type μ} (f : A → Action S B) (r : Result A) (u : S) {b : B}
    {t : S}
    → after f r u ≡ (ok b, t)
    → (a : A) × (r ≡ ok a) × (f a u ≡ (ok b, t))
after-ran f (ok a) u ran = (a, refl, ran)
after-ran f (err e) u ran = cc
after-ran f panic u ran = cc

-- a sequence that succeeds ran its first step, and what follows it
pub >>=-ran {ℓ κ μ} :
    {S : Type ℓ} {A : Type κ} {B : Type μ} (m : Action S A) (f : A → Action S B) (s : S) {b : B}
    {t : S}
    → ◌>>=◌ m f s ≡ (ok b, t)
    → (a : A) × ((m s).0 ≡ ok a) × (f a (m s).1 ≡ (ok b, t))
>>=-ran m f s ran = after-ran f (m s).0 (m s).1 ran

after-failed {ℓ κ μ} :
    {S : Type ℓ} {A : Type κ} {B : Type μ} (f : A → Action S B) (r : Result A) (u : S)
    → is_ok r ≡ false
    → ((after f r u).1 ≡ u) × (is_ok (after f r u).0 ≡ false)
after-failed f (ok a) u failed = cc
after-failed f (err e) u failed = (refl, refl)
after-failed f panic u failed = (refl, refl)

-- a first step that fails ends a sequence, which leaves what that step left
pub >>=-failed {ℓ κ μ} :
    {S : Type ℓ} {A : Type κ} {B : Type μ} (m : Action S A) (f : A → Action S B) (s : S)
    → is_ok (m s).0 ≡ false
    → ((◌>>=◌ m f s).1 ≡ (m s).1) × (is_ok (◌>>=◌ m f s).0 ≡ false)
>>=-failed m f s failed = after-failed f (m s).0 (m s).1 failed
