-- ===== src/Session/Resources/CloseAll.antt =====
-- How closing the resources ends.
use mathlib.Core.List.{append_assoc, map-append, reverse, reverse-cons, reverse-append, append-nil}
use openim_sdk_core_rust.Base.{
  Bool, true, false, not, ◌||◌, List, [], ◌∷◌, ◌++◌, map, filter, any, ◌≡◌, refl, sym, ap, ◌∙◌,
  arith, All, All-append, Bool-cases, Option-cases, inl, inr, is_some, if◌then◌else◌,
}
use openim_sdk_core_rust.Errors.{Result, ok, err, panic, is_ok}
use openim_sdk_core_rust.Session.Resources.{
  SessionResource, SessionRuntimeResources, HandleApi, info, or_first, Closing, close_turn,
  close_popped, start_closing, finish_closing, close_all,
}

abbrev pub is_panic {ℓ} : {A : Type ℓ} → Result A → Bool
is_panic panic = true
is_panic _ = false

module _ {ℓ} {A : Type ℓ} (p : A → Bool) where
  filter-append : (xs ys : List A) → filter p (xs ++ ys) ≡ filter p xs ++ filter p ys
  filter-append [] ys = refl
  filter-append (x ∷ xs) ys = ground (arith, filter-append xs ys)

  any-append : (xs ys : List A) → any p (xs ++ ys) ≡ (any p xs || any p ys)
  any-append [] ys = refl
  any-append (x ∷ xs) ys = ground (arith, any-append xs ys)

  any-reverse : (xs : List A) → any p (reverse xs) ≡ any p xs
  any-reverse [] = refl
  any-reverse (x ∷ xs) =
      ap (any p) (reverse-cons x xs)
      ∙ ground (arith, any-append (reverse xs) (x ∷ []), any-reverse xs)

  reverse-map-filter :
      {B : Type ℓ} (f : A → B) (xs : List A)
      → reverse (map f (filter p (reverse xs))) ≡ map f (filter p xs)
  reverse-map-filter f [] = refl
  reverse-map-filter f (x ∷ xs) =
      let kept = map f (filter p (reverse xs)) in
      let last = map f (filter p (x ∷ [])) in
      ap (λ ys. reverse (map f (filter p ys))) (reverse-cons x xs)
      ∙ ap (λ ys. reverse (map f ys)) (filter-append (reverse xs) (x ∷ []))
      ∙ ap reverse (map-append f (filter p (reverse xs)) (filter p (x ∷ [])))
      ∙ reverse-append kept last
      ∙ ap (λ ys. reverse last ++ ys) (reverse-map-filter f xs)
      ∙ elim (Bool-cases (p x)) [ inl holds ↦ rw holds refl | inr fails ↦ rw fails refl ]

module _ {H : Type 0} (api : HandleApi H) where
  -- whether closing a resource fails, and the resource as its handle leaves it
  abbrev pub fails : SessionResource H → Bool
  fails r = not (is_ok (api.close r.handle).0)

  abbrev pub left_over : SessionResource H → SessionResource H
  left_over r = record r { handle = (api.close r.handle).1 }

  abbrev pub IsCalm : SessionResource H → Type 0
  IsCalm r = is_panic (api.close r.handle).0 ≡ false

  close_turn-eq :
      (r : SessionResource H) (answer : Result (Unit {0})) (left : H) (c : Closing H)
      → is_panic answer ≡ false
      → (d : Closing H) × (close_turn api r answer left c ≡ ok d)
        × (d.closed ≡ (if is_ok answer then c.closed ++ info r ∷ [] else c.closed))
        × (d.remaining ≡ (
            if is_ok answer then c.remaining else c.remaining ++ record r { handle = left } ∷ []))
        × (is_some d.first_error ≡ (is_some c.first_error || not (is_ok answer)))
  unfolding close_turn
  close_turn-eq r (ok _) left c calm =
      (record c { closed = c.closed ++ info r ∷ [] }, refl, refl, refl, ground arith)
  close_turn-eq r (err e) left c calm = (
    record c {
      remaining = c.remaining ++ record r { handle = left } ∷ [];
      first_error = or_first c.first_error e;
    },
    refl,
    refl,
    refl,
    ground arith,
  )
  close_turn-eq r panic left c calm = cc

  close_popped-eq :
      (xs : List (SessionResource H)) (c : Closing H)
      → All IsCalm xs
      → (d : Closing H) × (close_popped api xs c ≡ ok d)
        × (d.closed ≡ c.closed ++ map info (filter (λ r. not (fails r)) xs))
        × (d.remaining ≡ c.remaining ++ map left_over (filter fails xs))
        × (is_some d.first_error ≡ (is_some c.first_error || any fails xs))
  unfolding close_popped
  close_popped-eq [] c calm =
      (c, refl, sym (append-nil c.closed), sym (append-nil c.remaining), ground arith)
  close_popped-eq (r ∷ rest) c calm =
      let (d, turned, closed, remaining, failed) =
        close_turn-eq r (api.close r.handle).0 (api.close r.handle).1 c calm.0 in
      let (e, done, closes, remains, fails_too) = close_popped-eq rest d calm.1 in
      elim (Bool-cases (is_ok (api.close r.handle).0)) [
        | inl good ↦ (
          e,
          ground (arith, turned, done),
          closes
              ∙ ap (λ ys. ys ++ map info (filter (λ x. not (fails x)) rest)) closed
              ∙ rw good (
                  append_assoc c.closed (info r ∷ [])
                    (map info (filter (λ x. not (fails x)) rest))),
          remains ∙ ap (λ ys. ys ++ map left_over (filter fails rest)) remaining ∙ rw good refl,
          ground (arith, fails_too, failed, good),
        )
        | inr bad ↦ (
          e,
          ground (arith, turned, done),
          closes
              ∙ ap (λ ys. ys ++ map info (filter (λ x. not (fails x)) rest)) closed
              ∙ rw bad refl,
          remains
              ∙ ap (λ ys. ys ++ map left_over (filter fails rest)) remaining
              ∙ rw bad
                  (append_assoc c.remaining (left_over r ∷ []) (map left_over (filter fails rest))),
          ground (arith, fails_too, failed, bad),
        )
      ]

  All-reverse :
      (P : SessionResource H → Type 0) (xs : List (SessionResource H))
      → All P xs
      → All P (reverse xs)
  All-reverse P [] h = tt
  All-reverse P (x ∷ xs) h =
      rw (reverse-cons x xs) (All-append P (reverse xs) (x ∷ []) (All-reverse P xs h.1) (h.0, tt))

  -- Closing resources none of whose handles panics: it succeeds exactly when every handle closes,
  -- and then says what was closed, the last opened first, and leaves nothing; otherwise the
  -- resources that stay are those whose handle failed, in their order, as their handles are left.
  pub close_all-exact :
      (r : SessionRuntimeResources H)
      → All IsCalm r.resources
      → (is_ok (close_all api r).0 ≡ not (any fails r.resources))
        × ((close_all api r).1 ≡ record r { resources = map left_over (filter fails r.resources) })
        × (any fails r.resources ≡ false
            → (close_all api r).0
              ≡ ok (map info (filter (λ x. not (fails x)) (reverse r.resources))))
  unfolding close_all finish_closing
  close_all-exact r calm =
      let (d, done, closed, remaining, failed) =
        close_popped-eq (reverse r.resources) (start_closing api)
          (All-reverse IsCalm r.resources calm) in
      let stays : reverse d.remaining ≡ map left_over (filter fails r.resources) =
        ap reverse remaining ∙ reverse-map-filter fails left_over r.resources in
      let erred : is_some d.first_error ≡ any fails r.resources =
        failed ∙ any-reverse fails r.resources in
      elim (Option-cases d.first_error) [
        | inl clean ↦ (
          ground (arith, done, clean, erred),
          ap (λ q. (finish_closing api r q).1) done ∙ ap (λ ys. record r { resources = ys }) stays,
          λ none_failed. ap (λ q. (finish_closing api r q).0) done ∙ ground (arith, clean, closed),
        )
        | inr (e, dirty) ↦ (
          ground (arith, done, dirty, erred),
          ap (λ q. (finish_closing api r q).1) done ∙ ap (λ ys. record r { resources = ys }) stays,
          λ none_failed. ground (arith, dirty, erred, none_failed),
        )
      ]
