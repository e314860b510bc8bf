-- ===== src/Llm/Reconciled.antt =====
-- internal/llm/llm.go: what the repository has been told when a call ends.
use tinkercloud.Prelude.{
  ◌≡◌, refl, ℕ, Bool, true, false, not, ◌||◌, Option, none, some, List, [], ◌∷◌, Text, text_eq,
  length, if_cases, ◌==◌, arith, text_eq_iff, if◌then◌else◌,
}
use tinkercloud.Llm.{Request, Limits, absolute_limits, valid_limits, same_limits, validate_request}
use tinkercloud.Llm.Rates.{Mark, Service, Reserved, unavailable, limited, permit, reserve_rate}
use tinkercloud.Llm.Chat.{
  World, Event, admitted, reconciled, Kind, succeeded, has_failed, ambiguous, Usage, no_usage,
  Binding, Response, Error, temporarily_unavailable, call_cancelled, Fault, Result, ok, err, Ended,
  Auth, is_malformed, finish, call_adapter, with_binding, with_admission, with_permit, with_limits,
  complete, reconcile, stable,
}

-- How a call ends for the binding it was admitted with: the binding is reconciled once, and an
-- answer is given only when that succeeds with the usage of the answer.
pub data IsClosed (w : World) (app : Text) (b : Binding) : Ended → Type 0 where
  refused : {u : Usage} {k : Kind} {e : Error} → IsClosed w app b (reconciled b u k ∷ [], err e)
  answered :
      (r : Response) (id : Text)
      → b.app ≡ app
      → (length b.credential == 0) ≡ false
      → is_malformed w b r ≡ false
      → w.reconciles b r.usage succeeded ≡ true
      → IsClosed w app b (reconciled b r.usage succeeded ∷ [], ok (record r { request_id = id }))

-- How any call ends.
pub data IsSettled (w : World) (app : Text) : Ended → Type 0 where
  not_admitted : {e : Error} → IsSettled w app ([], err e)
  settled :
      {es : List Event} {a : Result Error Response} (b : Binding)
      → IsClosed w app b (es, a)
      → IsSettled w app (admitted b ∷ es, a)

module _ (w : World) (app : Text) (b : Binding) where
  -- The binding is the app's, with a credential.
  abbrev IsExpected : Type 0
  IsExpected = (b.app ≡ app) × ((length b.credential == 0) ≡ false)

  reconcile-IsClosed :
      (u : Usage) (k : Kind) (e : Error) → IsClosed w app b (reconcile w b u k (err e))
  reconcile-IsClosed u k e = of (w.reconciles b u k)
    where
      of :
          (x : Bool)
          → IsClosed w app b
              (reconciled b u k ∷ [], if x then err e else err temporarily_unavailable)
      of true = refused
      of false = refused

  finish-IsClosed :
      (id : Text) (r : Result Fault Response) (cancelled : Bool)
      → IsExpected
      → IsClosed w app b (finish w id b r cancelled)
  unfolding finish
  finish-IsClosed id (err f) cancelled x =
      if_cases P cancelled (λ _. reconcile-IsClosed no_usage ambiguous call_cancelled)
        (λ _. reconcile-IsClosed no_usage has_failed (stable f))
    where
      P : Ended → Type 0
      P = IsClosed w app b
  finish-IsClosed id (ok r) cancelled x =
      if_cases P (is_malformed w b r)
        (λ _. reconcile-IsClosed no_usage ambiguous temporarily_unavailable)
        (λ m. of m (w.reconciles b r.usage succeeded) refl)
    where
      P : Ended → Type 0
      P = IsClosed w app b

      of :
          is_malformed w b r ≡ false
          → (y : Bool) → w.reconciles b r.usage succeeded ≡ y
          → P (
            reconciled b r.usage succeeded ∷ [],
            if y then ok (record r { request_id = id }) else err temporarily_unavailable,
          )
      of m true e = answered r id x.0 x.1 m e
      of m false e = refused

  call_adapter-IsClosed :
      (id : Text) (request : Request)
      (c : Option (Binding → Request → Result Fault Response × Bool))
      → IsExpected
      → IsClosed w app b (call_adapter w id b request c)
  call_adapter-IsClosed id request none x = refused
  call_adapter-IsClosed id request (some f) x = finish-IsClosed id _ _ x

  with_binding-IsClosed :
      (s : Service) (viewer id : Text) (l : Limits) (mark : Mark) (request : Request)
      → IsClosed w app b (with_binding w s app viewer id l mark request b).1
  unfolding with_binding
  with_binding-IsClosed s viewer id l mark request =
      if_cases P (not (text_eq b.app app) || length b.profile == 0 || length b.credential == 0)
        (λ _. refused)
        (λ h.
          if_cases P
            (not (same_limits l b.limits) || not (validate_request w.utf8_valid request b.limits))
            (λ _. refused)
            (λ _.
              call_adapter-IsClosed id request (w.adapter b.provider)
                ((text_eq_iff b.app app).0 (ground (arith, h)), ground (arith, h))))
    where
      P : Service × Ended → Type 0
      P r = IsClosed w app b r.1

module _ (w : World) where
  with_admission-IsSettled :
      (s : Service) (app viewer id : Text) (l : Limits) (mark : Mark) (request : Request)
      (r : Result Fault Binding)
      → IsSettled w app (with_admission w s app viewer id l mark request r).1
  unfolding with_admission
  with_admission-IsSettled s app viewer id l mark request (err f) = not_admitted
  with_admission-IsSettled s app viewer id l mark request (ok b) =
      settled b (with_binding-IsClosed w app b s viewer id l mark request)

  with_permit-IsSettled :
      (app viewer id : Text) (l : Limits) (request : Request) (now : ℕ) (r : Service × Reserved)
      → IsSettled w app (with_permit w app viewer id l request now r).1
  with_permit-IsSettled app viewer id l request now (s, unavailable) = not_admitted
  with_permit-IsSettled app viewer id l request now (s, limited) = not_admitted
  with_permit-IsSettled app viewer id l request now (s, permit mark) =
      with_admission-IsSettled s app viewer id l mark request _

  with_limits-IsSettled :
      (s : Service) (app viewer id : Text) (request : Request) (now : ℕ) (r : Result Fault Limits)
      → IsSettled w app (with_limits w s app viewer id request now r).1
  unfolding with_limits
  with_limits-IsSettled s app viewer id request now (err f) = not_admitted
  with_limits-IsSettled s app viewer id request now (ok l) =
      if_cases P (not (valid_limits l)) (λ _. not_admitted)
        (λ _.
          if_cases P (not (validate_request w.utf8_valid request l)) (λ _. not_admitted)
            (λ _.
              with_permit-IsSettled app viewer id l request now (reserve_rate l app viewer now s)))
    where
      P : Service × Ended → Type 0
      P r = IsSettled w app r.1

-- However a call of the chat ends, the repository has been told nothing, or it has admitted one
-- binding and been told of its end exactly once. There is an answer only for a binding of the
-- caller's app with a credential, when the answer is well formed and its usage has been recorded.
pub complete-IsSettled :
    (w : World) (s : Service) (a : Auth) (request : Request) (now : ℕ)
    → IsSettled w a.app (complete w s (some a) request now).1
unfolding complete
complete-IsSettled w s a request now =
    if_cases P (not (validate_request w.utf8_valid request absolute_limits)) (λ _. not_admitted)
      (λ _.
        with_limits-IsSettled w s a.app a.viewer a.request_id request now
          (w.admission_limits a.app))
  where
    P : Service × Ended → Type 0
    P r = IsSettled w a.app r.1
