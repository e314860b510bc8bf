-- ===== src/Llm/Chat.antt =====
-- internal/llm/llm.go: a call of the chat, with what the repository is told.
use tinkercloud.Prelude.{
  ℕ, Bool, false, not, ◌||◌, Option, none, some, List, [], ◌∷◌, Text, text_eq, codes, length, ltb,
  ◌==◌, if◌then◌else◌,
}
use tinkercloud.Llm.{
  Request, Limits, absolute_limits, valid_limits, same_limits, validate_request,
  estimate_input_tokens,
}
use tinkercloud.Llm.Rates.{
  Mark, Service, Reserved, unavailable, limited, permit, reserve_rate, release,
}

pub data Error : Type 0 where
  unauthorized capability_unavailable invalid_request rate_limited : Error
  quota_exhausted temporarily_unavailable call_cancelled : Error

-- What the repository or a provider may fail with: one of the errors above, `context.Canceled`, or
-- another.
pub data Fault : Type 0 where
  known : Error → Fault
  context_cancelled other_fault : Fault

-- `stable`.
unfoldable pub stable : Fault → Error
stable (known unauthorized) = unauthorized
stable (known capability_unavailable) = capability_unavailable
stable (known invalid_request) = invalid_request
stable (known rate_limited) = rate_limited
stable (known quota_exhausted) = quota_exhausted
stable (known temporarily_unavailable) = temporarily_unavailable
stable (known call_cancelled) = temporarily_unavailable
stable context_cancelled = call_cancelled
stable other_fault = temporarily_unavailable

pub data Result {ℓ κ} (E : Type κ) (A : Type ℓ) : Type (ℓ ⊔ κ) where
  ok : A → Result E A
  err : E → Result E A

pub record Binding : Type 0 where
  pub app : Text
  pub profile : Text
  pub connection : Text
  pub model : Text
  pub reservation : Text
  pub credential : Text
  pub provider : Text
  pub limits : Limits
  pub reserved_tokens : ℕ

-- `negative` tells that one of the counts is below 0.
pub record Usage : Type 0 where
  pub input_tokens : ℕ
  pub output_tokens : ℕ
  pub negative : Bool

abbrev pub no_usage : Usage
no_usage = record { input_tokens = 0; output_tokens = 0; negative = false }

pub record Response : Type 0 where
  pub role : Text
  pub content : Text
  pub usage : Usage
  pub finish_reason : Text
  pub request_id : Text

pub data Kind : Type 0 where
  succeeded has_failed was_cancelled ambiguous : Kind

-- What the repository is told.
pub data Event : Type 0 where
  admitted : Binding → Event
  reconciled : Binding → Usage → Kind → Event

-- An adapter gives its answer with whether the caller's context has been cancelled by then;
-- `reconciles` is false where `Reconcile` fails.
pub record World : Type 0 where
  pub utf8_valid : Text → Bool
  pub admission_limits : Text → Result Fault Limits
  pub admit : Text → Text → ℕ → ℕ → ℕ → Result Fault Binding
  pub reconciles : Binding → Usage → Kind → Bool
  pub adapter : Text → Option (Binding → Request → Result Fault Response × Bool)

abbrev pub Ended : Type 0
Ended = List Event × Result Error Response

-- `Reconcile`, and what to answer when it does not fail.
abbrev pub reconcile : World → Binding → Usage → Kind → Result Error Response → Ended
reconcile w b u k answer =
    (reconciled b u k ∷ [], if w.reconciles b u k then answer else err temporarily_unavailable)

-- What makes an answer of a provider unusable.
unfoldable pub is_malformed : World → Binding → Response → Bool
unfolding text_eq
is_malformed w b r =
    not (text_eq r.role (codes "assistant"))
    || length r.content == 0
    || not (w.utf8_valid r.content)
    || r.usage.negative
    || ltb b.limits.max_output_tokens r.usage.output_tokens
    || not (text_eq r.finish_reason (codes "stop") || text_eq r.finish_reason (codes "length"))

-- The end of `Complete`, from the answer of the adapter.
unfoldable pub finish : World → Text → Binding → Result Fault Response → Bool → Ended
unfolding is_malformed stable
finish w request_id b (err f) cancelled =
    if cancelled
    then reconcile w b no_usage ambiguous (err call_cancelled)
    else reconcile w b no_usage has_failed (err (stable f))
finish w request_id b (ok r) cancelled =
    if is_malformed w b r
    then reconcile w b no_usage ambiguous (err temporarily_unavailable)
    else reconcile w b r.usage succeeded (ok (record r { request_id = request_id }))

abbrev pub no_call : Error → Ended
no_call e = ([], err e)

-- The reconciliation that a refusal after the admission comes with, whose failure is not seen.
abbrev pub refuse : Binding → Error → Ended
refuse b e = (reconciled b no_usage has_failed ∷ [], err e)

abbrev pub call_adapter :
    World
    → Text
    → Binding
    → Request
    → Option (Binding → Request → Result Fault Response × Bool)
    → Ended
call_adapter w request_id b request none = refuse b capability_unavailable
call_adapter w request_id b request (some complete) =
    let r = complete b request in finish w request_id b r.0 r.1

-- An admitted binding. The permit is given back unless the binding is the expected one.
unfoldable pub with_binding :
    World → Service → Text → Text → Text → Limits → Mark → Request → Binding → Service × Ended
unfolding text_eq same_limits validate_request release finish
with_binding w s app viewer request_id l mark request b =
    if not (text_eq b.app app) || length b.profile == 0 || length b.credential == 0
    then (release app viewer mark s, refuse b capability_unavailable)
    else if not (same_limits l b.limits) || not (validate_request w.utf8_valid request b.limits)
    then (release app viewer mark s, refuse b temporarily_unavailable)
    else (s, call_adapter w request_id b request (w.adapter b.provider))

abbrev pub told_of : Binding → Ended → Ended
told_of b r = (admitted b ∷ r.0, r.1)

unfoldable pub with_admission :
    World
    → Service
    → Text
    → Text
    → Text
    → Limits
    → Mark
    → Request
    → Result Fault Binding
    → Service × Ended
unfolding with_binding release stable
with_admission w s app viewer request_id l mark request (err f) =
    (release app viewer mark s, no_call (stable f))
with_admission w s app viewer request_id l mark request (ok b) =
    let r = with_binding w s app viewer request_id l mark request b in (r.0, told_of b r.1)

abbrev pub with_permit :
    World → Text → Text → Text → Limits → Request → ℕ → Service × Reserved → Service × Ended
with_permit w app viewer request_id l request now (s, unavailable) =
    (s, no_call capability_unavailable)
with_permit w app viewer request_id l request now (s, limited) = (s, no_call rate_limited)
with_permit w app viewer request_id l request now (s, permit mark) =
    with_admission w s app viewer request_id l mark request
      (w.admit app viewer (estimate_input_tokens request) request.max_output_tokens now)

unfoldable pub with_limits :
    World → Service → Text → Text → Text → Request → ℕ → Result Fault Limits → Service × Ended
unfolding valid_limits validate_request reserve_rate with_admission stable estimate_input_tokens
with_limits w s app viewer request_id request now (err f) = (s, no_call (stable f))
with_limits w s app viewer request_id request now (ok l) =
    if not (valid_limits l)
    then (s, no_call capability_unavailable)
    else if not (validate_request w.utf8_valid request l)
    then (s, no_call invalid_request)
    else with_permit w app viewer request_id l request now (reserve_rate l app viewer now s)

-- The app, the viewer and the ID of a request, as `capabilities.Scope` reads them.
pub record Auth : Type 0 where
  pub app : Text
  pub viewer : Text
  pub request_id : Text

-- `Complete`, of a service that has a repository.
unfoldable pub complete : World → Service → Option Auth → Request → ℕ → Service × Ended
unfolding validate_request with_limits
complete w s none request now = (s, no_call unauthorized)
complete w s (some a) request now =
    if not (validate_request w.utf8_valid request absolute_limits)
    then (s, no_call invalid_request)
    else with_limits w s a.app a.viewer a.request_id request now (w.admission_limits a.app)
