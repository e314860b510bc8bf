-- ===== src/Releases/Lifecycle.antt =====
-- internal/releases/releases.go: what the table of transitions and the plan guarantee.
use tinkercloud.Prelude.{
  ℕ, ◌<◌, ◌≡◌, sym, ◌⊎◌, inl, inr, Bool, true, false, Option, none, some, List, [], ◌∷◌, arith,
  text_eq_iff,
}
use tinkercloud.Releases.{
  State, uploading, uploaded, validating, staged, verified, active, superseded, unknown, terminal,
  allowed, Deployment, Requirements, ok, plan_activation,
}

-- States that are reached one after the other.
pub data Steps : State → State → Type 0 where
  stay : (s : State) → Steps s s
  step : {s t u : State} → allowed s t ≡ true → Steps t u → Steps s u

-- How far a state is from the start.
abbrev pub rank : State → ℕ
rank uploading = 0
rank uploaded = 1
rank validating = 2
rank staged = 3
rank verified = 4
rank active = 5
rank (unknown t) = 0
rank _ = 6

-- An allowed transition always moves on, and a terminal state allows none.
pub allowed_progress : (s t : State) → allowed s t ≡ true → (rank s < rank t) × (terminal s ≡ false)
unfolding allowed terminal
allowed_progress s t h = ground arith

abbrev pub IsPlan : Option Deployment → Deployment → List Deployment → Type 0
IsPlan none next out = out ≡ record next { state = active } ∷ []
IsPlan (some previous) next out =
    (previous.app_id ≡ next.app_id)
    × (previous.state ≡ active)
    × (out ≡ record next { state = active } ∷ record previous { state = superseded } ∷ [])

abbrev before_live : State → Bool
before_live active = false
before_live superseded = false
before_live _ = true

live_from_verified :
    (s t : State)
    → allowed s t ≡ true
    → before_live s ≡ true
    → (s ≡ verified) ⊎ (before_live t ≡ true)
unfolding allowed
live_from_verified s t e b = ground arith

-- Every way from a state before `active` to `active` or `superseded` goes through `verified`.
Steps-through_verified :
    {s t : State}
    → Steps s t
    → before_live s ≡ true
    → before_live t ≡ false
    → Steps s verified × Steps verified t
Steps-through_verified (stay s) b l = cc
Steps-through_verified (step {s} {t} {u} e p) b l = elim (live_from_verified s t e b) [
  | inl v ↦ rw v (stay verified, step (rw (sym v) e) p)
  | inr b' ↦ let (before, after) = Steps-through_verified p b' l in (step e before, after)
]

-- A plan exists only for a verified deployment with all three gates passed; a previous deployment
-- is of the same app and active. The plan then makes the next one active and the previous one
-- superseded, both allowed transitions, and changes nothing else.
pub plan_activation_sound :
    (previous : Option Deployment) (next : Deployment) (r : Requirements) (out : List Deployment)
    → plan_activation previous next r ≡ ok out
    → (next.state ≡ verified)
      × (r ≡ record { policy_ready = true; certificate_ready = true; denial_probe_passed = true })
      × IsPlan previous next out
unfolding plan_activation
plan_activation_sound none next r out e = ground arith
plan_activation_sound (some previous) next r out e =
    ground (arith, text_eq_iff previous.app_id next.app_id)

pub Steps-snoc : {s t u : State} → Steps s t → allowed t u ≡ true → Steps s u
Steps-snoc (stay s) a = step a (stay _)
Steps-snoc (step e p) a = step e (Steps-snoc p a)
