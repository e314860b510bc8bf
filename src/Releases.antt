-- ===== src/Releases.antt =====
-- internal/releases/releases.go: the states of a deployment and the plan of an activation.
-- `State` is a string type in the source; a text that names no state is `unknown`.
pub mod Lifecycle
pub mod StaticPaths
use native.Mathlib.Decide.{ℕ_discrete}
use tinkercloud.Prelude.{
  Bool, true, false, not, ◌&&◌, ◌||◌, Option, none, some, List, [], ◌∷◌, Text, text_eq,
  if◌then◌else◌,
}

pub data State : Type 0 where
  uploading uploaded validating staged verified active superseded rejected failed : State
  unknown : Text → State

pub State-discrete : Discrete State
State-discrete = hlevel ℕ_discrete

pub data Error : Type 0 where
  transition incomplete : Error

pub data Result {ℓ} (A : Type ℓ) : Type ℓ where
  ok : A → Result A
  err : Error → Result A

abbrev pub is_verified : State → Bool
is_verified verified = true
is_verified _ = false

abbrev pub is_active : State → Bool
is_active active = true
is_active _ = false

unfoldable pub terminal : State → Bool
terminal rejected = true
terminal failed = true
terminal superseded = true
terminal _ = false

-- The table of `Transition`.
unfoldable pub allowed : State → State → Bool
allowed uploading uploaded = true
allowed uploading failed = true
allowed uploaded validating = true
allowed uploaded rejected = true
allowed validating staged = true
allowed validating rejected = true
allowed staged verified = true
allowed staged failed = true
allowed verified active = true
allowed verified failed = true
allowed active superseded = true
allowed _ _ = false

pub record Deployment : Type 0 where
  pub id : Text
  pub app_id : Text
  pub release_hash : Text
  pub state : State

pub record Requirements : Type 0 where
  pub policy_ready : Bool
  pub certificate_ready : Bool
  pub denial_probe_passed : Bool

-- The error, if there is one.
unfoldable pub can_activate : Deployment → Requirements → Option Error
can_activate d r =
    if not (is_verified d.state)
    then some transition
    else if not r.policy_ready || not r.certificate_ready || not r.denial_probe_passed
    then some incomplete
    else none

plan_previous : Option Deployment → Deployment → Result (List Deployment)
plan_previous none next = ok (next ∷ [])
plan_previous (some previous) next =
    if not (text_eq previous.app_id next.app_id) || not (is_active previous.state)
    then err transition
    else ok (next ∷ record previous { state = superseded } ∷ [])

unfoldable pub plan_activation :
    Option Deployment → Deployment → Requirements → Result (List Deployment)
unfolding plan_previous can_activate
plan_activation previous next r = elim (can_activate next r) [
  | some e ↦ err e
  | none ↦ plan_previous previous (record next { state = active })
]
