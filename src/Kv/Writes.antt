-- ===== src/Kv/Writes.antt =====
-- internal/kv/kv.go: what an operation of the service may make of the stored entries.
use tinkercloud.Prelude.{
  ℕ, ◌≡◌, refl, Bool, true, false, not, ◌||◌, ltb, Option, none, some, arith, Text, length,
  if◌then◌else◌, Bool-cases, ◌⊎◌, inl, inr,
}
use tinkercloud.Prelude.Map.{Map, insert}
use tinkercloud.Access.{Context}
use tinkercloud.Kv.Store.{
  Entry, Mutation, Outcome, ok, err, Error, invalid_key, invalid_value, invalid_list_limit,
  set_entry, delete_entry,
}
use tinkercloud.Kv.Keys.{valid_key}
use tinkercloud.Kv.Rates.{allow}
use tinkercloud.Kv.{
  Service, app_of, entries_in, get, set, remove, list_keys, get_body, set_body, delete_body,
  list_body, with_budget, publish, valid_value,
}

pub data Op : Type 0 where
  getting : Text → Op
  setting : Text → Text → Option ℕ → Op
  removing : Text → Option ℕ → Op
  listing : Text → Text → ℕ → Op

-- The service after an operation.
unfoldable pub run : (Text → Bool) → (Text → Bool) → Service → ℕ → Option Context → Op → Service
run utf8 json s now auth (getting key) = (get utf8 json s now auth key).0
run utf8 json s now auth (setting key value expected) =
    (set utf8 json s now auth key value expected).0
run utf8 json s now auth (removing key expected) = (remove utf8 json s now auth key expected).0
run utf8 json s now auth (listing prefix cursor limit) =
    (list_keys s now auth prefix cursor limit).0

-- The entries of all apps after an operation for `app`.
pub data Writes (s : Service) (app : Text) (apps : Map (Map Entry)) : Type 0 where
  unchanged : apps ≡ s.apps → Writes s app apps
  touched : apps ≡ insert app (entries_in app s.apps) s.apps → Writes s app apps
  wrote :
      (now : ℕ) (key value : Text) (expected : Option ℕ) (m : Map Entry) (e : Entry)
      → set_entry s.limits now (entries_in app s.apps) key value expected ≡ ok (m, e)
      → apps ≡ insert app m s.apps
      → Writes s app apps
  erased :
      (key : Text) (expected : Option ℕ) (m : Map Entry) (mutation : Mutation)
      → delete_entry (entries_in app s.apps) key expected ≡ ok (m, some mutation)
      → apps ≡ insert app m s.apps
      → Writes s app apps

pub Outcome-cases {ℓ} :
    {A : Type ℓ} (o : Outcome A) → ((x : Error) × (o ≡ err x)) ⊎ ((a : A) × (o ≡ ok a))
Outcome-cases (ok a) = inr (a, refl)
Outcome-cases (err x) = inl (x, refl)

-- What an operation for `app` leaves: the limits, and such entries.
pub record Kept (s : Service) (app : Text) (s' : Service) : Type 0 where
  pub entries : Writes s app s'.apps
  pub limits : s'.limits ≡ s.limits

Kept-refl : (s : Service) (app : Text) → Kept s app s
Kept-refl s app = record { entries = unchanged refl; limits = refl }

with_budget-Kept :
    {A : Type 0} (s : Service) (now : ℕ) (app viewer : Text) (body : Service → Service × Outcome A)
    → ((t : Service) → t.apps ≡ s.apps → t.limits ≡ s.limits → Kept s app (body t).0)
    → Kept s app (with_budget s now app viewer body).0
unfolding with_budget
with_budget-Kept s now app viewer body k =
    elim (Bool-cases (allow s.limits now s.rates app viewer).1) [
      | inl e ↦ rw e (k (record s { rates = (allow s.limits now s.rates app viewer).0 }) refl refl)
      | inr e ↦ rw e (record { entries = unchanged refl; limits = refl })
    ]

publish-apps :
    (app : Text) (m : Mutation) (s : Service)
    → ((publish app m s).apps ≡ s.apps) × ((publish app m s).limits ≡ s.limits)
publish-apps app m s = ground arith

set_body-Kept :
    (now : ℕ) (app key value : Text) (expected : Option ℕ) (s t : Service)
    → t.apps ≡ s.apps
    → t.limits ≡ s.limits
    → Kept s app (set_body now app key value expected t).0
unfolding set_body
set_body-Kept now app key value expected s t a l =
    elim (Outcome-cases (set_entry t.limits now (entries_in app t.apps) key value expected)) [
      | inl (x, e) ↦ rw (e, set_body) (record { entries = touched (rw a); limits = l })
      | inr ((m, e'), e) ↦
          rw (e, set_body)
            (record {
              entries = wrote now key value expected m e' (rw (a, l) at e) (ground (arith, a));
              limits = ground (arith, l);
            })
    ]

delete_body-Kept :
    (app key : Text) (expected : Option ℕ) (s t : Service)
    → t.apps ≡ s.apps
    → t.limits ≡ s.limits
    → Kept s app (delete_body app key expected t).0
unfolding delete_body
delete_body-Kept app key expected s t a l =
    elim (Outcome-cases (delete_entry (entries_in app t.apps) key expected)) [
      | inl (x, e) ↦ rw (e, delete_body) (record { entries = unchanged a; limits = l })
      | inr ((m, none), e) ↦ rw (e, delete_body) (record { entries = unchanged a; limits = l })
      | inr ((m, some mutation), e) ↦
          rw (e, delete_body)
            (record {
              entries = erased key expected m mutation (rw a at e) (ground (arith, a));
              limits = ground (arith, l);
            })
    ]

record Keeps {A : Type 0} (s : Service) (app : Text) (p : Service × Outcome A) : Type 0 where
  kept : Kept s app p.0

refused-Keeps : {A : Type 0} (s : Service) (app : Text) (x : Error) → Keeps {A = A} s app (s, err x)
refused-Keeps s app x = record { kept = Kept-refl s app }

if-Keeps :
    {A : Type 0} (s : Service) (app : Text) (b : Bool) (x y : Service × Outcome A)
    → Keeps s app x
    → Keeps s app y
    → Keeps s app (if b then x else y)
if-Keeps s app true x y u v = u
if-Keeps s app false x y u v = v

module _ (utf8 json : Text → Bool) (s : Service) (now : ℕ) (auth : Option Context) where
  -- Without an app, nothing changes.
  pub run_refused : (op : Op) {x : Error} → app_of auth ≡ err x → run utf8 json s now auth op ≡ s
  unfolding run get set remove list_keys
  run_refused (getting key) e = rw (e, run, get)
  run_refused (setting key value expected) e = rw (e, run, set)
  run_refused (removing key expected) e = rw (e, run, remove)
  run_refused (listing prefix cursor limit) e = rw (e, run, list_keys)

  module _ (app viewer : Text) (e : app_of auth ≡ ok (app, viewer)) where
    -- A request in the budget whose body only reads, or sets, or deletes.
    within :
        {A : Type 0} (body : Service → Service × Outcome A)
        → ((t : Service) → t.apps ≡ s.apps → t.limits ≡ s.limits → Kept s app (body t).0)
        → Keeps s app (with_budget s now app viewer body)
    within body k = record { kept = with_budget-Kept s now app viewer body k }

    get-Keeps : (key : Text) → Keeps s app (get utf8 json s now auth key)
    unfolding get get_body
    get-Keeps key =
        rw (e, get)
          (if-Keeps s app (not (valid_key utf8 key s.limits.key_bytes)) (s, err invalid_key) _
            (refused-Keeps s app invalid_key)
            (within (get_body app key) (λ t a l. record { entries = unchanged a; limits = l })))

    set-Keeps :
        (key value : Text) (expected : Option ℕ)
        → Keeps s app (set utf8 json s now auth key value expected)
    unfolding set
    set-Keeps key value expected =
        rw (e, set)
          (if-Keeps s app (not (valid_key utf8 key s.limits.key_bytes)) (s, err invalid_key) _
            (refused-Keeps s app invalid_key)
            (if-Keeps s app (not (valid_value utf8 json value s.limits.value_bytes))
              (s, err invalid_value) _ (refused-Keeps s app invalid_value)
              (within (set_body now app key value expected)
                (set_body-Kept now app key value expected s))))

    remove-Keeps :
        (key : Text) (expected : Option ℕ) → Keeps s app (remove utf8 json s now auth key expected)
    unfolding remove
    remove-Keeps key expected =
        rw (e, remove)
          (if-Keeps s app (not (valid_key utf8 key s.limits.key_bytes)) (s, err invalid_key) _
            (refused-Keeps s app invalid_key)
            (within (delete_body app key expected) (delete_body-Kept app key expected s)))

    list_keys-Keeps :
        (prefix cursor : Text) (limit : ℕ) → Keeps s app (list_keys s now auth prefix cursor limit)
    unfolding list_keys list_body
    list_keys-Keeps prefix cursor limit =
        rw (e, list_keys)
          (if-Keeps s app
            (ltb s.limits.key_bytes (length prefix) || ltb s.limits.key_bytes (length cursor))
            (s, err invalid_key) _ (refused-Keeps s app invalid_key)
            (if-Keeps s app (ltb limit 1 || ltb s.limits.list_limit limit)
              (s, err invalid_list_limit) _ (refused-Keeps s app invalid_list_limit)
              (within (list_body app prefix cursor limit)
                (λ t a l. record { entries = unchanged a; limits = l }))))

    pub run-Kept : (op : Op) → Kept s app (run utf8 json s now auth op)
    unfolding run
    run-Kept (getting key) = (get-Keeps key).kept
    run-Kept (setting key value expected) = (set-Keeps key value expected).kept
    run-Kept (removing key expected) = (remove-Keeps key expected).kept
    run-Kept (listing prefix cursor limit) = (list_keys-Keeps prefix cursor limit).kept
