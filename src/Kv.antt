-- ===== src/Kv.antt =====
-- internal/kv/kv.go: the key-value capability. An operation runs for the sealed context of a
-- request at an instant and returns the new service. What the change sink is told stands in
-- `published`, newest first. `json.Valid` and `utf8.ValidString` are parameters.
pub mod Store
pub mod Rates
pub mod Keys
pub mod Grammar
pub mod Writes
pub mod Quota
pub mod Isolation
pub mod Versions
pub mod Budgets
pub mod Order
pub mod Paging
pub mod Tables
pub mod Backends
use tinkercloud.Prelude.{
  ℕ, Bool, true, false, not, ◌&&◌, ◌||◌, Option, none, some, List, [], ◌∷◌, Text, length, ltb, leb,
  ◌==◌, if◌then◌else◌,
}
use tinkercloud.Prelude.Map.{Map, lookup, insert}
use tinkercloud.Access.{Context, scope}
use Store.{
  Limits, Error, invalid_key, invalid_value, invalid_list_limit, unavailable, rate_limited,
  unauthorized, Outcome, ok, err, Entry, Mutation, set_entry, delete_entry, ListResult,
  list_entries,
}
use Rates.{RateLog, allow}
use Keys.{valid_key}

abbrev pub default_limits : Limits
default_limits = record {
  key_bytes = 256;
  value_bytes = 65536;
  keys_per_app = 10000;
  total_bytes_per_app = 104857600;
  list_limit = 100;
  request_window = 60000000000;
  requests_per_window = 120;
  viewer_requests_per_window = 120;
  app_requests_per_window = 600;
  global_requests_per_window = 10000;
  max_rate_scopes = 10000;
}

abbrev pub or_default : ℕ → ℕ → ℕ
or_default n d = if n == 0 then d else n

unfoldable pub normalized_limits : Limits → Limits
normalized_limits l = record l {
  request_window = or_default l.request_window default_limits.request_window;
  requests_per_window = or_default l.requests_per_window default_limits.requests_per_window;
  viewer_requests_per_window =
      or_default l.viewer_requests_per_window
        (or_default l.requests_per_window default_limits.requests_per_window);
  app_requests_per_window =
      or_default l.app_requests_per_window default_limits.app_requests_per_window;
  global_requests_per_window =
      or_default l.global_requests_per_window default_limits.global_requests_per_window;
  max_rate_scopes = or_default l.max_rate_scopes default_limits.max_rate_scopes;
}

pub record Service : Type 0 where
  pub limits : Limits
  pub apps : Map (Map Entry)
  pub rates : RateLog
  pub has_sink : Bool
  pub published : List (Text × Mutation)

unfoldable pub new : Limits → Bool → Service
unfolding normalized_limits
new l has_sink = record {
  limits = normalized_limits (if l.key_bytes == 0 then default_limits else l);
  apps = [];
  rates = record { scopes = []; global = [] };
  has_sink = has_sink;
  published = [];
}

-- The app and the viewer of a context.
unfoldable pub app_of : Option Context → Outcome (Text × Text)
app_of none = err unavailable
app_of (some c) =
    if not c.app.kv_enabled
    then err unavailable
    else elim (scope (some c)) [ none ↦ err unauthorized | some s ↦ ok (s.0, s.1) ]

-- `s.apps[app]`, whose zero value is empty.
abbrev pub or_empty : Option (Map Entry) → Map Entry
or_empty none = []
or_empty (some m) = m

unfoldable pub entries_in : Text → Map (Map Entry) → Map Entry
entries_in app apps = or_empty (lookup app apps)

abbrev pub publish : Text → Mutation → Service → Service
publish app m s = if s.has_sink then record s { published = (app, m) ∷ s.published } else s

-- `s.allow`, and then `body`.
unfoldable pub with_budget :
    {A : Type 0} → Service → ℕ → Text → Text → (Service → Service × Outcome A) → Service × Outcome A
with_budget s now app viewer body =
    let r = allow s.limits now s.rates app viewer in
    let s' : Service = record s { rates = r.0 } in if r.1 then body s' else (s', err rate_limited)

unfoldable pub get_body : Text → Text → Service → Service × Outcome (Option Entry)
get_body app key s = (s, ok (lookup key (entries_in app s.apps)))

-- The map of the app is there after a write, also after one that is refused.
unfoldable pub set_body : ℕ → Text → Text → Text → Option ℕ → Service → Service × Outcome Entry
set_body now app key value expected s =
    let m = entries_in app s.apps in
    elim (set_entry s.limits now m key value expected) [
      | err e ↦ (record s { apps = insert app m s.apps }, err e)
      | ok (m', e) ↦ (
        publish app (record { key = key; value = value; version = e.version; deleted = false })
            (record s { apps = insert app m' s.apps }),
        ok e,
      )
    ]

unfoldable pub delete_body : Text → Text → Option ℕ → Service → Service × Outcome Bool
delete_body app key expected s = elim (delete_entry (entries_in app s.apps) key expected) [
  | err e ↦ (s, err e)
  | ok (m', none) ↦ (s, ok false)
  | ok (m', some mutation) ↦
      (publish app mutation (record s { apps = insert app m' s.apps }), ok true)
]

unfoldable pub list_body : Text → Text → Text → ℕ → Service → Service × Outcome ListResult
list_body app prefix cursor limit s =
    (s, ok (list_entries (entries_in app s.apps) prefix cursor limit))

module _ (utf8_valid json_valid : Text → Bool) where
  unfoldable pub valid_value : Text → ℕ → Bool
  valid_value value max = ltb 0 (length value) && leb (length value) max && json_valid value

  unfoldable pub get : Service → ℕ → Option Context → Text → Service × Outcome (Option Entry)
  get s now auth key = elim (app_of auth) [
    | err e ↦ (s, err e)
    | ok (app, viewer) ↦
        if not (valid_key utf8_valid key s.limits.key_bytes)
        then (s, err invalid_key)
        else with_budget s now app viewer (get_body app key)
  ]

  unfoldable pub set :
      Service → ℕ → Option Context → Text → Text → Option ℕ → Service × Outcome Entry
  unfolding valid_value
  set s now auth key value expected = elim (app_of auth) [
    | err e ↦ (s, err e)
    | ok (app, viewer) ↦
        if not (valid_key utf8_valid key s.limits.key_bytes)
        then (s, err invalid_key)
        else if not (valid_value value s.limits.value_bytes)
        then (s, err invalid_value)
        else with_budget s now app viewer (set_body now app key value expected)
  ]

  unfoldable pub remove : Service → ℕ → Option Context → Text → Option ℕ → Service × Outcome Bool
  remove s now auth key expected = elim (app_of auth) [
    | err e ↦ (s, err e)
    | ok (app, viewer) ↦
        if not (valid_key utf8_valid key s.limits.key_bytes)
        then (s, err invalid_key)
        else with_budget s now app viewer (delete_body app key expected)
  ]

unfoldable pub list_keys :
    Service → ℕ → Option Context → Text → Text → ℕ → Service × Outcome ListResult
list_keys s now auth prefix cursor limit = elim (app_of auth) [
  | err e ↦ (s, err e)
  | ok (app, viewer) ↦
      if ltb s.limits.key_bytes (length prefix) || ltb s.limits.key_bytes (length cursor)
      then (s, err invalid_key)
      else if ltb limit 1 || ltb s.limits.list_limit limit
      then (s, err invalid_list_limit)
      else with_budget s now app viewer (list_body app prefix cursor limit)
]
