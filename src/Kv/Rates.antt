-- ===== src/Kv/Rates.antt =====
-- internal/kv/kv.go: the request budgets of a viewer in an app, of an app, and of the service. The
-- loops that forget old events are the ones of internal/ratelimit.
use tinkercloud.Prelude.{
  ℕ, ◌+◌, Bool, true, false, not, ◌||◌, List, [], ◌∷◌, ◌++◌, Text, codes, length, ltb, leb,
  if◌then◌else◌,
}
use tinkercloud.Prelude.Map.{Map, insert, has_key}
use tinkercloud.RateLimit.Window.{drop_old, prune, events_of}
use tinkercloud.Kv.Store.{Limits}

pub record RateLog : Type 0 where
  pub scopes : Map (List ℕ)
  pub global : List ℕ

unfoldable pub viewer_key : Text → Text → Text
viewer_key app viewer = codes "viewer" ++ (0 ∷ (app ++ (0 ∷ viewer)))

unfoldable pub app_key : Text → Text
app_key app = codes "app" ++ (0 ∷ app)

-- What a look at the budgets forgets.
unfoldable pub forget : Limits → ℕ → RateLog → RateLog
forget l now r = record {
  scopes = prune now l.request_window r.scopes;
  global = drop_old now l.request_window r.global;
}

-- Whether the three budgets have room.
unfoldable pub has_budget : Limits → RateLog → Text → Text → Bool
has_budget l r viewer app =
    if leb l.viewer_requests_per_window (length (events_of viewer r.scopes))
      || leb l.app_requests_per_window (length (events_of app r.scopes))
      || leb l.global_requests_per_window (length r.global)
    then false
    else true

abbrev pub new_scope : Map (List ℕ) → Text → ℕ
new_scope scopes k = if has_key k scopes then 0 else 1

unfoldable pub enter : ℕ → RateLog → Text → Text → RateLog
enter now r viewer app = record {
  scopes =
      insert app (events_of app r.scopes ++ now ∷ [])
        (insert viewer (events_of viewer r.scopes ++ now ∷ []) r.scopes);
  global = r.global ++ now ∷ [];
}

-- `allow`; `false` is `ErrRateLimited`.
unfoldable pub allow : Limits → ℕ → RateLog → Text → Text → RateLog × Bool
unfolding forget has_budget enter viewer_key app_key
allow l now rates app viewer =
    let r = forget l now rates in
    let v = viewer_key app viewer in
    let a = app_key app in
    if not (has_budget l r v a)
    then (r, false)
    else if ltb l.max_rate_scopes (length r.scopes + (new_scope r.scopes v + new_scope r.scopes a))
    then (r, false)
    else (enter now r v a, true)
