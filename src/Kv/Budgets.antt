-- ===== src/Kv/Budgets.antt =====
-- internal/kv/kv.go: the budgets of `allow`.
use tinkercloud.Prelude.{
  ℕ, suc, ◌+◌, ◌≤◌, ◌≡◌, ◌≢◌, true, false, List, [], ◌∷◌, ◌++◌, arith, Text, text_eq, text_eq_iff,
  length, if◌then◌else◌, length-append,
}
use tinkercloud.Prelude.Map.{Map, insert, lookup-insert, length-insert, has_key-insert}
use tinkercloud.Prelude.Strings.{contains_byte}
use tinkercloud.Prelude.Cuts.{until_byte}
use tinkercloud.RateLimit.Window.{events_of}
use tinkercloud.Kv.Store.{Limits}
use tinkercloud.Kv.Rates.{RateLog, viewer_key, app_key, forget, has_budget, new_scope, enter, allow}

events_of-insert :
    (k j : Text) (es : List ℕ) (m : Map (List ℕ))
    → events_of j (insert k es m) ≡ (if text_eq k j then es else events_of j m)
unfolding events_of
events_of-insert k j es m = ground (arith, lookup-insert k j es m)

-- The keys of viewers and those of apps are apart.
viewer_key-ne-app_key : (app viewer other : Text) → viewer_key app viewer ≢ app_key other
unfolding viewer_key app_key
viewer_key-ne-app_key app viewer other e = cc

length-snoc : (es : List ℕ) (now : ℕ) → length (es ++ now ∷ []) ≡ suc (length es)
length-snoc es now = omega (arith, length-append es (now ∷ []))

-- What an admitted request leaves in its three budgets, and in the map of them.
pub record Counted (l : Limits) (r' : RateLog) (app viewer : Text) : Type 0 where
  pub of_viewer :
      length (events_of (viewer_key app viewer) r'.scopes) ≤ l.viewer_requests_per_window
  pub of_app : length (events_of (app_key app) r'.scopes) ≤ l.app_requests_per_window
  pub of_service : length r'.global ≤ l.global_requests_per_window
  pub scopes : length r'.scopes ≤ l.max_rate_scopes

module _ (l : Limits) (now : ℕ) (r : RateLog) (v a : Text) (n : v ≢ a) where
  enter_viewer : length (events_of v (enter now r v a).scopes) ≡ suc (length (events_of v r.scopes))
  unfolding enter
  enter_viewer = ground (
    arith,
    events_of-insert a v (events_of a r.scopes ++ now ∷ [])
        (insert v (events_of v r.scopes ++ now ∷ []) r.scopes),
    events_of-insert v v (events_of v r.scopes ++ now ∷ []) r.scopes,
    text_eq_iff a v,
    text_eq_iff v v,
    length-snoc (events_of v r.scopes) now,
  )

  enter_app : length (events_of a (enter now r v a).scopes) ≡ suc (length (events_of a r.scopes))
  unfolding enter
  enter_app = ground (
    arith,
    events_of-insert a a (events_of a r.scopes ++ now ∷ [])
        (insert v (events_of v r.scopes ++ now ∷ []) r.scopes),
    text_eq_iff a a,
    length-snoc (events_of a r.scopes) now,
  )

  enter_scopes :
      length (enter now r v a).scopes
      ≡ length r.scopes + (new_scope r.scopes v + new_scope r.scopes a)
  unfolding enter
  enter_scopes = ground (
    arith,
    length-insert a (events_of a r.scopes ++ now ∷ [])
        (insert v (events_of v r.scopes ++ now ∷ []) r.scopes),
    length-insert v (events_of v r.scopes ++ now ∷ []) r.scopes,
    has_key-insert v a (events_of v r.scopes ++ now ∷ []) r.scopes,
    text_eq_iff v a,
  )

-- After an admitted request, the viewer in this app, the app and the service have each made no more
-- requests within the window than their budgets allow, and the budgets that are kept are no more
-- than the bound on them.
pub allow-Counted :
    (l : Limits) (now : ℕ) (r r' : RateLog) (app viewer : Text)
    → allow l now r app viewer ≡ (r', true)
    → Counted l r' app viewer
unfolding allow has_budget
allow-Counted l now r r' app viewer h =
    let v = viewer_key app viewer in
    let a = app_key app in
    let f = forget l now r in
    let n = viewer_key-ne-app_key app viewer app in
    let made : r' ≡ enter now f v a = ground arith in
    rw made (record {
      of_viewer = ground (arith, enter_viewer l now f v a n);
      of_app = ground (arith, enter_app l now f v a n);
      of_service = ground (arith, length-snoc f.global now);
      scopes = ground (arith, enter_scopes l now f v a n);
    })

-- A request that is refused enters nothing: it leaves what forgetting the old events leaves.
pub allow_refused :
    (l : Limits) (now : ℕ) (r : RateLog) (app viewer : Text)
    → (allow l now r app viewer).1 ≡ false
    → (allow l now r app viewer).0 ≡ forget l now r
unfolding allow
allow_refused l now r app viewer h = ground arith

viewer_key-injective :
    (app app' viewer viewer' : Text)
    → contains_byte app 0 ≡ false
    → contains_byte app' 0 ≡ false
    → viewer_key app viewer ≡ viewer_key app' viewer'
    → app ≡ app'
unfolding viewer_key
viewer_key-injective app app' viewer viewer' h k e =
    (until_byte 0 app app' viewer viewer' h k (cc)).0

-- A request in one app, admitted or not, enters nothing in the budget of a viewer in another app,
-- whoever the viewers are, as long as the IDs of the apps hold no NUL.
pub allow_apart :
    (l : Limits) (now : ℕ) (r : RateLog) (app app' viewer viewer' : Text)
    → contains_byte app 0 ≡ false
    → contains_byte app' 0 ≡ false
    → app ≢ app'
    → events_of (viewer_key app' viewer') (allow l now r app viewer).0.scopes
      ≡ events_of (viewer_key app' viewer') (forget l now r).scopes
unfolding allow enter
allow_apart l now r app app' viewer viewer' h k n =
    let v = viewer_key app viewer in
    let a = app_key app in
    let other = viewer_key app' viewer' in
    let f = forget l now r in
    let inner = insert v (events_of v f.scopes ++ now ∷ []) f.scopes in
    let e₁ : text_eq v other ≡ false =
      ground (arith, text_eq_iff v other, viewer_key-injective app app' viewer viewer' h k, n) in
    let e₂ : text_eq a other ≡ false =
      ground (arith, text_eq_iff a other, viewer_key-ne-app_key app' viewer' app) in
    ground (
      arith,
      e₁,
      e₂,
      events_of-insert a other (events_of a f.scopes ++ now ∷ []) inner,
      events_of-insert v other (events_of v f.scopes ++ now ∷ []) f.scopes,
    )
