-- ===== src/Gateway/Authority.antt =====
-- internal/gateway/gateway.go: which authority stands behind each handler that `ServeHTTP` runs.
use tinkercloud.Prelude.{
  ◌≡◌, refl, inl, inr, Bool, true, false, not, ◌&&◌, Option, none, some, arith, Text, codes,
  Option-cases, Bool-cases,
}
use tinkercloud.Prelude.Strings.{has_prefix}
use tinkercloud.Access.{
  App, AppStore, resolve_active, Context, StaticContext, authorize, authorize_static,
}
use tinkercloud.Access.Decisions.{Authorized, authorize_iff}
use tinkercloud.Gateway.{
  Host, app_host, platform, unknown, classify_host, Endpoint, classify_route, classify_capability,
  is_static, is_pre_auth, is_reserved, Request, Reply, not_found, dispatch, serve_static, pre_auth,
  Gateway, is_effective_public, token_of, serve_static_page, serve_capability, serve_endpoint,
  serve_app, serve_host, serve,
}

-- The app that a request's host names: it is in the store under the slug, and active.
pub record IsResolved (g : Gateway) (r : Request) (slug : Text) (store : AppStore) (app : App)
    : Type 0 where
  pub named : classify_host g.split_host_port g.config r.host ≡ some (app_host slug)
  pub stored : g.apps ≡ some store
  pub resolved : resolve_active store slug ≡ some app

-- What has been served by `serve_endpoint` for a resolved app.
abbrev pub Served : Gateway → Request → Reply → Type 0
Served g r reply =
    (slug : Text) × (store : AppStore) × (app : App) × IsResolved g r slug store app
    × (serve_endpoint g app r (classify_route r.method r.path) ≡ reply)

-- Replies that only an app's handler gives.
abbrev pub is_app_reply : Reply → Bool
is_app_reply (dispatch c e) = true
is_app_reply (serve_static c) = true
is_app_reply (pre_auth app e) = true
is_app_reply _ = false

Served-app :
    (g : Gateway) (r : Request) (slug : Text) (reply : Reply)
    → is_app_reply reply ≡ true
    → classify_host g.split_host_port g.config r.host ≡ some (app_host slug)
    → serve_app g r slug ≡ reply
    → Served g r reply
unfolding serve_app
Served-app g r slug reply a n e = elim (Option-cases g.apps) [
  | inl f ↦ absurd (ground (arith, f))
  | inr (store, f) ↦ elim (Option-cases (resolve_active store slug)) [
    | inl h ↦ absurd (ground (arith, f, h))
    | inr (app, h) ↦
        (slug, store, app, record { named = n; stored = f; resolved = h }, ground (arith, f, h))
  ]
]

Served-host :
    (g : Gateway) (r : Request) (h : Option Host) (reply : Reply)
    → is_app_reply reply ≡ true
    → classify_host g.split_host_port g.config r.host ≡ h
    → serve_host g r h ≡ reply
    → Served g r reply
unfolding serve_host
Served-host g r none reply a n e = ground arith
Served-host g r (some unknown) reply a n e = ground arith
Served-host g r (some platform) reply a n e = ground arith
Served-host g r (some (app_host slug)) reply a n e = Served-app g r slug reply a n e

serve_sound :
    (g : Gateway) (r : Request) (reply : Reply)
    → is_app_reply reply ≡ true
    → serve g r ≡ reply
    → Served g r reply
unfolding serve
serve_sound g r reply a e =
    Served-host g r (classify_host g.split_host_port g.config r.host) reply a refl e

-- The endpoint of a dispatched request.
pub record IsCapability (g : Gateway) (app : App) (r : Request) (e : Endpoint) : Type 0 where
  pub route : e ≡ classify_route r.method r.path
  pub not_static : is_static e ≡ false
  pub not_pre_auth : is_pre_auth e ≡ false
  pub not_reserved : is_reserved e ≡ false
  pub not_public : is_effective_public g.authorizer app ≡ false

capability_sound :
    (g : Gateway) (app : App) (r : Request) (e e' : Endpoint) (c : Context)
    → serve_capability g app r e ≡ dispatch c e'
    → (authorize g.sha256 g.authorizer app (token_of r.cookie) r.id ≡ some c) × (e' ≡ e)
unfolding serve_capability
capability_sound g app r e e' c h = ground arith

static_page_sound :
    (g : Gateway) (app : App) (r : Request) (c : StaticContext)
    → serve_static_page g app r ≡ serve_static c
    → authorize_static g.sha256 g.authorizer app (token_of r.cookie) r.id ≡ some c
unfolding serve_static_page
static_page_sound g app r c h = ground arith

static_page-no_dispatch :
    (g : Gateway) (app : App) (r : Request) (e : Endpoint) (c : Context)
    → serve_static_page g app r ≡ dispatch c e
    → ⊥
unfolding serve_static_page
static_page-no_dispatch g app r e c h = ground arith

capability-no_static :
    (g : Gateway) (app : App) (r : Request) (e : Endpoint) (c : StaticContext)
    → serve_capability g app r e ≡ serve_static c
    → ⊥
unfolding serve_capability
capability-no_static g app r e c h = ground arith

endpoint-dispatch :
    (g : Gateway) (app : App) (r : Request) (e e' : Endpoint) (c : Context)
    → serve_endpoint g app r e ≡ dispatch c e'
    → (serve_capability g app r e ≡ dispatch c e')
      × (is_static e ≡ false)
      × (is_pre_auth e ≡ false)
      × (is_reserved e ≡ false)
      × (is_effective_public g.authorizer app ≡ false)
unfolding serve_endpoint
endpoint-dispatch g app r e e' c h =
    elim (Bool-cases (not (is_static e) && is_effective_public g.authorizer app)) [
      | inl x ↦ absurd (ground arith)
      | inr x ↦ elim (Bool-cases (is_static e)) [
        | inl s ↦ absurd (static_page-no_dispatch g app r e' c (ground arith))
        | inr s ↦ ground arith
      ]
    ]

endpoint-static :
    (g : Gateway) (app : App) (r : Request) (e : Endpoint) (c : StaticContext)
    → serve_endpoint g app r e ≡ serve_static c
    → (serve_static_page g app r ≡ serve_static c) × (is_static e ≡ true)
unfolding serve_endpoint
endpoint-static g app r e c h = elim (Bool-cases (is_static e)) [
  | inl s ↦ ground arith
  | inr s ↦ absurd (ground (arith, capability-no_static g app r e c))
]

-- A capability handler runs only for the active app that the host names, on the capability route
-- that the path names, with a private context of that app for the request's token; and never while
-- the app is effectively public.
pub serve_dispatch_sound :
    (g : Gateway) (r : Request) (c : Context) (e : Endpoint)
    → serve g r ≡ dispatch c e
    → (slug : Text) × (store : AppStore) × (app : App) × IsResolved g r slug store app
      × IsCapability g app r e
      × Authorized g.sha256 g.authorizer app (token_of r.cookie) r.id c
serve_dispatch_sound g r c e h =
    let (slug, store, app, resolved, served) = serve_sound g r (dispatch c e) refl h in
    let (k, s, p, v, pub_off) =
      endpoint-dispatch g app r (classify_route r.method r.path) e c served in
    let (auth, same) = capability_sound g app r (classify_route r.method r.path) e c k in
    (
      slug,
      store,
      app,
      resolved,
      record {
        route = same;
        not_static = rw same s;
        not_pre_auth = rw same p;
        not_reserved = rw same v;
        not_public = pub_off;
      },
      (authorize_iff g.sha256 g.authorizer app (token_of r.cookie) r.id c).0 auth,
    )

classify_capability_dynamic : (method p : Text) → is_static (classify_capability method p) ≡ false
unfolding classify_capability
classify_capability_dynamic method p = ground arith

route_static :
    (method p : Text)
    → is_static (classify_route method p) ≡ true
    → has_prefix p (codes "/_tinker/") ≡ false
unfolding classify_route
route_static method p s = ground (arith, classify_capability_dynamic method p)

-- A release's files are served only for the active app that the host names, on a path outside
-- /_tinker/, with a static context that the authorizer gave for that app and the request's token.
pub serve_static_sound :
    (g : Gateway) (r : Request) (c : StaticContext)
    → serve g r ≡ serve_static c
    → (slug : Text) × (store : AppStore) × (app : App) × IsResolved g r slug store app
      × (has_prefix r.path (codes "/_tinker/") ≡ false)
      × (authorize_static g.sha256 g.authorizer app (token_of r.cookie) r.id ≡ some c)
serve_static_sound g r c h =
    let (slug, store, app, resolved, served) = serve_sound g r (serve_static c) refl h in
    let (page, s) = endpoint-static g app r (classify_route r.method r.path) c served in
    (slug, store, app, resolved, route_static r.method r.path s, static_page_sound g app r c page)

route_dynamic :
    (method p : Text)
    → has_prefix p (codes "/_tinker/") ≡ true
    → is_static (classify_route method p) ≡ false
unfolding classify_route
route_dynamic method p s = ground (arith, classify_capability_dynamic method p)

endpoint-public :
    (g : Gateway) (app : App) (r : Request) (e : Endpoint)
    → is_effective_public g.authorizer app ≡ true
    → is_static e ≡ false
    → serve_endpoint g app r e ≡ not_found
unfolding serve_endpoint
endpoint-public g app r e p s = rw (p, s)

-- For the active app that the host names, nothing under /_tinker/ is reached while the app is
-- effectively public, whatever the method and the cookie.
pub serve_public_reserved :
    (g : Gateway) (r : Request) (slug : Text) (store : AppStore) (app : App)
    → IsResolved g r slug store app
    → is_effective_public g.authorizer app ≡ true
    → has_prefix r.path (codes "/_tinker/") ≡ true
    → serve g r ≡ not_found
unfolding serve
serve_public_reserved g r slug store app w p s =
    rw (w.named, serve_host, serve_app)
      (ground (
        arith,
        w.stored,
        w.resolved,
        endpoint-public g app r (classify_route r.method r.path) p
            (route_dynamic r.method r.path s),
      ))
