-- ===== src/Gateway.antt =====
-- internal/gateway/gateway.go: from a request's host, path and cookie to the one handler that may
-- see it. A reply says which handler runs, with what authority. The headers that decide whether a
-- request is a document navigation, and the URL parsing of a return path, enter as their results.
pub mod Routing
pub mod Authority
use tinkercloud.Prelude.{
  ℕ, suc, ◌+◌, ◌-◌, ◌*◌, Bool, true, false, not, ◌&&◌, ◌||◌, Option, none, some, List, [], ◌∷◌,
  ◌++◌, Text, codes, text_eq, length, leb, ltb, ◌==◌, if◌then◌else◌,
}
use tinkercloud.Prelude.Strings.{take, to_lower, has_prefix, contains_byte}
use tinkercloud.AppNamespace
use tinkercloud.Access.{
  Policy, PublicGate, current, current_public_gate, App, AppStore, resolve_active, Context,
  StaticContext, Authorizer, authorize, authorize_static, open_gate,
}

pub data Host : Type 0 where
  unknown platform : Host
  app_host : Text → Host

-- The host names that `config.Config` derives from the operator's domain.
pub record Config : Type 0 where
  pub platform_host : Text
  pub app_suffix : Text

-- `strings.HasSuffix` and `strings.TrimSuffix`: what stands before the suffix, if it is one.
unfoldable pub cut_suffix : Text → Text → Option Text
cut_suffix [] suffix = if text_eq [] suffix then some [] else none
cut_suffix (c ∷ s) suffix =
    let rest = cut_suffix s suffix in
    if text_eq (c ∷ s) suffix then some [] else elim rest [ none ↦ none | some r ↦ some (c ∷ r) ]

abbrev or_whole : Text → Option Text → Text
or_whole s none = s
or_whole s (some r) = r

-- `strconv.ParseUint(port, 10, 16)` at a port that is not empty; `none` is its error.
parse_digits : ℕ → Text → Option ℕ
parse_digits acc [] = some acc
parse_digits acc (c ∷ s) =
    let rest = parse_digits (acc * 10 + (c - 48)) s in
    if leb 48 c && leb c 57 && leb (acc * 10 + (c - 48)) 65535 then rest else none

unfoldable pub valid_port : Text → Bool
unfolding parse_digits
valid_port port =
    if length port == 0
    then false
    else elim (parse_digits 0 port) [ none ↦ false | some n ↦ not (n == 0) ]

-- The part of `ClassifyHost` after the port is off.
unfoldable pub classify_name : Config → Text → Option Host
unfolding cut_suffix
classify_name cfg raw =
    let lower = to_lower raw in
    let h = or_whole lower (cut_suffix lower (codes ".")) in
    if length h == 0
    then none
    else if text_eq h cfg.platform_host
    then some platform
    else elim (cut_suffix h (codes "." ++ cfg.app_suffix)) [
      | none ↦ some unknown
      | some slug ↦ if not (AppNamespace.valid slug) then none else some (app_host slug)
    ]

-- `split` is `net.SplitHostPort`, `none` for its error.
unfoldable pub classify_host : (Text → Option (Text × Text)) → Config → Text → Option Host
unfolding valid_port
classify_host split cfg raw = elim (split raw) [
  | some (host, port) ↦ if not (valid_port port) then none else classify_name cfg host
  | none ↦ if contains_byte raw b':' then none else classify_name cfg raw
]

pub data Endpoint : Type 0 where
  reserved app_login app_logout app_identity_callback current_user app_info capabilities kv :
      Endpoint
  collections blobs llm_chat live protected_static : Endpoint

abbrev is_get : Text → Bool
is_get method = text_eq method (codes "GET")

abbrev is_post : Text → Bool
is_post method = text_eq method (codes "POST")

-- The routes under /_tinker/api/ and the socket.
unfoldable pub classify_capability : Text → Text → Endpoint
classify_capability method p =
    if has_prefix p (codes "/_tinker/api/v1/kv")
    then kv
    else if text_eq p (codes "/_tinker/api/v1/db") || has_prefix p (codes "/_tinker/api/v1/db/")
    then collections
    else if text_eq p (codes "/_tinker/api/v1/blobs")
        || has_prefix p (codes "/_tinker/api/v1/blobs/")
    then blobs
    else if is_post method && text_eq p (codes "/_tinker/api/v1/llm/chat")
    then llm_chat
    else if is_get method && text_eq p (codes "/_tinker/ws/v1")
    then live
    else reserved

unfoldable pub classify_route : Text → Text → Endpoint
classify_route method p =
    if not (has_prefix p (codes "/_tinker/"))
    then protected_static
    else if is_get method && text_eq p (codes "/_tinker/auth/login")
    then app_login
    else if is_post method && text_eq p (codes "/_tinker/auth/logout")
    then app_logout
    else if is_get method && text_eq p (codes "/_tinker/auth/callback")
    then app_identity_callback
    else if is_get method && text_eq p (codes "/_tinker/api/v1/me")
    then current_user
    else if is_get method && text_eq p (codes "/_tinker/api/v1/app")
    then app_info
    else if is_get method && text_eq p (codes "/_tinker/api/v1/capabilities")
    then capabilities
    else classify_capability method p

abbrev pub is_static : Endpoint → Bool
is_static protected_static = true
is_static _ = false

abbrev pub is_pre_auth : Endpoint → Bool
is_pre_auth app_login = true
is_pre_auth app_logout = true
is_pre_auth app_identity_callback = true
is_pre_auth _ = false

abbrev pub is_reserved : Endpoint → Bool
is_reserved reserved = true
is_reserved _ = false

pub record Request : Type 0 where
  pub host : Text
  pub method : Text
  pub path : Text
  pub cookie : Option Text
  pub id : Text
  pub is_document_navigation : Bool
  pub return_path : Option Text

-- Which handler runs.
pub data Reply : Type 0 where
  not_found not_authorized accepted platform_page : Reply
  pre_auth : App → Endpoint → Reply
  login_redirect : Text → Reply
  serve_static : StaticContext → Reply
  dispatch : Context → Endpoint → Reply

pub record Gateway : Type 0 where
  pub config : Config
  pub split_host_port : Text → Option (Text × Text)
  pub sha256 : Text → Text
  pub apps : Option AppStore
  pub authorizer : Authorizer
  pub has_platform : Bool
  pub has_pre_auth : Bool
  pub has_protected : Bool

unfoldable pub is_effective_public : Authorizer → App → Bool
unfolding current current_public_gate
is_effective_public a app =
    if length app.deployment_id == 0 || app.kv_enabled || app.blobs_enabled || app.realtime_enabled
    then false
    else elim (current a.policies app.id) [
      | none ↦ false
      | some p ↦
          if not p.valid || not (text_eq p.mode (codes "public"))
          then false
          else elim (current_public_gate a.policies) [ none ↦ false | some gate ↦ open_gate gate ]
    ]

abbrev token_of : Option Text → Text
token_of none = []
token_of (some t) = t

-- A refused navigation is sent to the login page, if it has a valid way back.
refuse : Request → Reply
refuse r =
    if r.is_document_navigation
    then elim r.return_path [ none ↦ not_authorized | some ret ↦ login_redirect ret ]
    else not_authorized

serve_static_page : Gateway → App → Request → Reply
unfolding refuse
serve_static_page g app r =
    elim (authorize_static g.sha256 g.authorizer app (token_of r.cookie) r.id) [
      | some c ↦ serve_static c
      | none ↦ refuse r
    ]

serve_capability : Gateway → App → Request → Endpoint → Reply
serve_capability g app r endpoint =
    elim (authorize g.sha256 g.authorizer app (token_of r.cookie) r.id) [
      | none ↦ not_authorized
      | some c ↦ if not g.has_protected then not_found else dispatch c endpoint
    ]

pub serve_endpoint : Gateway → App → Request → Endpoint → Reply
unfolding serve_static_page serve_capability
serve_endpoint g app r endpoint =
    if not (is_static endpoint) && is_effective_public g.authorizer app
    then not_found
    else if is_pre_auth endpoint
    then (if g.has_pre_auth then pre_auth app endpoint else accepted)
    else if is_reserved endpoint
    then not_found
    else if is_static endpoint
    then serve_static_page g app r
    else serve_capability g app r endpoint

serve_app : Gateway → Request → Text → Reply
unfolding serve_endpoint
serve_app g r slug = elim g.apps [
  | none ↦ not_found
  | some store ↦ elim (resolve_active store slug) [
    | none ↦ not_found
    | some app ↦ serve_endpoint g app r (classify_route r.method r.path)
  ]
]

serve_host : Gateway → Request → Option Host → Reply
unfolding serve_app
serve_host g r none = not_found
serve_host g r (some unknown) = not_found
serve_host g r (some platform) = if g.has_platform then platform_page else not_found
serve_host g r (some (app_host slug)) = serve_app g r slug

-- `ServeHTTP`.
unfoldable pub serve : Gateway → Request → Reply
unfolding serve_host
serve g r = serve_host g r (classify_host g.split_host_port g.config r.host)
