-- ===== src/Access.antt =====
-- internal/policies/policies.go, internal/sessions/sessions.go, internal/apps/apps.go,
-- internal/appauth/appauth.go and internal/capabilities/context.go: who may reach an app.
pub mod Decisions
pub mod Sessions
use tinkercloud.Prelude.{
  ℕ, Bool, true, false, not, ◌&&◌, ◌||◌, Option, none, some, List, [], ◌∷◌, Text, codes, text_eq,
  length, ltb, ◌==◌, if◌then◌else◌,
}
use tinkercloud.Prelude.Map.{Map, lookup, insert, has_key}
use tinkercloud.Prelude.Strings.{take}
use tinkercloud.Identity.{Identity, domain}

-- policies.go. The two sets are maps of nothing.
pub record Policy : Type 0 where
  pub app_id : Text
  pub owner_identity_id : Text
  pub revision : ℕ
  pub mode : Text
  pub emails : Map (Unit {0})
  pub domains : Map (Unit {0})
  pub valid : Bool

pub record PublicGate : Type 0 where
  pub revision : ℕ
  pub enabled : Bool
  pub valid : Bool

-- `true` is `Allow`.
unfoldable pub evaluate : Policy → Identity → Bool
unfolding domain
evaluate p viewer =
    if not p.valid || length viewer.id == 0
    then false
    else if text_eq viewer.id p.owner_identity_id
    then true
    else if has_key viewer.email p.emails
    then true
    else has_key (domain viewer.email) p.domains

-- `MemoryStore`: `broken` is its `Err`, and `none` is an error.
pub record PolicyStore : Type 0 where
  pub policies : Map Policy
  pub gate : PublicGate
  pub broken : Bool

unfoldable pub current : PolicyStore → Text → Option Policy
current s app_id = if s.broken then none else lookup app_id s.policies

unfoldable pub current_public_gate : PolicyStore → Option PublicGate
current_public_gate s = if s.broken then none else if not s.gate.valid then none else some s.gate

-- sessions.go.
pub record Session : Type 0 where
  pub id : Text
  pub app_id : Text
  pub identity : Identity
  pub expires_at : ℕ
  pub revoked : Bool

-- The sessions by the SHA-256 of their tokens.
abbrev pub SessionStore : Type 0
SessionStore = Map Session

unfoldable pub live_session : Session → Text → ℕ → Bool
live_session v app_id now =
    not (v.revoked || not (text_eq v.app_id app_id) || not (ltb now v.expires_at))

module _ (sha256 : Text → Text) where
  -- `Create`, for a fresh random token.
  unfoldable pub create_session : SessionStore → Text → Text → Identity → ℕ → SessionStore × Session
  create_session s token app_id viewer expiry =
      let v : Session = record {
        id = take 12 token;
        app_id = app_id;
        identity = viewer;
        expires_at = expiry;
        revoked = false;
      } in
      (insert (sha256 token) v s, v)

  unfoldable pub validate : SessionStore → Text → Text → ℕ → Option Session
  validate s app_id token now = if length token == 0 then none else elim (lookup (sha256 token) s) [
    | none ↦ none
    | some v ↦ if live_session v app_id now then some v else none
  ]

  unfoldable pub revoke : SessionStore → Text → SessionStore
  revoke s token = elim (lookup (sha256 token) s) [
    | none ↦ s
    | some v ↦ insert (sha256 token) (record v { revoked = true }) s
  ]

-- apps.go.
pub data Status : Type 0 where
  active suspended deleting failed : Status

abbrev pub is_active : Status → Bool
is_active active = true
is_active _ = false

pub record App : Type 0 where
  pub id : Text
  pub slug : Text
  pub owner_identity_id : Text
  pub release_root : Text
  pub deployment_id : Text
  pub evidence_hash : Text
  pub status : Status
  pub spa_fallback : Bool
  pub kv_enabled : Bool
  pub blobs_enabled : Bool
  pub realtime_enabled : Bool
  pub public_indexing : Bool

-- `MemoryRepository`, whose `Err` is `broken`.
pub record AppStore : Type 0 where
  pub by_slug : Map App
  pub broken : Bool

unfoldable pub resolve_active : AppStore → Text → Option App
resolve_active r slug = if r.broken then none else elim (lookup slug r.by_slug) [
  | none ↦ none
  | some a ↦ if not (is_active a.status) then none else some a
]

-- appauth.go. The private `authorizationContext`.
pub record Context : Type 0 where
  pub app : App
  pub session : Session
  pub revision : ℕ
  pub request_id : Text

pub record PublicContext : Type 0 where
  pub app : App
  pub policy_revision : ℕ
  pub gate_revision : ℕ
  pub indexing : Bool

pub data StaticContext : Type 0 where
  private_static : Context → StaticContext
  public_static : PublicContext → StaticContext

pub record Authorizer : Type 0 where
  pub sessions : SessionStore
  pub policies : PolicyStore
  pub now : ℕ

abbrev pub known_mode : Text → Bool
known_mode mode =
    length mode == 0 || text_eq mode (codes "private") || text_eq mode (codes "public")

abbrev pub usable_policy : Policy → Text → Bool
usable_policy p app_id = p.valid && text_eq p.app_id app_id && known_mode p.mode

abbrev pub bare_app : App → Bool
bare_app app =
    not app.kv_enabled
    && not app.blobs_enabled
    && not app.realtime_enabled
    && not (length app.deployment_id == 0)
    && not (length app.release_root == 0)
    && not (length app.evidence_hash == 0)

abbrev pub open_gate : PublicGate → Bool
open_gate gate = gate.valid && gate.enabled && ltb 0 gate.revision

-- The public branch of `AuthorizeStatic`.
unfoldable pub authorize_public : Authorizer → App → Option PublicContext
unfolding current current_public_gate
authorize_public a app = if not (bare_app app) then none else elim (current a.policies app.id) [
  | none ↦ none
  | some p ↦ elim (current_public_gate a.policies) [
    | none ↦ none
    | some gate ↦
        if p.valid && text_eq p.app_id app.id && text_eq p.mode (codes "public") && open_gate gate
        then some (record {
          app = app;
          policy_revision = p.revision;
          gate_revision = gate.revision;
          indexing = app.public_indexing;
        })
        else none
  ]
]

module _ (sha256 : Text → Text) where
  authorize_session : Authorizer → App → Text → Session → Option Context
  unfolding current
  authorize_session a app request_id s = elim (current a.policies app.id) [
    | none ↦ none
    | some p ↦
        if not (usable_policy p app.id)
        then none
        else if not (evaluate p s.identity)
        then none
        else some
            (record { app = app; session = s; revision = p.revision; request_id = request_id })
  ]

  unfoldable pub authorize : Authorizer → App → Text → Text → Option Context
  unfolding authorize_session
  authorize a app token request_id = elim (validate sha256 a.sessions app.id token a.now) [
    | none ↦ none
    | some s ↦ authorize_session a app request_id s
  ]

  unfoldable pub authorize_static : Authorizer → App → Text → Text → Option StaticContext
  authorize_static a app token request_id = elim (authorize_public a app) [
    | some c ↦ some (public_static c)
    | none ↦ elim (authorize a app token request_id) [
      | some c ↦ some (private_static c)
      | none ↦ none
    ]
  ]

-- context.go: `Scope`, at the context that `authorize` makes.
unfoldable pub scope : Option Context → Option (Text × Text × Text)
scope none = none
scope (some c) =
    if length c.app.id == 0 || length c.session.identity.id == 0 || length c.session.id == 0
    then none
    else some (c.app.id, c.session.identity.id, c.session.id)
