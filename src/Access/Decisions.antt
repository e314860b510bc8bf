-- ===== src/Access/Decisions.antt =====
-- internal/policies/policies.go and internal/appauth/appauth.go: what every decision requires.
use tinkercloud.Prelude.{
  ℕ, ◌<◌, ◌≡◌, ◌⊎◌, ◌↔◌, inl, inr, true, false, some, arith, Text, codes, text_eq_iff, length,
  Option-cases,
}
use tinkercloud.Prelude.Map.{lookup, has_key}
use tinkercloud.Identity.{Identity, domain}
use tinkercloud.Access.{
  Policy, PublicGate, evaluate, current, current_public_gate, Session, SessionStore, live_session,
  validate, App, Context, PublicContext, StaticContext, private_static, public_static, Authorizer,
  usable_policy, known_mode, authorize_session, authorize,
}

-- A viewer is admitted by a valid policy that names it as the owner, or lists its email or its
-- email's domain; an empty identity never is.
pub record Admits (p : Policy) (viewer : Identity) : Type 0 where
  pub policy_valid : p.valid ≡ true
  pub identified : 0 < length viewer.id
  pub listed :
      (viewer.id ≡ p.owner_identity_id)
      ⊎ (has_key viewer.email p.emails ≡ true)
      ⊎ (has_key (domain viewer.email) p.domains ≡ true)

evaluate_sound : (p : Policy) (viewer : Identity) → evaluate p viewer ≡ true → Admits p viewer
unfolding evaluate
evaluate_sound p viewer h = ground (arith, text_eq_iff viewer.id p.owner_identity_id)

evaluate_complete : (p : Policy) (viewer : Identity) → Admits p viewer → evaluate p viewer ≡ true
unfolding evaluate
evaluate_complete p viewer a = ground (arith, text_eq_iff viewer.id p.owner_identity_id)

-- The evaluation of a policy allows a viewer exactly when the policy admits it.
pub evaluate_iff : (p : Policy) (viewer : Identity) → (evaluate p viewer ≡ true) ↔ Admits p viewer
evaluate_iff p viewer = (evaluate_sound p viewer, evaluate_complete p viewer)

-- What stands behind a private context.
pub record IsAuthorized (sha256 : Text → Text) (a : Authorizer) (app : App)
    (token request_id : Text) (s : Session) (p : Policy) : Type 0 where
  pub presented : 0 < length token
  pub session_found : lookup (sha256 token) a.sessions ≡ some s
  pub not_revoked : s.revoked ≡ false
  pub same_app : s.app_id ≡ app.id
  pub unexpired : a.now < s.expires_at
  pub policy_current : current a.policies app.id ≡ some p
  pub policy_app : p.app_id ≡ app.id
  pub mode_known : known_mode p.mode ≡ true
  pub admitted : Admits p s.identity

validate_sound :
    (sha256 : Text → Text) (store : SessionStore) (app_id token : Text) (now : ℕ) (s : Session)
    → validate sha256 store app_id token now ≡ some s
    → (0 < length token)
      × (lookup (sha256 token) store ≡ some s)
      × (s.revoked ≡ false)
      × (s.app_id ≡ app_id)
      × (now < s.expires_at)
unfolding validate live_session
validate_sound sha256 store app_id token now s h =
    elim (Option-cases (lookup (sha256 token) store)) [
      | inl e ↦ ground arith
      | inr (v, e) ↦ ground (arith, text_eq_iff v.app_id app_id)
    ]

validate_complete :
    (sha256 : Text → Text) (store : SessionStore) (app_id token : Text) (now : ℕ) (s : Session)
    → 0 < length token
    → lookup (sha256 token) store ≡ some s
    → s.revoked ≡ false
    → s.app_id ≡ app_id
    → now < s.expires_at
    → validate sha256 store app_id token now ≡ some s
unfolding validate live_session
validate_complete sha256 store app_id token now s n f r a u =
    ground (arith, text_eq_iff s.app_id app_id)

abbrev context_of : App → Text → Session → Policy → Context
context_of app request_id s p = record {
  app = app;
  session = s;
  revision = p.revision;
  request_id = request_id;
}

authorize_session_sound :
    (sha256 : Text → Text) (a : Authorizer) (app : App) (request_id : Text) (s : Session)
    (c : Context)
    → authorize_session sha256 a app request_id s ≡ some c
    → (p : Policy) × (current a.policies app.id ≡ some p)
      × (usable_policy p app.id ≡ true)
      × (evaluate p s.identity ≡ true)
      × (c ≡ context_of app request_id s p)
unfolding authorize_session
authorize_session_sound sha256 a app request_id s c h =
    elim (Option-cases (current a.policies app.id)) [
      | inl e ↦ ground arith
      | inr (p, e) ↦ (p, e, ground arith, ground arith, ground arith)
    ]

abbrev pub Authorized : (Text → Text) → Authorizer → App → Text → Text → Context → Type 0
Authorized sha256 a app token request_id c =
    (s : Session) × (p : Policy) × IsAuthorized sha256 a app token request_id s p
    × (c ≡ context_of app request_id s p)

authorize_sound :
    (sha256 : Text → Text) (a : Authorizer) (app : App) (token request_id : Text) (c : Context)
    → authorize sha256 a app token request_id ≡ some c
    → Authorized sha256 a app token request_id c
unfolding authorize
authorize_sound sha256 a app token request_id c h =
    elim (Option-cases (validate sha256 a.sessions app.id token a.now)) [
      | inl e ↦ absurd (ground (arith, e))
      | inr (s, e) ↦
          let (n, f, r, same, u) = validate_sound sha256 a.sessions app.id token a.now s e in
          let (p, g, usable, allowed, made) =
            authorize_session_sound sha256 a app request_id s c (ground (arith, e)) in
          (
            s,
            p,
            record {
              presented = n;
              session_found = f;
              not_revoked = r;
              same_app = same;
              unexpired = u;
              policy_current = g;
              policy_app = ground (arith, text_eq_iff p.app_id app.id, usable);
              mode_known = ground (arith, usable);
              admitted = evaluate_sound p s.identity allowed;
            },
            made,
          )
    ]

authorize_complete :
    (sha256 : Text → Text) (a : Authorizer) (app : App) (token request_id : Text) (s : Session)
    (p : Policy)
    → IsAuthorized sha256 a app token request_id s p
    → authorize sha256 a app token request_id ≡ some (context_of app request_id s p)
unfolding authorize authorize_session
authorize_complete sha256 a app token request_id s p w = ground (
  arith,
  validate_complete sha256 a.sessions app.id token a.now s w.presented w.session_found w.not_revoked
      w.same_app w.unexpired,
  evaluate_complete p s.identity w.admitted,
  text_eq_iff p.app_id app.id,
  w.policy_current,
  w.policy_app,
  w.mode_known,
  w.admitted.policy_valid,
)

-- A private context is given exactly when the token is that of a session of this app, unrevoked and
-- unexpired, and the current policy of this app, of a known mode, admits the session's viewer; the
-- context then holds that app, session, policy revision and request.
pub authorize_iff :
    (sha256 : Text → Text) (a : Authorizer) (app : App) (token request_id : Text) (c : Context)
    → (authorize sha256 a app token request_id ≡ some c)
      ↔ Authorized sha256 a app token request_id c
authorize_iff sha256 a app token request_id c = (
  authorize_sound sha256 a app token request_id c,
  λ w. rw w.3 (authorize_complete sha256 a app token request_id w.0 w.1 w.2),
)

-- What stands behind a public context.
pub record IsPublic (a : Authorizer) (app : App) (c : PublicContext) (p : Policy)
    (gate : PublicGate) : Type 0 where
  pub no_capability :
      (app.kv_enabled ≡ false) × (app.blobs_enabled ≡ false) × (app.realtime_enabled ≡ false)
  pub released :
      (0 < length app.deployment_id)
      × (0 < length app.release_root)
      × (0 < length app.evidence_hash)
  pub policy_current : current a.policies app.id ≡ some p
  pub policy_valid : p.valid ≡ true
  pub policy_app : p.app_id ≡ app.id
  pub mode_public : p.mode ≡ codes "public"
  pub gate_current : current_public_gate a.policies ≡ some gate
  pub gate_open : (gate.valid ≡ true) × (gate.enabled ≡ true) × (0 < gate.revision)
  pub holds : c ≡ record {
    app = app;
    policy_revision = p.revision;
    gate_revision = gate.revision;
    indexing = app.public_indexing;
  }

-- Which static context a request may have: the public one, or a private one where no public one is
-- to be had.
abbrev pub IsStaticContext : (Text → Text) → Authorizer → App → Text → Text → StaticContext → Type 0
IsStaticContext sha256 a app token request_id (public_static c) =
    (p : Policy) × (gate : PublicGate) × IsPublic a app c p gate
IsStaticContext sha256 a app token request_id (private_static c) =
    ((k : PublicContext) (p : Policy) (gate : PublicGate) → ¬ IsPublic a app k p gate)
    × Authorized sha256 a app token request_id c
