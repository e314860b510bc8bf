-- ===== src/GlobalIdentity/Dashboard.antt =====
-- internal/persistence/global_identity.go: the login on the platform's host and the dashboard keep a
-- revoked family revoked, and the dashboard is for its users.
use tinkercloud.Prelude.{
  ◌≡◌, refl, ℕ, Bool, true, false, not, ◌||◌, ◌==◌, Option, none, some, List, ◌++◌, Text, text_eq,
  arith, if_cases, option_cases, length, ltb, codes, Option-cases, Bool-cases, ◌⊎◌, text_eq_iff,
  inl, inr,
}
use tinkercloud.Prelude.Map.{lookup, has_key}
use tinkercloud.Identity.{normalize}
use tinkercloud.GlobalIdentity.Tables.{
  SessionRow, ChildRow, PlatformRow, UserRow, Db, Error, Result, ok, err, find_row,
}
use tinkercloud.GlobalIdentity.{Presented, valid, replay, unknown, revoke_family}
use tinkercloud.GlobalIdentity.Sessions.{present, new_session, bound_session}
use tinkercloud.GlobalIdentity.Codes.{
  Hashes, Fresh, IssuedIdentity, attempts_allowed, is_overtaken, bind_result, unless_error,
  replaces_identity, end_bound, end_presented,
}
use tinkercloud.GlobalIdentity.Platform.{
  DashboardIdentity, is_awaited, has_role, issue_platform, replace_platform, complete_platform,
  kept_or, verify_platform_otp, request_platform_otp, authenticate_dashboard, accept_dashboard,
}
use tinkercloud.GlobalIdentity.Dead.{
  IsDead, ResultIsDead, undone, done, insert_session-IsDead, revoke_family-ResultIsDead,
}
use tinkercloud.GlobalIdentity.Revoked.{DbIsDead, refresh-IsDead, end_replayed-IsDead}
use tinkercloud.GlobalIdentity.Rotation.{find_row_sound}
use tinkercloud.GlobalIdentity.Logins.{
  bind_result-IsDead, end_bound-ResultIsDead, end_presented-ResultIsDead,
}

pub authenticate_dashboard-IsDead :
    (sha256 : Text → Text) (fam : Text) (db : Db) (raw : Text) (now : ℕ) (new : Text)
    → IsDead fam db.sessions db.children
    → DbIsDead fam (authenticate_dashboard sha256 db raw now new)
unfolding authenticate_dashboard accept_dashboard
authenticate_dashboard-IsDead sha256 fam db raw now new d = presented (present sha256 db raw now)
  where
    P : Db × DashboardIdentity → Type 0
    P r = IsDead fam r.0.sessions r.0.children

    presented : (p : Presented) → P (accept_dashboard sha256 db raw now new p)
    presented unknown = d
    presented (replay s) =
        end_replayed-IsDead fam db (revoke_family db s.family now) d
          (revoke_family-ResultIsDead fam s.family now db d)
    presented (valid s prior) =
        option_cases P (find_row (has_role s.email) db.users) (λ _. d)
          (λ u _. refresh-IsDead sha256 fam db raw now new s prior d)

pub request_platform_otp-IsDead :
    (x : Hashes) (fam : Text) (db : Db) (browser email key : Text) (now ttl : ℕ) (id code : Text)
    → IsDead fam db.sessions db.children
    → DbIsDead fam (request_platform_otp x db browser email key now ttl id code)
unfolding request_platform_otp
request_platform_otp-IsDead x fam db browser raw_email key now ttl id code d =
    if_cases P (length browser == 0) (λ _. d)
      (λ _.
        option_cases P (normalize raw_email) (λ _. d)
          (λ email _.
            if_cases P (length key == 0) (λ _. d)
              (λ _. if_cases P (has_key id db.platform) (λ _. d) (λ _. d))))
  where
    P : Db × Result (Option PlatformRow) → Type 0
    P r = IsDead fam r.0.sessions r.0.children

issue_platform-ResultIsDead :
    (x : Hashes) (fam id email binding : Text) (now : ℕ) (fresh : Fresh) (refs : List ChildRow)
    (db : Db)
    → text_eq fresh.family fam ≡ false
    → IsDead fam db.sessions db.children
    → ResultIsDead fam (issue_platform x id email binding now fresh refs db)
unfolding issue_platform new_session
issue_platform-ResultIsDead x fam id email binding now fresh refs db h d =
    if_cases P (has_key fresh.id db.sessions) (λ _. undone)
      (λ n. done (
        insert_session-IsDead fam fresh.id
          (new_session x.sha256 fresh.id email fresh.family fresh.token binding now) db.sessions
          db.children h n d))
  where
    P : Result (Db × IssuedIdentity) → Type 0
    P = ResultIsDead fam

replace_platform-ResultIsDead :
    (x : Hashes) (fam id email binding old : Text) (now : ℕ) (fresh : Fresh) (force : Bool)
    (bound : Option SessionRow) (db : Db)
    → text_eq fresh.family fam ≡ false
    → IsDead fam db.sessions db.children
    → ResultIsDead fam (replace_platform x id email binding old now fresh force bound db)
unfolding replace_platform
replace_platform-ResultIsDead x fam id email binding old now fresh force bound db h d =
    bind_result-IsDead fam (end_bound db bound now) _ (end_bound-ResultIsDead fam db bound now d)
      (λ db₁ refs₁ d₁.
        bind_result-IsDead fam (end_presented x db₁ force old now) _
          (end_presented-ResultIsDead x fam db₁ force old now d₁)
          (λ db₂ refs₂ d₂.
            issue_platform-ResultIsDead x fam id email binding now fresh (refs₁ ++ refs₂) db₂ h d₂))

pub verify_platform_otp-IsDead :
    (x : Hashes) (fam : Text) (db : Db) (browser email id code old : Text) (force : Bool)
    (key : Text) (now limit : ℕ) (fresh : Fresh)
    → text_eq fresh.family fam ≡ false
    → IsDead fam db.sessions db.children
    → DbIsDead fam (verify_platform_otp x db browser email id code old force key now limit fresh)
unfolding verify_platform_otp complete_platform
verify_platform_otp-IsDead x fam db browser raw_email id code old force key now limit fresh h d =
    if_cases P (length browser == 0) (λ _. d)
      (λ _.
        option_cases P (normalize raw_email) (λ _. d)
          (λ email _.
            if_cases P (length id == 0 || length key == 0) (λ _. d)
              (λ _.
                option_cases P (lookup id db.platform) (λ _. d)
                  (λ c _.
                    if_cases P
                      (not (is_awaited (x.sha256 browser) email c)
                        || not (ltb now c.expires_at)
                        || not (ltb c.attempts (attempts_allowed limit)))
                      (λ _. d)
                      (λ _.
                        if_cases P (not (text_eq c.code_hash (x.code_hash key id code))) (λ _. d)
                          (λ _. kept _ (bound email c (bound_session db (x.sha256 browser)))))))))
  where
    P : Db × Result IssuedIdentity → Type 0
    P r = IsDead fam r.0.sessions r.0.children

    kept : (r : Result (Db × IssuedIdentity)) → ResultIsDead fam r → P (kept_or db r)
    kept (ok r) (done k) = k
    kept (err e) k = d

    replaced :
        (email : Text) (b : Option SessionRow) (e : Option Error)
        → ResultIsDead fam (
            unless_error e
              (replace_platform x id email (x.sha256 browser) old now fresh force b db))
    replaced email b none =
        replace_platform-ResultIsDead x fam id email (x.sha256 browser) old now fresh force b db h d
    replaced email b (some e) = undone

    Q : Result (Db × IssuedIdentity) → Type 0
    Q = ResultIsDead fam

    bound :
        (email : Text) (c : PlatformRow) (b : Result (Option SessionRow))
        → Q (
            bind_result b
              (complete_platform x id email (x.sha256 browser) old now fresh force db c))
    bound email c (err e) = undone
    bound email c (ok b) =
        if_cases Q (is_overtaken b c.created_at now) (λ _. undone)
          (λ _. replaced email b (replaces_identity x db force old now))

-- An active operator or deployer of that address.
pub record IsDashboardUser (email : Text) (u : UserRow) : Type 0 where
  pub address : u.email ≡ email
  pub is_active : u.active ≡ true
  pub has_power : (u.role ≡ codes "operator") ⊎ (u.role ≡ codes "deployer")

has_role-IsDashboardUser :
    (email : Text) (u : UserRow) → has_role email u ≡ true → IsDashboardUser email u
has_role-IsDashboardUser email u h = record {
  address = (text_eq_iff u.email email).0 (ground (arith, h));
  is_active = ground (arith, h);
  has_power = elim (Bool-cases (text_eq u.role (codes "operator"))) [
    | inl e ↦ inl ((text_eq_iff u.role (codes "operator")).0 e)
    | inr e ↦ inr ((text_eq_iff u.role (codes "deployer")).0 (ground (arith, h, e)))
  ];
}

-- A request that is given a user's authority on the dashboard has presented a token that is accepted,
-- of an identity whose address is that of the user; and the user is active and an operator or a
-- deployer.
pub authenticate_dashboard-IsDashboardUser :
    (sha256 : Text → Text) (db : Db) (raw : Text) (now : ℕ) (new : Text) (u : UserRow)
    → (authenticate_dashboard sha256 db raw now new).1.user ≡ some u
    → (s : SessionRow) × (prior : Bool) × (present sha256 db raw now ≡ valid s prior)
      × IsDashboardUser s.email u
unfolding authenticate_dashboard accept_dashboard
authenticate_dashboard-IsDashboardUser sha256 db raw now new u =
    presented (present sha256 db raw now) refl
  where
    presented :
        (p : Presented)
        → present sha256 db raw now ≡ p
        → (accept_dashboard sha256 db raw now new p).1.user ≡ some u
        → (s : SessionRow) × (prior : Bool) × (present sha256 db raw now ≡ valid s prior)
          × IsDashboardUser s.email u
    presented unknown e h = absurd (ground (arith, h))
    presented (replay s) e h = absurd (ground (arith, h))
    presented (valid s prior) e h = (
      s,
      prior,
      e,
      has_role-IsDashboardUser s.email u
          (elim (Option-cases (find_row (has_role s.email) db.users)) [
            | inl n ↦ absurd (ground (arith, h, n))
            | inr r ↦ ground (arith, h, r.1, find_row_sound (has_role s.email) r.0 db.users r.1)
          ]),
    )
