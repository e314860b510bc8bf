-- ===== src/GlobalIdentity/Platform.antt =====
-- internal/persistence/global_identity.go: the login on the platform's own host, and the dashboard.
use tinkercloud.Prelude.{
  ℕ, ◌+◌, ◌==◌, Bool, false, not, ◌&&◌, ◌||◌, Option, none, some, List, [], ◌++◌, Text, text_eq,
  codes, length, ltb, if◌then◌else◌,
}
use tinkercloud.Prelude.Map.{lookup, insert, has_key, is_some}
use tinkercloud.Identity.{normalize}
use tinkercloud.GlobalIdentity.Tables.{
  SessionRow, ChildRow, PlatformRow, UserRow, Db, identity_denied, otp_denied, failed, Result, ok,
  err, update_rows, find_row,
}
use tinkercloud.GlobalIdentity.{
  Presented, valid, replay, unknown, revoke_family, Validation, denied_with,
}
use tinkercloud.GlobalIdentity.Sessions.{present, refresh, new_session, bound_session, end_replayed}
use tinkercloud.GlobalIdentity.Codes.{
  Hashes, Fresh, IssuedIdentity, default_ttl, attempts_allowed, is_overtaken, bind_result,
  unless_error, replaces_identity, end_bound, end_presented,
}

-- Of this browser and address, neither consumed nor invalidated.
abbrev pub is_awaited : Text → Text → PlatformRow → Bool
is_awaited binding email c =
    text_eq c.binding binding
    && text_eq c.email email
    && not (is_some c.consumed_at)
    && not (is_some c.invalidated_at)

abbrev pub supersede_platform : Text → Text → ℕ → PlatformRow → PlatformRow
supersede_platform binding email now c =
    if is_awaited binding email c then record c { invalidated_at = some now } else c

abbrev pub new_platform_row : Hashes → Text → Text → Text → Text → ℕ → ℕ → Text → PlatformRow
new_platform_row x id binding email key now ttl code = record {
  id = id;
  binding = binding;
  email = email;
  code_hash = x.code_hash key id code;
  expires_at = now + (if ttl == 0 then default_ttl else ttl);
  created_at = now;
  attempts = 0;
  consumed_at = none;
  invalidated_at = none;
}

-- `RequestPlatformIdentityOTP`, with the random ID and code last. An address that is none is not
-- told.
unfoldable pub request_platform_otp :
    Hashes → Db → Text → Text → Text → ℕ → ℕ → Text → Text → Db × Result (Option PlatformRow)
unfolding update_rows has_key insert normalize text_eq
request_platform_otp x db browser raw_email key now ttl id code =
    let binding = x.sha256 browser in
    if length browser == 0 then (db, err identity_denied) else elim (normalize raw_email) [
      | none ↦ (db, ok none)
      | some email ↦
          let c = new_platform_row x id binding email key now ttl code in
          let table = update_rows (supersede_platform binding email now) db.platform in
          if length key == 0
          then (db, err identity_denied)
          else if has_key id db.platform
          then (db, err failed)
          else (record db { platform = insert id c table }, ok (some c))
    ]

abbrev pub count_platform_attempt : Text → ℕ → PlatformRow → PlatformRow
count_platform_attempt id max_attempts c =
    if text_eq c.id id && ltb c.attempts max_attempts
    then record c { attempts = c.attempts + 1 }
    else c

abbrev pub consume_platform : Text → ℕ → PlatformRow → PlatformRow
consume_platform id now c =
    if text_eq c.id id && not (is_some c.consumed_at) && not (is_some c.invalidated_at)
    then record c { consumed_at = some now }
    else c

-- The new family; the challenge is consumed with it.
unfoldable pub issue_platform :
    Hashes → Text → Text → Text → ℕ → Fresh → List ChildRow → Db → Result (Db × IssuedIdentity)
unfolding update_rows new_session insert has_key
issue_platform x id email binding now fresh revoked db =
    let s = new_session x.sha256 fresh.id email fresh.family fresh.token binding now in
    let db' : Db = record db {
      sessions = insert fresh.id s db.sessions;
      platform = update_rows (consume_platform id now) db.platform;
    } in
    if has_key fresh.id db.sessions
    then err failed
    else ok (db', record { session = s; revoked = revoked })

unfoldable pub replace_platform :
    Hashes
    → Text
    → Text
    → Text
    → Text
    → ℕ
    → Fresh
    → Bool
    → Option SessionRow
    → Db
    → Result (Db × IssuedIdentity)
unfolding end_bound end_presented issue_platform
replace_platform x id email binding old now fresh force bound db =
    bind_result (end_bound db bound now) (λ r₁.
      bind_result (end_presented x r₁.0 force old now)
        (λ r₂. issue_platform x id email binding now fresh (r₁.1 ++ r₂.1) r₂.0))

unfoldable pub complete_platform :
    Hashes
    → Text
    → Text
    → Text
    → Text
    → ℕ
    → Fresh
    → Bool
    → Db
    → PlatformRow
    → Option SessionRow
    → Result (Db × IssuedIdentity)
unfolding replaces_identity replace_platform
complete_platform x id email binding old now fresh force db c bound =
    if is_overtaken bound c.created_at now
    then err otp_denied
    else unless_error (replaces_identity x db force old now)
        (replace_platform x id email binding old now fresh force bound db)

abbrev pub kept_or : {A : Type 0} → Db → Result (Db × A) → Db × Result A
kept_or db (ok r) = (r.0, ok r.1)
kept_or db (err e) = (db, err e)

-- `VerifyPlatformIdentityOTP`.
unfoldable pub verify_platform_otp :
    Hashes
    → Db
    → Text
    → Text
    → Text
    → Text
    → Text
    → Bool
    → Text
    → ℕ
    → ℕ
    → Fresh
    → Db × Result IssuedIdentity
unfolding lookup normalize update_rows bound_session complete_platform text_eq
verify_platform_otp x db browser raw_email id code old force key now max_attempts fresh =
    let binding = x.sha256 browser in
    let limit = attempts_allowed max_attempts in
    if length browser == 0 then (db, err identity_denied) else elim (normalize raw_email) [
      | none ↦ (db, err otp_denied)
      | some email ↦
          if length id == 0 || length key == 0
          then (db, err otp_denied)
          else elim (lookup id db.platform) [
            | none ↦ (db, err otp_denied)
            | some c ↦
                if not (is_awaited binding email c)
                  || not (ltb now c.expires_at)
                  || not (ltb c.attempts limit)
                then (db, err otp_denied)
                else if not (text_eq c.code_hash (x.code_hash key id code))
                then (
                  record db {
                    platform = update_rows (count_platform_attempt id limit) db.platform;
                  },
                  err otp_denied,
                )
                else kept_or db (
                    bind_result (bound_session db binding)
                      (complete_platform x id email binding old now fresh force db c))
          ]
    ]

abbrev pub has_role : Text → UserRow → Bool
has_role email u =
    text_eq u.email email
    && u.active
    && (text_eq u.role (codes "operator") || text_eq u.role (codes "deployer"))

-- `DashboardIdentityResult`: the user whose authority it is, with the identity.
pub record DashboardIdentity : Type 0 where
  pub user : Option UserRow
  pub identity : Validation

-- A denial for want of a role keeps the proof that the identity is valid.
abbrev pub without_role : SessionRow → DashboardIdentity
without_role s = record {
  user = none;
  identity = record {
    session = some s;
    replacement = none;
    revoked = [];
    family_revoked = false;
    error = some identity_denied;
  };
}

abbrev pub with_user : Option UserRow → Db × Validation → Db × DashboardIdentity
with_user u r = (r.0, record { user = u; identity = r.1 })

unfoldable pub accept_dashboard :
    (Text → Text) → Db → Text → ℕ → Text → Presented → Db × DashboardIdentity
unfolding refresh find_row revoke_family text_eq
accept_dashboard sha256 db raw now new unknown = with_user none (db, denied_with identity_denied)
accept_dashboard sha256 db raw now new (replay s) =
    with_user none (end_replayed db (revoke_family db s.family now))
accept_dashboard sha256 db raw now new (valid s prior) =
    elim (find_row (has_role s.email) db.users) [
      | none ↦ (db, without_role s)
      | some u ↦ with_user (some u) (refresh sha256 db raw now new s prior)
    ]

-- `AuthenticateDashboardIdentity`.
unfoldable pub authenticate_dashboard :
    (Text → Text) → Db → Text → ℕ → Text → Db × DashboardIdentity
unfolding present accept_dashboard
authenticate_dashboard sha256 db raw now new =
    accept_dashboard sha256 db raw now new (present sha256 db raw now)
