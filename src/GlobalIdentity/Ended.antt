-- ===== src/GlobalIdentity/Ended.antt =====
-- internal/persistence/global_identity.go: a family that has been revoked gives no access again,
-- whatever happens next.
use tinkercloud.Prelude.{
  ◌≡◌, ℕ, Bool, false, not, ◌&&◌, Option, some, List, [], ◌∷◌, Text, text_eq, arith, if_cases,
  option_cases, All, Option-cases, inl, inr,
}
use tinkercloud.Prelude.Map.{lookup, has_key}
use tinkercloud.GlobalIdentity.Tables.{
  SessionRow, ChildRow, Db, Result, ok, err, in_family, find_row,
}
use tinkercloud.GlobalIdentity.{valid, handoff, is_open, revoke_family}
use tinkercloud.GlobalIdentity.Sessions.{present}
use tinkercloud.GlobalIdentity.Handoffs.{
  create_handoff, force_handoff, validate_child, safe_relative_path, cleanup,
}
use tinkercloud.GlobalIdentity.Codes.{Hashes}
use tinkercloud.GlobalIdentity.Runs.{
  Op, validates, revokes, unbinds, creates, forces, authorizes, consumes, requests, verifies,
  requests_platform, verifies_platform, enters_dashboard, after, after_write, run, runs,
}
use tinkercloud.GlobalIdentity.Rows.{lookup-AllRows}
use tinkercloud.GlobalIdentity.Dead.{
  IsDead, ResultIsDead, done, is_dead_session, ok-IsDead, revoke_family-IsDead,
}
use tinkercloud.GlobalIdentity.Revoked.{
  present-valid, validate-IsDead, revoke_token-ResultIsDead, authorize_handoff-ResultIsDead,
  consume_handoff-ResultIsDead,
}
use tinkercloud.GlobalIdentity.Logins.{
  verify_identity_otp-IsDead, revoke_browser_binding-ResultIsDead, request_identity_otp-IsDead,
}
use tinkercloud.GlobalIdentity.Dashboard.{
  request_platform_otp-IsDead, verify_platform_otp-IsDead, authenticate_dashboard-IsDead,
}

-- The operation starts no family of that name. A name is 32 random bytes.
abbrev pub StartsOther : Text → Op → Type 0
StartsOther fam (verifies id browser email challenge code old key now limit fresh) =
    text_eq fresh.family fam ≡ false
StartsOther fam (verifies_platform browser email id code old force key now limit fresh) =
    text_eq fresh.family fam ≡ false
StartsOther fam (requests_platform browser email key now ttl random_id code) = Unit
StartsOther fam (enters_dashboard raw now replacement) = Unit
StartsOther fam (validates raw now replacement) = Unit
StartsOther fam (revokes raw now) = Unit
StartsOther fam (unbinds browser now) = Unit
StartsOther fam (creates app path force now id state) = Unit
StartsOther fam (forces id now) = Unit
StartsOther fam (authorizes id raw now) = Unit
StartsOther fam (consumes app id state now expiry raw child) = Unit
StartsOther fam (requests id browser email key now ttl random_id code) = Unit

after-IsDead :
    {A : Type 0} (fam : Text) (db : Db) (r : Result (Db × A))
    → IsDead fam db.sessions db.children
    → ResultIsDead fam r
    → IsDead fam (after db r).sessions (after db r).children
after-IsDead fam db (ok r) d (done h) = h
after-IsDead fam db (err e) d h = d

create_handoff-IsDead :
    (sha256 : Text → Text) (url_parse : Text → Option (Bool × (Text × Text))) (fam : Text) (db : Db)
    (app path : Text) (force : Bool) (now : ℕ) (id state : Text)
    → IsDead fam db.sessions db.children
    → (λ (d : Db). IsDead fam d.sessions d.children)
        (after_write db (create_handoff sha256 url_parse db app path force now id state))
unfolding create_handoff
create_handoff-IsDead sha256 url_parse fam db app path force now id state d =
    option_cases P (safe_relative_path url_parse path) (λ _. d)
      (λ clean _.
        option_cases P (lookup app db.apps) (λ _. d)
          (λ a _.
            if_cases P (not a.active) (λ _. d)
              (λ _. if_cases P (has_key id (cleanup now db.handoffs)) (λ _. d) (λ _. d))))
  where
    P : Result Db → Type 0
    P r = IsDead fam (after_write db r).sessions (after_write db r).children

force_handoff-IsDead :
    (sha256 : Text → Text) (fam : Text) (db : Db) (id : Text) (now : ℕ)
    → IsDead fam db.sessions db.children
    → (λ (d : Db). IsDead fam d.sessions d.children)
        (after_write db (force_handoff sha256 db id now))
unfolding force_handoff
force_handoff-IsDead sha256 fam db id now d =
    option_cases P (handoff db id) (λ _. d)
      (λ h _. if_cases P (not (is_open now h)) (λ _. d) (λ _. d))
  where
    P : Result Db → Type 0
    P r = IsDead fam (after_write db r).sessions (after_write db r).children

run-IsDead :
    (x : Hashes) (url_parse : Text → Option (Bool × (Text × Text))) (fam : Text) (db : Db) (o : Op)
    → StartsOther fam o
    → IsDead fam db.sessions db.children
    → IsDead fam (run x url_parse db o).sessions (run x url_parse db o).children
unfolding run
run-IsDead x u fam db (validates raw now replacement) h d =
    validate-IsDead x.sha256 fam db raw now replacement d
run-IsDead x u fam db (revokes raw now) h d =
    after-IsDead fam db _ d (revoke_token-ResultIsDead x.sha256 fam db raw now d)
run-IsDead x u fam db (unbinds browser now) h d =
    after-IsDead fam db _ d (revoke_browser_binding-ResultIsDead x fam db browser now d)
run-IsDead x u fam db (creates app path force now id state) h d =
    create_handoff-IsDead x.sha256 u fam db app path force now id state d
run-IsDead x u fam db (forces id now) h d = force_handoff-IsDead x.sha256 fam db id now d
run-IsDead x u fam db (authorizes id raw now) h d =
    after-IsDead fam db _ d (authorize_handoff-ResultIsDead x.sha256 fam db id raw now d)
run-IsDead x u fam db (consumes app id state now expiry raw child) h d =
    after-IsDead fam db _ d
      (consume_handoff-ResultIsDead x.sha256 fam db app id state now expiry raw child d)
run-IsDead x u fam db (requests id browser email key now ttl random_id code) h d =
    request_identity_otp-IsDead x fam db id browser email key now ttl random_id code d
run-IsDead x u fam db (verifies id browser email challenge code old key now limit fresh) h d =
    verify_identity_otp-IsDead x fam db id browser email challenge code old key now limit fresh h d
run-IsDead x u fam db (requests_platform browser email key now ttl random_id code) h d =
    request_platform_otp-IsDead x fam db browser email key now ttl random_id code d
run-IsDead x u fam db (verifies_platform browser email id code old force key now limit fresh) h d =
    verify_platform_otp-IsDead x fam db browser email id code old force key now limit fresh h d
run-IsDead x u fam db (enters_dashboard raw now replacement) h d =
    authenticate_dashboard-IsDead x.sha256 fam db raw now replacement d

runs-IsDead :
    (x : Hashes) (url_parse : Text → Option (Bool × (Text × Text))) (fam : Text) (db : Db)
    (os : List Op)
    → All (StartsOther fam) os
    → IsDead fam db.sessions db.children
    → IsDead fam (runs x url_parse db os).sessions (runs x url_parse db os).children
unfolding runs
runs-IsDead x u fam db [] h d = d
runs-IsDead x u fam db (o ∷ os) h d =
    runs-IsDead x u fam (run x u db o) os h.1 (run-IsDead x u fam db o h.0 d)

validate_child-IsDead :
    (sha256 : Text → Text) (fam : Text) (db : Db) (app raw : Text) (t : ℕ) (c : ChildRow)
    → IsDead fam db.sessions db.children
    → validate_child sha256 db app raw t ≡ some c
    → in_family fam db.sessions c.parent ≡ false
unfolding validate_child in_family is_dead_session
validate_child-IsDead sha256 fam db app raw t c d h =
    elim (Option-cases
      (find_row (λ c. text_eq c.app app && text_eq c.secret (sha256 raw)) db.children)) [
        | inl e ↦ absurd (ground (arith, h, e))
        | inr r ↦ elim (Option-cases (lookup (r.0).parent db.sessions)) [
          | inl e ↦ absurd (ground (arith, h, r.1, e))
          | inr p ↦ ground (
            arith,
            h,
            r.1,
            p.1,
            lookup-AllRows (is_dead_session fam) (r.0).parent p.0 db.sessions d.sessions p.1,
          )
        ]
      ]

module _ (x : Hashes) (url_parse : Text → Option (Bool × (Text × Text))) (db : Db) (fam : Text)
    (now : ℕ) (db' : Db) (refs : List ChildRow) (os : List Op)
    (h : revoke_family db fam now ≡ ok (db', refs)) (n : All (StartsOther fam) os) where
  final-IsDead : IsDead fam (runs x url_parse db' os).sessions (runs x url_parse db' os).children
  final-IsDead =
      runs-IsDead x url_parse fam db' os n
        (ok-IsDead fam (revoke_family db fam now) db' refs (revoke_family-IsDead fam now db) h)

  -- Once a family of credentials is revoked, and after any further operations none of which starts a
  -- family of that name, a token that is accepted is of another family.
  pub runs-present :
      (raw : Text) (t : ℕ) (s : SessionRow) (prior : Bool)
      → present x.sha256 (runs x url_parse db' os) raw t ≡ valid s prior
      → text_eq s.family fam ≡ false
  runs-present raw t s prior e = present-valid x.sha256 fam _ raw t s prior final-IsDead e

  -- Once a family of credentials is revoked, and after any further operations none of which starts a
  -- family of that name, a session of an app that is accepted has its parent in another family.
  pub runs-validate_child :
      (app raw : Text) (t : ℕ) (c : ChildRow)
      → validate_child x.sha256 (runs x url_parse db' os) app raw t ≡ some c
      → in_family fam (runs x url_parse db' os).sessions c.parent ≡ false
  runs-validate_child app raw t c e =
      validate_child-IsDead x.sha256 fam _ app raw t c final-IsDead e
