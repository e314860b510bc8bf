-- ===== src/GlobalIdentity/Runs.antt =====
-- internal/persistence/global_identity.go: any operations of the store, one after another.
use tinkercloud.Prelude.{ℕ, Bool, Option, List, [], ◌∷◌, Text}
use tinkercloud.GlobalIdentity.Tables.{Db, Result, ok, err}
use tinkercloud.GlobalIdentity.Sessions.{validate, revoke_token}
use tinkercloud.GlobalIdentity.Handoffs.{
  create_handoff, force_handoff, authorize_handoff, consume_handoff,
}
use tinkercloud.GlobalIdentity.Codes.{
  Hashes, Fresh, request_identity_otp, verify_identity_otp, revoke_browser_binding,
}
use tinkercloud.GlobalIdentity.Platform.{
  request_platform_otp, verify_platform_otp, authenticate_dashboard,
}

-- An operation with its arguments, the random values last.
pub data Op : Type 0 where
  validates : (raw : Text) → (now : ℕ) → (replacement : Text) → Op
  revokes : (raw : Text) → (now : ℕ) → Op
  unbinds : (browser : Text) → (now : ℕ) → Op
  creates : (app path : Text) → (force : Bool) → (now : ℕ) → (id state : Text) → Op
  forces : (id : Text) → (now : ℕ) → Op
  authorizes : (id raw : Text) → (now : ℕ) → Op
  consumes : (app id state : Text) → (now expiry : ℕ) → (raw child : Text) → Op
  requests : (id browser email key : Text) → (now ttl : ℕ) → (random_id code : Text) → Op
  verifies :
      (id browser email challenge code old key : Text)
      → (now max_attempts : ℕ) → (fresh : Fresh) → Op
  requests_platform : (browser email key : Text) → (now ttl : ℕ) → (random_id code : Text) → Op
  verifies_platform :
      (browser email id code old : Text)
      → (force : Bool) → (key : Text) → (now max_attempts : ℕ) → (fresh : Fresh) → Op
  enters_dashboard : (raw : Text) → (now : ℕ) → (replacement : Text) → Op

-- A transaction that fails changes nothing.
abbrev pub after : {A : Type 0} → Db → Result (Db × A) → Db
after db (ok r) = r.0
after db (err e) = db

abbrev pub after_write : Db → Result Db → Db
after_write db (ok r) = r
after_write db (err e) = db

unfoldable pub run : Hashes → (Text → Option (Bool × (Text × Text))) → Db → Op → Db
unfolding validate revoke_token revoke_browser_binding create_handoff force_handoff
    authorize_handoff consume_handoff request_identity_otp verify_identity_otp request_platform_otp
    verify_platform_otp authenticate_dashboard
run x url_parse db (validates raw now replacement) = (validate x.sha256 db raw now replacement).0
run x url_parse db (revokes raw now) = after db (revoke_token x.sha256 db raw now)
run x url_parse db (unbinds browser now) = after db (revoke_browser_binding x db browser now)
run x url_parse db (creates app path force now id state) =
    after_write db (create_handoff x.sha256 url_parse db app path force now id state)
run x url_parse db (forces id now) = after_write db (force_handoff x.sha256 db id now)
run x url_parse db (authorizes id raw now) = after db (authorize_handoff x.sha256 db id raw now)
run x url_parse db (consumes app id state now expiry raw child) =
    after db (consume_handoff x.sha256 db app id state now expiry raw child)
run x url_parse db (requests id browser email key now ttl random_id code) =
    (request_identity_otp x db id browser email key now ttl random_id code).0
run x url_parse db (verifies id browser email challenge code old key now max_attempts fresh) =
    (verify_identity_otp x db id browser email challenge code old key now max_attempts fresh).0
run x url_parse db (requests_platform browser email key now ttl random_id code) =
    (request_platform_otp x db browser email key now ttl random_id code).0
run x url_parse db (verifies_platform browser email id code old force key now max_attempts fresh) =
    (verify_platform_otp x db browser email id code old force key now max_attempts fresh).0
run x url_parse db (enters_dashboard raw now replacement) =
    (authenticate_dashboard x.sha256 db raw now replacement).0

unfoldable pub runs : Hashes → (Text → Option (Bool × (Text × Text))) → Db → List Op → Db
unfolding run
runs x url_parse db [] = db
runs x url_parse db (o ∷ os) = runs x url_parse (run x url_parse db o) os
