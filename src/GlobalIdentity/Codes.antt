-- ===== src/GlobalIdentity/Codes.antt =====
-- internal/persistence/otp.go and global_identity.go: the codes that are sent to an address, and the
-- new identity that the right code gives.
use tinkercloud.Prelude.{
  ℕ, ◌+◌, ◌*◌, ◌==◌, Bool, false, not, ◌&&◌, ◌||◌, Option, none, some, List, [], ◌++◌, Text,
  text_eq, codes, length, ltb, leb, if◌then◌else◌,
}
use tinkercloud.Prelude.Map.{lookup, insert, has_key, is_some}
use tinkercloud.Identity.{normalize}
use tinkercloud.GlobalIdentity.Tables.{
  SessionRow, HandoffRow, ChildRow, ChallengeRow, Db, Error, identity_denied, otp_denied, replayed,
  corrupt, failed, Result, ok, err, update_rows, find_row, policy_allows,
}
use tinkercloud.GlobalIdentity.{
  second, valid, replay, unknown, handoff, is_open, authorize_row, viewer_of, revoke_family,
}
use tinkercloud.GlobalIdentity.Sessions.{present, revoke_token, new_session, bound_session}

-- The HMAC of an ID and a code under the key, and SHA-256.
pub record Hashes : Type 0 where
  pub sha256 : Text → Text
  pub code_hash : Text → Text → Text → Text

abbrev pub default_ttl : ℕ
default_ttl = 600 * second

abbrev pub is_active : Text → Text → Text → ChallengeRow → Bool
is_active app purpose email c =
    text_eq c.app app
    && text_eq c.purpose purpose
    && text_eq c.email email
    && not (is_some c.consumed_at)
    && not (is_some c.invalidated_at)

abbrev pub supersede : Text → Text → Text → ℕ → ChallengeRow → ChallengeRow
supersede app purpose email now c =
    if is_active app purpose email c then record c { invalidated_at = some now } else c

abbrev pub new_challenge : Hashes → Text → Text → Text → Text → Text → ℕ → ℕ → Text → ChallengeRow
new_challenge x id app purpose email key now ttl code = record {
  id = id;
  app = app;
  purpose = purpose;
  email = email;
  code_hash = x.code_hash key id code;
  expires_at = now + (if ttl == 0 then default_ttl else ttl);
  created_at = now;
  attempts = 0;
  consumed_at = none;
  invalidated_at = none;
}

-- `CreateChallenge` for an address in normal form, with the random ID and code; a `ttl` of 0 stands
-- for one that is not positive. The address gets a code when it is eligible.
unfoldable pub create_challenge :
    Hashes
    → Db
    → Text
    → Text
    → Text
    → Text
    → Bool
    → ℕ
    → ℕ
    → Text
    → Text
    → Db × Result (Option ChallengeRow)
unfolding update_rows has_key insert text_eq
create_challenge x db app purpose email key eligible now ttl id code =
    let c = new_challenge x id app purpose email key now ttl code in
    let table = update_rows (supersede app purpose email now) db.challenges in
    if has_key id db.challenges
    then (db, err failed)
    else (record db { challenges = insert id c table }, ok (if eligible then some c else none))

-- The row of the challenge that is answered, when it may still be.
unfoldable pub open_challenge : Db → Text → Text → Text → Text → ℕ → ℕ → Option ChallengeRow
unfolding lookup text_eq
open_challenge db app purpose email id now max_attempts = elim (lookup id db.challenges) [
  | none ↦ none
  | some c ↦
      if is_active app purpose email c && ltb now c.expires_at && ltb c.attempts max_attempts
      then some c
      else none
]

abbrev pub count_attempt : Text → ℕ → ChallengeRow → ChallengeRow
count_attempt id max_attempts c =
    if text_eq c.id id && ltb c.attempts max_attempts
    then record c { attempts = c.attempts + 1 }
    else c

abbrev pub consume_challenge : Text → ℕ → ChallengeRow → ChallengeRow
consume_challenge id now c =
    if text_eq c.id id && not (is_some c.consumed_at)
    then record c { consumed_at = some now }
    else c

abbrev pub attempts_allowed : ℕ → ℕ
attempts_allowed n = if n == 0 then 5 else n

unfoldable pub spend_challenge : {A : Type 0} → Text → ℕ → Db → Result (Db × A) → Db × Result A
unfolding update_rows
spend_challenge id now db (err e) = (db, err e)
spend_challenge id now db (ok r) =
    (record r.0 { challenges = update_rows (consume_challenge id now) r.0.challenges }, ok r.1)

-- `VerifyAndIssue`. A wrong code counts as an attempt; `issue` that fails undoes everything.
unfoldable pub verify_and_issue :
    {A : Type 0}
    → Hashes
    → Db
    → Text
    → Text
    → Text
    → Text
    → Text
    → Text
    → ℕ
    → ℕ
    → (Db → Result (Db × A))
    → Db × Result A
unfolding open_challenge update_rows spend_challenge text_eq
verify_and_issue x db app purpose email id code key now max_attempts issue =
    let limit = attempts_allowed max_attempts in
    elim (open_challenge db app purpose email id now limit) [
      | none ↦ (db, err otp_denied)
      | some c ↦
          if not (text_eq c.code_hash (x.code_hash key id code))
          then (
            record db { challenges = update_rows (count_attempt id limit) db.challenges },
            err otp_denied,
          )
          else spend_challenge id now db (issue db)
    ]

abbrev pub bind_row : Text → Text → HandoffRow → HandoffRow
bind_row id binding h =
    if text_eq h.id id
      && not (is_some h.binding)
      && not (is_some h.consumed_at)
      && not (is_some h.revoked_at)
      && not (is_some h.authorized_at)
    then record h { binding = some binding }
    else h

abbrev pub is_bound_to : Text → HandoffRow → Bool
is_bound_to binding h = elim h.binding [ none ↦ false | some b ↦ text_eq b binding ]

-- `RequestIdentityOTP`. The browser is bound to the handoff before there is a challenge; an answer
-- that is `ok none` tells nothing of the reason.
unfoldable pub request_identity_otp :
    Hashes
    → Db
    → Text
    → Text
    → Text
    → Text
    → ℕ
    → ℕ
    → Text
    → Text
    → Db × Result (Option ChallengeRow)
unfolding handoff update_rows policy_allows create_challenge normalize text_eq
request_identity_otp x db id browser raw_email key now ttl random_id random_code =
    let binding = x.sha256 browser in
    if length browser == 0 then (db, err identity_denied) else elim (normalize raw_email) [
      | none ↦ (db, ok none)
      | some email ↦ elim (handoff db id) [
        | none ↦ (db, ok none)
        | some h ↦
            if not (is_open now h) || is_some h.authorized_at
            then (db, ok none)
            else if is_some h.binding && not (is_bound_to binding h)
            then (db, err identity_denied)
            else let db' : Db = record db {
              handoffs = update_rows (bind_row id binding) db.handoffs;
            } in
              create_challenge x db' h.app (codes "viewer") email key
                (policy_allows db h.app (viewer_of email)) now ttl random_id random_code
      ]
    ]

-- A form without force may not replace an identity that the browser presents. `Option Error` is the
-- error to end with.
unfoldable pub replaces_identity : Hashes → Db → Bool → Text → ℕ → Option Error
unfolding present
replaces_identity x db force old now =
    if force || length old == 0 then none else elim (present x.sha256 db old now) [
      | valid s prior ↦ some otp_denied
      | replay s ↦ some otp_denied
      | unknown ↦ none
    ]

-- The family of the browser's binding ends.
unfoldable pub end_bound : Db → Option SessionRow → ℕ → Result (Db × List ChildRow)
unfolding revoke_family
end_bound db none now = ok (db, [])
end_bound db (some b) now = revoke_family db b.family now

-- That a family is gone already is no error.
abbrev pub or_gone : Db → Result (Db × List ChildRow) → Result (Db × List ChildRow)
or_gone db (ok r) = ok r
or_gone db (err identity_denied) = ok (db, [])
or_gone db (err otp_denied) = err otp_denied
or_gone db (err replayed) = err replayed
or_gone db (err corrupt) = err corrupt
or_gone db (err failed) = err failed

-- With force, so does the family of the presented token.
unfoldable pub end_presented : Hashes → Db → Bool → Text → ℕ → Result (Db × List ChildRow)
unfolding revoke_token
end_presented x db force old now =
    if force && not (length old == 0)
    then or_gone db (revoke_token x.sha256 db old now)
    else ok (db, [])

-- The random values of `createIdentitySessionTx`; the session's ID is the beginning of its token.
pub record Fresh : Type 0 where
  pub id : Text
  pub token : Text
  pub family : Text

pub record IssuedIdentity : Type 0 where
  pub session : SessionRow
  pub revoked : List ChildRow

abbrev pub is_pending : Text → HandoffRow → Bool
is_pending id h =
    text_eq h.id id
    && not (is_some h.session)
    && not (is_some h.consumed_at)
    && not (is_some h.revoked_at)

-- The new family, and the handoff that it may now complete. The update has to find the handoff
-- without a session.
unfoldable pub issue_identity :
    Hashes → Text → Text → Text → ℕ → Fresh → List ChildRow → Db → Result (Db × IssuedIdentity)
unfolding update_rows find_row new_session insert has_key text_eq
issue_identity x id email binding now fresh revoked db =
    let s = new_session x.sha256 fresh.id email fresh.family fresh.token binding now in
    let db' : Db = record db {
      sessions = insert fresh.id s db.sessions;
      handoffs = update_rows (authorize_row id fresh.id now) db.handoffs;
    } in
    if has_key fresh.id db.sessions
    then err failed
    else if not (is_some (find_row (is_pending id) db.handoffs))
    then err otp_denied
    else ok (db', record { session = s; revoked = revoked })

-- A login that was completed since the challenge was sent wins.
abbrev pub is_overtaken : Option SessionRow → ℕ → ℕ → Bool
is_overtaken none created now = false
is_overtaken (some b) created now = ltb now b.expires_at && leb created b.created_at

abbrev pub bind_result : {A B : Type 0} → Result A → (A → Result B) → Result B
bind_result (ok a) f = f a
bind_result (err e) f = err e

abbrev pub unless_error : {A : Type 0} → Option Error → Result A → Result A
unless_error none r = r
unless_error (some e) r = err e

-- Ending the old families and starting the new one.
unfoldable pub replace_identity :
    Hashes
    → Text
    → Text
    → Text
    → Text
    → ℕ
    → Fresh
    → Bool
    → Option SessionRow
    → Db
    → Result (Db × IssuedIdentity)
unfolding end_bound end_presented issue_identity
replace_identity x id email binding old now fresh force bound db =
    bind_result (end_bound db bound now) (λ r₁.
      bind_result (end_presented x r₁.0 force old now)
        (λ r₂. issue_identity x id email binding now fresh (r₁.1 ++ r₂.1) r₂.0))

-- Once the handoff, the challenge and the session of the browser are there.
unfoldable pub complete_bound :
    Hashes
    → Text
    → Text
    → Text
    → Text
    → ℕ
    → Fresh
    → Db
    → HandoffRow
    → ChallengeRow
    → Option SessionRow
    → Result (Db × IssuedIdentity)
unfolding replaces_identity replace_identity
complete_bound x id email binding old now fresh db h c bound =
    if is_overtaken bound c.created_at now
    then err otp_denied
    else unless_error (replaces_identity x db h.force_login old now)
        (replace_identity x id email binding old now fresh h.force_login bound db)

-- The transaction of `VerifyIdentityOTP`, on the challenge that was answered.
unfoldable pub complete_login :
    Hashes → Text → Text → Text → Text → Text → ℕ → Fresh → Db → Result (Db × IssuedIdentity)
unfolding handoff policy_allows lookup bound_session complete_bound text_eq
complete_login x id email binding challenge old now fresh db = elim (handoff db id) [
  | none ↦ err otp_denied
  | some h ↦
      if not (is_open now h) || not (policy_allows db h.app (viewer_of email))
      then err otp_denied
      else if not (is_bound_to binding h)
      then err identity_denied
      else elim (lookup challenge db.challenges) [
        | none ↦ err otp_denied
        | some c ↦
            bind_result (bound_session db binding)
              (complete_bound x id email binding old now fresh db h c)
      ]
]

-- `VerifyIdentityOTP`.
unfoldable pub verify_identity_otp :
    Hashes
    → Db
    → Text
    → Text
    → Text
    → Text
    → Text
    → Text
    → Text
    → ℕ
    → ℕ
    → Fresh
    → Db × Result IssuedIdentity
unfolding lookup normalize verify_and_issue complete_login
verify_identity_otp x db id browser raw_email challenge code old key now max_attempts fresh =
    if length browser == 0 then (db, err identity_denied) else elim (normalize raw_email) [
      | none ↦ (db, err otp_denied)
      | some email ↦ elim (lookup id db.handoffs) [
        | none ↦ (db, err otp_denied)
        | some h ↦
            verify_and_issue x db h.app (codes "viewer") email challenge code key now max_attempts
              (complete_login x id email (x.sha256 browser) challenge old now fresh)
      ]
    ]

unfoldable pub end_found : Db → ℕ → Option SessionRow → Result (Db × List ChildRow)
unfolding revoke_family
end_found db now none = err identity_denied
end_found db now (some b) = revoke_family db b.family now

-- `RevokeIdentityBrowserBinding`.
unfoldable pub revoke_browser_binding : Hashes → Db → Text → ℕ → Result (Db × List ChildRow)
unfolding bound_session end_found
revoke_browser_binding x db browser now =
    if length browser == 0
    then err identity_denied
    else bind_result (bound_session db (x.sha256 browser)) (end_found db now)
