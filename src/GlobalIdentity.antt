-- ===== src/GlobalIdentity.antt =====
-- internal/persistence/global_identity.go: the identity of a browser across the apps, with the
-- handoffs that carry it to one app. SHA-256 and HMAC are parameters; random values are arguments.
-- A transaction that ends in an error changes nothing.
pub mod Tables
pub mod Sessions
pub mod Handoffs
pub mod Codes
pub mod Platform
pub mod Rows
pub mod Dead
pub mod Runs
pub mod Revoked
pub mod Logins
pub mod Dashboard
pub mod Ended
pub mod Rotation
pub mod Spending
use tinkercloud.Prelude.{
  ℕ, ◌+◌, ◌-◌, ◌*◌, Bool, true, false, not, ◌&&◌, ◌||◌, Option, none, some, List, [], ◌∷◌, ◌++◌,
  Text, text_eq, codes, length, map, ltb, leb, ◌==◌, if◌then◌else◌,
}
use tinkercloud.Prelude.Map.{Map, lookup, insert, has_key, is_some}
use tinkercloud.Identity.{Identity, normalize}
use Tables.{
  SessionRow, HandoffRow, ChildRow, ChallengeRow, Db, Error, identity_denied, otp_denied, replayed,
  corrupt, failed, Result, ok, err, update_rows, find_row, delete_rows, select_rows, policy_allows,
  in_family, opt_in_family,
}

abbrev pub second : ℕ
second = 1000000000

abbrev pub identity_lifetime : ℕ
identity_lifetime = 2592000 * second

abbrev pub rotate_after : ℕ
rotate_after = 86400 * second

abbrev pub previous_overlap : ℕ
previous_overlap = 60 * second

abbrev pub handoff_lifetime : ℕ
handoff_lifetime = 300 * second

-- `identitySessionTx`: a session with whether the previous token was used, or a previous token that
-- is used after its overlap, or an error.
pub data Presented : Type 0 where
  valid : SessionRow → Bool → Presented
  replay : SessionRow → Presented
  unknown : Presented

abbrev pub is_previous : Text → SessionRow → Bool
is_previous h s = elim s.previous [ none ↦ false | some p ↦ text_eq p.0 h ]

abbrev pub overlap_end : SessionRow → ℕ
overlap_end s = elim s.previous [ none ↦ 0 | some p ↦ p.1 ]

abbrev pub has_token : Text → SessionRow → Bool
has_token h s = text_eq s.secret h || is_previous h s

abbrev pub viewer_of : Text → Identity
viewer_of email = record { id = email; email = email }

-- `now.UTC()` in the rows of the family that are not revoked.
abbrev pub revoke_session : Text → ℕ → SessionRow → SessionRow
revoke_session family now s =
    if text_eq s.family family && not (is_some s.revoked_at)
    then record s { revoked_at = some now }
    else s

abbrev pub revoke_child : Text → ℕ → Map SessionRow → ChildRow → ChildRow
revoke_child family now sessions c =
    if not (is_some c.revoked_at) && in_family family sessions c.parent
    then record c { revoked_at = some now }
    else c

abbrev pub revoke_handoff : Text → ℕ → Map SessionRow → HandoffRow → HandoffRow
revoke_handoff family now sessions h =
    if not (is_some h.consumed_at)
      && not (is_some h.revoked_at)
      && opt_in_family family sessions h.session
    then record h { revoked_at = some now }
    else h

unfoldable pub live_children : Text → Db → List ChildRow
unfolding select_rows in_family
live_children family db =
    select_rows (λ c. in_family family db.sessions c.parent && not (is_some c.revoked_at))
      db.children

-- The number of sessions that are revoked is not 0.
unfoldable pub has_live : Text → Db → Bool
unfolding find_row text_eq
has_live family db =
    is_some (find_row (λ s. text_eq s.family family && not (is_some s.revoked_at)) db.sessions)

-- `revokeIdentityFamilyTx`: the sessions of apps that end with the family.
unfoldable pub revoke_family : Db → Text → ℕ → Result (Db × List ChildRow)
unfolding update_rows has_live live_children in_family
revoke_family db family now =
    let db' : Db = record db {
      sessions = update_rows (revoke_session family now) db.sessions;
      children = update_rows (revoke_child family now db.sessions) db.children;
      handoffs = update_rows (revoke_handoff family now db.sessions) db.handoffs;
    } in
    if length family == 0
    then err identity_denied
    else if not (has_live family db)
    then err identity_denied
    else ok (db', live_children family db)

abbrev pub mark_seen : Text → ℕ → SessionRow → SessionRow
mark_seen id now s =
    if text_eq s.id id && not (is_some s.revoked_at) then record s { last_seen_at = now } else s

abbrev pub rotate_row : Text → Text → Text → ℕ → SessionRow → SessionRow
rotate_row id old new now s =
    if text_eq s.id id && text_eq s.secret old && not (is_some s.revoked_at)
    then record s {
      previous = some (old, now + previous_overlap);
      secret = new;
      rotated_at = now;
      last_seen_at = now;
    }
    else s

-- `IdentityValidationResult` with the error.
pub record Validation : Type 0 where
  pub session : Option SessionRow
  pub replacement : Option Text
  pub revoked : List ChildRow
  pub family_revoked : Bool
  pub error : Option Error

abbrev pub denied_with : Error → Validation
denied_with e = record {
  session = none;
  replacement = none;
  revoked = [];
  family_revoked = false;
  error = some e;
}

-- `handoffTx` joins the app, which has to be there.
unfoldable pub handoff : Db → Text → Option HandoffRow
unfolding lookup has_key
handoff db id = elim (lookup id db.handoffs) [
  | none ↦ none
  | some h ↦ if has_key h.app db.apps then some h else none
]

-- Neither consumed nor revoked, and before its expiry.
abbrev pub is_open : ℕ → HandoffRow → Bool
is_open now h = not (is_some h.consumed_at) && not (is_some h.revoked_at) && ltb now h.expires_at

abbrev pub authorize_row : Text → Text → ℕ → HandoffRow → HandoffRow
authorize_row id session now h =
    if text_eq h.id id
      && not (is_some h.session)
      && not (is_some h.consumed_at)
      && not (is_some h.revoked_at)
    then record h { session = some session; authorized_at = some now }
    else h

abbrev pub force_row : Text → HandoffRow → HandoffRow
force_row id h =
    if text_eq h.id id && not (is_some h.consumed_at) && not (is_some h.revoked_at)
    then record h { force_login = true; session = none; authorized_at = none }
    else h

abbrev pub consume_row : Text → ℕ → HandoffRow → HandoffRow
consume_row id now h =
    if text_eq h.id id && not (is_some h.consumed_at) && not (is_some h.revoked_at)
    then record h { consumed_at = some now }
    else h
