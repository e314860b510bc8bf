-- ===== src/GlobalIdentity/Tables.antt =====
-- internal/persistence/global_identity.go: the tables that global identities stand in, and the SQL
-- statements on them. A table is a list of rows under their primary keys; a time that the code
-- formats and parses again is its number of nanoseconds, so that no row is malformed. The rows of
-- `identities` are read by joins only for the email, which stands in the session's row.
use tinkercloud.Prelude.{
  ℕ, Bool, true, false, not, ◌||◌, Option, none, some, List, [], ◌∷◌, Text, text_eq, codes, all,
  if◌then◌else◌,
}
use tinkercloud.Prelude.Map.{Map, lookup}
use tinkercloud.Identity.{Identity}
use tinkercloud.Access.{Policy, evaluate}

-- `identity_sessions`. `previous` is `previous_secret_hash` with `previous_valid_until`, both null or
-- neither.
pub record SessionRow : Type 0 where
  pub id : Text
  pub email : Text
  pub family : Text
  pub secret : Text
  pub binding : Text
  pub previous : Option (Text × ℕ)
  pub expires_at : ℕ
  pub last_seen_at : ℕ
  pub rotated_at : ℕ
  pub created_at : ℕ
  pub revoked_at : Option ℕ

-- `identity_handoffs`.
pub record HandoffRow : Type 0 where
  pub id : Text
  pub app : Text
  pub state_hash : Text
  pub return_path : Text
  pub force_login : Bool
  pub binding : Option Text
  pub session : Option Text
  pub expires_at : ℕ
  pub created_at : ℕ
  pub authorized_at : Option ℕ
  pub consumed_at : Option ℕ
  pub revoked_at : Option ℕ

-- `sessions` of scope `app`.
pub record ChildRow : Type 0 where
  pub id : Text
  pub app : Text
  pub email : Text
  pub parent : Text
  pub secret : Text
  pub expires_at : ℕ
  pub revoked_at : Option ℕ

-- `otp_challenges`.
pub record ChallengeRow : Type 0 where
  pub id : Text
  pub app : Text
  pub purpose : Text
  pub email : Text
  pub code_hash : Text
  pub expires_at : ℕ
  pub created_at : ℕ
  pub attempts : ℕ
  pub consumed_at : Option ℕ
  pub invalidated_at : Option ℕ

-- The policy of an app at its current revision, with the owner's email and the access rules.
pub record PolicyRow : Type 0 where
  pub mode : Text
  pub owner : Text
  pub revision : ℕ
  pub rules : List (Text × Text)

pub record AppRow : Type 0 where
  pub slug : Text
  pub active : Bool
  pub policy : Option PolicyRow

-- `platform_identity_challenges`.
pub record PlatformRow : Type 0 where
  pub id : Text
  pub binding : Text
  pub email : Text
  pub code_hash : Text
  pub expires_at : ℕ
  pub created_at : ℕ
  pub attempts : ℕ
  pub consumed_at : Option ℕ
  pub invalidated_at : Option ℕ

-- `users`.
pub record UserRow : Type 0 where
  pub id : Text
  pub email : Text
  pub role : Text
  pub active : Bool

pub record Db : Type 0 where
  pub platform : Map PlatformRow
  pub users : Map UserRow
  pub sessions : Map SessionRow
  pub handoffs : Map HandoffRow
  pub children : Map ChildRow
  pub challenges : Map ChallengeRow
  pub apps : Map AppRow

pub data Error : Type 0 where
  identity_denied otp_denied replayed corrupt failed : Error

pub data Result {ℓ} (A : Type ℓ) : Type ℓ where
  ok : A → Result A
  err : Error → Result A

module _ {ℓ} {V : Type ℓ} where
  -- `UPDATE`, by a function that changes the rows its `WHERE` selects.
  unfoldable pub update_rows : (V → V) → Map V → Map V
  update_rows f [] = []
  update_rows f ((k, v) ∷ m) = (k, f v) ∷ update_rows f m

  -- The first row that a `SELECT` returns.
  unfoldable pub find_row : (V → Bool) → Map V → Option V
  find_row p [] = none
  find_row p ((k, v) ∷ m) = if p v then some v else find_row p m

  -- `DELETE`, of the rows that the test selects.
  unfoldable pub delete_rows : (V → Bool) → Map V → Map V
  delete_rows p [] = []
  delete_rows p ((k, v) ∷ m) = let rest = delete_rows p m in if p v then rest else (k, v) ∷ rest

  -- The rows that a `SELECT` returns.
  unfoldable pub select_rows : (V → Bool) → Map V → List V
  select_rows p [] = []
  select_rows p ((k, v) ∷ m) = let rest = select_rows p m in if p v then v ∷ rest else rest

unfoldable pub known_rule : Text × Text → Bool
unfolding text_eq
known_rule r =
    text_eq r.0 (codes "email") || text_eq r.0 (codes "domain") || text_eq r.0 (codes "owner")

-- The values of the rules of one kind, as a set.
unfoldable pub rules_of : Text → List (Text × Text) → Map (Unit {0})
unfolding text_eq
rules_of kind [] = []
rules_of kind ((k, v) ∷ rs) =
    let rest = rules_of kind rs in if text_eq k kind then (v, tt) ∷ rest else rest

-- `policyAllowsTx`.
unfoldable pub policy_allows : Db → Text → Identity → Bool
unfolding lookup text_eq known_rule rules_of evaluate
policy_allows db app viewer = elim (lookup app db.apps) [
  | none ↦ false
  | some a ↦ elim a.policy [
    | none ↦ false
    | some p ↦
        if not a.active || not (text_eq p.mode (codes "private") || text_eq p.mode (codes "public"))
        then false
        else if not (all known_rule p.rules)
        then false
        else let policy : Policy = record {
          app_id = app;
          owner_identity_id = p.owner;
          revision = p.revision;
          mode = [];
          emails = rules_of (codes "email") p.rules;
          domains = rules_of (codes "domain") p.rules;
          valid = true;
        } in
          evaluate policy viewer
  ]
]

-- `identity_session_id IN (SELECT id FROM identity_sessions WHERE family_id=?)`.
unfoldable pub in_family : Text → Map SessionRow → Text → Bool
unfolding lookup text_eq
in_family family sessions id = elim (lookup id sessions) [
  | none ↦ false
  | some s ↦ text_eq s.family family
]

abbrev pub opt_in_family : Text → Map SessionRow → Option Text → Bool
opt_in_family family sessions none = false
opt_in_family family sessions (some id) = in_family family sessions id
