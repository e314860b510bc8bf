-- ===== src/GlobalIdentity/Handoffs.antt =====
-- internal/persistence/global_identity.go: handoffs, from the app's host to the platform and back.
use tinkercloud.Prelude.{
  ℕ, zero, suc, ◌+◌, ◌/◌, ◌%◌, ◌==◌, Bool, not, ◌&&◌, ◌||◌, Option, none, some, List, [], ◌∷◌, ◌++◌,
  Text, text_eq, codes, length, any, ltb, if◌then◌else◌,
}
use tinkercloud.Prelude.Map.{Map, lookup, insert, has_key, is_some}
use tinkercloud.Prelude.Strings.{has_prefix, contains_any}
use mathlib.Core.List.{reverse}
use tinkercloud.Kv.Store.{text_lt}
use tinkercloud.GlobalIdentity.Tables.{
  SessionRow, HandoffRow, ChildRow, Db, identity_denied, replayed, failed, Result, ok, err,
  update_rows, find_row, delete_rows, select_rows, ChildRow, policy_allows,
}
use tinkercloud.GlobalIdentity.{
  second, Presented, valid, replay, unknown, handoff, is_open, authorize_row, force_row,
  consume_row, viewer_of, handoff_lifetime,
}
use tinkercloud.GlobalIdentity.Sessions.{present}

-- The nine digits of a fraction of a second.
abbrev pub digits : ℕ → ℕ → Text
digits zero n = []
digits (suc k) n = digits k (n / 10) ++ ((b'0' + n % 10) ∷ [])

unfoldable pub drop_zeros : Text → Text
drop_zeros [] = []
drop_zeros (c ∷ s) = let rest = drop_zeros s in if c == b'0' then rest else c ∷ s

-- `.999999999Z07:00` of RFC3339Nano in UTC: a fraction of 0 is left out, and so are the zeros at
-- the end of another.
unfoldable pub fraction_text : ℕ → Text
unfolding drop_zeros
fraction_text f =
    if f == 0 then codes "Z" else b'.' ∷ (reverse (drop_zeros (reverse (digits 9 f))) ++ codes "Z")

-- `<=` of two times as the texts that are stored. Up to the second a later time is a later text.
unfoldable pub stored_le : ℕ → ℕ → Bool
unfolding fraction_text text_lt
stored_le a b =
    if a / second == b / second
    then not (text_lt (fraction_text (b % second)) (fraction_text (a % second)))
    else ltb (a / second) (b / second)

-- `ORDER BY created_at ASC, id ASC`.
unfoldable pub handoff_before : HandoffRow → HandoffRow → Bool
unfolding text_lt
handoff_before h k =
    if h.created_at == k.created_at
    then not (text_lt k.id h.id)
    else stored_le h.created_at k.created_at

unfoldable pub insert_ordered : HandoffRow → List HandoffRow → List HandoffRow
insert_ordered h [] = h ∷ []
insert_ordered h (k ∷ ks) =
    let rest = insert_ordered h ks in if handoff_before h k then h ∷ k ∷ ks else k ∷ rest

unfoldable pub in_order : List HandoffRow → List HandoffRow
in_order [] = []
in_order (h ∷ hs) = insert_ordered h (in_order hs)

abbrev pub first_rows : ℕ → List HandoffRow → List HandoffRow
first_rows zero hs = []
first_rows (suc n) [] = []
first_rows (suc n) (h ∷ hs) = h ∷ first_rows n hs

-- What the cleanup may delete.
unfoldable pub is_stale : ℕ → HandoffRow → Bool
unfolding stored_le
is_stale now h = stored_le h.expires_at now || is_some h.consumed_at || is_some h.revoked_at

abbrev pub cleanup_limit : ℕ
cleanup_limit = 128

-- `cleanupIdentityHandoffsTx`.
unfoldable pub cleanup : ℕ → Map HandoffRow → Map HandoffRow
unfolding select_rows delete_rows in_order is_stale
cleanup now m =
    let doomed = first_rows cleanup_limit (in_order (select_rows (is_stale now) m)) in
    delete_rows (λ h. any (λ k. text_eq k.id h.id) doomed) m

-- `safeRelativePath`, where `url_parse` gives what `url.Parse` finds: whether the address is
-- absolute, its host and its path.
unfoldable pub safe_relative_path : (Text → Option (Bool × (Text × Text))) → Text → Option Text
unfolding has_prefix contains_any
safe_relative_path url_parse raw =
    if length raw == 0 then some (codes "/") else elim (url_parse raw) [
      | none ↦ none
      | some u ↦
          if u.0
            || not (length u.1.0 == 0)
            || not (has_prefix u.1.1 (codes "/"))
            || has_prefix u.1.1 (codes "//")
            || contains_any raw (92 ∷ 13 ∷ 10 ∷ [])
          then none
          else some raw
    ]

-- `AuthorizeIdentityHandoff`, with what the token comes to. The update changes a row when the handoff
-- has no session yet.
unfoldable pub authorize_with : Db → Text → ℕ → Presented → Result (Db × SessionRow)
unfolding handoff update_rows policy_allows
authorize_with db id now unknown = err identity_denied
authorize_with db id now (replay s) = err replayed
authorize_with db id now (valid s prior) = elim (handoff db id) [
  | none ↦ err identity_denied
  | some h ↦
      if h.force_login || not (is_open now h) || not (policy_allows db h.app (viewer_of s.email))
      then err identity_denied
      else if is_some h.session
      then err identity_denied
      else ok (record db { handoffs = update_rows (authorize_row id s.id now) db.handoffs }, s)
]

module _ (sha256 : Text → Text) where
  -- `CreateIdentityHandoff`; the ID and the state are the random values.
  unfoldable pub create_handoff :
      (Text → Option (Bool × (Text × Text))) → Db → Text → Text → Bool → ℕ → Text → Text → Result Db
  unfolding lookup has_key cleanup safe_relative_path
  create_handoff url_parse db app return_path force now id state =
      elim (safe_relative_path url_parse return_path) [
        | none ↦ err identity_denied
        | some path ↦ elim (lookup app db.apps) [
          | none ↦ err identity_denied
          | some a ↦
              let kept = cleanup now db.handoffs in
              let row : HandoffRow = record {
                id = id;
                app = app;
                state_hash = sha256 state;
                return_path = path;
                force_login = force;
                binding = none;
                session = none;
                expires_at = now + handoff_lifetime;
                created_at = now;
                authorized_at = none;
                consumed_at = none;
                revoked_at = none;
              } in
              if not a.active
              then err identity_denied
              else if has_key id kept
              then err failed
              else ok (record db { handoffs = insert id row kept })
        ]
      ]

  -- `GetIdentityHandoff`.
  unfoldable pub get_handoff : Db → Text → ℕ → Result HandoffRow
  unfolding handoff
  get_handoff db id now = elim (handoff db id) [
    | none ↦ err identity_denied
    | some h ↦ if is_open now h then ok h else err identity_denied
  ]

  -- `ForceIdentityHandoff`. The handoff is open, so that its row is the one that is updated.
  unfoldable pub force_handoff : Db → Text → ℕ → Result Db
  unfolding handoff update_rows
  force_handoff db id now = elim (handoff db id) [
    | none ↦ err identity_denied
    | some h ↦
        if not (is_open now h)
        then err identity_denied
        else ok (record db { handoffs = update_rows (force_row id) db.handoffs })
  ]

  -- `AuthorizeIdentityHandoff`.
  unfoldable pub authorize_handoff : Db → Text → Text → ℕ → Result (Db × SessionRow)
  unfolding present authorize_with
  authorize_handoff db id raw now = authorize_with db id now (present sha256 db raw now)

  -- The handoff and its session may be exchanged for a session of the app.
  unfoldable pub may_consume : Db → Text → Text → ℕ → HandoffRow → SessionRow → Bool
  unfolding policy_allows text_eq
  may_consume db app state now h s =
      text_eq h.app app
      && text_eq h.state_hash (sha256 state)
      && not (is_some s.revoked_at)
      && is_some h.authorized_at
      && is_open now h
      && ltb now s.expires_at
      && policy_allows db app (viewer_of s.email)

  abbrev pub new_child : Text → Text → Text → SessionRow → Text → ℕ → ChildRow
  new_child app child sid s raw expires_at = record {
    id = child;
    app = app;
    email = s.email;
    parent = sid;
    secret = sha256 raw;
    expires_at = expires_at;
    revoked_at = none;
  }

  -- `ConsumeIdentityHandoff` with `issueChildAppSessionTx`; `raw` is the random token and `child` the
  -- ID that is its beginning.
  unfoldable pub consume_handoff :
      Db → Text → Text → Text → ℕ → ℕ → Text → Text → Result (Db × ChildRow)
  unfolding handoff lookup update_rows may_consume has_key insert
  consume_handoff db app id state now app_expiry raw child =
      if length state == 0 || not (ltb now app_expiry)
      then err identity_denied
      else elim (handoff db id) [
        | none ↦ err identity_denied
        | some h ↦ elim h.session [
          | none ↦ err identity_denied
          | some sid ↦ elim (lookup sid db.sessions) [
            | none ↦ err identity_denied
            | some s ↦
                let c = new_child app child sid s raw app_expiry in
                let db' : Db = record db {
                  handoffs = update_rows (consume_row id now) db.handoffs;
                  children = insert child c db.children;
                } in
                if not (may_consume db app state now h s)
                then err identity_denied
                else if length sid == 0 || has_key child db.children
                then err failed
                else ok (db', c)
          ]
        ]
      ]

  -- `Validate` of app_sessions.go: the session of an app lives while its own row and its parent's do.
  unfoldable pub validate_child : Db → Text → Text → ℕ → Option ChildRow
  unfolding find_row lookup text_eq
  validate_child db app raw now =
      elim (find_row (λ c. text_eq c.app app && text_eq c.secret (sha256 raw)) db.children) [
        | none ↦ none
        | some c ↦ elim (lookup c.parent db.sessions) [
          | none ↦ none
          | some p ↦ elim (lookup app db.apps) [
            | none ↦ none
            | some a ↦
                if a.active
                  && not (is_some c.revoked_at)
                  && not (is_some p.revoked_at)
                  && ltb now c.expires_at
                  && ltb now p.expires_at
                then some c
                else none
          ]
        ]
      ]
