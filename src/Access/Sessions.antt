-- ===== src/Access/Sessions.antt =====
-- internal/sessions/sessions.go: a session is good from its creation until it expires or is revoked.
use tinkercloud.Prelude.{
  ℕ, ◌<◌, ◌≡◌, inl, inr, true, false, ◌&&◌, none, some, arith, Text, text_eq, text_eq_iff, length,
  if◌then◌else◌, Option-cases, ltb,
}
use tinkercloud.Prelude.Map.{lookup, lookup-insert, lookup-insert_self}
use tinkercloud.Prelude.Strings.{take}
use tinkercloud.Identity.{Identity}
use tinkercloud.Access.{SessionStore, live_session, create_session, validate, revoke}

module _ (sha256 : Text → Text) where
  -- The token of a new session is accepted for its app, and for no other, before it expires, and
  -- for none afterwards.
  pub create_session-validate :
      (s : SessionStore) (token app_id other : Text) (viewer : Identity) (expiry now : ℕ)
      → 0 < length token
      → let (s', v) = create_session sha256 s token app_id viewer expiry in
        validate sha256 s' other token now
        ≡ (if text_eq app_id other && ltb now expiry then some v else none)
  unfolding create_session validate live_session
  create_session-validate s token app_id other viewer expiry now n = ground (
    arith,
    lookup-insert_self (sha256 token)
        (record {
          id = take 12 token;
          app_id = app_id;
          identity = viewer;
          expires_at = expiry;
          revoked = false;
        })
        s,
  )

  -- After a token is revoked, it is accepted by no app at any time; every token with another hash
  -- is accepted as before.
  validate-revoke :
      (s : SessionStore) (token other app_id : Text) (now : ℕ)
      → validate sha256 (revoke sha256 s token) app_id other now ≡ (
          if text_eq (sha256 token) (sha256 other)
          then none
          else validate sha256 s app_id other now)
  unfolding revoke validate live_session
  validate-revoke s token other app_id now = elim (Option-cases (lookup (sha256 token) s)) [
    | inl e ↦ ground (arith, e, text_eq_iff (sha256 token) (sha256 other))
    | inr (v, e) ↦ ground (
      arith,
      e,
      text_eq_iff (sha256 token) (sha256 other),
      lookup-insert (sha256 token) (sha256 other) (record v { revoked = true }) s,
    )
  ]
