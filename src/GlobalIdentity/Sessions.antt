-- ===== src/GlobalIdentity/Sessions.antt =====
-- internal/persistence/global_identity.go: presenting, rotating and revoking the token of a global
-- identity.
use tinkercloud.Prelude.{
  ℕ, ◌+◌, ◌-◌, ◌==◌, Bool, true, false, not, ◌&&◌, ◌||◌, Option, none, some, List, [], ◌∷◌, Text,
  text_eq, length, ltb, leb, if◌then◌else◌,
}
use tinkercloud.Prelude.Map.{is_some}
use tinkercloud.GlobalIdentity.Tables.{
  SessionRow, ChildRow, Db, identity_denied, corrupt, Result, ok, err, update_rows, find_row,
  select_rows,
}
use tinkercloud.GlobalIdentity.{
  Presented, valid, replay, unknown, is_previous, overlap_end, has_token, revoke_family, mark_seen,
  rotate_row, rotate_after, Validation, denied_with, identity_lifetime,
}

abbrev pub with_session : SessionRow → Option Text → Validation
with_session s replacement = record {
  session = some s;
  replacement = replacement;
  revoked = [];
  family_revoked = false;
  error = none;
}

-- A family that is revoked for a replay.
abbrev pub replay_denied : List ChildRow → Validation
replay_denied refs = record {
  session = none;
  replacement = none;
  revoked = refs;
  family_revoked = true;
  error = some identity_denied;
}

-- The revocation is committed before the denial is told.
abbrev pub end_replayed : Db → Result (Db × List ChildRow) → Db × Validation
end_replayed db (err e) = (db, denied_with e)
end_replayed db (ok r) = (r.0, replay_denied r.1)

module _ (sha256 : Text → Text) where
  -- `identitySessionTx`.
  unfoldable pub present : Db → Text → ℕ → Presented
  unfolding find_row
  present db raw now =
      let h = sha256 raw in
      if length raw == 0 then unknown else elim (find_row (has_token h) db.sessions) [
        | none ↦ unknown
        | some s ↦
            if is_some s.revoked_at || not (ltb now s.expires_at)
            then unknown
            else if is_previous h s && not (ltb now (overlap_end s))
            then replay s
            else valid s (is_previous h s)
      ]

  -- A valid session: its token is replaced once a day, or it is marked as seen.
  unfoldable pub refresh : Db → Text → ℕ → Text → SessionRow → Bool → Db × Validation
  unfolding update_rows find_row
  refresh db raw now replacement s prior =
      let rotated = rotate_row s.id (sha256 raw) (sha256 replacement) now in
      if not prior && leb rotate_after (now - s.rotated_at)
      then (if not (
            is_some (
              find_row
                (λ r.
                  text_eq r.id s.id && text_eq r.secret (sha256 raw) && not (is_some r.revoked_at))
                db.sessions))
          then (db, record (with_session s none) { error = some identity_denied })
          else (
            record db { sessions = update_rows rotated db.sessions },
            with_session (record s { rotated_at = now; last_seen_at = now }) (some replacement),
          ))
      else (
        record db { sessions = update_rows (mark_seen s.id now) db.sessions },
        with_session (record s { last_seen_at = now }) none,
      )

  -- What a presented token comes to.
  unfoldable pub accept : Db → Text → ℕ → Text → Presented → Db × Validation
  unfolding refresh revoke_family
  accept db raw now replacement unknown = (db, denied_with identity_denied)
  accept db raw now replacement (replay s) = end_replayed db (revoke_family db s.family now)
  accept db raw now replacement (valid s prior) = refresh db raw now replacement s prior

  -- `ValidateIdentitySession`.
  unfoldable pub validate : Db → Text → ℕ → Text → Db × Validation
  unfolding present accept
  validate db raw now replacement = accept db raw now replacement (present db raw now)

  -- `revokeIdentitySessionTx`.
  unfoldable pub revoke_token : Db → Text → ℕ → Result (Db × List ChildRow)
  unfolding find_row
  revoke_token db raw now =
      let h = sha256 raw in
      if length raw == 0
      then err identity_denied
      else elim (find_row (λ s. has_token h s && not (is_some s.revoked_at)) db.sessions) [
        | none ↦ err identity_denied
        | some s ↦ revoke_family db s.family now
      ]

  -- `createIdentitySessionTx` for a browser binding of the right size: the row of a new family. The
  -- random token and family are new.
  unfoldable pub new_session : Text → Text → Text → Text → Text → ℕ → SessionRow
  new_session id email family token binding now = record {
    id = id;
    email = email;
    family = family;
    secret = sha256 token;
    binding = binding;
    previous = none;
    expires_at = now + identity_lifetime;
    last_seen_at = now;
    rotated_at = now;
    created_at = now;
    revoked_at = none;
  }

-- `activeBrowserBindingSessionTx`: two families of one browser are a corruption.
unfoldable pub bound_session : Db → Text → Result (Option SessionRow)
unfolding select_rows
bound_session db binding =
    elim (select_rows (λ s. text_eq s.binding binding && not (is_some s.revoked_at)) db.sessions) [
      | [] ↦ ok none
      | s ∷ [] ↦ ok (some s)
      | s ∷ t ∷ rest ↦ err corrupt
    ]
