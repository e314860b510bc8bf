-- ===== src/GlobalIdentity/Rotation.antt =====
-- internal/persistence/global_identity.go: a token that is replaced, and its replay.
use tinkercloud.Prelude.{
  ◌≡◌, ◌≤◌, ◌+◌, ℕ, ◌-◌, Bool, true, false, not, ◌&&◌, ◌||◌, ◌==◌, some, [], ◌∷◌, Text, text_eq,
  text_eq_refl, text_eq_iff, arith, sym, length, Option-cases, inl, inr, ltb, if◌then◌else◌,
}
use tinkercloud.Prelude.Map.{Map, is_some}
use tinkercloud.GlobalIdentity.Tables.{SessionRow, Db, update_rows, find_row}
use tinkercloud.GlobalIdentity.{
  valid, replay, unknown, has_token, is_previous, rotate_row, rotate_after, previous_overlap,
}
use tinkercloud.GlobalIdentity.Sessions.{present, refresh, validate, accept}
use tinkercloud.GlobalIdentity.Rows.{AllRows, AllRows-weaken, find_row-AllRows}

-- A row that is found, after an update by which no earlier row comes to be found.
find_row-update_rows :
    (p q : SessionRow → Bool) (f : SessionRow → SessionRow) (s : SessionRow) (m : Map SessionRow)
    → AllRows (λ v. p v || not (q (f v))) m
    → q (f s) ≡ true
    → find_row p m ≡ some s
    → find_row q (update_rows f m) ≡ some (f s)
unfolding find_row update_rows
find_row-update_rows p q f s [] a t h = absurd (ground (arith, h))
find_row-update_rows p q f s ((k, v) ∷ m) a t h =
    ground (arith, h, t, a.0, find_row-update_rows p q f s m a.1 t)

present-found :
    (sha256 : Text → Text) (db : Db) (raw : Text) (now : ℕ) (s : SessionRow) (prior : Bool)
    → present sha256 db raw now ≡ valid s prior
    → (find_row (has_token (sha256 raw)) db.sessions ≡ some s)
      × ((is_some s.revoked_at || not (ltb now s.expires_at)) ≡ false)
      × (is_previous (sha256 raw) s ≡ prior)
unfolding present
present-found sha256 db raw now s prior h =
    elim (Option-cases (find_row (has_token (sha256 raw)) db.sessions)) [
      | inl e ↦ absurd (ground (arith, h, e))
      | inr r ↦ ground (arith, h, r.1)
    ]

raw_nonempty :
    (sha256 : Text → Text) (db : Db) (raw : Text) (now : ℕ) (s : SessionRow)
    → present sha256 db raw now ≡ valid s false
    → (length raw == 0) ≡ false
unfolding present
raw_nonempty sha256 db raw now s h = ground (arith, h)

pub find_row-is_some :
    (p q : SessionRow → Bool) (s : SessionRow) (m : Map SessionRow)
    → find_row p m ≡ some s
    → q s ≡ true
    → is_some (find_row q m) ≡ true
unfolding find_row
find_row-is_some p q s [] h t = absurd (ground (arith, h))
find_row-is_some p q s ((k, v) ∷ m) h t = ground (arith, h, t, find_row-is_some p q s m)

pub find_row_sound :
    {V : Type 0} (p : V → Bool) (s : V) (m : Map V) → find_row p m ≡ some s → p s ≡ true
unfolding find_row
find_row_sound p s [] h = absurd (ground (arith, h))
find_row_sound p s ((k, v) ∷ m) h = ground (arith, h, find_row_sound p s m)

module _ (sha256 : Text → Text) (db : Db) (raw new : Text) (now : ℕ) (s : SessionRow)
    (h : present sha256 db raw now ≡ valid s false) (due : rotate_after ≤ now - s.rotated_at)
    (fresh : AllRows (λ v. not (has_token (sha256 new) v)) db.sessions) where
  abbrev pub rotated : SessionRow
  rotated = record s {
    previous = some (sha256 raw, now + previous_overlap);
    secret = sha256 new;
    rotated_at = now;
    last_seen_at = now;
  }

  holds_token : (text_eq s.secret (sha256 raw) ≡ true) × (is_some s.revoked_at ≡ false)
  holds_token =
      let f = present-found sha256 db raw now s false h in
      ground (arith, f.1, f.2, find_row_sound (has_token (sha256 raw)) s db.sessions f.0)

  rotate_row_found : rotate_row s.id (sha256 raw) (sha256 new) now s ≡ rotated
  rotate_row_found = ground (arith, holds_token.0, holds_token.1, text_eq_refl s.id)

  validate_rotates :
      ((validate sha256 db raw now new).0.sessions
        ≡ update_rows (rotate_row s.id (sha256 raw) (sha256 new) now) db.sessions)
      × ((validate sha256 db raw now new).1.replacement ≡ some new)
  unfolding validate accept refresh
  validate_rotates =
      let f = present-found sha256 db raw now s false h in
      let e =
        find_row-is_some (has_token (sha256 raw))
          (λ r. text_eq r.id s.id && text_eq r.secret (sha256 raw) && not (is_some r.revoked_at)) s
          db.sessions f.0 (ground (arith, holds_token.0, holds_token.1, text_eq_refl s.id)) in
      ground (arith, h, due, e)

  find_rotated :
      (find_row (has_token (sha256 new)) (validate sha256 db raw now new).0.sessions ≡ some rotated)
      × (find_row (has_token (sha256 raw)) (validate sha256 db raw now new).0.sessions
          ≡ some rotated)
  find_rotated =
      let rot = rotate_row s.id (sha256 raw) (sha256 new) now in
      let f = (present-found sha256 db raw now s false h).0 in
      (
        rw (validate_rotates.0, sym rotate_row_found)
            (find_row-update_rows (has_token (sha256 raw)) (has_token (sha256 new)) rot s
              db.sessions (AllRows-weaken _ _ db.sessions (λ v e. ground (arith, e)) fresh)
              (rw rotate_row_found (ground (arith, text_eq_refl (sha256 new)))) f),
        rw (validate_rotates.0, sym rotate_row_found)
            (find_row-update_rows (has_token (sha256 raw)) (has_token (sha256 raw)) rot s
              db.sessions (AllRows-weaken _ _ db.sessions (λ v e. ground (arith, e)) fresh)
              (rw rotate_row_found (ground (arith, text_eq_refl (sha256 raw)))) f),
      )

  -- A token that is a day old is replaced when it is presented. From then on the new token is
  -- accepted until the session expires, and the old one for a minute; after that minute it counts
  -- as a replay. The new token is one that no row has.
  pub validate-present :
      (length new == 0) ≡ false
      → (t : ℕ)
      → ((validate sha256 db raw now new).1.replacement ≡ some new)
        × (present sha256 (validate sha256 db raw now new).0 new t
            ≡ (if ltb t s.expires_at then valid rotated false else unknown))
        × (present sha256 (validate sha256 db raw now new).0 raw t ≡ (
            if not (ltb t s.expires_at)
            then unknown
            else if ltb t (now + previous_overlap)
            then valid rotated true
            else replay rotated))
  unfolding present
  validate-present n t =
      let f = find_rotated in
      let k =
        find_row-AllRows (λ v. not (has_token (sha256 new) v)) (has_token (sha256 raw)) s
          db.sessions fresh (present-found sha256 db raw now s false h).0 in
      let same : s.secret ≡ sha256 raw = (text_eq_iff s.secret (sha256 raw)).0 holds_token.0 in
      let differ : text_eq (sha256 raw) (sha256 new) ≡ false =
        rw (sym same) (ground (arith, k.0)) in
      let l : (length raw == 0) ≡ false = raw_nonempty sha256 db raw now s h in
      (
        validate_rotates.1,
        ground (arith, n, differ, f.0, holds_token.1, text_eq_refl (sha256 new)),
        ground (arith, l, f.1, holds_token.1, text_eq_refl (sha256 raw)),
      )
