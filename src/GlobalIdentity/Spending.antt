-- ===== src/GlobalIdentity/Spending.antt =====
-- internal/persistence/global_identity.go: a handoff is consumed once, a replayed token ends its
-- family, and what the cleanup takes for expired.
use tinkercloud.Prelude.{
  ◌≡◌, ◌<◌, ◌+◌, ◌*◌, ◌/◌, ◌%◌, ◌≢◌, refl, ℕ, codes, text_eq_refl, Bool, true, false, not, ◌&&◌,
  ◌||◌, ◌==◌, some, List, [], ◌∷◌, Text, text_eq, arith, length, Option-cases, inl, inr, ltb,
  if_cases, option_cases, subst,
}
use tinkercloud.Prelude.Map.{Map, lookup, has_key, is_some}
use tinkercloud.GlobalIdentity.Tables.{
  SessionRow, HandoffRow, ChildRow, Db, Error, identity_denied, Result, ok, err, update_rows,
  find_row,
}
use tinkercloud.GlobalIdentity.{
  second, replay, has_token, handoff, is_open, consume_row, revoke_family, has_live,
}
use tinkercloud.GlobalIdentity.Sessions.{present, validate, accept, end_replayed}
use tinkercloud.GlobalIdentity.Handoffs.{
  consume_handoff, may_consume, stored_le, fraction_text, drop_zeros, digits,
}
use mathlib.Core.List.{reverse, ◌++◌}
use tinkercloud.Kv.Store.{text_lt}
use tinkercloud.GlobalIdentity.Dead.{IsDead, revoke_family-IsDead, ok-IsDead}
use tinkercloud.GlobalIdentity.Rotation.{find_row-is_some}

lookup-update_rows :
    {V : Type 0} (k : Text) (f : V → V) (v : V) (m : Map V)
    → lookup k m ≡ some v
    → lookup k (update_rows f m) ≡ some (f v)
unfolding lookup update_rows
lookup-update_rows k f v [] h = absurd (ground (arith, h))
lookup-update_rows k f v ((j, w) ∷ m) h = ground (arith, h, lookup-update_rows k f v m)

data ConsumeResult (db : Db) (id : Text) (now : ℕ) : Result (Db × ChildRow) → Type 0 where
  refused : {e : Error} → ConsumeResult db id now (err e)
  consumed :
      {r : Db × ChildRow}
      → r.0.handoffs ≡ update_rows (consume_row id now) db.handoffs
      → ConsumeResult db id now (ok r)

consume_handoff-ConsumeResult :
    (sha256 : Text → Text) (db : Db) (app id state : Text) (now expiry : ℕ) (raw child : Text)
    → ConsumeResult db id now (consume_handoff sha256 db app id state now expiry raw child)
unfolding consume_handoff
consume_handoff-ConsumeResult sha256 db app id state now expiry raw child =
    if_cases P (length state == 0 || not (ltb now expiry)) (λ _. refused)
      (λ _.
        option_cases P (handoff db id) (λ _. refused)
          (λ h _.
            option_cases P h.session (λ _. refused)
              (λ sid _.
                option_cases P (lookup sid db.sessions) (λ _. refused)
                  (λ s e.
                    if_cases P (not (may_consume sha256 db app state now h s)) (λ _. refused)
                      (λ m.
                        if_cases P (length sid == 0 || has_key child db.children) (λ _. refused)
                          (λ _. consumed refl))))))
  where
    P : Result (Db × ChildRow) → Type 0
    P = ConsumeResult db id now

-- A handoff that is not open is not consumed.
closed_handoff :
    (sha256 : Text → Text) (db : Db) (app id state : Text) (now expiry : ℕ) (raw child : Text)
    (h : HandoffRow)
    → lookup id db.handoffs ≡ some h
    → is_open now h ≡ false
    → consume_handoff sha256 db app id state now expiry raw child ≡ err identity_denied
unfolding consume_handoff handoff may_consume
closed_handoff sha256 db app id state now expiry raw child h l o =
    if_cases P (length state == 0 || not (ltb now expiry)) (λ _. refl)
      (λ _.
        option_cases P (handoff db id) (λ _. refl)
          (λ k e.
            option_cases P k.session (λ _. refl)
              (λ sid _.
                option_cases P (lookup sid db.sessions) (λ _. refl)
                  (λ s _. ground (arith, l, o, e)))))
  where
    P : Result (Db × ChildRow) → Type 0
    P r = r ≡ err identity_denied

module _ (sha256 : Text → Text) (db : Db) (app id state : Text) (now expiry : ℕ) (raw child : Text)
    (h : HandoffRow) (r : Db × ChildRow) where
  -- A handoff that has been exchanged for a session of an app is not exchanged again, for whatever
  -- app, state and time.
  pub consume_handoff-consume_handoff :
      lookup id db.handoffs ≡ some h
      → text_eq h.id id ≡ true
      → consume_handoff sha256 db app id state now expiry raw child ≡ ok r
      → (app' state' : Text) (now' expiry' : ℕ) (raw' child' : Text)
      → consume_handoff sha256 r.0 app' id state' now' expiry' raw' child' ≡ err identity_denied
  consume_handoff-consume_handoff l i e app' state' now' expiry' raw' child' =
      let u = handoffs_after (
        subst (ConsumeResult db id now) e
          (consume_handoff-ConsumeResult sha256 db app id state now expiry raw child)) in
      closed_handoff sha256 r.0 app' id state' now' expiry' raw' child' (consume_row id now h)
        (rw u (lookup-update_rows id (consume_row id now) h db.handoffs l)) (ground (arith, i))
    where
      handoffs_after :
          ConsumeResult db id now (ok r)
          → r.0.handoffs ≡ update_rows (consume_row id now) db.handoffs
      handoffs_after (consumed u) = u

present-replay :
    (sha256 : Text → Text) (db : Db) (raw : Text) (now : ℕ) (s : SessionRow)
    → present sha256 db raw now ≡ replay s
    → has_live s.family db ≡ true
unfolding present has_live
present-replay sha256 db raw now s h =
    elim (Option-cases (find_row (has_token (sha256 raw)) db.sessions)) [
      | inl e ↦ absurd (ground (arith, h, e))
      | inr r ↦
          let live : SessionRow → Bool =
            λ v. text_eq v.family s.family && not (is_some v.revoked_at) in
          find_row-is_some (has_token (sha256 raw)) live s db.sessions (ground (arith, h, r.1))
            (ground (arith, h, r.1, text_eq_refl s.family))
    ]

revoke_family_refused :
    (db : Db) (fam : Text) (now : ℕ) (e : Error)
    → has_live fam db ≡ true
    → (length fam == 0) ≡ false
    → revoke_family db fam now ≢ err e
unfolding revoke_family
revoke_family_refused db fam now e l n h = ground (arith, l, n, h)

-- The token that has been replaced is presented after its minute: the family ends with every session
-- below it, although the answer is a denial. The family has a name.
pub validate-IsDead_replay :
    (sha256 : Text → Text) (db : Db) (raw : Text) (now : ℕ) (new : Text) (s : SessionRow)
    → present sha256 db raw now ≡ replay s
    → (length s.family == 0) ≡ false
    → ((validate sha256 db raw now new).1.error ≡ some identity_denied)
      × IsDead s.family
          (validate sha256 db raw now new).0.sessions
          (validate sha256 db raw now new).0.children
unfolding validate accept
validate-IsDead_replay sha256 db raw now new s h n =
    rw h (ended (revoke_family db s.family now) refl)
  where
    ended :
        (r : Result (Db × List ChildRow))
        → revoke_family db s.family now ≡ r
        → ((end_replayed db r).1.error ≡ some identity_denied)
          × IsDead s.family (end_replayed db r).0.sessions (end_replayed db r).0.children
    ended (err e) x =
        absurd (revoke_family_refused db s.family now e (present-replay sha256 db raw now s h) n x)
    ended (ok r) x = (refl, ok-IsDead s.family _ r.0 r.1 (revoke_family-IsDead s.family now db) x)

fraction_text_some : (f : ℕ) → 0 < f → (t : Text) × (fraction_text f ≡ b'.' ∷ t)
unfolding fraction_text
fraction_text_some f h =
    (reverse (drop_zeros (reverse (digits 9 f))) ++ codes "Z", ground (arith, h))

stored_le_same :
    (a b : ℕ) (t : Text)
    → a / second ≡ b / second
    → fraction_text (a % second) ≡ b'.' ∷ t
    → fraction_text (b % second) ≡ codes "Z"
    → stored_le a b ≡ true
unfolding stored_le text_lt
stored_le_same a b t h x y = rw (h, x, y) (ground arith)

-- A fraction of a second that is not 0 counts as no later than the whole second before it.
stored_le_flaw : (s f : ℕ) → 0 < f → f < second → stored_le (s * second + f) (s * second) ≡ true
unfolding fraction_text
stored_le_flaw s f h k =
    let e : (s * second + f) % second ≡ f = omega (arith, h, k) in
    let z : (s * second) % second ≡ 0 = omega arith in
    let t = fraction_text_some f h in
    stored_le_same (s * second + f) (s * second) t.0 (omega (arith, h, k)) (rw e t.1) (rw z refl)
