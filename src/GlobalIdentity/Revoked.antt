-- ===== src/GlobalIdentity/Revoked.antt =====
-- internal/persistence/global_identity.go: each operation keeps a revoked family revoked.
use tinkercloud.Prelude.{
  ◌≡◌, ℕ, ◌-◌, Bool, false, not, ◌&&◌, ◌||◌, ◌==◌, List, Text, text_eq, arith, if_cases,
  option_cases, length, ltb, leb, Option-cases, inl, inr,
}
use tinkercloud.Prelude.Map.{lookup, has_key, is_some}
use tinkercloud.GlobalIdentity.Tables.{
  SessionRow, ChildRow, Db, Result, ok, err, find_row, in_family, policy_allows,
}
use tinkercloud.GlobalIdentity.{
  Presented, valid, replay, unknown, handoff, is_open, viewer_of, has_token, mark_seen, rotate_row,
  rotate_after, Validation, revoke_family,
}
use tinkercloud.GlobalIdentity.Sessions.{
  present, refresh, validate, revoke_token, accept, end_replayed,
}
use tinkercloud.GlobalIdentity.Handoffs.{
  authorize_handoff, consume_handoff, authorize_with, may_consume, new_child,
}
use tinkercloud.GlobalIdentity.Rows.{find_row-AllRows, lookup-AllRows}
use tinkercloud.GlobalIdentity.Dead.{
  IsDead, Keeps, ResultIsDead, undone, done, is_dead_session, update_rows-IsDead,
  insert_child-IsDead, revoke_family-ResultIsDead,
}

pub present-valid :
    (sha256 : Text → Text) (fam : Text) (db : Db) (raw : Text) (now : ℕ) (s : SessionRow)
    (prior : Bool)
    → IsDead fam db.sessions db.children
    → present sha256 db raw now ≡ valid s prior
    → text_eq s.family fam ≡ false
unfolding present is_dead_session
present-valid sha256 fam db raw now s prior d h =
    elim (Option-cases (find_row (has_token (sha256 raw)) db.sessions)) [
      | inl e ↦ absurd (ground (arith, h, e))
      | inr r ↦ ground (
        arith,
        h,
        r.1,
        find_row-AllRows (is_dead_session fam) (has_token (sha256 raw)) r.0 db.sessions d.sessions
            r.1,
      )
    ]

mark_seen-Keeps : (id : Text) (now : ℕ) → Keeps (mark_seen id now)
mark_seen-Keeps id now = record { family = λ s. ground arith; revoked = λ s h. ground (arith, h) }

rotate_row-Keeps : (id old new : Text) (now : ℕ) → Keeps (rotate_row id old new now)
rotate_row-Keeps id old new now = record {
  family = λ s. ground arith;
  revoked = λ s h. ground (arith, h);
}

-- The tables of a pair are those of a dead family.
abbrev pub DbIsDead : {A : Type 0} → Text → Db × A → Type 0
DbIsDead fam r = IsDead fam r.0.sessions r.0.children

pub refresh-IsDead :
    (sha256 : Text → Text) (fam : Text) (db : Db) (raw : Text) (now : ℕ) (new : Text)
    (s : SessionRow) (prior : Bool)
    → IsDead fam db.sessions db.children
    → DbIsDead fam (refresh sha256 db raw now new s prior)
unfolding refresh
refresh-IsDead sha256 fam db raw now new s prior d =
    if_cases P (not prior && leb rotate_after (now - s.rotated_at))
      (λ _.
        if_cases P _ (λ _. d)
          (λ _.
            update_rows-IsDead fam _ db.sessions db.children
              (rotate_row-Keeps s.id (sha256 raw) (sha256 new) now) d))
      (λ _. update_rows-IsDead fam _ db.sessions db.children (mark_seen-Keeps s.id now) d)
  where
    P : Db × Validation → Type 0
    P r = IsDead fam r.0.sessions r.0.children

pub end_replayed-IsDead :
    (fam : Text) (db : Db) (r : Result (Db × List ChildRow))
    → IsDead fam db.sessions db.children
    → ResultIsDead fam r
    → DbIsDead {A = Validation} fam (end_replayed db r)
end_replayed-IsDead fam db (ok r) d (done h) = h
end_replayed-IsDead fam db (err e) d h = d

pub validate-IsDead :
    (sha256 : Text → Text) (fam : Text) (db : Db) (raw : Text) (now : ℕ) (new : Text)
    → IsDead fam db.sessions db.children
    → DbIsDead fam (validate sha256 db raw now new)
unfolding validate accept
validate-IsDead sha256 fam db raw now new d = presented (present sha256 db raw now)
  where
    presented : (p : Presented) → DbIsDead fam (accept sha256 db raw now new p)
    presented unknown = d
    presented (replay s) =
        end_replayed-IsDead fam db (revoke_family db s.family now) d
          (revoke_family-ResultIsDead fam s.family now db d)
    presented (valid s prior) = refresh-IsDead sha256 fam db raw now new s prior d

pub revoke_token-ResultIsDead :
    (sha256 : Text → Text) (fam : Text) (db : Db) (raw : Text) (now : ℕ)
    → IsDead fam db.sessions db.children
    → ResultIsDead fam (revoke_token sha256 db raw now)
unfolding revoke_token
revoke_token-ResultIsDead sha256 fam db raw now d =
    if_cases P (length raw == 0) (λ _. undone)
      (λ _.
        option_cases P (find_row q db.sessions) (λ _. undone)
          (λ s _. revoke_family-ResultIsDead fam s.family now db d))
  where
    P : Result (Db × List ChildRow) → Type 0
    P = ResultIsDead fam

    q : SessionRow → Bool
    q s = has_token (sha256 raw) s && not (is_some s.revoked_at)

-- An authorization changes handoffs only.
pub authorize_handoff-ResultIsDead :
    (sha256 : Text → Text) (fam : Text) (db : Db) (id raw : Text) (now : ℕ)
    → IsDead fam db.sessions db.children
    → ResultIsDead fam (authorize_handoff sha256 db id raw now)
unfolding authorize_handoff
authorize_handoff-ResultIsDead sha256 fam db id raw now d = accepted (present sha256 db raw now)
  where
    P : Result (Db × SessionRow) → Type 0
    P = ResultIsDead fam

    accepted : (p : Presented) → P (authorize_with db id now p)
    accepted unknown = undone
    accepted (replay s) = undone
    accepted (valid s prior) =
        option_cases P (handoff db id) (λ _. undone)
          (λ h _.
            if_cases P
              (h.force_login
                || not (is_open now h)
                || not (policy_allows db h.app (viewer_of s.email)))
              (λ _. undone) (λ _. if_cases P (is_some h.session) (λ _. undone) (λ _. done d)))

pub consume_handoff-ResultIsDead :
    (sha256 : Text → Text) (fam : Text) (db : Db) (app id state : Text) (now expiry : ℕ)
    (raw child : Text)
    → IsDead fam db.sessions db.children
    → ResultIsDead fam (consume_handoff sha256 db app id state now expiry raw child)
unfolding consume_handoff may_consume is_dead_session in_family
consume_handoff-ResultIsDead sha256 fam db app id state now expiry raw child d =
    if_cases P (length state == 0 || not (ltb now expiry)) (λ _. undone)
      (λ _.
        option_cases P (handoff db id) (λ _. undone)
          (λ h _.
            option_cases P h.session (λ _. undone)
              (λ sid _.
                option_cases P (lookup sid db.sessions) (λ _. undone)
                  (λ s e.
                    if_cases P (not (may_consume sha256 db app state now h s)) (λ _. undone)
                      (λ m.
                        if_cases P (length sid == 0 || has_key child db.children) (λ _. undone)
                          (λ _. done (
                            insert_child-IsDead fam child
                              (new_child sha256 app child sid s raw expiry) db.sessions db.children
                              (ground (
                                arith,
                                e,
                                m,
                                lookup-AllRows (is_dead_session fam) sid s db.sessions d.sessions e,
                              ))
                              d)))))))
  where
    P : Result (Db × ChildRow) → Type 0
    P = ResultIsDead fam
