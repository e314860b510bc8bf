-- ===== src/GlobalIdentity/Dead.antt =====
-- internal/persistence/global_identity.go: a family that is revoked, through each operation.
use tinkercloud.Prelude.{
  ◌≡◌, refl, ℕ, Bool, true, false, not, ◌||◌, List, [], ◌∷◌, Text, text_eq, arith, if_cases, subst,
  length, ◌==◌,
}
use tinkercloud.Prelude.Map.{Map, insert, has_key, is_some}
use tinkercloud.GlobalIdentity.Tables.{
  SessionRow, ChildRow, Db, Error, Result, ok, err, update_rows, in_family,
}
use tinkercloud.GlobalIdentity.{has_live, revoke_session, revoke_child, revoke_family}
use tinkercloud.GlobalIdentity.Rows.{
  AllRows, update_rows-AllRows, AllRows-weaken, insert-AllRows, in_family-update_rows,
  in_family-insert,
}

-- A session of the family is revoked.
unfoldable pub is_dead_session : Text → SessionRow → Bool
unfolding text_eq
is_dead_session fam s = not (text_eq s.family fam) || is_some s.revoked_at

-- A session of an app below the family is revoked.
unfoldable pub is_dead_child : Text → Map SessionRow → ChildRow → Bool
unfolding in_family
is_dead_child fam sessions c = not (in_family fam sessions c.parent) || is_some c.revoked_at

pub record IsDead (fam : Text) (ss : Map SessionRow) (cs : Map ChildRow) : Type 0 where
  pub sessions : AllRows (is_dead_session fam) ss
  pub children : AllRows (is_dead_child fam ss) cs

-- A change of the sessions that keeps families and revocations.
pub record Keeps (f : SessionRow → SessionRow) : Type 0 where
  pub family : (s : SessionRow) → (f s).family ≡ s.family
  pub revoked : (s : SessionRow) → is_some s.revoked_at ≡ true → is_some (f s).revoked_at ≡ true

pub update_rows-IsDead :
    (fam : Text) (f : SessionRow → SessionRow) (ss : Map SessionRow) (cs : Map ChildRow)
    → Keeps f
    → IsDead fam ss cs
    → IsDead fam (update_rows f ss) cs
unfolding is_dead_session is_dead_child
update_rows-IsDead fam f ss cs k d = record {
  sessions =
      update_rows-AllRows _ _ f ss (λ s h. ground (arith, h, k.family s, k.revoked s)) d.sessions;
  children =
      AllRows-weaken _ _ cs (λ c h. rw (in_family-update_rows fam c.parent f ss k.family) h)
        d.children;
}

pub revoke_session-Keeps : (g : Text) (now : ℕ) → Keeps (revoke_session g now)
revoke_session-Keeps g now = record {
  family = λ s. ground arith;
  revoked = λ s h. ground (arith, h);
}

pub insert_session-IsDead :
    (fam k : Text) (s : SessionRow) (ss : Map SessionRow) (cs : Map ChildRow)
    → text_eq s.family fam ≡ false
    → has_key k ss ≡ false
    → IsDead fam ss cs
    → IsDead fam (insert k s ss) cs
unfolding is_dead_session is_dead_child
insert_session-IsDead fam k s ss cs h n d = record {
  sessions = insert-AllRows _ k s ss (ground (arith, h)) d.sessions;
  children =
      AllRows-weaken _ _ cs (λ c e. rw (in_family-insert fam c.parent k s ss h n) e) d.children;
}

pub insert_child-IsDead :
    (fam k : Text) (c : ChildRow) (ss : Map SessionRow) (cs : Map ChildRow)
    → in_family fam ss c.parent ≡ false
    → IsDead fam ss cs
    → IsDead fam ss (insert k c cs)
unfolding is_dead_child
insert_child-IsDead fam k c ss cs h d = record {
  sessions = d.sessions;
  children = insert-AllRows _ k c cs (ground (arith, h)) d.children;
}

pub revoke_child-IsDead :
    (fam g : Text) (now : ℕ) (ss : Map SessionRow) (cs : Map ChildRow)
    → IsDead fam ss cs
    → IsDead fam ss (update_rows (revoke_child g now ss) cs)
unfolding is_dead_child
revoke_child-IsDead fam g now ss cs d = record {
  sessions = d.sessions;
  children = update_rows-AllRows _ _ _ cs (λ c h. ground (arith, h)) d.children;
}

-- The family that is revoked, of which nothing lived or dies now.
pub revoke_tables-IsDead :
    (fam : Text) (now : ℕ) (ss : Map SessionRow) (cs : Map ChildRow)
    → IsDead fam
        (update_rows (revoke_session fam now) ss)
        (update_rows (revoke_child fam now ss) cs)
unfolding is_dead_session is_dead_child
revoke_tables-IsDead fam now ss cs = record {
  sessions = update_rows-AllRows (λ s. true) _ _ ss (λ s h. ground arith) (all_true ss);
  children =
      update_rows-AllRows (λ c. true) _ _ cs
        (λ c h. ground (
          arith,
          in_family-update_rows fam c.parent (revoke_session fam now) ss
              ((revoke_session-Keeps fam now).family),
        ))
        (all_true cs);
}
  where
    all_true : {V : Type 0} (m : Map V) → AllRows (λ v. true) m
    all_true [] = tt
    all_true ((k, v) ∷ m) = (refl, all_true m)

-- What a result with tables leaves behind.
pub data ResultIsDead {A : Type 0} (fam : Text) : Result (Db × A) → Type 0 where
  undone : {e : Error} → ResultIsDead fam (err e)
  done : {db : Db} {a : A} → IsDead fam db.sessions db.children → ResultIsDead fam (ok (db, a))

pub ok-IsDead :
    {A : Type 0} (fam : Text) (x : Result (Db × A)) (db : Db) (a : A)
    → ResultIsDead fam x
    → x ≡ ok (db, a)
    → IsDead fam db.sessions db.children
ok-IsDead fam x db a h e = at (subst (ResultIsDead fam) e h)
  where
    at : ResultIsDead fam (ok (db, a)) → IsDead fam db.sessions db.children
    at (done d) = d

pub revoke_family-ResultIsDead :
    (fam g : Text) (now : ℕ) (db : Db)
    → IsDead fam db.sessions db.children
    → ResultIsDead fam (revoke_family db g now)
unfolding revoke_family
revoke_family-ResultIsDead fam g now db d =
    if_cases P (length g == 0) (λ _. undone)
      (λ _.
        if_cases P (not (has_live g db)) (λ _. undone)
          (λ _. done (
            update_rows-IsDead fam (revoke_session g now) db.sessions _ (revoke_session-Keeps g now)
              (revoke_child-IsDead fam g now db.sessions db.children d))))
  where
    P : Result (Db × List ChildRow) → Type 0
    P = ResultIsDead fam

pub revoke_family-IsDead :
    (fam : Text) (now : ℕ) (db : Db) → ResultIsDead fam (revoke_family db fam now)
unfolding revoke_family
revoke_family-IsDead fam now db =
    if_cases P (length fam == 0) (λ _. undone)
      (λ _.
        if_cases P (not (has_live fam db)) (λ _. undone)
          (λ _. done (revoke_tables-IsDead fam now db.sessions db.children)))
  where
    P : Result (Db × List ChildRow) → Type 0
    P = ResultIsDead fam
