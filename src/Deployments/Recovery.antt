-- ===== src/Deployments/Recovery.antt =====
-- internal/deployments/service.go: creating a deployment, and what a restart makes of the records.
use tinkercloud.Prelude.{
  ◌<◌, ◌≡◌, refl, subst, ◌≢◌, ◌⊎◌, inl, inr, Bool, true, false, none, some, List, [], ◌∷◌, arith,
  Text, ◌&&◌, text_eq, text_eq_iff, text_eq_refl, length, Option-cases, Bool-cases, all,
}
use mathlib.Core.Logic.{if_pos, if_neg}
use tinkercloud.Prelude.Map.{
  Map, lookup, insert, delete, has_key, has_key-insert, lookup-insert, lookup-delete,
}
use tinkercloud.Releases.{verified, rejected, failed, active, superseded, State, State-discrete}
use tinkercloud.Deployments.Repository.{
  Record, Repo, Outcome, ok, err, Outcome-cases, create, apply_recovery, text_or_empty, is_failed,
}
use tinkercloud.Deployments.{Env, Actor, service_create, new_record, recover, recover_all}
use tinkercloud.Deployments.Invariant.{IsConsistent, IsInactive, create-IsConsistent}

abbrev after_create : Repo → Outcome Repo → Repo
after_create m (ok m') = m'
after_create m (err e) = m

service_create-cases :
    (env : Env) (m : Repo) (a : Actor) (app slug id key : Text) (acknowledged : Bool)
    → ((service_create env m a app slug id key acknowledged).0 ≡ m)
      ⊎ ((service_create env m a app slug id key acknowledged).0
          ≡ after_create m (create m (new_record a app slug id key acknowledged)))
unfolding service_create
service_create-cases env m a app slug id key acknowledged = ground arith

after_create-IsConsistent :
    (m : Repo) (r : Record) (o : Outcome Repo)
    → create m r ≡ o
    → IsConsistent m
    → 0 < length r.id
    → IsInactive m r.id
    → r.state ≢ active
    → IsConsistent (after_create m o)
after_create-IsConsistent m r (ok m') e c n old new = create-IsConsistent m r c n old new e
after_create-IsConsistent m r (err x) e c n old new = c

-- Creating a deployment under a new, nonempty ID keeps the repository consistent, whatever the
-- limits answer.
pub service_create-IsConsistent :
    (env : Env) (m : Repo) (a : Actor) (app slug id key : Text) (acknowledged : Bool)
    → IsConsistent m
    → 0 < length id
    → lookup id m.records ≡ none
    → IsConsistent (service_create env m a app slug id key acknowledged).0
unfolding new_record
service_create-IsConsistent env m a app slug id key acknowledged c n free =
    elim (service_create-cases env m a app slug id key acknowledged) [
      | inl e ↦ rw e c
      | inr e ↦ rw e (
          after_create-IsConsistent m (new_record a app slug id key acknowledged) _ refl c n
            (λ q f. cc) (λ x. cc))
    ]

-- What a record is recovered to: a terminal state stays, and any other stays only as a `verified`,
-- `active` or `superseded` one whose release is intact.
pub recover_sound :
    (r : Record) (intact : Bool)
    → (recover r intact ≡ failed)
      ⊎ ((recover r intact ≡ r.state)
          × ((r.state ≡ rejected)
              ⊎ (intact ≡ true)
                × ((r.state ≡ verified) ⊎ (r.state ≡ active) ⊎ (r.state ≡ superseded))))
unfolding recover
recover_sound r intact = ground arith

pub recover_idem :
    (r : Record) (intact : Bool)
    → recover (record r { state = recover r intact }) intact ≡ recover r intact
unfolding recover
recover_idem r intact = ground arith

module _ (m : Repo) (id : Text) (r : Record) (c : IsConsistent m)
    (f : lookup id m.records ≡ some r) where
  abbrev fallen : Map Record
  fallen = insert id (record r { state = failed }) m.records

  fallen_cleared :
      text_eq (text_or_empty (lookup r.app_id m.current)) id ≡ true
      → IsConsistent (record m { records = fallen; current = delete r.app_id m.current })
  fallen_cleared t = record {
    ids = λ j q e. ground (
      arith,
      text_eq_iff id j,
      lookup-insert id j (record r { state = failed }) m.records,
      c.ids j q,
      c.ids id r f,
    );
    current = λ app j e.
        let was : lookup app m.current ≡ some j =
          ground (arith, lookup-delete r.app_id app m.current) in
        let (q, g, a, w) = c.current app j was in
        (
          q,
          ground (
            arith,
            text_eq_iff id j,
            lookup-insert id j (record r { state = failed }) m.records,
            lookup-delete r.app_id app m.current,
            text_eq_iff r.app_id app,
          ),
          a,
          w,
        );
    unique = λ j q e a. ground (
      arith,
      text_eq_iff id j,
      lookup-insert id j (record r { state = failed }) m.records,
      c.unique j q,
      lookup-delete r.app_id q.app_id m.current,
      text_eq_iff r.app_id q.app_id,
      text_eq_iff (text_or_empty (lookup r.app_id m.current)) id,
    );
  }

  fallen_kept :
      text_eq (text_or_empty (lookup r.app_id m.current)) id ≡ false
      → IsConsistent (record m { records = fallen })
  fallen_kept t = record {
    ids = λ j q e. ground (
      arith,
      text_eq_iff id j,
      lookup-insert id j (record r { state = failed }) m.records,
      c.ids j q,
      c.ids id r f,
    );
    current = λ app j e.
        let (q, g, a, w) = c.current app j e in
        (
          q,
          ground (
            arith,
            text_eq_iff id j,
            lookup-insert id j (record r { state = failed }) m.records,
            text_eq_refl id,
          ),
          a,
          w,
        );
    unique = λ j q e a. ground (
      arith,
      text_eq_iff id j,
      lookup-insert id j (record r { state = failed }) m.records,
      c.unique j q,
    );
  }

  apply_recovery-IsConsistent : {m' : Repo} → apply_recovery m id failed ≡ ok m' → IsConsistent m'
  unfolding apply_recovery
  apply_recovery-IsConsistent {m'} e =
      elim (Bool-cases (text_eq (text_or_empty (lookup r.app_id m.current)) id)) [
        | inl t ↦ subst IsConsistent (ground arith) (fallen_cleared t)
        | inr t ↦ subst IsConsistent (ground arith) (fallen_kept t)
      ]

recover_failed :
    (r : Record) (intact : Bool) → recover r intact ≢ r.state → recover r intact ≡ failed
unfolding recover
recover_failed r intact n = ground arith

recover_one :
    (evidence : Record → Bool) (m : Repo) (r : Record) (o : Outcome Repo)
    → IsConsistent m
    → apply_recovery m r.id (recover r (evidence r)) ≡ o
    → recover r (evidence r) ≢ r.state
    → IsConsistent (after_create m o)
recover_one evidence m r (err x) c e n = c
recover_one evidence m r (ok m') c e n = elim (Option-cases (lookup r.id m.records)) [
  | inl g ↦ absurd (unfold apply_recovery in ground arith)
  | inr (q, g) ↦
      apply_recovery-IsConsistent m r.id q c g (rw (recover_failed r (evidence r) n) at e)
]

kept_by_recovery :
    (evidence : Record → Bool) (rs : List Record) (m : Repo) {m' : Repo}
    → IsConsistent m
    → recover_all evidence rs m ≡ ok m'
    → IsConsistent m'
unfolding recover_all
kept_by_recovery evidence [] m c e = subst IsConsistent (ground arith) c
kept_by_recovery evidence (r ∷ rs) m {m'} c e =
    elim (State-discrete (recover r (evidence r)) r.state) [
      | yes s ↦ kept_by_recovery evidence rs m c (rw (if_pos _ s) at e)
      | no n ↦ elim (Outcome-cases (apply_recovery m r.id (recover r (evidence r)))) [
        | inl (x, f) ↦ absurd (let e' = rw (if_neg _ n) at e in ground (arith, f, e'))
        | inr (m₁, f) ↦
            kept_by_recovery evidence rs m₁ (recover_one evidence m r (ok m₁) c f n)
              (rw f at (rw (if_neg _ n) at e))
      ]
    ]

abbrev pub are_stored : List Record → Repo → Bool
are_stored rs m = all (λ r. has_key r.id m.records) rs

insert-stored :
    (m : Repo) (id : Text) (q : Record) (rs : List Record)
    → are_stored rs m ≡ true
    → all (λ r. has_key r.id (insert id q m.records)) rs ≡ true
insert-stored m id q [] a = refl
insert-stored m id q (r ∷ rs) a =
    ground (arith, insert-stored m id q rs, has_key-insert id r.id q m.records)

apply_recovery-stored :
    (m : Repo) (r : Record) (s : State) (rs : List Record)
    → has_key r.id m.records ≡ true
    → are_stored rs m ≡ true
    → (m' : Repo) × (apply_recovery m r.id s ≡ ok m') × (are_stored rs m' ≡ true)
unfolding apply_recovery has_key
apply_recovery-stored m r s rs h a = elim (Option-cases (lookup r.id m.records)) [
  | inl e ↦ absurd (ground (arith, e))
  | inr (q, e) ↦
      let q' : Record = record q { state = s } in
      elim (Bool-cases (is_failed s && text_eq (text_or_empty (lookup q.app_id m.current)) r.id)) [
        | inl b ↦ (
          record m { records = insert r.id q' m.records; current = delete q.app_id m.current },
          ground (arith, e, b),
          insert-stored m r.id q' rs a,
        )
        | inr b ↦ (
          record m { records = insert r.id q' m.records },
          ground (arith, e, b),
          insert-stored m r.id q' rs a,
        )
      ]
]

recover_all_total :
    (evidence : Record → Bool) (rs : List Record) (m : Repo)
    → are_stored rs m ≡ true
    → (m' : Repo) × (recover_all evidence rs m ≡ ok m')
unfolding recover_all
recover_all_total evidence [] m a = (m, refl)
recover_all_total evidence (r ∷ rs) m a = elim (State-discrete (recover r (evidence r)) r.state) [
  | yes s ↦ let (m', e) = recover_all_total evidence rs m (ground arith) in (m', rw (if_pos _ s) e)
  | no n ↦
      let (m₁, f, b) =
        apply_recovery-stored m r (recover r (evidence r)) rs (ground arith) (ground arith) in
      let (m', e) = recover_all_total evidence rs m₁ b in (m', rw (if_neg _ n) (rw f e))
]

-- A restart that goes through records that are all stored succeeds, and it keeps the repository
-- consistent.
pub recover_all-IsConsistent :
    (evidence : Record → Bool) (rs : List Record) (m : Repo)
    → IsConsistent m
    → are_stored rs m ≡ true
    → (m' : Repo) × (recover_all evidence rs m ≡ ok m') × IsConsistent m'
recover_all-IsConsistent evidence rs m c a =
    let (m', e) = recover_all_total evidence rs m a in (m', e, kept_by_recovery evidence rs m c e)
