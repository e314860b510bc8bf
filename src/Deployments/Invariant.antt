-- ===== src/Deployments/Invariant.antt =====
-- internal/deployments/service.go: the active deployment of an app is its current one.
use tinkercloud.Prelude.{
  ◌<◌, ◌≡◌, refl, subst, ◌≢◌, ◌⊎◌, inl, inr, true, false, none, some, arith, Text, text_eq,
  text_eq_iff, length, Option-cases, Bool-cases,
}
use tinkercloud.Prelude.Map.{Map, lookup, insert, lookup-insert}
use tinkercloud.Releases.{active, verified, superseded}
use tinkercloud.Deployments.Repository.{Record, Repo, ok, create, active_record, commit_activation}

-- The current deployment of an app is a record of that app in state `active`.
abbrev pub Current : Repo → Text → Text → Type 0
Current m app id =
    (r : Record) × (lookup id m.records ≡ some r) × (r.state ≡ active) × (r.app_id ≡ app)

pub record IsConsistent (m : Repo) : Type 0 where
  pub ids : (id : Text) (r : Record) → lookup id m.records ≡ some r → (r.id ≡ id) × (0 < length id)
  pub current : (app id : Text) → lookup app m.current ≡ some id → Current m app id
  pub unique :
      (id : Text) (r : Record)
      → lookup id m.records ≡ some r
      → r.state ≡ active
      → lookup r.app_id m.current ≡ some id

-- A record that is not active may be replaced by one that is not active.
abbrev pub IsInactive : Repo → Text → Type 0
IsInactive m id = (q : Record) → lookup id m.records ≡ some q → q.state ≢ active

pub put-IsConsistent :
    (m : Repo) (r : Record)
    → IsConsistent m
    → 0 < length r.id
    → IsInactive m r.id
    → r.state ≢ active
    → IsConsistent (record m { records = insert r.id r m.records })
put-IsConsistent m r c n old new = record {
  ids =
      λ id q e. ground (arith, lookup-insert r.id id r m.records, text_eq_iff r.id id, c.ids id q);
  current = λ app id e.
      let (q, f, a, p) = c.current app id e in
      (q, ground (arith, lookup-insert r.id id r m.records, text_eq_iff r.id id, old q), a, p);
  unique = λ id q e a.
      ground (arith, lookup-insert r.id id r m.records, text_eq_iff r.id id, c.unique id q);
}

pub create-IsConsistent :
    (m : Repo) (r : Record) {m' : Repo}
    → IsConsistent m
    → 0 < length r.id
    → IsInactive m r.id
    → r.state ≢ active
    → create m r ≡ ok m'
    → IsConsistent m'
unfolding create
create-IsConsistent m r c n old new e =
    subst IsConsistent (ground arith) (put-IsConsistent m r c n old new)

-- What `Active` returns is the current deployment; it returns nothing only for an app without one.
pub active_record-cases :
    (m : Repo) (app : Text)
    → IsConsistent m
    → ((active_record m app ≡ none) × (lookup app m.current ≡ none))
      ⊎ ((o : Record) × (active_record m app ≡ some o)
          × (lookup app m.current ≡ some o.id)
          × (lookup o.id m.records ≡ some o)
          × (o.state ≡ active)
          × (o.app_id ≡ app))
unfolding active_record
active_record-cases m app c = elim (Option-cases (lookup app m.current)) [
  | inl e ↦ inl (ground arith, e)
  | inr (id, e) ↦
      let (o, f, a, p) = c.current app id e in
      let (same, n) = c.ids id o f in inr (o, ground arith, ground arith, ground arith, a, p)
]

-- Committing a verified record over the current deployment of its app.
module _ (m : Repo) (next : Record) (request_id : Text) (c : IsConsistent m)
    (found : lookup next.id m.records ≡ some next) (v : next.state ≡ verified) where
  abbrev commit_result : Map Record → Repo
  commit_result records = record m {
    records = records;
    current = insert next.app_id next.id m.current;
    activation_audits = insert request_id next.id m.activation_audits;
  }

  -- The first write.
  commit_current :
      (app id : Text)
      → (text_eq next.app_id app ≡ true) ⊎ (text_eq next.app_id app ≡ false)
      → lookup app (insert next.app_id next.id m.current) ≡ some id
      → Current (commit_result (insert next.id (record next { state = active }) m.records)) app id
  commit_current app id (inl same) e = (
    record next { state = active },
    ground (
      arith,
      lookup-insert next.app_id app next.id m.current,
      lookup-insert next.id id (record next { state = active }) m.records,
      text_eq_iff next.id id,
    ),
    refl,
    (text_eq_iff next.app_id app).0 same,
  )
  commit_current app id (inr other) e =
      let (q, f, a, p) =
        c.current app id (ground (arith, lookup-insert next.app_id app next.id m.current)) in
      (
        q,
        ground (
          arith,
          lookup-insert next.id id (record next { state = active }) m.records,
          text_eq_iff next.id id,
        ),
        a,
        p,
      )

  commit_first :
      lookup next.app_id m.current ≡ none
      → IsConsistent (commit_result (insert next.id (record next { state = active }) m.records))
  commit_first free = record {
    ids = λ id q e. ground (
      arith,
      lookup-insert next.id id (record next { state = active }) m.records,
      text_eq_iff next.id id,
      c.ids id q,
      c.ids next.id next found,
    );
    current = λ app id e. commit_current app id (Bool-cases (text_eq next.app_id app)) e;
    unique = λ id q e a. ground (
      arith,
      lookup-insert next.id id (record next { state = active }) m.records,
      text_eq_iff next.id id,
      c.unique id q,
      lookup-insert next.app_id q.app_id next.id m.current,
      text_eq_iff next.app_id q.app_id,
    );
  }

  commit_current_over :
      (o : Record)
      → lookup next.app_id m.current ≡ some o.id
      → lookup o.id m.records ≡ some o
      → o.state ≡ active
      → (app id : Text) → (text_eq next.app_id app ≡ true) ⊎ (text_eq next.app_id app ≡ false)
      → lookup app (insert next.app_id next.id m.current) ≡ some id
      → Current
          (commit_result (
            insert o.id
              (record o { state = superseded })
              (insert next.id (record next { state = active }) m.records)))
          app
          id
  commit_current_over o held f a app id (inl same) e = (
    record next { state = active },
    ground (
      arith,
      lookup-insert next.app_id app next.id m.current,
      lookup-insert next.id id (record next { state = active }) m.records,
      text_eq_iff next.id id,
      text_eq_iff o.id id,
      lookup-insert o.id id (record o { state = superseded })
          (insert next.id (record next { state = active }) m.records),
    ),
    refl,
    (text_eq_iff next.app_id app).0 same,
  )
  commit_current_over o held f a app id (inr other) e =
      let (q, g, b, p) =
        c.current app id (ground (arith, lookup-insert next.app_id app next.id m.current)) in
      (
        q,
        ground (
          arith,
          lookup-insert next.id id (record next { state = active }) m.records,
          text_eq_iff next.id id,
          text_eq_iff o.id id,
          text_eq_iff next.app_id app,
          c.unique o.id o f a,
          c.current next.app_id o.id held,
          lookup-insert o.id id (record o { state = superseded })
              (insert next.id (record next { state = active }) m.records),
        ),
        b,
        p,
      )

  commit_over :
      (o : Record)
      → lookup next.app_id m.current ≡ some o.id
      → lookup o.id m.records ≡ some o
      → o.state ≡ active
      → IsConsistent (
          commit_result (
            insert o.id
              (record o { state = superseded })
              (insert next.id (record next { state = active }) m.records)))
  commit_over o held f a = record {
    ids = λ id q e. ground (
      arith,
      lookup-insert next.id id (record next { state = active }) m.records,
      text_eq_iff next.id id,
      text_eq_iff o.id id,
      c.ids id q,
      c.ids next.id next found,
      c.ids o.id o f,
      lookup-insert o.id id (record o { state = superseded })
          (insert next.id (record next { state = active }) m.records),
    );
    current =
        λ app id e. commit_current_over o held f a app id (Bool-cases (text_eq next.app_id app)) e;
    unique = λ id q e b. ground (
      arith,
      lookup-insert next.id id (record next { state = active }) m.records,
      text_eq_iff next.id id,
      text_eq_iff o.id id,
      c.unique id q,
      lookup-insert next.app_id q.app_id next.id m.current,
      text_eq_iff next.app_id q.app_id,
      lookup-insert o.id id (record o { state = superseded })
          (insert next.id (record next { state = active }) m.records),
    );
  }

  pub commit-IsConsistent :
      {m' : Repo}
      → commit_activation m next (active_record m next.app_id) request_id ≡ ok m'
      → IsConsistent m'
  unfolding commit_activation
  commit-IsConsistent {m'} e = elim (active_record-cases m next.app_id c) [
    | inl (none_active, free) ↦ subst IsConsistent (ground arith) (commit_first free)
    | inr (o, found_old, held, f, a, p) ↦ subst IsConsistent (ground arith) (commit_over o held f a)
  ]
