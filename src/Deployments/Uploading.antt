-- ===== src/Deployments/Uploading.antt =====
-- internal/deployments/service.go: `Upload` moves its one record along the table of transitions.
use tinkercloud.Prelude.{
  ◌<◌, ◌≡◌, refl, sym, subst, ◌∙◌, ◌≢◌, ◌⊎◌, inl, inr, Bool, true, false, not, Option, none, some,
  List, arith, Text, text_eq, text_eq_iff, length, if◌then◌else◌, Option-cases, Bool-cases,
}
use tinkercloud.Prelude.Map.{lookup, insert, lookup-insert}
use tinkercloud.Releases.{
  State, uploading, uploaded, validating, staged, verified, rejected, failed, active, allowed,
}
use tinkercloud.Releases.Lifecycle.{Steps, stay, Steps-snoc}
use tinkercloud.Deployments.Repository.{
  Record, Manifest, File, Repo, Outcome, ok, err, Outcome-cases, Error, create, get, fail, disk,
}
use tinkercloud.Deployments.{
  Disk, Actor, advance, reject, upload_verified, upload_finalized, upload_stage, upload_validated,
  upload_extracted, upload_open, upload_store, upload_copied, upload_record, upload, is_unsafe,
  is_uploading,
}
use tinkercloud.Deployments.Invariant.{IsConsistent, IsInactive}

-- From `m₀` to `m` only the record `id` has changed, and it stands in state `s`, on a way that the
-- table allows.
pub record Progress (m₀ m : Repo) (id : Text) (s : State) : Type 0 where
  pub others : (j : Text) → text_eq id j ≡ false → lookup j m.records ≡ lookup j m₀.records
  pub same_current : m.current ≡ m₀.current
  pub held : (q : Record) → lookup id m.records ≡ some q → (q.state ≡ s) × (q.id ≡ id)
  pub way : Steps uploading s
  pub idle : s ≢ active

abbrev pub Uploaded : Repo → Text → Repo → Type 0
Uploaded m₀ id m = (s : State) × Progress m₀ m id s

put-Progress :
    (m₀ m : Repo) (id : Text) (s : State) (r : Record) (next : State)
    → Progress m₀ m id s
    → r.id ≡ id
    → r.state ≡ next
    → Steps uploading next
    → next ≢ active
    → Progress m₀ (record m { records = insert r.id r m.records }) id next
put-Progress m₀ m id s r next p i n way idle = record {
  others = λ j o. ground (arith, lookup-insert r.id j r m.records, p.others j);
  same_current = p.same_current;
  held = λ q e. ground (arith, lookup-insert r.id id r m.records, text_eq_iff r.id id);
  way = way;
  idle = idle;
}

-- Everything else runs from a repository and record of this kind.
abbrev At : Repo → Text → Repo → Record → Type 0
At m₀ id m r = Progress m₀ m id r.state × (r.id ≡ id)

advance_sound :
    (m : Repo) (r : Record) (next : State) (p : Repo × Record)
    → advance m r next ≡ ok p
    → (allowed r.state next ≡ true)
      × (p.0 ≡ record m { records = insert r.id (record r { state = next }) m.records })
      × (p.1 ≡ record r { state = next })
unfolding advance create
advance_sound m r next p e = (ground arith, ground arith, ground arith)

advance-At :
    (m₀ m : Repo) (id : Text) (r : Record) (next : State) (p : Repo × Record)
    → At m₀ id m r
    → next ≢ active
    → advance m r next ≡ ok p
    → At m₀ id p.0 p.1
advance-At m₀ m id r next p (g, i) idle e =
    let (a, e₀, e₁) = advance_sound m r next p e in
    rw (e₀, e₁)
      (
        put-Progress m₀ m id r.state (record r { state = next }) next g i refl (Steps-snoc g.way a)
            idle,
        i,
      )

reject-Uploaded :
    (m₀ m : Repo) (id : Text) (r : Record) → At m₀ id m r → Uploaded m₀ id (reject m r)
unfolding reject
reject-Uploaded m₀ m id r (g, i) = elim (Outcome-cases (advance m r rejected)) [
  | inl (x, e) ↦ rw (e, reject) (r.state, g)
  | inr (p, e) ↦ rw (e, reject) (p.1.state, (advance-At m₀ m id r rejected p (g, i) (λ x. cc) e).0)
]

fail-Uploaded :
    (m₀ m : Repo) (id : Text) (r : Record)
    → At m₀ id m r
    → allowed r.state failed ≡ true
    → Uploaded m₀ id (fail m r.id)
unfolding fail
fail-Uploaded m₀ m id r (g, i) a = elim (Option-cases (lookup r.id m.records)) [
  | inl e ↦ rw (e, fail) (r.state, g)
  | inr (q, e) ↦
      let q_id : q.id ≡ id = (g.held q (ground arith)).1 in
      rw (e, fail)
        (
          failed,
          subst
              (λ k.
                Progress m₀
                  (record m { records = insert k (record q { state = failed }) m.records }) id
                  failed)
              (q_id ∙ sym i)
              (put-Progress m₀ m id r.state (record q { state = failed }) failed g q_id refl
                (Steps-snoc g.way a) (λ x. cc)),
        )
]

upload_verified-Uploaded :
    (m₀ m : Repo) (id : Text) (r : Record) (hash : Text) (files : List File)
    → At m₀ id m r
    → Uploaded m₀ id (upload_verified m r hash files).0
unfolding upload_verified
upload_verified-Uploaded m₀ m id r hash files g =
    elim (Outcome-cases (advance m (record r { release_hash = hash; files = files }) verified)) [
      | inl (x, e) ↦ rw (e, upload_verified) (r.state, g.0)
      | inr (p, e) ↦
          rw (e, upload_verified) (p.1.state, (advance-At m₀ m id _ verified p g (λ x. cc) e).0)
    ]

if-Uploaded :
    (m₀ : Repo) (id : Text) (b : Bool) (x y : Repo × Outcome (Unit {0}))
    → Uploaded m₀ id x.0
    → Uploaded m₀ id y.0
    → Uploaded m₀ id (if b then x else y).0
if-Uploaded m₀ id true x y u v = u
if-Uploaded m₀ id false x y u v = v

upload_finalized-Uploaded :
    (m₀ m : Repo) (id : Text) (r : Record) (o : Option (Text × List File))
    → At m₀ id m r
    → r.state ≡ staged
    → Uploaded m₀ id (upload_finalized m r o).0
unfolding upload_finalized allowed
upload_finalized-Uploaded m₀ m id r none g st = fail-Uploaded m₀ m id r g (rw st refl)
upload_finalized-Uploaded m₀ m id r (some (hash, files)) g st =
    upload_verified-Uploaded m₀ m id r hash files g

upload_stage-Uploaded :
    (d : Disk) (m₀ m : Repo) (id : Text) (r : Record) (manifest : Manifest)
    → At m₀ id m r
    → Uploaded m₀ id (upload_stage d m r manifest).0
unfolding upload_stage
upload_stage-Uploaded d m₀ m id r manifest g =
    elim (Outcome-cases (advance m (record r { manifest = manifest }) staged)) [
      | inl (x, e) ↦ rw (e, upload_stage) (r.state, g.0)
      | inr (p, e) ↦
          rw (e, upload_stage)
            (upload_finalized-Uploaded m₀ p.0 id (record p.1 { staging = d.staging_dir })
              (d.finalize r.app_id) (advance-At m₀ m id _ staged p g (λ x. cc) e)
              (ground (arith, advance_sound m (record r { manifest = manifest }) staged p e)))
    ]

upload_validated-Uploaded :
    (d : Disk) (m₀ m : Repo) (id : Text) (r : Record) (o : Option Manifest)
    → At m₀ id m r
    → Uploaded m₀ id (upload_validated d m r o).0
unfolding upload_validated
upload_validated-Uploaded d m₀ m id r none g = reject-Uploaded m₀ m id r g
upload_validated-Uploaded d m₀ m id r (some manifest) g =
    upload_stage-Uploaded d m₀ m id r manifest g

upload_extracted-Uploaded :
    (d : Disk) (m₀ m : Repo) (id : Text) (r : Record) (o : Option Error)
    → At m₀ id m r
    → Uploaded m₀ id (upload_extracted d m r o).0
unfolding upload_extracted
upload_extracted-Uploaded d m₀ m id r (some e) g = reject-Uploaded m₀ m id r g
upload_extracted-Uploaded d m₀ m id r none g =
    upload_validated-Uploaded d m₀ m id r (d.validate r.app_slug) g

upload_open-Uploaded :
    (d : Disk) (m₀ m : Repo) (id : Text) (r : Record)
    → At m₀ id m r
    → Uploaded m₀ id (upload_open d m r).0
unfolding upload_open
upload_open-Uploaded d m₀ m id r g =
    if-Uploaded m₀ id (not d.open_file) (m, err disk) (upload_extracted d m r d.extract)
      (r.state, g.0) (upload_extracted-Uploaded d m₀ m id r d.extract g)

upload_store-Uploaded :
    (d : Disk) (m₀ m : Repo) (id : Text) (r : Record) (hash : Text)
    → At m₀ id m r
    → Uploaded m₀ id (upload_store d m r hash).0
unfolding upload_store
upload_store-Uploaded d m₀ m id r hash g =
    elim (Outcome-cases (advance m (record r { archive_hash = hash }) uploaded)) [
      | inl (x, e) ↦ rw (e, upload_store) (r.state, g.0)
      | inr (p, e) ↦
          let at : At m₀ id p.0 p.1 = advance-At m₀ m id _ uploaded p g (λ x. cc) e in
          elim (Outcome-cases (advance p.0 p.1 validating)) [
            | inl (x, f) ↦ rw (e, upload_store) (rw f (p.1.state, at.0))
            | inr (q, f) ↦
                rw (e, upload_store)
                  (rw f (
                    upload_open-Uploaded d m₀ q.0 id q.1
                      (advance-At m₀ p.0 id p.1 validating q at (λ x. cc) f)))
          ]
    ]

upload_copied-Uploaded :
    (d : Disk) (m₀ m : Repo) (id : Text) (r : Record) (o : Outcome Text)
    → At m₀ id m r
    → r.state ≡ uploading
    → Uploaded m₀ id (upload_copied d m r o).0
unfolding upload_copied allowed
upload_copied-Uploaded d m₀ m id r (err e) g st = elim (Bool-cases (is_unsafe e)) [
  | inl u ↦ rw u (reject-Uploaded m₀ m id r g)
  | inr u ↦ rw u (fail-Uploaded m₀ m id r g (rw st refl))
]
upload_copied-Uploaded d m₀ m id r (ok hash) g st =
    if-Uploaded m₀ id (not d.close_file) (m, err disk) (upload_store d m r hash) (r.state, g.0)
      (upload_store-Uploaded d m₀ m id r hash g)

start_At :
    (m : Repo) (id : Text) (r : Record)
    → IsConsistent m
    → get m id ≡ some r
    → r.state ≡ uploading
    → At m id m r
unfolding get
start_At m id r c f st = (
  record {
    others = λ j o. refl;
    same_current = refl;
    held = λ q e. ground (arith, c.ids id q);
    way = rw st (stay uploading);
    idle = λ a. cc;
  },
  (c.ids id r f).0,
)

upload_record-cases :
    (d : Disk) (m : Repo) (a : Actor) (content_type : Text) (r : Record)
    → ((upload_record d m a content_type r).0 ≡ m)
      ⊎ (upload_record d m a content_type r ≡ upload_copied d m r d.copy)
unfolding upload_record
upload_record-cases d m a content_type r = ground arith

-- In a consistent repository, an upload to a deployment in state `uploading`, however far its files
-- get and whoever asks, changes no other record and no current deployment; it leaves the
-- deployment's record in a state that the table of transitions reaches from `uploading`, and never
-- in `active`.
pub upload-Uploaded :
    (d : Disk) (m : Repo) (a : Actor) (id content_type : Text) (r : Record)
    → IsConsistent m
    → get m id ≡ some r
    → r.state ≡ uploading
    → Uploaded m id (upload d m a id content_type).0
unfolding upload
upload-Uploaded d m a id content_type r c f st =
    let g : At m id m r = start_At m id r c f st in
    rw (f, upload)
      (elim (upload_record-cases d m a content_type r) [
        | inl e ↦ rw e (r.state, g.0)
        | inr e ↦ rw e (upload_copied-Uploaded d m m id r d.copy g st)
      ])

-- An upload to anything else changes nothing.
upload_record_refused :
    (d : Disk) (m : Repo) (a : Actor) (content_type : Text) (r : Record)
    → is_uploading r.state ≡ false
    → (upload_record d m a content_type r).0 ≡ m
unfolding upload_record
upload_record_refused d m a content_type r n = ground arith

upload_missing :
    (d : Disk) (m : Repo) (a : Actor) (id content_type : Text)
    → get m id ≡ none
    → (upload d m a id content_type).0 ≡ m
unfolding upload
upload_missing d m a id content_type e = rw (e, upload)

upload_refused :
    (d : Disk) (m : Repo) (a : Actor) (id content_type : Text) (r : Record)
    → get m id ≡ some r
    → is_uploading r.state ≡ false
    → (upload d m a id content_type).0 ≡ m
unfolding upload
upload_refused d m a id content_type r e n =
    rw (e, upload) (upload_record_refused d m a content_type r n)

Progress-IsConsistent :
    (m₀ m : Repo) (id : Text) (s : State)
    → IsConsistent m₀
    → 0 < length id
    → IsInactive m₀ id
    → Progress m₀ m id s
    → IsConsistent m
Progress-IsConsistent m₀ m id s c n old p = record {
  ids = λ j q e. ground (arith, text_eq_iff id j, p.others j, p.held q, c.ids j q);
  current = λ app j e.
      let (q, f, a, w) = c.current app j (rw p.same_current at e) in
      (q, ground (arith, text_eq_iff id j, p.others j, old q), a, w);
  unique = λ j q e a.
      rw p.same_current
        (ground (arith, text_eq_iff id j, p.others j, p.held q, c.unique j q, p.idle));
}

is_uploading_sound : (s : State) → is_uploading s ≡ true → s ≡ uploading
is_uploading_sound s h = ground arith

-- An upload, whatever comes of it, keeps the repository consistent.
pub upload-IsConsistent :
    (d : Disk) (m : Repo) (a : Actor) (id content_type : Text)
    → IsConsistent m
    → IsConsistent (upload d m a id content_type).0
unfolding get
upload-IsConsistent d m a id content_type c = elim (Option-cases (get m id)) [
  | inl e ↦ rw (upload_missing d m a id content_type e) c
  | inr (r, e) ↦ elim (Bool-cases (is_uploading r.state)) [
    | inr n ↦ rw (upload_refused d m a id content_type r e n) c
    | inl y ↦
        let st : r.state ≡ uploading = is_uploading_sound r.state y in
        let (s, p) = upload-Uploaded d m a id content_type r c e st in
        Progress-IsConsistent m _ id s c (c.ids id r e).1 (λ q f x. ground arith) p
  ]
]
