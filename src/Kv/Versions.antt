-- ===== src/Kv/Versions.antt =====
-- internal/kv/kv.go: conditional writes.
use tinkercloud.Prelude.{
  ℕ, ◌≡◌, ◌≢◌, ◌↔◌, Bool, true, false, Option, none, some, ◌∷◌, arith, Text, text_eq_iff,
  text_eq_refl, if◌then◌else◌, inl, inr, Bool-cases,
}
use tinkercloud.Prelude.Map.{
  Map, lookup, insert, delete, lookup-insert, lookup-insert_self, lookup-delete,
}
use tinkercloud.Access.{Context}
use tinkercloud.Kv.Store.{
  Limits, Entry, Mutation, Outcome, ok, err, version_conflict, set_entry, delete_entry,
  next_version, conflicts,
}
use tinkercloud.Kv.Keys.{valid_key}
use tinkercloud.Kv.Rates.{allow}
use tinkercloud.Kv.{Service, app_of, entries_in, set, set_body, valid_value, with_budget}
use tinkercloud.Kv.Writes.{Outcome-cases}

-- What a successful write of `value` under `key` has met and has done.
pub record Stored (l : Limits) (now : ℕ) (m m' : Map Entry) (key value : Text) (expected : Option ℕ)
    (e : Entry) : Type 0 where
  pub expected_met : conflicts expected (lookup key m) ≡ false
  pub entry :
      e
      ≡ record { key = key; value = value; version = next_version (lookup key m); updated_at = now }
  pub stored : lookup key m' ≡ some e
  pub others : (k : Text) → key ≢ k → lookup k m' ≡ lookup k m

set_entry-Stored :
    (l : Limits) (now : ℕ) (m m' : Map Entry) (key value : Text) (expected : Option ℕ) (e : Entry)
    → set_entry l now m key value expected ≡ ok (m', e)
    → Stored l now m m' key value expected e
unfolding set_entry
set_entry-Stored l now m m' key value expected e h =
    let made : m' ≡ insert key e m = ground arith in
    record {
      expected_met = ground arith;
      entry = ground arith;
      stored = rw made (lookup-insert_self key e m);
      others = λ k n. rw made (ground (arith, lookup-insert key k e m, text_eq_iff key k));
    }

-- A conditional write that is refused for its version finds no entry, or one of another version.
pub set_entry-conflict :
    (l : Limits) (now : ℕ) (m : Map Entry) (key value : Text) (expected : Option ℕ)
    → (set_entry l now m key value expected ≡ err version_conflict)
      ↔ (conflicts expected (lookup key m) ≡ true)
unfolding set_entry
set_entry-conflict l now m key value expected = ground arith

deleted :
    (m m' : Map Entry) (key : Text) (expected : Option ℕ) (mutation : Mutation)
    → delete_entry m key expected ≡ ok (m', some mutation)
    → lookup key m' ≡ none
unfolding delete_entry
deleted m m' key expected mutation h =
    let made : m' ≡ delete key m = ground arith in
    rw made (ground (arith, lookup-delete key key m, text_eq_refl key))

-- An entry that is deleted and written again has the version of its first writing: a writer that
-- expects that version, from before the deletion, meets no conflict.
version_reused :
    (l : Limits) (m m₁ m₂ m₃ : Map Entry) (key first second third : Text) (t₁ t₂ t₃ : ℕ)
    (e₁ e₂ : Entry) (mutation : Mutation)
    → lookup key m ≡ none
    → set_entry l t₁ m key first none ≡ ok (m₁, e₁)
    → delete_entry m₁ key (some e₁.version) ≡ ok (m₂, some mutation)
    → set_entry l t₂ m₂ key second none ≡ ok (m₃, e₂)
    → (e₂.version ≡ e₁.version)
      × (set_entry l t₃ m₃ key third (some e₁.version) ≢ err version_conflict)
unfolding next_version
version_reused l m m₁ m₂ m₃ key first second third t₁ t₂ t₃ e₁ e₂ mutation free h₁ h₂ h₃ =
    let s₁ = set_entry-Stored l t₁ m m₁ key first none e₁ h₁ in
    let s₂ = set_entry-Stored l t₂ m₂ m₃ key second none e₂ h₃ in
    let gone : lookup key m₂ ≡ none = deleted m₁ m₂ key (some e₁.version) mutation h₂ in
    let same : e₂.version ≡ e₁.version = ground (arith, s₁.entry, s₂.entry, gone, free) in
    (
      same,
      λ c.
          ground
            (arith, (set_entry-conflict l t₃ m₃ key third (some e₁.version)).0 c, s₂.stored, same),
    )

-- A successful `Set` of the service: whose it is, what was asked of the input, and the write.
pub record Accepted (utf8 json : Text → Bool) (s s' : Service) (now : ℕ) (auth : Option Context)
    (key value : Text) (expected : Option ℕ) (e : Entry) : Type 0 where
  pub app : Text
  pub viewer : Text
  pub authorized : app_of auth ≡ ok (app, viewer)
  pub key_valid : valid_key utf8 key s.limits.key_bytes ≡ true
  pub value_valid : valid_value utf8 json value s.limits.value_bytes ≡ true
  pub in_budget : (allow s.limits now s.rates app viewer).1 ≡ true
  pub written :
      Stored s.limits now (entries_in app s.apps) (entries_in app s'.apps) key value expected e
  pub told : s'.published ≡ (
      if s.has_sink
      then (app, record { key = key; value = value; version = e.version; deleted = false })
        ∷ s.published
      else s.published)

entries_in-insert_self :
    (app : Text) (m : Map Entry) (apps : Map (Map Entry)) → entries_in app (insert app m apps) ≡ m
unfolding entries_in
entries_in-insert_self app m apps = rw lookup-insert_self

set_body-written :
    (now : ℕ) (app key value : Text) (expected : Option ℕ) (t s' : Service) (e : Entry)
    → set_body now app key value expected t ≡ (s', ok e)
    → Stored t.limits now (entries_in app t.apps) (entries_in app s'.apps) key value expected e
      × (s'.published ≡ (
          if t.has_sink
          then (app, record { key = key; value = value; version = e.version; deleted = false })
            ∷ t.published
          else t.published))
unfolding set_body
set_body-written now app key value expected t s' e h =
    elim (Outcome-cases (set_entry t.limits now (entries_in app t.apps) key value expected)) [
      | inl (x, f) ↦ absurd (ground (arith, f))
      | inr ((m, d), f) ↦
          let same : d ≡ e = ground (arith, f) in
          let apps : s'.apps ≡ insert app m t.apps = ground (arith, f) in
          (
            rw (apps, entries_in-insert_self)
                (set_entry-Stored t.limits now _ m key value expected e (rw same at f)),
            ground (arith, f, same),
          )
    ]

with_budget-ok :
    {A : Type 0} (s s' : Service) (now : ℕ) (app viewer : Text)
    (body : Service → Service × Outcome A) (a : A)
    → with_budget s now app viewer body ≡ (s', ok a)
    → ((allow s.limits now s.rates app viewer).1 ≡ true)
      × (body (record s { rates = (allow s.limits now s.rates app viewer).0 }) ≡ (s', ok a))
unfolding with_budget
with_budget-ok s s' now app viewer body a h =
    elim (Bool-cases (allow s.limits now s.rates app viewer).1) [
      | inl e ↦ (e, rw e at h)
      | inr e ↦ absurd (let g = rw e at h in ground (arith, g))
    ]

-- A successful `Set` comes from an app with the capability, with a valid key and value, within the
-- budget; it met the version it expects; it stores the value with the next version under that key
-- of that app, changes no other key of it, and tells the sink of just this write.
pub set-Accepted :
    (utf8 json : Text → Bool) (s s' : Service) (now : ℕ) (auth : Option Context) (key value : Text)
    (expected : Option ℕ) (e : Entry)
    → set utf8 json s now auth key value expected ≡ (s', ok e)
    → Accepted utf8 json s s' now auth key value expected e
unfolding set
set-Accepted utf8 json s s' now auth key value expected e h = elim (Outcome-cases (app_of auth)) [
  | inl (x, f) ↦ absurd (ground (arith, f))
  | inr ((app, viewer), f) ↦
      let body = set_body now app key value expected in
      let g : with_budget s now app viewer body ≡ (s', ok e) = ground (arith, f) in
      let (budget, made) = with_budget-ok s s' now app viewer body e g in
      let (written, told) =
        set_body-written now app key value expected
          (record s { rates = (allow s.limits now s.rates app viewer).0 }) s' e made in
      record {
        app = app;
        viewer = viewer;
        authorized = f;
        key_valid = ground (arith, f);
        value_valid = ground (arith, f);
        in_budget = budget;
        written = written;
        told = told;
      }
]
