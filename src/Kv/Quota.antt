-- ===== src/Kv/Quota.antt =====
-- internal/kv/kv.go: what holds of the entries of every app after any sequence of operations.
use tinkercloud.Prelude.{
  ℕ, ◌+◌, ◌≤◌, ◌≡◌, Bool, Option, some, [], ◌∷◌, arith, Text, text_eq, text_eq_iff, length,
  if◌then◌else◌, Bool-cases, inl, inr,
}
use tinkercloud.Prelude.Map.{
  Map, lookup, insert, delete, IsDistinct, lookup-insert, lookup-delete, length-insert,
  insert-IsDistinct, delete-IsDistinct,
}
use tinkercloud.Access.{Context}
use tinkercloud.Kv.Store.{
  Limits, Entry, Mutation, ok, set_entry, delete_entry, total_bytes, bytes_or_zero,
}
use tinkercloud.Kv.{Service, app_of, entries_in, new}
use tinkercloud.Kv.Writes.{
  Op, run, Writes, unchanged, touched, wrote, erased, run-Kept, run_refused, Outcome-cases,
}

-- The entries of an app within the limits of the service, each under its own key.
pub record IsWithin (l : Limits) (m : Map Entry) : Type 0 where
  pub distinct : IsDistinct m
  pub keys : length m ≤ l.keys_per_app
  pub bytes : total_bytes m ≤ l.total_bytes_per_app
  pub named : (k : Text) (e : Entry) → lookup k m ≡ some e → e.key ≡ k

total_bytes-insert :
    (k : Text) (e : Entry) (m : Map Entry)
    → total_bytes (insert k e m) + bytes_or_zero (lookup k m) ≡ total_bytes m + length e.value
unfolding total_bytes insert lookup
total_bytes-insert k e [] = omega arith
total_bytes-insert k e ((j, d) ∷ m) = ground (arith, total_bytes-insert k e m)

bytes_or_zero-le : (k : Text) (m : Map Entry) → bytes_or_zero (lookup k m) ≤ total_bytes m
unfolding total_bytes lookup
bytes_or_zero-le k [] = omega arith
bytes_or_zero-le k ((j, d) ∷ m) = ground (arith, bytes_or_zero-le k m)

total_bytes-delete : (k : Text) (m : Map Entry) → total_bytes (delete k m) ≤ total_bytes m
unfolding total_bytes delete
total_bytes-delete k [] = omega arith
total_bytes-delete k ((j, d) ∷ m) = ground (arith, total_bytes-delete k m)

length-delete : (k : Text) (m : Map Entry) → length (delete k m) ≤ length m
unfolding delete
length-delete k [] = omega arith
length-delete k ((j, d) ∷ m) = ground (arith, length-delete k m)

set_entry-IsWithin :
    (l : Limits) (now : ℕ) (m m' : Map Entry) (key value : Text) (expected : Option ℕ) (e : Entry)
    → IsWithin l m
    → set_entry l now m key value expected ≡ ok (m', e)
    → IsWithin l m'
unfolding set_entry
set_entry-IsWithin l now m m' key value expected e w h =
    let made : (m' ≡ insert key e m) × (e.key ≡ key) × (e.value ≡ value) = ground arith in
    rw made.0 (record {
      distinct = insert-IsDistinct key e m w.distinct;
      keys = ground (arith, w.keys, length-insert key e m);
      bytes = ground (arith, w.bytes, total_bytes-insert key e m, bytes_or_zero-le key m);
      named = λ k d f. ground (arith, lookup-insert key k e m, w.named k d, text_eq_iff key k);
    })

delete_entry-IsWithin :
    (l : Limits) (m m' : Map Entry) (key : Text) (expected : Option ℕ) (mutation : Mutation)
    → IsWithin l m
    → delete_entry m key expected ≡ ok (m', some mutation)
    → IsWithin l m'
unfolding delete_entry
delete_entry-IsWithin l m m' key expected mutation w h =
    let made : m' ≡ delete key m = ground arith in
    rw made (record {
      distinct = delete-IsDistinct key m w.distinct;
      keys = omega (arith, w.keys, length-delete key m);
      bytes = omega (arith, w.bytes, total_bytes-delete key m);
      named = λ k d f. ground (arith, lookup-delete key k m, w.named k d);
    })

-- The entries of every app are within the limits.
pub record IsBounded (s : Service) : Type 0 where
  pub each : (app : Text) → IsWithin s.limits (entries_in app s.apps)

empty-IsWithin : (l : Limits) → IsWithin l []
unfolding total_bytes lookup
empty-IsWithin l = record {
  distinct = tt;
  keys = omega arith;
  bytes = omega arith;
  named = λ k e h. cc;
}

entries_in-insert :
    (app other : Text) (m : Map Entry) (apps : Map (Map Entry))
    → entries_in other (insert app m apps)
      ≡ (if text_eq app other then m else entries_in other apps)
unfolding entries_in
entries_in-insert app other m apps = ground (arith, lookup-insert app other m apps)

insert-each :
    (s : Service) (app : Text) (m : Map Entry)
    → IsBounded s
    → IsWithin s.limits m
    → (other : Text) → IsWithin s.limits (entries_in other (insert app m s.apps))
insert-each s app m b w other = elim (Bool-cases (text_eq app other)) [
  | inl same ↦ rw entries_in-insert (rw same w)
  | inr apart ↦ rw entries_in-insert (rw apart (b.each other))
]

Writes-each :
    (s : Service) (app : Text) (apps : Map (Map Entry))
    → IsBounded s
    → Writes s app apps
    → (other : Text) → IsWithin s.limits (entries_in other apps)
Writes-each s app apps b (unchanged e) other = rw e (b.each other)
Writes-each s app apps b (touched e) other = rw e (insert-each s app _ b (b.each app) other)
Writes-each s app apps b (wrote now key value expected m d h e) other = rw e (
    insert-each s app m b (set_entry-IsWithin s.limits now _ m key value expected d (b.each app) h)
      other)
Writes-each s app apps b (erased key expected m mutation h e) other = rw e (
    insert-each s app m b (delete_entry-IsWithin s.limits _ m key expected mutation (b.each app) h)
      other)

pub run-IsBounded :
    (utf8 json : Text → Bool) (s : Service) (now : ℕ) (auth : Option Context) (op : Op)
    → IsBounded s
    → IsBounded (run utf8 json s now auth op)
run-IsBounded utf8 json s now auth op b = elim (Outcome-cases (app_of auth)) [
  | inl (x, e) ↦ rw (run_refused utf8 json s now auth op e) b
  | inr ((app, viewer), e) ↦
      let k = run-Kept utf8 json s now auth app viewer e op in
      record { each = λ other. rw k.limits (Writes-each s app _ b k.entries other) }
]

-- The services that `New` and any sequence of requests at any times lead to.
pub data Reach (utf8 json : Text → Bool) (l : Limits) (sink : Bool) : Service → Type 0 where
  start : Reach utf8 json l sink (new l sink)
  next :
      {s : Service} (now : ℕ) (auth : Option Context) (op : Op)
      → Reach utf8 json l sink s
      → Reach utf8 json l sink (run utf8 json s now auth op)

-- In every service that `New` and any sequence of requests lead to, no app has more keys or more
-- bytes of values than the limits of the service, no key stands twice, and each entry is stored
-- under the key that it names.
pub Reach-IsBounded :
    {utf8 json : Text → Bool} {l : Limits} {sink : Bool} {s : Service}
    → Reach utf8 json l sink s
    → IsBounded s
unfolding new entries_in lookup
Reach-IsBounded {l = l} start = record { each = λ app. empty-IsWithin _ }
Reach-IsBounded (next {s} now auth op r) = run-IsBounded _ _ s now auth op (Reach-IsBounded r)
