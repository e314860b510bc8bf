-- ===== src/Kv/Tables.antt =====
-- internal/persistence/kv.go: the table `app_kv` of one app's database. A table is its rows under
-- their keys. The write gate lets the writes pass and the database answers; a time is its number of
-- nanoseconds.
use tinkercloud.Prelude.{
  ℕ, zero, suc, ◌+◌, ◌-◌, ◌%◌, ◌^◌, Bool, true, false, not, ◌&&◌, ◌||◌, Option, none, some, List,
  [], ◌∷◌, Text, text_eq, length, ltb, leb, ◌==◌, if◌then◌else◌,
}
use tinkercloud.Prelude.Map.{Map, lookup, insert, delete}
use tinkercloud.Kv.Store.{
  Limits, Error, version_conflict, quota_exceeded, Entry, Mutation, ListResult, text_lt, sort_texts,
  page_keys, entries_of,
}

pub record Row : Type 0 where
  pub value : Text
  pub version : ℕ
  pub size : ℕ
  pub created_at : ℕ
  pub updated_at : ℕ

abbrev pub entry_of : Text → Row → Entry
entry_of key r = record {
  key = key;
  value = r.value;
  version = r.version;
  updated_at = r.updated_at;
}

-- The rows as the entries that they are scanned into.
unfoldable pub entries_in : Map Row → Map Entry
entries_in [] = []
entries_in ((k, r) ∷ t) = (k, entry_of k r) ∷ entries_in t

-- `SUM(size_bytes)`.
unfoldable pub sum_sizes : Map Row → ℕ
sum_sizes [] = 0
sum_sizes ((k, r) ∷ t) = r.size + sum_sizes t

-- `KVRepository.Get`.
unfoldable pub get_row : Map Row → Text → Option Entry
unfolding lookup
get_row t key = elim (lookup key t) [ none ↦ none | some r ↦ some (entry_of key r) ]

abbrev pub old_version : Option Row → ℕ
old_version none = 0
old_version (some r) = r.version

abbrev pub old_size : Option Row → ℕ
old_size none = 0
old_size (some r) = r.size

abbrev pub is_missing : Option Row → Bool
is_missing none = true
is_missing (some r) = false

-- `ON CONFLICT(key) DO UPDATE` keeps the time of creation.
abbrev pub created_or : ℕ → Option Row → ℕ
created_or now none = now
created_or now (some r) = r.created_at

-- `expected != nil && (missing || old != *expected)`.
abbrev pub unexpected : Option ℕ → Option Row → Bool
unexpected none old = false
unexpected (some v) old = is_missing old || not (old_version old == v)

-- The next version as a `uint64`.
abbrev pub version_after : Option Row → ℕ
version_after old = (old_version old + 1) % 2 ^ 64

-- What the `INSERT` refuses: a `uint64` with its high bit set is no parameter of a statement, and
-- the column has CHECK(version>0).
abbrev pub unstorable : ℕ → Bool
unstorable version = leb (2 ^ 63) version || version == 0

abbrev pub written_row : ℕ → Option Row → Text → Row
written_row now old value = record {
  value = value;
  version = version_after old;
  size = length value;
  created_at = created_or now old;
  updated_at = now;
}

abbrev pub exceeds_quota : Limits → Map Row → Option Row → Text → Bool
exceeds_quota l t old value =
    (is_missing old && leb l.keys_per_app (length t))
    || ltb l.total_bytes_per_app (sum_sizes t - old_size old + length value)

-- An error of the service, or one of the database.
pub data TableError : Type 0 where
  service : Error → TableError
  database : TableError

pub data TableOutcome {ℓ} (A : Type ℓ) : Type ℓ where
  done : A → TableOutcome A
  refused : TableError → TableOutcome A

-- `KVRepository.Set`.
unfoldable pub set_row :
    Limits → ℕ → Map Row → Text → Text → Option ℕ → TableOutcome (Map Row × Entry)
unfolding lookup insert sum_sizes
set_row l now t key value expected =
    let old = lookup key t in
    if unexpected expected old
    then refused (service version_conflict)
    else if exceeds_quota l t old value
    then refused (service quota_exceeded)
    else if unstorable (version_after old)
    then refused database
    else done (insert key (written_row now old value) t, entry_of key (written_row now old value))

-- `KVRepository.Delete`; no mutation where nothing was there.
unfoldable pub delete_row : Map Row → Text → Option ℕ → TableOutcome (Map Row × Option Mutation)
unfolding lookup delete
delete_row t key expected = elim (lookup key t) [
  | none ↦ elim expected [ none ↦ done (t, none) | some v ↦ refused (service version_conflict) ]
  | some r ↦
      if unexpected expected (some r)
      then refused (service version_conflict)
      else done (
        delete key t,
        some (record { key = key; value = []; version = (r.version + 1) % 2 ^ 64; deleted = true }),
      )
]

abbrev pub is_continuation : ℕ → Bool
is_continuation c = leb 128 c && ltb c 192

-- `substr` from the first character, which counts characters: a byte of 192 and above takes the
-- continuation bytes behind it along. `within` tells that such a byte stands before. A text ends at
-- NUL.
unfoldable pub first_chars : Bool → ℕ → Text → Text
first_chars within n [] = []
first_chars within zero (c ∷ s) =
    let rest = first_chars within zero s in if within && is_continuation c then c ∷ rest else []
first_chars within (suc n) (c ∷ s) =
    let more = first_chars within (suc n) s in
    let next = first_chars (leb 192 c) n s in
    if c == 0 then [] else if within && is_continuation c then c ∷ more else c ∷ next

-- `substr(key,1,?)=?` with the number of bytes of the prefix.
unfoldable pub has_prefix_chars : Text → Text → Bool
unfolding first_chars text_eq
has_prefix_chars key prefix = text_eq (first_chars false (length prefix) key) prefix

-- The keys that the `SELECT` of a page finds.
unfoldable pub keys_found : Text → Text → Map Row → List Text
unfolding has_prefix_chars text_lt
keys_found prefix cursor [] = []
keys_found prefix cursor ((k, r) ∷ t) =
    let rest = keys_found prefix cursor t in
    if has_prefix_chars k prefix && text_lt cursor k then k ∷ rest else rest

-- `LIMIT`.
unfoldable pub first_keys : ℕ → List Text → List Text
first_keys zero ks = []
first_keys (suc n) [] = []
first_keys (suc n) (k ∷ ks) = k ∷ first_keys n ks

-- `KVRepository.List`.
unfoldable pub list_rows : Map Row → Text → Text → ℕ → ListResult
unfolding keys_found first_keys sort_texts page_keys entries_of entries_in
list_rows t prefix cursor limit =
    let found = first_keys (limit + 1) (sort_texts (keys_found prefix cursor t)) in
    let page = page_keys limit [] found in
    record { entries = entries_of page.0 (entries_in t); next_cursor = page.1 }
