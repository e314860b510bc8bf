-- ===== src/Kv/Backends.antt =====
-- internal/persistence/kv.go and internal/kv/kv.go: the two repositories answer alike.
use tinkercloud.Prelude.{
  ◌≡◌, refl, sym, ap, ◌<◌, ◌+◌, ◌^◌, ℕ, zero, suc, false, Option, none, some, List, [], ◌∷◌, Text,
  text_eq, length, leb, ◌==◌, All, arith, if_cases, option_cases, text_eq_iff, Option-cases, inl,
  inr, Bool-cases,
}
use tinkercloud.Prelude.Map.{Map, lookup, insert, delete, has_key}
use tinkercloud.Prelude.Strings.{has_prefix}
use tinkercloud.Kv.Store.{
  Limits, Outcome, ok, err, Error, unavailable, Entry, Mutation, ListResult, sort_texts, page_keys,
  keys_after, list_entries, set_entry, delete_entry, total_bytes, next_version,
}
use tinkercloud.Kv.Tables.{
  Row, entry_of, entries_in, sum_sizes, get_row, set_row, delete_row, written_row, exceeds_quota,
  unexpected, version_after, unstorable, service, database, TableOutcome, done, refused,
  first_chars, has_prefix_chars, keys_found, first_keys, list_rows,
}

-- A call of a repository.
pub data Call : Type 0 where
  gets : (key : Text) → Call
  sets : (now : ℕ) → (key value : Text) → (expected : Option ℕ) → Call
  deletes : (key : Text) → (expected : Option ℕ) → Call
  lists : (prefix cursor : Text) → (limit : ℕ) → Call

pub data Answer : Type 0 where
  found : Option Entry → Answer
  stored : Entry → Answer
  removed : Option Mutation → Answer
  listed : ListResult → Answer
  denied : Error → Answer
  broken : Answer

module _ {A T : Type 0} where
  abbrev pub state_or : T → Outcome (T × A) → T
  state_or t (ok r) = r.0
  state_or t (err e) = t

  abbrev pub answer_of : (A → Answer) → Outcome (T × A) → Answer
  answer_of f (ok r) = f r.1
  answer_of f (err e) = denied e

  abbrev pub table_or : T → TableOutcome (T × A) → T
  table_or t (done r) = r.0
  table_or t (refused e) = t

  abbrev pub answer_of_table : (A → Answer) → TableOutcome (T × A) → Answer
  answer_of_table f (done r) = f r.1
  answer_of_table f (refused (service e)) = denied e
  answer_of_table f (refused database) = broken

unfoldable pub call_table : Limits → Map Row → Call → Map Row × Answer
unfolding get_row set_row delete_row list_rows
call_table l t (gets key) = (t, found (get_row t key))
call_table l t (sets now key value expected) =
    let r = set_row l now t key value expected in (table_or t r, answer_of_table stored r)
call_table l t (deletes key expected) =
    let r = delete_row t key expected in (table_or t r, answer_of_table removed r)
call_table l t (lists prefix cursor limit) = (t, listed (list_rows t prefix cursor limit))

unfoldable pub call_memory : Limits → Map Entry → Call → Map Entry × Answer
unfolding lookup set_entry delete_entry list_entries
call_memory l m (gets key) = (m, found (lookup key m))
call_memory l m (sets now key value expected) =
    let r = set_entry l now m key value expected in (state_or m r, answer_of stored r)
call_memory l m (deletes key expected) =
    let r = delete_entry m key expected in (state_or m r, answer_of removed r)
call_memory l m (lists prefix cursor limit) = (m, listed (list_entries m prefix cursor limit))

-- The answers to some calls, one after another.
unfoldable pub answers_table : Limits → Map Row → List Call → List Answer
unfolding call_table
answers_table l t [] = []
answers_table l t (c ∷ cs) = (call_table l t c).1 ∷ answers_table l (call_table l t c).0 cs

unfoldable pub answers_memory : Limits → Map Entry → List Call → List Answer
unfolding call_memory
answers_memory l m [] = []
answers_memory l m (c ∷ cs) = (call_memory l m c).1 ∷ answers_memory l (call_memory l m c).0 cs

-- The size that a row records is that of its value, and its version leaves room for `n` more
-- writes below the bound of the column.
abbrev pub AreStored : ℕ → Map Row → Type 0
AreStored n t = All (λ e. (e.1.size ≡ length e.1.value) × (e.1.version + n < 2 ^ 63)) t

-- A listing is of at least one entry, under a prefix in ASCII without NUL.
abbrev pub IsPlain : Call → Type 0
IsPlain (lists prefix cursor limit) = All (λ c. (0 < c) × (c < 128)) prefix × (0 < limit)
IsPlain (gets key) = Unit
IsPlain (sets now key value expected) = Unit
IsPlain (deletes key expected) = Unit

abbrev entry_option : Text → Option Row → Option Entry
entry_option key none = none
entry_option key (some r) = some (entry_of key r)

lookup-entries_in :
    (key : Text) (t : Map Row) → lookup key (entries_in t) ≡ entry_option key (lookup key t)
unfolding lookup entries_in
lookup-entries_in key [] = refl
lookup-entries_in key ((k, r) ∷ t) = ground (arith, text_eq_iff k key, lookup-entries_in key t)

length-entries_in : (t : Map Row) → length (entries_in t) ≡ length t
unfolding entries_in
length-entries_in [] = refl
length-entries_in ((k, r) ∷ t) = ground (arith, length-entries_in t)

total_bytes-entries_in :
    (n : ℕ) (t : Map Row) → AreStored n t → total_bytes (entries_in t) ≡ sum_sizes t
unfolding entries_in total_bytes sum_sizes
total_bytes-entries_in n [] h = refl
total_bytes-entries_in n ((k, r) ∷ t) h = ground (arith, h.0.0, total_bytes-entries_in n t h.1)

insert-entries_in :
    (key : Text) (r : Row) (t : Map Row)
    → entries_in (insert key r t) ≡ insert key (entry_of key r) (entries_in t)
unfolding entries_in insert
insert-entries_in key r [] = refl
insert-entries_in key r ((k, v) ∷ t) = ground (arith, insert-entries_in key r t)

delete-entries_in :
    (key : Text) (t : Map Row) → entries_in (delete key t) ≡ delete key (entries_in t)
unfolding entries_in delete
delete-entries_in key [] = refl
delete-entries_in key ((k, v) ∷ t) = ground (arith, delete-entries_in key t)

-- The outcome with the rows as entries. Nothing corresponds to an error of the database.
abbrev as_entries : {A : Type 0} → TableOutcome (Map Row × A) → Outcome (Map Entry × A)
as_entries (done r) = ok (entries_in r.0, r.1)
as_entries (refused (service e)) = err e
as_entries (refused database) = err unavailable

-- An outcome that is no error of the database.
abbrev IsAnswered : {A : Type 0} → TableOutcome A → Type 0
IsAnswered (done r) = Unit
IsAnswered (refused (service e)) = Unit
IsAnswered (refused database) = ⊥

lookup-AreStored :
    (n : ℕ) (key : Text) (t : Map Row) (r : Row)
    → AreStored n t
    → lookup key t ≡ some r
    → (r.size ≡ length r.value) × (r.version + n < 2 ^ 63)
unfolding lookup
lookup-AreStored n key [] r h e = absurd (ground (arith, e))
lookup-AreStored n key ((k, v) ∷ t) r h e =
    ground (arith, e, h.0.0, h.0.1, lookup-AreStored n key t r h.1)

-- The next version is no more than one further, and can be stored.
version_after-room :
    (n : ℕ) (key : Text) (t : Map Row)
    → suc n < 2 ^ 63
    → AreStored (suc n) t
    → (version_after (lookup key t) + n < 2 ^ 63)
      × (unstorable (version_after (lookup key t)) ≡ false)
version_after-room n key t room h = elim (Option-cases (lookup key t)) [
  | inl e ↦ rw e (ground (arith, room))
  | inr (r, e) ↦ rw e (ground (arith, (lookup-AreStored (suc n) key t r h e).1))
]

set_row-set_entry :
    (n : ℕ) (l : Limits) (now : ℕ) (t : Map Row) (key value : Text) (expected : Option ℕ)
    → suc n < 2 ^ 63
    → AreStored (suc n) t
    → as_entries (set_row l now t key value expected)
      ≡ set_entry l now (entries_in t) key value expected
unfolding set_row set_entry has_key next_version
set_row-set_entry n l now t key value expected room h =
    let u = (version_after-room n key t room h).1 in
    elim (Option-cases (lookup key t)) [
      | inl e ↦
          rw (lookup-entries_in key t, e, length-entries_in t, total_bytes-entries_in (suc n) t h)
            (ground
              (arith, insert-entries_in key (written_row now none value) t, Option-cases expected))
      | inr (r, e) ↦
          rw (lookup-entries_in key t, e, total_bytes-entries_in (suc n) t h)
            (ground (
              arith,
              lookup-AreStored (suc n) key t r h e,
              insert-entries_in key (written_row now (some r) value) t,
              Option-cases expected,
            ))
    ]

set_row-IsAnswered :
    (n : ℕ) (l : Limits) (now : ℕ) (t : Map Row) (key value : Text) (expected : Option ℕ)
    → suc n < 2 ^ 63
    → AreStored (suc n) t
    → IsAnswered (set_row l now t key value expected)
unfolding set_row
set_row-IsAnswered n l now t key value expected room h =
    if_cases IsAnswered (unexpected expected (lookup key t)) (λ _. tt)
      (λ _.
        if_cases IsAnswered (exceeds_quota l t (lookup key t) value) (λ _. tt)
          (λ _. rw (version_after-room n key t room h).1 tt))

delete_row-delete_entry :
    (t : Map Row) (key : Text) (expected : Option ℕ)
    → as_entries (delete_row t key expected) ≡ delete_entry (entries_in t) key expected
unfolding delete_row delete_entry next_version
delete_row-delete_entry t key expected = elim (Option-cases (lookup key t)) [
  | inl e ↦ ground (arith, e, lookup-entries_in key t)
  | inr r ↦ ground (arith, r.1, lookup-entries_in key t, delete-entries_in key t)
]

delete_row-IsAnswered :
    (t : Map Row) (key : Text) (expected : Option ℕ) → IsAnswered (delete_row t key expected)
unfolding delete_row
delete_row-IsAnswered t key expected =
    option_cases IsAnswered (lookup key t)
      (λ _. option_cases IsAnswered expected (λ _. tt) (λ _ _. tt))
      (λ r _. if_cases IsAnswered (unexpected expected (some r)) (λ _. tt) (λ _. tt))

-- Of a prefix in ASCII without NUL, the first characters are the first bytes.
first_chars-has_prefix :
    (key prefix : Text)
    → All (λ c. (0 < c) × (c < 128)) prefix
    → text_eq (first_chars false (length prefix) key) prefix ≡ has_prefix key prefix
unfolding first_chars has_prefix text_eq
first_chars-has_prefix [] [] h = refl
first_chars-has_prefix (c ∷ s) [] h = refl
first_chars-has_prefix [] (p ∷ ps) h = refl
first_chars-has_prefix (c ∷ s) (p ∷ ps) h = elim (Bool-cases (c == p)) [
  | inr e ↦ ground (arith, e)
  | inl e ↦
      let low : leb 192 c ≡ false = ground (arith, e, h.0.1) in
      let some_byte : (c == 0) ≡ false = ground (arith, e, h.0.0) in
      rw (low, some_byte, e) (first_chars-has_prefix s ps h.1)
]

keys_found-keys_after :
    (prefix cursor : Text) (t : Map Row)
    → All (λ c. (0 < c) × (c < 128)) prefix
    → keys_found prefix cursor t ≡ keys_after prefix cursor (entries_in t)
unfolding keys_found keys_after entries_in has_prefix_chars
keys_found-keys_after prefix cursor [] h = refl
keys_found-keys_after prefix cursor ((k, r) ∷ t) h =
    ground (arith, first_chars-has_prefix k prefix h, keys_found-keys_after prefix cursor t h)

page_keys-first_keys :
    (n : ℕ) (last : Text) (ks : List Text)
    → page_keys n last (first_keys (suc n) ks) ≡ page_keys n last ks
unfolding page_keys first_keys
page_keys-first_keys n last [] = refl
page_keys-first_keys zero last (k ∷ ks) = refl
page_keys-first_keys (suc n) last (k ∷ ks) = ground (arith, page_keys-first_keys n k ks)

list_rows-list_entries :
    (t : Map Row) (prefix cursor : Text) (limit : ℕ)
    → All (λ c. (0 < c) × (c < 128)) prefix
    → list_rows t prefix cursor limit ≡ list_entries (entries_in t) prefix cursor limit
unfolding list_rows list_entries
list_rows-list_entries t prefix cursor limit h = rw (keys_found-keys_after prefix cursor t h) (
    ground
      (arith, page_keys-first_keys limit [] (sort_texts (keys_after prefix cursor (entries_in t)))))

insert-AreStored :
    (n : ℕ) (key : Text) (r : Row) (t : Map Row)
    → r.size ≡ length r.value
    → r.version + n < 2 ^ 63
    → AreStored n t
    → AreStored n (insert key r t)
unfolding insert
insert-AreStored n key r [] s v h = ((s, v), tt)
insert-AreStored n key r ((k, w) ∷ t) s v h =
    if_cases (AreStored n) (text_eq k key) (λ _. ((s, v), h.1))
      (λ _. (h.0, insert-AreStored n key r t s v h.1))

delete-AreStored : (n : ℕ) (key : Text) (t : Map Row) → AreStored n t → AreStored n (delete key t)
unfolding delete
delete-AreStored n key [] h = tt
delete-AreStored n key ((k, v) ∷ t) h =
    if_cases (AreStored n) (text_eq k key) (λ _. delete-AreStored n key t h.1)
      (λ _. (h.0, delete-AreStored n key t h.1))

AreStored-suc : (n : ℕ) (t : Map Row) → AreStored (suc n) t → AreStored n t
AreStored-suc n [] h = tt
AreStored-suc n ((k, r) ∷ t) h = ((h.0.0, omega (arith, h.0.1)), AreStored-suc n t h.1)

call_table-AreStored :
    (n : ℕ) (l : Limits) (t : Map Row) (c : Call)
    → suc n < 2 ^ 63
    → AreStored (suc n) t
    → AreStored n (call_table l t c).0
unfolding call_table set_row delete_row
call_table-AreStored n l t (gets key) room h = AreStored-suc n t h
call_table-AreStored n l t (sets now key value expected) room h =
    let k = AreStored-suc n t h in
    if_cases P (unexpected expected (lookup key t)) (λ _. k)
      (λ _.
        if_cases P (exceeds_quota l t (lookup key t) value) (λ _. k)
          (λ _.
            if_cases P (unstorable (version_after (lookup key t))) (λ _. k)
              (λ _.
                insert-AreStored n key (written_row now (lookup key t) value) t refl
                  (version_after-room n key t room h).0 k)))
  where
    P : TableOutcome (Map Row × Entry) → Type 0
    P r = AreStored n (table_or t r)
call_table-AreStored n l t (deletes key expected) room h =
    let k = AreStored-suc n t h in
    option_cases P (lookup key t) (λ _. option_cases P expected (λ _. k) (λ _ _. k))
      (λ r _. if_cases P (unexpected expected (some r)) (λ _. k) (λ _. delete-AreStored n key t k))
  where
    P : TableOutcome (Map Row × Option Mutation) → Type 0
    P r = AreStored n (table_or t r)
call_table-AreStored n l t (lists prefix cursor limit) room h = AreStored-suc n t h

get_row-lookup : (t : Map Row) (key : Text) → lookup key (entries_in t) ≡ get_row t key
unfolding get_row
get_row-lookup t key = ground (arith, lookup-entries_in key t, Option-cases (lookup key t))

-- An outcome that is no error of the database is the same in both.
as_entries-answers :
    {A : Type 0} (f : A → Answer) (t : Map Row) (r : TableOutcome (Map Row × A))
    → IsAnswered r
    → (state_or (entries_in t) (as_entries r) ≡ entries_in (table_or t r))
      × (answer_of f (as_entries r) ≡ answer_of_table f r)
as_entries-answers f t (done r) h = (refl, refl)
as_entries-answers f t (refused (service e)) h = (refl, refl)
as_entries-answers f t (refused database) h = absurd h

call_table-call_memory :
    (n : ℕ) (l : Limits) (t : Map Row) (c : Call)
    → suc n < 2 ^ 63
    → AreStored (suc n) t
    → IsPlain c
    → ((call_memory l (entries_in t) c).0 ≡ entries_in (call_table l t c).0)
      × ((call_memory l (entries_in t) c).1 ≡ (call_table l t c).1)
unfolding call_table call_memory
call_table-call_memory n l t (gets key) room h p = (refl, ap found (get_row-lookup t key))
call_table-call_memory n l t (sets now key value expected) room h p =
    rw (sym (set_row-set_entry n l now t key value expected room h)) (
      as_entries-answers stored t (set_row l now t key value expected)
        (set_row-IsAnswered n l now t key value expected room h))
call_table-call_memory n l t (deletes key expected) room h p =
    rw (sym (delete_row-delete_entry t key expected)) (
      as_entries-answers removed t (delete_row t key expected)
        (delete_row-IsAnswered t key expected))
call_table-call_memory n l t (lists prefix cursor limit) room h p =
    (refl, ap listed (sym (list_rows-list_entries t prefix cursor limit p.0)))

-- From a table whose rows record the sizes of their values, with fewer calls than the versions need
-- to reach 2 ^ 63, and where listings are of at least one entry under prefixes in ASCII without NUL,
-- the database answers every sequence of reads, writes, deletions and listings as the map in memory
-- does; in particular it reports no error of its own.
pub answers_table-answers_memory :
    (l : Limits) (t : Map Row) (cs : List Call)
    → length cs < 2 ^ 63
    → AreStored (length cs) t
    → All IsPlain cs
    → answers_table l t cs ≡ answers_memory l (entries_in t) cs
unfolding answers_table answers_memory
answers_table-answers_memory l t [] room h p = refl
answers_table-answers_memory l t (c ∷ cs) room h p =
    let n = length cs in
    let s = call_table-call_memory n l t c room h p.0 in
    rw (s.0, s.1)
      (ap (λ rest. (call_table l t c).1 ∷ rest)
        (answers_table-answers_memory l (call_table l t c).0 cs (omega (arith, room))
          (call_table-AreStored n l t c room h) p.1))
