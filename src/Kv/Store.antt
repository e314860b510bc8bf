-- ===== src/Kv/Store.antt =====
-- internal/kv/kv.go: the entries of one app, and what `memoryRepo` does with them. A value is its
-- bytes, so that the clones of the source are the value itself.
use tinkercloud.Prelude.{
  ℕ, zero, suc, ◌+◌, ◌-◌, ◌%◌, ◌^◌, Bool, true, false, not, ◌&&◌, Option, none, some, List, [], ◌∷◌,
  Text, length, ltb, leb, ◌==◌, if◌then◌else◌,
}
use tinkercloud.Prelude.Map.{Map, lookup, insert, delete, has_key}
use tinkercloud.Prelude.Strings.{has_prefix}

-- Go's `int` limits, none of them negative.
pub record Limits : Type 0 where
  pub key_bytes : ℕ
  pub value_bytes : ℕ
  pub keys_per_app : ℕ
  pub total_bytes_per_app : ℕ
  pub list_limit : ℕ
  pub request_window : ℕ
  pub requests_per_window : ℕ
  pub viewer_requests_per_window : ℕ
  pub app_requests_per_window : ℕ
  pub global_requests_per_window : ℕ
  pub max_rate_scopes : ℕ

pub data Error : Type 0 where
  invalid_key invalid_value version_conflict quota_exceeded : Error
  invalid_list_limit unavailable rate_limited unauthorized : Error

pub data Outcome {ℓ} (A : Type ℓ) : Type ℓ where
  ok : A → Outcome A
  err : Error → Outcome A

pub record Entry : Type 0 where
  pub key : Text
  pub value : Text
  pub version : ℕ
  pub updated_at : ℕ

pub record Mutation : Type 0 where
  pub key : Text
  pub value : Text
  pub version : ℕ
  pub deleted : Bool

abbrev pub version_or_zero : Option Entry → ℕ
version_or_zero none = 0
version_or_zero (some e) = e.version

abbrev pub bytes_or_zero : Option Entry → ℕ
bytes_or_zero none = 0
bytes_or_zero (some e) = length e.value

-- `old.Version + 1` on `uint64`.
unfoldable pub next_version : Option Entry → ℕ
next_version old = (version_or_zero old + 1) % 2 ^ 64

-- A write that expects a version meets another, or none.
abbrev pub conflicts : Option ℕ → Option Entry → Bool
conflicts none old = false
conflicts (some v) none = true
conflicts (some v) (some e) = not (e.version == v)

unfoldable pub total_bytes : Map Entry → ℕ
total_bytes [] = 0
total_bytes ((k, e) ∷ m) = length e.value + total_bytes m

-- `memoryRepo.Set`, on the entries of the app.
unfoldable pub set_entry :
    Limits → ℕ → Map Entry → Text → Text → Option ℕ → Outcome (Map Entry × Entry)
set_entry l now entries key value expected =
    let old = lookup key entries in
    if conflicts expected old
    then err version_conflict
    else if not (has_key key entries) && leb l.keys_per_app (length entries)
    then err quota_exceeded
    else if ltb l.total_bytes_per_app (total_bytes entries - bytes_or_zero old + length value)
    then err quota_exceeded
    else let e : Entry = record {
      key = key;
      value = value;
      version = next_version old;
      updated_at = now;
    } in
      ok (insert key e entries, e)

-- `memoryRepo.Delete`; no mutation where nothing was there.
unfoldable pub delete_entry : Map Entry → Text → Option ℕ → Outcome (Map Entry × Option Mutation)
delete_entry entries key expected =
    let old = lookup key entries in
    if conflicts expected old then err version_conflict else elim old [
      | none ↦ ok (entries, none)
      | some e ↦ ok (
        delete key entries,
        some (record { key = key; value = []; version = next_version (some e); deleted = true }),
      )
    ]

-- Go's `<` on strings.
unfoldable pub text_lt : Text → Text → Bool
text_lt [] [] = false
text_lt [] (y ∷ ys) = true
text_lt (x ∷ xs) [] = false
text_lt (x ∷ xs) (y ∷ ys) = if x == y then text_lt xs ys else ltb x y

-- `sort.Strings`.
unfoldable pub sort_insert : Text → List Text → List Text
sort_insert k [] = k ∷ []
sort_insert k (j ∷ js) = let rest = sort_insert k js in if text_lt k j then k ∷ j ∷ js else j ∷ rest

unfoldable pub sort_texts : List Text → List Text
unfolding sort_insert
sort_texts [] = []
sort_texts (k ∷ ks) = sort_insert k (sort_texts ks)

-- The keys under a prefix that come after a cursor.
unfoldable pub keys_after : Text → Text → Map Entry → List Text
keys_after prefix cursor [] = []
keys_after prefix cursor ((k, e) ∷ m) =
    let rest = keys_after prefix cursor m in
    if has_prefix k prefix && text_lt cursor k then k ∷ rest else rest

-- The loop of `List`: with `left` keys to go and the key before; the keys of the page and the next
-- cursor, which is empty on the last page.
unfoldable pub page_keys : ℕ → Text → List Text → List Text × Text
page_keys left last [] = ([], [])
page_keys zero last (k ∷ ks) = ([], last)
page_keys (suc left) last (k ∷ ks) = let rest = page_keys left k ks in (k ∷ rest.0, rest.1)

unfoldable pub entries_of : List Text → Map Entry → List Entry
entries_of [] m = []
entries_of (k ∷ ks) m =
    let rest = entries_of ks m in elim (lookup k m) [ none ↦ rest | some e ↦ e ∷ rest ]

pub record ListResult : Type 0 where
  pub entries : List Entry
  pub next_cursor : Text

-- `memoryRepo.List`.
unfoldable pub list_entries : Map Entry → Text → Text → ℕ → ListResult
unfolding sort_texts keys_after page_keys entries_of
list_entries m prefix cursor limit =
    let page = page_keys limit [] (sort_texts (keys_after prefix cursor m)) in
    record { entries = entries_of page.0 m; next_cursor = page.1 }
