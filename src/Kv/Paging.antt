-- ===== src/Kv/Paging.antt =====
-- internal/kv/kv.go: reading a list page by page.
use tinkercloud.Prelude.{
  ℕ, zero, suc, ◌≤◌, ◌<◌, ◌≡◌, refl, ap, sym, ◌∙◌, Bool, true, false, none, List, [], ◌∷◌, ◌++◌,
  Text, text_eq, text_eq_iff, filter, filter-filter, length, length-append, if_cases, if◌then◌else◌,
  arith,
}
use tinkercloud.Prelude.Map.{Map, IsDistinct, lookup}
use tinkercloud.Prelude.Strings.{has_prefix}
use tinkercloud.Kv.Store.{
  Entry, text_lt, sort_insert, sort_texts, keys_after, page_keys, entries_of, list_entries,
}
use tinkercloud.Kv.Order.{
  text_lt_irrefl, text_lt_trans, Above, Ascending, Apart, AllApart, sort_texts-Ascending,
  filter-sort_texts,
}

-- The keys under a prefix.
pub keys_with : Text → Map Entry → List Text
keys_with prefix [] = []
keys_with prefix ((k, e) ∷ m) =
    let rest = keys_with prefix m in if has_prefix k prefix then k ∷ rest else rest

-- A client that asks for page after page, each from the cursor that came with the one before, until
-- a page comes without a cursor.
pub all_pages : ℕ → Map Entry → Text → Text → ℕ → List Entry
all_pages zero m prefix cursor limit = []
all_pages (suc fuel) m prefix cursor limit =
    let page = list_entries m prefix cursor limit in
    let rest = all_pages fuel m prefix page.next_cursor limit in
    if text_eq page.next_cursor [] then page.entries else page.entries ++ rest

keys_after-filter :
    (prefix c : Text) (m : Map Entry)
    → keys_after prefix c m ≡ filter (text_lt c) (keys_with prefix m)
unfolding keys_after keys_with filter
keys_after-filter prefix c [] = refl
keys_after-filter prefix c ((k, e) ∷ m) = ground (arith, keys_after-filter prefix c m)

-- A page, whose keys begin the list; with a cursor, its last key, where there are more.
data Page (ks : List Text) : List Text × Text → Type 0 where
  whole : Page ks (ks, [])
  part :
      (page rest : List Text) (cursor : Text)
      → ks ≡ page ++ rest
      → filter (text_lt cursor) ks ≡ rest
      → 1 ≤ length page
      → ((c : Text) → Above c ks → text_lt c cursor ≡ true)
      → Page ks (page, cursor)

drop_first :
    (k cursor : Text) (ks : List Text)
    → text_lt k cursor ≡ true
    → filter (text_lt cursor) (k ∷ ks) ≡ filter (text_lt cursor) ks
unfolding filter
drop_first k cursor ks h = ground (arith, h, text_lt_trans k cursor k, text_lt_irrefl k)

keep_all : (k : Text) (ks : List Text) → Above k ks → filter (text_lt k) ks ≡ ks
unfolding filter
keep_all k [] h = refl
keep_all k (j ∷ js) h = ground (arith, h.0, keep_all k js h.1)

first_dropped : (k : Text) (ks : List Text) → Above k ks → filter (text_lt k) (k ∷ ks) ≡ ks
unfolding filter
first_dropped k ks h = ground (arith, text_lt_irrefl k, keep_all k ks h)

page_keys-Page :
    (n : ℕ) (last : Text) (ks : List Text) → Ascending ks → Page ks (page_keys (suc n) last ks)
unfolding page_keys
page_keys-Page n last [] a = whole
page_keys-Page zero last (k ∷ []) a = whole
page_keys-Page zero last (k ∷ j ∷ js) a =
    part (k ∷ []) (j ∷ js) k refl (first_dropped k (j ∷ js) a.0) (omega arith) (λ c h. h.0)
page_keys-Page (suc n) last (k ∷ ks) a = longer (page_keys (suc n) k ks) (page_keys-Page n k ks a.1)
  where
    longer : (r : List Text × Text) → Page ks r → Page (k ∷ ks) (k ∷ r.0, r.1)
    longer r whole = whole
    longer r (part page rest cursor q f o b) =
        part (k ∷ page) rest cursor (ap (λ s. k ∷ s) q) (drop_first k cursor ks (b k a.0) ∙ f)
          (omega arith) (λ c h. b c h.1)

Above-filter : (c : Text) (ks : List Text) → Above c (filter (text_lt c) ks)
unfolding filter
Above-filter c [] = tt
Above-filter c (k ∷ ks) =
    if_cases (Above c) (text_lt c k) (λ h. (h, Above-filter c ks)) (λ _. Above-filter c ks)

Above-filter_of : (p : Text → Bool) (c : Text) (ks : List Text) → Above c ks → Above c (filter p ks)
unfolding filter
Above-filter_of p c [] h = tt
Above-filter_of p c (k ∷ ks) h =
    if_cases (Above c) (p k) (λ _. (h.0, Above-filter_of p c ks h.1))
      (λ _. Above-filter_of p c ks h.1)

filter-Ascending : (p : Text → Bool) (ks : List Text) → Ascending ks → Ascending (filter p ks)
unfolding filter
filter-Ascending p [] a = tt
filter-Ascending p (k ∷ ks) a =
    if_cases Ascending (p k) (λ _. (Above-filter_of p k ks a.0, filter-Ascending p ks a.1))
      (λ _. filter-Ascending p ks a.1)

entries_of-append :
    (ks js : List Text) (m : Map Entry)
    → entries_of (ks ++ js) m ≡ entries_of ks m ++ entries_of js m
unfolding entries_of
entries_of-append [] js m = refl
entries_of-append (k ∷ ks) js m = ground (arith, entries_of-append ks js m)

cursor_empty : (c cursor : Text) → text_lt c cursor ≡ true → text_eq cursor [] ≡ false
unfolding text_lt text_eq
cursor_empty [] [] h = cc
cursor_empty (x ∷ c) [] h = cc
cursor_empty c (y ∷ cursor) h = refl

module _ (n : ℕ) (m : Map Entry) (prefix : Text) where
  after : Text → List Text
  after c = filter (text_lt c) (sort_texts (keys_with prefix m))

  after_lem : (c : Text) → sort_texts (keys_after prefix c m) ≡ after c
  unfolding after
  after_lem c =
      ap sort_texts (keys_after-filter prefix c m) ∙ sym (filter-sort_texts c (keys_with prefix m))

  after_next :
      (c cursor : Text) → text_lt c cursor ≡ true → filter (text_lt cursor) (after c) ≡ after cursor
  unfolding after
  after_next c cursor h =
      filter-filter (text_lt cursor) (text_lt c) _ (λ k. text_lt_trans c cursor k h)

  after-Ascending : (c : Text) → AllApart (keys_with prefix m) → Ascending (after c)
  unfolding after
  after-Ascending c a = filter-Ascending (text_lt c) _ (sort_texts-Ascending (keys_with prefix m) a)

  after-Above : (c : Text) → Above c (after c)
  unfolding after
  after-Above c = Above-filter c _

  join-Page :
      (fuel : ℕ) (c : Text)
      → ((cursor : Text)
          → length (after cursor) < fuel
          → all_pages fuel m prefix cursor (suc n) ≡ entries_of (after cursor) m)
      → length (after c) < suc fuel
      → (r : List Text × Text) → Page (after c) r
      → (if text_eq r.1 []
          then entries_of r.0 m
          else entries_of r.0 m ++ all_pages fuel m prefix r.1 (suc n))
        ≡ entries_of (after c) m
  unfolding text_eq
  join-Page fuel c ih d r whole = refl
  join-Page fuel c ih d r (part page rest cursor q f o b) =
      let lt = b c (after-Above c) in
      let e : after cursor ≡ rest = sym (after_next c cursor lt) ∙ f in
      let size : length (after cursor) < fuel =
        omega (arith, ap length e, ap length q, length-append page rest) in
      rw (cursor_empty c cursor lt, ih cursor size, e, q) (sym (entries_of-append page rest m))

  pages_from :
      (fuel : ℕ) (c : Text)
      → AllApart (keys_with prefix m)
      → length (after c) < fuel
      → all_pages fuel m prefix c (suc n) ≡ entries_of (after c) m
  unfolding all_pages list_entries
  pages_from zero c a d = absurd (omega arith)
  pages_from (suc fuel) c a d =
      let p = page_keys-Page n [] (after c) (after-Ascending c a) in
      rw (after_lem c) (join-Page fuel c (λ cursor. pages_from fuel cursor a) d _ p)

keys_with-Apart :
    (prefix k : Text) (m : Map Entry) → lookup k m ≡ none → Apart k (keys_with prefix m)
unfolding keys_with lookup
keys_with-Apart prefix k [] h = tt
keys_with-Apart prefix k ((j, e) ∷ m) h =
    let q : text_eq k j ≡ false = ground (arith, h, text_eq_iff k j, text_eq_iff j k) in
    let ih = keys_with-Apart prefix k m (ground (arith, h)) in
    if_cases (Apart k) (has_prefix j prefix) (λ _. (q, ih)) (λ _. ih)

keys_with-AllApart : (prefix : Text) (m : Map Entry) → IsDistinct m → AllApart (keys_with prefix m)
unfolding keys_with
keys_with-AllApart prefix [] d = tt
keys_with-AllApart prefix ((k, e) ∷ m) d =
    let ih = keys_with-AllApart prefix m d.1 in
    if_cases AllApart (has_prefix k prefix) (λ _. (keys_with-Apart prefix k m d.0, ih)) (λ _. ih)

keys_with-Above :
    (prefix : Text) (m : Map Entry)
    → lookup [] m ≡ none
    → filter (text_lt []) (keys_with prefix m) ≡ keys_with prefix m
unfolding keys_with filter lookup text_lt text_eq
keys_with-Above prefix [] h = refl
keys_with-Above prefix (([], e) ∷ m) h = cc
keys_with-Above prefix ((c ∷ k, e) ∷ m) h = ground (arith, keys_with-Above prefix m h)

length-sort_insert : (k : Text) (ks : List Text) → length (sort_insert k ks) ≡ suc (length ks)
unfolding sort_insert
length-sort_insert k [] = refl
length-sort_insert k (j ∷ js) = ground (arith, length-sort_insert k js)

length-sort_texts : (ks : List Text) → length (sort_texts ks) ≡ length ks
unfolding sort_texts
length-sort_texts [] = refl
length-sort_texts (k ∷ ks) =
    omega (arith, length-sort_insert k (sort_texts ks), length-sort_texts ks)

length-keys_with-le : (prefix : Text) (m : Map Entry) → length (keys_with prefix m) ≤ length m
unfolding keys_with
length-keys_with-le prefix [] = omega arith
length-keys_with-le prefix ((k, e) ∷ m) = ground (arith, length-keys_with-le prefix m)

after_start :
    (n : ℕ) (m : Map Entry) (prefix : Text)
    → lookup [] m ≡ none
    → after n m prefix [] ≡ sort_texts (keys_with prefix m)
unfolding after
after_start n m prefix h =
    filter-sort_texts [] (keys_with prefix m) ∙ ap sort_texts (keys_with-Above prefix m h)

-- While nothing is written, a client that asks for page after page of at least one entry, from the
-- empty cursor on, has got every entry under the prefix once, in the order of the keys, within as
-- many pages as there are entries and one more, provided that no key stands twice and none is empty.
pub all_pages_complete :
    (fuel n : ℕ) (m : Map Entry) (prefix : Text)
    → IsDistinct m
    → lookup [] m ≡ none
    → length m < fuel
    → all_pages fuel m prefix [] (suc n) ≡ entries_of (sort_texts (keys_with prefix m)) m
all_pages_complete fuel n m prefix d h f =
    let e = after_start n m prefix h in
    let size : length (after n m prefix []) < fuel =
      omega (
        arith,
        ap length e,
        length-sort_texts (keys_with prefix m),
        length-keys_with-le prefix m,
      ) in
    pages_from n m prefix fuel [] (keys_with-AllApart prefix m d) size
    ∙ ap (λ ks. entries_of ks m) e
