-- ===== src/Archive/Outcomes.antt =====
-- internal/archive/archive.go: what `put` leaves behind.
use tinkercloud.Prelude.{
  ◌+◌, ◌≤◌, ◌<◌, ◌^◌, ◌≡◌, refl, Bool, true, false, not, ◌||◌, Option, none, some, arith, Text,
  text_eq, any, ltb, leb, if_cases, if◌then◌else◌,
}
use tinkercloud.Prelude.Map.{has_key}
use tinkercloud.Prelude.Strings.{to_lower}
use tinkercloud.Archive.{
  Limits, Weather, Entry, Budget, Staging, Error, unsafe, failed, count_entry, add_file, outside,
  privileged, arrived, is_short, write_entry, put, put_cleaned,
}
use tinkercloud.Archive.Paths.{clean}
use tinkercloud.Archive.Disk.{Tree, has_dir, make_dir, make_parents}

-- A file that is written to the end, or not.
pub data WriteResult (w : Weather) (e : Entry) (n : Text) (t : Tree)
    : Tree × Option Error → Type 0 where
  untouched : {x : Error} → WriteResult w e n t (t, some x)
  stuck : {x : Error} → WriteResult w e n t ((make_dir n t).0, some x)
  directory : e.dir ≡ true → (make_dir n t).1 ≡ true → WriteResult w e n t ((make_dir n t).0, none)
  parents : {x : Error} → WriteResult w e n t ((make_parents n t).0, some x)
  broken_file :
      {x : Error}
      → has_key n (make_parents n t).0.files ≡ false
      → WriteResult w e n t (add_file n (arrived w e) (make_parents n t).0, some x)
  file :
      e.dir ≡ false
      → has_key n (make_parents n t).0.files ≡ false
      → is_short w e ≡ false
      → WriteResult w e n t (add_file n (arrived w e) (make_parents n t).0, none)

made-WriteResult :
    (w : Weather) (e : Entry) (n : Text) (t : Tree) (b : Bool)
    → e.dir ≡ true
    → (make_dir n t).1 ≡ b
    → WriteResult w e n t ((make_dir n t).0, if b then none else some failed)
made-WriteResult w e n t true d h = directory d h
made-WriteResult w e n t false d h = stuck

synced-WriteResult :
    (w : Weather) (e : Entry) (n : Text) (t : Tree) (b : Bool)
    → e.dir ≡ false
    → has_key n (make_parents n t).0.files ≡ false
    → is_short w e ≡ false
    → WriteResult w e n t
        (add_file n (arrived w e) (make_parents n t).0, if b then some failed else none)
synced-WriteResult w e n t true d h k = broken_file h
synced-WriteResult w e n t false d h k = file d h k

pub write_entry-WriteResult :
    (w : Weather) (e : Entry) (n : Text) (t : Tree) → WriteResult w e n t (write_entry w e n t)
unfolding write_entry
write_entry-WriteResult w e n t =
    let p = make_parents n t in
    let P : Tree × Option Error → Type 0 = WriteResult w e n t in
    if_cases P e.dir
      (λ d. if_cases P w.mkdir_fails (λ _. untouched) (λ _. made-WriteResult w e n t _ d refl))
      (λ d.
        if_cases P w.mkdir_fails (λ _. untouched)
          (λ _.
            if_cases P (not p.1) (λ _. parents)
              (λ _.
                if_cases P (w.open_fails || has_key n p.0.files || has_dir n p.0) (λ _. parents)
                  (λ h.
                    if_cases P (is_short w e) (λ _. broken_file (free h))
                      (λ k. synced-WriteResult w e n t _ d (free h) k)))))
  where
    free :
        (w.open_fails || has_key n (make_parents n t).0.files || has_dir n (make_parents n t).0)
          ≡ false
        → has_key n (make_parents n t).0.files ≡ false
    free h = ground (arith, h)

-- An entry within the limits.
pub record Fits (l : Limits) (e : Entry) (n : Text) (b : Budget) : Type 0 where
  pub size : e.size ≤ l.max_file
  pub total : b.total + e.size ≤ l.max_expanded
  pub count : b.n < l.max_entries
  pub unseen : any (text_eq (to_lower n)) b.seen ≡ false

abbrev pub counted : Entry → Text → Staging → Staging
counted e n s = record s { budget = count_entry (to_lower n) e.size s.budget }

pub data PutResult (l : Limits) (w : Weather) (e : Entry) (s : Staging)
    : Staging × Option Error → Type 0 where
  kept : {x : Error} → PutResult l w e s (s, some x)
  refused : {x : Error} (n : Text) → Fits l e n s.budget → PutResult l w e s (counted e n s, some x)
  written :
      (n : Text)
      → clean e.name l.max_depth ≡ some n
      → outside n ≡ false
      → Fits l e n s.budget
      → PutResult l w e s (
        record (counted e n s) { tree = (write_entry w e n s.tree).0 },
        (write_entry w e n s.tree).1,
      )

put_cleaned-PutResult :
    (l : Limits) (w : Weather) (e : Entry) (n : Text) (s : Staging)
    → clean e.name l.max_depth ≡ some n
    → PutResult l w e s (put_cleaned l w e n s)
unfolding put_cleaned
put_cleaned-PutResult l w e n s c =
    let b = s.budget in
    let key = to_lower n in
    let big =
      leb (2 ^ 63) e.size || ltb l.max_file e.size || ltb l.max_expanded (b.total + e.size) in
    if_cases P big (λ _. kept)
      (λ h₁.
        if_cases P (leb l.max_entries b.n) (λ _. kept)
          (λ h₂.
            if_cases P (any (text_eq key) b.seen) (λ _. kept)
              (λ h₃.
                let f : Fits l e n b = record {
                  size = ground (arith, h₁);
                  total = ground (arith, h₁);
                  count = ground (arith, h₂);
                  unseen = h₃;
                } in
                if_cases P (privileged e.mode) (λ _. refused n f)
                  (λ _. if_cases P (outside n) (λ _. refused n f) (λ o. written n c o f)))))
  where
    P : Staging × Option Error → Type 0
    P r = PutResult l w e s r

pub put-PutResult :
    (l : Limits) (w : Weather) (e : Entry) (s : Staging) → PutResult l w e s (put l w e s)
unfolding put
put-PutResult l w e s =
    if_cases P w.cancelled (λ _. kept) (λ _. named (clean e.name l.max_depth) refl)
  where
    P : Staging × Option Error → Type 0
    P r = PutResult l w e s r

    named :
        (o : Option Text)
        → clean e.name l.max_depth ≡ o
        → P (elim o [ none ↦ (s, some unsafe) | some n ↦ put_cleaned l w e n s ])
    named none q = kept
    named (some n) q = put_cleaned-PutResult l w e n s q
