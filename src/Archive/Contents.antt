-- ===== src/Archive/Contents.antt =====
-- internal/archive/archive.go: what an archive that is extracted without error leaves.
use tinkercloud.Prelude.{
  ℕ, zero, suc, ◌≡◌, refl, ap, sym, subst, ◌∙◌, Bool, true, false, not, Option, none, some, List,
  [], ◌∷◌, Text, text_eq_iff, length, All, arith, if◌then◌else◌,
}
use tinkercloud.Prelude.Map.{has_key, lookup, lookup-insert, lookup-insert_self}
use tinkercloud.Prelude.Strings.{take}
use tinkercloud.Archive.{
  Limits, Weather, Entry, Staging, Error, unsafe, arrived, is_short, add_file, put, TarStep,
  TarHeader, header, broken, is_directory, is_other, tar_entry, go_on, tar_loop, fresh,
  valid_limits, extract_tar_gz,
}
use tinkercloud.Archive.Paths.{clean}
use tinkercloud.Archive.Disk.{Tree, make_parents}
use tinkercloud.Archive.Passes.{Puts, done, last, next, tar_loop-Puts}
use tinkercloud.Archive.Outcomes.{
  WriteResult, untouched, stuck, directory, parents, broken_file, file, write_entry-WriteResult,
  PutResult, kept, refused, written, put-PutResult,
}
use tinkercloud.Archive.Directories.{make_dir_files, make_parents_files}

-- No file is changed.
unfoldable pub Keeps : Tree → Tree → Type 0
Keeps t r = (n v : Text) → lookup n t.files ≡ some v → lookup n r.files ≡ some v

same_files : (t r : Tree) → r.files ≡ t.files → Keeps t r
unfolding Keeps
same_files t r q n v h = ap (lookup n) q ∙ h

new_file :
    (t p : Tree) (n v : Text)
    → p.files ≡ t.files
    → has_key n p.files ≡ false
    → Keeps t (add_file n v p)
unfolding Keeps has_key
new_file t p n v q k j w h =
    ground (arith, k, h, ap (lookup j) q, lookup-insert n j v p.files, text_eq_iff n j)

WriteResult-Keeps :
    (w : Weather) (e : Entry) (n : Text) (t : Tree) (r : Tree × Option Error)
    → WriteResult w e n t r
    → Keeps t r.0
WriteResult-Keeps w e n t r untouched = same_files t t refl
WriteResult-Keeps w e n t r stuck = same_files t _ (make_dir_files n t)
WriteResult-Keeps w e n t r (directory _ _) = same_files t _ (make_dir_files n t)
WriteResult-Keeps w e n t r parents = same_files t _ (make_parents_files n t)
WriteResult-Keeps w e n t r (broken_file k) =
    new_file t _ n (arrived w e) (make_parents_files n t) k
WriteResult-Keeps w e n t r (file _ k _) = new_file t _ n (arrived w e) (make_parents_files n t) k

PutResult-Keeps :
    (l : Limits) (w : Weather) (e : Entry) (s : Staging) (r : Staging × Option Error)
    → PutResult l w e s r
    → Keeps s.tree r.0.tree
unfolding Keeps
PutResult-Keeps l w e s r kept n v h = h
PutResult-Keeps l w e s r (refused _ _) n v h = h
PutResult-Keeps l w e s r (written n _ _ _) j v h =
    WriteResult-Keeps w e n s.tree _ (write_entry-WriteResult w e n s.tree) j v h

pub Puts-Keeps : (l : Limits) (s r : Staging) → Puts l s r → Keeps s.tree r.tree
unfolding Keeps
Puts-Keeps l s r done n v h = h
Puts-Keeps l s r (last w e) n v h =
    PutResult-Keeps l w e s (put l w e s) (put-PutResult l w e s) n v h
Puts-Keeps l s r (next w e _ p) n v h =
    Puts-Keeps l (put l w e s).0 r p n v
      (PutResult-Keeps l w e s (put l w e s) (put-PutResult l w e s) n v h)

take_whole : (k : ℕ) (s : Text) → length (take (suc k) s) ≡ k → take (suc k) s ≡ s
take_whole k [] h = refl
take_whole zero (c ∷ s) h = ground arith
take_whole (suc k) (c ∷ s) h = ap (λ r. c ∷ r) (take_whole k s (omega arith))

arrived_whole : (w : Weather) (e : Entry) → is_short w e ≡ false → arrived w e ≡ e.content
unfolding is_short
arrived_whole w e h = ground (arith, h, take_whole e.size e.content)

-- The file of an entry.
unfoldable pub FileAt : ℕ → Tree → Text → Text → Type 0
FileAt depth t name content =
    (n : Text) × (clean name depth ≡ some n) × (lookup n t.files ≡ some content)

WriteResult-lookup :
    (w : Weather) (e : Entry) (n : Text) (t : Tree) (r : Tree × Option Error)
    → e.dir ≡ false
    → r.1 ≡ none
    → WriteResult w e n t r
    → lookup n r.0.files ≡ some e.content
WriteResult-lookup w e n t r d q untouched = cc
WriteResult-lookup w e n t r d q stuck = cc
WriteResult-lookup w e n t r d q (directory h _) = cc
WriteResult-lookup w e n t r d q parents = cc
WriteResult-lookup w e n t r d q (broken_file _) = cc
WriteResult-lookup w e n t r d q (file _ _ k) =
    lookup-insert_self n (arrived w e) (make_parents n t).0.files ∙ ap some (arrived_whole w e k)

pub PutResult-FileAt :
    (l : Limits) (w : Weather) (e : Entry) (s : Staging) (r : Staging × Option Error)
    → e.dir ≡ false
    → r.1 ≡ none
    → PutResult l w e s r
    → FileAt l.max_depth r.0.tree e.name e.content
unfolding FileAt
PutResult-FileAt l w e s r d q kept = cc
PutResult-FileAt l w e s r d q (refused _ _) = cc
PutResult-FileAt l w e s r d q (written n c _ _) =
    (n, c, WriteResult-lookup w e n s.tree _ d q (write_entry-WriteResult w e n s.tree))

pub FileAt-Keeps :
    (depth : ℕ) (t r : Tree) (name content : Text)
    → Keeps t r
    → FileAt depth t name content
    → FileAt depth r name content
unfolding FileAt Keeps
FileAt-Keeps depth t r name content k (n, c, f) = (n, c, k n content f)

broken_stops :
    (l : Limits) (steps : List TarStep) (s : Staging) → (tar_loop l (broken ∷ steps) s).1 ≡ none → ⊥
unfolding tar_loop
broken_stops l steps s q = cc

-- The step is a header, of no other type than a file and a directory; the file that it announces
-- stands at its cleaned name, whole.
abbrev pub IsExtracted : ℕ → Tree → TarStep → Type 0
IsExtracted depth t broken = ⊥
IsExtracted depth t (header h w) =
    (is_other h.typeflag ≡ false)
    × (is_directory h.typeflag ≡ false → FileAt depth t h.name h.content)

pub go_on-none :
    (p : Staging × Option Error) (rest : Staging → Staging × Option Error)
    → (go_on p rest).1 ≡ none
    → (p.1 ≡ none) × (go_on p rest ≡ rest p.0)
go_on-none (s, none) rest q = (refl, refl)
go_on-none (s, some x) rest q = cc

pub guard_none :
    {A : Type 0} (b : Bool) (s : A) (x : Error) (r : A × Option Error)
    → (if b then (s, some x) else r).1 ≡ none
    → (b ≡ false) × ((if b then (s, some x) else r) ≡ r)
guard_none true s x r q = cc
guard_none false s x r q = (refl, refl)

-- A header that is passed without error.
record Passed (l : Limits) (h : TarHeader) (w : Weather) (steps : List TarStep) (s : Staging)
    : Type 0 where
  known : is_other h.typeflag ≡ false
  put_done : (put l w (tar_entry h) s).1 ≡ none
  rest : tar_loop l (header h w ∷ steps) s ≡ tar_loop l steps (put l w (tar_entry h) s).0

tar_loop-Passed :
    (l : Limits) (h : TarHeader) (w : Weather) (steps : List TarStep) (s : Staging)
    → (tar_loop l (header h w ∷ steps) s).1 ≡ none
    → Passed l h w steps s
unfolding tar_loop
tar_loop-Passed l h w steps s q =
    let next = go_on (put l w (tar_entry h) s) (tar_loop l steps) in
    let (o, e) = guard_none (is_other h.typeflag) s unsafe next q in
    let (p, e') =
      go_on-none (put l w (tar_entry h) s) (tar_loop l steps) (sym (ap (λ r. r.1) e) ∙ q) in
    record { known = o; put_done = p; rest = e ∙ e' }

tar_loop-IsExtracted :
    (l : Limits) (steps : List TarStep) (s : Staging)
    → (tar_loop l steps s).1 ≡ none
    → All (IsExtracted l.max_depth (tar_loop l steps s).0.tree) steps
tar_loop-IsExtracted l [] s q = tt
tar_loop-IsExtracted l (broken ∷ steps) s q = absurd (broken_stops l steps s q)
tar_loop-IsExtracted l (header h w ∷ steps) s q =
    let p = tar_loop-Passed l h w steps s q in
    let s' = (put l w (tar_entry h) s).0 in
    let ih = tar_loop-IsExtracted l steps s' (sym (ap (λ r. r.1) p.rest) ∙ q) in
    let keeps = Puts-Keeps l s' (tar_loop l steps s').0 (tar_loop-Puts l steps s') in
    subst
      (λ (r : Staging × Option Error). All (IsExtracted l.max_depth r.0.tree) (header h w ∷ steps))
      (sym p.rest)
      (
        (
          p.known,
          λ d. FileAt-Keeps l.max_depth s'.tree _ h.name h.content keeps (
              PutResult-FileAt l w (tar_entry h) s _ d p.put_done
                (put-PutResult l w (tar_entry h) s)),
        ),
        ih,
      )

-- Where a tar archive is extracted without error, its stream was read to the end, every entry is a
-- file or a directory, and each file stands at its cleaned name with all its bytes, no other entry
-- having taken its place.
pub tar-IsExtracted :
    (l : Limits) (steps : List TarStep) (t : Tree)
    → (extract_tar_gz l (some steps) t).1 ≡ none
    → All (IsExtracted l.max_depth (extract_tar_gz l (some steps) t).0) steps
unfolding extract_tar_gz
tar-IsExtracted l steps t q =
    let r = tar_loop l steps (fresh t) in
    let (_, e) = guard_none (not (valid_limits l)) t unsafe (r.0.tree, r.1) q in
    subst (λ (x : Tree × Option Error). All (IsExtracted l.max_depth x.0) steps) (sym e)
      (tar_loop-IsExtracted l steps (fresh t) (sym (ap (λ x. x.1) e) ∙ q))
