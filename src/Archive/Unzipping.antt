-- ===== src/Archive/Unzipping.antt =====
-- internal/archive/archive.go: what an archive of either kind that is extracted without error leaves.
use tinkercloud.Prelude.{
  ℕ, ◌≡◌, ap, sym, subst, ◌∙◌, true, false, not, ◌&&◌, Option, none, some, List, [], ◌∷◌, All,
  arith, if◌then◌else◌,
}
use tinkercloud.Archive.{
  Limits, Staging, Error, unsafe, put, TarStep, go_on, fresh, valid_limits, extract_tar_gz, ZipFile,
  has_type, bit, zip_entry, zip_loop, extract_zip,
}
use tinkercloud.Archive.Disk.{Tree}
use tinkercloud.Archive.Passes.{zip_loop-Puts}
use tinkercloud.Archive.Outcomes.{put-PutResult}
use tinkercloud.Archive.Contents.{
  Puts-Keeps, FileAt, FileAt-Keeps, PutResult-FileAt, IsExtracted, go_on-none, guard_none,
  tar-IsExtracted,
}

-- The file of a zip archive is a directory, or a file that opens and stands at its cleaned name,
-- whole.
abbrev pub IsUnzipped : ℕ → Tree → ZipFile → Type 0
IsUnzipped depth t f =
    ((has_type f.mode && not (bit 31 f.mode)) ≡ false)
    × (bit 31 f.mode ≡ false → (f.opens ≡ true) × FileAt depth t f.name f.content)

-- A file that is passed without error.
record Unzipped (l : Limits) (f : ZipFile) (files : List ZipFile) (s : Staging) : Type 0 where
  known : (has_type f.mode && not (bit 31 f.mode)) ≡ false
  opened : not f.opens ≡ false
  put_done : (put l f.weather (zip_entry f) s).1 ≡ none
  rest : zip_loop l (f ∷ files) s ≡ zip_loop l files (put l f.weather (zip_entry f) s).0

zip_loop-Unzipped :
    (l : Limits) (f : ZipFile) (files : List ZipFile) (s : Staging)
    → (zip_loop l (f ∷ files) s).1 ≡ none
    → Unzipped l f files s
unfolding zip_loop
zip_loop-Unzipped l f files s q =
    let p = put l f.weather (zip_entry f) s in
    let next = go_on p (zip_loop l files) in
    let open_or : Staging × Option Error = if not f.opens then (s, some unsafe) else next in
    let (o, e) = guard_none (has_type f.mode && not (bit 31 f.mode)) s unsafe open_or q in
    let (v, e') = guard_none (not f.opens) s unsafe next (sym (ap (λ r. r.1) e) ∙ q) in
    let (d, e'') = go_on-none p (zip_loop l files) (sym (ap (λ r. r.1) (e ∙ e')) ∙ q) in
    record { known = o; opened = v; put_done = d; rest = e ∙ e' ∙ e'' }

zip_loop-IsUnzipped :
    (l : Limits) (files : List ZipFile) (s : Staging)
    → (zip_loop l files s).1 ≡ none
    → All (IsUnzipped l.max_depth (zip_loop l files s).0.tree) files
zip_loop-IsUnzipped l [] s q = tt
zip_loop-IsUnzipped l (f ∷ files) s q =
    let p = zip_loop-Unzipped l f files s q in
    let s' = (put l f.weather (zip_entry f) s).0 in
    let ih = zip_loop-IsUnzipped l files s' (sym (ap (λ r. r.1) p.rest) ∙ q) in
    let keeps = Puts-Keeps l s' (zip_loop l files s').0 (zip_loop-Puts l files s') in
    subst (λ (r : Staging × Option Error). All (IsUnzipped l.max_depth r.0.tree) (f ∷ files))
      (sym p.rest)
      (
        (
          p.known,
          λ d. (
            ground (arith, p.opened),
            FileAt-Keeps l.max_depth s'.tree _ f.name f.content keeps (
                PutResult-FileAt l f.weather (zip_entry f) s _ d p.put_done
                  (put-PutResult l f.weather (zip_entry f) s)),
          ),
        ),
        ih,
      )

zip-IsUnzipped :
    (l : Limits) (files : List ZipFile) (t : Tree)
    → (extract_zip l files t).1 ≡ none
    → All (IsUnzipped l.max_depth (extract_zip l files t).0) files
unfolding extract_zip
zip-IsUnzipped l files t q =
    let r = zip_loop l files (fresh t) in
    let (_, e) = guard_none (not (valid_limits l)) t unsafe (r.0.tree, r.1) q in
    subst (λ (x : Tree × Option Error). All (IsUnzipped l.max_depth x.0) files) (sym e)
      (zip_loop-IsUnzipped l files (fresh t) (sym (ap (λ x. x.1) e) ∙ q))

-- A tar archive with the steps of its reader, or a zip archive with its files.
pub data Source : Type 0 where
  tar : List TarStep → Source
  zip : List ZipFile → Source

abbrev pub extract : Limits → Source → Tree → Tree × Option Error
extract l (tar steps) t = extract_tar_gz l (some steps) t
extract l (zip files) t = extract_zip l files t

-- Everything in the archive has been extracted.
abbrev pub IsWhole : ℕ → Source → Tree → Type 0
IsWhole depth (tar steps) t = All (IsExtracted depth t) steps
IsWhole depth (zip files) t = All (IsUnzipped depth t) files

-- Where an archive, tar or zip, is extracted without error, everything in it is a file or a
-- directory, and each file stands at its cleaned name with all its bytes, no other entry having
-- taken its place. The stream of a tar archive has been read to its end, and each file of a zip
-- archive could be opened.
pub extract-IsWhole :
    (l : Limits) (source : Source) (t : Tree)
    → (extract l source t).1 ≡ none
    → IsWhole l.max_depth source (extract l source t).0
extract-IsWhole l (tar steps) t q = tar-IsExtracted l steps t q
extract-IsWhole l (zip files) t q = zip-IsUnzipped l files t q
