-- ===== src/Archive/Confinement.antt =====
-- internal/archive/archive.go: where an archive is extracted to.
use tinkercloud.Prelude.{ℕ, not, Option, none, some, List, Text, if_cases}
use tinkercloud.Archive.{
  Limits, Weather, Entry, Staging, Error, arrived, put, TarStep, tar_loop, ZipFile, zip_loop, fresh,
  valid_limits, extract_tar_gz, extract_zip,
}
use tinkercloud.Archive.Disk.{Tree, make_parents}
use tinkercloud.Archive.Parts.{IsInside, clean_sound}
use tinkercloud.Archive.Passes.{Puts, done, last, next, tar_loop-Puts, zip_loop-Puts}
use tinkercloud.Archive.Outcomes.{
  WriteResult, untouched, stuck, directory, parents, broken_file, file, write_entry-WriteResult,
  PutResult, kept, refused, written, put-PutResult,
}
use tinkercloud.Archive.Directories.{
  IsConfined, make_dir-IsConfined, make_parents-IsConfined, with_file,
}

WriteResult-IsConfined :
    (depth : ℕ) (w : Weather) (e : Entry) (n : Text) (t : Tree) (r : Tree × Option Error)
    → IsInside depth n
    → IsConfined depth t
    → WriteResult w e n t r
    → IsConfined depth r.0
WriteResult-IsConfined depth w e n t r i c untouched = c
WriteResult-IsConfined depth w e n t r i c stuck = make_dir-IsConfined depth n t i c
WriteResult-IsConfined depth w e n t r i c (directory _ _) = make_dir-IsConfined depth n t i c
WriteResult-IsConfined depth w e n t r i c parents = make_parents-IsConfined depth n t i c
WriteResult-IsConfined depth w e n t r i c (broken_file _) =
    with_file depth n (arrived w e) (make_parents n t).0 i (make_parents-IsConfined depth n t i c)
WriteResult-IsConfined depth w e n t r i c (file _ _ _) =
    with_file depth n (arrived w e) (make_parents n t).0 i (make_parents-IsConfined depth n t i c)

PutResult-IsConfined :
    (l : Limits) (w : Weather) (e : Entry) (s : Staging) (r : Staging × Option Error)
    → IsConfined l.max_depth s.tree
    → PutResult l w e s r
    → IsConfined l.max_depth r.0.tree
PutResult-IsConfined l w e s r c kept = c
PutResult-IsConfined l w e s r c (refused n _) = c
PutResult-IsConfined l w e s r c (written n q o _) =
    WriteResult-IsConfined l.max_depth w e n s.tree _ (clean_sound e.name l.max_depth n q o) c
      (write_entry-WriteResult w e n s.tree)

Puts-IsConfined :
    (l : Limits) (s r : Staging)
    → IsConfined l.max_depth s.tree
    → Puts l s r
    → IsConfined l.max_depth r.tree
Puts-IsConfined l s r c done = c
Puts-IsConfined l s r c (last w e) =
    PutResult-IsConfined l w e s (put l w e s) c (put-PutResult l w e s)
Puts-IsConfined l s r c (next w e _ p) =
    Puts-IsConfined l (put l w e s).0 r
      (PutResult-IsConfined l w e s (put l w e s) c (put-PutResult l w e s)) p

tar-IsConfined :
    (l : Limits) (archive : Option (List TarStep)) (t : Tree)
    → IsConfined l.max_depth t
    → IsConfined l.max_depth (extract_tar_gz l archive t).0
unfolding extract_tar_gz
tar-IsConfined l none t c =
    if_cases (λ (r : Tree × Option Error). IsConfined l.max_depth r.0) (not (valid_limits l))
      (λ _. c) (λ _. c)
tar-IsConfined l (some steps) t c =
    if_cases (λ (r : Tree × Option Error). IsConfined l.max_depth r.0) (not (valid_limits l))
      (λ _. c)
      (λ _.
        Puts-IsConfined l (fresh t) (tar_loop l steps (fresh t)).0 c
          (tar_loop-Puts l steps (fresh t)))

zip-IsConfined :
    (l : Limits) (files : List ZipFile) (t : Tree)
    → IsConfined l.max_depth t
    → IsConfined l.max_depth (extract_zip l files t).0
unfolding extract_zip
zip-IsConfined l files t c =
    if_cases (λ (r : Tree × Option Error). IsConfined l.max_depth r.0) (not (valid_limits l))
      (λ _. c)
      (λ _.
        Puts-IsConfined l (fresh t) (zip_loop l files (fresh t)).0 c
          (zip_loop-Puts l files (fresh t)))

-- In a directory where every path is below the root and at most `MaxDepth` parts deep, every path
-- still is when a tar or zip archive was extracted to it, whatever the archive holds and wherever
-- the extraction stops.
pub extract-IsConfined :
    (l : Limits) (archive : Option (List TarStep)) (files : List ZipFile) (t : Tree)
    → IsConfined l.max_depth t
    → IsConfined l.max_depth (extract_tar_gz l archive t).0
      × IsConfined l.max_depth (extract_zip l files t).0
extract-IsConfined l archive files t c = (tar-IsConfined l archive t c, zip-IsConfined l files t c)
