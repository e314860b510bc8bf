-- ===== src/Archive.antt =====
-- internal/archive/archive.go: extracting an archive that a deployer sent into a staging directory.
-- What the readers of `archive/tar`, `compress/gzip` and `archive/zip` give is an input, as is what
-- the disk and the context do at each entry.
pub mod Paths
pub mod Disk
pub mod Parts
pub mod Passes
pub mod Directories
pub mod Outcomes
pub mod Confinement
pub mod Bounds
pub mod Contents
pub mod Unzipping
pub mod Modes
use tinkercloud.Prelude.{
  ℕ, zero, suc, ◌+◌, ◌-◌, ◌/◌, ◌%◌, ◌^◌, ◌==◌, Bool, true, false, not, ◌&&◌, ◌||◌, Option, none,
  some, List, [], ◌∷◌, Text, codes, text_eq, length, any, ltb, leb, if◌then◌else◌,
}
use tinkercloud.Prelude.Map.{insert, has_key}
use tinkercloud.Prelude.Strings.{take, to_lower, has_prefix}
use Paths.{clean}
use Disk.{Tree, has_dir, make_dir, make_parents}

-- Go's `int` and `int64` limits; one that is not positive is read as 0.
pub record Limits : Type 0 where
  pub max_entries : ℕ
  pub max_depth : ℕ
  pub max_expanded : ℕ
  pub max_file : ℕ

unfoldable pub valid_limits : Limits → Bool
valid_limits l =
    ltb 0 l.max_entries && ltb 0 l.max_depth && ltb 0 l.max_expanded && ltb 0 l.max_file

-- What happens around one entry: the context is done, the disk refuses to make a directory or a
-- file, the copy breaks off behind so many bytes, the file is not synced.
pub record Weather : Type 0 where
  pub cancelled : Bool
  pub mkdir_fails : Bool
  pub open_fails : Bool
  pub copy_fails : Option ℕ
  pub sync_fails : Bool

-- The size is the 64-bit pattern of an `int64`, the mode an `os.FileMode`, the content what the
-- reader of the entry gives.
pub record Entry : Type 0 where
  pub name : Text
  pub size : ℕ
  pub mode : ℕ
  pub dir : Bool
  pub content : Text

pub record Budget : Type 0 where
  pub n : ℕ
  pub total : ℕ
  pub seen : List Text

-- `ErrUnsafe`, and the errors of the disk and of the context.
pub data Error : Type 0 where
  unsafe failed : Error

-- The counters and the directory between two entries.
pub record Staging : Type 0 where
  pub budget : Budget
  pub tree : Tree

abbrev pub bit : ℕ → ℕ → Bool
bit k mode = (mode / 2 ^ k) % 2 == 1

-- `os.ModeSetuid|os.ModeSetgid|os.ModeSticky`.
unfoldable pub privileged : ℕ → Bool
privileged mode = bit 23 mode || bit 22 mode || bit 20 mode

-- `Rel(root, Join(root, n))` of a path that `path.Clean` gave is the path; the tests on it.
unfoldable pub outside : Text → Bool
unfolding text_eq has_prefix
outside rel = text_eq rel (codes "..") || has_prefix rel (codes "../")

-- The bytes that arrive in the file: at most one more than the size of the entry.
abbrev pub arrived : Weather → Entry → Text
arrived w e = elim w.copy_fails [
  | none ↦ take (suc e.size) e.content
  | some k ↦ take k (take (suc e.size) e.content)
]

unfoldable pub is_short : Weather → Entry → Bool
is_short w e = elim w.copy_fails [ none ↦ not (length (arrived w e) == e.size) | some k ↦ true ]

abbrev pub add_file : Text → Text → Tree → Tree
add_file n content t = record t { files = insert n content t.files }

-- The part of `put` that writes.
unfoldable pub write_entry : Weather → Entry → Text → Tree → Tree × Option Error
unfolding make_dir make_parents has_key has_dir is_short
write_entry w e n t =
    let d = make_dir n t in
    let p = make_parents n t in
    let full = add_file n (arrived w e) p.0 in
    if e.dir
    then if w.mkdir_fails then (t, some failed) else (d.0, if d.1 then none else some failed)
    else if w.mkdir_fails
    then (t, some failed)
    else if not p.1
    then (p.0, some failed)
    else if w.open_fails || has_key n p.0.files || has_dir n p.0
    then (p.0, some failed)
    else if is_short w e
    then (full, some unsafe)
    else (full, if w.sync_fails then some failed else none)

abbrev pub count_entry : Text → ℕ → Budget → Budget
count_entry key size b = record { n = b.n + 1; total = b.total + size; seen = key ∷ b.seen }

-- `put` of an entry whose name is cleaned to `n`. The total stays within `MaxExpanded`, so that the
-- sum that the source avoids is the same test.
unfoldable pub put_cleaned : Limits → Weather → Entry → Text → Staging → Staging × Option Error
unfolding privileged outside to_lower text_eq
put_cleaned l w e n s =
    let b = s.budget in
    let key = to_lower n in
    let counted : Staging = record s { budget = count_entry key e.size b } in
    let r = write_entry w e n s.tree in
    if leb (2 ^ 63) e.size || ltb l.max_file e.size || ltb l.max_expanded (b.total + e.size)
    then (s, some unsafe)
    else if leb l.max_entries b.n
    then (s, some unsafe)
    else if any (text_eq key) b.seen
    then (s, some unsafe)
    else if privileged e.mode
    then (counted, some unsafe)
    else if outside n
    then (counted, some unsafe)
    else (record counted { tree = r.0 }, r.1)

unfoldable pub put : Limits → Weather → Entry → Staging → Staging × Option Error
unfolding clean put_cleaned
put l w e s = if w.cancelled then (s, some failed) else elim (clean e.name l.max_depth) [
  | none ↦ (s, some unsafe)
  | some n ↦ put_cleaned l w e n s
]

-- One header of a tar file, its type flag read as far as the code does, or an error of the reader.
pub data TarType : Type 0 where
  regular directory other : TarType

pub record TarHeader : Type 0 where
  pub name : Text
  pub size : ℕ
  pub mode : ℕ
  pub typeflag : TarType
  pub content : Text

pub data TarStep : Type 0 where
  header : TarHeader → Weather → TarStep
  broken : TarStep

abbrev pub is_directory : TarType → Bool
is_directory regular = false
is_directory directory = true
is_directory other = false

abbrev pub is_other : TarType → Bool
is_other regular = false
is_other directory = false
is_other other = true

-- The mode is cast to 32 bits.
abbrev pub tar_entry : TarHeader → Entry
tar_entry h = record {
  name = h.name;
  size = h.size;
  mode = h.mode % 2 ^ 32;
  dir = is_directory h.typeflag;
  content = h.content;
}

-- A step that failed ends the pass.
abbrev pub go_on :
    Staging × Option Error → (Staging → Staging × Option Error) → Staging × Option Error
go_on (s, none) rest = rest s
go_on (s, some e) rest = (s, some e)

unfoldable pub tar_loop : Limits → List TarStep → Staging → Staging × Option Error
unfolding put
tar_loop l [] s = (s, none)
tar_loop l (broken ∷ steps) s = (s, some unsafe)
tar_loop l (header h w ∷ steps) s =
    if is_other h.typeflag
    then (s, some unsafe)
    else go_on (put l w (tar_entry h) s) (λ s'. tar_loop l steps s')

abbrev pub fresh : Tree → Staging
fresh t = record { budget = record { n = 0; total = 0; seen = [] }; tree = t }

-- `ExtractTarGz`; no steps where the data is no gzip stream.
unfoldable pub extract_tar_gz : Limits → Option (List TarStep) → Tree → Tree × Option Error
unfolding valid_limits tar_loop
extract_tar_gz l archive t = if not (valid_limits l) then (t, some unsafe) else elim archive [
  | none ↦ (t, some unsafe)
  | some steps ↦ let r = tar_loop l steps (fresh t) in (r.0.tree, r.1)
]

-- One file of a zip archive.
pub record ZipFile : Type 0 where
  pub name : Text
  pub size : ℕ
  pub mode : ℕ
  pub opens : Bool
  pub content : Text
  pub weather : Weather

-- `Mode()&os.ModeType != 0`: directory, link, device, pipe, socket, character device, irregular.
unfoldable pub has_type : ℕ → Bool
has_type mode =
    bit 31 mode
    || bit 27 mode
    || bit 26 mode
    || bit 25 mode
    || bit 24 mode
    || bit 21 mode
    || bit 19 mode

abbrev pub zip_entry : ZipFile → Entry
zip_entry f = record {
  name = f.name;
  size = f.size % 2 ^ 64;
  mode = f.mode;
  dir = bit 31 f.mode;
  content = f.content;
}

unfoldable pub zip_loop : Limits → List ZipFile → Staging → Staging × Option Error
unfolding has_type put
zip_loop l [] s = (s, none)
zip_loop l (f ∷ files) s =
    if has_type f.mode && not (bit 31 f.mode)
    then (s, some unsafe)
    else if not f.opens
    then (s, some unsafe)
    else go_on (put l f.weather (zip_entry f) s) (λ s'. zip_loop l files s')

-- `ExtractZip`.
unfoldable pub extract_zip : Limits → List ZipFile → Tree → Tree × Option Error
unfolding valid_limits zip_loop
extract_zip l files t =
    if not (valid_limits l)
    then (t, some unsafe)
    else let r = zip_loop l files (fresh t) in (r.0.tree, r.1)
