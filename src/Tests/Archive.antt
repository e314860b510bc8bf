-- ===== src/Tests/Archive.antt =====
-- internal/archive/archive.go: instances.
use tinkercloud.Prelude.{List, ap, ◌≡◌, refl, true, false, none, some, [], ◌∷◌, codes}
use tinkercloud.Archive.{
  Limits, Weather, unsafe, TarStep, header, regular, directory, ZipFile, write_entry,
  extract_tar_gz, extract_zip,
}
use tinkercloud.Prelude.Map.{lookup, insert}
use tinkercloud.Archive.Disk.{Tree}
use tinkercloud.Archive.Directories.{IsConfined}
use tinkercloud.Archive.Confinement.{extract-IsConfined}
use tinkercloud.Archive.Unzipping.{tar, zip, extract, IsWhole, extract-IsWhole}

abbrev limits : Limits
limits = record { max_entries = 3; max_depth = 4; max_expanded = 10; max_file = 10 }

abbrev calm : Weather
calm = record {
  cancelled = false;
  mkdir_fails = false;
  open_fails = false;
  copy_fails = none;
  sync_fails = false;
}

abbrev empty_tree : Tree
empty_tree = record { files = []; dirs = [] }

-- A directory, and a file whose mode is 0o4755.
abbrev steps : List TarStep
steps =
    header (record { name = codes "a/"; size = 0; mode = 493; typeflag = directory; content = [] })
      calm
    ∷ header
        (record {
          name = codes "a/./x";
          size = 2;
          mode = 2541;
          typeflag = regular;
          content = codes "hi";
        })
        calm
    ∷ []

abbrev escaping : ZipFile
escaping = record {
  name = codes "a/../../x";
  size = 1;
  mode = 420;
  opens = true;
  content = codes "!";
  weather = calm;
}

tar_extracted :
    extract_tar_gz limits (some steps) empty_tree
    ≡ (record { files = (codes "a/x", codes "hi") ∷ []; dirs = codes "a" ∷ [] }, none)
unfolding extract_tar_gz write_entry lookup insert
tar_extracted = refl

escape_refused : extract_zip limits (escaping ∷ []) empty_tree ≡ (empty_tree, some unsafe)
unfolding extract_zip
escape_refused = refl

extract-IsConfined_example :
    IsConfined 4 (extract_tar_gz limits (some steps) empty_tree).0
    × IsConfined 4 (extract_zip limits (escaping ∷ []) empty_tree).0
extract-IsConfined_example =
    extract-IsConfined limits (some steps) (escaping ∷ []) empty_tree
      (record { files = tt; dirs = tt })

extract-IsWhole_example : IsWhole 4 (tar steps) (extract limits (tar steps) empty_tree).0
extract-IsWhole_example =
    extract-IsWhole limits (tar steps) empty_tree (ap (λ r. r.1) tar_extracted)

abbrev plain_file : ZipFile
plain_file = record escaping { name = codes "a/x" }

zip_extracted :
    extract limits (zip (plain_file ∷ [])) empty_tree
    ≡ (record { files = (codes "a/x", codes "!") ∷ []; dirs = codes "a" ∷ [] }, none)
unfolding extract_zip write_entry lookup insert
zip_extracted = refl
