-- ===== src/Archive/Disk.antt =====
-- internal/archive/archive.go: the staging directory that `put` writes to. A path is what follows
-- the root and its slash; the root itself exists.
use tinkercloud.Prelude.{Bool, true, false, List, [], ◌∷◌, Text, text_eq, any, map, if◌then◌else◌}
use tinkercloud.Prelude.Map.{Map, has_key}
use tinkercloud.Archive.Paths.{split_slash, join_slash}

-- The contents of the files, and the directories.
pub record Tree : Type 0 where
  pub files : Map Text
  pub dirs : List Text

unfoldable pub has_dir : Text → Tree → Bool
has_dir n t = any (text_eq n) t.dirs

-- The beginnings of a list of parts, the shortest first.
unfoldable pub beginnings : List Text → List (List Text)
beginnings [] = []
beginnings (p ∷ ps) = (p ∷ []) ∷ map (λ qs. p ∷ qs) (beginnings ps)

abbrev pub without_last : List Text → List Text
without_last [] = []
without_last (p ∷ []) = []
without_last (p ∷ q ∷ ps) = p ∷ without_last (q ∷ ps)

-- The path and the directories above it, from the top.
unfoldable pub paths_to : List Text → List Text
unfolding join_slash beginnings
paths_to ps = map join_slash (beginnings ps)

abbrev pub add_dir : Text → Tree → Tree
add_dir n t = record t { dirs = n ∷ t.dirs }

-- `os.MkdirAll`, over the paths from the top: a file that stands in the way is an error.
unfoldable pub make_dirs : List Text → Tree → Tree × Bool
unfolding has_key has_dir
make_dirs [] t = (t, true)
make_dirs (n ∷ ns) t =
    let old = make_dirs ns t in
    let new = make_dirs ns (add_dir n t) in
    if has_key n t.files then (t, false) else if has_dir n t then old else new

unfoldable pub make_dir : Text → Tree → Tree × Bool
unfolding split_slash paths_to make_dirs
make_dir n t = make_dirs (paths_to (split_slash n)) t

unfoldable pub make_parents : Text → Tree → Tree × Bool
unfolding split_slash paths_to make_dirs
make_parents n t = make_dirs (paths_to (without_last (split_slash n))) t
