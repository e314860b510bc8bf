-- ===== src/Archive/Bounds.antt =====
-- internal/archive/archive.go: how much an archive writes.
use tinkercloud.Prelude.{ℕ, suc, ◌+◌, ◌≤◌, [], ◌∷◌, Text, length}
use tinkercloud.Prelude.Map.{Map}
use tinkercloud.Archive.{Limits, Staging}
use tinkercloud.Archive.Disk.{Tree}

-- The bytes in all files.
pub file_bytes : Map Text → ℕ
file_bytes [] = 0
file_bytes ((n, v) ∷ m) = length v + file_bytes m

-- How far the files have grown from those of `base`, with `slack` bytes more than are counted.
record Within (l : Limits) (base : Map Text) (slack : ℕ) (s : Staging) : Type 0 where
  bytes : file_bytes s.tree.files ≤ file_bytes base + s.budget.total + slack
  count : length s.tree.files ≤ length base + s.budget.n
  total : s.budget.total ≤ l.max_expanded
  n : s.budget.n ≤ l.max_entries

-- What one write adds.
record Grown (size slack : ℕ) (t r : Tree) : Type 0 where
  bytes : file_bytes r.files ≤ file_bytes t.files + size + slack
  count : length r.files ≤ suc (length t.files)

-- At most `MaxEntries` files more than before, of at most `MaxExpanded` bytes and one.
pub record IsBounded (l : Limits) (t r : Tree) : Type 0 where
  pub bytes : file_bytes r.files ≤ file_bytes t.files + l.max_expanded + 1
  pub count : length r.files ≤ length t.files + l.max_entries
