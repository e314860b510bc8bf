-- ===== src/Update/Installer.antt =====
-- internal/update/file_installer.go: the files of an installation, with the service manager beside
-- them. A file's mode is left out; a node that is no regular file is `special`.
use tinkercloud.Prelude.{Bool, true, false, Option, none, some, Text, if◌then◌else◌}

pub data Node : Type 0 where
  regular : Text → Node
  special : Node

-- The target, the snapshot `previous` in the rollback directory, and the binary that the service
-- runs, none where it is down.
pub record Machine : Type 0 where
  pub target : Option Node
  pub previous : Option Node
  pub running : Option Text

-- A replacement of a file fails before the rename, or behind it, when the directory is synced.
pub data Fault : Type 0 where
  no_fault before_rename after_rename : Fault

pub data CommitFault : Type 0 where
  no_commit_fault stat_fails remove_fails directory_stays : CommitFault

pub record Faults : Type 0 where
  pub snapshot : Fault
  pub apply : Fault
  pub restore : Fault
  pub commit : CommitFault
  pub restart_new : Bool
  pub restart_old : Bool

-- `atomic`: the node at the path afterwards, and whether it succeeds.
unfoldable pub atomic : Fault → Option Node → Text → Option Node × Bool
atomic no_fault old b = (some (regular b), true)
atomic before_rename old b = (old, false)
atomic after_rename old b = (some (regular b), false)

-- `copy`: only a regular file is copied.
unfoldable pub copy : Fault → Option Node → Option Node → Option Node × Bool
unfolding atomic
copy f none old = (old, false)
copy f (some special) old = (old, false)
copy f (some (regular b)) old = atomic f old b

unfoldable pub snapshot : Faults → Machine → Machine × Bool
unfolding copy
snapshot f m = let c = copy f.snapshot m.target m.previous in (record m { previous = c.0 }, c.1)

unfoldable pub apply_bytes : Faults → Machine → Text → Machine × Bool
unfolding atomic
apply_bytes f m b = let c = atomic f.apply m.target b in (record m { target = c.0 }, c.1)

unfoldable pub restore : Faults → Machine → Machine × Bool
unfolding copy
restore f m = let c = copy f.restore m.previous m.target in (record m { target = c.0 }, c.1)

-- `Commit`: a snapshot that is gone is no error; the directory that stays is one.
commit_regular : CommitFault → Option Node × Bool → Option Node × Bool
commit_regular no_commit_fault kept = (none, true)
commit_regular stat_fails kept = kept
commit_regular remove_fails kept = kept
commit_regular directory_stays kept = (none, false)

commit_absent : CommitFault → Bool
commit_absent stat_fails = false
commit_absent _ = true

unfoldable pub commit : Faults → Machine → Machine × Bool
unfolding commit_regular commit_absent
commit f m = elim m.previous [
  | none ↦ (m, commit_absent f.commit)
  | some n ↦ elim n [
    | special ↦ (m, false)
    | regular b ↦
        let c = commit_regular f.commit (m.previous, false) in (record m { previous = c.0 }, c.1)
  ]
]

-- The bytes of a regular file.
abbrev pub file_bytes : Option Node → Option Text
file_bytes none = none
file_bytes (some special) = none
file_bytes (some (regular b)) = some b

-- A restart that succeeds runs the target; after one that fails the service is down.
unfoldable pub restart : Bool → Machine → Machine × Bool
restart works m =
    if works
    then (record m { running = file_bytes m.target }, true)
    else (record m { running = none }, false)
