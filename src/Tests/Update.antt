-- ===== src/Tests/Update.antt =====
-- internal/update/update.go and file_installer.go: instances.
use tinkercloud.Prelude.{refl, Bool, true, false, none, some, [], ◌∷◌, Text, codes}
use tinkercloud.Update.{Artifact, apply_after_restart}
use tinkercloud.Update.Installer.{Machine, regular, Faults, no_fault, no_commit_fault}
use tinkercloud.Update.Outcomes.{Outcome, apply_after_restart-Outcome}

abbrev sha : Text → Text
sha t = t

abbrev trusting : Text → Text → Bool
trusting message signature = true

abbrev no_faults : Faults
no_faults = record {
  snapshot = no_fault;
  apply = no_fault;
  restore = no_fault;
  commit = no_commit_fault;
  restart_new = true;
  restart_old = true;
}

abbrev machine : Machine
machine = record {
  target = some (regular (codes "old"));
  previous = none;
  running = some (codes "old");
}

abbrev artifact : Artifact
artifact = record {
  version = codes "2";
  api = codes "1";
  schema = codes "1";
  bytes = codes "new";
  signature = [];
  digest = codes "new";
}

apply_after_restart-Outcome_example :
    Outcome sha trusting machine artifact
      (true ∷ false ∷ [])
      (codes "old")
      (apply_after_restart sha trusting no_faults machine artifact (true ∷ false ∷ []))
apply_after_restart-Outcome_example =
    apply_after_restart-Outcome sha trusting no_faults machine artifact (true ∷ false ∷ [])
      (codes "old") refl
