-- ===== src/Update.antt =====
-- internal/update/update.go and file_installer.go: replacing the server's binary. `ed25519.Verify`
-- and SHA-256 are parameters. What goes wrong in one update is chosen by `Faults`.
pub mod Installer
pub mod Outcomes
pub mod Signing
use tinkercloud.Prelude.{
  ℕ, ◌+◌, ◌/◌, ◌%◌, Bool, true, false, not, ◌&&◌, Option, none, some, List, [], ◌∷◌, ◌++◌, Text,
  codes, text_eq, ltb, if◌then◌else◌,
}
use Installer.{Node, Machine, Faults, snapshot, apply_bytes, restore, commit, restart}

pub record Artifact : Type 0 where
  pub version : Text
  pub api : Text
  pub schema : Text
  pub bytes : Text
  pub signature : Text
  pub digest : Text

pub data Error : Type 0 where
  digest_mismatch bad_signature unhealthy install_failed : Error

-- The states of an update that has begun; `rollback_ready` is never returned.
pub data State : Type 0 where
  rollback_ready applying healthy rolled_back rollback_failed : State

-- `hex.EncodeToString`.
abbrev hex_digit : ℕ → ℕ
hex_digit d = if ltb d 10 then d + b'0' else d + 87

unfoldable pub hex_encode : Text → Text
hex_encode [] = []
hex_encode (c ∷ s) = hex_digit (c / 16) ∷ hex_digit (c % 16) ∷ hex_encode s

unfoldable pub signed : Artifact → Text
unfolding hex_encode
signed a = a.version ++ (b'\n' ∷ (a.api ++ (b'\n' ∷ (a.schema ++ (b'\n' ∷ hex_encode a.digest)))))

-- The result of an update: no state where it did not begin, and the error.
pub record Report : Type 0 where
  pub state : Option State
  pub error : Option Error

abbrev stopped : Error → Report
stopped e = record { state = none; error = some e }

abbrev ended : State → Option Error → Report
ended s e = record { state = some s; error = e }

-- Where a step of `Apply` fails, the old binary is put back.
unfoldable pub restore_only : Faults → Machine → Error → Machine × Report
restore_only f m cause =
    let r = restore f m in
    if r.1
    then (r.0, ended rolled_back (some cause))
    else (r.0, ended rollback_failed (some install_failed))

-- `restoreAndRestart`.
unfoldable pub restore_and_restart : Faults → Machine → Error → Machine × Report
restore_and_restart f m cause =
    let r = restore f m in
    let s = restart f.restart_old r.0 in
    let c = commit f s.0 in
    if not r.1
    then (r.0, ended rollback_failed (some install_failed))
    else if not s.1
    then (s.0, ended rollback_failed (some install_failed))
    else if not c.1
    then (c.0, ended rollback_failed (some install_failed))
    else (c.0, ended rolled_back (some cause))

abbrev all_pass : List Bool → Bool
all_pass [] = true
all_pass (c ∷ cs) = c && all_pass cs

module _ (sha256 : Text → Text) (verifies : Text → Text → Bool) where
  -- `Verify`: the error, if there is one.
  unfoldable pub verify : Artifact → Option Error
  verify a =
      if not (text_eq (sha256 a.bytes) a.digest)
      then some digest_mismatch
      else if not (verifies (signed a) a.signature)
      then some bad_signature
      else none

  -- `Apply`, with one health check.
  unfoldable pub apply_update : Faults → Machine → Artifact → Bool → Machine × Report
  unfolding restore_only
  apply_update f m a check = elim (verify a) [
    | some e ↦ (m, stopped e)
    | none ↦
        let s = snapshot f m in
        let i = apply_bytes f s.0 a.bytes in
        if not s.1
        then (s.0, stopped install_failed)
        else if not i.1
        then restore_only f i.0 install_failed
        else if not check
        then restore_only f i.0 unhealthy
        else (i.0, ended healthy none)
  ]

  -- `ApplyAfterRestart`; `checks` are the answers of the health checks, false for a missing one.
  unfoldable pub apply_after_restart : Faults → Machine → Artifact → List Bool → Machine × Report
  unfolding restore_and_restart
  apply_after_restart f m a checks = elim (verify a) [
    | some e ↦ (m, stopped e)
    | none ↦
        let s = snapshot f m in
        let i = apply_bytes f s.0 a.bytes in
        let r = restart f.restart_new i.0 in
        if not s.1
        then (s.0, stopped install_failed)
        else if not i.1
        then restore_and_restart f i.0 install_failed
        else if not r.1
        then restore_and_restart f r.0 unhealthy
        else if not (all_pass checks)
        then restore_and_restart f r.0 unhealthy
        else (r.0, ended healthy none)
  ]
