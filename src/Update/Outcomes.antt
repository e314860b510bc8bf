-- ===== src/Update/Outcomes.antt =====
-- internal/update/update.go: what an update leaves, whatever goes wrong.
use tinkercloud.Prelude.{
  ◌≡◌, refl, ap, Bool-cases, ◌∙◌, ◌⊎◌, inl, inr, Bool, true, false, none, some, List, arith, Text,
  Option-cases,
}
use tinkercloud.Update.Installer.{
  regular, Machine, Faults, snapshot, apply_bytes, restore, commit, restart, copy, atomic,
  file_bytes,
}
use tinkercloud.Update.{
  Artifact, Error, install_failed, unhealthy, healthy, rolled_back, rollback_failed, Report, verify,
  restore_and_restart, apply_after_restart, all_pass,
}

-- The old binary is in place and runs.
abbrev pub Serves : Machine → Text → Type 0
Serves m b = (m.target ≡ some (regular b)) × (m.running ≡ some b)

-- What a recovery leaves of a machine whose snapshot holds `b`: the old binary in place, running,
-- and no snapshot, or else the snapshot or the old binary in place.
restore_and_restart_lem :
    (f : Faults) (m : Machine) (cause : Error) (b : Text)
    → m.previous ≡ some (regular b)
    → let r = restore_and_restart f m cause in
      ((r.1 ≡ record { state = some rolled_back; error = some cause })
        × Serves r.0 b
        × (r.0.previous ≡ none))
      ⊎ ((r.1.state ≡ some rollback_failed)
          × ((r.0.previous ≡ some (regular b)) ⊎ (r.0.target ≡ some (regular b))))
unfolding restore_and_restart restore restart commit copy atomic
restore_and_restart_lem f m cause b e = ground (arith)

snapshot_lem :
    (f : Faults) (m : Machine) (old : Text)
    → m.target ≡ some (regular old)
    → ((snapshot f m).0.target ≡ m.target)
      × ((snapshot f m).0.running ≡ m.running)
      × (((snapshot f m).1 ≡ false) ⊎ ((snapshot f m).0.previous ≡ some (regular old)))
unfolding snapshot copy atomic
snapshot_lem f m old e = ground (arith, e)

apply_bytes_lem :
    (f : Faults) (m : Machine) (b : Text)
    → ((apply_bytes f m b).0.previous ≡ m.previous)
      × (((apply_bytes f m b).1 ≡ false) ⊎ ((apply_bytes f m b).0.target ≡ some (regular b)))
unfolding apply_bytes atomic
apply_bytes_lem f m b = ground arith

restart_lem :
    (works : Bool) (m : Machine)
    → ((restart works m).0.previous ≡ m.previous)
      × ((restart works m).0.target ≡ m.target)
      × (((restart works m).1 ≡ false) ⊎ ((restart works m).0.running ≡ file_bytes m.target))
unfolding restart
restart_lem works m = ground arith

-- How an update of a machine ends whose target holds `old`.
pub data Outcome (sha256 : Text → Text) (verifies : Text → Text → Bool) (m : Machine) (a : Artifact)
    (checks : List Bool) (old : Text) (r : Machine × Report) : Type 0 where
  refused :
      r.1.state ≡ none
      → r.0.target ≡ m.target
      → r.0.running ≡ m.running
      → Outcome sha256 verifies m a checks old r
  installed :
      r.1.state ≡ some healthy
      → verify sha256 verifies a ≡ none
      → all_pass checks ≡ true
      → Serves r.0 a.bytes
      → r.0.previous ≡ some (regular old)
      → Outcome sha256 verifies m a checks old r
  recovered :
      r.1.state ≡ some rolled_back
      → Serves r.0 old
      → r.0.previous ≡ none
      → Outcome sha256 verifies m a checks old r
  failed :
      r.1.state ≡ some rollback_failed
      → (r.0.previous ≡ some (regular old)) ⊎ (r.0.target ≡ some (regular old))
      → Outcome sha256 verifies m a checks old r

module _ (sha256 : Text → Text) (verifies : Text → Text → Bool) where
  recover-Outcome :
      (f : Faults) (m k : Machine) (a : Artifact) (checks : List Bool) (cause : Error) (old : Text)
      → k.previous ≡ some (regular old)
      → Outcome sha256 verifies m a checks old (restore_and_restart f k cause)
  recover-Outcome f m k a checks cause old e = elim (restore_and_restart_lem f k cause old e) [
    | inl (r, s, p) ↦ recovered (ap (λ (q : Report). q.state) r) s p
    | inr (r, p) ↦ failed r p
  ]

  begun :
      (f : Faults) (m : Machine) (a : Artifact) (checks : List Bool) (old : Text)
      → m.target ≡ some (regular old)
      → verify sha256 verifies a ≡ none
      → Outcome sha256 verifies m a checks old (apply_after_restart sha256 verifies f m a checks)
  unfolding apply_after_restart
  begun f m a checks old e v =
      let s = snapshot f m in
      let i = apply_bytes f s.0 a.bytes in
      let r = restart f.restart_new i.0 in
      let (same_target, same_running, taken) = snapshot_lem f m old e in
      let (kept, placed) = apply_bytes_lem f s.0 a.bytes in
      let (kept', target', runs) = restart_lem f.restart_new i.0 in
      elim (Bool-cases s.1) [
        | inr n ↦ rw (v, apply_after_restart) (rw n (refused refl same_target same_running))
        | inl y ↦
            let p : s.0.previous ≡ some (regular old) = ground (arith, taken, y) in
            elim (Bool-cases i.1) [
              | inr n ↦
                  rw (v, apply_after_restart)
                    (rw (y, n) (recover-Outcome f m i.0 a checks install_failed old (kept ∙ p)))
              | inl z ↦ elim (Bool-cases r.1) [
                | inr n ↦
                    rw (v, apply_after_restart)
                      (rw (y, z, n)
                        (recover-Outcome f m r.0 a checks unhealthy old (kept' ∙ kept ∙ p)))
                | inl w ↦ elim (Bool-cases (all_pass checks)) [
                  | inr n ↦
                      rw (v, apply_after_restart)
                        (rw (y, z, w, n)
                          (recover-Outcome f m r.0 a checks unhealthy old (kept' ∙ kept ∙ p)))
                  | inl c ↦
                      let t : i.0.target ≡ some (regular a.bytes) = ground (arith, placed, z) in
                      rw (v, apply_after_restart)
                        (rw (y, z, w, c)
                          (installed refl v c (target' ∙ t, ground (arith, runs, w, t))
                            (kept' ∙ kept ∙ p)))
                ]
              ]
            ]
      ]

  -- Whatever goes wrong in an update of a machine with the binary `old`: it does not begin, and the
  -- target and the running binary stay; or it is healthy, and then the artifact is authentic, every
  -- check has passed, it is in place and runs, and `old` is in the snapshot; or it is rolled back,
  -- and then `old` is in place and runs, with no snapshot left; or the rollback fails, and then
  -- `old` is still in the snapshot or in place.
  pub apply_after_restart-Outcome :
      (f : Faults) (m : Machine) (a : Artifact) (checks : List Bool) (old : Text)
      → m.target ≡ some (regular old)
      → Outcome sha256 verifies m a checks old (apply_after_restart sha256 verifies f m a checks)
  unfolding apply_after_restart
  apply_after_restart-Outcome f m a checks old e = elim (Option-cases (verify sha256 verifies a)) [
    | inr (x, v) ↦ rw (v, apply_after_restart) (refused refl refl refl)
    | inl v ↦ begun f m a checks old e v
  ]
