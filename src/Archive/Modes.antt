-- ===== src/Archive/Modes.antt =====
-- internal/archive/archive.go: the mode of a tar header, which is cast to `os.FileMode`.
use tinkercloud.Prelude.{
  ℕ, ◌%◌, ◌^◌, ◌<◌, ◌≡◌, refl, ap, ◌∙◌, not, Option, none, some, List, [], ◌∷◌, map, Text, All,
  arith, if◌then◌else◌,
}
use mathlib.Core.Path.{fun_ext}
use tinkercloud.Archive.{
  Limits, Weather, Entry, Staging, Error, privileged, put, put_cleaned, write_entry, is_short,
  failed, unsafe, TarStep, header, broken, tar_entry, is_other, go_on, tar_loop, fresh,
  valid_limits, extract_tar_gz,
}
use tinkercloud.Archive.Paths.{clean}
use tinkercloud.Archive.Disk.{Tree}

-- The same step with the mode 0.
abbrev pub no_mode : TarStep → TarStep
no_mode broken = broken
no_mode (header h w) = header (record h { mode = 0 }) w

-- The mode has no bit from the 20th on.
abbrev pub HasLowMode : TarStep → Type 0
HasLowMode broken = Unit
HasLowMode (header h w) = h.mode < 2 ^ 20

privileged_low : (m : ℕ) → m < 2 ^ 20 → privileged (m % 2 ^ 32) ≡ privileged 0
unfolding privileged
privileged_low m h = ground arith

write_entry-mode :
    (w : Weather) (e : Entry) (m : ℕ) (n : Text) (t : Tree)
    → write_entry w e n t ≡ write_entry w (record e { mode = m }) n t
unfolding write_entry is_short
write_entry-mode w e m n t = refl

put_cleaned-mode :
    (l : Limits) (w : Weather) (e : Entry) (m : ℕ) (n : Text) (s : Staging)
    → privileged e.mode ≡ privileged m
    → put_cleaned l w e n s ≡ put_cleaned l w (record e { mode = m }) n s
unfolding put_cleaned
put_cleaned-mode l w e m n s q = rw (q, write_entry-mode w e m n s.tree) refl

put-mode :
    (l : Limits) (w : Weather) (e : Entry) (m : ℕ) (s : Staging)
    → privileged e.mode ≡ privileged m
    → put l w e s ≡ put l w (record e { mode = m }) s
unfolding put
put-mode l w e m s q =
    ap
      (λ (f : Text → Staging × Option Error).
        if w.cancelled
        then (s, some failed)
        else elim (clean e.name l.max_depth) [ none ↦ (s, some unsafe) | some n ↦ f n ])
      (fun_ext (λ n. put_cleaned-mode l w e m n s q))

tar_loop-mode :
    (l : Limits) (steps : List TarStep) (s : Staging)
    → All HasLowMode steps
    → tar_loop l steps s ≡ tar_loop l (map no_mode steps) s
unfolding tar_loop
tar_loop-mode l [] s h = refl
tar_loop-mode l (broken ∷ steps) s h = refl
tar_loop-mode l (header g w ∷ steps) s h =
    let e = tar_entry g in
    let put_same = put-mode l w e 0 s (privileged_low g.mode h.0) in
    ap (λ (r : Staging × Option Error). if is_other g.typeflag then (s, some unsafe) else r)
      (ap (λ (p : Staging × Option Error). go_on p (tar_loop l steps)) put_same
        ∙ ap (go_on (put l w (record e { mode = 0 }) s))
            (fun_ext (λ s'. tar_loop-mode l steps s' h.1)))

-- A tar archive whose modes stay below 2 ^ 20, as those with the setuid, setgid and sticky bits of
-- tar (0o4000, 0o2000, 0o1000) do, is extracted as if every mode were 0: those bits are not refused.
extract_tar_gz-no_mode :
    (l : Limits) (steps : List TarStep) (t : Tree)
    → All HasLowMode steps
    → extract_tar_gz l (some steps) t ≡ extract_tar_gz l (some (map no_mode steps)) t
unfolding extract_tar_gz
extract_tar_gz-no_mode l steps t h =
    ap
      (λ (r : Staging × Option Error).
        if not (valid_limits l) then (t, some unsafe) else (r.0.tree, r.1))
      (tar_loop-mode l steps (fresh t) h)
