-- ===== src/Archive/Passes.antt =====
-- internal/archive/archive.go: the two loops as passes of `put`.
use tinkercloud.Prelude.{
  not, ◌&&◌, Option, none, some, List, [], ◌∷◌, if_cases, ◌≡◌, refl, ap, subst, sym,
}
use tinkercloud.Archive.{
  Limits, Weather, Entry, Staging, Error, put, bit, has_type, TarStep, header, broken, is_other,
  tar_entry, tar_loop, go_on, ZipFile, zip_entry, zip_loop,
}

-- What some entries, put one behind the other, make of the staging directory: each succeeds but
-- perhaps the last.
pub data Puts (l : Limits) : Staging → Staging → Type 0 where
  done : {s : Staging} → Puts l s s
  last : (w : Weather) (e : Entry) {s : Staging} → Puts l s (put l w e s).0
  next :
      (w : Weather) (e : Entry) {s r : Staging}
      → (put l w e s).1 ≡ none
      → Puts l (put l w e s).0 r
      → Puts l s r

go_on-Puts :
    (l : Limits) (w : Weather) (e : Entry) (s : Staging) (rest : Staging → Staging × Option Error)
    → ((r : Staging) → Puts l r (rest r).0)
    → Puts l s (go_on (put l w e s) rest).0
go_on-Puts l w e s rest h = cases (put l w e s) refl
  where
    cases : (p : Staging × Option Error) → put l w e s ≡ p → Puts l s (go_on p rest).0
    cases (r, none) q =
        next w e (ap (λ p. p.1) q) (subst (λ p. Puts l p.0 (rest r).0) (sym q) (h r))
    cases (r, some x) q = subst (λ (p : Staging × Option Error). Puts l s p.0) q (last w e)

pub tar_loop-Puts :
    (l : Limits) (steps : List TarStep) (s : Staging) → Puts l s (tar_loop l steps s).0
unfolding tar_loop
tar_loop-Puts l [] s = done
tar_loop-Puts l (broken ∷ steps) s = done
tar_loop-Puts l (header h w ∷ steps) s =
    if_cases (λ (r : Staging × Option Error). Puts l s r.0) (is_other h.typeflag) (λ e. done)
      (λ e. go_on-Puts l w (tar_entry h) s (tar_loop l steps) (tar_loop-Puts l steps))

pub zip_loop-Puts :
    (l : Limits) (files : List ZipFile) (s : Staging) → Puts l s (zip_loop l files s).0
unfolding zip_loop
zip_loop-Puts l [] s = done
zip_loop-Puts l (f ∷ files) s =
    if_cases (λ (r : Staging × Option Error). Puts l s r.0) (has_type f.mode && not (bit 31 f.mode))
      (λ e. done)
      (λ e.
        if_cases (λ (r : Staging × Option Error). Puts l s r.0) (not f.opens) (λ e'. done)
          (λ e'. go_on-Puts l f.weather (zip_entry f) s (zip_loop l files) (zip_loop-Puts l files)))
