-- ===== src/Uploads/Copying.antt =====
-- internal/uploads/uploads.go: what `Copy` stores and counts.
use tinkercloud.Prelude.{
  ℕ, zero, suc, ◌+◌, ◌-◌, ◌≤◌, ◌<◌, ◌==◌, ◌≡◌, refl, ap, ◌∙◌, Bool, true, false, not, ◌&&◌, Option,
  none, some, List, [], ◌∷◌, ◌++◌, Text, length, length-append, ltb, if◌then◌else◌, if_cases, arith,
}
use tinkercloud.Prelude.Strings.{take}
use mathlib.Core.List.{append_assoc, append-nil}
use tinkercloud.Uploads.{
  Round, Ending, more, eof, read_failed, quota_exceeded, cancelled_error, io_error, Outcome, stored,
  refused, waiting, Progress, write_chunk, copy_loop, copy,
}

-- The result tells the destination's bytes.
abbrev pub Tells : (Text → Text) → Text → Outcome → Type 0
Tells sha256 dst (stored r) = (r.bytes ≡ length dst) × (r.digest ≡ sha256 dst)
Tells sha256 dst (refused e) = Unit
Tells sha256 dst waiting = Unit

-- The destination holds at most the limit, and what a result tells of it is true.
pub record IsTrue (sha256 : Text → Text) (limit : ℕ) (r : Text × Outcome) : Type 0 where
  pub bounded : length r.0 ≤ limit
  pub told : Tells sha256 r.0 r.1

-- Between two rounds.
record IsLevel (limit : ℕ) (p : Progress) : Type 0 where
  counted : p.n ≡ length p.dst
  hashed : p.hashed ≡ p.dst
  bounded : p.n ≤ limit

abbrev written : Round → Progress → Progress × Bool
written r p = if length r.data_read == 0 then (p, true) else write_chunk r.stops_at r.data_read p

length-take-le : (k : ℕ) (s : Text) → length (take k s) ≤ length s
length-take-le zero s = omega arith
length-take-le (suc k) [] = omega arith
length-take-le (suc k) (c ∷ s) = omega (arith, length-take-le k s)

record Wrote (limit : ℕ) (w : Progress × Bool) : Type 0 where
  bounded : length w.0.dst ≤ limit
  level : w.1 ≡ true → IsLevel limit w.0

write_chunk-Wrote :
    (limit : ℕ) (stops : Option ℕ) (b : Text) (p : Progress)
    → IsLevel limit p
    → p.n + length b ≤ limit
    → Wrote limit (write_chunk stops b p)
write_chunk-Wrote limit none b p i h = record {
  bounded = omega (arith, length-append p.dst b, i.counted);
  level = λ _. record {
    counted = omega (arith, length-append p.dst b, i.counted);
    hashed = ap (λ s. s ++ b) i.hashed;
    bounded = h;
  };
}
write_chunk-Wrote limit (some k) b p i h = record {
  bounded = omega (arith, length-append p.dst (take k b), length-take-le k b, i.counted);
  level = λ q. cc;
}

written-Wrote :
    (limit : ℕ) (r : Round) (p : Progress)
    → IsLevel limit p
    → (not (length r.data_read == 0) && ltb (limit - p.n) (length r.data_read)) ≡ false
    → Wrote limit (written r p)
written-Wrote limit r p i h =
    if_cases (Wrote limit) (length r.data_read == 0)
      (λ _. record { bounded = omega (arith, i.counted, i.bounded); level = λ _. i })
      (λ e. write_chunk-Wrote limit r.stops_at r.data_read p i (ground (arith, e, h, i.bounded)))

module _ (sha256 : Text → Text) where
  -- Where a round that writes goes on.
  ended : ℕ → Ending → Progress → Text × Outcome → Text × Outcome
  ended limit e w rest = elim e [
    | eof ↦ (w.dst, stored (record { bytes = w.n; digest = sha256 w.hashed }))
    | read_failed ↦ (w.dst, refused io_error)
    | more ↦ rest
  ]

  ended-IsTrue :
      (limit : ℕ) (e : Ending) (w : Progress) (rest : Text × Outcome)
      → IsLevel limit w
      → IsTrue sha256 limit rest
      → IsTrue sha256 limit (ended limit e w rest)
  unfolding ended
  ended-IsTrue limit eof w rest i h = record {
    bounded = omega (arith, i.counted, i.bounded);
    told = (i.counted, ap sha256 i.hashed);
  }
  ended-IsTrue limit read_failed w rest i h = record {
    bounded = omega (arith, i.counted, i.bounded);
    told = tt;
  }
  ended-IsTrue limit more w rest i h = h

  copy_loop-IsTrue :
      (limit : ℕ) (rs : List Round) (p : Progress)
      → IsLevel limit p
      → IsTrue sha256 limit (copy_loop sha256 limit rs p)
  unfolding copy_loop ended
  copy_loop-IsTrue limit [] p i = record {
    bounded = omega (arith, i.counted, i.bounded);
    told = tt;
  }
  copy_loop-IsTrue limit (r ∷ rs) p i =
      let w = written r p in
      let here : IsTrue sha256 limit (p.dst, refused cancelled_error) = record {
        bounded = omega (arith, i.counted, i.bounded);
        told = tt;
      } in
      if_cases P r.cancelled (λ _. here)
        (λ _.
          if_cases P (not (length r.data_read == 0) && ltb (limit - p.n) (length r.data_read))
            (λ _. record { bounded = here.bounded; told = tt })
            (λ h.
              let o = written-Wrote limit r p i h in
              if_cases P (not w.1) (λ _. record { bounded = o.bounded; told = tt })
                (λ k.
                  let level = o.level (ground (arith, k)) in
                  ended-IsTrue limit r.ending w.0 _ level (copy_loop-IsTrue limit rs w.0 level))))
    where
      P : Text × Outcome → Type 0
      P = IsTrue sha256 limit

-- However the rounds go, the destination holds at most the limit's bytes, and where `Copy` returns a
-- result, it tells the number of the destination's bytes and their SHA-256.
pub copy-IsTrue :
    (sha256 : Text → Text) (limit : ℕ) (rs : List Round)
    → IsTrue sha256 limit (copy sha256 limit rs)
unfolding copy
copy-IsTrue sha256 limit rs =
    if_cases (IsTrue sha256 limit) (limit == 0) (λ _. record { bounded = omega arith; told = tt })
      (λ _.
        copy_loop-IsTrue sha256 limit rs _
          (record { counted = refl; hashed = refl; bounded = omega arith }))

-- The rounds of a reader that gives these chunks and then its end, where nothing fails.
unfoldable pub smooth : List Text → List Round
smooth [] = record { cancelled = false; data_read = []; ending = eof; stops_at = none } ∷ []
smooth (c ∷ cs) =
    record { cancelled = false; data_read = c; ending = more; stops_at = none } ∷ smooth cs

unfoldable pub joined : List Text → Text
joined [] = []
joined (c ∷ cs) = c ++ joined cs

module _ (sha256 : Text → Text) where
  stored_all : Progress → Text → Text × Outcome
  stored_all p s =
      (p.dst ++ s, stored (record { bytes = p.n + length s; digest = sha256 (p.hashed ++ s) }))

  zero_add : (a : ℕ) → 0 + a ≡ a
  zero_add a = omega arith

  add_zero : (a : ℕ) → a + 0 ≡ a
  add_zero a = omega arith

  add_assoc : (a b c : ℕ) → a + b + c ≡ a + (b + c)
  add_assoc a b c = omega arith

  stored_all-start :
      (s : Text)
      → stored_all (record { n = 0; dst = []; hashed = [] }) s
        ≡ (s, stored (record { bytes = length s; digest = sha256 s }))
  unfolding stored_all
  stored_all-start s = rw (zero_add (length s)) refl

  stored_all-append :
      (p : Progress) (c s : Text) → stored_all (write_chunk none c p).0 s ≡ stored_all p (c ++ s)
  unfolding stored_all
  stored_all-append p c s =
      rw
        (
          append_assoc p.dst c s,
          append_assoc p.hashed c s,
          length-append c s,
          add_assoc p.n (length c) (length s),
        )
        refl

  copy_loop-smooth :
      (limit : ℕ) (cs : List Text) (p : Progress)
      → p.n + length (joined cs) ≤ limit
      → copy_loop sha256 limit (smooth cs) p ≡ stored_all p (joined cs)
  unfolding copy_loop smooth joined stored_all
  copy_loop-smooth limit [] p h = rw (append-nil p.dst, append-nil p.hashed, add_zero p.n) refl
  copy_loop-smooth limit ([] ∷ cs) p h = copy_loop-smooth limit cs p h
  copy_loop-smooth limit ((x ∷ c) ∷ cs) p h =
      let d = x ∷ c in
      let next = (write_chunk none d p).0 in
      let fits : ltb (limit - p.n) (length d) ≡ false =
        ground (arith, h, length-append d (joined cs)) in
      let full : (length d == 0) ≡ false = ground arith in
      let rest = copy_loop-smooth limit cs next (omega (arith, h, length-append d (joined cs))) in
      rw (full, fits, rest) (stored_all-append p d (joined cs))

  copy_loop-over :
      (limit : ℕ) (cs : List Text) (p : Progress)
      → p.n ≤ limit
      → limit < p.n + length (joined cs)
      → (copy_loop sha256 limit (smooth cs) p).1 ≡ refused quota_exceeded
  unfolding copy_loop smooth joined
  copy_loop-over limit [] p b h = absurd (omega (arith, b, h))
  copy_loop-over limit ([] ∷ cs) p b h = copy_loop-over limit cs p b h
  copy_loop-over limit ((x ∷ c) ∷ cs) p b h =
      let d = x ∷ c in
      let next = (write_chunk none d p).0 in
      let full : (length d == 0) ≡ false = ground arith in
      rw full (
        if_cases (λ (r : Text × Outcome). r.1 ≡ refused quota_exceeded)
          (ltb (limit - p.n) (length d)) (λ _. refl)
          (λ e.
            copy_loop-over limit cs next (ground (arith, b, e))
              (omega (arith, h, length-append d (joined cs)))))

-- Where nothing fails, an upload of at most the limit, which is not 0, is stored whole, however the
-- reader cuts it into chunks, and the result tells its length and its SHA-256; a longer one is
-- refused.
copy-smooth :
    (sha256 : Text → Text) (limit : ℕ) (cs : List Text)
    → 0 < limit
    → (length (joined cs) ≤ limit
        → copy sha256 limit (smooth cs) ≡ (
          joined cs,
          stored (record { bytes = length (joined cs); digest = sha256 (joined cs) }),
        ))
      × (limit < length (joined cs) → (copy sha256 limit (smooth cs)).1 ≡ refused quota_exceeded)
unfolding copy
copy-smooth sha256 limit cs h =
    let start : Progress = record { n = 0; dst = []; hashed = [] } in
    let positive : (limit == 0) ≡ false = ground (arith, h) in
    (
      λ k. rw positive (
          copy_loop-smooth sha256 limit cs start (omega (arith, k))
          ∙ stored_all-start sha256 (joined cs)),
      λ k. rw positive (copy_loop-over sha256 limit cs start (omega arith) (omega (arith, k))),
    )
