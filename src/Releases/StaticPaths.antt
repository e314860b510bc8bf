-- ===== src/Releases/StaticPaths.antt =====
-- internal/releases/static_path.go: which paths of a release may be requested.
use tinkercloud.Prelude.{
  ℕ, ◌-◌, ◌==◌, ◌≡◌, ◌↔◌, refl, ap, sym, ◌∙◌, Bool, true, false, not, ◌||◌, List, [], ◌∷◌, ◌++◌,
  Text, codes, text_eq, text_eq_iff, length, all, if_cases, if◌then◌else◌, arith, and_true,
}
use tinkercloud.Prelude.Strings.{drop, to_lower, has_prefix, contains_byte}
use tinkercloud.Archive.Paths.{
  path_clean, split_slash, add_to_first, slashed, join_slash, dots, or_dot, reduce_parts,
}
use mathlib.Core.List.{reverse, reverse-cons, append_assoc, append-nil, reverse-reverse}

-- `strings.HasSuffix`.
unfoldable pub has_suffix : Text → Text → Bool
unfolding text_eq
has_suffix s p = text_eq (drop (length s - length p) s) p

-- The test on one part.
unfoldable pub open_part : Text → Bool
unfolding text_eq has_prefix
open_part p = not (text_eq p [] || text_eq p (codes ".") || has_prefix p (codes "."))

-- `ServableStaticAssetPath`.
unfoldable pub servable : Text → Bool
unfolding text_eq has_prefix contains_byte path_clean split_slash open_part has_suffix to_lower
servable rel =
    if text_eq rel []
      || has_prefix rel (codes "/")
      || contains_byte rel b'\\'
      || not (text_eq (path_clean rel) rel)
      || has_prefix rel (codes "../")
    then false
    else if not (all open_part (split_slash rel))
    then false
    else not (has_suffix (to_lower rel) (codes ".map"))

slashed-add_to_first :
    (c : ℕ) (s : Text) (ps : List Text)
    → slashed ps ≡ b'/' ∷ s
    → slashed (add_to_first c ps) ≡ b'/' ∷ c ∷ s
unfolding slashed
slashed-add_to_first c s [] h = cc
slashed-add_to_first c s (p ∷ ps) h = cc

slashed-split_slash : (s : Text) → slashed (split_slash s) ≡ b'/' ∷ s
unfolding slashed split_slash
slashed-split_slash [] = refl
slashed-split_slash (c ∷ s) =
    let ih = slashed-split_slash s in
    if_cases (λ (ps : List Text). slashed ps ≡ b'/' ∷ c ∷ s) (c == b'/')
      (λ e. ground (arith, e, ih)) (λ _. slashed-add_to_first c s (split_slash s) ih)

-- A list that ends a text behind a slash is joined to it.
or_dot-slashed : (s : Text) (ps : List Text) → slashed ps ≡ b'/' ∷ s → or_dot ps ≡ s
unfolding or_dot join_slash slashed
or_dot-slashed s [] h = cc
or_dot-slashed s (p ∷ ps) h = cc

open_part_sound :
    (p : Text)
    → open_part p ≡ true
    → ((text_eq p [] || text_eq p (codes ".")) ≡ false) × (text_eq p (codes "..") ≡ false)
unfolding open_part text_eq has_prefix
open_part_sound [] h = cc
open_part_sound (x ∷ []) h = ground (arith, h)
open_part_sound (x ∷ y ∷ p) h = ground (arith, h)

reverse-append_cons :
    (p : Text) (ps kept : List Text) → reverse ps ++ (p ∷ kept) ≡ reverse (p ∷ ps) ++ kept
reverse-append_cons p ps kept =
    sym (ap (λ qs. qs ++ kept) (reverse-cons p ps) ∙ append_assoc (reverse ps) (p ∷ []) kept)

reduce_parts-open_part :
    (kept ps : List Text)
    → all open_part ps ≡ true
    → reduce_parts 0 kept ps ≡ (0, reverse ps ++ kept)
unfolding reduce_parts
reduce_parts-open_part kept [] h = refl
reduce_parts-open_part [] (p ∷ ps) h =
    let (o, os) = and_true (open_part p) (all open_part ps) h in
    let (e, f) = open_part_sound p o in
    rw (e, f)
      (reduce_parts-open_part (p ∷ []) ps os
        ∙ ap (λ (qs : List Text). (0, qs)) (reverse-append_cons p ps []))
reduce_parts-open_part (k ∷ kept) (p ∷ ps) h =
    let (o, os) = and_true (open_part p) (all open_part ps) h in
    let (e, f) = open_part_sound p o in
    rw (e, f)
      (reduce_parts-open_part (p ∷ k ∷ kept) ps os
        ∙ ap (λ (qs : List Text). (0, qs)) (reverse-append_cons p ps (k ∷ kept)))

path_clean-open_part : (rel : Text) → all open_part (split_slash rel) ≡ true → path_clean rel ≡ rel
unfolding path_clean dots
path_clean-open_part rel h =
    let ps = split_slash rel in
    let e = reduce_parts-open_part [] ps h in
    let f : reverse (reverse ps ++ []) ≡ ps =
      ap reverse (append-nil (reverse ps)) ∙ reverse-reverse ps in
    ap (λ (r : ℕ × List Text). or_dot (dots r.0 (reverse r.1))) e
    ∙ ap or_dot f
    ∙ or_dot-slashed rel ps (slashed-split_slash rel)

open_part_first : (c : ℕ) (p : Text) → open_part (c ∷ p) ≡ true → (c == b'.') ≡ false
unfolding open_part has_prefix text_eq
open_part_first c [] h = ground (arith, h)
open_part_first c (x ∷ p) h = ground (arith, h)

first_open :
    (c : ℕ) (ps : List Text) → all open_part (add_to_first c ps) ≡ true → (c == b'.') ≡ false
first_open c [] h = open_part_first c [] (and_true (open_part (c ∷ [])) true h).0
first_open c (p ∷ ps) h = open_part_first c p (and_true (open_part (c ∷ p)) (all open_part ps) h).0

-- The first byte of a path of open parts.
first_byte :
    (c : ℕ) (s : Text)
    → all open_part (split_slash (c ∷ s)) ≡ true
    → ((c == b'/') ≡ false) × ((c == b'.') ≡ false)
unfolding split_slash open_part text_eq has_prefix
first_byte c s =
    if_cases
      (λ (ps : List Text). all open_part ps ≡ true → ((c == b'/') ≡ false) × ((c == b'.') ≡ false))
      (c == b'/') (λ e k. cc) (λ e k. (e, first_open c (split_slash s) k))

empty_closed : all open_part (split_slash []) ≡ true → ⊥
unfolding split_slash open_part text_eq
empty_closed h = cc

servable_complete :
    (rel : Text)
    → contains_byte rel b'\\' ≡ false
    → all open_part (split_slash rel) ≡ true
    → has_suffix (to_lower rel) (codes ".map") ≡ false
    → servable rel ≡ true
unfolding servable text_eq has_prefix
servable_complete [] a b d = absurd (empty_closed b)
servable_complete (c ∷ s) a b d =
    let rel = c ∷ s in
    let (e, f) = first_byte c s b in
    let clean : text_eq (path_clean rel) rel ≡ true =
      (text_eq_iff (path_clean rel) rel).1 (path_clean-open_part rel b) in
    ground (arith, a, b, d, e, f, clean)

-- A path may be requested exactly when it has no backslash, no part that is empty or begins with a
-- dot, and does not end in ".map" in any case: with such parts the path is relative and clean.
pub servable_iff :
    (rel : Text)
    → (servable rel ≡ true)
      ↔ (contains_byte rel b'\\' ≡ false)
        × (all open_part (split_slash rel) ≡ true)
        × (has_suffix (to_lower rel) (codes ".map") ≡ false)
unfolding servable
servable_iff rel = (λ h. ground (arith, h), λ h. servable_complete rel h.0 h.1 h.2)
