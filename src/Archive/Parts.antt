-- ===== src/Archive/Parts.antt =====
-- internal/archive/archive.go: what `clean` makes of a name.
use tinkercloud.Prelude.{
  ℕ, zero, suc, ◌≤◌, ◌≡◌, refl, ◌≢◌, false, some, List, [], ◌∷◌, ◌++◌, arith, Text, codes, text_eq,
  length, All, any, ltb, ◌==◌, or_false, if_cases, subst, sym, ap, ◌∙◌, ◌||◌,
}
use tinkercloud.Prelude.Strings.{has_prefix, contains_byte}
use mathlib.Core.List.{reverse, reverse-cons}
use tinkercloud.Archive.{outside}
use tinkercloud.Archive.Paths.{
  or_dot, split_slash, add_to_first, slashed, join_slash, dots, reduce_parts, path_clean,
  refused_name, clean,
}

abbrev IsNameByte : ℕ → Type 0
IsNameByte c = (c ≤ 127) × (c ≢ b'\\') × (c ≢ b':')

-- A byte of a part: ASCII, and no slash, backslash or colon.
abbrev pub IsPartByte : ℕ → Type 0
IsPartByte c = IsNameByte c × (c ≢ b'/')

-- A part of a path that leads down.
pub record IsPart (p : Text) : Type 0 where
  pub bytes : All IsPartByte p
  pub nonempty : text_eq p [] ≡ false
  pub no_dot : text_eq p (codes ".") ≡ false
  pub no_dots : text_eq p (codes "..") ≡ false

refused_name_bytes :
    (s : Text)
    → contains_byte s b'\\' ≡ false
    → contains_byte s b':' ≡ false
    → any (λ c. ltb 127 c) s ≡ false
    → All IsNameByte s
unfolding contains_byte
refused_name_bytes [] h k m = tt
refused_name_bytes (c ∷ s) h k m =
    let (h₁, h₂) = or_false (c == b'\\') (contains_byte s b'\\') h in
    let (k₁, k₂) = or_false (c == b':') (contains_byte s b':') k in
    let (m₁, m₂) = or_false (ltb 127 c) (any (λ c. ltb 127 c) s) m in
    (ground arith, refused_name_bytes s h₂ k₂ m₂)

All-add_to_first :
    (c : ℕ) (ps : List Text)
    → IsPartByte c
    → All (All IsPartByte) ps
    → All (All IsPartByte) (add_to_first c ps)
All-add_to_first c [] b h = ((b, tt), tt)
All-add_to_first c (p ∷ ps) b h = ((b, h.0), h.1)

All-split_slash : (s : Text) → All IsNameByte s → All (All IsPartByte) (split_slash s)
unfolding split_slash
All-split_slash [] h = (tt, tt)
All-split_slash (c ∷ s) h =
    let ih = All-split_slash s h.1 in
    if_cases (All (All IsPartByte)) (c == b'/') (λ e. (tt, ih))
      (λ e. All-add_to_first c (split_slash s) (h.0, ground arith) ih)

part :
    (p : Text)
    → All IsPartByte p
    → (text_eq p [] || text_eq p (codes ".")) ≡ false
    → text_eq p (codes "..") ≡ false
    → IsPart p
part p b h k =
    let (e, d) = or_false (text_eq p []) (text_eq p (codes ".")) h in
    record { bytes = b; nonempty = e; no_dot = d; no_dots = k }

reduce_parts-IsPart :
    (ups : ℕ) (kept ps : List Text)
    → All IsPart kept
    → All (All IsPartByte) ps
    → All IsPart (reduce_parts ups kept ps).1
unfolding reduce_parts
reduce_parts-IsPart ups kept [] h b = h
reduce_parts-IsPart ups [] (p ∷ ps) h b =
    if_cases P (text_eq p [] || text_eq p (codes ".")) (λ e. reduce_parts-IsPart ups [] ps h b.1)
      (λ e.
        if_cases P (text_eq p (codes "..")) (λ e'. reduce_parts-IsPart (suc ups) [] ps h b.1)
          (λ e'. reduce_parts-IsPart ups (p ∷ []) ps (part p b.0 e e', h) b.1))
  where
    P : ℕ × List Text → Type 0
    P r = All IsPart r.1
reduce_parts-IsPart ups (k ∷ kept) (p ∷ ps) h b =
    if_cases P (text_eq p [] || text_eq p (codes "."))
      (λ e. reduce_parts-IsPart ups (k ∷ kept) ps h b.1)
      (λ e.
        if_cases P (text_eq p (codes "..")) (λ e'. reduce_parts-IsPart ups kept ps h.1 b.1)
          (λ e'. reduce_parts-IsPart ups (p ∷ k ∷ kept) ps (part p b.0 e e', h) b.1))
  where
    P : ℕ × List Text → Type 0
    P r = All IsPart r.1

All-append {κ} :
    {A : Type 0} (P : A → Type κ) (xs ys : List A) → All P xs → All P ys → All P (xs ++ ys)
All-append P [] ys h k = k
All-append P (x ∷ xs) ys h k = (h.0, All-append P xs ys h.1 k)

All-reverse {κ} : {A : Type 0} (P : A → Type κ) (xs : List A) → All P xs → All P (reverse xs)
All-reverse P [] h = tt
All-reverse P (x ∷ xs) h =
    subst (All P) (sym (reverse-cons x xs))
      (All-append P (reverse xs) (x ∷ []) (All-reverse P xs h.1) (h.0, tt))

-- The parts that stand between slashes come back.
pub split_slash-slashed :
    (p : Text) (ps : List Text)
    → All IsPartByte p
    → All (All IsPartByte) ps
    → split_slash (p ++ slashed ps) ≡ p ∷ ps
unfolding split_slash slashed
split_slash-slashed [] [] h k = refl
split_slash-slashed [] (q ∷ qs) h k = ap (λ r. [] ∷ r) (split_slash-slashed q qs k.0 k.1)
split_slash-slashed (c ∷ p) ps h k =
    let ih = split_slash-slashed p ps h.1 k in
    if_cases (λ r. r ≡ (c ∷ p) ∷ ps) (c == b'/') (λ e. ground (arith, h.0))
      (λ e. ap (add_to_first c) ih)

-- A path that leads down from the root, by at most `depth` parts.
pub record IsInside (depth : ℕ) (n : Text) : Type 0 where
  pub first : Text
  pub rest : List Text
  pub path : n ≡ first ++ slashed rest
  pub parts : All IsPart (first ∷ rest)
  pub deep : suc (length rest) ≤ depth

pub All-part_bytes : (ps : List Text) → All IsPart ps → All (All IsPartByte) ps
All-part_bytes [] h = tt
All-part_bytes (p ∷ ps) h = (h.0.bytes, All-part_bytes ps h.1)

IsInside-parts :
    (depth ups : ℕ) (ps : List Text)
    → All IsPart ps
    → text_eq (or_dot (dots ups ps)) (codes ".") ≡ false
    → has_prefix (or_dot (dots ups ps)) (codes "../") ≡ false
    → ltb depth (length (split_slash (or_dot (dots ups ps)))) ≡ false
    → outside (or_dot (dots ups ps)) ≡ false
    → IsInside depth (or_dot (dots ups ps))
unfolding or_dot dots join_slash slashed text_eq has_prefix outside
IsInside-parts depth zero [] h a b c o = ground arith
IsInside-parts depth zero (p ∷ ps) h a b c o = record {
  first = p;
  rest = ps;
  path = refl;
  parts = h;
  deep = ground (arith, split_slash-slashed p ps h.0.bytes (All-part_bytes ps h.1));
}
IsInside-parts depth (suc zero) [] h a b c o = ground arith
IsInside-parts depth (suc zero) (p ∷ ps) h a b c o = ground arith
IsInside-parts depth (suc (suc k)) ps h a b c o = ground arith

record Cleaned (name : Text) (depth : ℕ) (n : Text) : Type 0 where
  path : path_clean name ≡ n
  fit : refused_name name ≡ false
  no_dot : text_eq n (codes ".") ≡ false
  no_up : has_prefix n (codes "../") ≡ false
  deep : ltb depth (length (split_slash n)) ≡ false

clean-Cleaned :
    (name : Text) (depth : ℕ) (n : Text) → clean name depth ≡ some n → Cleaned name depth n
unfolding clean
clean-Cleaned name depth n h = ground (arith, h)

refused_name-All : (name : Text) → refused_name name ≡ false → All IsNameByte name
unfolding refused_name
refused_name-All name h =
    let (h₁, w) = or_false _ (any (λ c. ltb 127 c) name) h in
    let (h₂, c) = or_false _ (contains_byte name b':') h₁ in
    let (h₃, _) = or_false _ (has_prefix name (codes "/")) h₂ in
    let (_, b) = or_false _ (contains_byte name b'\\') h₃ in refused_name_bytes name b c w

-- What `clean` accepts leads down from the root, by at most as many parts as it is given, or is
-- "..".
pub clean_sound :
    (name : Text) (depth : ℕ) (n : Text)
    → clean name depth ≡ some n
    → outside n ≡ false
    → IsInside depth n
unfolding path_clean
clean_sound name depth n h o =
    let c = clean-Cleaned name depth n h in
    let r = reduce_parts 0 [] (split_slash name) in
    let bytes = All-split_slash name (refused_name-All name c.fit) in
    let parts = All-reverse IsPart r.1 (reduce_parts-IsPart 0 [] (split_slash name) tt bytes) in
    let q : or_dot (dots r.0 (reverse r.1)) ≡ n = c.path in
    subst (IsInside depth) q (
      IsInside-parts depth r.0 (reverse r.1) parts (ap (λ m. text_eq m (codes ".")) q ∙ c.no_dot)
        (ap (λ m. has_prefix m (codes "../")) q ∙ c.no_up)
        (ap (λ m. ltb depth (length (split_slash m))) q ∙ c.deep) (ap outside q ∙ o))
