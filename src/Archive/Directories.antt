-- ===== src/Archive/Directories.antt =====
-- internal/archive/archive.go: the directories that are made lie below the root.
use tinkercloud.Prelude.{
  ◌≡◌, ℕ, zero, suc, ◌≤◌, refl, subst, ap, ◌∙◌, Bool, List, [], ◌∷◌, map, arith, Text, length, All,
  if_cases, sym, text_eq,
}
use tinkercloud.Prelude.Map.{Map, insert, has_key}
use tinkercloud.Archive.{add_file}
use tinkercloud.Archive.Paths.{split_slash, join_slash}
use tinkercloud.Archive.Disk.{
  Tree, beginnings, without_last, paths_to, add_dir, make_dirs, make_dir, make_parents, has_dir,
}
use tinkercloud.Archive.Parts.{IsPart, IsInside, split_slash-slashed, All-part_bytes}

-- Every file and directory lies below the root, at most `depth` deep.
pub record IsConfined (depth : ℕ) (t : Tree) : Type 0 where
  pub files : All (λ f. IsInside depth f.0) t.files
  pub dirs : All (IsInside depth) t.dirs

All-map {κ} :
    {A : Type 0} {B : Type 0} (P : B → Type κ) (f : A → B) (xs : List A)
    → All (λ x. P (f x)) xs
    → All P (map f xs)
All-map P f [] h = tt
All-map P f (x ∷ xs) h = (h.0, All-map P f xs h.1)

All-weaken {κ μ} :
    {A : Type 0} (P : A → Type κ) (Q : A → Type μ) (xs : List A)
    → ((x : A) → P x → Q x)
    → All P xs
    → All Q xs
All-weaken P Q [] f h = tt
All-weaken P Q (x ∷ xs) f h = (f x h.0, All-weaken P Q xs f h.1)

-- A list of parts that leads down by at least one and at most `depth`.
abbrev LeadsDown : ℕ → List Text → Type 0
LeadsDown depth [] = ⊥
LeadsDown depth (p ∷ ps) = All IsPart (p ∷ ps) × (suc (length ps) ≤ depth)

below :
    (depth : ℕ) (p : Text) (qs : List Text)
    → IsPart p
    → LeadsDown depth qs
    → LeadsDown (suc depth) (p ∷ qs)
below depth p [] i h = absurd h
below depth p (q ∷ qs) i h = ((i, h.0), omega (arith, h.1))

beginnings-LeadsDown :
    (depth : ℕ) (ps : List Text)
    → All IsPart ps
    → length ps ≤ depth
    → All (LeadsDown depth) (beginnings ps)
unfolding beginnings
beginnings-LeadsDown depth [] h d = tt
beginnings-LeadsDown zero (p ∷ ps) h d = absurd (omega arith)
beginnings-LeadsDown (suc depth) (p ∷ ps) h d = (
  ((h.0, tt), omega arith),
  All-map (LeadsDown (suc depth)) (λ qs. p ∷ qs) (beginnings ps)
      (All-weaken (LeadsDown depth) (λ qs. LeadsDown (suc depth) (p ∷ qs)) (beginnings ps)
        (λ qs. below depth p qs h.0) (beginnings-LeadsDown depth ps h.1 (omega arith))),
)

join_slash-IsInside :
    (depth : ℕ) (ps : List Text) → LeadsDown depth ps → IsInside depth (join_slash ps)
unfolding join_slash
join_slash-IsInside depth [] h = absurd h
join_slash-IsInside depth (p ∷ ps) h = record {
  first = p;
  rest = ps;
  path = refl;
  parts = h.0;
  deep = h.1;
}

paths_to-IsInside :
    (depth : ℕ) (ps : List Text)
    → All IsPart ps
    → length ps ≤ depth
    → All (IsInside depth) (paths_to ps)
unfolding paths_to
paths_to-IsInside depth ps h d = All-map (IsInside depth) join_slash (beginnings ps) (
    All-weaken (LeadsDown depth) (λ qs. IsInside depth (join_slash qs)) (beginnings ps)
      (join_slash-IsInside depth) (beginnings-LeadsDown depth ps h d))

All-without_last : (ps : List Text) → All IsPart ps → All IsPart (without_last ps)
All-without_last [] h = tt
All-without_last (p ∷ []) h = tt
All-without_last (p ∷ q ∷ ps) h = (h.0, All-without_last (q ∷ ps) h.1)

length-without_last-le : (ps : List Text) → length (without_last ps) ≤ length ps
length-without_last-le [] = omega arith
length-without_last-le (p ∷ []) = omega arith
length-without_last-le (p ∷ q ∷ ps) = omega (arith, length-without_last-le (q ∷ ps))

make_dirs-IsConfined :
    (depth : ℕ) (ns : List Text) (t : Tree)
    → All (IsInside depth) ns
    → IsConfined depth t
    → IsConfined depth (make_dirs ns t).0
unfolding make_dirs
make_dirs-IsConfined depth [] t h c = c
make_dirs-IsConfined depth (n ∷ ns) t h c =
    if_cases P (has_key n t.files) (λ e. c)
      (λ e.
        if_cases P (has_dir n t) (λ e'. make_dirs-IsConfined depth ns t h.1 c)
          (λ e'.
            make_dirs-IsConfined depth ns (add_dir n t) h.1
              (record { files = c.files; dirs = (h.0, c.dirs) })))
  where
    P : Tree × Bool → Type 0
    P r = IsConfined depth r.0

-- Making directories leaves the files.
make_dirs_files : (ns : List Text) (t : Tree) → (make_dirs ns t).0.files ≡ t.files
unfolding make_dirs
make_dirs_files [] t = refl
make_dirs_files (n ∷ ns) t =
    if_cases P (has_key n t.files) (λ _. refl)
      (λ _.
        if_cases P (has_dir n t) (λ _. make_dirs_files ns t)
          (λ _. make_dirs_files ns (add_dir n t)))
  where
    P : Tree × Bool → Type 0
    P r = r.0.files ≡ t.files

pub make_dir_files : (n : Text) (t : Tree) → (make_dir n t).0.files ≡ t.files
unfolding make_dir
make_dir_files n t = make_dirs_files (paths_to (split_slash n)) t

pub make_parents_files : (n : Text) (t : Tree) → (make_parents n t).0.files ≡ t.files
unfolding make_parents
make_parents_files n t = make_dirs_files (paths_to (without_last (split_slash n))) t

split_slash-IsPart :
    (depth : ℕ) (n : Text)
    → IsInside depth n
    → All IsPart (split_slash n) × (length (split_slash n) ≤ depth)
split_slash-IsPart depth n i =
    let e =
      ap split_slash i.path
      ∙ split_slash-slashed i.first i.rest i.parts.0.bytes (All-part_bytes i.rest i.parts.1) in
    subst (λ ps. All IsPart ps × (length ps ≤ depth)) (sym e) (i.parts, i.deep)

pub make_dir-IsConfined :
    (depth : ℕ) (n : Text) (t : Tree)
    → IsInside depth n
    → IsConfined depth t
    → IsConfined depth (make_dir n t).0
unfolding make_dir
make_dir-IsConfined depth n t i c =
    let (parts, deep) = split_slash-IsPart depth n i in
    make_dirs-IsConfined depth _ t (paths_to-IsInside depth (split_slash n) parts deep) c

pub make_parents-IsConfined :
    (depth : ℕ) (n : Text) (t : Tree)
    → IsInside depth n
    → IsConfined depth t
    → IsConfined depth (make_parents n t).0
unfolding make_parents
make_parents-IsConfined depth n t i c =
    let (parts, deep) = split_slash-IsPart depth n i in
    let ps = split_slash n in
    make_dirs-IsConfined depth _ t
      (paths_to-IsInside depth (without_last ps) (All-without_last ps parts)
        (omega (arith, length-without_last-le ps)))
      c

insert-All :
    (P : Text → Type 0) (n v : Text) (m : Map Text)
    → P n
    → All (λ f. P f.0) m
    → All (λ f. P f.0) (insert n v m)
unfolding insert
insert-All P n v [] p h = (p, tt)
insert-All P n v ((j, w) ∷ m) p h =
    if_cases (All (λ f. P f.0)) (text_eq j n) (λ e. (p, h.1)) (λ e. (h.0, insert-All P n v m p h.1))

pub with_file :
    (depth : ℕ) (n content : Text) (t : Tree)
    → IsInside depth n
    → IsConfined depth t
    → IsConfined depth (add_file n content t)
with_file depth n content t i c = record {
  files = insert-All (IsInside depth) n content t.files i c.files;
  dirs = c.dirs;
}
