-- ===== src/Archive/Paths.antt =====
-- internal/archive/archive.go: the name of an entry, and what `clean` accepts. `path.Clean` and
-- `strings.Split` are written out for the slash.
use tinkercloud.Prelude.{
  ℕ, zero, suc, ◌==◌, Bool, false, ◌||◌, Option, none, some, List, [], ◌∷◌, ◌++◌, Text, codes,
  text_eq, length, any, ltb, if◌then◌else◌,
}
use tinkercloud.Prelude.Strings.{has_prefix, contains_byte}
use mathlib.Core.List.{reverse}

abbrev pub add_to_first : ℕ → List Text → List Text
add_to_first c [] = (c ∷ []) ∷ []
add_to_first c (p ∷ ps) = (c ∷ p) ∷ ps

-- `strings.Split(s, "/")`.
unfoldable pub split_slash : Text → List Text
split_slash [] = [] ∷ []
split_slash (c ∷ s) =
    let rest = split_slash s in if c == b'/' then [] ∷ rest else add_to_first c rest

-- Each part behind a slash.
unfoldable pub slashed : List Text → Text
slashed [] = []
slashed (p ∷ ps) = b'/' ∷ (p ++ slashed ps)

-- The parts with slashes between them.
unfoldable pub join_slash : List Text → Text
unfolding slashed
join_slash [] = []
join_slash (p ∷ ps) = p ++ slashed ps

unfoldable pub dots : ℕ → List Text → List Text
dots zero ps = ps
dots (suc n) ps = codes ".." ∷ dots n ps

-- One pass of `path.Clean` over the parts: how many ".." lead out, and the parts kept, the last
-- first.
unfoldable pub reduce_parts : ℕ → List Text → List Text → ℕ × List Text
reduce_parts ups kept [] = (ups, kept)
reduce_parts ups [] (p ∷ ps) =
    let up = reduce_parts (suc ups) [] ps in
    let skip = reduce_parts ups [] ps in
    let keep = reduce_parts ups (p ∷ []) ps in
    if text_eq p [] || text_eq p (codes ".")
    then skip
    else if text_eq p (codes "..")
    then up
    else keep
reduce_parts ups (k ∷ kept) (p ∷ ps) =
    let back = reduce_parts ups kept ps in
    let skip = reduce_parts ups (k ∷ kept) ps in
    let keep = reduce_parts ups (p ∷ k ∷ kept) ps in
    if text_eq p [] || text_eq p (codes ".")
    then skip
    else if text_eq p (codes "..")
    then back
    else keep

unfoldable pub or_dot : List Text → Text
unfolding join_slash
or_dot [] = codes "."
or_dot (p ∷ ps) = join_slash (p ∷ ps)

-- `path.Clean` of a path that is not rooted.
unfoldable pub path_clean : Text → Text
unfolding split_slash reduce_parts dots or_dot
path_clean s = let r = reduce_parts 0 [] (split_slash s) in or_dot (dots r.0 (reverse r.1))

unfoldable pub has_double_slash : Text → Bool
unfolding has_prefix
has_double_slash [] = false
has_double_slash (c ∷ s) = has_prefix (c ∷ s) (codes "//") || has_double_slash s

-- The first tests of `clean`. A byte above 0x7f is refused whether or not the name is UTF-8: its
-- rune is above 0x7f or the name is invalid.
unfoldable pub refused_name : Text → Bool
unfolding has_prefix contains_byte text_eq
refused_name name =
    text_eq name []
    || contains_byte name b'\\'
    || has_prefix name (codes "/")
    || contains_byte name b':'
    || any (λ c. ltb 127 c) name

unfoldable pub clean : Text → ℕ → Option Text
unfolding refused_name path_clean split_slash has_prefix has_double_slash
clean name max_depth =
    let c = path_clean name in
    if refused_name name
    then none
    else if text_eq c (codes ".") || has_prefix c (codes "../") || has_double_slash c
    then none
    else if ltb max_depth (length (split_slash c))
    then none
    else some c
