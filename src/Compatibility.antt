-- ===== src/Compatibility.antt =====
-- internal/compatibility/compatibility.go: versions of three numbers, and ranges of them. The
-- matrices of a server's versions are constant data and left out.
pub mod Order
use tinkercloud.Prelude.{
  ℕ, suc, ◌+◌, ◌-◌, ◌*◌, Bool, true, false, not, ◌&&◌, ◌||◌, Option, none, some, List, [], ◌∷◌,
  Text, length, all, ltb, leb, ◌==◌, if◌then◌else◌,
}

pub record Version : Type 0 where
  pub major : ℕ
  pub minor : ℕ
  pub patch : ℕ

abbrev prepend : ℕ → List Text → List Text
prepend c [] = []
prepend c (p ∷ ps) = (c ∷ p) ∷ ps

-- `strings.Split(raw, ".")`.
split_dots : Text → List Text
split_dots [] = [] ∷ []
split_dots (c ∷ s) = let rest = split_dots s in if c == b'.' then [] ∷ rest else prepend c rest

digits_value : ℕ → Text → ℕ
digits_value acc [] = acc
digits_value acc (c ∷ s) = digits_value (acc * 10 + (c - b'0')) s

abbrev starts_with_zero : Text → Bool
starts_with_zero [] = false
starts_with_zero (c ∷ s) = c == b'0'

-- One part; a number of more than 64 bits is refused.
unfoldable pub parse_part : Text → Option ℕ
unfolding digits_value
parse_part part =
    if length part == 0 || (ltb 1 (length part) && starts_with_zero part)
    then none
    else if not (all (λ r. not (ltb r b'0' || ltb b'9' r)) part)
    then none
    else if leb (digits_value 0 part) 18446744073709551615
    then some (digits_value 0 part)
    else none

parse_parts : List Text → Option Version
parse_parts (a ∷ b ∷ c ∷ []) = elim (parse_part a) [
  | none ↦ none
  | some x ↦ elim (parse_part b) [
    | none ↦ none
    | some y ↦ elim (parse_part c) [
      | none ↦ none
      | some z ↦ some (record { major = x; minor = y; patch = z })
    ]
  ]
]
parse_parts _ = none

unfoldable pub parse : Text → Option Version
unfolding split_dots parse_parts
parse raw = parse_parts (split_dots raw)

-- The results -1, 0 and 1.
pub data Sign : Type 0 where
  before equal after : Sign

unfoldable pub compare : Version → Version → Sign
compare v w =
    if not (v.major == w.major)
    then (if ltb v.major w.major then before else after)
    else if not (v.minor == w.minor)
    then (if ltb v.minor w.minor then before else after)
    else if ltb v.patch w.patch
    then before
    else if ltb w.patch v.patch
    then after
    else equal

pub record Range : Type 0 where
  pub min_inclusive : Text
  pub max_exclusive : Text

abbrev pub is_before : Sign → Bool
is_before before = true
is_before _ = false

abbrev pub is_after : Sign → Bool
is_after after = true
is_after _ = false

unfoldable pub valid_range : Range → Bool
valid_range r = elim (parse r.min_inclusive) [
  | none ↦ false
  | some min ↦ elim (parse r.max_exclusive) [
    | none ↦ false
    | some max ↦ is_before (compare min max)
  ]
]

-- A bound that does not parse would be the zero version, but the range is valid then.
abbrev or_zero : Option Version → Version
or_zero none = record { major = 0; minor = 0; patch = 0 }
or_zero (some v) = v

unfoldable pub contains : Range → Text → Bool
unfolding valid_range
contains r raw = if not (valid_range r) then false else elim (parse raw) [
  | none ↦ false
  | some value ↦
      not (is_after (compare (or_zero (parse r.min_inclusive)) value))
      && is_before (compare value (or_zero (parse r.max_exclusive)))
]
