-- ===== src/Compatibility/Order.antt =====
-- internal/compatibility/compatibility.go: the order of versions, and what a range contains.
use tinkercloud.Prelude.{◌<◌, ◌≡◌, ◌↔◌, ◌⊎◌, inl, inr, true, some, arith, Text, Option-cases}
use tinkercloud.Compatibility.{
  Version, before, equal, after, compare, Range, parse, valid_range, contains,
}

-- The order of the triples, the major number first.
abbrev pub Precedes : Version → Version → Type 0
Precedes v w =
    (v.major < w.major)
    ⊎ (v.major ≡ w.major) × ((v.minor < w.minor) ⊎ (v.minor ≡ w.minor) × (v.patch < w.patch))

-- A comparison says which version precedes the other in the order of the triples, or that they are
-- the same version.
pub compare_order :
    (v w : Version)
    → ((compare v w ≡ before) ↔ Precedes v w)
      × ((compare v w ≡ after) ↔ Precedes w v)
      × ((compare v w ≡ equal) ↔ (v ≡ w))
unfolding compare
compare_order v w = ground arith

-- The bounds and the version of a text that a range contains.
pub record IsContained (r : Range) (raw : Text) : Type 0 where
  pub min : Version
  pub max : Version
  pub value : Version
  pub min_parses : parse r.min_inclusive ≡ some min
  pub max_parses : parse r.max_exclusive ≡ some max
  pub value_parses : parse raw ≡ some value
  pub nonempty : Precedes min max
  pub from_min : (min ≡ value) ⊎ Precedes min value
  pub below_max : Precedes value max

contains_sound : (r : Range) (raw : Text) → contains r raw ≡ true → IsContained r raw
unfolding contains valid_range
contains_sound r raw h = elim (Option-cases (parse r.min_inclusive)) [
  | inl e ↦ absurd (ground (arith, e))
  | inr (min, e) ↦ elim (Option-cases (parse r.max_exclusive)) [
    | inl f ↦ absurd (ground (arith, e, f))
    | inr (max, f) ↦ elim (Option-cases (parse raw)) [
      | inl g ↦ absurd (ground (arith, e, f, g))
      | inr (value, g) ↦ record {
        min = min;
        max = max;
        value = value;
        min_parses = e;
        max_parses = f;
        value_parses = g;
        nonempty = (compare_order min max).0.0 (ground (arith, e, f, g));
        from_min = ground (arith, e, f, g, compare_order min value);
        below_max = (compare_order value max).0.0 (ground (arith, e, f, g));
      }
    ]
  ]
]

contains_complete : (r : Range) (raw : Text) → IsContained r raw → contains r raw ≡ true
unfolding contains valid_range
contains_complete r raw w = ground (
  arith,
  w.min_parses,
  w.max_parses,
  w.value_parses,
  w.nonempty,
  w.from_min,
  w.below_max,
  compare_order w.min w.max,
  compare_order w.min w.value,
  compare_order w.value w.max,
)

-- A range contains a text exactly when it and both bounds parse, the lower bound precedes the upper
-- one, and the text's version is the lower bound or comes after it, and precedes the upper bound.
pub contains_iff : (r : Range) (raw : Text) → (contains r raw ≡ true) ↔ IsContained r raw
contains_iff r raw = (contains_sound r raw, contains_complete r raw)
