-- ===== src/AppNamespace/Grammar.antt =====
-- internal/appnamespace/appnamespace.go: the slugs that `Validate` accepts are the DNS labels in
-- their canonical form, less the reserved ones.
use tinkercloud.Prelude.{
  ℕ, ◌≤◌, ◌≡◌, refl, ◌↔◌, ◌⊎◌, true, false, [], ◌∷◌, arith, Text, text_eq_iff, length, all, All,
}
use tinkercloud.Prelude.Strings.{to_lower}
use tinkercloud.AppNamespace.{
  valid, is_ok, err, Result, ok, err, validate, is_reserved, valid_canonical_label, label_byte,
  starts_with_dash, ends_with_dash,
}

-- A lower case letter, a digit or a dash.
abbrev pub IsLabelByte : ℕ → Type 0
IsLabelByte b = (b'a' ≤ b) × (b ≤ b'z') ⊎ ((b'0' ≤ b) × (b ≤ b'9')) ⊎ (b ≡ b'-')

pub record IsLabel (s : Text) : Type 0 where
  pub nonempty : 1 ≤ length s
  pub short : length s ≤ 63
  pub bytes : All IsLabelByte s
  pub first : starts_with_dash s ≡ false
  pub last : ends_with_dash s ≡ false

bytes_sound : (s : Text) → all label_byte s ≡ true → All IsLabelByte s
bytes_sound [] h = tt
bytes_sound (c ∷ s) h = (ground arith, bytes_sound s (ground arith))

bytes_complete : (s : Text) → All IsLabelByte s → all label_byte s ≡ true
bytes_complete [] h = refl
bytes_complete (c ∷ s) h = ground (arith, bytes_complete s h.1)

to_lower_label : (s : Text) → All IsLabelByte s → to_lower s ≡ s
unfolding to_lower
to_lower_label [] h = refl
to_lower_label (c ∷ s) h = ground (arith, to_lower_label s h.1)

valid_canonical_label_sound : (s : Text) → valid_canonical_label s ≡ true → IsLabel s
unfolding valid_canonical_label
valid_canonical_label_sound s h = record {
  nonempty = ground arith;
  short = ground arith;
  bytes = bytes_sound s (ground arith);
  first = ground arith;
  last = ground arith;
}

valid_canonical_label_complete : (s : Text) → IsLabel s → valid_canonical_label s ≡ true
unfolding valid_canonical_label
valid_canonical_label_complete s l = ground (arith, bytes_complete s l.bytes, l.first, l.last)

validate_sound :
    (value slug : Text)
    → validate value ≡ ok slug
    → (slug ≡ value) × IsLabel value × (is_reserved value ≡ false)
unfolding validate
validate_sound value slug h =
    let same : value ≡ to_lower value = (text_eq_iff value (to_lower value)).0 (ground arith) in
    (
      ground (arith, same),
      rw same (valid_canonical_label_sound (to_lower value) (ground arith)),
      rw same (ground arith),
    )

validate_complete :
    (value : Text) → IsLabel value → is_reserved value ≡ false → validate value ≡ ok value
unfolding validate
validate_complete value l r =
    rw (to_lower_label value l.bytes)
      (ground (arith, text_eq_iff value value, valid_canonical_label_complete value l))

-- A text is accepted as a slug exactly when it is one lower case DNS label (1 to 63 letters, digits
-- or dashes, no dash at either end) and not a reserved name; the slug is then the text itself.
pub validate_iff :
    (value slug : Text)
    → (validate value ≡ ok slug) ↔ ((slug ≡ value) × IsLabel value × (is_reserved value ≡ false))
validate_iff value slug = (validate_sound value slug, λ h. rw h.0 (validate_complete value h.1 h.2))

ok_value : (r : Result) → is_ok r ≡ true → (s : Text) × (r ≡ ok s)
ok_value (ok s) h = (s, refl)
ok_value (err e) h = ground arith

pub valid-IsLabel :
    (value : Text) → valid value ≡ true → IsLabel value × (is_reserved value ≡ false)
unfolding valid
valid-IsLabel value h =
    let o = ok_value (validate value) h in let v = validate_sound value o.0 o.1 in (v.1, v.2)
