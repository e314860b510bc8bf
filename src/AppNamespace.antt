-- ===== src/AppNamespace.antt =====
-- internal/appnamespace/appnamespace.go: the app slugs that become public hostname labels.
pub mod Grammar
use tinkercloud.Prelude.{
  suc, Bool, true, false, not, ◌&&◌, ◌||◌, Option, none, some, List, [], ◌∷◌, Text, codes, text_eq,
  length, all, any, ltb, leb, ◌==◌, if◌then◌else◌, ℕ,
}
use tinkercloud.Prelude.Strings.{to_lower}

pub data Error : Type 0 where
  invalid_slug reserved_slug : Error

pub data Result : Type 0 where
  ok : Text → Result
  err : Error → Result

-- The map `reserved`, by its keys.
abbrev pub reserved : List Text
reserved =
    codes "admin"
    ∷ codes "api"
    ∷ codes "auth"
    ∷ codes "status"
    ∷ codes "www"
    ∷ codes "docs"
    ∷ codes "install"
    ∷ []

unfoldable pub is_reserved : Text → Bool
is_reserved s = any (λ r. text_eq r s) reserved

abbrev pub starts_with_dash : Text → Bool
starts_with_dash [] = false
starts_with_dash (c ∷ s) = c == b'-'

unfoldable pub ends_with_dash : Text → Bool
ends_with_dash [] = false
ends_with_dash (c ∷ []) = c == b'-'
ends_with_dash (c ∷ d ∷ s) = ends_with_dash (d ∷ s)

abbrev pub label_byte : ℕ → Bool
label_byte b = not ((ltb b b'a' || ltb b'z' b) && (ltb b b'0' || ltb b'9' b) && not (b == b'-'))

unfoldable pub valid_canonical_label : Text → Bool
unfolding ends_with_dash
valid_canonical_label value =
    if length value == 0 || ltb 63 (length value) || starts_with_dash value || ends_with_dash value
    then false
    else all label_byte value

unfoldable pub validate : Text → Result
unfolding to_lower
validate value =
    let canonical = to_lower value in
    if is_reserved canonical
    then err reserved_slug
    else if not (text_eq value canonical) || not (valid_canonical_label canonical)
    then err invalid_slug
    else ok canonical

abbrev is_ok : Result → Bool
is_ok (ok s) = true
is_ok (err e) = false

unfoldable pub valid : Text → Bool
valid value = is_ok (validate value)
