-- ===== src/Identity.antt =====
-- internal/identity/identity.go: the viewer's identity, and the one spelling of an email that is
-- compared and stored. A text is ASCII here; Go's Unicode case and space rules beyond ASCII are
-- left out.
use tinkercloud.Prelude.{
  suc, ◌-◌, ◌≡◌, refl, not, ◌||◌, Option, none, some, ◌++◌, Text, codes, length, leb, ◌==◌,
  if◌then◌else◌,
}
use tinkercloud.Prelude.Strings.{
  take, drop, to_lower, trim_space, last_index, count_byte, contains_byte, contains_any,
}

pub record Identity : Type 0 where
  pub id : Text
  pub email : Text

-- "\r\n\t ", the bytes that no address may hold.
abbrev pub blanks : Text
blanks = codes "\r\n\t "

unfoldable pub join_parts : Text → Text → Option Text
unfolding contains_any contains_byte
join_parts local domain =
    if contains_any (local ++ domain) blanks || not (contains_byte domain b'.')
    then none
    else some (local ++ (codes "@" ++ domain))

-- `none` is the error "invalid email". No `@`, or one in first place, is `at <= 0`.
unfoldable pub normalize : Text → Option Text
unfolding trim_space last_index count_byte join_parts to_lower
normalize raw =
    let s = trim_space raw in
    elim (last_index b'@' s) [
      | none ↦ none
      | some at ↦
          if leb at 0 || at == length s - 1 || not (count_byte b'@' s == 1)
          then none
          else join_parts (take at s) (to_lower (drop (suc at) s))
    ]

unfoldable pub domain : Text → Text
unfolding last_index
domain email = elim (last_index b'@' email) [ none ↦ codes "" | some i ↦ drop (suc i) email ]

normalize_test : normalize (codes " Ada@Example.ORG\n") ≡ some (codes "Ada@example.org")
unfolding normalize
normalize_test = refl
