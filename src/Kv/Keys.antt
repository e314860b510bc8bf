-- ===== src/Kv/Keys.antt =====
-- internal/kv/kv.go: the grammar of a key, `validKey`. Its last condition quotes the key and asks
-- `json.Valid` of the result: in a text in quotes that is the grammar of a JSON string.
use tinkercloud.Prelude.{
  ℕ, zero, suc, Bool, true, false, not, ◌&&◌, ◌||◌, Option, none, some, [], ◌∷◌, Text, length, leb,
  ltb, ◌==◌, if◌then◌else◌,
}
use tinkercloud.Prelude.Strings.{contains_byte}

-- `strings.ReplaceAll` of two backslashes by four.
unfoldable pub double_pairs : Text → Text
double_pairs [] = []
double_pairs (c ∷ []) = c ∷ []
double_pairs (c ∷ d ∷ s) =
    let paired = 92 ∷ 92 ∷ 92 ∷ 92 ∷ double_pairs s in
    let single = c ∷ double_pairs (d ∷ s) in if c == 92 && d == 92 then paired else single

-- `strings.ReplaceAll` of a quote by two backslashes and a quote.
unfoldable pub escape_quotes : Text → Text
escape_quotes [] = []
escape_quotes (c ∷ s) =
    let rest = escape_quotes s in if c == b'"' then 92 ∷ 92 ∷ b'"' ∷ rest else c ∷ rest

-- Where the scanner of a JSON string stands: in its text, behind a backslash, or before so many
-- more hexadecimal digits.
pub data Scan : Type 0 where
  plain escaped : Scan
  hex : ℕ → Scan

abbrev is_hex : ℕ → Bool
is_hex c = (leb b'0' c && leb c b'9') || (leb b'a' c && leb c b'f') || (leb b'A' c && leb c b'F')

-- b, f, n, r, t, the backslash, the slash and the quote.
abbrev is_escape : ℕ → Bool
is_escape c =
    c == b'b'
    || c == b'f'
    || c == b'n'
    || c == b'r'
    || c == b't'
    || c == 92
    || c == b'/'
    || c == b'"'

-- One byte; `none` where it is no part of the string, as at a quote, which would end it early.
unfoldable pub scan_byte : Scan → ℕ → Option Scan
scan_byte plain c =
    if c == b'"' || ltb c 32 then none else if c == 92 then some escaped else some plain
scan_byte escaped c = if is_escape c then some plain else if c == b'u' then some (hex 4) else none
scan_byte (hex zero) c = none
scan_byte (hex (suc n)) c = if is_hex c then some (if n == 0 then plain else hex n) else none

unfoldable pub json_string : Scan → Text → Bool
unfolding scan_byte
json_string plain [] = true
json_string escaped [] = false
json_string (hex n) [] = false
json_string m (c ∷ s) = elim (scan_byte m c) [ none ↦ false | some m' ↦ json_string m' s ]

-- `validKey`; `utf8_valid` is `utf8.ValidString`.
unfoldable pub valid_key : (Text → Bool) → Text → ℕ → Bool
valid_key utf8_valid key max =
    not (length key == 0)
    && utf8_valid key
    && leb (length key) max
    && not (contains_byte key 0)
    && json_string plain (escape_quotes (double_pairs key))
