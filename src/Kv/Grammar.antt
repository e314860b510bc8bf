-- ===== src/Kv/Grammar.antt =====
-- internal/kv/kv.go: the keys that `validKey` accepts, among those without a backslash.
use tinkercloud.Prelude.{
  ℕ, ◌≤◌, ◌<◌, ◌≡◌, refl, ◌↔◌, Bool, true, false, not, ◌&&◌, [], ◌∷◌, arith, Text, length, all, leb,
  ◌==◌,
}
use tinkercloud.Prelude.Strings.{contains_byte}
use tinkercloud.Kv.Keys.{double_pairs, escape_quotes, plain, json_string, scan_byte, valid_key}

-- A byte that is no control character and no quote.
abbrev pub is_printable : ℕ → Bool
is_printable c = leb 32 c && not (c == b'"')

double_pairs_lem : (s : Text) → contains_byte s 92 ≡ false → double_pairs s ≡ s
unfolding double_pairs contains_byte
double_pairs_lem [] h = refl
double_pairs_lem (c ∷ []) h = refl
double_pairs_lem (c ∷ d ∷ s) h = ground (arith, double_pairs_lem (d ∷ s))

json_string-escape_quotes :
    (s : Text)
    → contains_byte s 92 ≡ false
    → json_string plain (escape_quotes s) ≡ all is_printable s
unfolding json_string scan_byte escape_quotes contains_byte
json_string-escape_quotes [] h = refl
json_string-escape_quotes (c ∷ s) h = ground (arith, json_string-escape_quotes s)

all_printable-lacks_nul : (s : Text) → all is_printable s ≡ true → contains_byte s 0 ≡ false
unfolding contains_byte
all_printable-lacks_nul [] h = refl
all_printable-lacks_nul (c ∷ s) h = ground (arith, all_printable-lacks_nul s)

-- A key without a backslash is valid exactly when it is UTF-8, of 1 to `max` bytes, and each byte is
-- neither a control character nor a quote: the quotes that the source means to escape are refused.
pub valid_key_iff :
    (utf8_valid : Text → Bool) (key : Text) (max : ℕ)
    → contains_byte key 92 ≡ false
    → (valid_key utf8_valid key max ≡ true)
      ↔ (0 < length key)
        × (utf8_valid key ≡ true)
        × (length key ≤ max)
        × (all is_printable key ≡ true)
unfolding valid_key
valid_key_iff utf8_valid key max h =
    ground
      (arith, double_pairs_lem key h, json_string-escape_quotes key h, all_printable-lacks_nul key)
