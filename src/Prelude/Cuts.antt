-- ===== src/Prelude/Cuts.antt =====
-- Texts up to the first of a byte.
use Prim.Native.Nat.{ℕ}
use mathlib.Core.Path.{◌≡◌}
use mathlib.Core.Bool.{false}
use mathlib.Core.List.{[], ◌∷◌, ◌++◌}
use native.Mathlib.Omega.{arith}
use tinkercloud.Prelude.Bytes.{Text}
use tinkercloud.Prelude.Strings.{contains_byte}

-- Two texts without the byte, each followed by it, agree where the whole texts do, and so does the
-- rest.
pub until_byte :
    (c : ℕ) (a b s t : Text)
    → contains_byte a c ≡ false
    → contains_byte b c ≡ false
    → a ++ (c ∷ s) ≡ b ++ (c ∷ t)
    → (a ≡ b) × (s ≡ t)
unfolding contains_byte
until_byte c [] [] s t h k e = ground arith
until_byte c [] (y ∷ b) s t h k e = ground arith
until_byte c (x ∷ a) [] s t h k e = ground arith
until_byte c (x ∷ a) (y ∷ b) s t h k e = ground (arith, until_byte c a b s t)
