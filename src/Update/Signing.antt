-- ===== src/Update/Signing.antt =====
-- internal/update/update.go: what the signature of an artifact binds.
use tinkercloud.Prelude.{
  ℕ, ◌/◌, ◌%◌, ◌≡◌, refl, Bool, false, none, [], ◌∷◌, arith, Text, text_eq_iff,
}
use tinkercloud.Prelude.Strings.{contains_byte}
use tinkercloud.Prelude.Cuts.{until_byte}
use tinkercloud.Update.{Artifact, hex_digit, hex_encode, signed, verify}

hex_digit-injective : (c d : ℕ) → hex_digit c ≡ hex_digit d → c ≡ d
hex_digit-injective c d e = ground arith

hex_byte-injective :
    (c d : ℕ)
    → hex_digit (c / 16) ≡ hex_digit (d / 16)
    → hex_digit (c % 16) ≡ hex_digit (d % 16)
    → c ≡ d
hex_byte-injective c d e f =
    omega (arith, hex_digit-injective (c / 16) (d / 16) e, hex_digit-injective (c % 16) (d % 16) f)

hex_encode-injective : (s t : Text) → hex_encode s ≡ hex_encode t → s ≡ t
unfolding hex_encode
hex_encode-injective [] [] e = refl
hex_encode-injective [] (d ∷ t) e = cc
hex_encode-injective (c ∷ s) [] e = cc
hex_encode-injective (c ∷ s) (d ∷ t) e =
    let p : hex_digit (c / 16) ≡ hex_digit (d / 16) = cc in
    let q : hex_digit (c % 16) ≡ hex_digit (d % 16) = cc in
    let r : hex_encode s ≡ hex_encode t = cc in
    cc (hex_byte-injective c d p q, hex_encode-injective s t r)

-- The names of an artifact hold no newline.
pub record IsOneLine (a : Artifact) : Type 0 where
  pub version : contains_byte a.version b'\n' ≡ false
  pub api : contains_byte a.api b'\n' ≡ false
  pub schema : contains_byte a.schema b'\n' ≡ false

-- What two artifacts share.
pub record SameRelease (sha256 : Text → Text) (a b : Artifact) : Type 0 where
  pub version : a.version ≡ b.version
  pub api : a.api ≡ b.api
  pub schema : a.schema ≡ b.schema
  pub digest : a.digest ≡ b.digest
  pub content : sha256 a.bytes ≡ sha256 b.bytes

-- Two artifacts that are accepted on one signed text, with names of one line each, have the same
-- version, API, schema and digest, and contents of the same SHA-256.
pub verify_binds :
    (sha256 : Text → Text) (verifies : Text → Text → Bool) (a b : Artifact)
    → IsOneLine a
    → IsOneLine b
    → verify sha256 verifies a ≡ none
    → verify sha256 verifies b ≡ none
    → signed a ≡ signed b
    → SameRelease sha256 a b
unfolding verify signed
verify_binds sha256 verifies a b la lb va vb e =
    let (p, e₁) = until_byte b'\n' a.version b.version _ _ la.version lb.version e in
    let (q, e₂) = until_byte b'\n' a.api b.api _ _ la.api lb.api e₁ in
    let (r, e₃) = until_byte b'\n' a.schema b.schema _ _ la.schema lb.schema e₂ in
    let d = hex_encode-injective a.digest b.digest e₃ in
    record {
      version = p;
      api = q;
      schema = r;
      digest = d;
      content =
          ground (
            arith,
            d,
            text_eq_iff (sha256 a.bytes) a.digest,
            text_eq_iff (sha256 b.bytes) b.digest,
          );
    }
