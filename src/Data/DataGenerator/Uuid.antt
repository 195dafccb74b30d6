-- ===== src/Data/DataGenerator/Uuid.antt =====
-- The texts of `generate_uuid` of src/data/DataGenerator.cpp, against the pattern of RFC 4122.
use db_benchmark.Prelude.{
  ℕ, ◌+◌, zero, suc, ◌/◌, ◌%◌, ◌<◌, ◌≡◌, refl, Bool, true, false, ◌&&◌, ◌||◌, [], ◌∷◌, arith, leb,
  ◌==◌, if◌then◌else◌,
}
use db_benchmark.Cpp.Outcome.{ok}
use db_benchmark.Cpp.Text.{Text, text}
use db_benchmark.Cpp.Double.{Double}
use db_benchmark.Cpp.Random.{Random}
use db_benchmark.Data.DataGenerator.{
  DataGenerator, generate_uuid, hex_digit, hex_byte, version_byte, variant_byte, marked_byte,
  print_bytes, draw_bytes, uuid_from,
}

-- a lower-case hexadecimal digit
is_hex : ℕ → Bool
is_hex c = (leb b'0' c && leb c b'9') || (leb b'a' c && leb c b'f')

-- a letter of the pattern: `x` for any digit, `y` for a digit of the variant, else itself
fits : ℕ → ℕ → Bool
unfolding is_hex
fits p c =
    if p == b'x'
    then is_hex c
    else if p == b'y'
    then c == b'8' || c == b'9' || c == b'a' || c == b'b'
    else c == p

pub fits_pattern : Text → Text → Bool
fits_pattern [] [] = true
fits_pattern (p ∷ ps) (c ∷ cs) = fits p c && fits_pattern ps cs
fits_pattern _ _ = false

-- the pattern of RFC 4122 for random UUIDs
abbrev pub IsUuid4 : Text → Type 0
IsUuid4 s = fits_pattern (text "xxxxxxxx-xxxx-4xxx-yxxx-xxxxxxxxxxxx") s ≡ true

is_hex-hex_digit : (n : ℕ) → n < 16 → is_hex (hex_digit n) ≡ true
unfolding is_hex hex_digit
is_hex-hex_digit n h = ground arith

-- how many of the bytes below a bound a test refuses
refused : (ℕ → Bool) → ℕ → ℕ
refused test zero = 0
refused test (suc bound) = refused test bound + (if test bound then 0 else 1)

passes-refused :
    (test : ℕ → Bool) (bound byte : ℕ) → byte < bound → refused test bound ≡ 0 → test byte ≡ true
unfolding refused
passes-refused test zero byte below none = elim below [ ]
passes-refused test (suc bound) byte below none = ground (arith, passes-refused test bound byte)

fits_byte : ℕ → ℕ → ℕ → Bool
unfolding fits hex_digit
fits_byte p q b = fits p (hex_digit (b / 16)) && fits q (hex_digit (b % 16))

plain_table : refused (fits_byte b'x' b'x') 256 ≡ 0
unfolding refused fits_byte
plain_table = refl

version_table : refused (λ b. fits_byte b'4' b'x' (version_byte b)) 256 ≡ 0
unfolding refused fits_byte version_byte
version_table = refl

variant_table : refused (λ b. fits_byte b'y' b'x' (variant_byte b)) 256 ≡ 0
unfolding refused fits_byte variant_byte
variant_table = refl

module _ (x : ℕ) where
  in_table : (p : ℕ → Bool) → refused p 256 ≡ 0 → p (x % 256) ≡ true
  in_table p table = passes-refused p 256 (x % 256) (omega arith) table

  plain_high : fits b'x' (hex_digit (x % 256 / 16)) ≡ true
  unfolding fits_byte
  plain_high = ground (arith, in_table (fits_byte b'x' b'x') plain_table)

  plain_low : fits b'x' (hex_digit (x % 256 % 16)) ≡ true
  unfolding fits_byte
  plain_low = ground (arith, in_table (fits_byte b'x' b'x') plain_table)

  version_high : fits b'4' (hex_digit (version_byte (x % 256) / 16)) ≡ true
  unfolding fits_byte
  version_high = ground (arith, in_table (λ b. fits_byte b'4' b'x' (version_byte b)) version_table)

  version_low : fits b'x' (hex_digit (version_byte (x % 256) % 16)) ≡ true
  unfolding fits_byte
  version_low = ground (arith, in_table (λ b. fits_byte b'4' b'x' (version_byte b)) version_table)

  variant_high : fits b'y' (hex_digit (variant_byte (x % 256) / 16)) ≡ true
  unfolding fits_byte
  variant_high = ground (arith, in_table (λ b. fits_byte b'y' b'x' (variant_byte b)) variant_table)

  variant_low : fits b'x' (hex_digit (variant_byte (x % 256) % 16)) ≡ true
  unfolding fits_byte
  variant_low = ground (arith, in_table (λ b. fits_byte b'y' b'x' (variant_byte b)) variant_table)

ruleset digit_fits = (plain_high, plain_low, version_high, version_low, variant_high, variant_low)

dash_fits : fits b'-' b'-' ≡ true
unfolding fits
dash_fits = refl

uuid_fits :
    (x₀ x₁ x₂ x₃ x₄ x₅ x₆ x₇ x₈ x₉ y₀ y₁ y₂ y₃ y₄ y₅ : ℕ)
    → IsUuid4 (
        print_bytes 0 (
          x₀ % 256
          ∷ x₁ % 256
          ∷ x₂ % 256
          ∷ x₃ % 256
          ∷ x₄ % 256
          ∷ x₅ % 256
          ∷ x₆ % 256
          ∷ x₇ % 256
          ∷ x₈ % 256
          ∷ x₉ % 256
          ∷ y₀ % 256
          ∷ y₁ % 256
          ∷ y₂ % 256
          ∷ y₃ % 256
          ∷ y₄ % 256
          ∷ y₅ % 256
          ∷ []))
unfolding fits_pattern text print_bytes hex_byte marked_byte
uuid_fits x₀ x₁ x₂ x₃ x₄ x₅ x₆ x₇ x₈ x₉ y₀ y₁ y₂ y₃ y₄ y₅ = simp (digit_fits, dash_fits)

module _ {D : Type 0} ⦃d : Double D⦄ (r : Random D) where
  -- Whatever bytes are drawn, the text of `generate_uuid` is a random UUID of RFC 4122 in lower case:
  -- 32 hexadecimal digits in groups of 8, 4, 4, 4 and 12 between dashes, with the version 4 and a
  -- variant digit from 8 to b.
  pub generate_uuid-IsUuid4 :
      (s : DataGenerator r) → (id : Text) × ((generate_uuid r s).0 ≡ ok id) × IsUuid4 id
  unfolding generate_uuid uuid_from draw_bytes
  generate_uuid-IsUuid4 s = ((uuid_from r s.rng).0, refl, uuid_fits _ _ _ _ _ _ _ _ _ _ _ _ _ _ _ _)
