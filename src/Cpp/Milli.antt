-- ===== src/Cpp/Milli.antt =====
-- Thousandths as a `Double`: an arithmetic that rounds down to three decimals and has the laws of
-- `Rounding`. It stands for `double` in the concrete runs.
use native.Mathlib.Nat.{mul-le-mul, le_refl, le-div_iff_mul-le, div-mul-le_self}
use native.Mathlib.Decide.{dec_le, dec_lt}
use db_benchmark.Prelude.{
  ℕ, zero, suc, ◌+◌, ◌*◌, ◌/◌, ◌%◌, ◌^◌, ◌≤◌, ◌<◌, ◌≡◌, true, [], ◌∷◌, ◌++◌, arith, ltb, leb,
  le→leb, leb→le, ltb→lt, lt→ltb, take,
}
use db_benchmark.Cpp.Text.{Text}
use db_benchmark.Cpp.Decimal.{show_nat}
use db_benchmark.Cpp.Double.{Double, Rounding}

abbrev pub Milli : Type 0
Milli = ℕ

unfoldable pub three_digits : ℕ → Text
three_digits n = (48 + n / 100) ∷ (48 + n / 10 % 10) ∷ (48 + n % 10) ∷ []

unfoldable pub fixed_milli : ℕ → Milli → Text
unfolding three_digits show_nat
fixed_milli zero x = show_nat ((x + 500) / 1000)
fixed_milli (suc n) x = show_nat (x / 1000) ++ b'.' ∷ take (suc n) (three_digits (x % 1000))

pub milli_literal-lt : (a b : ℕ) → a < b → b ≤ 1000 → ltb (a * 1000 / b) 1000 ≡ true
milli_literal-lt a b p h = elim (dec_lt (a * 1000 / b) 1000) [
  | yes lt ↦ lt→ltb _ _ lt
  | no ge ↦ absurd (
      omega (
        arith,
        mul-le-mul {n₁ = 1000} {n₂ = a * 1000 / b} (omega arith) (le_refl b),
        div-mul-le_self (a * 1000) b,
      ))
]

instance abbrev pub milli : Double Milli
milli = record {
  literal = λ a b. a * 1000 / b;
  of_nat = λ n. n * 1000;
  add = λ a b. a + b;
  mul = λ a b. a * b / 1000;
  div = λ a b. a * 1000 / b;
  lt = ltb;
  le = leb;
  ceil = λ a. (a + 999) / 1000;
  round = λ a. (a + 500) / 1000 * 1000;
  fixed = fixed_milli;
  to_string = fixed_milli 3;
  largest = 2 ^ 1024 * 1000;
  literal-lt_one = milli_literal-lt;
}

mul_milli : (x n : ℕ) → x * (n * 1000) / 1000 ≡ x * n
mul_milli x n = grind arith

milli_mul_mono :
    (x y : ℕ) (n : ℕ)
    → 0 < n
    → leb x y ≡ true
    → leb (x * (n * 1000) / 1000) (y * (n * 1000) / 1000) ≡ true
milli_mul_mono x y n p h =
    le→leb _ _ (omega (arith, mul_milli x n, mul_milli y n, mul-le-mul (leb→le x y h) (le_refl n)))

milli_mul-le :
    (x : ℕ) (n : ℕ) → 0 < n → leb x 1000 ≡ true → leb (x * (n * 1000) / 1000) (n * 1000) ≡ true
milli_mul-le x n p h =
    le→leb _ _ (omega (arith, mul_milli x n, mul-le-mul (leb→le x 1000 h) (le_refl n)))

milli_mul_pos : (x : ℕ) (n : ℕ) → 0 < n → ltb 0 x ≡ true → ltb 0 (x * (n * 1000) / 1000) ≡ true
milli_mul_pos x n p h = lt→ltb _ _ (omega (arith, mul_milli x n, mul-le-mul (ltb→lt 0 x h) p))

scaled_le : (a b c e q : ℕ) → 0 < b → a * e ≤ c * b → q * b ≤ a * 1000 → q * e ≤ c * 1000
scaled_le a b c e q p h k = elim (dec_le (q * e) (c * 1000)) [
  | yes le ↦ le
  | no gt ↦ absurd (
      omega (
        arith,
        mul-le-mul {n₁ = c * 1000 + 1} {n₂ = q * e} (omega arith) (le_refl b),
        mul-le-mul k (le_refl e),
        mul-le-mul h (le_refl 1000),
      ))
]

milli_literal_mono :
    (a b c e : ℕ) → 0 < b → 0 < e → a * e ≤ c * b → leb (a * 1000 / b) (c * 1000 / e) ≡ true
milli_literal_mono a b c e p q h =
    le→leb _ _ (
      (le-div_iff_mul-le q).1 (scaled_le a b c e (a * 1000 / b) p h (div-mul-le_self (a * 1000) b)))

milli_literal_pos : (a b : ℕ) → 0 < a → 0 < b → b ≤ 1000 → ltb 0 (a * 1000 / b) ≡ true
milli_literal_pos a b p q h = lt→ltb _ _ ((le-div_iff_mul-le q).1 (omega arith))

pub milli_Rounding : Rounding Milli
milli_Rounding = record {
  le_trans = λ x y z p q. ground arith;
  of_nat_mono = λ a b h. ground arith;
  mul_mono = milli_mul_mono;
  mul-le-of_nat = milli_mul-le;
  mul_pos = milli_mul_pos;
  ceil_pos = λ x h _. ground arith;
  ceil_mono = λ x y h p _. ground arith;
  ceil-of_nat = λ n _ _. omega arith;
  not_le_of_lt = λ x y h. ground arith;
  literal_mono = milli_literal_mono;
  literal_pos = milli_literal_pos;
  le_of_lt = λ x y h. ground arith;
  lt-of_nat = λ a b _ _. ground arith;
}
