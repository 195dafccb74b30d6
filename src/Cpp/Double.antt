-- ===== src/Cpp/Double.antt =====
-- `double`: a type with the operations that the sources use, and the one law that the bounds of each
-- percentile need: a fraction of small numbers that is below 1 is below 1 when it is rounded. The
-- other laws that a proof needs of IEEE 754 arithmetic are hypotheses of that proof, in `Rounding`.
use db_benchmark.Prelude.{ℕ, ◌*◌, ◌^◌, ◌≤◌, ◌<◌, ◌≡◌, Bool, true, false, ltb, if◌then◌else◌}
use db_benchmark.Cpp.Text.{Text}

pub record Double (D : Type 0) : Type 0 where
  -- a literal, as a fraction: 0.95 is `literal 95 100`
  pub literal : ℕ → ℕ → D
  -- `static_cast<double>` of an unsigned integer
  pub of_nat : ℕ → D
  pub add : D → D → D
  pub mul : D → D → D
  pub div : D → D → D
  -- `<` and `<=`; `a > b` is `lt b a`
  pub lt : D → D → Bool
  pub le : D → D → Bool
  -- `static_cast<size_t>(std::ceil(x))` of a value that is in the range of `size_t`
  pub ceil : D → ℕ
  -- `std::round`
  pub round : D → D
  -- `os << std::fixed << std::setprecision(n) << x`
  pub fixed : ℕ → D → Text
  -- `std::to_string`
  pub to_string : D → Text
  -- `std::numeric_limits<double>::max()`
  pub largest : D
  pub literal-lt_one : (a b : ℕ) → a < b → b ≤ 1000 → lt (literal a b) (of_nat 1) ≡ true

module _ {D : Type 0} ⦃d : Double D⦄ where
  abbrev pub nought : D
  nought = d.of_nat 0

  abbrev pub one : D
  one = d.of_nat 1

  -- `std::max(a, b)` is `(a < b) ? b : a`
  unfoldable pub max_of : D → D → D
  max_of a b = if d.lt a b then b else a

  -- `std::min(a, b)` is `(b < a) ? b : a`
  unfoldable pub min_of : D → D → D
  min_of a b = if d.lt b a then b else a

-- What holds of rounded arithmetic, on values that are no NaN where that matters: integers convert
-- in order, and exactly up to 2^53, a product by a positive integer grows with its other factor and does not pass the
-- integer if that factor is at most 1, literals convert in order, and `std::ceil` gives the least integer that is not below, as
-- long as it fits a 64-bit word.
pub record Rounding (D : Type 0) ⦃d : Double D⦄ : Type 0 where
  pub le_trans : (x y z : D) → d.le x y ≡ true → d.le y z ≡ true → d.le x z ≡ true
  pub of_nat_mono : (a b : ℕ) → a ≤ b → d.le (d.of_nat a) (d.of_nat b) ≡ true
  pub mul_mono :
      (x y : D) (n : ℕ)
      → 0 < n
      → d.le x y ≡ true
      → d.le (d.mul x (d.of_nat n)) (d.mul y (d.of_nat n)) ≡ true
  pub mul-le-of_nat :
      (x : D) (n : ℕ) → 0 < n → d.le x one ≡ true → d.le (d.mul x (d.of_nat n)) (d.of_nat n) ≡ true
  pub mul_pos :
      (x : D) (n : ℕ) → 0 < n → d.lt nought x ≡ true → d.lt nought (d.mul x (d.of_nat n)) ≡ true
  pub ceil_pos : (x : D) → d.lt nought x ≡ true → d.le x (d.of_nat (2 ^ 63)) ≡ true → 0 < d.ceil x
  pub ceil_mono :
      (x y : D)
      → d.lt nought x ≡ true
      → d.le x y ≡ true
      → d.le y (d.of_nat (2 ^ 63)) ≡ true
      → d.ceil x ≤ d.ceil y
  pub ceil-of_nat : (n : ℕ) → 0 < n → n ≤ 2 ^ 53 → d.ceil (d.of_nat n) ≡ n
  pub not_le_of_lt : (x y : D) → d.lt x y ≡ true → d.le y x ≡ false
  pub literal_mono :
      (a b c e : ℕ) → 0 < b → 0 < e → a * e ≤ c * b → d.le (d.literal a b) (d.literal c e) ≡ true
  pub literal_pos : (a b : ℕ) → 0 < a → 0 < b → b ≤ 1000 → d.lt nought (d.literal a b) ≡ true
  pub le_of_lt : (x y : D) → d.lt x y ≡ true → d.le x y ≡ true
  pub lt-of_nat : (a b : ℕ) → a ≤ 2 ^ 53 → b ≤ 2 ^ 53 → d.lt (d.of_nat a) (d.of_nat b) ≡ ltb a b
