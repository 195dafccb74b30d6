-- ===== src/Cpp/Decimal.antt =====
-- How an unsigned integer is printed, by `operator<<` and by `std::to_string`.
use db_benchmark.Prelude.{
  ℕ, zero, suc, ◌+◌, ◌-◌, ◌*◌, ◌/◌, ◌%◌, ◌≤◌, ◌<◌, ◌≡◌, refl, ap, ◌∙◌, [], ◌∷◌, ◌++◌, arith, ltb,
  ltb→lt, if◌then◌else◌, foldl, All, All-append, Bool-cases, inl, inr,
}
use mathlib.Core.List.{foldl-append}
use db_benchmark.Prelude.Int.{ℤ, pos, negsuc}
use db_benchmark.Cpp.Text.{Text, text}

-- the digits of `n`, with fuel for one more digit than it can have
digits : ℕ → ℕ → Text
digits zero n = []
digits (suc f) n =
    let front = digits f (n / 10) in if ltb n 10 then (48 + n) ∷ [] else front ++ (48 + n % 10) ∷ []

unfoldable pub show_nat : ℕ → Text
unfolding digits
show_nat n = digits (suc n) n

-- of a signed integer
unfoldable pub show_int : ℤ → Text
show_int (pos n) = show_nat n
show_int (negsuc n) = b'-' ∷ show_nat (suc n)

abbrev pub IsDigit : ℕ → Type 0
IsDigit c = (48 ≤ c) × (c ≤ 57)

digits-IsDigit : (f n : ℕ) → All IsDigit (digits f n)
unfolding digits
digits-IsDigit zero n = tt
digits-IsDigit (suc f) n = elim (Bool-cases (ltb n 10)) [
  | inl small ↦ rw small (omega (arith, ltb→lt n 10 small))
  | inr big ↦
      rw big (All-append IsDigit (digits f (n / 10)) _ (digits-IsDigit f (n / 10)) (omega arith))
]

-- Every byte of a printed number is a decimal digit.
pub show_nat-IsDigit : (n : ℕ) → All IsDigit (show_nat n)
unfolding show_nat
show_nat-IsDigit n = digits-IsDigit (suc n) n

abbrev add_digit : ℕ → ℕ → ℕ
add_digit acc c = acc * 10 + (c - 48)

-- what a decimal numeral stands for
unfoldable pub read_nat : Text → ℕ
read_nat = foldl add_digit 0

read-digits : (f n : ℕ) → n < f → read_nat (digits f n) ≡ n
unfolding digits read_nat
read-digits zero n h = elim h [ ]
read-digits (suc f) n h = elim (Bool-cases (ltb n 10)) [
  | inl small ↦ rw small (omega arith)
  | inr big ↦ rw big (
      foldl-append add_digit 0 (digits f (n / 10)) ((48 + n % 10) ∷ [])
      ∙ ap (λ m. add_digit m (48 + n % 10)) (read-digits f (n / 10) (ground arith))
      ∙ omega arith)
]

-- Reading a printed number gives the number.
pub read_nat-show_nat : (n : ℕ) → read_nat (show_nat n) ≡ n
unfolding show_nat
read_nat-show_nat n = read-digits (suc n) n (omega arith)

show_nat_test : show_nat 1205 ≡ text "1205"
unfolding show_nat text
show_nat_test = refl
