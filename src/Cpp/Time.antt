-- ===== src/Cpp/Time.antt =====
-- A broken-down time, as `gmtime_r` fills it, and `strftime` with the directives that the sources
-- use. The year and the month are counted as people do.
use db_benchmark.Prelude.{
  ℕ, ◌+◌, ◌/◌, ◌%◌, ◌≡◌, refl, Bool, true, false, [], ◌∷◌, ◌++◌, ◌==◌, if◌then◌else◌,
}
use db_benchmark.Cpp.Text.{Text, text}
use db_benchmark.Cpp.Decimal.{show_nat}

pub record Tm : Type 0 where
  pub year : ℕ
  pub month : ℕ
  pub day : ℕ
  pub hour : ℕ
  pub minute : ℕ
  pub second : ℕ

unfoldable pub two_digits : ℕ → Text
two_digits n = (48 + n / 10 % 10) ∷ (48 + n % 10) ∷ []

unfoldable pub directive : ℕ → Tm → Text
unfolding two_digits
directive c t =
    if c == b'Y'
    then show_nat t.year
    else if c == b'm'
    then two_digits t.month
    else if c == b'd'
    then two_digits t.day
    else if c == b'H'
    then two_digits t.hour
    else if c == b'M'
    then two_digits t.minute
    else if c == b'S'
    then two_digits t.second
    else b'%' ∷ c ∷ []

-- the flag says that the last byte was the `%` of a directive
unfoldable pub format_time : Bool → Text → Tm → Text
format_time escaped [] t = []
format_time true (c ∷ format) t = directive c t ++ format_time false format t
format_time false (c ∷ format) t = elim (c == b'%') [
  | true ↦ format_time true format t
  | false ↦ c ∷ format_time false format t
]

unfoldable pub strftime : Text → Tm → Text
unfolding format_time directive
strftime = format_time false

strftime_test :
    strftime
      (text "%Y-%m-%dT%H:%M:%SZ")
      (record { year = 2026; month = 3; day = 15; hour = 10; minute = 30; second = 5 })
    ≡ text "2026-03-15T10:30:05Z"
unfolding strftime text show_nat
strftime_test = refl
