-- ===== src/Results/CsvWriter/RoundTrip.antt =====
-- `escape` and the separators of src/results/CSVWriter.cpp, with the reader behind them.
use db_benchmark.Prelude.{
  ℕ, ◌≡◌, refl, ap, ◌∙◌, Bool, true, false, ◌||◌, List, [], ◌∷◌, ◌++◌, append_assoc, append-nil,
  map, arith, ◌==◌, All, Bool-cases, inl, inr,
}
use db_benchmark.Cpp.Text.{Text}
use db_benchmark.Cpp.Decimal.{show_nat, IsDigit, show_nat-IsDigit}
use db_benchmark.Results.CsvWriter.{
  comma, quote, newline, needs_quoting, double_quotes, escape, join_cells,
}
use db_benchmark.Results.CsvWriter.Reader.{
  Mode, cell_start, in_plain, in_quoted, after_quote, Reading, step_plain, read_rows,
}

abbrev pub at : Mode → Text → List Text → List (List Text) → Reading
at mode cell cells rows = record { mode = mode; cell = cell; cells = cells; rows = rows }

module _ (cells : List Text) (rows : List (List Text)) (rest : Text) where
  read-double_quotes :
      (s cell : Text)
      → read_rows (at in_quoted cell cells rows) (double_quotes s ++ rest)
        ≡ read_rows (at in_quoted (cell ++ s) cells rows) rest
  unfolding read_rows double_quotes
  read-double_quotes [] cell = rw append-nil
  read-double_quotes (c ∷ s) cell =
      ground (arith, read-double_quotes s (cell ++ c ∷ []), append_assoc cell (c ∷ []) s)

  read-plain :
      (s cell : Text)
      → needs_quoting s ≡ false
      → read_rows (at in_plain cell cells rows) (s ++ rest)
        ≡ read_rows (at in_plain (cell ++ s) cells rows) rest
  unfolding read_rows needs_quoting
  read-plain [] cell h = rw append-nil
  read-plain (c ∷ s) cell h =
      ground (arith, read-plain s (cell ++ c ∷ []), append_assoc cell (c ∷ []) s)

abbrev is_separator : ℕ → Bool
is_separator e = e == comma || e == newline

module _ (cells : List Text) (rows : List (List Text)) (rest : Text) (e : ℕ)
    (sep : is_separator e ≡ true) where
  read-separator :
      (mode : Mode) (cell : Text)
      → (mode ≡ in_quoted → ⊥)
      → read_rows (at mode cell cells rows) (e ∷ rest)
        ≡ read_rows (step_plain e (at cell_start cell cells rows)) rest
  unfolding read_rows
  read-separator cell_start cell h = ground arith
  read-separator in_plain cell h = ground arith
  read-separator in_quoted cell h = absurd (h refl)
  read-separator after_quote cell h = ground arith

  read-plain_cell :
      (s : Text)
      → needs_quoting s ≡ false
      → read_rows (at cell_start [] cells rows) (s ++ e ∷ rest)
        ≡ read_rows (step_plain e (at cell_start s cells rows)) rest
  unfolding needs_quoting read_rows
  read-plain_cell [] h = read-separator cell_start [] (λ q. cc)
  read-plain_cell (c ∷ s) h = ground (
    arith,
    read-plain cells rows (e ∷ rest) s (c ∷ []),
    read-separator in_plain (c ∷ s) (λ q. cc),
  )

  -- What `escape` writes is read as one cell up to the separator behind it.
  pub read-escape :
      (s : Text)
      → read_rows (at cell_start [] cells rows) (escape s ++ e ∷ rest)
        ≡ read_rows (step_plain e (at cell_start s cells rows)) rest
  unfolding escape read_rows
  read-escape s = elim (Bool-cases (needs_quoting s)) [
    | inl q ↦
        rw (q, append_assoc)
          (read-double_quotes cells rows (quote ∷ e ∷ rest) s []
            ∙ read-separator after_quote s (λ m. cc))
    | inr plain ↦ rw plain (read-plain_cell s plain)
  ]

-- a row with at least one cell
pub read-join_cells :
    (cells : List Text) (rows : List (List Text)) (rest : Text) (c : Text) (cs : List Text)
    → read_rows (at cell_start [] cells rows) (join_cells (map escape (c ∷ cs)) ++ rest)
      ≡ read_rows (at cell_start [] [] (rows ++ (cells ++ c ∷ cs) ∷ [])) rest
unfolding join_cells
read-join_cells cells rows rest c [] = rw append_assoc (read-escape cells rows rest newline refl c)
read-join_cells cells rows rest c (c' ∷ cs) = rw append_assoc (
    read-escape cells rows (join_cells (map escape (c' ∷ cs)) ++ rest) comma refl c
    ∙ read-join_cells (cells ++ c ∷ []) rows rest c' cs
    ∙ ap (λ l. read_rows (at cell_start [] [] (rows ++ l ∷ [])) rest)
        (append_assoc cells (c ∷ []) (c' ∷ cs)))

pub needs_quoting-digits : (s : Text) → All IsDigit s → needs_quoting s ≡ false
unfolding needs_quoting
needs_quoting-digits [] p = refl
needs_quoting-digits (c ∷ s) (p, ps) = ground (arith, needs_quoting-digits s ps)

-- Text with no special character is written as it is.
pub escape_plain : (s : Text) → needs_quoting s ≡ false → escape s ≡ s
unfolding escape
escape_plain s h = rw h

pub escape-show_nat : (n : ℕ) → escape (show_nat n) ≡ show_nat n
escape-show_nat n =
    escape_plain (show_nat n) (needs_quoting-digits (show_nat n) (show_nat-IsDigit n))

pub needs_quoting-append :
    (s t : Text)
    → needs_quoting s ≡ false
    → needs_quoting t ≡ false
    → needs_quoting (s ++ t) ≡ false
unfolding needs_quoting
needs_quoting-append [] t p q = q
needs_quoting-append (c ∷ s) t p q = ground (arith, needs_quoting-append s t)
