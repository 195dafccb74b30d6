-- ===== src/Results/CsvWriter/Reader.antt =====
-- A reader of comma-separated files in the manner of RFC 4180, written independently of the writer:
-- a cell that begins with a quote ends at a quote that is not doubled, any other at a comma or at
-- the end of the line.
use db_benchmark.Prelude.{ℕ, Option, none, some, List, [], ◌∷◌, ◌++◌, ◌==◌, if◌then◌else◌}
use db_benchmark.Cpp.Text.{Text}

pub data Mode : Type 0 where
  cell_start in_plain in_quoted after_quote : Mode

pub record Reading : Type 0 where
  pub mode : Mode
  pub cell : Text
  pub cells : List Text
  pub rows : List (List Text)

abbrev pub end_cell : Reading → Reading
end_cell s = record { mode = cell_start; cell = []; cells = s.cells ++ s.cell ∷ []; rows = s.rows }

abbrev pub end_row : Reading → Reading
end_row s = record {
  mode = cell_start;
  cell = [];
  cells = [];
  rows = s.rows ++ (s.cells ++ s.cell ∷ []) ∷ [];
}

abbrev pub keep : Mode → ℕ → Reading → Reading
keep mode c s = record s { mode = mode; cell = s.cell ++ c ∷ [] }

abbrev pub switch : Mode → Reading → Reading
switch mode s = record s { mode = mode }

-- outside of quotes
abbrev pub step_plain : ℕ → Reading → Reading
step_plain c s = if c == 44 then end_cell s else if c == 10 then end_row s else keep in_plain c s

abbrev pub step_in : Mode → ℕ → Reading → Option Reading
step_in cell_start c s = if c == 34 then some (switch in_quoted s) else some (step_plain c s)
step_in in_plain c s = some (step_plain c s)
step_in in_quoted c s = if c == 34 then some (switch after_quote s) else some (keep in_quoted c s)
step_in after_quote c s =
    if c == 34
    then some (keep in_quoted c s)
    else if c == 44
    then some (end_cell s)
    else if c == 10
    then some (end_row s)
    else none

abbrev pub finish : Mode → List Text → List (List Text) → Option (List (List Text))
finish cell_start [] rows = some rows
finish _ _ rows = none

-- `none` is a text that is no complete file
unfoldable pub read_rows : Reading → Text → Option (List (List Text))
read_rows s [] = finish s.mode s.cells s.rows
read_rows s (c ∷ cs) = elim (step_in s.mode c s) [ none ↦ none | some s' ↦ read_rows s' cs ]

unfoldable pub read_csv : Text → Option (List (List Text))
unfolding read_rows
read_csv = read_rows (record { mode = cell_start; cell = []; cells = []; rows = [] })
