-- ===== src/Results/CsvWriter/File.antt =====
-- The file that src/results/CSVWriter.cpp leaves, as a reader of comma-separated files sees it.
use mathlib.Core.Path.{ap₂}
use mathlib.Core.Option.{some-injective}
use db_benchmark.Prelude.{
  ℕ, suc, ◌≡◌, refl, ap, sym, ◌∙◌, true, false, Option, none, some, List, [], ◌∷◌, ◌++◌,
  append_assoc, append-nil, map, arith,
}
use db_benchmark.Cpp.Outcome.{ok, throw, runtime_error}
use db_benchmark.Cpp.Text.{Text, text, text_eq_refl}
use db_benchmark.Cpp.Decimal.{show_nat}
use db_benchmark.Cpp.Time.{Tm, strftime, format_time, directive}
use db_benchmark.Cpp.Double.{Double}
use db_benchmark.Metrics.BenchmarkResult.{BenchmarkResult}
use db_benchmark.Results.CsvWriter.{
  Disk, needs_quoting, escape, join_cells, header_cells, row_cells, run_timestamp, contents,
  put_file, file_exists, open_writer, write, write_all,
}
use db_benchmark.Results.CsvWriter.Reader.{
  Mode, cell_start, in_plain, in_quoted, after_quote, Reading, step_in, read_rows, read_csv,
}
use db_benchmark.Results.CsvWriter.RoundTrip.{at, read-join_cells, escape_plain, escape-show_nat}

-- Between cells nothing is left over of a cell.
abbrev IsClean : Mode → Text → Type 0
IsClean mode cell = mode ≡ cell_start → cell ≡ []

step_in-IsClean :
    (mode : Mode) (c : ℕ) (s s' : Reading) → step_in mode c s ≡ some s' → IsClean s'.mode s'.cell
step_in-IsClean cell_start c s s' e = ground arith
step_in-IsClean in_plain c s s' e = ground arith
step_in-IsClean in_quoted c s s' e = ground arith
step_in-IsClean after_quote c s s' e = ground arith

-- what the reader does behind a byte
abbrev resume : Text → Option Reading → Option (List (List Text))
resume text o = elim o [ none ↦ none | some s ↦ read_rows s text ]

resume-append :
    (old new : Text) (o : Option Reading) {rows : List (List Text)}
    → ((s : Reading) → o ≡ some s → IsClean s.mode s.cell)
    → ((s : Reading)
        → IsClean s.mode s.cell
        → read_rows s old ≡ some rows
        → read_rows s (old ++ new) ≡ read_rows (at cell_start [] [] rows) new)
    → resume old o ≡ some rows
    → resume (old ++ new) o ≡ read_rows (at cell_start [] [] rows) new
resume-append old new none clean rec e = cc
resume-append old new (some s) clean rec e = rec s (clean s refl) e

-- What is appended to a complete file is read from the start of a row.
read_rows-append :
    (mode : Mode) (cell : Text) (cells : List Text) (seen : List (List Text)) (old new : Text)
    {rows : List (List Text)}
    → IsClean mode cell
    → read_rows (at mode cell cells seen) old ≡ some rows
    → read_rows (at mode cell cells seen) (old ++ new) ≡ read_rows (at cell_start [] [] rows) new
unfolding read_rows
read_rows-append cell_start cell [] seen [] new clean e =
    ap₂ (λ c r. read_rows (at cell_start c [] r) new) (clean refl) (some-injective _ _ e)
read_rows-append cell_start cell (_ ∷ _) seen [] new clean e = cc
read_rows-append in_plain cell cells seen [] new clean e = cc
read_rows-append in_quoted cell cells seen [] new clean e = cc
read_rows-append after_quote cell cells seen [] new clean e = cc
read_rows-append mode cell cells seen (c ∷ old) new clean e =
    let step = step_in mode c (at mode cell cells seen) in
    resume-append old new step (step_in-IsClean mode c (at mode cell cells seen))
      (λ s' clean' h. read_rows-append s'.mode s'.cell s'.cells s'.rows old new clean' h) e

-- what a reader should find in the row of a result
abbrev pub logical_cells : {D : Type 0} ⦃d : Double D⦄ → Text → BenchmarkResult D → List Text
logical_cells ⦃d⦄ ts r =
    ts
    ∷ r.database
    ∷ r.experiment_name
    ∷ r.operation
    ∷ r.index_type
    ∷ r.phase
    ∷ show_nat r.thread_count
    ∷ show_nat r.total_ops
    ∷ d.fixed 3 r.total_time_ms
    ∷ d.fixed 3 r.p50_us
    ∷ d.fixed 3 r.p95_us
    ∷ d.fixed 3 r.p99_us
    ∷ d.fixed 3 r.min_us
    ∷ d.fixed 3 r.max_us
    ∷ d.fixed 3 r.mean_us
    ∷ d.fixed 1 r.throughput_ops_sec
    ∷ show_nat r.sstable_count
    ∷ show_nat r.result_set_size
    ∷ r.notes
    ∷ []

contents-put_file : (path bytes : Text) (w : Disk) → contents path (put_file path bytes w) ≡ bytes
unfolding contents put_file
contents-put_file path bytes w = ground (arith, text_eq_refl path)

-- A row of cells behind a complete file.
append_cells :
    (old : Text) (c : Text) (cs : List Text) {rows : List (List Text)}
    → read_csv old ≡ some rows
    → read_csv (old ++ join_cells (map escape (c ∷ cs))) ≡ some (rows ++ (c ∷ cs) ∷ [])
unfolding read_csv read_rows
append_cells old c cs {rows} h =
    let new = join_cells (map escape (c ∷ cs)) in
    read_rows-append cell_start [] [] [] old new (λ _. refl) h
    ∙ ap (read_rows (at cell_start [] [] rows)) (sym (append-nil new))
    ∙ read-join_cells [] rows [] c cs

module _ {D : Type 0} ⦃d : Double D⦄
    (fixed_plain : (n : ℕ) (x : D) → needs_quoting (d.fixed n x) ≡ false) where
  row_cells-escape :
      (ts : Text) (r : BenchmarkResult D) → row_cells ts r ≡ map escape (logical_cells ts r)
  unfolding row_cells
  row_cells-escape ts r = cc (
    escape-show_nat r.thread_count,
    escape-show_nat r.total_ops,
    escape-show_nat r.sstable_count,
    escape-show_nat r.result_set_size,
    escape_plain (d.fixed 3 r.total_time_ms) (fixed_plain 3 r.total_time_ms),
    escape_plain (d.fixed 3 r.p50_us) (fixed_plain 3 r.p50_us),
    escape_plain (d.fixed 3 r.p95_us) (fixed_plain 3 r.p95_us),
    escape_plain (d.fixed 3 r.p99_us) (fixed_plain 3 r.p99_us),
    escape_plain (d.fixed 3 r.min_us) (fixed_plain 3 r.min_us),
    escape_plain (d.fixed 3 r.max_us) (fixed_plain 3 r.max_us),
    escape_plain (d.fixed 3 r.mean_us) (fixed_plain 3 r.mean_us),
    escape_plain (d.fixed 1 r.throughput_ops_sec) (fixed_plain 1 r.throughput_ops_sec),
  )

  -- The rows of results that are written from the i-th reading of the clock on.
  abbrev pub expected_rows : (ℕ → Tm) → ℕ → List (BenchmarkResult D) → List (List Text)
  expected_rows clock i [] = []
  expected_rows clock i (r ∷ results) =
      logical_cells (run_timestamp (clock i)) r ∷ expected_rows clock (suc i) results

  append_row :
      (ts old : Text) (r : BenchmarkResult D) {rows : List (List Text)}
      → read_csv old ≡ some rows
      → read_csv (old ++ join_cells (row_cells ts r)) ≡ some (rows ++ logical_cells ts r ∷ [])
  append_row ts old r h = rw (row_cells-escape ts r) (append_cells old ts _ h)

  module _ (clock : ℕ → Tm) (path : Text) where
    write_lem :
        (r : BenchmarkResult D) (w : Disk)
        → w.writable path ≡ true
        → (w' : Disk) × (write clock path r w ≡ (ok tt, w'))
          × (w'.writable path ≡ true)
          × (w'.readings ≡ suc w.readings)
          × (contents path w'
              ≡ contents path w ++ join_cells (row_cells (run_timestamp (clock w.readings)) r))
    unfolding write
    write_lem r w h =
        let row = join_cells (row_cells (run_timestamp (clock w.readings)) r) in
        let w' : Disk = record (put_file path (contents path w ++ row) w) {
          readings = suc w.readings;
        } in
        (w', rw h, h, refl, contents-put_file path (contents path w ++ row) w)

    -- When the file is complete for a reader of comma-separated files and its path can be written,
    -- `write_all` returns, and the reader finds the old rows and behind them one row for each
    -- result, in order: its time stamp from the next reading of the clock, every text unchanged by
    -- the quoting, and every number as it was printed.
    pub write_all_reads_back :
        (results : List (BenchmarkResult D)) (w : Disk) {rows : List (List Text)}
        → w.writable path ≡ true
        → read_csv (contents path w) ≡ some rows
        → (w' : Disk) × (write_all clock path results w ≡ (ok tt, w'))
          × (read_csv (contents path w') ≡ some (rows ++ expected_rows clock w.readings results))
    unfolding write_all
    write_all_reads_back [] w {rows} h e = (w, refl, e ∙ ap some (sym (append-nil rows)))
    write_all_reads_back (r ∷ results) w {rows} h e =
        let (w₁, q, h₁, i, c) = write_lem r w h in
        let ts = run_timestamp (clock w.readings) in
        let (w₂, q₂, e₂) =
          write_all_reads_back results w₁ h₁
            (ap read_csv c ∙ append_row ts (contents path w) r e) in
        (
          w₂,
          rw q q₂,
          e₂
              ∙ ap some (
                  append_assoc rows (logical_cells ts r ∷ [])
                    (expected_rows clock w₁.readings results))
              ∙ ap (λ n. some (rows ++ logical_cells ts r ∷ expected_rows clock n results)) i,
        )

read_csv-header : read_csv (join_cells header_cells) ≡ some (header_cells ∷ [])
unfolding read_csv join_cells header_cells text
read_csv-header = refl

open_writer_new :
    (path : Text) (w : Disk)
    → w.writable path ≡ true
    → file_exists path w ≡ false
    → open_writer path w ≡ (ok tt, put_file path (join_cells header_cells) w)
unfolding open_writer
open_writer_new path w h m = rw (m, h)

-- The constructor on a path that can be written: a missing file is created, and a reader finds the
-- names of the nineteen columns as its only row; a file that is there is left as it is. On a path
-- that cannot be written it throws if the file is missing, and the disk is unchanged.
pub open_writer_lem :
    (path : Text) (w : Disk)
    → (w.writable path ≡ true
        → file_exists path w ≡ false
        → ((open_writer path w).0 ≡ ok tt)
          × (read_csv (contents path (open_writer path w).1) ≡ some (header_cells ∷ [])))
      × (file_exists path w ≡ true → open_writer path w ≡ (ok tt, w))
      × (w.writable path ≡ false
          → file_exists path w ≡ false
          → open_writer path w
            ≡ (throw (runtime_error (text "CSVWriter: cannot create '" ++ path ++ text "'")), w))
unfolding open_writer
open_writer_lem path w = (
  λ h m.
      let made = open_writer_new path w h m in
      (
        ap (λ r. r.0) made,
        ap (λ r. read_csv (contents path r.1)) made
            ∙ ap read_csv (contents-put_file path (join_cells header_cells) w)
            ∙ read_csv-header,
      ),
  λ m. rw m,
  λ h m. rw (m, h),
)

-- The time stamp of a row does not tell the minutes: times that differ in nothing else are written
-- alike.
pub run_timestamp_minutes :
    (t : Tm) (minute : ℕ) → run_timestamp (record t { minute = minute }) ≡ run_timestamp t
unfolding run_timestamp strftime format_time directive text
run_timestamp_minutes t minute = refl
