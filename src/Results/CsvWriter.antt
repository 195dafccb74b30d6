-- ===== src/Results/CsvWriter.antt =====
-- src/results/CSVWriter.hpp and .cpp. A file is its bytes; a stream on a path that is not writable
-- does not open. The clock is a parameter: its i-th reading, broken down by `gmtime_r`.
pub mod Reader
pub mod RoundTrip
pub mod File
use db_benchmark.Prelude.{
  ℕ, suc, ◌+◌, ◌≡◌, Bool, true, false, not, ◌||◌, Option, none, some, List, [], ◌∷◌, ◌++◌, ◌==◌,
  if◌then◌else◌,
}
use db_benchmark.Cpp.Outcome.{Outcome, ok, throw, runtime_error}
use db_benchmark.Cpp.Method.{Method, pure, raise, ◌>>=◌, ◌>>◌}
use db_benchmark.Cpp.Text.{Text, text, text_eq}
use db_benchmark.Cpp.Decimal.{show_nat}
use db_benchmark.Cpp.Time.{Tm, strftime}
use db_benchmark.Cpp.Double.{Double}
use db_benchmark.Metrics.BenchmarkResult.{BenchmarkResult}

abbrev pub comma : ℕ
comma = b','

abbrev pub quote : ℕ
quote = 34

abbrev pub newline : ℕ
newline = 10

abbrev pub carriage_return : ℕ
carriage_return = 13

-- one of the characters of `find_first_of(",\"\n\r")`
abbrev pub is_special : ℕ → Bool
is_special c = c == comma || c == quote || c == newline || c == carriage_return

unfoldable pub needs_quoting : Text → Bool
needs_quoting [] = false
needs_quoting (c ∷ s) = is_special c || needs_quoting s

-- the loop: a quote is written twice
unfoldable pub double_quotes : Text → Text
double_quotes [] = []
double_quotes (c ∷ s) = let rest = c ∷ double_quotes s in if c == quote then quote ∷ rest else rest

unfoldable pub escape : Text → Text
unfolding needs_quoting double_quotes
escape field = if needs_quoting field then quote ∷ double_quotes field ++ quote ∷ [] else field

-- cells between commas, and the end of the line
unfoldable pub join_cells : List Text → Text
join_cells [] = newline ∷ []
join_cells (c ∷ []) = c ++ newline ∷ []
join_cells (c ∷ c' ∷ cells) = c ++ comma ∷ join_cells (c' ∷ cells)

unfoldable pub header_cells : List Text
header_cells =
    text "run_timestamp"
    ∷ text "database"
    ∷ text "experiment_name"
    ∷ text "operation"
    ∷ text "index_type"
    ∷ text "phase"
    ∷ text "thread_count"
    ∷ text "total_ops"
    ∷ text "total_time_ms"
    ∷ text "p50_us"
    ∷ text "p95_us"
    ∷ text "p99_us"
    ∷ text "min_us"
    ∷ text "max_us"
    ∷ text "mean_us"
    ∷ text "throughput_ops_sec"
    ∷ text "sstable_count"
    ∷ text "result_set_size"
    ∷ text "notes"
    ∷ []

-- The source asks for the month where the minutes stand.
unfoldable pub run_timestamp : Tm → Text
run_timestamp = strftime (text "%Y-%m-%dT%H:%m:%SZ")

unfoldable pub row_cells : {D : Type 0} ⦃d : Double D⦄ → Text → BenchmarkResult D → List Text
row_cells ⦃d⦄ ts result =
    escape ts
    ∷ escape result.database
    ∷ escape result.experiment_name
    ∷ escape result.operation
    ∷ escape result.index_type
    ∷ escape result.phase
    ∷ show_nat result.thread_count
    ∷ show_nat result.total_ops
    ∷ d.fixed 3 result.total_time_ms
    ∷ d.fixed 3 result.p50_us
    ∷ d.fixed 3 result.p95_us
    ∷ d.fixed 3 result.p99_us
    ∷ d.fixed 3 result.min_us
    ∷ d.fixed 3 result.max_us
    ∷ d.fixed 3 result.mean_us
    ∷ d.fixed 1 result.throughput_ops_sec
    ∷ show_nat result.sstable_count
    ∷ show_nat result.result_set_size
    ∷ escape result.notes
    ∷ []

-- The files by their paths, which paths can be opened for writing, and how often the clock was read.
pub record Disk : Type 0 where
  pub files : Text → Option Text
  pub writable : Text → Bool
  pub readings : ℕ

unfoldable pub put_file : Text → Text → Disk → Disk
put_file path bytes w = record w { files = λ p. if text_eq path p then some bytes else w.files p }

-- what a stream opened with `std::ios::app` finds
unfoldable pub contents : Text → Disk → Text
contents path w = elim (w.files path) [ none ↦ [] | some bytes ↦ bytes ]

-- `stat(path) == 0`
unfoldable pub file_exists : Text → Disk → Bool
file_exists path w = elim (w.files path) [ none ↦ false | some _ ↦ true ]

-- The writer's only member is its path.
unfoldable pub write_header : Text → Method Disk (Unit {0})
unfolding put_file
write_header path w =
    if w.writable path
    then (ok tt, put_file path (join_cells header_cells) w)
    else (throw (runtime_error (text "CSVWriter: cannot create '" ++ path ++ text "'")), w)

-- the constructor
unfoldable pub open_writer : Text → Method Disk (Unit {0})
unfolding write_header file_exists
open_writer path w = if not (file_exists path w) then write_header path w else (ok tt, w)

module _ {D : Type 0} ⦃d : Double D⦄ (clock : ℕ → Tm) where
  -- the stream is opened, and then the clock is read
  unfoldable pub write : Text → BenchmarkResult D → Method Disk (Unit {0})
  unfolding put_file contents
  write path result w =
      if w.writable path
      then (
        ok tt,
        record (put_file path
            (contents path w ++ join_cells (row_cells (run_timestamp (clock w.readings)) result))
            w) { readings = suc w.readings },
      )
      else (
        throw (runtime_error (text "CSVWriter: cannot open'" ++ path ++ text "' for writing")),
        w,
      )

  unfoldable pub write_all : Text → List (BenchmarkResult D) → Method Disk (Unit {0})
  write_all path [] = pure tt
  write_all path (r ∷ results) = do write path r; write_all path results
