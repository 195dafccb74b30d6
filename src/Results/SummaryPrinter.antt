-- ===== src/Results/SummaryPrinter.antt =====
-- src/results/SummaryPrinter.hpp and .cpp. A method is the text that it sends to `std::cout`.
pub mod Pad
pub mod Groups
use mathlib.Core.List.{flat_map}
use db_benchmark.Prelude.{
  ℕ, ◌+◌, ◌%◌, ◌^◌, Bool, true, false, not, ◌&&◌, List, [], ◌∷◌, ◌++◌, ltb, leb, length, take,
  replicate, if◌then◌else◌,
}
use db_benchmark.Cpp.Text.{Text, text, text_eq}
use db_benchmark.Cpp.Decimal.{show_nat}
use db_benchmark.Cpp.Double.{Double, nought, one}
use db_benchmark.Metrics.BenchmarkResult.{BenchmarkResult}
use db_benchmark.Metrics.LatencyRecorder.{sub64}

-- The size is cast to `int` for the test, and the number of spaces is computed on `size_t`.
unfoldable pub pad : Text → ℕ → Text
unfolding sub64
pad s width =
    let as_int = length s % 2 ^ 32 in
    if ltb as_int (2 ^ 31) && leb width as_int
    then take width s
    else s ++ replicate (sub64 width (length s)) b' '

unfoldable pub is_empty : Text → Bool
is_empty [] = true
is_empty (c ∷ s) = false

abbrev end_line : Text
end_line = 10 ∷ []

-- `std::string(n, c)`
abbrev repeat : ℕ → ℕ → Text
repeat n c = replicate n c

-- the bytes of a dash in UTF-8
abbrev em_dash : Text
em_dash = 226 ∷ 128 ∷ 148 ∷ []

unfoldable pub print_experiment_header : Text → Text
print_experiment_header name =
    let line = repeat 60 b'=' in
    end_line ++ line ++ end_line ++ text "  " ++ name ++ end_line ++ line ++ end_line

unfoldable pub print_separator : Text
print_separator = repeat 60 b'-' ++ end_line

-- `std::find` among the names
unfoldable pub is_known : Text → List Text → Bool
is_known name [] = false
is_known name (n ∷ names) = if text_eq n name then true else is_known name names

module _ {D : Type 0} where
  -- the loop that collects the names in the order of their first appearance
  unfoldable pub collect_names : List Text → List (BenchmarkResult D) → List Text
  collect_names names [] = names
  collect_names names (r ∷ results) =
      collect_names
        (if is_known r.experiment_name names then names else names ++ r.experiment_name ∷ [])
        results

  -- the results that the inner loop does not skip
  unfoldable pub results_of : Text → List (BenchmarkResult D) → List (BenchmarkResult D)
  results_of name [] = []
  results_of name (r ∷ results) =
      let rest = results_of name results in
      if text_eq r.experiment_name name then r ∷ rest else rest

module _ {D : Type 0} ⦃d : Double D⦄ where
  unfoldable pub format_latency : D → Text
  format_latency us =
      if d.lt us (d.literal 1000 1)
      then d.fixed 0 us ++ text "us"
      else if d.lt us (d.literal 1_000_000 1)
      then d.fixed 1 (d.div us (d.literal 1000 1)) ++ text "ms"
      else d.fixed 2 (d.div us (d.literal 1_000_000 1)) ++ text "s"

  unfoldable pub format_throughput : D → Text
  format_throughput ops_sec =
      if d.le (d.literal 1_000_000 1) ops_sec
      then d.fixed 1 (d.div ops_sec (d.literal 1_000_000 1)) ++ text "M ops/s"
      else if d.le (d.literal 1000 1) ops_sec
      then d.fixed 1 (d.div ops_sec (d.literal 1000 1)) ++ text "K ops/s"
      else d.fixed 0 ops_sec ++ text " ops/s"

  unfoldable pub print_result : BenchmarkResult D → Text
  print_result result =
      (text "  [" ++ result.database ++ text "] " ++ result.experiment_name)
      ++ (if not (is_empty result.phase) then text " | " ++ result.phase else [])
      ++ (if not (is_empty result.index_type) && not (text_eq result.index_type (text "none"))
          then text " | index=" ++ result.index_type
          else [])
      ++ (if ltb 1 result.thread_count
          then text " | threads=" ++ show_nat result.thread_count
          else [])
      ++ end_line
      ++ (text "    ops="
          ++ show_nat result.total_ops
          ++ text "  time="
          ++ d.fixed 1 result.total_time_ms
          ++ text "ms"
          ++ text "  p50="
          ++ format_latency result.p50_us
          ++ text "  p95="
          ++ format_latency result.p95_us
          ++ text "  p99="
          ++ format_latency result.p99_us
          ++ text "  tput="
          ++ format_throughput result.throughput_ops_sec
          ++ end_line)
      ++ (if ltb 0 result.sstable_count
          then text "    sstables=" ++ show_nat result.sstable_count ++ end_line
          else [])
      ++ (if ltb 0 result.result_set_size
          then text "    avg_result_set=" ++ show_nat result.result_set_size ++ end_line
          else [])
      ++ (if not (is_empty result.notes)
          then text "    notes: " ++ result.notes ++ end_line
          else [])

  compaction_row : Text → BenchmarkResult D → Text
  compaction_row label r =
      text "  "
      ++ pad label 20
      ++ pad (format_latency r.p50_us) 10
      ++ pad (format_latency r.p95_us) 10
      ++ pad (format_latency r.p99_us) 12
      ++ show_nat r.sstable_count
      ++ end_line

  unfoldable pub print_compaction_summary : BenchmarkResult D → BenchmarkResult D → Text
  unfolding compaction_row
  print_compaction_summary before after =
      let rule = text "  " ++ repeat 56 b'-' ++ end_line in
      (end_line ++ text "  [cassandra] Compaction Impact:" ++ end_line)
      ++ rule
      ++ (text "  "
          ++ pad [] 20
          ++ pad (text "p50") 10
          ++ pad (text "p95") 10
          ++ pad (text "p99") 12
          ++ text "SSTables"
          ++ end_line)
      ++ rule
      ++ compaction_row (text "Before compaction") before
      ++ compaction_row (text "After compaction") after
      ++ rule
      ++ (if d.lt nought before.p99_us && d.lt nought after.p99_us
          then text "  p99 improvement after compaction: "
            ++ d.fixed 1 (d.div before.p99_us after.p99_us)
            ++ text "x"
            ++ end_line
          else [])

  operation_row : Text → BenchmarkResult D → Text
  operation_row label r =
      text "  "
      ++ pad label 16
      ++ pad (format_throughput r.throughput_ops_sec) 16
      ++ pad (format_latency r.p50_us) 10
      ++ pad (format_latency r.p95_us) 10
      ++ pad (format_latency r.p99_us) 12
      ++ end_line

  ratio_line : D → Text
  ratio_line ratio =
      text "  Read/Write throughput ratio: "
      ++ d.fixed 2 ratio
      ++ text "x"
      ++ (if d.lt one ratio
          then text "  (reads faster " ++ em_dash ++ text " B+Tree behavior)"
          else text "  (writes faster " ++ em_dash ++ text " LSM behavior)")
      ++ end_line

  unfoldable pub print_write_vs_read_summary : BenchmarkResult D → BenchmarkResult D → Text
  unfolding operation_row ratio_line
  print_write_vs_read_summary avg_write avg_read =
      let rule = text "  " ++ repeat 66 b'-' ++ end_line in
      (end_line
        ++ text "  ["
        ++ avg_write.database
        ++ text "] Write vs Read "
        ++ em_dash
        ++ text " averaged over 3 runs"
        ++ end_line)
      ++ rule
      ++ (text "  "
          ++ pad (text "Operation") 16
          ++ pad (text "Throughput") 16
          ++ pad (text "p50") 10
          ++ pad (text "p95") 10
          ++ pad (text "p99") 12
          ++ end_line)
      ++ rule
      ++ operation_row (text "Write") avg_write
      ++ operation_row (text "Read (cold)") avg_read
      ++ rule
      ++ (if d.lt nought avg_write.throughput_ops_sec
          then ratio_line (d.div avg_read.throughput_ops_sec avg_write.throughput_ops_sec)
          else [])
      ++ (if not (is_empty avg_write.notes)
          then text "  Write runs: " ++ avg_write.notes ++ end_line
          else [])
      ++ (if not (is_empty avg_read.notes)
          then text "  Read  runs: " ++ avg_read.notes ++ end_line
          else [])

  unfoldable pub summary_row : BenchmarkResult D → Text
  summary_row r =
      text "  "
      ++ pad r.database 12
      ++ pad r.operation 12
      ++ pad (if is_empty r.phase then r.index_type else r.phase) 20
      ++ pad (format_latency r.p99_us) 10
      ++ pad (format_throughput r.throughput_ops_sec) 16
      ++ end_line

  unfoldable pub experiment_section : List (BenchmarkResult D) → Text → Text
  experiment_section results name =
      (end_line ++ text "  " ++ name ++ end_line)
      ++ (text "  "
          ++ pad (text "Database") 12
          ++ pad (text "Operation") 12
          ++ pad (text "Phase") 20
          ++ pad (text "p99") 10
          ++ pad (text "Throughput") 16
          ++ end_line)
      ++ (text "  " ++ repeat 66 b'-' ++ end_line)
      ++ flat_map summary_row (results_of name results)

  unfoldable pub print_final_summary : List (BenchmarkResult D) → Text
  print_final_summary [] = []
  print_final_summary (r ∷ results) =
      let line = repeat 70 b'=' in
      (end_line ++ line ++ end_line ++ text "  FINAL SUMMARY" ++ end_line ++ line ++ end_line)
      ++ flat_map (experiment_section (r ∷ results)) (collect_names [] (r ∷ results))
      ++ (end_line ++ line ++ end_line)
