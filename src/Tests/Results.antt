-- ===== src/Tests/Results.antt =====
-- Runs of the model of src/results.
use db_benchmark.Prelude.{
  ℕ, zero, suc, ◌+◌, ◌/◌, ◌%◌, ◌≤◌, ◌≡◌, refl, true, false, Bool, none, some, List, [], ◌∷◌, ◌++◌,
  arith, count_if, take, All,
}
use db_benchmark.Cpp.Outcome.{ok}
use db_benchmark.Cpp.Text.{Text, text}
use db_benchmark.Cpp.Time.{Tm}
use db_benchmark.Cpp.Milli.{Milli, milli, fixed_milli, three_digits}
use db_benchmark.Cpp.Decimal.{show_nat, show_nat-IsDigit}
use db_benchmark.Metrics.BenchmarkResult.{BenchmarkResult}
use db_benchmark.Results.CsvWriter.{Disk, escape, needs_quoting, write_all, contents}
use db_benchmark.Results.CsvWriter.Reader.{read_csv}
use db_benchmark.Results.CsvWriter.RoundTrip.{needs_quoting-append, needs_quoting-digits}
use db_benchmark.Results.CsvWriter.File.{write_all_reads_back, expected_rows}
use db_benchmark.Results.SummaryPrinter.{collect_names, results_of}
use db_benchmark.Results.SummaryPrinter.Groups.{final_summary_partition, name_count, sum_over}

plain_decimals : (n m : ℕ) → needs_quoting (take n (three_digits m)) ≡ false
unfolding needs_quoting three_digits
plain_decimals zero m = refl
plain_decimals (suc zero) m = ground arith
plain_decimals (suc (suc zero)) m = ground arith
plain_decimals (suc (suc (suc zero))) m = ground arith
plain_decimals (suc (suc (suc (suc n)))) m = ground arith

-- The printed thousandths of the runs hold no special character.
fixed_milli_plain : (n : ℕ) (x : Milli) → needs_quoting (fixed_milli n x) ≡ false
unfolding fixed_milli needs_quoting
fixed_milli_plain zero x =
    needs_quoting-digits (show_nat ((x + 500) / 1000)) (show_nat-IsDigit ((x + 500) / 1000))
fixed_milli_plain (suc n) x =
    needs_quoting-append (show_nat (x / 1000)) _
      (needs_quoting-digits (show_nat (x / 1000)) (show_nat-IsDigit (x / 1000)))
      (plain_decimals (suc n) (x % 1000))

abbrev insert_result : BenchmarkResult Milli
insert_result = record {
  database = text "mongo";
  experiment_name = text "exp";
  operation = text "insert";
  index_type = text "primary";
  phase = [];
  thread_count = 1;
  total_ops = 3;
  total_time_ms = 1500;
  p50_us = 20_000;
  p95_us = 30_000;
  p99_us = 30_000;
  mean_us = 20_000;
  min_us = 10_000;
  max_us = 30_000;
  throughput_ops_sec = 2_000_000;
  sstable_count = 0;
  result_set_size = 0;
  notes = text "fast, they say";
}

abbrev read_result : BenchmarkResult Milli
read_result = record insert_result { operation = text "read"; experiment_name = text "other" }

abbrev noon : Tm
noon = record { year = 2026; month = 3; day = 15; hour = 12; minute = 34; second = 56 }

abbrev clock : ℕ → Tm
clock _ = noon

abbrev path : Text
path = text "out.csv"

abbrev empty_disk : Disk
empty_disk = record { files = λ _. none; writable = λ _. true; readings = 0 }

abbrev blank_file : Disk
blank_file = record { files = λ _. some []; writable = λ _. true; readings = 0 }

quoted : escape (text "a,b") ≡ 34 ∷ text "a,b" ++ 34 ∷ []
unfolding escape text
quoted = refl

write_all_reads_back_example :
    (w : Disk) × (write_all clock path (insert_result ∷ read_result ∷ []) blank_file ≡ (ok tt, w))
    × (read_csv (contents path w)
        ≡ some (expected_rows fixed_milli_plain clock 0 (insert_result ∷ read_result ∷ [])))
unfolding contents read_csv
write_all_reads_back_example =
    write_all_reads_back fixed_milli_plain clock path (insert_result ∷ read_result ∷ []) blank_file
      {rows = []} refl refl

final_summary_partition_example :
    let results : List (BenchmarkResult Milli) = insert_result ∷ read_result ∷ insert_result ∷ [] in
    ((name : Text) → name_count name (collect_names [] results) ≤ 1)
    × All (λ r. name_count r.experiment_name (collect_names [] results) ≡ 1) results
    × ((p : BenchmarkResult Milli → Bool)
        → sum_over (λ name. count_if p (results_of name results)) (collect_names [] results)
          ≡ count_if p results)
final_summary_partition_example =
    final_summary_partition (insert_result ∷ read_result ∷ insert_result ∷ [])
