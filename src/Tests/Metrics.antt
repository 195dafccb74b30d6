-- ===== src/Tests/Metrics.antt =====
-- Runs of the model of src/metrics.
use db_benchmark.Prelude.{
  ℕ, ◌≤◌, ◌<◌, ◌≡◌, refl, Bool, true, false, List, [], ◌∷◌, arith, ltb, leb, count_if, get_elem?,
  some, ◌*◌, ◌%◌, ◌^◌,
}
use db_benchmark.Cpp.Outcome.{ok, undefined}
use db_benchmark.Cpp.Text.{text}
use db_benchmark.Cpp.Milli.{Milli, milli, milli_Rounding}
use db_benchmark.Cpp.Sort.{sort}
use db_benchmark.Metrics.BenchmarkResult.{BenchmarkResult}
use db_benchmark.Metrics.LatencyRecorder.{
  LatencyRecorder, percentile, percentile_index, rank_index, compute_stats, count,
}
use db_benchmark.Metrics.LatencyRecorder.Percentile.{percentile_in_bounds, percentile_nearest_rank}
use db_benchmark.Metrics.LatencyRecorder.Stats.{compute_stats_total, compute_stats_order_free}
use db_benchmark.Metrics.LatencyRecorder.InOrder.{compute_stats_in_order}
use db_benchmark.Metrics.MetricsCollector.{merged_local}
use db_benchmark.Metrics.MetricsCollector.Merge.{merged_pools, pool}

abbrev latencies : List ℕ
latencies = 40 ∷ 10 ∷ 30 ∷ 20 ∷ []

abbrev recorder : LatencyRecorder
recorder = record { latencies_us = latencies; start_ns = 1_000_000; end_ns = 5_000_000 }

abbrev shuffled : LatencyRecorder
shuffled = record recorder { latencies_us = 30 ∷ 40 ∷ 20 ∷ 10 ∷ [] }

abbrev template : BenchmarkResult Milli
template = record {
  database = text "mongo";
  experiment_name = text "exp_02";
  operation = text "insert";
  index_type = [];
  phase = [];
  thread_count = 2;
  total_ops = 0;
  total_time_ms = 0;
  p50_us = 0;
  p95_us = 0;
  p99_us = 0;
  mean_us = 0;
  min_us = 0;
  max_us = 0;
  throughput_ops_sec = 0;
  sstable_count = 0;
  result_set_size = 0;
  notes = text "two threads";
}

median : percentile {D = Milli} (10 ∷ 20 ∷ 30 ∷ 40 ∷ []) 500 ≡ ok 20_000
unfolding percentile percentile_index rank_index
median = refl

percentile_in_bounds_example :
    (leb 700 0 ≡ true → percentile {D = Milli} (10 ∷ 20 ∷ []) 700 ≡ ok 10_000)
    × (leb 700 0 ≡ false
        → leb 1000 700 ≡ true
        → (v : ℕ) × (get_elem? (10 ∷ 20 ∷ []) 1 ≡ some v)
          × (percentile {D = Milli} (10 ∷ 20 ∷ []) 700 ≡ ok (v * 1000)))
    × (ltb 700 1000 ≡ true
        → (i : ℕ) × (v : ℕ) × (get_elem? (10 ∷ 20 ∷ []) i ≡ some v)
          × (percentile {D = Milli} (10 ∷ 20 ∷ []) 700 ≡ ok (v * 1000)))
    × (leb 700 0 ≡ false
        → leb 1000 700 ≡ false
        → ltb 700 1000 ≡ false
        → percentile {D = Milli} (10 ∷ 20 ∷ []) 700 ≡ undefined)
percentile_in_bounds_example = percentile_in_bounds {D = Milli} 10 (20 ∷ []) 700

percentile_nearest_rank_example :
    (v : ℕ) × (percentile {D = Milli} (sort latencies) 950 ≡ ok (v * 1000))
    × (count_if (λ y. ltb y v) latencies < 4)
    × (4 ≤ count_if (λ y. leb y v) latencies)
percentile_nearest_rank_example =
    percentile_nearest_rank milli_Rounding 950 refl refl latencies (omega arith) (omega arith)

compute_stats_total_example :
    (s : BenchmarkResult Milli) × (compute_stats recorder ≡ ok s) × (s.total_ops ≡ count recorder)
compute_stats_total_example = compute_stats_total recorder

compute_stats_in_order_example :
    (s : BenchmarkResult Milli) × (lo : ℕ) × (a : ℕ) × (b : ℕ) × (c : ℕ) × (hi : ℕ) × (compute_stats
        recorder
      ≡ ok s)
    × (s.min_us ≡ lo * 1000)
    × (s.p50_us ≡ a * 1000)
    × (s.p95_us ≡ b * 1000)
    × (s.p99_us ≡ c * 1000)
    × (s.max_us ≡ hi * 1000)
    × (lo ≤ a)
    × (a ≤ b)
    × (b ≤ c)
    × (c ≤ hi)
    × (count_if (λ y. ltb y lo) latencies ≡ 0)
    × (count_if (λ y. ltb hi y) latencies ≡ 0)
unfolding count
compute_stats_in_order_example =
    compute_stats_in_order milli_Rounding recorder (omega arith) (omega arith)

same_counts : (p : ℕ → Bool) → count_if p latencies ≡ count_if p shuffled.latencies_us
same_counts p = omega arith

compute_stats_order_free_example : compute_stats {D = Milli} recorder ≡ compute_stats shuffled
compute_stats_order_free_example = compute_stats_order_free recorder shuffled refl refl same_counts

merged_pools_example :
    (m : BenchmarkResult Milli) × (s : BenchmarkResult Milli) × (merged_local
        (recorder ∷ shuffled ∷ [])
        template
      ≡ ok m)
    × (compute_stats
          (record { latencies_us = pool (recorder ∷ shuffled ∷ []); start_ns = 0; end_ns = 7 })
        ≡ ok s)
    × (m.min_us ≡ s.min_us)
    × (m.max_us ≡ s.max_us)
    × (m.total_ops ≡ s.total_ops % 2 ^ 64)
    × (m.mean_us ≡ 0)
    × (m.database ≡ text "mongo")
    × (m.experiment_name ≡ text "exp_02")
    × (m.operation ≡ text "insert")
    × (m.index_type ≡ [])
    × (m.phase ≡ [])
    × (m.thread_count ≡ 2)
    × (m.sstable_count ≡ 0)
    × (m.result_set_size ≡ 0)
    × (m.notes ≡ text "two threads")
merged_pools_example =
    merged_pools milli_Rounding recorder (shuffled ∷ []) template 0 7 (omega arith)
