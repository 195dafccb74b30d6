-- ===== src/Metrics/MetricsCollector.antt =====
-- src/metrics/MetricsCollector.hpp and .cpp. The reserved capacities of the vectors are not modelled.
pub mod Merge
use db_benchmark.Prelude.{
  ℕ, ◌+◌, ◌%◌, ◌^◌, Bool, true, false, List, [], ◌∷◌, ◌++◌, foldl, length, if◌then◌else◌,
}
use db_benchmark.Cpp.Outcome.{Outcome, ok, throw, undefined, invalid_argument, ◌>>=◌, ◌>>◌}
use db_benchmark.Cpp.Text.{text}
use db_benchmark.Cpp.Double.{Double, nought, max_of, min_of}
use db_benchmark.Metrics.BenchmarkResult.{BenchmarkResult}
use db_benchmark.Metrics.LatencyRecorder.{LatencyRecorder, compute_stats, throughput_of}

pub record MetricsCollector (D : Type 0) : Type 0 where
  pub results : List (BenchmarkResult D)

-- the variables of the last loop of `merge_thread_results`
pub record MergeState (D : Type 0) : Type 0 where
  pub p50 : D
  pub p95 : D
  pub p99 : D
  pub mean : D
  pub min_v : D
  pub max_v : D
  pub first : Bool

module _ {D : Type 0} where
  unfoldable pub add_result : BenchmarkResult D → MetricsCollector D → MetricsCollector D
  add_result result c = record { results = c.results ++ result ∷ [] }

  unfoldable pub count : MetricsCollector D → ℕ
  count c = length c.results

  unfoldable pub get_all_results : MetricsCollector D → List (BenchmarkResult D)
  get_all_results c = c.results

  -- `uint64_t total_ops` with its wrap-around
  unfoldable pub total_ops_of : List (BenchmarkResult D) → ℕ
  total_ops_of = foldl (λ acc s. (acc + s.total_ops) % 2 ^ 64) 0

module _ {D : Type 0} ⦃d : Double D⦄ where
  unfoldable pub thread_stats_of : List LatencyRecorder → Outcome (List (BenchmarkResult D))
  thread_stats_of [] = ok []
  thread_stats_of (r ∷ rs) = do s ← compute_stats r; rest ← thread_stats_of rs; ok (s ∷ rest)

  unfoldable pub longest_of : List (BenchmarkResult D) → D
  longest_of = foldl (λ acc s. max_of acc s.total_time_ms) nought

  unfoldable pub merge_start : MergeState D
  merge_start = record {
    p50 = nought;
    p95 = nought;
    p99 = nought;
    mean = nought;
    min_v = nought;
    max_v = nought;
    first = true;
  }

  unfoldable pub merge_step : ℕ → MergeState D → BenchmarkResult D → MergeState D
  merge_step total_ops m s =
      let w = d.div (d.of_nat s.total_ops) (d.of_nat total_ops) in
      record {
        p50 = d.add m.p50 (d.mul s.p50_us w);
        p95 = d.add m.p95 (d.mul s.p95_us w);
        p99 = d.add m.p99 (d.mul s.p99_us w);
        mean = m.mean;
        min_v = if m.first then s.min_us else min_of m.min_v s.min_us;
        max_v = if m.first then s.max_us else max_of m.max_v s.max_us;
        first = false;
      }

  -- `merged` at the end of the body
  unfoldable pub merge_stats : List (BenchmarkResult D) → BenchmarkResult D → BenchmarkResult D
  unfolding merge_start total_ops_of longest_of throughput_of
  merge_stats thread_stats template =
      let total_ops = total_ops_of thread_stats in
      let total_time_ms = longest_of thread_stats in
      let m = foldl (merge_step total_ops) merge_start thread_stats in
      record template {
        total_ops = total_ops;
        total_time_ms = total_time_ms;
        throughput_ops_sec = throughput_of total_ops total_time_ms;
        p50_us = m.p50;
        p95_us = m.p95;
        p99_us = m.p99;
        mean_us = m.mean;
        min_us = m.min_v;
        max_us = m.max_v;
      }

  -- the body up to its last statement: the value of the local variable `merged`
  unfoldable pub merged_local :
      List LatencyRecorder → BenchmarkResult D → Outcome (BenchmarkResult D)
  merged_local [] template = throw (invalid_argument (text "no recorder for merge thread results"))
  merged_local (r ∷ rs) template = do
    thread_stats ← thread_stats_of (r ∷ rs)
    ok (merge_stats thread_stats template)

  -- The function has no `return`: its body flows off the end.
  unfoldable pub merge_thread_results :
      List LatencyRecorder → BenchmarkResult D → Outcome (BenchmarkResult D)
  merge_thread_results recorders template = do merged ← merged_local recorders template; undefined
