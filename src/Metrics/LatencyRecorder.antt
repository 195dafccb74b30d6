-- ===== src/Metrics/LatencyRecorder.antt =====
-- src/metrics/LatencyRecorder.hpp and .cpp. The reserved capacity of the vector is not modelled.
-- `start_timer` is declared there and defined nowhere, so it has no model here.
pub mod Percentile
pub mod Stats
pub mod InOrder
use db_benchmark.Prelude.{
  ℕ, ◌+◌, ◌-◌, ◌%◌, ◌^◌, min, List, [], ◌∷◌, ◌++◌, foldl, length, get_elem?, none, some,
  if◌then◌else◌,
}
use db_benchmark.Cpp.Outcome.{Outcome, ok, undefined, ◌>>=◌}
use db_benchmark.Cpp.Double.{Double, nought, one}
use db_benchmark.Cpp.Sort.{sort}
use db_benchmark.Metrics.BenchmarkResult.{BenchmarkResult, default_result}

pub record LatencyRecorder : Type 0 where
  pub latencies_us : List ℕ
  pub start_ns : ℕ
  pub end_ns : ℕ

unfoldable pub new_recorder : LatencyRecorder
new_recorder = record { latencies_us = []; start_ns = 0; end_ns = 0 }

-- `record` of the source, a reserved word here
unfoldable pub record_latency : ℕ → LatencyRecorder → LatencyRecorder
record_latency duration_us r = record r { latencies_us = r.latencies_us ++ duration_us ∷ [] }

-- `now` is the reading of the steady clock
unfoldable pub stop_timer : ℕ → LatencyRecorder → LatencyRecorder
stop_timer now r = record r { end_ns = now }

unfoldable pub count : LatencyRecorder → ℕ
count r = length r.latencies_us

unfoldable pub reset : LatencyRecorder → LatencyRecorder
reset r = record r { latencies_us = []; start_ns = 0; end_ns = 0 }

-- `xs[i]` of a vector: out of range the behaviour is undefined
unfoldable pub element {ℓ} : {A : Type ℓ} → List A → ℕ → Outcome A
element xs i = elim (get_elem? xs i) [ none ↦ undefined | some x ↦ ok x ]

-- `back()` of the vector `x ∷ xs`
unfoldable pub back : ℕ → List ℕ → ℕ
back x [] = x
back x (y ∷ ys) = back y ys

-- a - b on `uint64_t`
unfoldable pub sub64 : ℕ → ℕ → ℕ
sub64 a b = (a + 2 ^ 64 - b) % 2 ^ 64

module _ {D : Type 0} ⦃d : Double D⦄ where
  -- `std::ceil(rank)` less 1, then the minimum with `size - 1`, for a `p` between 0 and 1
  unfoldable pub rank_index : ℕ → D → ℕ
  unfolding sub64
  rank_index size p = min (sub64 (d.ceil (d.mul p (d.of_nat size))) 1) (sub64 size 1)

  -- The conversion `static_cast<size_t>(std::ceil(rank))`, for a `p` that the two guards of `percentile`
  -- let through: if `p` is below 1 the rank is positive and no more than a `size_t` holds; else `p`
  -- is NaN, so is the rank, and its conversion is undefined.
  unfoldable pub percentile_index : ℕ → D → Outcome ℕ
  unfolding rank_index
  percentile_index size p = if d.lt p one then ok (rank_index size p) else undefined

  unfoldable pub percentile : List ℕ → D → Outcome D
  unfolding element back percentile_index
  percentile [] p = ok nought
  percentile (x ∷ xs) p =
      if d.le p nought
      then ok (d.of_nat x)
      else if d.le one p
      then ok (d.of_nat (back x xs))
      else do
        index ← percentile_index (length (x ∷ xs)) p
        v ← element (x ∷ xs) index
        ok (d.of_nat v)

  unfoldable pub total_time_ms_of : LatencyRecorder → D
  unfolding sub64
  total_time_ms_of r = d.div (d.of_nat (sub64 r.end_ns r.start_ns)) (d.literal 1_000_000 1)

  -- `std::accumulate(sorted.begin(), sorted.end(), 0.0)`
  unfoldable pub sum_of : List ℕ → D
  sum_of = foldl (λ acc x. d.add acc (d.of_nat x)) nought

  unfoldable pub throughput_of : ℕ → D → D
  throughput_of total_ops total_time_ms =
      if d.lt nought total_time_ms
      then d.div (d.of_nat total_ops) (d.div total_time_ms (d.literal 1000 1))
      else nought

  -- the members that `compute_stats` assigns, for the sorted latencies `x ∷ xs`
  unfoldable pub stats_record : LatencyRecorder → ℕ → List ℕ → D → D → D → BenchmarkResult D
  unfolding back total_time_ms_of sum_of throughput_of default_result
  stats_record r x xs p50 p95 p99 =
      let size = length (x ∷ xs) in
      let total_time_ms = total_time_ms_of r in
      record default_result {
        total_ops = size;
        total_time_ms = total_time_ms;
        p50_us = p50;
        p95_us = p95;
        p99_us = p99;
        min_us = d.of_nat x;
        max_us = d.of_nat (back x xs);
        mean_us = d.div (sum_of (x ∷ xs)) (d.of_nat size);
        throughput_ops_sec = throughput_of size total_time_ms;
      }

  -- the part of `compute_stats` below the copy `sorted`; `front()` of an empty vector is undefined
  unfoldable pub stats_of_sorted : LatencyRecorder → List ℕ → Outcome (BenchmarkResult D)
  stats_of_sorted r [] = undefined
  stats_of_sorted r (x ∷ xs) = do
    p50 ← percentile (x ∷ xs) (d.literal 50 100)
    p95 ← percentile (x ∷ xs) (d.literal 95 100)
    p99 ← percentile (x ∷ xs) (d.literal 99 100)
    ok (stats_record r x xs p50 p95 p99)

  unfoldable pub compute_stats : LatencyRecorder → Outcome (BenchmarkResult D)
  unfolding stats_of_sorted
  compute_stats r = elim r.latencies_us [
    | [] ↦ ok default_result
    | _ ∷ _ ↦ stats_of_sorted r (sort r.latencies_us)
  ]
