-- ===== src/Metrics/LatencyRecorder/Stats.antt =====
-- `compute_stats` of src/metrics/LatencyRecorder.cpp.
use native.Mathlib.Nat.{le_refl, le_trans as le_trans_ℕ}
use db_benchmark.Prelude.{
  ℕ, ◌≤◌, ◌<◌, ◌≡◌, refl, ap, subst, sym, ◌∙◌, Bool, true, List, [], ◌∷◌, arith, ltb, leb, length,
  list_cases, get_elem?, some, count_if, count_if-true, inl, inr,
}
use db_benchmark.Cpp.Outcome.{ok}
use db_benchmark.Cpp.Double.{Double}
use db_benchmark.Cpp.Sort.{sort, IsSorted, sort-IsSorted, count_if-sort, length-sort, sort_eq}
use db_benchmark.Metrics.Extremes.{IsLeast, IsGreatest, IsLeast-of_counts, IsGreatest-of_counts}
use db_benchmark.Metrics.BenchmarkResult.{BenchmarkResult, default_result}
use db_benchmark.Metrics.LatencyRecorder.{
  LatencyRecorder, count, percentile, stats_record, stats_of_sorted, compute_stats,
  total_time_ms_of, back,
}
use db_benchmark.Metrics.LatencyRecorder.Percentile.{percentile_below_one, none_below}

front-le-back : (x : ℕ) (xs : List ℕ) → IsSorted (x ∷ xs) → x ≤ back x xs
unfolding back
front-le-back x [] s = le_refl x
front-le-back x (y ∷ ys) ((p, _), s) = le_trans_ℕ p (front-le-back y ys s)

pub none_above :
    (x : ℕ) (xs : List ℕ) → IsSorted (x ∷ xs) → count_if (λ y. ltb (back x xs) y) (x ∷ xs) ≡ 0
unfolding back
none_above x [] s = ground arith
none_above x (y ∷ ys) (p, s) = ground (arith, none_above y ys s, front-le-back x (y ∷ ys) (p, s))

some_at_back : (x : ℕ) (xs : List ℕ) → 0 < count_if (λ y. leb (back x xs) y) (x ∷ xs)
unfolding back
some_at_back x [] = ground arith
some_at_back x (y ∷ ys) = ground (arith, some_at_back y ys)

module _ {D : Type 0} ⦃d : Double D⦄ where
  pub compute_stats_nonempty :
      (r : LatencyRecorder)
      → 0 < length r.latencies_us
      → compute_stats r ≡ stats_of_sorted {D = D} r (sort r.latencies_us)
  unfolding compute_stats
  compute_stats_nonempty r h = elim (list_cases r.latencies_us) [
    | inl e ↦ absurd (omega (arith, ap length e))
    | inr (y, ys, e) ↦ ground arith
  ]

  -- a percentile that `compute_stats` asks for
  read_percent :
      (x : ℕ) (xs : List ℕ) (a : ℕ)
      → a < 100
      → (i : ℕ) × (v : ℕ) × (get_elem? (x ∷ xs) i ≡ some v)
        × (percentile (x ∷ xs) (d.literal a 100) ≡ ok (d.of_nat v))
  read_percent x xs a h =
      percentile_below_one x xs (d.literal a 100) (d.literal-lt_one a 100 h (omega arith))

  stats_of_sorted_total :
      (r : LatencyRecorder) (m : List ℕ)
      → 0 < length m
      → (s : BenchmarkResult D) × (stats_of_sorted r m ≡ ok s) × (s.total_ops ≡ length m)
  unfolding stats_of_sorted stats_record
  stats_of_sorted_total r [] h = elim h [ ]
  stats_of_sorted_total r (x ∷ xs) h =
      let (_, v50, _, e50) = read_percent x xs 50 (omega arith) in
      let (_, v95, _, e95) = read_percent x xs 95 (omega arith) in
      let (_, v99, _, e99) = read_percent x xs 99 (omega arith) in
      (stats_record r x xs (d.of_nat v50) (d.of_nat v95) (d.of_nat v99), rw (e50, e95, e99), refl)

  -- `compute_stats` returns for every recorder, with no read out of range, and `total_ops` is the
  -- number of latencies that were recorded.
  pub compute_stats_total :
      (r : LatencyRecorder)
      → (s : BenchmarkResult D) × (compute_stats r ≡ ok s) × (s.total_ops ≡ count r)
  unfolding compute_stats count default_result
  compute_stats_total r = elim (list_cases r.latencies_us) [
    | inl e ↦ (default_result, ground arith, ground arith)
    | inr (y, ys, e) ↦
        let some_ops : 0 < length r.latencies_us = omega (arith, ap length e) in
        let (s, e', size) =
          stats_of_sorted_total r (sort r.latencies_us)
            (rw (length-sort r.latencies_us) some_ops) in
        (s, compute_stats_nonempty r some_ops ∙ e', size ∙ length-sort r.latencies_us)
  ]

  -- A recorder that is not empty has statistics whose `min_us` and `max_us` are its least and its
  -- greatest latency, and whose `total_ops` is the number of latencies.
  pub compute_stats_extremes :
      (r : LatencyRecorder)
      → 0 < length r.latencies_us
      → (s : BenchmarkResult D) × (lo : ℕ) × (hi : ℕ) × (compute_stats r ≡ ok s)
        × (s.total_ops ≡ length r.latencies_us)
        × (s.min_us ≡ d.of_nat lo)
        × (s.max_us ≡ d.of_nat hi)
        × (lo ≤ hi)
        × IsLeast lo r.latencies_us
        × IsGreatest hi r.latencies_us
  unfolding stats_of_sorted stats_record
  compute_stats_extremes r h = elim (list_cases (sort r.latencies_us)) [
    | inl e ↦ absurd (omega (arith, ap length e, length-sort r.latencies_us))
    | inr (x, xs, e) ↦
        let sorted : IsSorted (x ∷ xs) = subst IsSorted e (sort-IsSorted r.latencies_us) in
        let counts : ((p : ℕ → Bool) → count_if p (x ∷ xs) ≡ count_if p r.latencies_us) =
          λ p. sym (ap (count_if p) e) ∙ count_if-sort p r.latencies_us in
        let (_, v50, _, e50) = read_percent x xs 50 (omega arith) in
        let (_, v95, _, e95) = read_percent x xs 95 (omega arith) in
        let (_, v99, _, e99) = read_percent x xs 99 (omega arith) in
        (
          stats_record r x xs (d.of_nat v50) (d.of_nat v95) (d.of_nat v99),
          x,
          back x xs,
          compute_stats_nonempty r h ∙ ap (stats_of_sorted r) e ∙ rw (e50, e95, e99),
          sym (ap length e) ∙ length-sort r.latencies_us,
          refl,
          refl,
          front-le-back x xs sorted,
          IsLeast-of_counts x (x ∷ xs) r.latencies_us counts
              (none_below x (x ∷ xs) (le_refl x, sorted.0), ground arith),
          IsGreatest-of_counts (back x xs) (x ∷ xs) r.latencies_us counts
              (none_above x xs sorted, some_at_back x xs),
        )
  ]

  stats_of_sorted_timers :
      (r t : LatencyRecorder) (m : List ℕ)
      → r.start_ns ≡ t.start_ns
      → r.end_ns ≡ t.end_ns
      → stats_of_sorted {D = D} r m ≡ stats_of_sorted t m
  unfolding stats_of_sorted stats_record total_time_ms_of
  stats_of_sorted_timers r t [] starts ends = refl
  stats_of_sorted_timers r t (x ∷ xs) starts ends = λ i.
      stats_of_sorted (record { latencies_us = []; start_ns = starts i; end_ns = ends i }) (x ∷ xs)

  -- Two recorders with the same timers that hold the same latencies equally often, in whatever
  -- order, have the same statistics.
  pub compute_stats_order_free :
      (r t : LatencyRecorder)
      → r.start_ns ≡ t.start_ns
      → r.end_ns ≡ t.end_ns
      → ((p : ℕ → Bool) → count_if p r.latencies_us ≡ count_if p t.latencies_us)
      → compute_stats {D = D} r ≡ compute_stats t
  unfolding compute_stats
  compute_stats_order_free r t starts ends same = elim (list_cases r.latencies_us) [
    | inl e ↦ elim (list_cases t.latencies_us) [
      | inl e' ↦ ground arith
      | inr (y, ys, e') ↦ absurd (
          omega
            (arith, same (λ _. true), ap (count_if (λ _. true)) e, ap (count_if (λ _. true)) e'))
    ]
    | inr (y, ys, e) ↦
        let some_ops : 0 < length r.latencies_us = omega (arith, ap length e) in
        let as_many : 0 < length t.latencies_us =
          omega
            (arith, same (λ _. true), count_if-true r.latencies_us, count_if-true t.latencies_us) in
        compute_stats_nonempty r some_ops
        ∙ ap (stats_of_sorted r) (sort_eq r.latencies_us t.latencies_us same)
        ∙ stats_of_sorted_timers r t (sort t.latencies_us) starts ends
        ∙ sym (compute_stats_nonempty t as_many)
  ]
