-- ===== src/Metrics/LatencyRecorder/InOrder.antt =====
-- That the numbers of `compute_stats` of src/metrics/LatencyRecorder.cpp are in order.
use native.Mathlib.Nat.{le_refl}
use db_benchmark.Prelude.{
  ℕ, zero, suc, ◌^◌, ◌≤◌, ◌<◌, ◌≡◌, refl, ap, subst, sym, ◌∙◌, List, [], ◌∷◌, arith, ltb, length,
  list_cases, get_elem?, get_elem?_total, count_if, some, inl, inr,
}
use db_benchmark.Cpp.Outcome.{ok}
use db_benchmark.Cpp.Double.{Double, Rounding}
use db_benchmark.Cpp.Sort.{sort, IsSorted, sort-IsSorted, count_if-sort, length-sort}
use db_benchmark.Metrics.BenchmarkResult.{BenchmarkResult}
use db_benchmark.Metrics.LatencyRecorder.{
  LatencyRecorder, count, percentile, rank_index, stats_record, stats_of_sorted, compute_stats,
  back,
}
use db_benchmark.Metrics.LatencyRecorder.Percentile.{
  rank_index-lt, rank_index-rank, percentile_at, none_below, get_elem?-back, All-get_elem?,
}
use db_benchmark.Metrics.LatencyRecorder.Stats.{compute_stats_nonempty, none_above}

-- An ascending list grows with the index.
get_elem?_mono :
    (xs : List ℕ) (i j : ℕ) {v w : ℕ}
    → IsSorted xs
    → i ≤ j
    → get_elem? xs i ≡ some v
    → get_elem? xs j ≡ some w
    → v ≤ w
get_elem?_mono [] i j s h e f = ground arith
get_elem?_mono (x ∷ xs) zero zero s h e f = ground arith
get_elem?_mono (x ∷ xs) zero (suc j) (p, s) h e f = ground (arith, All-get_elem? x xs j p f)
get_elem?_mono (x ∷ xs) (suc i) zero s h e f = absurd (omega arith)
get_elem?_mono (x ∷ xs) (suc i) (suc j) (_, s) h e f = get_elem?_mono xs i j s (omega arith) e f

module _ {D : Type 0} ⦃d : Double D⦄ (laws : Rounding D) where
  open laws use {
    le_trans, of_nat_mono, mul_mono, mul-le-of_nat, mul_pos, ceil_mono, literal_mono, literal_pos,
    le_of_lt,
  }

  rank_index_mono :
      (n a b : ℕ)
      → 0 < n
      → n ≤ 2 ^ 53
      → 0 < a
      → a ≤ b
      → b < 100
      → rank_index n (d.literal a 100) ≤ rank_index n (d.literal b 100)
  rank_index_mono n a b h k p le q =
      let lit_le = literal_mono a 100 b 100 (omega arith) (omega arith) (omega arith) in
      let pos = literal_pos a 100 p (omega arith) (omega arith) in
      let pos' = literal_pos b 100 (omega arith) (omega arith) (omega arith) in
      let below = d.literal-lt_one a 100 (omega arith) (omega arith) in
      let below' = d.literal-lt_one b 100 q (omega arith) in
      let up =
        le_trans _ _ _ (mul-le-of_nat (d.literal b 100) n h (le_of_lt _ _ below'))
          (of_nat_mono n (2 ^ 63) (omega arith)) in
      omega (
        arith,
        ceil_mono _ _ (mul_pos (d.literal a 100) n h pos) (mul_mono _ _ n h lit_le) up,
        rank_index-rank laws (d.literal a 100) pos below n h k,
        rank_index-rank laws (d.literal b 100) pos' below' n h k,
      )

  read_at :
      (a : ℕ)
      → 0 < a
      → a < 100
      → (x : ℕ) (xs : List ℕ) {v : ℕ}
      → get_elem? (x ∷ xs) (rank_index (length (x ∷ xs)) (d.literal a 100)) ≡ some v
      → percentile (x ∷ xs) (d.literal a 100) ≡ ok (d.of_nat v)
  read_at a p q x xs e =
      percentile_at laws (d.literal a 100) (literal_pos a 100 p (omega arith) (omega arith))
        (d.literal-lt_one a 100 q (omega arith)) x xs e

  stats_in_order :
      (r : LatencyRecorder) (x : ℕ) (xs : List ℕ)
      → IsSorted (x ∷ xs)
      → length (x ∷ xs) ≤ 2 ^ 53
      → (a : ℕ) × (b : ℕ) × (c : ℕ) × (stats_of_sorted r (x ∷ xs)
          ≡ ok (stats_record {D = D} r x xs (d.of_nat a) (d.of_nat b) (d.of_nat c)))
        × (x ≤ a)
        × (a ≤ b)
        × (b ≤ c)
        × (c ≤ back x xs)
  unfolding stats_of_sorted
  stats_in_order r x xs s k =
      let l = x ∷ xs in
      let n = length l in
      let i = rank_index n (d.literal 50 100) in
      let j = rank_index n (d.literal 95 100) in
      let m = rank_index n (d.literal 99 100) in
      let (a, ea) = get_elem?_total l i (rank_index-lt n (d.literal 50 100) (omega arith)) in
      let (b, eb) = get_elem?_total l j (rank_index-lt n (d.literal 95 100) (omega arith)) in
      let (c, ec) = get_elem?_total l m (rank_index-lt n (d.literal 99 100) (omega arith)) in
      let last : m ≤ length xs = omega (arith, rank_index-lt n (d.literal 99 100) (omega arith)) in
      (
        a,
        b,
        c,
        rw (
          read_at 50 (omega arith) (omega arith) x xs ea,
          read_at 95 (omega arith) (omega arith) x xs eb,
          read_at 99 (omega arith) (omega arith) x xs ec,
        ),
        get_elem?_mono l 0 i s (omega arith) refl ea,
        get_elem?_mono l i j s
            (rank_index_mono n 50 95 (omega arith) k (omega arith) (omega arith) (omega arith)) ea
            eb,
        get_elem?_mono l j m s
            (rank_index_mono n 95 99 (omega arith) k (omega arith) (omega arith) (omega arith)) eb
            ec,
        get_elem?_mono l m (length xs) s last ec (get_elem?-back x xs),
      )

  -- For a recorder with one up to 2^53 latencies `compute_stats` returns numbers in order: the
  -- minimum, the median, the 95th and the 99th percentile and the maximum never fall, no
  -- latency is below the minimum, and none is above the maximum.
  pub compute_stats_in_order :
      (r : LatencyRecorder)
      → 0 < count r
      → count r ≤ 2 ^ 53
      → (s : BenchmarkResult D) × (lo : ℕ) × (a : ℕ) × (b : ℕ) × (c : ℕ) × (hi : ℕ) × (compute_stats
            r
          ≡ ok s)
        × (s.min_us ≡ d.of_nat lo)
        × (s.p50_us ≡ d.of_nat a)
        × (s.p95_us ≡ d.of_nat b)
        × (s.p99_us ≡ d.of_nat c)
        × (s.max_us ≡ d.of_nat hi)
        × (lo ≤ a)
        × (a ≤ b)
        × (b ≤ c)
        × (c ≤ hi)
        × (count_if (λ y. ltb y lo) r.latencies_us ≡ 0)
        × (count_if (λ y. ltb hi y) r.latencies_us ≡ 0)
  unfolding count stats_record
  compute_stats_in_order r h k = elim (list_cases (sort r.latencies_us)) [
    | inl e ↦ absurd (omega (arith, ap length e, length-sort r.latencies_us))
    | inr (x, xs, e) ↦
        let size = length-sort r.latencies_us in
        let sorted : IsSorted (x ∷ xs) = subst IsSorted e (sort-IsSorted r.latencies_us) in
        let (a, b, c, e', xa, ab, bc, chi) =
          stats_in_order r x xs sorted (omega (arith, ap length e)) in
        (
          stats_record r x xs (d.of_nat a) (d.of_nat b) (d.of_nat c),
          x,
          a,
          b,
          c,
          back x xs,
          compute_stats_nonempty r h ∙ ap (stats_of_sorted r) e ∙ e',
          refl,
          refl,
          refl,
          refl,
          refl,
          xa,
          ab,
          bc,
          chi,
          sym (count_if-sort (λ y. ltb y x) r.latencies_us)
              ∙ ap (count_if (λ y. ltb y x)) e
              ∙ none_below x (x ∷ xs) (le_refl x, sorted.0),
          sym (count_if-sort (λ y. ltb (back x xs) y) r.latencies_us)
              ∙ ap (count_if (λ y. ltb (back x xs) y)) e
              ∙ none_above x xs sorted,
        )
  ]
