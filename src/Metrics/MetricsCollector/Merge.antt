-- ===== src/Metrics/MetricsCollector/Merge.antt =====
-- What `merge_thread_results` of src/metrics/MetricsCollector.cpp computes, and how it ends.
use db_benchmark.Prelude.{
  ℕ, ◌+◌, ◌%◌, ◌^◌, ◌≤◌, ◌<◌, min, max, ◌≡◌, refl, ap, sym, ◌∙◌, false, List, [], ◌∷◌, ◌++◌,
  append_assoc, append-nil, arith, ltb, ltb→lt, length, length-append, count_if, All, foldl,
  Bool-cases, inl, inr,
}
use db_benchmark.Cpp.Outcome.{ok, throw, undefined, invalid_argument}
use db_benchmark.Cpp.Text.{text}
use db_benchmark.Cpp.Double.{Double, Rounding, nought, max_of, min_of}
use db_benchmark.Metrics.Extremes.{
  IsLeast, IsGreatest, IsLeast-append, IsGreatest-append, IsGreatest-le, IsLeast-unique,
  IsGreatest-unique,
}
use db_benchmark.Metrics.BenchmarkResult.{BenchmarkResult}
use db_benchmark.Metrics.LatencyRecorder.{LatencyRecorder, count, compute_stats}
use db_benchmark.Metrics.LatencyRecorder.Stats.{compute_stats_total, compute_stats_extremes}
use db_benchmark.Metrics.MetricsCollector.{
  MergeState, thread_stats_of, total_ops_of, merge_start, merge_step, merge_stats, merged_local,
  merge_thread_results,
}

-- how many latencies the recorders hold together
abbrev pub ops_in : List LatencyRecorder → ℕ
ops_in [] = 0
ops_in (r ∷ rs) = count r + ops_in rs

-- all latencies, recorder by recorder
abbrev pub pool : List LatencyRecorder → List ℕ
pool [] = []
pool (r ∷ rs) = r.latencies_us ++ pool rs

-- A recorder with some latencies, all of them at most 2^53.
abbrev pub IsFilled : LatencyRecorder → Type 0
IsFilled r = (0 < length r.latencies_us) × (count_if (λ y. ltb (2 ^ 53) y) r.latencies_us ≡ 0)

module _ {D : Type 0} ⦃d : Double D⦄ where
  abbrev pub add_ops : ℕ → BenchmarkResult D → ℕ
  add_ops acc s = (acc + s.total_ops) % 2 ^ 64

  pub thread_stats_total :
      (recorders : List LatencyRecorder)
      → (stats : List (BenchmarkResult D)) × (thread_stats_of recorders ≡ ok stats)
        × ((acc : ℕ) → acc < 2 ^ 64 → foldl add_ops acc stats ≡ (acc + ops_in recorders) % 2 ^ 64)
  unfolding thread_stats_of
  thread_stats_total [] = ([], refl, λ acc h. omega arith)
  thread_stats_total (r ∷ rs) =
      let (s, e, ops) = compute_stats_total r in
      let (rest, e', sum) = thread_stats_total rs in
      (
        s ∷ rest,
        rw (e, e'),
        λ acc h. sum ((acc + s.total_ops) % 2 ^ 64) (omega arith) ∙ omega arith,
      )

  -- `merge_thread_results` never returns a result: without recorders it throws, and with any it
  -- computes one and flows off its end.
  pub merge_thread_results_never_returns :
      (recorders : List LatencyRecorder) (template : BenchmarkResult D)
      → (recorders ≡ []
          → merge_thread_results recorders template
            ≡ throw (invalid_argument (text "no recorder for merge thread results")))
        × (0 < length recorders → merge_thread_results recorders template ≡ undefined)
  unfolding merge_thread_results merged_local
  merge_thread_results_never_returns [] template = (λ _. refl, λ h. elim h [ ])
  merge_thread_results_never_returns (r ∷ rs) template =
      let (stats, e, _) = thread_stats_total (r ∷ rs) in (λ h. cc, λ _. rw e)

  mean_kept :
      (t : ℕ) (stats : List (BenchmarkResult D)) (m : MergeState D)
      → (foldl (merge_step t) m stats).mean ≡ m.mean
  unfolding merge_step
  mean_kept t [] m = refl
  mean_kept t (s ∷ stats) m = mean_kept t stats (merge_step t m s)

  -- the loop stands behind recorders whose latencies are `seen`
  abbrev Tracks : MergeState D → List ℕ → Type 0
  Tracks m seen =
      (m.first ≡ false)
      × ((a : ℕ) × (m.min_v ≡ d.of_nat a) × (a ≤ 2 ^ 53) × IsLeast a seen)
      × ((b : ℕ) × (m.max_v ≡ d.of_nat b) × (b ≤ 2 ^ 53) × IsGreatest b seen)

  module _ (laws : Rounding D) where
    min_of-of_nat :
        (a b : ℕ) → a ≤ 2 ^ 53 → b ≤ 2 ^ 53 → min_of (d.of_nat a) (d.of_nat b) ≡ d.of_nat (min a b)
    unfolding min_of
    min_of-of_nat a b h k = rw (laws.lt-of_nat b a k h) (elim (Bool-cases (ltb b a)) [
      | inl lt ↦ rw lt (ap d.of_nat (omega (arith, ltb→lt b a lt)))
      | inr ge ↦ rw ge (ap d.of_nat (ground arith))
    ])

    max_of-of_nat :
        (a b : ℕ) → a ≤ 2 ^ 53 → b ≤ 2 ^ 53 → max_of (d.of_nat a) (d.of_nat b) ≡ d.of_nat (max a b)
    unfolding max_of
    max_of-of_nat a b h k = rw (laws.lt-of_nat a b h k) (elim (Bool-cases (ltb a b)) [
      | inl lt ↦ rw lt (ap d.of_nat (omega (arith, ltb→lt a b lt)))
      | inr ge ↦ rw ge (ap d.of_nat (ground arith))
    ])

    first_step-Tracks :
        (t : ℕ) (s : BenchmarkResult D) (new : List ℕ) (lo hi : ℕ)
        → s.min_us ≡ d.of_nat lo
        → s.max_us ≡ d.of_nat hi
        → lo ≤ 2 ^ 53
        → hi ≤ 2 ^ 53
        → IsLeast lo new
        → IsGreatest hi new
        → Tracks (merge_step t merge_start s) new
    unfolding merge_step merge_start
    first_step-Tracks t s new lo hi el eh hl hh ll gh = (refl, (lo, el, hl, ll), (hi, eh, hh, gh))

    merge_step-Tracks :
        (t : ℕ) (m : MergeState D) (s : BenchmarkResult D) (seen new : List ℕ) (lo hi : ℕ)
        → Tracks m seen
        → s.min_us ≡ d.of_nat lo
        → s.max_us ≡ d.of_nat hi
        → lo ≤ 2 ^ 53
        → hi ≤ 2 ^ 53
        → IsLeast lo new
        → IsGreatest hi new
        → Tracks (merge_step t m s) (seen ++ new)
    unfolding merge_step
    merge_step-Tracks t m s seen new lo hi (f, (a, ea, ha, la), (b, eb, hb, gb)) el eh hl hh ll gh =
        (
          refl,
          (
            min a lo,
            rw (f, ea, el) (min_of-of_nat a lo ha hl),
            omega arith,
            IsLeast-append a lo seen new la ll,
          ),
          (
            max b hi,
            rw (f, eb, eh) (max_of-of_nat b hi hb hh),
            omega arith,
            IsGreatest-append b hi seen new gb gh,
          ),
        )

    merge_loop :
        (recorders : List LatencyRecorder)
        → All IsFilled recorders
        → (stats : List (BenchmarkResult D)) × (thread_stats_of recorders ≡ ok stats)
          × ((acc : ℕ)
              → acc < 2 ^ 64
              → foldl add_ops acc stats ≡ (acc + length (pool recorders)) % 2 ^ 64)
          × ((t : ℕ) (m : MergeState D) (seen : List ℕ)
              → Tracks m seen
              → Tracks (foldl (merge_step t) m stats) (seen ++ pool recorders))
    unfolding thread_stats_of
    merge_loop [] _ = ([], refl, λ acc h. omega arith, λ t m seen tr. rw append-nil tr)
    merge_loop (r ∷ rs) ((some_ops, bounded), filled) =
        let (s, lo, hi, e, ops, el, eh, le, ll, gh) = compute_stats_extremes r some_ops in
        let (rest, e', sum, loop) = merge_loop rs filled in
        let fits = IsGreatest-le hi (2 ^ 53) r.latencies_us gh bounded in
        (
          s ∷ rest,
          rw (e, e'),
          λ acc h.
              sum ((acc + s.total_ops) % 2 ^ 64) (omega arith)
              ∙ omega (arith, length-append r.latencies_us (pool rs)),
          λ t m seen tr. rw (← append_assoc seen r.latencies_us (pool rs)) (
              loop t (merge_step t m s) (seen ++ r.latencies_us) (
                merge_step-Tracks t m s seen r.latencies_us lo hi tr el eh (omega arith) fits ll
                  gh)),
        )

    -- Of one or more recorders, each with some latencies and none above 2^53, the value of `merged`
    -- has the extremes and, modulo 2^64, the number of operations that one recorder would report
    -- that holds all their latencies. The mean is never added up: it is 0. The database, the
    -- experiment's name, the operation, the type of index, the phase, the number of threads, the
    -- number of SSTables, the size of the result set and the notes are those of the template.
    pub merged_pools :
        (r : LatencyRecorder) (rs : List LatencyRecorder) (template : BenchmarkResult D)
        (starts ends : ℕ)
        → All IsFilled (r ∷ rs)
        → (m : BenchmarkResult D) × (s : BenchmarkResult D) × (merged_local (r ∷ rs) template
            ≡ ok m)
          × (compute_stats
                (record { latencies_us = pool (r ∷ rs); start_ns = starts; end_ns = ends })
              ≡ ok s)
          × (m.min_us ≡ s.min_us)
          × (m.max_us ≡ s.max_us)
          × (m.total_ops ≡ s.total_ops % 2 ^ 64)
          × (m.mean_us ≡ nought)
          × (m.database ≡ template.database)
          × (m.experiment_name ≡ template.experiment_name)
          × (m.operation ≡ template.operation)
          × (m.index_type ≡ template.index_type)
          × (m.phase ≡ template.phase)
          × (m.thread_count ≡ template.thread_count)
          × (m.sstable_count ≡ template.sstable_count)
          × (m.result_set_size ≡ template.result_set_size)
          × (m.notes ≡ template.notes)
    unfolding merged_local thread_stats_of merge_stats
    merged_pools r rs template starts ends ((some_ops, bounded), filled) =
        let (s, lo, hi, e, ops, el, eh, le, ll, gh) = compute_stats_extremes r some_ops in
        let (rest, e', sum, loop) = merge_loop rs filled in
        let fits = IsGreatest-le hi (2 ^ 53) r.latencies_us gh bounded in
        let t = total_ops_of (s ∷ rest) in
        let first = first_step-Tracks t s r.latencies_us lo hi el eh (omega arith) fits ll gh in
        let (_, (a, ea, _, la), (b, eb, _, gb)) =
          loop t (merge_step t merge_start s) r.latencies_us first in
        let all : LatencyRecorder = record {
          latencies_us = pool (r ∷ rs);
          start_ns = starts;
          end_ns = ends;
        } in
        let size = length-append r.latencies_us (pool rs) in
        let (p, lo', hi', ep, ops', el', eh', _, ll', gh') =
          compute_stats_extremes all (omega arith) in
        (
          merge_stats (s ∷ rest) template,
          p,
          rw (e, e'),
          ep,
          ea ∙ ap d.of_nat (IsLeast-unique a lo' (pool (r ∷ rs)) la ll') ∙ sym el',
          eb ∙ ap d.of_nat (IsGreatest-unique b hi' (pool (r ∷ rs)) gb gh') ∙ sym eh',
          sum ((0 + s.total_ops) % 2 ^ 64) (omega arith) ∙ omega arith,
          mean_kept t (s ∷ rest) merge_start,
          refl,
          refl,
          refl,
          refl,
          refl,
          refl,
          refl,
          refl,
          refl,
        )
