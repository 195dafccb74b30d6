-- ===== src/Experiment/Experiment5/Windows.antt =====
-- What the windows of src/experiment/Experiment5.cpp measure.
use db_benchmark.Metrics.LatencyRecorder.{new_recorder}
use db_benchmark.Prelude.{
  ℕ, ◌+◌, ◌*◌, ◌^◌, false, ◌<◌, ◌≡◌, refl, ap, ◌∙◌, bit_xor, true, Bool-cases, List, [], ◌∷◌, ◌++◌,
  arith, length, map, replicate, inl, inr,
}
use db_benchmark.Prelude.Int.{ℤ}
use db_benchmark.Cpp.Outcome.{ok, undefined}
use db_benchmark.Cpp.Text.{Text, text, text_eq}
use db_benchmark.Cpp.Decimal.{show_int}
use db_benchmark.Cpp.Double.{Double}
use db_benchmark.Cpp.Random.{Random, IsUniform, length-shuffle}
use db_benchmark.Metrics.BenchmarkResult.{BenchmarkResult}
use db_benchmark.Metrics.LatencyRecorder.{count}
use db_benchmark.Metrics.LatencyRecorder.Stats.{compute_stats_total}
use db_benchmark.Config.{BenchmarkConfig}
use db_benchmark.Data.Order.{Order}
use db_benchmark.Data.DataGenerator.Samples.{sample-new_generator}
use db_benchmark.Db.DbInterface.{DbInterface}
use db_benchmark.Db.Contract.{AnswersSecondary, AnswersRange}
use db_benchmark.Experiment.Platform.{Platform, KeepsLatencies}
use db_benchmark.Experiment.ExperimentBase.{Experiment, start_clock, stop_clock, copy_stats}
use db_benchmark.Experiment.ExperimentBase.Execute.{execute_ends}
use db_benchmark.Experiment.Experiment5.{
  new_own, Own, small, medium, large, quotient, label, setup, query, choose_user_ids, window, run,
  teardown, run_experiment, labels, make_result, get_all_results,
}
use db_benchmark.Experiment.Experiment5.OneWindow.{FindsAlways, IsScan, run_window_lem, window_lem}

-- no query was timed yet
pub record IsFresh (own : Own) : Type 0 where
  pub small_recorder_empty : own.small_recorder.latencies_us ≡ []
  pub medium_recorder_empty : own.medium_recorder.latencies_us ≡ []
  pub large_recorder_empty : own.large_recorder.latencies_us ≡ []

-- so is an experiment that is made
pub new_own-IsFresh : IsFresh new_own
unfolding new_recorder
new_own-IsFresh = record {
  small_recorder_empty = refl;
  medium_recorder_empty = refl;
  large_recorder_empty = refl;
}

quotient-zero : (a n : ℕ) → n ≡ 0 → quotient a n ≡ undefined
unfolding quotient
quotient-zero a n e = ground arith

module _ {D S : Type 0} ⦃d : Double D⦄ (r : Random D) (m : Platform S) (db : DbInterface D S)
    (dataset : List (Order D)) (config : BenchmarkConfig) where
  module _ (timers : KeepsLatencies m) where
    module _ (laws : IsUniform r) where
      -- the users to scan: on Cassandra as many as there are queries
      choose_user_ids_lem :
          (ids : List Text) × (choose_user_ids r m db dataset config ≡ ok ids)
          × (text_eq db.get_db_name (text "cassandra") ≡ true
              → length ids ≡ config.read_sample_size)
      unfolding choose_user_ids
      choose_user_ids_lem = elim (Bool-cases (text_eq db.get_db_name (text "cassandra"))) [
        | inl on_cassandra ↦
            let (ids, drawn, size) =
              sample-new_generator r laws config.read_sample_size config.rng_seed in
            (
              (r.shuffle ids (r.seed (bit_xor config.rng_seed 0x12345678ABCDEF))).0,
              rw (on_cassandra, drawn) refl,
              λ h. length-shuffle r laws ids _ ∙ size,
            )
        | inr other ↦ ([], rw other refl, λ h. ground arith)
      ]

      -- With a sample size of zero, `run` ends in undefined behaviour, whatever the database does: the
      -- first window divides its rows by the number of its queries.
      pub no_queries_undefined :
          (e : Experiment D S Own)
          → config.read_sample_size ≡ 0
          → (run r m db dataset config e).0 ≡ undefined
      unfolding run window
      no_queries_undefined e none =
          let (ids, chosen, _) = choose_user_ids_lem in
          let (rows, returned, _, _) =
            run_window_lem r m db dataset config timers ids config.range_window_small e.world
              e.own.small_recorder (λ i h. absurd (omega (arith, none))) in
          rw (chosen, returned, quotient-zero rows config.read_sample_size none) refl

    module _ (other : text_eq db.get_db_name (text "cassandra") ≡ false)
        (indexed : AnswersSecondary db) (ranged : AnswersRange db) where
      -- every scan returns
      query-IsScan : (q : ℕ) → IsScan r m db dataset config [] q
      unfolding query
      query-IsScan q w =
          let (orders, answer) = ranged.find_by_range-ok [] [] w in
          (orders, rw other answer, λ n always. always [] [] w orders answer)

      -- all three windows return
      run_returns :
          (e : Experiment D S Own)
          → 0 < config.read_sample_size
          → (e' : Experiment D S Own) × (run r m db dataset config e ≡ (ok tt, e'))
            × (length e'.own.small_recorder.latencies_us
                ≡ length e.own.small_recorder.latencies_us + config.read_sample_size)
            × (length e'.own.medium_recorder.latencies_us
                ≡ length e.own.medium_recorder.latencies_us + config.read_sample_size)
            × (length e'.own.large_recorder.latencies_us
                ≡ length e.own.large_recorder.latencies_us + config.read_sample_size)
            × ((n : ℕ)
                → FindsAlways r m db dataset config n
                → config.read_sample_size * n < 2 ^ 64
                → (e'.own.avg_result_count_small ≡ n)
                  × (e'.own.avg_result_count_medium ≡ n)
                  × (e'.own.avg_result_count_large ≡ n))
      unfolding run choose_user_ids
      run_returns e some_queries =
          let ids : List Text = [] in
          let scans = λ (q : ℕ) (h : q < config.read_sample_size). query-IsScan q in
          let (w₁, rec₁, a₁, ran₁, size₁, all₁) =
            window_lem r m db dataset config timers small ids config.range_window_small e
              some_queries scans in
          let e₁ : Experiment D S Own = record e {
            world = w₁;
            own = small.set_average a₁ (small.set_recorder rec₁ e.own);
          } in
          let (w₂, rec₂, a₂, ran₂, size₂, all₂) =
            window_lem r m db dataset config timers medium ids config.range_window_medium e₁
              some_queries scans in
          let e₂ : Experiment D S Own = record e₁ {
            world = w₂;
            own = medium.set_average a₂ (medium.set_recorder rec₂ e₁.own);
          } in
          let (w₃, rec₃, a₃, ran₃, size₃, all₃) =
            window_lem r m db dataset config timers large ids config.range_window_large e₂
              some_queries scans in
          (
            record e₂ { world = w₃; own = large.set_average a₃ (large.set_recorder rec₃ e₂.own) },
            rw (other, ran₁, ran₂, ran₃) refl,
            size₁,
            size₂,
            size₃,
            λ n always h. (all₁ n always h, all₂ n always h, all₃ n always h),
          )

      -- With timers that leave the latencies alone, on a database that is not Cassandra and that answers
      -- by a secondary key and by a range, with new recorders and a sample size that is not zero: the
      -- experiment returns and has three results, one for each window, named by its days; each has as
      -- many operations as the sample size asks; and if every range scan finds n rows, and the rows of
      -- a window fit 64 bits, the size of each result set is n.
      pub windows_lem :
          (e : Experiment D S Own)
          → 0 < config.read_sample_size
          → IsFresh e.own
          → (e' : Experiment D S Own) × (results : List (BenchmarkResult D)) × (run_experiment r m
                db dataset config e
              ≡ (ok tt, e'))
            × (get_all_results r m db dataset config e'.own ≡ ok results)
            × (map (λ x. x.phase) results
                ≡ map
                    (λ days. show_int days ++ text "d")
                    (config.range_window_small ∷ config.range_window_medium
                      ∷ config.range_window_large ∷ []))
            × (map (λ x. x.total_ops) results ≡ replicate 3 config.read_sample_size)
            × ((n : ℕ)
                → FindsAlways r m db dataset config n
                → config.read_sample_size * n < 2 ^ 64
                → map (λ x. x.result_set_size) results ≡ replicate 3 n)
      unfolding run_experiment setup label start_clock stop_clock teardown get_all_results
          make_result labels copy_stats count
      windows_lem e some_queries fresh =
          let e₁ : Experiment D S Own = record (label r m db dataset config e).1 {
            world = (db.create_secondary_index e.world).1;
          } in
          let (e₂, ran, size₁, size₂, size₃, all) = run_returns (start_clock m e₁).1 some_queries in
          let (stats, ops, ends) =
            execute_ends m (setup r m db dataset config) (run r m db dataset config)
              (teardown r m db dataset config) e e₁ e₂
              (rw (indexed.create_secondary_index-ok e.world) refl) ran in
          let stopped = (stop_clock m e₂).1 in
          let (a, made₁, ops₁) = compute_stats_total {D = D} e₂.own.small_recorder in
          let (b, made₂, ops₂) = compute_stats_total {D = D} e₂.own.medium_recorder in
          let (c, made₃, ops₃) = compute_stats_total {D = D} e₂.own.large_recorder in
          let labelled = λ (days : ℤ) (average : ℕ) (stats : BenchmarkResult D).
            labels r m db dataset config days average (show_int days ++ text "d") stats in
          let full₁ : a.total_ops ≡ config.read_sample_size =
            omega (arith, ops₁, size₁, ap length fresh.small_recorder_empty) in
          let full₂ : b.total_ops ≡ config.read_sample_size =
            omega (arith, ops₂, size₂, ap length fresh.medium_recorder_empty) in
          let full₃ : c.total_ops ≡ config.read_sample_size =
            omega (arith, ops₃, size₃, ap length fresh.large_recorder_empty) in
          (
            record e₂ {
              world = (db.drop_secondary_index stopped.world).1;
              recorder = stopped.recorder;
              result = copy_stats stats e₂.result;
            },
            labelled config.range_window_small e₂.own.avg_result_count_small a
                ∷ labelled config.range_window_medium e₂.own.avg_result_count_medium b
                ∷ labelled config.range_window_large e₂.own.avg_result_count_large c
                ∷ [],
            rw (ends, indexed.drop_secondary_index-ok stopped.world) refl,
            rw (made₁, made₂, made₃) refl,
            refl,
            rw (full₁, full₂, full₃) refl,
            λ n always h. let (x, y, z) = all n always h in rw (x, y, z) refl,
          )
