-- ===== src/Experiment/Experiment4/BothIndexes.antt =====
-- What src/experiment/Experiment4.cpp measures on a database that does not fail.
use db_benchmark.Metrics.LatencyRecorder.{new_recorder}
use db_benchmark.Prelude.{
  ◌+◌, ◌<◌, ◌≡◌, refl, ap, ◌∙◌, min, List, [], arith, length, length-append, length-map, map,
}
use db_benchmark.Cpp.Outcome.{ok}
use db_benchmark.Cpp.Text.{text}
use db_benchmark.Cpp.Double.{Double}
use db_benchmark.Cpp.Random.{Random, IsUniform, length-shuffle}
use db_benchmark.Metrics.BenchmarkResult.{BenchmarkResult}
use db_benchmark.Metrics.LatencyRecorder.{count}
use db_benchmark.Metrics.LatencyRecorder.Stats.{compute_stats_total}
use db_benchmark.Config.{BenchmarkConfig}
use db_benchmark.Data.Order.{Order}
use db_benchmark.Data.DataGenerator.Samples.{sample-new_generator}
use db_benchmark.Db.DbInterface.{DbInterface}
use db_benchmark.Db.Contract.{Answers, AnswersSecondary}
use db_benchmark.Experiment.Platform.{Platform, KeepsLatencies}
use db_benchmark.Experiment.ExperimentBase.{
  Experiment, start_clock, stop_clock, copy_stats, get_result,
}
use db_benchmark.Experiment.ExperimentBase.Timing.{timed_phase_returns}
use db_benchmark.Experiment.ExperimentBase.Execute.{execute_ends}
use db_benchmark.Experiment.ExperimentBase.Samples.{sample_random_orders_lem}
use db_benchmark.Experiment.Experiment4.{
  new_own, Own, label, keep_primary, keep_secondary, shuffle_ids, setup, primary_reads,
  secondary_reads, run, teardown, run_experiment, point_read_labels, cassandra_notes,
  get_both_results,
}

-- no id is sampled and no latency recorded
pub record IsFresh (own : Own) : Type 0 where
  pub primary_recorder_empty : own.primary_recorder.latencies_us ≡ []
  pub secondary_recorder_empty : own.secondary_recorder.latencies_us ≡ []
  pub primary_ids_empty : own.primary_sample_ids ≡ []

-- so is an experiment that is made
pub new_own-IsFresh : IsFresh new_own
unfolding new_recorder
new_own-IsFresh = record {
  primary_recorder_empty = refl;
  secondary_recorder_empty = refl;
  primary_ids_empty = refl;
}

module _ {D S : Type 0} ⦃d : Double D⦄ (r : Random D) (m : Platform S) (db : DbInterface D S)
    (dataset : List (Order D)) (config : BenchmarkConfig) (laws : IsUniform r)
    (timers : KeepsLatencies m) (answers : Answers db) (indexed : AnswersSecondary db) where
  setup_returns :
      (e : Experiment D S Own)
      → 0 < length dataset
      → (e' : Experiment D S Own) × (setup r m db dataset config e ≡ (ok tt, e'))
        × (length e'.own.primary_sample_ids
            ≡ length e.own.primary_sample_ids + min config.read_sample_size (length dataset))
        × (length e'.own.secondary_sample_ids ≡ config.read_sample_size)
        × (e'.own.primary_recorder ≡ e.own.primary_recorder)
        × (e'.own.secondary_recorder ≡ e.own.secondary_recorder)
        × (e'.recorder ≡ e.recorder)
  unfolding setup label keep_primary keep_secondary shuffle_ids
  setup_returns e some_orders =
      let (sample, sampled, size, _) =
        (sample_random_orders_lem r laws dataset config.rng_seed config.read_sample_size).0
          some_orders in
      let (ids, drawn, drawn_size) =
        sample-new_generator r laws config.read_sample_size config.rng_seed in
      let e₁ =
        (keep_secondary r m db dataset config ids
          (keep_primary r m db dataset config sample (label r m db dataset config e).1).1).1 in
      let e₂ = (shuffle_ids r m db dataset config e₁).1 in
      (
        record e₂ { world = (db.create_secondary_index e.world).1 },
        rw (sampled, drawn, indexed.create_secondary_index-ok e.world) refl,
        length-shuffle r laws _ _
            ∙ omega (
              arith,
              size,
              length-append e.own.primary_sample_ids (map (λ o. o.order_id) sample),
              length-map (λ (o : Order D). o.order_id) sample,
            ),
        length-shuffle r laws _ _ ∙ drawn_size,
        refl,
        refl,
        refl,
      )

  -- both phases return, each with one latency more in its recorder for each of its ids
  run_returns :
      (e : Experiment D S Own)
      → (e' : Experiment D S Own) × (run r m db dataset config e ≡ (ok tt, e'))
        × (length e'.own.primary_recorder.latencies_us
            ≡ length e.own.primary_recorder.latencies_us + length e.own.primary_sample_ids)
        × (length e'.own.secondary_recorder.latencies_us
            ≡ length e.own.secondary_recorder.latencies_us + length e.own.secondary_sample_ids)
        × (e'.recorder ≡ e.recorder)
  unfolding run primary_reads secondary_reads
  run_returns e =
      let (returned₁, size₁) =
        timed_phase_returns m db.find_by_primary_key (λ id w. answers.find_by_primary_key-ok id w)
          timers e.own.primary_sample_ids e.world e.own.primary_recorder in
      let e₁ = (primary_reads r m db dataset config e).1 in
      let (returned₂, size₂) =
        timed_phase_returns m db.find_by_secondary_key
          (λ id w. indexed.find_by_secondary_key-ok id w) timers e.own.secondary_sample_ids e₁.world
          e.own.secondary_recorder in
      (
        (secondary_reads r m db dataset config e₁).1,
        rw returned₁ (rw returned₂ refl),
        size₁,
        size₂,
        refl,
      )

  -- Over a dataset that is not empty, with new recorders, on a database that answers by both keys:
  -- the experiment returns; the first of the two results is of the primary key, with as many
  -- operations as the sample size asks and the dataset allows, and the second of the secondary key,
  -- with as many as the sample size asks; and `get_result` reports no operation, since neither
  -- recorder is that of the base.
  pub both_results_lem :
      (e : Experiment D S Own)
      → 0 < length dataset
      → IsFresh e.own
      → e.recorder.latencies_us ≡ []
      → (e' : Experiment D S Own) × (run_experiment r m db dataset config e ≡ (ok tt, e'))
        × ((p : BenchmarkResult D) × (s : BenchmarkResult D) × (get_both_results r m db dataset
                config e'.own
              ≡ ok (p, s))
            × (p.index_type ≡ text "primary")
            × (p.total_ops ≡ min config.read_sample_size (length dataset))
            × (s.index_type ≡ text "secondary")
            × (s.total_ops ≡ config.read_sample_size))
        × ((get_result m e').total_ops ≡ 0)
  unfolding run_experiment get_both_results cassandra_notes get_result start_clock stop_clock
      teardown point_read_labels copy_stats count
  both_results_lem e some_orders fresh unused =
      let (e₁, set_up, ids₁, ids₂, first, second, base) = setup_returns e some_orders in
      let (e₂, ran, size₁, size₂, same) = run_returns (start_clock m e₁).1 in
      let (stats, ops, ends) =
        execute_ends m (setup r m db dataset config) (run r m db dataset config)
          (teardown r m db dataset config) e e₁ e₂ set_up ran in
      let (p, made₁, ops₁) = compute_stats_total {D = D} e₂.own.primary_recorder in
      let (s, made₂, ops₂) = compute_stats_total {D = D} e₂.own.secondary_recorder in
      let stopped = (stop_clock m e₂).1 in
      (
        record e₂ {
          world = (db.drop_secondary_index stopped.world).1;
          recorder = stopped.recorder;
          result = copy_stats stats e₂.result;
        },
        rw (ends, indexed.drop_secondary_index-ok stopped.world) refl,
        (
          point_read_labels r m db dataset config (text "primary") p,
          cassandra_notes r m db dataset config
              (point_read_labels r m db dataset config (text "secondary") s),
          rw (made₁, made₂) refl,
          refl,
          omega (
            arith,
            ops₁,
            size₁,
            ids₁,
            ap (λ rec. length rec.latencies_us) first,
            ap length fresh.primary_recorder_empty,
            ap length fresh.primary_ids_empty,
          ),
          refl,
          omega (
            arith,
            ops₂,
            size₂,
            ids₂,
            ap (λ rec. length rec.latencies_us) second,
            ap length fresh.secondary_recorder_empty,
          ),
        ),
        omega (
          arith,
          ops,
          ap (λ rec. length rec.latencies_us) same,
          ap length (timers.latencies-start_timer e₁.recorder e₁.world),
          ap (λ rec. length rec.latencies_us) base,
          ap length unused,
        ),
      )
