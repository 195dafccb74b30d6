-- ===== src/Experiment/Experiment6/Compaction.antt =====
-- What src/experiment/Experiment6.cpp measures.
use db_benchmark.Metrics.LatencyRecorder.{new_recorder}
use db_benchmark.Prelude.{
  ℕ, ◌+◌, ◌<◌, ◌≡◌, ◌≢◌, refl, ap, ◌∙◌, min, Bool, true, false, List, [], ◌++◌, Option, arith, ltb,
  length, length-append, length-map, map, take, if◌then◌else◌,
}
use db_benchmark.Prelude.Int.{ℤ, pos}
use db_benchmark.Cpp.Outcome.{ok, throw, runtime_error}
use db_benchmark.Cpp.Text.{Text, text, text_eq, text_eq_refl}
use db_benchmark.Cpp.Decimal.{show_int}
use db_benchmark.Cpp.Double.{Double, nought}
use db_benchmark.Cpp.Random.{Random, IsUniform, length-shuffle}
use db_benchmark.Metrics.BenchmarkResult.{BenchmarkResult}
use db_benchmark.Metrics.LatencyRecorder.{count}
use db_benchmark.Metrics.LatencyRecorder.Stats.{compute_stats_total}
use db_benchmark.Config.{BenchmarkConfig}
use db_benchmark.Data.Order.{Order}
use db_benchmark.Db.DbInterface.{DbInterface}
use db_benchmark.Db.Contract.{Answers}
use db_benchmark.Experiment.Platform.{Platform, KeepsLatencies}
use db_benchmark.Experiment.ExperimentBase.{
  Experiment, start_clock, stop_clock, teardown, copy_stats, get_result,
}
use db_benchmark.Experiment.ExperimentBase.Timing.{timed_phase_returns}
use db_benchmark.Experiment.ExperimentBase.Execute.{execute_ends}
use db_benchmark.Experiment.ExperimentBase.Samples.{sample_random_orders_lem}
use db_benchmark.Experiment.Experiment3.{failed}
use db_benchmark.Experiment.Experiment3.ColdReads.{failed-pos}
use db_benchmark.Experiment.Experiment6.{
  new_own, Own, sstable_command, count_in, get_sstable_count, run_compaction, label, keep_ids,
  keep_before_count, keep_after_count, prepare, setup, before_reads, after_reads, phases, run,
  run_experiment, phase_labels, get_before_result, improvement, get_after_result,
}

-- no id is sampled, no latency recorded, and the experiment is not skipped
pub record IsFresh (own : Own) : Type 0 where
  pub before_recorder_empty : own.before_recorder.latencies_us ≡ []
  pub after_recorder_empty : own.after_recorder.latencies_us ≡ []
  pub ids_empty : own.sample_ids ≡ []
  pub not_skipped : own.should_skip ≡ false

-- so is an experiment that is made
pub new_own-IsFresh : IsFresh new_own
unfolding new_recorder
new_own-IsFresh = record {
  before_recorder_empty = refl;
  after_recorder_empty = refl;
  ids_empty = refl;
  not_skipped = refl;
}

-- The note on two 99th percentiles, the one before the compaction and the one after it: the first
-- divided by the second, 0 if the second is not positive, in four characters of its decimals.
abbrev pub compared_p99 : {D : Type 0} ⦃d : Double D⦄ → D → D → Text
compared_p99 ⦃d⦄ p99_before p99_after =
    text "p99 improvement: "
    ++ take 4 (d.to_string (if d.lt nought p99_after then d.div p99_before p99_after else nought))
    ++ text "x after compaction"

module _ {D S : Type 0} ⦃d : Double D⦄ (r : Random D) (m : Platform S) (read_count : S → Option ℕ)
    (db : DbInterface D S) (dataset : List (Order D)) (config : BenchmarkConfig) where
  -- the second result, with the note or without it
  improved :
      (b : Bool) (before after : BenchmarkResult D)
      → (after' : BenchmarkResult D) × ((if b
            then ok (improvement r m read_count db dataset config before after)
            else ok after)
          ≡ ok after')
        × (after'.total_ops ≡ after.total_ops)
        × (after'.phase ≡ after.phase)
        × (b ≡ true → after'.notes ≡ compared_p99 before.p99_us after'.p99_us)
  unfolding improvement
  improved true before after =
      (improvement r m read_count db dataset config before after, refl, refl, refl, λ h. refl)
  improved false before after = (after, refl, refl, refl, λ h. ground arith)

  -- the compaction that `run` starts from `e`
  abbrev pub compaction : Experiment D S Own → ℤ × S
  compaction e =
      m.system (text "./scripts/cassandra_compact.sh")
        (before_reads r m read_count db dataset config e).1.world

  module _ (timers : KeepsLatencies m) (answers : Answers db) where
    -- the reads before the compaction return
    before_reads_returns :
        (e : Experiment D S Own)
        → ((before_reads r m read_count db dataset config e).0 ≡ ok tt)
          × (length
                (before_reads r m read_count db dataset config e).1.own.before_recorder.latencies_us
              ≡ length e.own.before_recorder.latencies_us + length e.own.sample_ids)
    unfolding before_reads
    before_reads_returns e =
        timed_phase_returns m db.find_by_primary_key (λ id w. answers.find_by_primary_key-ok id w)
          timers e.own.sample_ids e.world e.own.before_recorder

    -- and so do those after it
    after_reads_returns :
        (e : Experiment D S Own)
        → ((after_reads r m read_count db dataset config e).0 ≡ ok tt)
          × (length
                (after_reads r m read_count db dataset config e).1.own.after_recorder.latencies_us
              ≡ length e.own.after_recorder.latencies_us + length e.own.sample_ids)
    unfolding after_reads
    after_reads_returns e =
        timed_phase_returns m db.find_by_primary_key (λ id w. answers.find_by_primary_key-ok id w)
          timers e.own.sample_ids e.world e.own.after_recorder

    -- On a database that answers, if the command of the compaction fails, `run` throws the message
    -- with its return code, the latencies of the first phase are recorded and the second phase does
    -- not begin: its recorder and the count after the compaction are those of before.
    pub compaction_failed :
        (e : Experiment D S Own)
        → e.own.should_skip ≡ false
        → (compaction e).0 ≢ pos 0
        → (e' : Experiment D S Own) × (run r m read_count db dataset config e ≡ (
          throw (
              runtime_error (
                text "exp_06: cassandra_compact.sh failed. "
                ++ text "Return code: "
                ++ show_int (compaction e).0)),
          e',
        ))
          × (e'.world ≡ (compaction e).1)
          × (length e'.own.before_recorder.latencies_us
              ≡ length e.own.before_recorder.latencies_us + length e.own.sample_ids)
          × (e'.own.after_recorder ≡ e.own.after_recorder)
          × (e'.own.after_sstable_count ≡ e.own.after_sstable_count)
    unfolding run phases run_compaction before_reads
    compaction_failed e runs fails =
        let (returned, size) = before_reads_returns e in
        let e₁ = (before_reads r m read_count db dataset config e).1 in
        (
          record e₁ { world = (compaction e).1 },
          rw (runs, returned, failed-pos (compaction e).0 fails) refl,
          refl,
          size,
          refl,
          refl,
        )

    module _ (laws : IsUniform r) (cassandra : db.get_db_name ≡ text "cassandra") where
      -- `setup` samples the ids and counts the SSTables
      setup_returns :
          (e : Experiment D S Own)
          → 0 < length dataset
          → (e₁ : Experiment D S Own) × (setup r m read_count db dataset config e ≡ (ok tt, e₁))
            × (length e₁.own.sample_ids
                ≡ length e.own.sample_ids + min config.read_sample_size (length dataset))
            × (e₁.own.before_recorder ≡ e.own.before_recorder)
            × (e₁.own.after_recorder ≡ e.own.after_recorder)
            × (e₁.own.should_skip ≡ e.own.should_skip)
            × (e₁.recorder ≡ e.recorder)
      unfolding setup prepare label keep_ids keep_before_count get_sstable_count
      setup_returns e some_orders =
          let (sample, sampled, size, _) =
            (sample_random_orders_lem r laws dataset config.rng_seed config.read_sample_size).0
              some_orders in
          let e₁ =
            (keep_ids r m read_count db dataset config sample
              (label r m read_count db dataset config e).1).1 in
          let (n, w) = get_sstable_count r m read_count db dataset config e₁.world in
          let is_cassandra : text_eq db.get_db_name (text "cassandra") ≡ true =
            ap (λ name. text_eq name (text "cassandra")) cassandra
            ∙ text_eq_refl (text "cassandra") in
          (
            record e₁ {
              world = w;
              own = record e₁.own {
                before_sstable_count =
                    if failed (m.system (sstable_command) e₁.world).0
                    then 0
                    else count_in (read_count w);
              };
            },
            rw (is_cassandra, sampled) refl,
            length-shuffle r laws _ _
                ∙ omega (
                  arith,
                  size,
                  length-append e.own.sample_ids (map (λ o. o.order_id) sample),
                  length-map (λ (o : Order D). o.order_id) sample,
                ),
            refl,
            refl,
            refl,
            refl,
          )

      -- `run` has both phases, and counts the SSTables between them
      run_returns :
          (e : Experiment D S Own)
          → e.own.should_skip ≡ false
          → (compaction e).0 ≡ pos 0
          → (e' : Experiment D S Own) × (run r m read_count db dataset config e ≡ (ok tt, e'))
            × (length e'.own.before_recorder.latencies_us
                ≡ length e.own.before_recorder.latencies_us + length e.own.sample_ids)
            × (length e'.own.after_recorder.latencies_us
                ≡ length e.own.after_recorder.latencies_us + length e.own.sample_ids)
            × (e'.own.should_skip ≡ e.own.should_skip)
            × (e'.recorder ≡ e.recorder)
      unfolding run phases run_compaction before_reads after_reads get_sstable_count
          keep_after_count failed
      run_returns e runs compacted =
          let (returned, size) = before_reads_returns e in
          let e₁ = (before_reads r m read_count db dataset config e).1 in
          let (n, w) = get_sstable_count r m read_count db dataset config (compaction e).1 in
          let counted =
            if failed (m.system sstable_command (compaction e).1).0
            then 0
            else count_in (read_count w) in
          let e₂ =
            (keep_after_count r m read_count db dataset config counted
              (record e₁ { world = w })).1 in
          let (returned', size') = after_reads_returns e₂ in
          (
            (after_reads r m read_count db dataset config e₂).1,
            rw (runs, returned, compacted) (rw returned' refl),
            size,
            size',
            refl,
            refl,
          )

      -- On Cassandra, over a dataset that is not empty and with new recorders, if the database answers
      -- and the command of the compaction succeeds: the experiment returns; both results have as many
      -- operations as the sample size asks and the dataset allows, named for the phases before and
      -- after the compaction; if that is one or more, the notes of the second give the 99th percentile
      -- of the first divided by its own, or 0 where its own is not positive, in the first four
      -- characters of the decimals; and `get_result` reports no operation, since neither recorder is
      -- that of the base.
      pub compaction_lem :
          (e : Experiment D S Own)
          → 0 < length dataset
          → IsFresh e.own
          → e.recorder.latencies_us ≡ []
          → ((w : S) → (m.system (text "./scripts/cassandra_compact.sh") w).0 ≡ pos 0)
          → (e' : Experiment D S Own) × (run_experiment r m read_count db dataset config e
              ≡ (ok tt, e'))
            × ((before : BenchmarkResult D) × (after : BenchmarkResult D) × (get_before_result r m
                    read_count db dataset config e'.own
                  ≡ ok before)
                × (get_after_result r m read_count db dataset config e'.own ≡ ok after)
                × (before.total_ops ≡ min config.read_sample_size (length dataset))
                × (after.total_ops ≡ min config.read_sample_size (length dataset))
                × (before.phase ≡ text "before_compaction")
                × (after.phase ≡ text "after_compaction")
                × (0 < min config.read_sample_size (length dataset)
                    → after.notes ≡ compared_p99 before.p99_us after.p99_us))
            × ((get_result m e').total_ops ≡ 0)
      unfolding run_experiment start_clock stop_clock teardown get_before_result get_after_result
          get_result phase_labels improvement copy_stats count
      compaction_lem e some_orders fresh unused succeeds =
          let (e₁, set_up, ids, first, second, skip₁, base) = setup_returns e some_orders in
          let started = (start_clock m e₁).1 in
          let (e₂, ran, size₁, size₂, skip₂, same) =
            run_returns started (skip₁ ∙ fresh.not_skipped) (succeeds _) in
          let (stats, ops, ends) =
            execute_ends m (setup r m read_count db dataset config)
              (run r m read_count db dataset config) (teardown m) e e₁ e₂ set_up ran in
          let (p, made₁, ops₁) = compute_stats_total {D = D} e₂.own.before_recorder in
          let (s, made₂, ops₂) = compute_stats_total {D = D} e₂.own.after_recorder in
          let runs : e₂.own.should_skip ≡ false = skip₂ ∙ skip₁ ∙ fresh.not_skipped in
          let labelled =
            phase_labels r m read_count db dataset config (text "after_compaction")
              e₂.own.after_sstable_count s in
          let (after, made, same_ops, same_phase, note) =
            improved (ltb 0 (count e₂.own.before_recorder)) p labelled in
          let before_size : p.total_ops ≡ min config.read_sample_size (length dataset) = omega (
            arith,
            ops₁,
            size₁,
            ids,
            ap (λ rec. length rec.latencies_us) first,
            ap length fresh.before_recorder_empty,
            ap length fresh.ids_empty,
          ) in
          let stopped = (stop_clock m e₂).1 in
          (
            record e₂ {
              world = stopped.world;
              recorder = stopped.recorder;
              result = copy_stats stats e₂.result;
            },
            ends,
            (
              phase_labels r m read_count db dataset config (text "before_compaction")
                  e₂.own.before_sstable_count p,
              after,
              rw (runs, made₁) refl,
              rw (runs, made₂, made₁) made,
              before_size,
              same_ops
                  ∙ omega (
                    arith,
                    ops₂,
                    size₂,
                    ids,
                    ap (λ rec. length rec.latencies_us) second,
                    ap length fresh.after_recorder_empty,
                    ap length fresh.ids_empty,
                  ),
              refl,
              same_phase,
              λ h. note (ground (arith, before_size, ops₁)),
            ),
            omega (
              arith,
              ops,
              ap (λ rec. length rec.latencies_us) same,
              ap length (timers.latencies-start_timer e₁.recorder e₁.world),
              ap (λ rec. length rec.latencies_us) base,
              ap length unused,
            ),
          )
