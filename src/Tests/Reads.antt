-- ===== src/Tests/Reads.antt =====
-- Runs of the model of src/experiment/Experiment4.cpp to Experiment7.cpp.
use db_benchmark.Prelude.{
  ℕ, ◌*◌, ◌^◌, ◌<◌, ◌≡◌, refl, ap, sym, ◌∙◌, inl, List, [], ◌∷◌, arith, map, take, replicate,
  Option, some,
}
use db_benchmark.Cpp.Outcome.{ok}
use db_benchmark.Cpp.Text.{text, text_eq}
use db_benchmark.Cpp.Milli.{Milli, milli}
use db_benchmark.Metrics.BenchmarkResult.{BenchmarkResult, default_result}
use db_benchmark.Metrics.LatencyRecorder.{new_recorder}
use db_benchmark.Config.{default_config}
use db_benchmark.Cpp.Decimal.{show_int, show_nat}
use db_benchmark.Db.DbInterface.{DbInterface}
use db_benchmark.Db.Contract.{AnswersSecondary, AnswersRange}
use db_benchmark.Experiment.ExperimentBase.{Experiment, get_result}
use db_benchmark.Experiment.ExperimentBase.Timing.{undefined≢ok}
use db_benchmark.Experiment.Experiment4
use db_benchmark.Experiment.Experiment4.BothIndexes
use db_benchmark.Experiment.Experiment5
use db_benchmark.Experiment.Experiment5.OneWindow.{FindsAlways}
use db_benchmark.Experiment.Experiment5.Windows
use db_benchmark.Experiment.Experiment6
use db_benchmark.Experiment.Experiment6.Compaction
use db_benchmark.Experiment.Experiment7
use db_benchmark.Experiment.Experiment7.Phases.{write_phase_lem}
use db_benchmark.Experiment.Experiment7.Runs.{write_phase_returns, run_lem}
use db_benchmark.Tests.Machine.{
  Machine, counter, counter-IsUniform, platform, platform-KeepsLatencies, order, database,
  cassandra, database-KeepsRows, database-LeavesRows, database-TakesAll, database-Answers,
  cassandra-Answers, database-AnswersSecondary, dataset, config, experiment,
}

both_results_lem_example :
    (e' : Experiment Milli Machine Experiment4.Own) × (Experiment4.run_experiment counter platform
        database dataset config
        (experiment Experiment4.new_own)
      ≡ (ok tt, e'))
    × ((p : BenchmarkResult Milli) × (s : BenchmarkResult Milli) × (Experiment4.get_both_results
            counter platform database dataset config e'.own
          ≡ ok (p, s))
        × (p.index_type ≡ text "primary")
        × (p.total_ops ≡ 2)
        × (s.index_type ≡ text "secondary")
        × (s.total_ops ≡ 2))
    × ((get_result platform e').total_ops ≡ 0)
unfolding new_recorder
both_results_lem_example =
    BothIndexes.both_results_lem counter platform database dataset config counter-IsUniform
      platform-KeepsLatencies database-Answers database-AnswersSecondary
      (experiment Experiment4.new_own) (omega arith) BothIndexes.new_own-IsFresh refl

-- the same database under the name of MongoDB, with range scans that find three rows each
abbrev paged : DbInterface Milli Machine
paged = record database { find_by_range = λ from to w. (ok dataset, w); get_db_name = text "mongo" }

paged-AnswersSecondary : AnswersSecondary paged
paged-AnswersSecondary = record {
  create_secondary_index-ok = λ w. refl;
  drop_secondary_index-ok = λ w. refl;
  find_by_secondary_key-ok = λ id w. (w.table, refl);
}

paged-AnswersRange : AnswersRange paged
paged-AnswersRange = record { find_by_range-ok = λ from to w. (dataset, refl) }

windows_lem_example :
    (e' : Experiment Milli Machine Experiment5.Own) × (results : List (BenchmarkResult Milli))
    × (Experiment5.run_experiment counter platform paged dataset config
          (experiment Experiment5.new_own)
        ≡ (ok tt, e'))
    × (Experiment5.get_all_results counter platform paged dataset config e'.own ≡ ok results)
    × (map (λ x. x.phase) results ≡ text "1d" ∷ text "7d" ∷ text "30d" ∷ [])
    × (map (λ x. x.total_ops) results ≡ 2 ∷ 2 ∷ 2 ∷ [])
    × ((n : ℕ)
        → FindsAlways counter platform paged dataset config n
        → 2 * n < 2 ^ 64
        → map (λ x. x.result_set_size) results ≡ n ∷ n ∷ n ∷ [])
unfolding text text_eq show_int show_nat default_config
windows_lem_example =
    Windows.windows_lem counter platform paged dataset config platform-KeepsLatencies refl
      paged-AnswersSecondary paged-AnswersRange (experiment Experiment5.new_own) (omega arith)
      Windows.new_own-IsFresh

-- the count in the file
abbrev read_count : Machine → Option ℕ
read_count w = some 4

compaction_lem_example :
    (e' : Experiment Milli Machine Experiment6.Own) × (Experiment6.run_experiment counter platform
        read_count cassandra dataset config
        (experiment Experiment6.new_own)
      ≡ (ok tt, e'))
    × ((before : BenchmarkResult Milli) × (after : BenchmarkResult Milli)
        × (Experiment6.get_before_result counter platform read_count cassandra dataset config e'.own
            ≡ ok before)
        × (Experiment6.get_after_result counter platform read_count cassandra dataset config e'.own
            ≡ ok after)
        × (before.total_ops ≡ 2)
        × (after.total_ops ≡ 2)
        × (before.phase ≡ text "before_compaction")
        × (after.phase ≡ text "after_compaction")
        × (0 < 2 → after.notes ≡ Compaction.compared_p99 before.p99_us after.p99_us))
    × ((get_result platform e').total_ops ≡ 0)
unfolding new_recorder
compaction_lem_example =
    Compaction.compaction_lem counter platform read_count cassandra dataset config
      platform-KeepsLatencies cassandra-Answers counter-IsUniform refl
      (experiment Experiment6.new_own) (omega arith) Compaction.new_own-IsFresh refl (λ w. refl)

abbrev no_run : Experiment7.RunResult Milli
no_run = record { run_number = 0; write_result = default_result; read_result = default_result }

abbrev three_runs : Experiment7.Own Milli
three_runs = record {
  run_results = no_run ∷ no_run ∷ no_run ∷ [];
  avg_write_result = default_result;
  avg_read_result = default_result;
  written_order_ids = [];
}

run_lem_example :
    (e' : Experiment Milli Machine (Experiment7.Own Milli)) × (Experiment7.run counter platform
        database dataset config
        (experiment three_runs)
      ≡ (ok tt, e'))
    × (e'.world.table ≡ order (text "a") ∷ order (text "b") ∷ [])
    × (e'.own.written_order_ids ≡ text "a" ∷ text "b" ∷ [])
    × (map (λ x. x.run_number) e'.own.run_results ≡ 1 ∷ 2 ∷ 3 ∷ [])
    × (map (λ x. x.total_ops) (Experiment7.get_all_run_results e'.own.run_results) ≡ replicate 6 2)
    × (e'.own.avg_write_result.total_ops ≡ 2)
    × (e'.own.avg_read_result.total_ops ≡ 2)
run_lem_example =
    run_lem counter platform database dataset config database-KeepsRows platform-KeepsLatencies
      database-TakesAll database-LeavesRows database-Answers counter-IsUniform (inl refl)
      (λ command w. refl) (experiment three_runs) refl (omega arith)

write_phase_lem_example :
    (k : ℕ) × ((Experiment7.write_phase counter platform database dataset config 1
        (experiment three_runs)).1.world.table
      ≡ order (text "old") ∷ take k (order (text "a") ∷ order (text "b") ∷ []))
    × ((Experiment7.write_phase counter platform database dataset config 1
          (experiment three_runs)).1.own.written_order_ids
        ≡ map (λ o. o.order_id) (take k (order (text "a") ∷ order (text "b") ∷ [])))
    × ((stats : BenchmarkResult Milli)
        → (Experiment7.write_phase counter platform database dataset config 1
            (experiment three_runs)).0
          ≡ ok stats
        → (k ≡ 2) × (stats.total_ops ≡ 2))
write_phase_lem_example =
    let (stats, e', returned, _, _, _) =
      write_phase_returns counter platform database dataset config database-KeepsRows
        platform-KeepsLatencies database-TakesAll 1 (experiment three_runs) in
    write_phase_lem counter platform database dataset config database-KeepsRows
      platform-KeepsLatencies 1 (experiment three_runs)
      (λ h. undefined≢ok stats (sym h ∙ ap (λ o. o.0) returned))
