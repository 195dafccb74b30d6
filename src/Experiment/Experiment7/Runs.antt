-- ===== src/Experiment/Experiment7/Runs.antt =====
-- The runs of src/experiment/Experiment7.cpp on a database that does not fail.
use db_benchmark.Prelude.{
  ℕ, ◌-◌, ◌*◌, ◌^◌, ◌<◌, ◌≡◌, refl, sym, ap, ◌∙◌, inl, inr, min, List, [], ◌∷◌, ◌++◌, arith, length,
  length-map, length-take, set, take, take-length, map, replicate,
}
use db_benchmark.Prelude.Int.{pos}
use db_benchmark.Cpp.Outcome.{Outcome, ok}
use db_benchmark.Cpp.Text.{Text, text, text_eq}
use db_benchmark.Cpp.Double.{Double}
use db_benchmark.Cpp.Random.{Random, IsUniform, length-shuffle}
use db_benchmark.Metrics.BenchmarkResult.{BenchmarkResult}
use db_benchmark.Metrics.LatencyRecorder.{LatencyRecorder, new_recorder, stop_timer, count}
use db_benchmark.Metrics.LatencyRecorder.Stats.{compute_stats_total}
use db_benchmark.Config.{BenchmarkConfig}
use db_benchmark.Data.Order.{Order}
use db_benchmark.Db.DbInterface.{DbInterface}
use db_benchmark.Db.Contract.{KeepsRows, LeavesRows, TakesAll, Answers}
use db_benchmark.Experiment.Platform.{Platform, KeepsLatencies}
use db_benchmark.Experiment.ExperimentBase.{Experiment, timed_loop}
use db_benchmark.Experiment.ExperimentBase.Timing.{
  undefined≢ok, timed_loop_size, timed_loop_returns, timed_loop_keeps,
}
use db_benchmark.Experiment.Experiment1.Table.{insert_loop_returns}
use db_benchmark.Experiment.Experiment3.{failed}
use db_benchmark.Experiment.Experiment3.ColdReads.{IsDbName}
use db_benchmark.Experiment.Experiment7.{
  Own, RunResult, container_name, flush_container, flush_cache, write_phase, end_phase,
  phase_labels, ids_to_read, read_phase, store_run, one_run, runs_from, run, compute_averages,
  avg_results, avg_of, phase_result, get_all_run_results, num_runs,
}
use db_benchmark.Experiment.Experiment7.Phases.{
  begin_phase, writing, write_loop_lem, write_phase_lem,
}

three_elements :
    {A : Type 0} (xs : List A) → length xs ≡ 3 → (x : A) × (y : A) × (z : A) × (xs ≡ x ∷ y ∷ z ∷ [])
three_elements [] h = absurd (omega arith)
three_elements (x ∷ []) h = absurd (omega arith)
three_elements (x ∷ y ∷ []) h = absurd (omega arith)
three_elements (x ∷ y ∷ z ∷ []) h = (x, y, z, refl)
three_elements (x ∷ y ∷ z ∷ v ∷ xs) h = absurd (omega arith)

module _ {D S : Type 0} ⦃d : Double D⦄ (r : Random D) (m : Platform S) (db : DbInterface D S)
    (dataset : List (Order D)) (config : BenchmarkConfig) where
  abbrev label : Text → ℕ → Text → BenchmarkResult D → BenchmarkResult D
  label = phase_labels r m db dataset config

  -- a phase whose loop returned returns
  end_phase_returns :
      (operation : Text) (run_number : ℕ) (suffix : Text) (res : Outcome (Unit {0}))
      (rec : LatencyRecorder)
      → (e : Experiment D S (Own D)) → res ≡ ok tt
      → (stats : BenchmarkResult D) × (end_phase r m db dataset config
            (label operation run_number suffix)
            res
            rec
            e
          ≡ (ok stats, record e { world = (m.now e.world).1 }))
        × (stats.total_ops ≡ length rec.latencies_us)
  unfolding count stop_timer phase_labels
  end_phase_returns operation run_number suffix res rec e h =
      let (stats, made, size) = compute_stats_total {D = D} (stop_timer (m.now e.world).0 rec) in
      (label operation run_number suffix stats, rw h (rw made refl), size)

  module _ (keeps : KeepsRows m db) (timers : KeepsLatencies m) (takes : TakesAll db) where
    open keeps use {rows}

    abbrev pub all_rows : List (Order D)
    all_rows = take (min (length dataset) config.total_rows) dataset

    pub write_phase_returns :
        (run_number : ℕ) (e : Experiment D S (Own D))
        → (stats : BenchmarkResult D) × (e' : Experiment D S (Own D)) × (write_phase r m db dataset
              config run_number e
            ≡ (ok stats, e'))
          × (rows e'.world ≡ rows e.world ++ all_rows)
          × (e'.own ≡ record e.own { written_order_ids = map (λ o. o.order_id) all_rows })
          × (stats.total_ops ≡ length all_rows)
    unfolding write_phase
    write_phase_returns run_number e =
        let w = writing r m db dataset config e.world in
        let begun = begin_phase r m db dataset config e.world in
        let (j, res, _, _) = write_loop_lem r m db dataset config all_rows begun.0 begun.1 [] in
        let e' = record e { world = w.1.0.0; own = record e.own { written_order_ids = w.1.1 } } in
        let returned = res ∙ insert_loop_returns m db keeps takes all_rows begun.0 begun.1 in
        let (stats, phase, size) =
          end_phase_returns (text "insert") run_number (text "_write") w.0 w.1.0.1 e' returned in
        let (k, world, ids, full) =
          write_phase_lem r m db dataset config keeps timers run_number e
            (λ h. undefined≢ok stats (sym h ∙ ap (λ o. o.0) phase)) in
        let (count, ops) = full stats (ap (λ o. o.0) phase) in
        let exact : take k all_rows ≡ all_rows =
          ap (λ i. take i all_rows)
            (omega (arith, count, length-take (min (length dataset) config.total_rows) dataset))
          ∙ take-length all_rows in
        let kept : w.1.1 ≡ map (λ o. o.order_id) all_rows =
          ap (λ o. o.1.own.written_order_ids) (sym phase)
          ∙ ids
          ∙ ap (map (λ o. o.order_id)) exact in
        (
          stats,
          record e' { world = (m.now e'.world).1 },
          phase,
          ap (λ o. rows o.1.world) (sym phase) ∙ world ∙ ap (λ ys. rows e.world ++ ys) exact,
          ap (λ ids. record e.own { written_order_ids = ids }) kept,
          omega (arith, ops, length-take (min (length dataset) config.total_rows) dataset),
        )

    module _ (leaves : LeavesRows m db rows) (answers : Answers db) (laws : IsUniform r)
        (named : IsDbName db.get_db_name)
        (succeeds : (command : Text) (w : S) → (m.system command w).0 ≡ pos 0) where
      read_phase_returns :
          (run_number : ℕ) (e : Experiment D S (Own D))
          → (stats : BenchmarkResult D) × (e' : Experiment D S (Own D)) × (read_phase r m db dataset
                config run_number e
              ≡ (ok stats, e'))
            × (rows e'.world ≡ rows e.world)
            × (e'.own ≡ e.own)
            × (stats.total_ops
                ≡ length (ids_to_read r m db dataset config run_number e.own.written_order_ids))
      unfolding read_phase new_recorder
      read_phase_returns run_number e =
          let (rec, w) = m.start_timer new_recorder e.world in
          let ids = ids_to_read r m db dataset config run_number e.own.written_order_ids in
          let loop = timed_loop m db.find_by_primary_key ids (w, rec) in
          let returned =
            timed_loop_returns m db.find_by_primary_key
              (λ id v. answers.find_by_primary_key-ok id v) ids w rec in
          let still =
            timed_loop_keeps m db.find_by_primary_key rows keeps.rows-now
              (λ id v. leaves.rows-find_by_primary_key id v) ids w rec in
          let (stats, phase, size) =
            end_phase_returns (text "point_read") run_number (text "_read") loop.0 loop.1.1
              (record e { world = loop.1.0 }) returned in
          (
            stats,
            record e { world = (m.now loop.1.0).1 },
            phase,
            keeps.rows-now loop.1.0 ∙ still ∙ keeps.rows-start_timer new_recorder e.world,
            refl,
            omega (
              arith,
              size,
              timed_loop_size m db.find_by_primary_key ids w rec returned,
              ap length (timers.latencies-start_timer new_recorder e.world),
            ),
          )

      flush_cache_returns :
          (w : S)
          → (w' : S) × (flush_cache r m db dataset config w ≡ (ok tt, w')) × (rows w' ≡ rows w)
      unfolding flush_cache container_name flush_container failed text_eq text
      flush_cache_returns w =
          let command = λ (container : Text). text "./scripts/flush_cache_mac.sh " ++ container in
          elim named [
            | inl e ↦ (
              (m.system (command (text "bench_postgres")) w).1,
              rw (e, succeeds (command (text "bench_postgres")) w) refl,
              leaves.rows-system (command (text "bench_postgres")) w,
            )
            | inr (inl e) ↦ (
              (m.system (command (text "bench_mongo")) w).1,
              rw (e, succeeds (command (text "bench_mongo")) w) refl,
              leaves.rows-system (command (text "bench_mongo")) w,
            )
            | inr (inr e) ↦ (
              (m.system (command (text "bench_cassandra")) w).1,
              rw (e, succeeds (command (text "bench_cassandra")) w) refl,
              leaves.rows-system (command (text "bench_cassandra")) w,
            )
          ]

      length-ids_to_read :
          (run_number : ℕ) (ids : List Text)
          → length (ids_to_read r m db dataset config run_number ids) ≡ length ids
      unfolding ids_to_read
      length-ids_to_read run_number ids = length-shuffle r laws ids _

      -- the run was stored, with as many operations in both phases as there are rows to write
      abbrev Stored : ℕ → Own D → Own D → Type 0
      Stored run_number own own' =
          (write_result : BenchmarkResult D) × (read_result : BenchmarkResult D) × (own'
            ≡ record own {
              run_results = set own.run_results (run_number - 1) (record {
                run_number = run_number;
                write_result = write_result;
                read_result = read_result;
              });
              written_order_ids = map (λ o. o.order_id) all_rows;
            })
          × (write_result.total_ops ≡ length all_rows)
          × (read_result.total_ops ≡ length all_rows)

      one_run_returns :
          (run_number : ℕ) (e : Experiment D S (Own D))
          → (e' : Experiment D S (Own D)) × (one_run r m db dataset config run_number e
              ≡ (ok tt, e'))
            × (rows e'.world ≡ all_rows)
            × Stored run_number e.own e'.own
      unfolding one_run store_run
      one_run_returns run_number e =
          let e₁ = record e { world = (db.clear_table e.world).1 } in
          let (written, e₂, wrote, rows₂, own₂, ops₂) = write_phase_returns run_number e₁ in
          let (w₃, flushed, rows₃) = flush_cache_returns e₂.world in
          let e₄ = record e₂ { world = (db.connect w₃).1 } in
          let (read, e₅, had_read, rows₅, own₅, ops₅) = read_phase_returns run_number e₄ in
          (
            (store_run r m db dataset config run_number written read e₅).1,
            rw (takes.clear_table-ok e.world, wrote, flushed, answers.connect-ok w₃, had_read) refl,
            rows₅
                ∙ leaves.rows-connect w₃
                ∙ rows₃
                ∙ rows₂
                ∙ ap (λ ys. ys ++ all_rows)
                    (keeps.rows-clear_table e.world (takes.clear_table-ok e.world)),
            (
              written,
              read,
              ap {A = Own D}
                  (λ own. record own {
                    run_results = set own.run_results (run_number - 1) (record {
                      run_number = run_number;
                      write_result = written;
                      read_result = read;
                    });
                  })
                  (own₅ ∙ own₂),
              ops₂,
              ops₅
                  ∙ length-ids_to_read run_number e₂.own.written_order_ids
                  ∙ ap (λ own. length own.written_order_ids) own₂
                  ∙ length-map (λ o. o.order_id) all_rows,
            ),
          )

      -- The three runs, on a database that keeps its rows as `KeepsRows` and `LeavesRows` say, takes
      -- every order and answers, with a shuffle that rearranges and commands that succeed, and for a
      -- number of rows whose triple fits 64 bits: `run` returns; the table holds the rows to write,
      -- whatever it held before, and `written_order_ids` are their ids; the array holds the runs 1, 2
      -- and 3, each with as many inserts and as many reads as there are rows; and that is the number
      -- of operations of both averages.
      pub run_lem :
          (e : Experiment D S (Own D))
          → length e.own.run_results ≡ 3
          → 3 * length all_rows < 2 ^ 64
          → (e' : Experiment D S (Own D)) × (run r m db dataset config e ≡ (ok tt, e'))
            × (rows e'.world ≡ take (min (length dataset) config.total_rows) dataset)
            × (e'.own.written_order_ids
                ≡ map (λ o. o.order_id) (take (min (length dataset) config.total_rows) dataset))
            × (map (λ x. x.run_number) e'.own.run_results ≡ 1 ∷ 2 ∷ 3 ∷ [])
            × (map (λ x. x.total_ops) (get_all_run_results e'.own.run_results)
                ≡ replicate 6 (length all_rows))
            × (e'.own.avg_write_result.total_ops ≡ length all_rows)
            × (e'.own.avg_read_result.total_ops ≡ length all_rows)
      unfolding run runs_from num_runs compute_averages avg_results avg_of phase_result
          get_all_run_results
      run_lem e array small =
          let (e₁, ran₁, rows₁, (w₁, r₁, own₁, wo₁, ro₁)) = one_run_returns 1 e in
          let (e₂, ran₂, rows₂, (w₂, r₂, own₂, wo₂, ro₂)) = one_run_returns 2 e₁ in
          let (e₃, ran₃, rows₃, (w₃, r₃, own₃, wo₃, ro₃)) = one_run_returns 3 e₂ in
          let (x, y, z, elements) = three_elements e.own.run_results array in
          let first : RunResult D = record {
            run_number = 1;
            write_result = w₁;
            read_result = r₁;
          } in
          let second : RunResult D = record {
            run_number = 2;
            write_result = w₂;
            read_result = r₂;
          } in
          let third : RunResult D = record {
            run_number = 3;
            write_result = w₃;
            read_result = r₃;
          } in
          let stored : e₃.own.run_results ≡ first ∷ second ∷ third ∷ [] =
            ap (λ o. o.run_results) own₃
            ∙ ap (λ rs. set rs 2 third)
                (ap (λ o. o.run_results) own₂
                  ∙ ap (λ rs. set rs 1 second)
                      (ap (λ o. o.run_results) own₁ ∙ ap (λ rs. set rs 0 first) elements)) in
          (
            (compute_averages r m db dataset config e₃).1,
            rw (ran₁, ran₂, ran₃) refl,
            rows₃,
            ap (λ o. o.written_order_ids) own₃,
            rw stored refl,
            rw (stored, wo₁, ro₁, wo₂, ro₂, wo₃, ro₃) refl,
            rw stored (omega (arith, wo₁, wo₂, wo₃)),
            rw stored (omega (arith, ro₁, ro₂, ro₃)),
          )
