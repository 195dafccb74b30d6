-- ===== src/Experiment/Experiment6/Skipped.antt =====
-- When src/experiment/Experiment6.cpp measures nothing.
use db_benchmark.Prelude.{ℕ, ◌≡◌, refl, true, false, List, Option}
use db_benchmark.Cpp.Outcome.{ok}
use db_benchmark.Cpp.Text.{text, text_eq}
use db_benchmark.Cpp.Double.{Double}
use db_benchmark.Cpp.Random.{Random}
use db_benchmark.Config.{BenchmarkConfig}
use db_benchmark.Data.Order.{Order}
use db_benchmark.Db.DbInterface.{DbInterface}
use db_benchmark.Experiment.Platform.{Platform}
use db_benchmark.Experiment.ExperimentBase.{Experiment, start_clock, teardown}
use db_benchmark.Experiment.ExperimentBase.Execute.{execute_ends}
use db_benchmark.Experiment.Experiment6.{
  Own, label, setup, run, run_experiment, skipped_result, get_before_result, get_after_result,
}

module _ {D S : Type 0} ⦃d : Double D⦄ (r : Random D) (m : Platform S) (read_count : S → Option ℕ)
    (db : DbInterface D S) (dataset : List (Order D)) (config : BenchmarkConfig) where
  -- On a database that is not Cassandra the experiment returns, with no call of the database and no
  -- command: the world has only started the timer and read the clock, and both results are the one
  -- of a skipped experiment.
  pub skip_lem :
      (e : Experiment D S Own)
      → text_eq db.get_db_name (text "cassandra") ≡ false
      → (e' : Experiment D S Own) × (run_experiment r m read_count db dataset config e
          ≡ (ok tt, e'))
        × (e'.world ≡ (m.now (m.start_timer e.recorder e.world).1).1)
        × (get_before_result r m read_count db dataset config e'.own
            ≡ ok (skipped_result r m read_count db dataset config))
        × (get_after_result r m read_count db dataset config e'.own
            ≡ ok (skipped_result r m read_count db dataset config))
  unfolding run_experiment setup run get_before_result get_after_result start_clock teardown label
  skip_lem e other =
      let e₁ = record (label r m read_count db dataset config e).1 {
        own = record e.own { should_skip = true };
      } in
      let (stats, ops, ends) =
        execute_ends m (setup r m read_count db dataset config)
          (run r m read_count db dataset config) (teardown m) e e₁ (start_clock m e₁).1
          (rw other refl) refl in
      (_, ends, refl, refl, refl)
