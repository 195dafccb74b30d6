-- ===== src/Experiment/Experiment1.antt =====
-- src/experiment/Experiment1.hpp and .cpp: single inserts, one after the other. It adds no member.
pub mod Table
use db_benchmark.Prelude.{ℕ, min, List, length, take}
use db_benchmark.Cpp.Outcome.{Outcome, ok}
use db_benchmark.Cpp.Method.{Method, pure, ◌>>=◌, ◌>>◌}
use db_benchmark.Cpp.Text.{text}
use db_benchmark.Cpp.Double.{Double}
use db_benchmark.Metrics.BenchmarkResult.{BenchmarkResult}
use db_benchmark.Config.{BenchmarkConfig}
use db_benchmark.Data.Order.{Order}
use db_benchmark.Db.DbInterface.{DbInterface}
use db_benchmark.Experiment.Platform.{Platform}
use db_benchmark.Experiment.ExperimentBase.{
  Experiment, on_world, on_recorder, timed_loop, execute, teardown,
}

module _ {D S : Type 0} ⦃d : Double D⦄ (m : Platform S) (db : DbInterface D S)
    (dataset : List (Order D)) (config : BenchmarkConfig) where
  label : Method (Experiment D S (Unit {0})) (Unit {0})
  label e = (
    ok tt,
    record e {
      result = record e.result {
        database = db.get_db_name;
        experiment_name = text "1.Single Insert";
        operation = text "insert";
        index_type = text "primary";
        thread_count = 1;
      };
    },
  )

  unfoldable pub setup : Method (Experiment D S (Unit {0})) (Unit {0})
  unfolding label
  setup = do on_world db.clear_table; label

  -- The loop reads the orders at the indices below `n`.
  unfoldable pub run : Method (Experiment D S (Unit {0})) (Unit {0})
  run =
      let n = min (length dataset) config.total_rows in
      on_recorder m (timed_loop m db.insert_one (take n dataset))

  unfoldable pub run_experiment : Method (Experiment D S (Unit {0})) (Unit {0})
  run_experiment = execute m setup run (teardown m)
