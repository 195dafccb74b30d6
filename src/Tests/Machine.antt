-- ===== src/Tests/Machine.antt =====
-- A machine for the concrete runs: a table and a clock that a reading moves on, random draws that
-- count up to their bound, and a shuffle that changes nothing.
use db_benchmark.Prelude.{ℕ, ◌+◌, min, ◌≢◌, refl, List, [], ◌∷◌, ◌++◌, arith}
use db_benchmark.Prelude.Int.{pos}
use db_benchmark.Cpp.Outcome.{Exception, Outcome, ok, throw, other_exception}
use db_benchmark.Cpp.Text.{Text, text}
use db_benchmark.Cpp.Milli.{Milli, milli}
use db_benchmark.Cpp.Random.{Random, IsUniform}
use db_benchmark.Metrics.BenchmarkResult.{default_result}
use db_benchmark.Metrics.LatencyRecorder.{new_recorder}
use db_benchmark.Config.{BenchmarkConfig, default_config}
use db_benchmark.Data.Order.{Order, empty_order}
use db_benchmark.Db.DbInterface.{DbInterface}
use db_benchmark.Experiment.Platform.{Platform, KeepsLatencies}
use db_benchmark.Experiment.ExperimentBase.{Experiment}
use db_benchmark.Db.Contract.{KeepsRows, LeavesRows, TakesAll, Answers, AnswersSecondary}

abbrev pub counter : Random Milli
counter = record {
  Engine = ℕ;
  seed = λ s. s;
  uniform_int = λ lo hi g. (min hi (lo + g), g + 1);
  uniform_real = λ lo hi g. (lo, g + 1);
  shuffle = λ xs g. (xs, g);
}

pub counter-IsUniform : IsUniform counter
counter-IsUniform = record {
  uniform_int-le = λ lo hi g h. (omega arith, omega arith);
  count_if-shuffle = λ p xs g. refl;
}

pub record Machine : Type 0 where
  pub table : List (Order Milli)
  pub clock : ℕ

abbrev pub platform : Platform Machine
platform = record {
  now = λ w. (w.clock, record w { clock = w.clock + 1000 });
  system = λ command w. (pos 0, w);
  start_timer = λ rec w. (record rec { start_ns = w.clock }, w);
}

pub platform-KeepsLatencies : KeepsLatencies platform
platform-KeepsLatencies = record { latencies-start_timer = λ r w. refl }

abbrev pub order : Text → Order Milli
order id = record (empty_order 1000 (pos 1)) { order_id = id }

abbrev pub database : DbInterface Milli Machine
database = record {
  connect = λ w. (ok tt, w);
  disconnect = λ w. (throw (other_exception (text "closed")), w);
  insert_one = λ o w. (ok tt, record w { table = w.table ++ o ∷ [] });
  insert_batch = λ os w. (ok tt, record w { table = w.table ++ os });
  delete_by_primary_key = λ id w. (ok tt, w);
  find_by_primary_key = λ id w. (ok (order id), w);
  find_by_secondary_key = λ id w. (ok w.table, w);
  find_by_range = λ from to w. (ok w.table, w);
  clear_table = λ w. (ok tt, record w { table = [] });
  create_secondary_index = λ w. (ok tt, w);
  drop_secondary_index = λ w. (ok tt, w);
  get_db_name = text "postgres";
}

abbrev pub pure_unit : Outcome (Unit {0})
pure_unit = ok tt

pub ok≢throw : (x : Exception) → pure_unit ≢ throw x
ok≢throw x = ground arith

abbrev pub database-KeepsRows : KeepsRows platform database
database-KeepsRows = record {
  rows = λ w. w.table;
  rows-now = λ w. refl;
  rows-start_timer = λ rec w. refl;
  rows-clear_table = λ w e. refl;
  rows-insert_one = λ o w e. refl;
  rows-insert_one_failed = λ o w x e. absurd (ok≢throw x e);
}

pub database-TakesAll : TakesAll database
database-TakesAll = record { clear_table-ok = λ w. refl; insert_one-ok = λ o w. refl }

pub database-LeavesRows : LeavesRows platform database (λ w. w.table)
database-LeavesRows = record {
  rows-system = λ command w. refl;
  rows-connect = λ w. refl;
  rows-find_by_primary_key = λ id w. refl;
}

-- the same database under the name of Cassandra
abbrev pub cassandra : DbInterface Milli Machine
cassandra = record database { get_db_name = text "cassandra" }

pub database-Answers : Answers database
database-Answers = record {
  connect-ok = λ w. refl;
  find_by_primary_key-ok = λ id w. (order id, refl);
}

pub cassandra-Answers : Answers cassandra
cassandra-Answers = record {
  connect-ok = λ w. refl;
  find_by_primary_key-ok = λ id w. (order id, refl);
}

pub database-AnswersSecondary : AnswersSecondary database
database-AnswersSecondary = record {
  create_secondary_index-ok = λ w. refl;
  drop_secondary_index-ok = λ w. refl;
  find_by_secondary_key-ok = λ id w. (w.table, refl);
}

abbrev pub dataset : List (Order Milli)
dataset = order (text "a") ∷ order (text "b") ∷ order (text "c") ∷ []

abbrev pub machine : Machine
machine = record { table = order (text "old") ∷ []; clock = 5 }

abbrev pub config : BenchmarkConfig
config = record (default_config 0) { total_rows = 2; read_sample_size = 2; thread_count = 2 }

abbrev pub experiment : {X : Type 0} → X → Experiment Milli Machine X
experiment own = record {
  world = machine;
  recorder = new_recorder;
  result = default_result;
  own = own;
}
