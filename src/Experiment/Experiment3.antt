-- ===== src/Experiment/Experiment3.antt =====
-- src/experiment/Experiment3.hpp and .cpp: reads by primary key from a cold cache. Its member is the
-- list `sample_ids_`. What it prints is not modelled.
pub mod ColdReads
use db_benchmark.Prelude.{
  ℕ, bit_xor, Bool, true, false, List, [], ◌∷◌, ◌++◌, ◌==◌, map, if◌then◌else◌,
}
use db_benchmark.Prelude.Int.{ℤ, pos, negsuc}
use db_benchmark.Cpp.Outcome.{Outcome, ok, throw, undefined, runtime_error, what}
use db_benchmark.Cpp.Method.{Method, pure, lift, ◌>>=◌, ◌>>◌}
use db_benchmark.Cpp.Text.{Text, text, text_eq}
use db_benchmark.Cpp.Decimal.{show_int}
use db_benchmark.Cpp.Double.{Double}
use db_benchmark.Cpp.Random.{Random}
use db_benchmark.Metrics.BenchmarkResult.{BenchmarkResult}
use db_benchmark.Config.{BenchmarkConfig}
use db_benchmark.Data.Order.{Order}
use db_benchmark.Db.DbInterface.{DbInterface}
use db_benchmark.Experiment.Platform.{Platform}
use db_benchmark.Experiment.ExperimentBase.{
  Experiment, on_world, on_recorder, timed_loop, execute, teardown, sample_random_orders,
}

-- `rc != 0`
unfoldable pub failed : ℤ → Bool
failed (pos n) = if n == 0 then false else true
failed (negsuc n) = true

-- The literals before and after the name of the container in the message.
unfoldable pub flush_cache : {S : Type 0} → Platform S → Text → Method S (Unit {0})
unfolding failed
flush_cache m container w =
    let (rc, w') = m.system (text "./scripts/flush_cache_mac.sh " ++ container) w in
    if failed rc
    then (
      throw (
          runtime_error (
            text "exp 03: flush_cache_mac.sh failed for "
            ++ container
            ++ text ". Return code: "
            ++ show_int rc
            ++ text ". Ensure vm is running and in sudo can be performed")),
      w',
    )
    else (ok tt, w')

unfoldable pub get_container_name : Text → Outcome Text
get_container_name db =
    if text_eq db (text "postgres")
    then ok (text "bench_postgres")
    else if text_eq db (text "mongo")
    then ok (text "bench_mongo")
    else if text_eq db (text "cassandra")
    then ok (text "bench_cassandra")
    else throw (runtime_error (text "exp 03: unknown db name: " ++ db))

-- the exception that the try block around `connect` throws in place of another
abbrev pub rethrow : Outcome (Unit {0}) → Outcome (Unit {0})
rethrow (ok a) = ok a
rethrow (throw e) = throw (runtime_error (text "exp 03 reconnect after flush falied" ++ what e))
rethrow undefined = undefined

-- the try block
unfoldable pub reconnect : {S : Type 0} → Method S (Unit {0}) → Method S (Unit {0})
reconnect connect w = (rethrow (connect w).0, (connect w).1)

module _ {D S : Type 0} ⦃d : Double D⦄ (r : Random D) (m : Platform S) (db : DbInterface D S)
    (dataset : List (Order D)) (config : BenchmarkConfig) where
  label : Method (Experiment D S (List Text)) (Unit {0})
  label e = (
    ok tt,
    record e {
      result = record e.result {
        database = db.get_db_name;
        experiment_name = text "exp_03_cold_primary_read";
        operation = text "point_read";
        index_type = text "primary";
        thread_count = 1;
      };
    },
  )

  -- `push_back` of the ids, then the shuffle of the member
  keep_ids : List (Order D) → Method (Experiment D S (List Text)) (Unit {0})
  keep_ids sample e = (
    ok tt,
    record e {
      own =
          (r.shuffle (e.own ++ map (λ o. o.order_id) sample)
            (r.seed (bit_xor config.rng_seed 0xC0FFEE00C0FFEE))).0;
    },
  )

  unfoldable pub setup : Method (Experiment D S (List Text)) (Unit {0})
  unfolding label keep_ids
  setup = do
    label
    sample ← lift (sample_random_orders r dataset config.rng_seed config.read_sample_size)
    keep_ids sample
    container ← lift (get_container_name db.get_db_name)
    on_world (flush_cache m container >> reconnect db.connect)

  unfoldable pub run : Method (Experiment D S (List Text)) (Unit {0})
  run e = on_recorder m (timed_loop m db.find_by_primary_key e.own) e

  unfoldable pub run_experiment : Method (Experiment D S (List Text)) (Unit {0})
  run_experiment = execute m setup run (teardown m)
