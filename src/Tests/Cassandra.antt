-- ===== src/Tests/Cassandra.antt =====
-- A run of the model of src/db/CassandraClient.cpp, on two tables.
use db_benchmark.Prelude.{◌<◌, length, ◌≢◌, ◌≡◌, refl, none, [], ◌∷◌}
use db_benchmark.Prelude.Int.{pos}
use db_benchmark.Cpp.Outcome.{ok}
use db_benchmark.Cpp.Text.{text}
use db_benchmark.Cpp.Milli.{Milli, milli}
use db_benchmark.Data.Order.{Order, empty_order}
use db_benchmark.Db.CassandraClient.{
  insert_by_id, bind_by_id, bind_by_user, run_statement, check_future, insert_one, insert_batch,
  delete_by_primary_key,
}
use db_benchmark.Db.CassandraClient.Client.{cassandra}
use db_benchmark.Db.CassandraClient.Orphans.{
  HasNoOrphan, insert_batch-HasNoOrphan, delete-insert_one_orphan,
}
use db_benchmark.Tests.Keyspace.{
  Keyspace, host, host-LeavesTables, session, driver, driver-KeepsTables, driver-WritesApart, empty,
  empty-HasNoOrphan,
}
use db_benchmark.Tests.Machine.{order, counter, dataset, config}
use db_benchmark.Metrics.BenchmarkResult.{default_result}
use db_benchmark.Metrics.LatencyRecorder.{new_recorder}
use db_benchmark.Config.{DatabaseConfig, default_database}
use db_benchmark.Experiment.ExperimentBase.{Experiment}
use db_benchmark.Experiment.Experiment4.{Own, new_own, run}
use db_benchmark.Experiment.Experiment4.OnCassandra.{run_on_cassandra_never}

abbrev both_tables : Order Milli
both_tables = order (text "id")

insert_batch-HasNoOrphan_example :
    HasNoOrphan driver-KeepsTables
      (insert_batch session (both_tables ∷ order (text "b") ∷ both_tables ∷ []) empty).1
insert_batch-HasNoOrphan_example =
    insert_batch-HasNoOrphan driver-KeepsTables driver-WritesApart
      (both_tables ∷ order (text "b") ∷ both_tables ∷ []) empty empty-HasNoOrphan

delete-insert_one_orphan_example :
    (driver-KeepsTables.by_id
        (delete_by_primary_key session (text "id") (insert_one session both_tables empty).1).1
        (text "id")
      ≡ none)
    × ¬ HasNoOrphan driver-KeepsTables
        (delete_by_primary_key session (text "id") (insert_one session both_tables empty).1).1
unfolding bind_by_id bind_by_user insert_one delete_by_primary_key run_statement check_future
    empty_order
delete-insert_one_orphan_example =
    delete-insert_one_orphan driver-KeepsTables driver-WritesApart both_tables empty refl refl

abbrev login : DatabaseConfig
login = default_database 9042

-- of the two users that are sampled the second has an order
abbrev sampled : Experiment Milli Keyspace Own
sampled = record {
  world = (insert_one session both_tables empty).1;
  recorder = new_recorder;
  result = default_result;
  own = record new_own { secondary_sample_ids = text "nobody" ∷ [] ∷ [] };
}

one_order : 0 < length (driver-KeepsTables.by_user sampled.world [])
unfolding insert_one run_statement check_future bind_by_id bind_by_user empty_order
one_order =
    driver-KeepsTables.by_user-insert both_tables
      (session.execute (insert_by_id (bind_by_id both_tables)) empty).1 refl

run_on_cassandra_never_example :
    (run counter host (cassandra session driver login 7 (pos 9)) dataset config sampled).0 ≢ ok tt
unfolding insert_one run_statement check_future bind_by_id bind_by_user empty_order
run_on_cassandra_never_example =
    run_on_cassandra_never host session driver driver-KeepsTables host-LeavesTables counter dataset
      config login 7 (pos 9) sampled (text "nobody" ∷ []) [] [] refl one_order
