-- ===== src/Tests/Mongo.antt =====
-- Runs of the model of src/db/MongoClient.cpp, on a server that keeps a list of documents.
use mathlib.Core.List.{Permᴰ}
use db_benchmark.Prelude.{◌≡◌, refl, ◌&&◌, none, some, List, [], ◌∷◌, map}
use db_benchmark.Prelude.Int.{pos}
use db_benchmark.Cpp.Outcome.{Exception, ok, throw}
use db_benchmark.Cpp.Text.{Text, text, text_eq, text_le}
use db_benchmark.Cpp.Milli.{Milli, milli}
use db_benchmark.Cpp.Double.{nought}
use db_benchmark.Metrics.BenchmarkResult.{default_result}
use db_benchmark.Metrics.LatencyRecorder.{new_recorder}
use db_benchmark.Config.{DatabaseConfig, default_database}
use db_benchmark.Data.Order.{Order, empty_order}
use db_benchmark.Experiment.ExperimentBase.{Experiment}
use db_benchmark.Experiment.Experiment1.{run_experiment}
use db_benchmark.Db.MongoClient.{order_to_bson, first_value}
use db_benchmark.Db.MongoClient.Driver.{without_match, equals}
use db_benchmark.Db.MongoClient.Client.{
  insert_one, delete_by_primary_key, find_by_primary_key, find_by_secondary_key, find_by_range,
  mongo,
}
use db_benchmark.Db.MongoClient.Lookup.{find-insert_one, delete-insert_one}
use db_benchmark.Db.MongoClient.Inserts.{decode, experiment1_on_mongo}
use db_benchmark.Db.MongoClient.Finds.{
  kept, between, ascending, IsByDate, find_by_secondary_key_lem, find_by_range_lem,
}
use db_benchmark.Tests.Server.{
  Server, host, host-KeepsLatencies, picks, driver, driver-KeepsDocuments, driver-AcceptsNew,
  driver-Selects,
}
use db_benchmark.Tests.Db.{pairs, pairs-FindsFirst}
use db_benchmark.Tests.Machine.{order, dataset, config}

abbrev login : DatabaseConfig
login = default_database 27_017

abbrev server : Server
server = record { docs = []; clock = 5 }

experiment1_on_mongo_example :
    (e' : Experiment Milli Server (Unit {0})) × (run_experiment host
        (mongo pairs 7 (pos 9) driver login)
        dataset
        config
        (record { world = server; recorder = new_recorder; result = default_result; own = tt })
      ≡ (ok tt, e'))
    × (map (decode pairs 7 (pos 9)) e'.world.docs ≡ order (text "a") ∷ order (text "b") ∷ [])
    × (e'.result.total_ops ≡ 2)
    × (e'.result.operation ≡ text "insert")
    × (e'.result.database ≡ text "mongo")
unfolding new_recorder text text_eq
experiment1_on_mongo_example =
    experiment1_on_mongo pairs pairs-FindsFirst 7 (pos 9) driver login host driver-KeepsDocuments
      driver-AcceptsNew dataset config
      (record { world = server; recorder = new_recorder; result = default_result; own = tt })
      host-KeepsLatencies refl ((refl, tt), (tt, tt))

-- a collection with one document
abbrev stocked : Server
stocked = (insert_one pairs 7 (pos 9) driver login (order (text "old")) server).1

find-insert_one_example :
    ((driver.find_one
          (equals pairs (text "_id") (text "new"))
          (insert_one pairs 7 (pos 9) driver login (order (text "new")) stocked).1).0
        ≡ ok (some (order_to_bson pairs (order (text "new"))))
      → (find_by_primary_key pairs 7
          (pos 9)
          driver
          login
          (text "new")
          (insert_one pairs 7 (pos 9) driver login (order (text "new")) stocked).1).0
        ≡ ok (order (text "new")))
    × ((e : Exception)
        → (driver.find_one
            (equals pairs (text "_id") (text "new"))
            (insert_one pairs 7 (pos 9) driver login (order (text "new")) stocked).1).0
          ≡ throw e
        → (find_by_primary_key pairs 7
            (pos 9)
            driver
            login
            (text "new")
            (insert_one pairs 7 (pos 9) driver login (order (text "new")) stocked).1).0
          ≡ throw e)
unfolding insert_one order_to_bson text text_eq first_value
find-insert_one_example =
    find-insert_one pairs pairs-FindsFirst 7 (pos 9) driver login host driver-KeepsDocuments
      (order (text "new")) stocked (some (order_to_bson pairs (order (text "new")))) refl

delete-insert_one_example :
    ((delete_by_primary_key pairs 7
        (pos 9)
        driver
        login
        (text "new")
        (insert_one pairs 7 (pos 9) driver login (order (text "new")) stocked).1).1.docs
      ≡ stocked.docs)
    × ((driver.find_one (equals pairs (text "_id") (text "new")) stocked).0 ≡ ok none
        → (find_by_primary_key pairs 7 (pos 9) driver login (text "new") stocked).0
          ≡ ok (empty_order nought (pos 0)))
unfolding insert_one delete_by_primary_key order_to_bson text text_eq first_value without_match
delete-insert_one_example =
    delete-insert_one pairs pairs-FindsFirst 7 (pos 9) driver login host driver-KeepsDocuments
      (order (text "new")) stocked
      (insert_one pairs 7 (pos 9) driver login (order (text "new")) stocked).1
      (delete_by_primary_key pairs 7 (pos 9) driver login (text "new")
        (insert_one pairs 7 (pos 9) driver login (order (text "new")) stocked).1).1
      none refl refl

abbrev dated : Text → Text → Text → Order Milli
dated id user date = record (order id) { user_id = user; created_at = date }

abbrev three_orders : List (Order Milli)
three_orders =
    dated (text "a") (text "u") (text "2022-03")
    ∷ dated (text "b") (text "v") (text "2022-02")
    ∷ dated (text "c") (text "u") (text "2022-01")
    ∷ []

abbrev collection : Server
collection = record { docs = map (order_to_bson pairs) three_orders; clock = 5 }

find_by_secondary_key_lem_example :
    (result : List (Order Milli)) × ((find_by_secondary_key pairs 7
        (pos 9)
        driver
        login
        (text "u")
        collection).0
      ≡ ok result)
    × Permᴰ result (kept (λ o. text_eq o.user_id (text "u")) three_orders)
find_by_secondary_key_lem_example =
    find_by_secondary_key_lem pairs pairs-FindsFirst 7 (pos 9) driver login host
      driver-KeepsDocuments driver-Selects three_orders (text "u") collection
      (picks (equals pairs (text "user_id") (text "u")) none collection.docs) refl refl

find_by_range_lem_example :
    (result : List (Order Milli)) × ((find_by_range pairs 7
        (pos 9)
        driver
        login
        (text "2022-02")
        (text "2022-03")
        collection).0
      ≡ ok result)
    × Permᴰ result (
        kept
          (λ o. text_le (text "2022-02") o.created_at && text_le o.created_at (text "2022-03"))
          three_orders)
    × IsByDate result
find_by_range_lem_example =
    find_by_range_lem pairs pairs-FindsFirst 7 (pos 9) driver login host driver-KeepsDocuments
      driver-Selects three_orders (text "2022-02") (text "2022-03") collection
      (picks (between pairs (text "created_at") (text "2022-02") (text "2022-03"))
        (some (ascending pairs (text "created_at"))) collection.docs)
      refl refl
