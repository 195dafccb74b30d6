-- ===== src/Db/MongoClient/Client.antt =====
-- src/db/MongoClient.cpp: the calls of the driver, and the client behind the interface.
use db_benchmark.Prelude.{◌++◌, true, false, List, [], ◌∷◌, Option, none, some, map}
use db_benchmark.Prelude.Int.{ℤ, pos}
use db_benchmark.Cpp.Outcome.{
  Outcome, ok, throw, undefined, runtime_error, what, caught, mapped, both,
}
use db_benchmark.Cpp.Method.{Method, lift, ◌>>=◌, ◌>>◌}
use db_benchmark.Cpp.Text.{Text, text}
use db_benchmark.Cpp.Double.{Double, nought}
use db_benchmark.Config.{DatabaseConfig}
use db_benchmark.Data.Order.{Order, empty_order}
use db_benchmark.Db.DbInterface.{DbInterface}
use db_benchmark.Db.MongoClient.{
  Bson, string, int32, document, uri_of, order_to_bson, bson_to_order,
}
use db_benchmark.Db.MongoClient.Driver.{Driver, InsertOptions}

-- `opts` of both inserts
unfoldable pub insert_options : InsertOptions
insert_options = record { acknowledged = true; journal = false }

-- the exception that the try block of `connect` throws in place of another
abbrev pub connection_failed : Outcome (Unit {0}) → Outcome (Unit {0})
connection_failed (ok a) = ok a
connection_failed (throw e) = throw (runtime_error (text "Mongo connection failed: " ++ what e))
connection_failed undefined = undefined

module _ {D : Type 0} ⦃d : Double D⦄ (b : Bson D) (amount : D) (quantity : ℤ) where
  -- the loop over a cursor
  unfoldable pub orders_of : List b.Document → Outcome (List (Order D))
  orders_of [] = ok []
  orders_of (doc ∷ docs) =
      let rest = orders_of docs in
      mapped (λ (o, orders). o ∷ orders) (both (bson_to_order b amount quantity doc) rest)

  -- what `find_by_primary_key` makes of the result of `find_one`
  abbrev pub order_of : Option b.Document → Outcome (Order D)
  order_of none = ok (empty_order nought (pos 0))
  order_of (some doc) = bson_to_order b amount quantity doc

  -- `amount` and `quantity` are what the members of `Order o;` in `bson_to_order` happen to be.
  module _ {S : Type 0} (driver : Driver b S) (config : DatabaseConfig) where
    -- the client is made in the try block
    unfoldable pub connect : Method S (Unit {0})
    connect = do
      λ w. (
        connection_failed (driver.open_client (uri_of config) w).0,
        (driver.open_client (uri_of config) w).1,
      )
      λ w. (
        ok tt,
        driver.use_collection (text "orders") (driver.use_database config.database_name w),
      )

    unfoldable pub disconnect : Method S (Unit {0})
    disconnect w = (ok tt, driver.reset_client w)

    unfoldable pub insert_one : Order D → Method S (Unit {0})
    unfolding insert_options
    insert_one order = driver.insert_one (order_to_bson b order) insert_options

    unfoldable pub insert_batch : List (Order D) → Method S (Unit {0})
    unfolding insert_options
    insert_batch orders = driver.insert_many (map (order_to_bson b) orders) insert_options

    unfoldable pub delete_by_primary_key : Text → Method S (Unit {0})
    delete_by_primary_key order_id =
        driver.delete_one (b.make_document ((text "_id", string order_id) ∷ []))

    unfoldable pub find_by_primary_key : Text → Method S (Order D)
    find_by_primary_key order_id = do
      result ← driver.find_one (b.make_document ((text "_id", string order_id) ∷ []))
      lift (order_of result)

    unfoldable pub find_by_secondary_key : Text → Method S (List (Order D))
    unfolding orders_of
    find_by_secondary_key user_id = do
      cursor ← driver.find (b.make_document ((text "user_id", string user_id) ∷ [])) none
      lift (orders_of cursor)

    unfoldable pub find_by_range : Text → Text → Method S (List (Order D))
    unfolding orders_of
    find_by_range start_date end_date =
        let between = (text "$gte", start_date) ∷ (text "$lte", end_date) ∷ [] in
        let filter = b.make_document ((text "created_at", document between) ∷ []) in
        let sort = b.make_document ((text "created_at", int32 (pos 1)) ∷ []) in
        do cursor ← driver.find filter (some sort); lift (orders_of cursor)

    unfoldable pub clear_table : Method S (Unit {0})
    clear_table = do driver.drop; λ w. (ok tt, driver.use_collection (text "orders") w)

    unfoldable pub create_secondary_index : Method S (Unit {0})
    create_secondary_index = do
      driver.create_index (b.make_document ((text "user_id", int32 (pos 1)) ∷ []))
      driver.create_index (b.make_document ((text "created_at", int32 (pos 1)) ∷ []))

    unfoldable pub drop_secondary_index : Method S (Unit {0})
    drop_secondary_index = do
      λ w. (
        caught (driver.drop_one (text "user_id_1") w).0,
        (driver.drop_one (text "user_id_1") w).1,
      )
      λ w. (
        caught (driver.drop_one (text "created_at_1") w).0,
        (driver.drop_one (text "created_at_1") w).1,
      )

    -- the client as a database
    unfoldable pub mongo : DbInterface D S
    unfolding connect disconnect insert_one insert_batch delete_by_primary_key find_by_primary_key
        find_by_secondary_key find_by_range clear_table create_secondary_index drop_secondary_index
    mongo = record {
      connect = connect;
      disconnect = disconnect;
      insert_one = insert_one;
      insert_batch = insert_batch;
      delete_by_primary_key = delete_by_primary_key;
      find_by_primary_key = find_by_primary_key;
      find_by_secondary_key = find_by_secondary_key;
      find_by_range = find_by_range;
      clear_table = clear_table;
      create_secondary_index = create_secondary_index;
      drop_secondary_index = drop_secondary_index;
      get_db_name = text "mongo";
    }
