-- ===== src/Db/CassandraClient/Client.antt =====
-- src/db/CassandraClient.cpp: the connection, the selects and the truncation, over a parameter for the
-- driver. Memory that the driver hands out and takes back is not modelled.
use db_benchmark.Prelude.{
  ◌≡◌, refl, ◌⊎◌, inl, inr, ℕ, ◌++◌, Bool, Option, some, List, [], ◌∷◌, if◌then◌else◌,
}
use db_benchmark.Prelude.Int.{ℤ}
use db_benchmark.Cpp.Outcome.{Outcome, ok, undefined, mapped, both}
use db_benchmark.Cpp.Method.{Method, pure, lift, ◌>>=◌, ◌>>◌}
use db_benchmark.Cpp.Text.{Text, text}
use db_benchmark.Config.{DatabaseConfig}
use db_benchmark.Data.Order.{Order, empty_order}
use db_benchmark.Db.DbInterface.{DbInterface}
use db_benchmark.Db.CassandraClient.{
  Cell, Session, check_future, insert_one, insert_batch, delete_by_primary_key, row_to_order,
}

-- a row of a result, by the index of its column
abbrev pub Row : Type 0 → Type 0
Row D = ℕ → Option (Cell D)

-- the prepared selects, with the key that is bound to them
pub data Select : Type 0 where
  select_by_id select_by_user : Text → Select

-- the rows of a select, or the message of its error
pub data Answer (D : Type 0) : Type 0 where
  answered : List (Row D) → Answer D
  refused : Text → Answer D

-- To split on a computed answer and keep the equation.
pub answer_cases :
    {D : Type 0} (x : Answer D)
    → ((rows : List (Row D)) × (x ≡ answered rows)) ⊎ ((message : Text) × (x ≡ refused message))
answer_cases (answered rows) = inl (rows, refl)
answer_cases (refused message) = inr (message, refl)

-- what `connect` sets on the cluster
pub record ClusterSettings : Type 0 where
  pub contact_points : Text
  pub port : ℕ
  pub username : Text
  pub password : Text
  pub protocol_version : ℕ
  pub num_threads_io : ℕ

-- The driver behind `cluster_` and `session_`: the waits for its futures give none for `CASS_OK`, else
-- the error's message.
pub record Driver (D S : Type 0) : Type 0 where
  pub connect_session : ClusterSettings → S → Option Text × S
  pub prepare : Text → S → Option Text × S
  pub has_session : S → Bool
  pub close_session : S → S
  pub select : Select → S → Answer D × S
  pub execute_cql : Text → S → Option Text × S

unfoldable pub settings_of : DatabaseConfig → ClusterSettings
settings_of config = record {
  contact_points = config.host;
  port = config.port;
  username = config.username;
  password = config.password;
  protocol_version = 4;
  num_threads_io = 4;
}

-- the wait for the future of a select
abbrev pub check_select : {D : Type 0} → Answer D → Text → Outcome (List (Row D))
check_select (answered rows) context = ok rows
check_select (refused message) context = mapped (λ u. []) (check_future (some message) context)

-- the loop over a result
unfoldable pub orders_of : {D : Type 0} → List (Row D) → Outcome (List (Order D))
orders_of [] = ok []
orders_of (row ∷ rows) =
    let rest = orders_of rows in mapped (λ (o, orders). o ∷ orders) (both (row_to_order row) rest)

-- the queries that `connect` prepares
unfoldable pub insert_by_id_query : Text
insert_by_id_query =
    text "INSERT INTO benchmark.orders_by_id "
    ++ text
        "(order_id, user_id, product_id, status, amount, quantity, description, created_at, updated_at) "
    ++ text "VALUES (?, ?, ?, ?, ?, ?, ?, ?, ?)"

unfoldable pub insert_by_user_query : Text
insert_by_user_query =
    text "INSERT INTO benchmark.orders_by_user "
    ++ text "(user_id, created_at, order_id, product_id, status, amount, quantity, description) "
    ++ text "VALUES (?, ?, ?, ?, ?, ?, ?, ?)"

unfoldable pub select_by_id_query : Text
select_by_id_query =
    text
      "SELECT order_id, user_id, product_id, status, amount, quantity, description, created_at, updated_at "
    ++ text "FROM benchmark.orders_by_id WHERE order_id = ?"

unfoldable pub select_by_user_query : Text
select_by_user_query =
    text "SELECT user_id, created_at, order_id, product_id, status, amount, quantity, description "
    ++ text "FROM benchmark.orders_by_user WHERE user_id = ?"

unfoldable pub delete_by_id_query : Text
delete_by_id_query = text "DELETE FROM benchmark.orders_by_id WHERE order_id = ?"

module _ {D S : Type 0} (driver : Driver D S) where
  -- the lambda of `connect`
  unfoldable pub prepare_query : Text → Method S (Unit {0})
  prepare_query query w =
      let (res, w') = driver.prepare query w in (check_future res (text "prepare:: " ++ query), w')

  unfoldable pub connect : DatabaseConfig → Method S (Unit {0})
  unfolding prepare_query settings_of
  connect config = do
    λ w.
        let (res, w') = driver.connect_session (settings_of config) w in
        (check_future res (text "CassandraClient::connect"), w')
    prepare_query insert_by_id_query
    prepare_query insert_by_user_query
    prepare_query select_by_id_query
    prepare_query select_by_user_query
    prepare_query delete_by_id_query

  unfoldable pub disconnect : Method S (Unit {0})
  disconnect w = (ok tt, if driver.has_session w then driver.close_session w else w)

  -- a select and the check of its future
  unfoldable pub run_select : Select → Text → Method S (List (Row D))
  run_select query context w =
      let (answer, w') = driver.select query w in (check_select answer context, w')

  -- what `find_by_primary_key` makes of a result: without a row, `amount` and `quantity` are what the
  -- members of `Order o;` happen to be
  abbrev pub first_row : D → ℤ → List (Row D) → Outcome (Order D)
  first_row amount quantity [] = ok (empty_order amount quantity)
  first_row amount quantity (row ∷ rows) = row_to_order row

  unfoldable pub find_by_primary_key : D → ℤ → Text → Method S (Order D)
  unfolding run_select
  find_by_primary_key amount quantity order_id = do
    rows ← run_select (select_by_id order_id) (text "find_by_primary_key")
    lift (first_row amount quantity rows)

  unfoldable pub find_by_secondary_key : Text → Method S (List (Order D))
  unfolding run_select orders_of
  find_by_secondary_key user_id = do
    rows ← run_select (select_by_user user_id) (text "find_by_secondary_key")
    lift (orders_of rows)

  -- it flows off its end
  unfoldable pub find_by_range : Text → Text → Method S (List (Order D))
  find_by_range start_date end_date w = (undefined, w)

  -- the lambda of `clear_table`
  unfoldable pub exec : Text → Method S (Unit {0})
  exec cql w = let (res, w') = driver.execute_cql cql w in (check_future res cql, w')

  unfoldable pub clear_table : Method S (Unit {0})
  unfolding exec
  clear_table = do
    exec (text "TRUNCATE benchmark.orders_by_id")
    exec (text "TRUNCATE benchmark.orders_by_user")

  unfoldable pub create_secondary_index : Method S (Unit {0})
  create_secondary_index = pure tt

  unfoldable pub drop_secondary_index : Method S (Unit {0})
  drop_secondary_index = pure tt

-- the client as a database
unfoldable pub cassandra :
    {D S : Type 0} → Session D S → Driver D S → DatabaseConfig → D → ℤ → DbInterface D S
unfolding connect disconnect find_by_primary_key find_by_secondary_key find_by_range clear_table
    create_secondary_index drop_secondary_index
cassandra session driver config amount quantity = record {
  connect = connect driver config;
  disconnect = disconnect driver;
  insert_one = insert_one session;
  insert_batch = insert_batch session;
  delete_by_primary_key = delete_by_primary_key session;
  find_by_primary_key = find_by_primary_key driver amount quantity;
  find_by_secondary_key = find_by_secondary_key driver;
  find_by_range = find_by_range driver;
  clear_table = clear_table driver;
  create_secondary_index = create_secondary_index driver;
  drop_secondary_index = drop_secondary_index driver;
  get_db_name = text "cassandra";
}
