-- ===== src/Db/PostgresClient.antt =====
-- src/db/PostgresClient.cpp, over a parameter for the connection of libpqxx. The methods that the
-- header declares and no file defines (row_to_order, delete_by_primary_key, clear_table, the two of the
-- secondary index, get_db_name) are not modelled; the first is an argument where it is called.
pub mod Batch
use db_benchmark.Prelude.{◌++◌, Bool, List, [], ◌∷◌, if◌then◌else◌}
use db_benchmark.Prelude.Int.{ℤ, pos}
use db_benchmark.Cpp.Outcome.{
  Exception, Outcome, ok, throw, undefined, runtime_error, what, mapped, both,
}
use db_benchmark.Cpp.Method.{Method, pure, lift, ◌>>=◌, ◌>>◌}
use db_benchmark.Cpp.Text.{Text, text}
use db_benchmark.Cpp.Decimal.{show_nat}
use db_benchmark.Cpp.Double.{Double, nought}
use db_benchmark.Config.{DatabaseConfig}
use db_benchmark.Data.Order.{Order, empty_order}

-- `conn_str` of `connect`
unfoldable pub connection_string : DatabaseConfig → Text
connection_string config =
    text "host="
    ++ config.host
    ++ text " port="
    ++ show_nat config.port
    ++ text " dbname="
    ++ config.database_name
    ++ text " user="
    ++ config.username
    ++ text " password="
    ++ config.password
    ++ text " connect_timeout=10"

-- a value that is passed to a statement or streamed to a table
pub data Parameter (D : Type 0) : Type 0 where
  string : Text → Parameter D
  double : D → Parameter D
  int : ℤ → Parameter D

-- The connection behind `conn_`, as actions on a world that holds it and the server. `begin`, `commit`
-- and `abort` are of a `pqxx::work`, which aborts when it goes out of scope without a commit; the
-- stream is a `pqxx::stream_to`. `is_broken` tells a `pqxx::broken_connection`.
pub record Connection (D S : Type 0) : Type 1 where
  pub Row : Type 0
  pub is_broken : Exception → Bool
  pub open_connection : Text → Method S (Unit {0})
  pub is_open : S → Bool
  pub close : Method S (Unit {0})
  pub prepare : Text → Text → Method S (Unit {0})
  pub exec_prepared : Text → List (Parameter D) → Method S (List Row)
  pub begin : Method S (Unit {0})
  pub open_stream : Text → List Text → Method S (Unit {0})
  pub stream_row : List (Parameter D) → Method S (Unit {0})
  pub complete : Method S (Unit {0})
  pub commit : Method S (Unit {0})
  pub abort : S → S

-- the columns of the table, in the order of the tuple that is streamed
unfoldable pub column_names : List Text
column_names =
    text "order_id"
    ∷ text "user_id"
    ∷ text "product_id"
    ∷ text "status"
    ∷ text "amount"
    ∷ text "quantity"
    ∷ text "description"
    ∷ text "created_at"
    ∷ text "updated_at"
    ∷ []

-- the values of an order, for the statement and for the stream
unfoldable pub parameters_of : {D : Type 0} → Order D → List (Parameter D)
parameters_of order =
    string order.order_id
    ∷ string order.user_id
    ∷ string order.product_id
    ∷ string order.status
    ∷ double order.amount
    ∷ int order.quantity
    ∷ string order.description
    ∷ string order.created_at
    ∷ string order.updated_at
    ∷ []

unfoldable pub insert_sql : Text
insert_sql =
    text "INSERT INTO orders "
    ++ text "(order_id, user_id, product_id, status, amount, "
    ++ text " quantity, description, created_at, updated_at) "
    ++ text "VALUES ($1, $2, $3, $4, $5, $6, $7, $8, $9)"

-- the columns that the three selects name
unfoldable pub select_sql : Text
select_sql =
    text "SELECT order_id, user_id, product_id, status, amount, "
    ++ text " quantity, description, created_at, updated_at "

module _ {D S : Type 0} (c : Connection D S) where
  unfoldable pub prepare_statements : Method S (Unit {0})
  unfolding insert_sql select_sql
  prepare_statements = do
    c.prepare (text "insert_order") insert_sql
    c.prepare (text "find_by_pk") (select_sql ++ text "FROM orders WHERE order_id = $1")
    c.prepare (text "find_by_user") (select_sql ++ text "FROM orders WHERE user_id = $1")
    c.prepare (text "find_by_range") (
        select_sql
        ++ text " FROM orders WHERE created_at>= $1 AND created_at <=$2 "
        ++ text "ORDER BY created_at")

  -- the exception that the try block of `connect` throws in place of a broken connection
  abbrev pub connection_error : Outcome (Unit {0}) → Outcome (Unit {0})
  connection_error (ok a) = ok a
  connection_error (throw e) =
      if c.is_broken e
      then throw (runtime_error (text "Postgres connection failed. Error " ++ what e))
      else throw e
  connection_error undefined = undefined

  unfoldable pub connect : DatabaseConfig → Method S (Unit {0})
  unfolding prepare_statements connection_string
  connect config = do
    λ w.
        let (res, w') = c.open_connection (connection_string config) w in (connection_error res, w')
    prepare_statements

  unfoldable pub disconnect : Method S (Unit {0})
  disconnect w = let closed = c.close w in if c.is_open w then closed else (ok tt, w)

  unfoldable pub insert_one : Order D → Method S (Unit {0})
  unfolding parameters_of
  insert_one order w =
      let (res, w') = c.exec_prepared (text "insert_order") (parameters_of order) w in
      (mapped (λ rows. tt) res, w')

  -- the loop over the stream
  unfoldable pub stream_orders : List (Order D) → Method S (Unit {0})
  unfolding parameters_of
  stream_orders [] = pure tt
  stream_orders (o ∷ orders) = do c.stream_row (parameters_of o); stream_orders orders

  -- the body of `insert_batch` behind the start of its transaction
  unfoldable pub batch_body : List (Order D) → Method S (Unit {0})
  unfolding column_names stream_orders
  batch_body orders = do
    c.open_stream (text "orders") column_names
    stream_orders orders
    c.complete
    c.commit

  -- a transaction that is left by an exception is aborted
  abbrev pub leave : Outcome (Unit {0}) → Method S (Unit {0})
  leave (ok a) w = (ok a, w)
  leave (throw e) w = (throw e, c.abort w)
  leave undefined w = (undefined, w)

  unfoldable pub insert_batch : List (Order D) → Method S (Unit {0})
  unfolding batch_body
  insert_batch orders = do c.begin; λ w. let (res, w') = batch_body orders w in leave res w'

  module _ ⦃d : Double D⦄ (row_to_order : c.Row → Outcome (Order D)) where
    -- the loop over a result
    unfoldable pub orders_of : List c.Row → Outcome (List (Order D))
    orders_of [] = ok []
    orders_of (row ∷ rows) =
        let rest = orders_of rows in
        mapped (λ (o, orders). o ∷ orders) (both (row_to_order row) rest)

    -- what `find_by_primary_key` makes of a result
    abbrev pub first_order : List c.Row → Outcome (Order D)
    first_order [] = ok (empty_order nought (pos 0))
    first_order (row ∷ rows) = row_to_order row

    unfoldable pub find_by_primary_key : Text → Method S (Order D)
    find_by_primary_key order_id = do
      rows ← c.exec_prepared (text "find_by_pk") (string order_id ∷ [])
      lift (first_order rows)

    unfoldable pub find_by_secondary_key : Text → Method S (List (Order D))
    unfolding orders_of
    find_by_secondary_key user_id = do
      rows ← c.exec_prepared (text "find_by_user") (string user_id ∷ [])
      lift (orders_of rows)

    unfoldable pub find_by_range : Text → Text → Method S (List (Order D))
    unfolding orders_of
    find_by_range start_date end_date = do
      rows ← c.exec_prepared (text "find_by_range") (string start_date ∷ string end_date ∷ [])
      lift (orders_of rows)
