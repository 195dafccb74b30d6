-- ===== src/Db/CassandraClient/Handles/Selects.antt =====
-- src/db/CassandraClient.cpp: the objects of the driver in the two selects.
use db_benchmark.Prelude.{ℕ, List}
use db_benchmark.Prelude.Int.{ℤ}
use db_benchmark.Cpp.Method.{Method, pure, lift, ◌>>=◌, ◌>>◌}
use db_benchmark.Cpp.Text.{Text, text}
use db_benchmark.Data.Order.{Order}
use db_benchmark.Db.CassandraClient.Client.{
  Row, Select, select_by_id, select_by_user, Driver, check_select, first_row, orders_of,
}
use db_benchmark.Db.CassandraClient.Handles.{Held, allocate, free}

module _ {D S : Type 0} (driver : Driver D S) where
  -- the wait for the future of a select, and its check
  unfoldable pub await_rows : Select → Text → Method (Held S) (List (Row D))
  await_rows query context s = (
    check_select (driver.select query s.world).0 context,
    record s { world = (driver.select query s.world).1 },
  )

  -- from the statement to the result, which is given with its rows
  unfoldable pub select_objects : Select → Text → Method (Held S) (ℕ × List (Row D))
  unfolding allocate free await_rows
  select_objects query context = do
    x ← allocate
    f ← allocate
    free x
    rows ← await_rows query context
    result ← allocate
    free f
    pure (result, rows)

  unfoldable pub find_by_id_objects : D → ℤ → Text → Method (Held S) (Order D)
  unfolding select_objects free
  find_by_id_objects amount quantity order_id = do
    (result, rows) ← select_objects (select_by_id order_id) (text "find_by_primary_key")
    o ← lift (first_row driver amount quantity rows)
    free result
    pure o

  unfoldable pub find_by_user_objects : Text → Method (Held S) (List (Order D))
  unfolding select_objects allocate free
  find_by_user_objects user_id = do
    (result, rows) ← select_objects (select_by_user user_id) (text "find_by_secondary_key")
    it ← allocate
    orders ← lift (orders_of rows)
    free it
    free result
    pure orders
