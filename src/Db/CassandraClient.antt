-- ===== src/Db/CassandraClient.antt =====
-- src/db/CassandraClient.cpp: inserts, deletes and the reading of rows, over a session of the driver,
-- which is a parameter. The inserts and the selects of a table name its columns in the same order.
pub mod Rows
pub mod Client
pub mod Tables
pub mod Orphans
pub mod Handles
use db_benchmark.Prelude.{ℕ, ◌++◌, Option, none, some, List, [], ◌∷◌}
use db_benchmark.Prelude.Int.{ℤ}
use db_benchmark.Cpp.Outcome.{Outcome, ok, throw, undefined, runtime_error, ◌>>=◌}
use db_benchmark.Cpp.Method.{Method}
use db_benchmark.Cpp.Text.{Text, text}
use db_benchmark.Data.Order.{Order}

-- a value that is bound to a statement or read from a row
pub data Cell (D : Type 0) : Type 0 where
  string : Text → Cell D
  double : D → Cell D
  int32 : ℤ → Cell D

-- the prepared statements that write, with the values that are bound to them
pub data Statement (D : Type 0) : Type 0 where
  insert_by_id insert_by_user delete_by_id : List (Cell D) → Statement D

-- `cass_session_execute` and the wait for its future: none for `CASS_OK`, else the error's message
pub record Session (D S : Type 0) : Type 0 where
  pub execute : Statement D → S → Option Text × S

unfoldable pub check_future : Option Text → Text → Outcome (Unit {0})
check_future none context = ok tt
check_future (some message) context =
    throw (runtime_error (text "CassandraClient [" ++ context ++ text "]: " ++ message))

-- the values for orders_by_id
unfoldable pub bind_by_id : {D : Type 0} → Order D → List (Cell D)
bind_by_id order =
    string order.order_id
    ∷ string order.user_id
    ∷ string order.product_id
    ∷ string order.status
    ∷ double order.amount
    ∷ int32 order.quantity
    ∷ string order.description
    ∷ string order.created_at
    ∷ string order.updated_at
    ∷ []

-- the values for orders_by_user
unfoldable pub bind_by_user : {D : Type 0} → Order D → List (Cell D)
bind_by_user order =
    string order.user_id
    ∷ string order.created_at
    ∷ string order.order_id
    ∷ string order.product_id
    ∷ string order.status
    ∷ double order.amount
    ∷ int32 order.quantity
    ∷ string order.description
    ∷ []

-- The call stays on its way while the outcome is a value.
abbrev pub and_then : {S : Type 0} → Outcome (Unit {0}) → Method S (Unit {0}) → Method S (Unit {0})
and_then (ok a) rest w = rest w
and_then (throw e) rest w = (throw e, w)
and_then undefined rest w = (undefined, w)

module _ {D S : Type 0} (session : Session D S) where
  -- one block: execute and check
  unfoldable pub run_statement : Statement D → Text → Method S (Unit {0})
  run_statement stmt context w =
      (check_future (session.execute stmt w).0 context, (session.execute stmt w).1)

  unfoldable pub insert_one : Order D → Method S (Unit {0})
  insert_one order w =
      let first =
        run_statement (insert_by_id (bind_by_id order)) (text "insert_one orders_by_id") w in
      and_then first.0
        (run_statement (insert_by_user (bind_by_user order)) (text "insert_one orders_by_user"))
        first.1

  unfoldable pub insert_batch : List (Order D) → Method S (Unit {0})
  insert_batch [] w = (ok tt, w)
  insert_batch (o ∷ orders) w =
      let first = insert_one o w in and_then first.0 (insert_batch orders) first.1

  unfoldable pub delete_by_primary_key : Text → Method S (Unit {0})
  delete_by_primary_key order_id =
      run_statement (delete_by_id (string order_id ∷ [])) (text "delete_by_primary_key")

module _ {D : Type 0} where
  -- `get_str`: for a missing value or one of another type the variables stay uninitialised
  abbrev pub get_str : Option (Cell D) → Outcome Text
  get_str (some (string s)) = ok s
  get_str _ = undefined

  abbrev pub get_double : Option (Cell D) → Outcome D
  get_double (some (double x)) = ok x
  get_double _ = undefined

  abbrev pub get_int32 : Option (Cell D) → Outcome ℤ
  get_int32 (some (int32 n)) = ok n
  get_int32 _ = undefined

  -- `updated_at` is read only if the row has the column
  abbrev pub get_last : Option (Cell D) → Outcome Text
  get_last none = ok []
  get_last (some cell) = get_str (some cell)

  -- `column` is what `cass_row_get_column` gives for the row
  unfoldable pub row_to_order : (ℕ → Option (Cell D)) → Outcome (Order D)
  row_to_order column = do
    order_id ← get_str (column 0)
    user_id ← get_str (column 1)
    product_id ← get_str (column 2)
    status ← get_str (column 3)
    amount ← get_double (column 4)
    quantity ← get_int32 (column 5)
    description ← get_str (column 6)
    created_at ← get_str (column 7)
    updated_at ← get_last (column 8)
    ok (record {
      order_id = order_id;
      user_id = user_id;
      product_id = product_id;
      status = status;
      amount = amount;
      quantity = quantity;
      description = description;
      created_at = created_at;
      updated_at = updated_at;
    })
