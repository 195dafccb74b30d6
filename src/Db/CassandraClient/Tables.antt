-- ===== src/Db/CassandraClient/Tables.antt =====
-- The two tables of src/db/CassandraClient.cpp, and a look-up by the user.
use db_benchmark.Prelude.{
  ◌<◌, ◌≡◌, refl, Option, none, some, List, [], ◌∷◌, arith, length, All, inl, inr,
}
use db_benchmark.Cpp.Outcome.{undefined}
use db_benchmark.Cpp.Text.{Text}
use db_benchmark.Data.Order.{Order}
use db_benchmark.Db.CassandraClient.{
  Session, string, insert_by_id, insert_by_user, bind_by_id, bind_by_user, row_to_order,
}
use db_benchmark.Db.CassandraClient.Client.{Row, select_by_user, answered, Driver, orders_of}
use db_benchmark.Db.CassandraClient.Handles.Rows.{get_str_cases}

-- A row with a text in the column 4. In orders_by_user it is the status, which
-- docker/cassandra/init.cql declares as TEXT.
abbrev pub HasStatus : {D : Type 0} → Row D → Type 0
HasStatus row = (status : Text) × (row 4 ≡ some (string status))

-- What Cassandra documents of the two tables, as the order that stands under each id in the first and
-- the orders that stand under each user in the second: an insert that goes through puts its order
-- under its key, whatever stood there; an insert into the second table leaves the first alone; and a
-- select of the second table that is answered gives a row for each order under its key, with the
-- status in its column. Of the other columns nothing is said: the types that the tables declare are
-- not those that the client binds and reads.
pub record KeepsTables {D S : Type 0} (session : Session D S) (driver : Driver D S) : Type 0 where
  pub by_id : S → Text → Option (Order D)
  pub by_user : S → Text → List (Order D)
  pub by_id-insert :
      (o : Order D) (w : S)
      → (session.execute (insert_by_id (bind_by_id o)) w).0 ≡ none
      → by_id (session.execute (insert_by_id (bind_by_id o)) w).1 o.order_id ≡ some o
  pub by_id-insert_by_user :
      (o : Order D) (w : S) (id : Text)
      → by_id (session.execute (insert_by_user (bind_by_user o)) w).1 id ≡ by_id w id
  pub by_user-insert :
      (o : Order D) (w : S)
      → (session.execute (insert_by_user (bind_by_user o)) w).0 ≡ none
      → 0 < length (by_user (session.execute (insert_by_user (bind_by_user o)) w).1 o.user_id)
  pub select-by_user :
      (user : Text) (w : S) (found : List (Row D))
      → (driver.select (select_by_user user) w).0 ≡ answered found
      → (length found ≡ length (by_user w user)) × All HasStatus found

module _ {D : Type 0} where
  -- Whatever stands in the other columns, the amount is read from the text.
  row_to_order_undefined : (row : Row D) → HasStatus row → row_to_order row ≡ undefined
  unfolding row_to_order
  row_to_order_undefined row (status, at) = elim (get_str_cases (row 0)) [
    | inr e ↦ rw e refl
    | inl (_, e) ↦ rw e (elim (get_str_cases (row 1)) [
      | inr e ↦ rw e refl
      | inl (_, e) ↦ rw e (elim (get_str_cases (row 2)) [
        | inr e ↦ rw e refl
        | inl (_, e) ↦
            rw e (elim (get_str_cases (row 3)) [ inr e ↦ rw e refl | inl (_, e) ↦ rw (e, at) refl ])
      ])
    ])
  ]

  pub orders_of_undefined :
      (found : List (Row D)) → 0 < length found → All HasStatus found → orders_of found ≡ undefined
  unfolding orders_of
  orders_of_undefined [] h all = absurd (omega arith)
  orders_of_undefined (row ∷ rows) h (status, all) = rw (row_to_order_undefined row status) refl
