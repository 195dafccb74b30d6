-- ===== src/Db/DbInterface.antt =====
-- src/db/DbInterface.hpp: what an experiment can ask of a database, as actions on a world `S` that
-- holds the database, the clock and the rest of the machine.
use db_benchmark.Prelude.{List}
use db_benchmark.Cpp.Method.{Method}
use db_benchmark.Cpp.Text.{Text}
use db_benchmark.Data.Order.{Order}

pub record DbInterface (D S : Type 0) : Type 0 where
  pub connect : Method S (Unit {0})
  pub disconnect : Method S (Unit {0})
  pub insert_one : Order D → Method S (Unit {0})
  pub insert_batch : List (Order D) → Method S (Unit {0})
  pub delete_by_primary_key : Text → Method S (Unit {0})
  pub find_by_primary_key : Text → Method S (Order D)
  pub find_by_secondary_key : Text → Method S (List (Order D))
  pub find_by_range : Text → Text → Method S (List (Order D))
  pub clear_table : Method S (Unit {0})
  pub create_secondary_index : Method S (Unit {0})
  pub drop_secondary_index : Method S (Unit {0})
  pub get_db_name : Text
