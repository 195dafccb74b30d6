-- ===== src/Db/Contract.antt =====
-- What the experiments rely on of a database behind src/db/DbInterface.hpp: an interface that a
-- client's model fills.
use db_benchmark.Prelude.{◌≡◌, List, [], ◌∷◌, ◌++◌}
use db_benchmark.Cpp.Outcome.{Exception, ok, throw}
use db_benchmark.Cpp.Text.{Text}
use db_benchmark.Data.Order.{Order}
use db_benchmark.Db.DbInterface.{DbInterface}
use db_benchmark.Metrics.LatencyRecorder.{LatencyRecorder}
use db_benchmark.Experiment.Platform.{Platform}

-- What a database promises of its table, as its rows in the order of their insertion: it is empty
-- after `clear_table`, a row is added by an insert that returns and none by one that throws, and
-- the clock does not touch it.
pub record KeepsRows {D S : Type 0} (m : Platform S) (db : DbInterface D S) : Type 0 where
  pub rows : S → List (Order D)
  pub rows-now : (w : S) → rows (m.now w).1 ≡ rows w
  pub rows-start_timer : (rec : LatencyRecorder) (w : S) → rows (m.start_timer rec w).1 ≡ rows w
  pub rows-clear_table : (w : S) → (db.clear_table w).0 ≡ ok tt → rows (db.clear_table w).1 ≡ []
  pub rows-insert_one :
      (o : Order D) (w : S)
      → (db.insert_one o w).0 ≡ ok tt
      → rows (db.insert_one o w).1 ≡ rows w ++ o ∷ []
  pub rows-insert_one_failed :
      (o : Order D) (w : S) (e : Exception)
      → (db.insert_one o w).0 ≡ throw e
      → rows (db.insert_one o w).1 ≡ rows w

-- Commands, connections and reads do not touch the rows.
pub record LeavesRows {D S : Type 0} (m : Platform S) (db : DbInterface D S)
    (rows : S → List (Order D)) : Type 0 where
  pub rows-system : (command : Text) (w : S) → rows (m.system command w).1 ≡ rows w
  pub rows-connect : (w : S) → rows (db.connect w).1 ≡ rows w
  pub rows-find_by_primary_key : (id : Text) (w : S) → rows (db.find_by_primary_key id w).1 ≡ rows w

-- a database that takes every order
pub record TakesAll {D S : Type 0} (db : DbInterface D S) : Type 0 where
  pub clear_table-ok : (w : S) → (db.clear_table w).0 ≡ ok tt
  pub insert_one-ok : (o : Order D) (w : S) → (db.insert_one o w).0 ≡ ok tt

-- a database that can be reached and answers every look-up by the primary key
pub record Answers {D S : Type 0} (db : DbInterface D S) : Type 0 where
  pub connect-ok : (w : S) → (db.connect w).0 ≡ ok tt
  pub find_by_primary_key-ok :
      (id : Text) (w : S) → (o : Order D) × ((db.find_by_primary_key id w).0 ≡ ok o)

-- a database whose secondary index can be made and dropped, and that answers look-ups by it
pub record AnswersSecondary {D S : Type 0} (db : DbInterface D S) : Type 0 where
  pub create_secondary_index-ok : (w : S) → (db.create_secondary_index w).0 ≡ ok tt
  pub drop_secondary_index-ok : (w : S) → (db.drop_secondary_index w).0 ≡ ok tt
  pub find_by_secondary_key-ok :
      (id : Text) (w : S)
      → (orders : List (Order D)) × ((db.find_by_secondary_key id w).0 ≡ ok orders)

-- a database that answers range scans
pub record AnswersRange {D S : Type 0} (db : DbInterface D S) : Type 0 where
  pub find_by_range-ok :
      (from to : Text) (w : S)
      → (orders : List (Order D)) × ((db.find_by_range from to w).0 ≡ ok orders)
