-- ===== src/Tests/Db.antt =====
-- Runs of the model of src/db, with a document as its list of pairs.
use db_benchmark.Prelude.{◌≡◌, refl, Option, List, [], ◌∷◌, ◌++◌, none, some}
use db_benchmark.Cpp.Outcome.{throw, runtime_error}
use db_benchmark.Cpp.Text.{Text, text}
use db_benchmark.Cpp.Milli.{Milli}
use db_benchmark.Db.MongoClient.{Value, Bson, FindsFirst, first_value}
use db_benchmark.Db.CassandraClient.{
  Statement, insert_by_id, insert_by_user, Session, check_future, bind_by_id, bind_by_user,
  run_statement, insert_one, insert_batch,
}
use db_benchmark.Db.CassandraClient.Rows.{insert_batch_stops}
use db_benchmark.Tests.Machine.{order}

abbrev pub pairs : Bson Milli
pairs = record {
  Document = List (Text × Value Milli);
  make_document = λ d. d;
  find = first_value;
  wrong_type = text "expected element type k_string";
}

pub pairs-FindsFirst : FindsFirst pairs
pairs-FindsFirst = record { find-make_document = λ d key. refl }

-- A session that writes two statements and fails from then on.
abbrev attempt : Statement Milli → List (Statement Milli) → Option Text × List (Statement Milli)
attempt stmt (x ∷ y ∷ log) = (some (text "down"), x ∷ y ∷ log)
attempt stmt (x ∷ []) = (none, x ∷ stmt ∷ [])
attempt stmt [] = (none, stmt ∷ [])

abbrev session : Session Milli (List (Statement Milli))
session = record { execute = attempt }

abbrev written : List (Statement Milli)
written =
    insert_by_id (bind_by_id (order (text "a")))
    ∷ insert_by_user (bind_by_user (order (text "a")))
    ∷ []

insert_batch_stops_example :
    insert_batch session (order (text "a") ∷ order (text "b") ∷ order (text "c") ∷ []) [] ≡ (
      throw (runtime_error (text "CassandraClient [insert_one orders_by_id]: " ++ text "down")),
      written,
    )
unfolding insert_batch insert_one run_statement check_future
insert_batch_stops_example =
    (insert_batch_stops session (order (text "a") ∷ []) (order (text "b")) (order (text "c") ∷ [])
        [] written refl).0
      (text "down") written refl
