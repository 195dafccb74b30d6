-- ===== src/Tests/Postgres.antt =====
-- A run of the model of src/db/PostgresClient.cpp, on a table with one transaction and a connection that
-- is lost at the commit, behind the server's own commit.
use db_benchmark.Prelude.{◌≡◌, refl, sym, false≢true, ◌⊎◌, inr, true, List, [], ◌∷◌, ◌++◌, map}
use db_benchmark.Cpp.Outcome.{Exception, ok, throw, runtime_error}
use db_benchmark.Cpp.Text.{text}
use db_benchmark.Cpp.Milli.{Milli}
use db_benchmark.Db.PostgresClient.{Parameter, Connection, parameters_of, insert_batch}
use db_benchmark.Db.PostgresClient.Batch.{IsTransactional, insert_batch_whole}
use db_benchmark.Tests.Machine.{order, dataset}

record Table : Type 0 where
  committed : List (List (Parameter Milli))
  streamed : List (List (Parameter Milli))

abbrev connection : Connection Milli Table
connection = record {
  Row = List (Parameter Milli);
  is_broken = λ e. true;
  open_connection = λ options w. (ok tt, w);
  is_open = λ w. true;
  close = λ w. (ok tt, w);
  prepare = λ name sql w. (ok tt, w);
  exec_prepared = λ name values w. (ok w.committed, w);
  begin = λ w. (ok tt, record w { streamed = [] });
  open_stream = λ name columns w. (ok tt, w);
  stream_row = λ row w. (ok tt, record w { streamed = w.streamed ++ row ∷ [] });
  complete = λ w. (ok tt, w);
  commit = λ w. (
    throw (runtime_error (text "connection lost")),
    record w { committed = w.committed ++ w.streamed },
  );
  abort = λ w. record w { streamed = [] };
}

abbrev connection-IsTransactional : IsTransactional connection
connection-IsTransactional = record {
  committed = λ w. w.committed;
  streamed = λ w. w.streamed;
  committed-begin = λ w. refl;
  streamed-begin = λ w h. refl;
  committed-open_stream = λ name columns w. refl;
  streamed-open_stream = λ name columns w h. refl;
  committed-stream_row = λ row w. refl;
  streamed-stream_row = λ row w h. refl;
  committed-complete = λ w. refl;
  streamed-complete = λ w h. refl;
  is_in_doubt = λ e. true;
  committed-commit = λ w h. refl;
  committed-commit_failed = λ w e h sure. absurd (false≢true (sym sure));
  committed-commit_in_doubt = λ w e h doubt. inr refl;
  committed-abort = λ w. refl;
}

abbrev one_row : Table
one_row = record { committed = parameters_of (order (text "old")) ∷ []; streamed = [] }

insert_batch_whole_example :
    ((insert_batch connection dataset one_row).0 ≡ ok tt
      → (insert_batch connection dataset one_row).1.committed
        ≡ parameters_of (order (text "old")) ∷ map parameters_of dataset)
    × ((e : Exception)
        → (insert_batch connection dataset one_row).0 ≡ throw e
        → ((insert_batch connection dataset one_row).1.committed
            ≡ parameters_of (order (text "old")) ∷ [])
          ⊎ (true ≡ true)
            × ((insert_batch connection dataset one_row).1.committed
                ≡ parameters_of (order (text "old")) ∷ map parameters_of dataset))
insert_batch_whole_example =
    insert_batch_whole connection connection-IsTransactional dataset one_row
