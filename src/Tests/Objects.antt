-- ===== src/Tests/Objects.antt =====
-- Runs of the model of the driver's objects in src/db/CassandraClient.cpp.
use db_benchmark.Prelude.{ℕ, ◌+◌, ◌≡◌, refl, some, List, [], ◌∷◌, arith}
use db_benchmark.Cpp.Outcome.{Exception, ok, throw}
use db_benchmark.Cpp.Text.{text}
use db_benchmark.Cpp.Milli.{Milli}
use db_benchmark.Config.{DatabaseConfig, default_database}
use db_benchmark.Db.CassandraClient.{Session, check_future}
use db_benchmark.Db.CassandraClient.Client.{settings_of}
use db_benchmark.Db.CassandraClient.Handles.{
  number, null_pointers, Held, statements, connect_objects, destroy_objects, insert_batch_objects,
  delete_objects, clear_objects, allocate, free, assign, await, run_future, prepare_member,
  prepare_members, new_member,
}
use db_benchmark.Db.CassandraClient.Handles.Ledger.{tally, one, owned, members, Balanced, Runs}
use db_benchmark.Db.CassandraClient.Handles.Steps.{Keeps, Leaks}
use db_benchmark.Db.CassandraClient.Handles.Lifetime.{destroy-connect, reconnect_leaks}
use db_benchmark.Prelude.Int.{pos}
use db_benchmark.Data.Order.{Order}
use db_benchmark.Db.CassandraClient.Handles.Selects.{find_by_id_objects, find_by_user_objects}
use db_benchmark.Db.CassandraClient.Handles.Reads.{Settles, IdUnread, UserUnread, reads_lem}
use db_benchmark.Db.CassandraClient.Handles.Writes.{writes_lem}
use db_benchmark.Tests.Keyspace.{Keyspace, driver, empty}
use db_benchmark.Tests.Machine.{order}

abbrev login : DatabaseConfig
login = default_database 9042

-- an object of others is live
abbrev made : Held Keyspace
made = record { pointers = null_pointers; live = 40 ∷ []; next = 41; world = empty }

destroy-connect_example :
    ((destroy_objects driver (connect_objects driver login made).1).0 ≡ ok tt)
    × ((connect_objects driver login made).0 ≡ ok tt
        → (h : ℕ)
        → tally h (destroy_objects driver (connect_objects driver login made).1).1.live
          ≡ tally h (40 ∷ []))
    × ((e : Exception)
        → (connect_objects driver login made).0 ≡ throw e
        → (f : ℕ) × ((h : ℕ)
            → tally h (destroy_objects driver (connect_objects driver login made).1).1.live
              ≡ one f h + tally h (40 ∷ [])))
destroy-connect_example = destroy-connect driver login made (λ m. refl)

abbrev connected : Held Keyspace
connected = record {
  pointers = λ m. some (number m);
  live = 0 ∷ 1 ∷ 2 ∷ 3 ∷ 4 ∷ 5 ∷ 6 ∷ [];
  next = 7;
  world = empty;
}

abbrev nothing_else : ℕ → ℕ
nothing_else h = 0

connected-Balanced : Balanced nothing_else connected
connected-Balanced h = omega arith

reconnect_leaks_example :
    ((destroy_objects driver (connect_objects driver login connected).1).0 ≡ ok tt)
    × ((h : ℕ)
        → tally h (destroy_objects driver (connect_objects driver login connected).1).1.live
          ≡ owned h members connected.pointers + 0)
unfolding connect_objects statements prepare_members prepare_member run_future new_member allocate
    free assign await check_future settings_of
reconnect_leaks_example =
    reconnect_leaks driver nothing_else login connected connected-Balanced refl

-- every statement fails
abbrev broken : Session Milli Keyspace
broken = record { execute = λ stmt w. (some (text "timed out"), w) }

writes_lem_example :
    Runs
      (Keeps nothing_else connected.pointers)
      (Leaks nothing_else connected.pointers)
      (insert_batch_objects broken (order (text "a") ∷ order (text "b") ∷ []) connected).0
      (insert_batch_objects broken (order (text "a") ∷ order (text "b") ∷ []) connected).1
    × Runs
        (Keeps nothing_else connected.pointers)
        (Leaks nothing_else connected.pointers)
        (delete_objects broken (text "a") connected).0
        (delete_objects broken (text "a") connected).1
    × Runs
        (Keeps nothing_else connected.pointers)
        (Leaks nothing_else connected.pointers)
        (clear_objects driver connected).0
        (clear_objects driver connected).1
writes_lem_example =
    writes_lem broken nothing_else driver (order (text "a") ∷ order (text "b") ∷ []) (text "a")
      connected connected-Balanced

reads_lem_example :
    Settles
      (λ (o : Order Milli). Keeps nothing_else connected.pointers tt)
      (Leaks nothing_else connected.pointers)
      (IdUnread driver 7 (pos 9) (text "a") empty)
      (find_by_id_objects driver 7 (pos 9) (text "a") connected).0
      (find_by_id_objects driver 7 (pos 9) (text "a") connected).1
    × Settles
        (λ (orders : List (Order Milli)). Keeps nothing_else connected.pointers tt)
        (Leaks nothing_else connected.pointers)
        (UserUnread driver (text "u") empty)
        (find_by_user_objects driver (text "u") connected).0
        (find_by_user_objects driver (text "u") connected).1
reads_lem_example =
    reads_lem driver nothing_else 7 (pos 9) (text "a") (text "u") connected connected-Balanced
