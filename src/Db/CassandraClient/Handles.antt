-- ===== src/Db/CassandraClient/Handles.antt =====
-- src/db/CassandraClient.cpp: the objects of the driver that the client owns by hand, from the calls that
-- make them to the calls of their `cass_..._free`. An object is the number of its making; to free one
-- that is not live, as on a second time, is undefined.
pub mod Ledger
pub mod Steps
pub mod Prepare
pub mod Lifetime
pub mod Writes
pub mod Selects
pub mod Rows
pub mod Reads
use db_benchmark.Prelude.{
  ℕ, ◌+◌, Bool, false, ◌||◌, ◌==◌, List, [], ◌∷◌, ◌++◌, Option, none, some, if◌then◌else◌,
}
use db_benchmark.Cpp.Outcome.{ok, undefined}
use db_benchmark.Cpp.Method.{Method, pure, ◌>>=◌, ◌>>◌}
use db_benchmark.Cpp.Text.{Text, text}
use db_benchmark.Config.{DatabaseConfig}
use db_benchmark.Data.Order.{Order}
use db_benchmark.Db.CassandraClient.{
  Session, string, delete_by_id, insert_by_id, insert_by_user, check_future, bind_by_id,
  bind_by_user,
}
use db_benchmark.Db.CassandraClient.Client.{
  Driver, settings_of, insert_by_id_query, insert_by_user_query, select_by_id_query,
  select_by_user_query, delete_by_id_query,
}

-- the members that point to objects of the driver
pub data Member : Type 0 where
  cluster session insert_by_id_stmt insert_by_user_stmt select_by_id_stmt : Member
  select_by_user_stmt delete_by_id_stmt : Member

abbrev pub number : Member → ℕ
number cluster = 0
number session = 1
number insert_by_id_stmt = 2
number insert_by_user_stmt = 3
number select_by_id_stmt = 4
number select_by_user_stmt = 5
number delete_by_id_stmt = 6

abbrev pub Pointers : Type 0
Pointers = Member → Option ℕ

-- the pointers of a client that is made: each `nullptr`
abbrev pub null_pointers : Pointers
null_pointers m = none

abbrev pub put : Member → Option ℕ → Pointers → Pointers
put m v c m' = if number m == number m' then v else c m'

-- the client's pointers, the objects that are made and not freed, the number of the next, and the rest
-- of the machine
pub record Held (S : Type 0) : Type 0 where
  pub pointers : Pointers
  pub live : List ℕ
  pub next : ℕ
  pub world : S

abbrev pub is_live : ℕ → List ℕ → Bool
is_live x [] = false
is_live x (y ∷ ys) = y == x || is_live x ys

abbrev pub without : ℕ → List ℕ → List ℕ
without x [] = []
without x (y ∷ ys) = if y == x then ys else y ∷ without x ys

-- the members that point to prepared statements, in the order of their preparation, with the queries
unfoldable pub statements : List (Member × Text)
statements =
    (insert_by_id_stmt, insert_by_id_query)
    ∷ (insert_by_user_stmt, insert_by_user_query)
    ∷ (select_by_id_stmt, select_by_id_query)
    ∷ (select_by_user_stmt, select_by_user_query)
    ∷ (delete_by_id_stmt, delete_by_id_query)
    ∷ []

-- the same members, in the order of the destructor
unfoldable pub statement_members : List Member
statement_members =
    insert_by_id_stmt ∷ insert_by_user_stmt ∷ select_by_id_stmt ∷ select_by_user_stmt
    ∷ delete_by_id_stmt ∷ []

module _ {S : Type 0} where
  unfoldable pub allocate : Method (Held S) ℕ
  allocate s = (ok s.next, record s { live = s.next ∷ s.live; next = s.next + 1 })

  unfoldable pub free : ℕ → Method (Held S) (Unit {0})
  free x s =
      if is_live x s.live then (ok tt, record s { live = without x s.live }) else (undefined, s)

  -- an assignment to a member
  unfoldable pub assign : Member → Option ℕ → Method (Held S) (Unit {0})
  assign m v s = (ok tt, record s { pointers = put m v s.pointers })

  -- `cass_cluster_new` and `cass_session_new`
  unfoldable pub new_member : Member → Method (Held S) (Unit {0})
  unfolding allocate assign
  new_member m = do x ← allocate; assign m (some x)

  -- the wait for a future, and its check
  unfoldable pub await : (S → Option Text × S) → Text → Method (Held S) (Unit {0})
  await call context s =
      (check_future (call s.world).0 context, record s { world = (call s.world).1 })

  -- a future made, waited for, checked and freed
  unfoldable pub run_future : (S → Option Text × S) → Text → Method (Held S) (Unit {0})
  run_future call context = do f ← allocate; await call context; free f

  abbrev pub free_pointer : Member → Option ℕ → Method (Held S) (Unit {0})
  free_pointer m none = pure tt
  free_pointer m (some x) = do free x; assign m none

  -- `if (p) { cass_..._free(p); p = nullptr; }`
  unfoldable pub free_member : Member → Method (Held S) (Unit {0})
  unfolding free assign
  free_member m s = free_pointer m (s.pointers m) s

  unfoldable pub free_members : List Member → Method (Held S) (Unit {0})
  free_members [] = pure tt
  free_members (m ∷ ms) = do free_member m; free_members ms

module _ {D S : Type 0} (driver : Driver D S) where
  -- the lambda of `connect`, and the assignment of what it returns
  unfoldable pub prepare_member : Member → Text → Method (Held S) (Unit {0})
  unfolding allocate free assign await
  prepare_member m query = do
    f ← allocate
    await (driver.prepare query) (text "prepare:: " ++ query)
    p ← allocate
    free f
    assign m (some p)

  unfoldable pub prepare_members : List (Member × Text) → Method (Held S) (Unit {0})
  prepare_members [] = pure tt
  prepare_members ((m, query) ∷ rest) = do prepare_member m query; prepare_members rest

  unfoldable pub connect_objects : DatabaseConfig → Method (Held S) (Unit {0})
  unfolding new_member run_future prepare_members statements settings_of
  connect_objects config = do
    new_member cluster
    new_member session
    run_future (driver.connect_session (settings_of config)) (text "CassandraClient::connect")
    prepare_members statements

  -- the future of the close, before the session is freed
  abbrev pub close_pointer : Option ℕ → Method (Held S) (Unit {0})
  close_pointer none = pure tt
  close_pointer (some x) = run_future (λ w. (none, driver.close_session w)) []

  unfoldable pub disconnect_objects : Method (Held S) (Unit {0})
  unfolding free_member
  disconnect_objects = do
    λ s. close_pointer (s.pointers session) s
    free_member session
    free_member cluster

  -- the destructor
  unfoldable pub destroy_objects : Method (Held S) (Unit {0})
  unfolding disconnect_objects free_members statement_members
  destroy_objects = do disconnect_objects; free_members statement_members

module _ {S : Type 0} where
  -- a block: a statement made, executed, freed, and its future checked and freed
  unfoldable pub run_object : (S → Option Text × S) → Text → Method (Held S) (Unit {0})
  unfolding allocate free await
  run_object call context = do x ← allocate; f ← allocate; free x; await call context; free f

module _ {D S : Type 0} (session : Session D S) where
  unfoldable pub insert_one_objects : Order D → Method (Held S) (Unit {0})
  unfolding run_object
  insert_one_objects order = do
    run_object (session.execute (insert_by_id (bind_by_id order))) (text "insert_one orders_by_id")
    run_object (session.execute (insert_by_user (bind_by_user order)))
        (text "insert_one orders_by_user")

  unfoldable pub insert_batch_objects : List (Order D) → Method (Held S) (Unit {0})
  insert_batch_objects [] = pure tt
  insert_batch_objects (o ∷ orders) = do insert_one_objects o; insert_batch_objects orders

  unfoldable pub delete_objects : Text → Method (Held S) (Unit {0})
  unfolding run_object
  delete_objects order_id =
      run_object (session.execute (delete_by_id (string order_id ∷ [])))
        (text "delete_by_primary_key")

module _ {D S : Type 0} (driver : Driver D S) where
  unfoldable pub clear_objects : Method (Held S) (Unit {0})
  unfolding run_object
  clear_objects = do
    run_object (driver.execute_cql (text "TRUNCATE benchmark.orders_by_id"))
        (text "TRUNCATE benchmark.orders_by_id")
    run_object (driver.execute_cql (text "TRUNCATE benchmark.orders_by_user"))
        (text "TRUNCATE benchmark.orders_by_user")
