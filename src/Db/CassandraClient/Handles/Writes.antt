-- ===== src/Db/CassandraClient/Handles/Writes.antt =====
-- What the writes of src/db/CassandraClient.cpp do to the objects of the driver.
use db_benchmark.Prelude.{ℕ, ◌+◌, refl, ◌∙◌, List, [], ◌∷◌, Option, arith}
use db_benchmark.Cpp.Method.{◌>>◌}
use db_benchmark.Cpp.Text.{Text, text}
use db_benchmark.Data.Order.{Order}
use db_benchmark.Db.CassandraClient.{
  Session, insert_by_id, insert_by_user, bind_by_id, bind_by_user,
}
use db_benchmark.Db.CassandraClient.Client.{Driver}
use db_benchmark.Db.CassandraClient.Handles.{
  Pointers, Held, allocate, free, await, run_object, insert_one_objects, insert_batch_objects,
  delete_objects, clear_objects,
}
use db_benchmark.Db.CassandraClient.Handles.Ledger.{
  one, Balanced, Runs, Runs-then, allocate-Balanced, free_rest,
}
use db_benchmark.Db.CassandraClient.Handles.Steps.{Leaks, Keeps, await_lem, free_then-Keeps}

module _ {S : Type 0} where
  run_object_lem :
      (rest : ℕ → ℕ) (c : Pointers) (call : S → Option Text × S) (context : Text) (s : Held S)
      → Keeps rest c tt s
      → Runs
          (Keeps rest c)
          (Leaks rest c)
          (run_object call context s).0
          (run_object call context s).1
  unfolding run_object allocate await
  run_object_lem rest c call context s (b, at) =
      let s₁ = (allocate s).1 in
      let s₂ = (allocate s₁).1 in
      let x = s.next in
      let f = s₁.next in
      let rest₂ : ℕ → ℕ = λ h. one f h + rest h in
      let b₂ = allocate-Balanced (λ h. one x h + rest h) s₁ (allocate-Balanced rest s b) in
      let (freed, b₃, same) = free_rest rest₂ x s₂ (λ h. omega (arith, b₂ h)) in
      let s₃ = (free x s₂).1 in
      rw freed (
        Runs-then (Keeps rest₂ c) (Keeps rest c) (Leaks rest c) (await call context s₃).0
          (await call context s₃).1 (λ u. free f)
          (await_lem rest f c call context s₃ (b₃, same ∙ at))
          (λ u. free_then-Keeps rest f c (await call context s₃).1))

  -- two blocks, one after the other
  two_objects_lem :
      (rest : ℕ → ℕ) (c : Pointers) (first second : S → Option Text × S) (context context' : Text)
      (s : Held S)
      → Keeps rest c tt s
      → Runs
          (Keeps rest c)
          (Leaks rest c)
          ((run_object first context >> run_object second context') s).0
          ((run_object first context >> run_object second context') s).1
  two_objects_lem rest c first second context context' s h =
      Runs-then (Keeps rest c) (Keeps rest c) (Leaks rest c) (run_object first context s).0
        (run_object first context s).1 (λ u. run_object second context')
        (run_object_lem rest c first context s h)
        (λ u. run_object_lem rest c second context' (run_object first context s).1)

module _ {D S : Type 0} (driver_session : Session D S) where
  insert_one_objects_lem :
      (rest : ℕ → ℕ) (c : Pointers) (order : Order D) (s : Held S)
      → Keeps rest c tt s
      → Runs
          (Keeps rest c)
          (Leaks rest c)
          (insert_one_objects driver_session order s).0
          (insert_one_objects driver_session order s).1
  unfolding insert_one_objects
  insert_one_objects_lem rest c order s =
      two_objects_lem rest c (driver_session.execute (insert_by_id (bind_by_id order)))
        (driver_session.execute (insert_by_user (bind_by_user order)))
        (text "insert_one orders_by_id") (text "insert_one orders_by_user") s

  insert_batch_objects_lem :
      (rest : ℕ → ℕ) (c : Pointers) (orders : List (Order D)) (s : Held S)
      → Keeps rest c tt s
      → Runs
          (Keeps rest c)
          (Leaks rest c)
          (insert_batch_objects driver_session orders s).0
          (insert_batch_objects driver_session orders s).1
  unfolding insert_batch_objects
  insert_batch_objects_lem rest c [] s h = h
  insert_batch_objects_lem rest c (o ∷ orders) s h =
      Runs-then (Keeps rest c) (Keeps rest c) (Leaks rest c)
        (insert_one_objects driver_session o s).0 (insert_one_objects driver_session o s).1
        (λ u. insert_batch_objects driver_session orders) (insert_one_objects_lem rest c o s h)
        (λ u. insert_batch_objects_lem rest c orders (insert_one_objects driver_session o s).1)

  -- A batch of inserts, a delete and the truncation of the tables keep the account of the driver's objects
  -- if they return. If one throws, at whichever statement, the future that failed is live and behind no
  -- pointer, and nothing else is lost. None frees what is not live.
  pub writes_lem :
      (rest : ℕ → ℕ) (driver : Driver D S) (orders : List (Order D)) (order_id : Text) (s : Held S)
      → Balanced rest s
      → Runs
          (Keeps rest s.pointers)
          (Leaks rest s.pointers)
          (insert_batch_objects driver_session orders s).0
          (insert_batch_objects driver_session orders s).1
        × Runs
            (Keeps rest s.pointers)
            (Leaks rest s.pointers)
            (delete_objects driver_session order_id s).0
            (delete_objects driver_session order_id s).1
        × Runs
            (Keeps rest s.pointers)
            (Leaks rest s.pointers)
            (clear_objects driver s).0
            (clear_objects driver s).1
  unfolding delete_objects clear_objects
  writes_lem rest driver orders order_id s b = (
    insert_batch_objects_lem rest s.pointers orders s (b, refl),
    run_object_lem rest s.pointers _ _ s (b, refl),
    two_objects_lem rest s.pointers _ _ _ _ s (b, refl),
  )
