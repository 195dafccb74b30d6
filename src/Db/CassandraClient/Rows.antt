-- ===== src/Db/CassandraClient/Rows.antt =====
-- The batches of src/db/CassandraClient.cpp under errors.
use db_benchmark.Prelude.{◌≡◌, refl, ◌∙◌, inl, inr, ◌++◌, none, some, List, [], ◌∷◌}
use db_benchmark.Cpp.Outcome.{ok, throw, runtime_error, outcome_cases}
use db_benchmark.Cpp.Text.{Text, text}
use db_benchmark.Data.Order.{Order}
use db_benchmark.Db.CassandraClient.{
  and_then, Session, insert_by_id, insert_by_user, check_future, bind_by_id, bind_by_user,
  run_statement, insert_one, insert_batch,
}

module _ {D S : Type 0} (session : Session D S) where
  insert_batch-append :
      (before rest : List (Order D)) (w : S)
      → insert_batch session (before ++ rest) w
        ≡ and_then
            (insert_batch session before w).0
            (insert_batch session rest)
            (insert_batch session before w).1
  unfolding insert_batch
  insert_batch-append [] rest w = refl
  insert_batch-append (b ∷ before) rest w = elim (outcome_cases (insert_one session b w).0) [
    | inl (a, e) ↦ rw e (insert_batch-append before rest (insert_one session b w).1)
    | inr (inl (x, e)) ↦ rw e refl
    | inr (inr e) ↦ rw e refl
  ]

  -- A batch stops at the first order whose statement fails, behind any orders that were inserted: it
  -- throws that statement's error and leaves what the statement left. That holds for the order's first
  -- statement, and for its second one after the first has gone through.
  pub insert_batch_stops :
      (before : List (Order D)) (o : Order D) (after : List (Order D)) (w w₁ : S)
      → insert_batch session before w ≡ (ok tt, w₁)
      → ((message : Text) (w₂ : S)
          → session.execute (insert_by_id (bind_by_id o)) w₁ ≡ (some message, w₂)
          → insert_batch session (before ++ o ∷ after) w ≡ (
            throw (runtime_error (text "CassandraClient [insert_one orders_by_id]: " ++ message)),
            w₂,
          ))
        × ((message : Text) (w₂ w₃ : S)
            → session.execute (insert_by_id (bind_by_id o)) w₁ ≡ (none, w₂)
            → session.execute (insert_by_user (bind_by_user o)) w₂ ≡ (some message, w₃)
            → insert_batch session (before ++ o ∷ after) w ≡ (
              throw
                  (runtime_error (text "CassandraClient [insert_one orders_by_user]: " ++ message)),
              w₃,
            ))
  unfolding insert_batch insert_one run_statement check_future text
  insert_batch_stops before o after w w₁ h = (
    λ message w₂ first. insert_batch-append before (o ∷ after) w ∙ rw (h, first) refl,
    λ message w₂ w₃ first second.
        insert_batch-append before (o ∷ after) w ∙ rw (h, first, second) refl,
  )
