-- ===== src/Db/CassandraClient/Handles/Reads.antt =====
-- What the two selects of src/db/CassandraClient.cpp do to the objects of the driver.
use db_benchmark.Prelude.{ℕ, ◌+◌, ◌≡◌, refl, ap, sym, ◌∙◌, Bool-cases, inl, inr, List, arith}
use db_benchmark.Prelude.Int.{ℤ}
use db_benchmark.Cpp.Outcome.{Outcome, ok, throw, undefined}
use db_benchmark.Cpp.Method.{Method, pure, lift, then_do, ◌>>=◌, ◌>>◌}
use db_benchmark.Cpp.Text.{Text, text}
use db_benchmark.Data.Order.{Order}
use db_benchmark.Db.CassandraClient.{check_future}
use db_benchmark.Db.CassandraClient.Client.{
  answered, answer_cases, Row, Select, select_by_id, select_by_user, Driver, first_row, orders_of,
}
use db_benchmark.Db.CassandraClient.Handles.{Pointers, Held, is_live, allocate, free}
use db_benchmark.Db.CassandraClient.Handles.Ledger.{
  one, Balanced, Runs, Runs-then, allocate-Balanced, free_rest,
}
use db_benchmark.Db.CassandraClient.Handles.Steps.{Leaks, Keeps}
use db_benchmark.Db.CassandraClient.Handles.Selects.{
  await_rows, select_objects, find_by_id_objects, find_by_user_objects,
}
use db_benchmark.Db.CassandraClient.Handles.Rows.{
  NeverThrows, orders_of-NeverThrows, first_row-NeverThrows,
}

-- How a call ended that may be undefined: it returned and left P, or threw and left R, or is undefined
-- for the reason U.
abbrev pub Settles :
    {S A : Type 0} → (A → S → Type 0) → (S → Type 0) → Type 0 → Outcome A → S → Type 0
Settles P R U (ok a) s = P a s
Settles P R U (throw e) s = R s
Settles P R U undefined s = U

module _ {S A B : Type 0} where
  Settles-then :
      (P : A → S → Type 0) (Q : B → S → Type 0) (R : S → Type 0) (U : Type 0) (res : Outcome A)
      (s : S) (next : A → Method S B)
      → Runs P R res s
      → ((a : A) → P a s → Settles Q R U (next a s).0 (next a s).1)
      → Settles Q R U (then_do res next s).0 (then_do res next s).1
  Settles-then P Q R U (ok a) s next h goes_on = goes_on a h
  Settles-then P Q R U (throw e) s next h goes_on = h
  Settles-then P Q R U undefined s next h goes_on = absurd h

  Settles-read :
      (Q : B → S → Type 0) (R : S → Type 0) (U : Type 0) (res : Outcome A) (s : S)
      (next : A → Method S B)
      → NeverThrows res
      → (res ≡ undefined → U)
      → ((a : A) → Settles Q R U (next a s).0 (next a s).1)
      → Settles Q R U (then_do res next s).0 (then_do res next s).1
  Settles-read Q R U (ok a) s next h why goes_on = goes_on a
  Settles-read Q R U (throw e) s next h why goes_on = absurd h
  Settles-read Q R U undefined s next h why goes_on = why refl

free-world : {S : Type 0} (x : ℕ) (s : Held S) → (free x s).1.world ≡ s.world
unfolding free
free-world x s = elim (Bool-cases (is_live x s.live)) [ inl e ↦ rw e refl | inr e ↦ rw e refl ]

module _ {D S : Type 0} (driver : Driver D S) where
  await_rows_lem :
      (rest : ℕ → ℕ) (f : ℕ) (c : Pointers) (query : Select) (context : Text) (s : Held S)
      → Keeps (λ h. one f h + rest h) c tt s
      → Runs
          (λ rows s'.
            Keeps (λ h. one f h + rest h) c tt s'
            × ((driver.select query s.world).0 ≡ answered rows))
          (Leaks rest c)
          (await_rows driver query context s).0
          (await_rows driver query context s).1
  unfolding await_rows check_future
  await_rows_lem rest f c query context s (b, at) =
      elim (answer_cases (driver.select query s.world).0) [
        | inl (rows, e) ↦ rw e ((b, at), refl)
        | inr (message, e) ↦ rw e ((f, b), at)
      ]

  -- the result is live and behind no pointer, and its rows are the answer to the query
  abbrev HasResult : (ℕ → ℕ) → Pointers → Select → S → ℕ × List (Row D) → Held S → Type 0
  HasResult rest c query w (result, rows) s =
      Keeps (λ h. one result h + rest h) c tt s × ((driver.select query w).0 ≡ answered rows)

  select_objects_lem :
      (rest : ℕ → ℕ) (query : Select) (context : Text) (s : Held S)
      → Balanced rest s
      → Runs
          (HasResult rest s.pointers query s.world)
          (Leaks rest s.pointers)
          (select_objects driver query context s).0
          (select_objects driver query context s).1
  unfolding select_objects allocate await_rows
  select_objects_lem rest query context s b =
      let c = s.pointers in
      let s₁ = (allocate s).1 in
      let s₂ = (allocate s₁).1 in
      let x = s.next in
      let f = s₁.next in
      let rest₂ : ℕ → ℕ = λ h. one f h + rest h in
      let b₂ = allocate-Balanced (λ h. one x h + rest h) s₁ (allocate-Balanced rest s b) in
      let (freed, b₃, same) = free_rest rest₂ x s₂ (λ h. omega (arith, b₂ h)) in
      let s₃ = (free x s₂).1 in
      let s₄ = (await_rows driver query context s₃).1 in
      rw freed (
        Runs-then
          (λ (rows : List (Row D)) s'.
            Keeps rest₂ c tt s' × ((driver.select query s₃.world).0 ≡ answered rows))
          (HasResult rest c query s.world) (Leaks rest c) (await_rows driver query context s₃).0 s₄
          (λ rows. allocate >>= λ result. (free f >> pure (result, rows)))
          (await_rows_lem rest f c query context s₃ (b₃, same))
          (λ rows ((b₄, at), given).
            let result = s₄.next in
            let s₅ = (allocate s₄).1 in
            let (freed', b₆, same') =
              free_rest (λ h. one result h + rest h) f s₅ (λ h. omega (arith, b₄ h)) in
            let asked : (driver.select query s.world).0 ≡ answered rows =
              ap (λ w. (driver.select query w).0) (sym (free-world x s₂)) ∙ given in
            rw freed' ((b₆, same' ∙ at), asked)))

  -- why a look-up by the id may be undefined: the rows of the answer are not read as an order
  abbrev pub IdUnread : D → ℤ → Text → S → Type 0
  IdUnread amount quantity order_id w =
      (rows : List (Row D)) × ((driver.select (select_by_id order_id) w).0 ≡ answered rows)
      × (first_row driver amount quantity rows ≡ undefined)

  -- and one by the user
  abbrev pub UserUnread : Text → S → Type 0
  UserUnread user_id w =
      (rows : List (Row D)) × ((driver.select (select_by_user user_id) w).0 ≡ answered rows)
      × (orders_of rows ≡ undefined)

  find_by_id_objects_lem :
      (rest : ℕ → ℕ) (amount : D) (quantity : ℤ) (order_id : Text) (s : Held S)
      → Balanced rest s
      → Settles
          (λ o. Keeps rest s.pointers tt)
          (Leaks rest s.pointers)
          (IdUnread amount quantity order_id s.world)
          (find_by_id_objects driver amount quantity order_id s).0
          (find_by_id_objects driver amount quantity order_id s).1
  unfolding find_by_id_objects
  find_by_id_objects_lem rest amount quantity order_id s b =
      let c = s.pointers in
      let q = select_by_id order_id in
      let why = IdUnread amount quantity order_id s.world in
      let call = select_objects driver q (text "find_by_primary_key") s in
      let done : Order D → Held S → Type 0 = λ o. Keeps rest c tt in
      Settles-then (HasResult rest c q s.world) done (Leaks rest c) why call.0 call.1
        (λ (result, rows).
          lift (first_row driver amount quantity rows) >>= λ o. (free result >> pure o))
        (select_objects_lem rest q (text "find_by_primary_key") s b)
        (λ (result, rows) ((b₁, at), given).
          Settles-read done (Leaks rest c) why (first_row driver amount quantity rows) call.1
            (λ o. free result >> pure o) (first_row-NeverThrows driver amount quantity rows)
            (λ unread. (rows, given, unread))
            (λ o.
              let (freed, b₂, same) = free_rest rest result call.1 b₁ in rw freed (b₂, same ∙ at)))

  find_by_user_objects_lem :
      (rest : ℕ → ℕ) (user_id : Text) (s : Held S)
      → Balanced rest s
      → Settles
          (λ orders. Keeps rest s.pointers tt)
          (Leaks rest s.pointers)
          (UserUnread user_id s.world)
          (find_by_user_objects driver user_id s).0
          (find_by_user_objects driver user_id s).1
  unfolding find_by_user_objects allocate
  find_by_user_objects_lem rest user_id s b =
      let c = s.pointers in
      let q = select_by_user user_id in
      let why = UserUnread user_id s.world in
      let call = select_objects driver q (text "find_by_secondary_key") s in
      let done : List (Order D) → Held S → Type 0 = λ orders. Keeps rest c tt in
      Settles-then (HasResult rest c q s.world) done (Leaks rest c) why call.0 call.1
        (λ (result, rows). allocate >>= λ it.
          (lift (orders_of rows) >>= λ orders. (free it >> (free result >> pure orders))))
        (select_objects_lem rest q (text "find_by_secondary_key") s b)
        (λ (result, rows) ((b₁, at), given).
          let it = call.1.next in
          let s₂ = (allocate call.1).1 in
          let b₂ = allocate-Balanced (λ h. one result h + rest h) call.1 b₁ in
          Settles-read done (Leaks rest c) why (orders_of rows) s₂
            (λ orders. free it >> (free result >> pure orders)) (orders_of-NeverThrows rows)
            (λ unread. (rows, given, unread))
            (λ orders.
              let (freed, b₃, same) = free_rest (λ h. one result h + rest h) it s₂ b₂ in
              let s₃ = (free it s₂).1 in
              let (freed', b₄, same') = free_rest rest result s₃ b₃ in
              rw (freed, freed') (b₄, same' ∙ same ∙ at)))

  -- Both look-ups keep the account of the driver's objects if they return; if one throws, the future that
  -- failed is live and behind no pointer, and nothing else is lost; and one is undefined only where
  -- the select is answered with rows whose reading is undefined, so never by the free of an object
  -- that is not live.
  pub reads_lem :
      (rest : ℕ → ℕ) (amount : D) (quantity : ℤ) (order_id user_id : Text) (s : Held S)
      → Balanced rest s
      → Settles
          (λ o. Keeps rest s.pointers tt)
          (Leaks rest s.pointers)
          (IdUnread amount quantity order_id s.world)
          (find_by_id_objects driver amount quantity order_id s).0
          (find_by_id_objects driver amount quantity order_id s).1
        × Settles
            (λ orders. Keeps rest s.pointers tt)
            (Leaks rest s.pointers)
            (UserUnread user_id s.world)
            (find_by_user_objects driver user_id s).0
            (find_by_user_objects driver user_id s).1
  reads_lem rest amount quantity order_id user_id s b = (
    find_by_id_objects_lem rest amount quantity order_id s b,
    find_by_user_objects_lem rest user_id s b,
  )
