-- ===== src/Db/CassandraClient/Orphans.antt =====
-- Whether the two tables of src/db/CassandraClient.cpp stay in step: a row of orders_by_user whose id
-- orders_by_id does not hold is an orphan.
use mathlib.Core.List.{Memᴰ}
use db_benchmark.Prelude.{
  ◌≡◌, ap, sym, subst, ◌∙◌, ◌⊎◌, inl, inr, none, some, List, [], ◌∷◌, arith, option_cases,
}
use db_benchmark.Cpp.Outcome.{ok, outcome_cases}
use db_benchmark.Cpp.Text.{Text}
use db_benchmark.Data.Order.{Order}
use db_benchmark.Experiment.ExperimentBase.Timing.{throw≢ok}
use db_benchmark.Db.CassandraClient.{
  Session, string, insert_by_id, insert_by_user, delete_by_id, check_future, bind_by_id,
  bind_by_user, run_statement, insert_one, insert_batch, delete_by_primary_key,
}
use db_benchmark.Db.CassandraClient.Client.{Driver}
use db_benchmark.Db.CassandraClient.Tables.{KeepsTables}

-- What Cassandra documents of a statement and the rows it is not about. An insert into the first table
-- puts its order under its key or, when it fails, may have: every other row stands. It leaves the
-- second table alone. An insert into the second adds no row but that of its order, and adds it when
-- it goes through; a delete from the first that goes through leaves no row under the id, and none
-- touches the second.
pub record WritesApart {D S : Type 0} {session : Session D S} {driver : Driver D S}
    (keeps : KeepsTables session driver) : Type 0 where
  pub by_id-insert_apart :
      (o : Order D) (w : S) (id : Text)
      → (keeps.by_id (session.execute (insert_by_id (bind_by_id o)) w).1 id ≡ keeps.by_id w id)
        ⊎ (keeps.by_id (session.execute (insert_by_id (bind_by_id o)) w).1 id ≡ some o)
  pub by_user-insert_by_id :
      (o : Order D) (w : S) (user : Text)
      → keeps.by_user (session.execute (insert_by_id (bind_by_id o)) w).1 user
        ≡ keeps.by_user w user
  pub by_user-insert_apart :
      (o : Order D) (w : S) (user : Text) (x : Order D)
      → Memᴰ x (keeps.by_user (session.execute (insert_by_user (bind_by_user o)) w).1 user)
      → Memᴰ x (keeps.by_user w user) ⊎ (x.order_id ≡ o.order_id)
  pub by_user-insert_row :
      (o : Order D) (w : S)
      → (session.execute (insert_by_user (bind_by_user o)) w).0 ≡ none
      → (x : Order D) × Memᴰ x
          (keeps.by_user (session.execute (insert_by_user (bind_by_user o)) w).1 o.user_id)
        × (x.order_id ≡ o.order_id)
  pub by_id-delete :
      (id : Text) (w : S)
      → (session.execute (delete_by_id (string id ∷ [])) w).0 ≡ none
      → keeps.by_id (session.execute (delete_by_id (string id ∷ [])) w).1 id ≡ none
  pub by_user-delete :
      (id : Text) (w : S) (user : Text)
      → keeps.by_user (session.execute (delete_by_id (string id ∷ [])) w).1 user
        ≡ keeps.by_user w user

module _ {D S : Type 0} {session : Session D S} {driver : Driver D S}
    (keeps : KeepsTables session driver) where
  open keeps use {by_id, by_user}

  -- There is no orphan: the first table holds an order under the id of each row of the second.
  abbrev pub HasNoOrphan : S → Type 0
  HasNoOrphan w =
      (user : Text) (x : Order D)
      → Memᴰ x (by_user w user)
      → (o : Order D) × (by_id w x.order_id ≡ some o)

  module _ (apart : WritesApart keeps) where
    insert_by_id-HasNoOrphan :
        (o : Order D) (w : S)
        → HasNoOrphan w
        → HasNoOrphan (session.execute (insert_by_id (bind_by_id o)) w).1
    insert_by_id-HasNoOrphan o w whole user x row =
        let (found, e) =
          whole user x (subst (λ rows. Memᴰ x rows) (apart.by_user-insert_by_id o w user) row) in
        elim (apart.by_id-insert_apart o w x.order_id) [
          | inl same ↦ (found, same ∙ e)
          | inr new ↦ (o, new)
        ]

    insert_by_user-HasNoOrphan :
        (o : Order D) (w : S)
        → by_id w o.order_id ≡ some o
        → HasNoOrphan w
        → HasNoOrphan (session.execute (insert_by_user (bind_by_user o)) w).1
    insert_by_user-HasNoOrphan o w stands whole user x row =
        let kept = keeps.by_id-insert_by_user o w x.order_id in
        elim (apart.by_user-insert_apart o w user x row) [
          | inl old ↦ let (found, e) = whole user x old in (found, kept ∙ e)
          | inr e ↦ (o, kept ∙ ap (by_id w) e ∙ stands)
        ]

    insert_one-HasNoOrphan :
        (o : Order D) (w : S) → HasNoOrphan w → HasNoOrphan (insert_one session o w).1
    unfolding insert_one run_statement check_future
    insert_one-HasNoOrphan o w whole =
        let w₁ = (session.execute (insert_by_id (bind_by_id o)) w).1 in
        let whole₁ = insert_by_id-HasNoOrphan o w whole in
        elim (option_cases (session.execute (insert_by_id (bind_by_id o)) w).0) [
          | inr (message, e) ↦ rw e whole₁
          | inl e ↦ rw e (insert_by_user-HasNoOrphan o w₁ (keeps.by_id-insert o w e) whole₁)
        ]

    -- On two tables that keep their rows as `KeepsTables` and `WritesApart` say, a batch leaves no orphan
    -- where there was none, however it ends: also when a statement fails between the two tables, and
    -- when Cassandra has carried out a statement that it reports as failed.
    pub insert_batch-HasNoOrphan :
        (orders : List (Order D)) (w : S)
        → HasNoOrphan w
        → HasNoOrphan (insert_batch session orders w).1
    unfolding insert_batch
    insert_batch-HasNoOrphan [] w whole = whole
    insert_batch-HasNoOrphan (o ∷ orders) w whole =
        let whole₁ = insert_one-HasNoOrphan o w whole in
        elim (outcome_cases (insert_one session o w).0) [
          | inl (a, e) ↦ rw e (insert_batch-HasNoOrphan orders (insert_one session o w).1 whole₁)
          | inr (inl (x, e)) ↦ rw e whole₁
          | inr (inr e) ↦ rw e whole₁
        ]

    row_of_insert :
        (o : Order D) (w : S)
        → (insert_one session o w).0 ≡ ok tt
        → (x : Order D) × Memᴰ x (by_user (insert_one session o w).1 o.user_id)
          × (x.order_id ≡ o.order_id)
    unfolding insert_one run_statement check_future
    row_of_insert o w h =
        let w₁ = (session.execute (insert_by_id (bind_by_id o)) w).1 in
        elim (option_cases (session.execute (insert_by_id (bind_by_id o)) w).0) [
          | inr (message, e) ↦ absurd (throw≢ok _ tt (rw e at h))
          | inl e ↦ elim (option_cases (session.execute (insert_by_user (bind_by_user o)) w₁).0) [
            | inr (message, e') ↦ absurd (throw≢ok _ tt (rw (e, e') at h))
            | inl e' ↦ rw e (apart.by_user-insert_row o w₁ e')
          ]
        ]

    delete_orphans :
        (id : Text) (w : S)
        → (delete_by_primary_key session id w).0 ≡ ok tt
        → (by_id (delete_by_primary_key session id w).1 id ≡ none)
          × ((user : Text) → by_user (delete_by_primary_key session id w).1 user ≡ by_user w user)
    unfolding delete_by_primary_key run_statement check_future
    delete_orphans id w h =
        elim (option_cases (session.execute (delete_by_id (string id ∷ [])) w).0) [
          | inr (message, e) ↦ absurd (throw≢ok _ tt (rw e at h))
          | inl e ↦ (apart.by_id-delete id w e, apart.by_user-delete id w)
        ]

    -- On two tables that keep their rows as `KeepsTables` and `WritesApart` say, an order that was inserted
    -- and then deleted by its id, both by calls that returned, is gone from the first table and still
    -- has a row in the second: an orphan.
    pub delete-insert_one_orphan :
        (o : Order D) (w : S)
        → (insert_one session o w).0 ≡ ok tt
        → (delete_by_primary_key session o.order_id (insert_one session o w).1).0 ≡ ok tt
        → (by_id (delete_by_primary_key session o.order_id (insert_one session o w).1).1 o.order_id
            ≡ none)
          × ¬ HasNoOrphan (delete_by_primary_key session o.order_id (insert_one session o w).1).1
    delete-insert_one_orphan o w h h' =
        let w₁ = (insert_one session o w).1 in
        let w₂ = (delete_by_primary_key session o.order_id w₁).1 in
        let (x, row, same) = row_of_insert o w h in
        let (gone, rows) = delete_orphans o.order_id w₁ h' in
        (
          gone,
          λ whole.
              let (found, e) =
                whole o.user_id x (subst (λ xs. Memᴰ x xs) (sym (rows o.user_id)) row) in
              ground (arith, gone, ap (by_id w₂) same, e),
        )
