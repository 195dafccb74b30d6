-- ===== src/Db/PostgresClient/Batch.antt =====
-- The transaction of `insert_batch` of src/db/PostgresClient.cpp.
use db_benchmark.Prelude.{
  ◌≡◌, refl, ap, ◌∙◌, sym, subst, Bool, true, false, Bool-cases, List, [], ◌∷◌, ◌++◌, append-nil,
  append_assoc, map, ◌⊎◌, inl, inr,
}
use db_benchmark.Cpp.Outcome.{Exception, Outcome, ok, throw, undefined, outcome_cases}
use db_benchmark.Cpp.Method.{Method, ◌>>◌}
use db_benchmark.Cpp.Text.{Text, text}
use db_benchmark.Data.Order.{Order}
use db_benchmark.Experiment.ExperimentBase.Timing.{throw≢ok, undefined≢ok}
use db_benchmark.Db.PostgresClient.{
  Parameter, Connection, column_names, parameters_of, stream_orders, batch_body, leave,
  insert_batch,
}

-- What libpqxx and PostgreSQL document of a transaction, with the rows of the table that are
-- committed and those that the transaction has streamed: nothing but a commit changes the committed
-- rows; one that returns adds the streamed ones, and one that throws adds nothing, unless it throws
-- the `pqxx::in_doubt_error`, where the connection was lost and they may have been added.
pub record IsTransactional {D S : Type 0} (c : Connection D S) : Type 0 where
  pub is_in_doubt : Exception → Bool
  pub committed : S → List (List (Parameter D))
  pub streamed : S → List (List (Parameter D))
  pub committed-begin : (w : S) → committed (c.begin w).1 ≡ committed w
  pub streamed-begin : (w : S) → (c.begin w).0 ≡ ok tt → streamed (c.begin w).1 ≡ []
  pub committed-open_stream :
      (name : Text) (columns : List Text) (w : S)
      → committed (c.open_stream name columns w).1 ≡ committed w
  pub streamed-open_stream :
      (name : Text) (columns : List Text) (w : S)
      → (c.open_stream name columns w).0 ≡ ok tt
      → streamed (c.open_stream name columns w).1 ≡ streamed w
  pub committed-stream_row :
      (row : List (Parameter D)) (w : S) → committed (c.stream_row row w).1 ≡ committed w
  pub streamed-stream_row :
      (row : List (Parameter D)) (w : S)
      → (c.stream_row row w).0 ≡ ok tt
      → streamed (c.stream_row row w).1 ≡ streamed w ++ row ∷ []
  pub committed-complete : (w : S) → committed (c.complete w).1 ≡ committed w
  pub streamed-complete :
      (w : S) → (c.complete w).0 ≡ ok tt → streamed (c.complete w).1 ≡ streamed w
  pub committed-commit :
      (w : S) → (c.commit w).0 ≡ ok tt → committed (c.commit w).1 ≡ committed w ++ streamed w
  pub committed-commit_failed :
      (w : S) (e : Exception)
      → (c.commit w).0 ≡ throw e
      → is_in_doubt e ≡ false
      → committed (c.commit w).1 ≡ committed w
  pub committed-commit_in_doubt :
      (w : S) (e : Exception)
      → (c.commit w).0 ≡ throw e
      → is_in_doubt e ≡ true
      → (committed (c.commit w).1 ≡ committed w)
        ⊎ (committed (c.commit w).1 ≡ committed w ++ streamed w)
  pub committed-abort : (w : S) → committed (c.abort w) ≡ committed w

module _ {D S : Type 0} (c : Connection D S) (laws : IsTransactional c) where
  open laws use {is_in_doubt, committed, streamed}

  -- no row is committed, or, if the exception is of a commit in doubt, all are
  abbrev Spares : S → List (List (Parameter D)) → Exception → S → Type 0
  Spares w₀ rows e w =
      (committed w ≡ committed w₀) ⊎ ((is_in_doubt e ≡ true) × (committed w ≡ committed w₀ ++ rows))

  -- the rows are committed if the call returns, and spared if it throws
  abbrev Ends : S → List (List (Parameter D)) → Outcome (Unit {0}) × S → Type 0
  Ends w₀ rows (res, w) =
      (res ≡ ok tt → committed w ≡ committed w₀ ++ rows)
      × ((e : Exception) → res ≡ throw e → Spares w₀ rows e w)

  Ends-then :
      (op rest : Method S (Unit {0})) (w w₀ : S) (rows : List (List (Parameter D)))
      → committed (op w).1 ≡ committed w₀
      → ((op w).0 ≡ ok tt → Ends w₀ rows (rest (op w).1))
      → Ends w₀ rows ((op >> rest) w)
  Ends-then op rest w w₀ rows same goes_on = elim (outcome_cases (op w).0) [
    | inl (a, e) ↦ rw e (goes_on e)
    | inr (inl (x, e)) ↦ rw e (λ h. absurd (throw≢ok x tt h), λ x h. inl same)
    | inr (inr e) ↦ rw e (λ h. absurd (undefined≢ok tt h), λ x h. inl same)
  ]

  stream_orders_lem :
      (orders : List (Order D)) (w : S)
      → (committed (stream_orders c orders w).1 ≡ committed w)
        × ((stream_orders c orders w).0 ≡ ok tt
            → streamed (stream_orders c orders w).1 ≡ streamed w ++ map parameters_of orders)
  unfolding stream_orders
  stream_orders_lem [] w = (refl, λ h. sym (append-nil (streamed w)))
  stream_orders_lem (o ∷ orders) w =
      let row = parameters_of o in
      let w₁ = (c.stream_row row w).1 in
      let same = laws.committed-stream_row row w in
      elim (outcome_cases (c.stream_row row w).0) [
        | inl (a, e) ↦
            let (kept, added) = stream_orders_lem orders w₁ in
            rw e (
              kept ∙ same,
              λ h.
                  added h
                  ∙ ap (λ rows. rows ++ map parameters_of orders) (laws.streamed-stream_row row w e)
                  ∙ append_assoc (streamed w) (row ∷ []) (map parameters_of orders),
            )
        | inr (inl (x, e)) ↦ rw e (same, λ h. absurd (throw≢ok x tt h))
        | inr (inr e) ↦ rw e (same, λ h. absurd (undefined≢ok tt h))
      ]

  commit-Ends :
      (w w₀ : S) (rows : List (List (Parameter D)))
      → committed w ≡ committed w₀
      → streamed w ≡ rows
      → Ends w₀ rows (c.commit w)
  commit-Ends w w₀ rows same all_rows = (
    λ h.
        laws.committed-commit w h
        ∙ ap (λ old. old ++ streamed w) same
        ∙ ap (λ new. committed w₀ ++ new) all_rows,
    λ e h. elim (Bool-cases (is_in_doubt e)) [
      | inr sure ↦ inl (laws.committed-commit_failed w e h sure ∙ same)
      | inl doubt ↦ elim (laws.committed-commit_in_doubt w e h doubt) [
        | inl kept ↦ inl (kept ∙ same)
        | inr added ↦ inr (
          doubt,
          added ∙ ap (λ old. old ++ streamed w) same ∙ ap (λ new. committed w₀ ++ new) all_rows,
        )
      ]
    ],
  )

  -- the body of the transaction, from any state of the stream
  batch_body-Ends :
      (orders : List (Order D)) (w : S)
      → streamed w ≡ []
      → Ends w (map parameters_of orders) (batch_body c orders w)
  unfolding batch_body
  batch_body-Ends orders w none =
      let w₁ = (c.open_stream (text "orders") column_names w).1 in
      let w₂ = (stream_orders c orders w₁).1 in
      let same₁ = laws.committed-open_stream (text "orders") column_names w in
      let (same₂, added) = stream_orders_lem orders w₁ in
      let rows = map parameters_of orders in
      Ends-then (c.open_stream (text "orders") column_names) _ w w rows same₁ (λ opened.
        Ends-then (stream_orders c orders) _ w₁ w rows (same₂ ∙ same₁) (λ written.
          Ends-then c.complete c.commit w₂ w rows (laws.committed-complete w₂ ∙ same₂ ∙ same₁)
            (λ completed.
              commit-Ends (c.complete w₂).1 w rows (laws.committed-complete w₂ ∙ same₂ ∙ same₁) (
                laws.streamed-complete w₂ completed
                ∙ added written
                ∙ ap (λ old. old ++ rows)
                    (laws.streamed-open_stream (text "orders") column_names w opened ∙ none)))))

  Ends-leave :
      (w₀ : S) (rows : List (List (Parameter D))) (res : Outcome (Unit {0})) (w : S)
      → Ends w₀ rows (res, w)
      → Ends w₀ rows (leave c res w)
  Ends-leave w₀ rows (ok a) w ends = ends
  Ends-leave w₀ rows (throw e) w (full, spared) = (
    λ h. absurd (throw≢ok e tt h),
    λ x h. elim (spared x h) [
      | inl kept ↦ inl (laws.committed-abort w ∙ kept)
      | inr (doubt, added) ↦ inr (doubt, laws.committed-abort w ∙ added)
    ],
  )
  Ends-leave w₀ rows undefined w ends = ends

  -- A batch is inserted as a whole or not at all: if `insert_batch` returns, the committed rows are
  -- those of before and behind them the values of the orders, in order; if it throws, wherever in the
  -- transaction, the committed rows are those of before, or, where the exception is that of a commit in
  -- doubt, they may be the same as after a return.
  pub insert_batch_whole :
      (orders : List (Order D)) (w : S)
      → ((insert_batch c orders w).0 ≡ ok tt
          → committed (insert_batch c orders w).1 ≡ committed w ++ map parameters_of orders)
        × ((e : Exception)
            → (insert_batch c orders w).0 ≡ throw e
            → (committed (insert_batch c orders w).1 ≡ committed w)
              ⊎ ((is_in_doubt e ≡ true)
                  × (committed (insert_batch c orders w).1
                      ≡ committed w ++ map parameters_of orders)))
  unfolding insert_batch
  insert_batch_whole orders w =
      let rows = map parameters_of orders in
      let w₁ = (c.begin w).1 in
      let body = batch_body c orders w₁ in
      Ends-then c.begin (λ v. leave c (batch_body c orders v).0 (batch_body c orders v).1) w w rows
        (laws.committed-begin w)
        (λ begun. Ends-leave w rows body.0 body.1 (
          subst
            (λ old.
              ((body.0 ≡ ok tt → committed body.1 ≡ old ++ rows)
                × ((e : Exception)
                    → body.0 ≡ throw e
                    → (committed body.1 ≡ old)
                      ⊎ ((is_in_doubt e ≡ true) × (committed body.1 ≡ old ++ rows)))))
            (laws.committed-begin w) (batch_body-Ends orders w₁ (laws.streamed-begin w begun))))
