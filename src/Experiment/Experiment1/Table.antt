-- ===== src/Experiment/Experiment1/Table.antt =====
-- Which rows src/experiment/Experiment1.cpp leaves in the table.
use db_benchmark.Prelude.{
  ℕ, suc, ◌+◌, ◌-◌, ◌/◌, ◌≤◌, ◌≡◌, ◌≢◌, refl, ap, sym, ◌∙◌, min, List, [], ◌∷◌, ◌++◌, append-nil,
  append_assoc, arith, length, length-append, length-take, take, take-length, inl, inr,
}
use db_benchmark.Cpp.Outcome.{Outcome, ok, undefined, outcome_cases}
use db_benchmark.Cpp.Text.{text}
use db_benchmark.Cpp.Double.{Double}
use db_benchmark.Metrics.LatencyRecorder.{LatencyRecorder, record_latency}
use db_benchmark.Config.{BenchmarkConfig}
use db_benchmark.Data.Order.{Order}
use db_benchmark.Db.DbInterface.{DbInterface}
use db_benchmark.Metrics.LatencyRecorder.{count}
use db_benchmark.Db.Contract.{KeepsRows, TakesAll}
use db_benchmark.Experiment.Platform.{Platform, KeepsLatencies}
use db_benchmark.Experiment.ExperimentBase.{
  Experiment, on_recorder, start_clock, timed, timed_record, timed_loop,
}
use db_benchmark.Experiment.ExperimentBase.Execute.{execute_lem}
use db_benchmark.Experiment.Experiment1.{label, setup, run, run_experiment}

module _ {D S : Type 0} (m : Platform S) (db : DbInterface D S) (keeps : KeepsRows m db) where
  open keeps use {rows}

  -- the first `k` elements of the list were inserted, and each was recorded
  abbrev Inserted :
      List (Order D) → Outcome (Unit {0}) → S → LatencyRecorder → S → LatencyRecorder → ℕ → Type 0
  Inserted xs res w rec w' rec' k =
      (rows w' ≡ rows w ++ take k xs)
      × (length rec'.latencies_us ≡ length rec.latencies_us + k)
      × (k ≤ length xs)
      × (res ≡ ok tt → k ≡ length xs)

  Inserted-cons :
      (x : Order D) (xs : List (Order D)) (res : Outcome (Unit {0})) (w w₂ w' : S)
      → (us : ℕ) (rec rec' : LatencyRecorder) (k : ℕ) → rows w₂ ≡ rows w ++ x ∷ []
      → Inserted xs res w₂ (record_latency us rec) w' rec' k
      → Inserted (x ∷ xs) res w rec w' rec' (suc k)
  unfolding record_latency
  Inserted-cons x xs res w w₂ w' us rec rec' k added (all_rows, size, bound, full) = (
    all_rows ∙ ap (λ ys. ys ++ take k xs) added ∙ append_assoc (rows w) (x ∷ []) (take k xs),
    omega (arith, length-append rec.latencies_us (us ∷ [])),
    omega arith,
    λ e. ap suc (full e),
  )

  rows-before : (w : S) (ys : List (Order D)) → ys ≡ [] → rows w ≡ rows w ++ ys
  rows-before w ys e = rw e (sym (append-nil (rows w)))

  rows-timed :
      (x : Order D) (w : S)
      → (db.insert_one x (m.now w).1).0 ≡ ok tt
      → rows (m.now (db.insert_one x (m.now w).1).1).1 ≡ rows w ++ x ∷ []
  rows-timed x w e =
      keeps.rows-now _
      ∙ keeps.rows-insert_one x (m.now w).1 e
      ∙ ap (λ ys. ys ++ x ∷ []) (keeps.rows-now w)

  -- A loop of timed inserts into a database that keeps its rows as `KeepsRows` says, from any state,
  -- that ends in a defined way: the rows it added to the table are the first orders of its list, as
  -- many as the latencies it recorded, and all of them if it returned.
  pub insert_loop :
      (xs : List (Order D)) (w : S) (rec : LatencyRecorder)
      → (k : ℕ) × ((timed_loop m db.insert_one xs (w, rec)).0 ≢ undefined
          → Inserted xs
              (timed_loop m db.insert_one xs (w, rec)).0
              w
              rec
              (timed_loop m db.insert_one xs (w, rec)).1.0
              (timed_loop m db.insert_one xs (w, rec)).1.1
              k)
  unfolding timed_loop timed_record timed
  insert_loop [] w rec = (0, λ h. (rows-before w [] refl, omega arith, omega arith, λ e. refl))
  insert_loop (x ∷ xs) w rec =
      let w₁ = (m.now w).1 in
      let w₂ = (m.now (db.insert_one x w₁).1).1 in
      let us = ((m.now (db.insert_one x w₁).1).0 - (m.now w).0) / 1000 in
      elim (outcome_cases (db.insert_one x w₁).0) [
        | inl (u, e) ↦
            let (k, rest) = insert_loop xs w₂ (record_latency us rec) in
            rw e (
              suc k,
              λ h.
                  Inserted-cons x xs _ w w₂ _ us rec
                    (timed_loop m db.insert_one xs (w₂, record_latency us rec)).1.1 k
                    (rows-timed x w e) (rest h),
            )
        | inr (inl (x', e)) ↦ rw e (
          0,
          λ h. (
            keeps.rows-insert_one_failed x w₁ x' e ∙ keeps.rows-now w ∙ rows-before w [] refl,
            omega arith,
            omega arith,
            λ returned. ground arith,
          ),
        )
        | inr (inr e) ↦ rw e (0, λ h. absurd (h refl))
      ]

  -- the orders that the experiment is to insert
  abbrev pub to_insert : List (Order D) → BenchmarkConfig → List (Order D)
  to_insert dataset config = take (min (length dataset) config.total_rows) dataset

  -- the loop of the experiment, behind `clear_table` and the start of the timer
  abbrev pub inserting :
      List (Order D) → S → LatencyRecorder → Outcome (Unit {0}) × (S × LatencyRecorder)
  inserting xs w rec =
      let (rec', w') = m.start_timer rec (db.clear_table w).1 in
      timed_loop m db.insert_one xs (w', rec')

  -- the experiment, if `clear_table` and the loop return
  pub run_experiment_returns :
      ⦃d : Double D⦄
      → (dataset : List (Order D)) (config : BenchmarkConfig) (e : Experiment D S (Unit {0}))
      → KeepsLatencies m
      → e.recorder.latencies_us ≡ []
      → (db.clear_table e.world).0 ≡ ok tt
      → (inserting (to_insert dataset config) e.world e.recorder).0 ≡ ok tt
      → (e' : Experiment D S (Unit {0})) × (run_experiment m db dataset config e ≡ (ok tt, e'))
        × (rows e'.world ≡ to_insert dataset config)
        × (e'.result.total_ops ≡ min (length dataset) config.total_rows)
        × (e'.result.operation ≡ text "insert")
        × (e'.result.database ≡ db.get_db_name)
  unfolding run_experiment run on_recorder setup label start_clock count
  run_experiment_returns dataset config e latencies fresh cleared returned =
      let n = min (length dataset) config.total_rows in
      let xs = take n dataset in
      let w₁ = (db.clear_table e.world).1 in
      let e₁ = (label m db dataset config (record e { world = w₁ })).1 in
      let (rec, w₂) = m.start_timer e.recorder w₁ in
      let loop = timed_loop m db.insert_one xs (w₂, rec) in
      let e₂ : Experiment D S (Unit {0}) = record e₁ { world = loop.1.0; recorder = loop.1.1 } in
      let (k, inserted) = insert_loop xs w₂ rec in
      let (all_rows, recorded, bound, full) = inserted (rw returned (λ h. ground arith)) in
      let (e₃, done, world, ops, operation, database) =
        (execute_lem m (setup m db dataset config) (run m db dataset config) e e₁).0 e₂
          (rw cleared refl) (rw returned refl) in
      let taken : rows loop.1.0 ≡ [] ++ xs =
        all_rows
        ∙ ap (λ ys. ys ++ take k xs)
            (keeps.rows-start_timer e.recorder w₁ ∙ keeps.rows-clear_table e.world cleared)
        ∙ ap (λ j. take j xs) (full returned)
        ∙ take-length xs in
      let begun : length rec.latencies_us ≡ 0 =
        ap length (latencies.latencies-start_timer e.recorder w₁ ∙ fresh) in
      (
        e₃,
        done,
        ap rows world ∙ keeps.rows-now loop.1.0 ∙ taken,
        omega (arith, ops, recorded, begun, full returned, length-take n dataset),
        operation,
        database,
      )

  module _ (takes : TakesAll db) where
    pub insert_loop_returns :
        (xs : List (Order D)) (w : S) (rec : LatencyRecorder)
        → (timed_loop m db.insert_one xs (w, rec)).0 ≡ ok tt
    unfolding timed_loop timed_record timed
    insert_loop_returns [] w rec = refl
    insert_loop_returns (x ∷ xs) w rec =
        rw (takes.insert_one-ok x (m.now w).1) (insert_loop_returns xs _ _)

    -- On a database that keeps its rows as `KeepsRows` says and takes every order, with timers that
    -- leave the latencies alone, the experiment returns from any state whose recorder is fresh; the
    -- table then holds the first `total_rows` orders of the dataset, or all of them if it has fewer, in
    -- order and whatever it held before; `total_ops` is their number, and the result names the
    -- operation and the database.
    pub run_experiment_lem :
        ⦃d : Double D⦄
        → (dataset : List (Order D)) (config : BenchmarkConfig) (e : Experiment D S (Unit {0}))
        → KeepsLatencies m
        → e.recorder.latencies_us ≡ []
        → (e' : Experiment D S (Unit {0})) × (run_experiment m db dataset config e ≡ (ok tt, e'))
          × (rows e'.world ≡ take (min (length dataset) config.total_rows) dataset)
          × (e'.result.total_ops ≡ min (length dataset) config.total_rows)
          × (e'.result.operation ≡ text "insert")
          × (e'.result.database ≡ db.get_db_name)
    run_experiment_lem dataset config e latencies fresh =
        run_experiment_returns dataset config e latencies fresh (takes.clear_table-ok e.world)
          (insert_loop_returns (to_insert dataset config) _ _)
