-- ===== src/Experiment/Experiment4/OnCassandra.antt =====
-- How src/experiment/Experiment4.cpp runs on the database of src/db/CassandraClient.cpp.
use db_benchmark.Prelude.{◌<◌, ◌≡◌, ◌≢◌, ap, List, ◌∷◌, ◌++◌, length, inl, inr}
use db_benchmark.Prelude.Int.{ℤ}
use db_benchmark.Cpp.Outcome.{ok, outcome_cases}
use db_benchmark.Cpp.Text.{Text}
use db_benchmark.Cpp.Double.{Double}
use db_benchmark.Cpp.Random.{Random}
use db_benchmark.Metrics.LatencyRecorder.{LatencyRecorder}
use db_benchmark.Config.{DatabaseConfig, BenchmarkConfig}
use db_benchmark.Data.Order.{Order}
use db_benchmark.Db.CassandraClient.{Session, check_future}
use db_benchmark.Db.CassandraClient.Client.{
  answer_cases, Select, select_by_id, select_by_user, Driver, run_select, find_by_primary_key,
  find_by_secondary_key, cassandra,
}
use db_benchmark.Db.CassandraClient.Tables.{KeepsTables, orders_of_undefined}
use db_benchmark.Experiment.Platform.{Platform}
use db_benchmark.Experiment.ExperimentBase.{Experiment, timed_phase}
use db_benchmark.Experiment.ExperimentBase.Timing.{
  throw≢ok, undefined≢ok, timed_phase_stops, timed_phase_keeps,
}
use db_benchmark.Experiment.Experiment4.{Own, primary_reads, secondary_reads, run}

-- Reads, the clock and the timers leave the second table alone.
pub record LeavesTables {D S : Type 0} (m : Platform S) (session : Session D S)
    (driver : Driver D S) (keeps : KeepsTables session driver) : Type 0 where
  pub by_user-now : (w : S) → keeps.by_user (m.now w).1 ≡ keeps.by_user w
  pub by_user-start_timer :
      (rec : LatencyRecorder) (w : S) → keeps.by_user (m.start_timer rec w).1 ≡ keeps.by_user w
  pub by_user-select :
      (query : Select) (w : S) → keeps.by_user (driver.select query w).1 ≡ keeps.by_user w

module _ {D S : Type 0} (m : Platform S) (session : Session D S) (driver : Driver D S)
    (keeps : KeepsTables session driver) (leaves : LeavesTables m session driver keeps) where
  -- a look-up of a user who has an order does not return
  find_never :
      (user : Text) (w : S) (orders : List (Order D))
      → 0 < length (keeps.by_user w user)
      → (find_by_secondary_key driver user w).0 ≢ ok orders
  unfolding find_by_secondary_key run_select check_future
  find_never user w orders some = elim (answer_cases (driver.select (select_by_user user) w).0) [
    | inl (rows, e) ↦
        let (size, texts) = keeps.select-by_user user w rows e in
        rw (e, orders_of_undefined rows (rw size some) texts) (undefined≢ok orders)
    | inr (message, e) ↦ rw e (throw≢ok _ orders)
  ]

  by_user-find_by_secondary_key :
      (user : Text) (w : S)
      → keeps.by_user (find_by_secondary_key driver user w).1 ≡ keeps.by_user w
  unfolding find_by_secondary_key run_select check_future
  by_user-find_by_secondary_key user w =
      let kept = leaves.by_user-select (select_by_user user) w in
      elim (answer_cases (driver.select (select_by_user user) w).0) [
        | inl (rows, e) ↦ rw e kept
        | inr (message, e) ↦ rw e kept
      ]

  by_user-find_by_primary_key :
      (amount : D) (quantity : ℤ) (id : Text) (w : S)
      → keeps.by_user (find_by_primary_key driver amount quantity id w).1 ≡ keeps.by_user w
  unfolding find_by_primary_key run_select check_future
  by_user-find_by_primary_key amount quantity id w =
      let kept = leaves.by_user-select (select_by_id id) w in
      elim (answer_cases (driver.select (select_by_id id) w).0) [
        | inl (rows, e) ↦ rw e kept
        | inr (message, e) ↦ rw e kept
      ]

  -- On Cassandra, over two tables that keep their rows as `KeepsTables` says and that `LeavesTables`, the
  -- experiment cannot run: from any state whose sample of users has one with an order in the second
  -- table, `run` does not return, whatever the driver answers to the other reads.
  pub run_on_cassandra_never :
      ⦃d : Double D⦄ (r : Random D) (dataset : List (Order D)) (config : BenchmarkConfig)
      (login : DatabaseConfig) (amount : D) (quantity : ℤ) (e : Experiment D S Own)
      (before after : List Text) (user : Text)
      → e.own.secondary_sample_ids ≡ before ++ user ∷ after
      → 0 < length (keeps.by_user e.world user)
      → (run r m (cassandra session driver login amount quantity) dataset config e).0 ≢ ok tt
  unfolding run primary_reads secondary_reads cassandra
  run_on_cassandra_never r dataset config login amount quantity e before after user sampled some =
      let db = cassandra session driver login amount quantity in
      let v = keeps.by_user e.world in
      let first =
        timed_phase m (find_by_primary_key driver amount quantity) e.own.primary_sample_ids
          (e.world, e.own.primary_recorder) in
      let stands : keeps.by_user first.1.0 ≡ v =
        timed_phase_keeps m (find_by_primary_key driver amount quantity) keeps.by_user
          leaves.by_user-now leaves.by_user-start_timer
          (by_user-find_by_primary_key amount quantity) e.own.primary_sample_ids e.world
          e.own.primary_recorder in
      let stops =
        timed_phase_stops m (find_by_secondary_key driver) keeps.by_user v leaves.by_user-now
          leaves.by_user-start_timer by_user-find_by_secondary_key user
          (λ w orders same.
            find_never user w orders (rw (ap (λ rows. length (rows user)) same) some))
          before after first.1.0 e.own.secondary_recorder stands in
      elim (outcome_cases first.0) [
        | inl (a, ok₁) ↦ rw (ok₁, sampled) stops
        | inr (inl (x, threw)) ↦ rw threw (throw≢ok x tt)
        | inr (inr undef) ↦ rw undef (undefined≢ok tt)
      ]
