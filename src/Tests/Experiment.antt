-- ===== src/Tests/Experiment.antt =====
-- Runs of the model of src/experiment.
use db_benchmark.Prelude.{
  ℕ, ◌≤◌, ◌+◌, ◌≡◌, ◌≢◌, refl, inl, Bool, List, [], ◌∷◌, arith, length, map, take, count_if, ltb,
}
use db_benchmark.Cpp.Outcome.{ok, undefined}
use db_benchmark.Cpp.Method.{Method, pure}
use db_benchmark.Cpp.Text.{text}
use db_benchmark.Cpp.Milli.{Milli, milli}
use db_benchmark.Metrics.LatencyRecorder.{LatencyRecorder, new_recorder, record_latency}
use db_benchmark.Experiment.ExperimentBase.{Experiment, timed_loop}
use db_benchmark.Experiment.ExperimentBase.Timing.{Recorded, timed_loop-Recorded}
use db_benchmark.Experiment.Experiment1
use db_benchmark.Experiment.Experiment1.Table.{insert_loop, run_experiment_lem}
use db_benchmark.Experiment.Experiment2.{
  Worker, worker, recorder, slice, end_idx, start_idx, here, there, Turns, stop, turn, throws_here,
  throws_there, Terminates, terminate, slices, spawn, rows_to_insert,
}
use db_benchmark.Experiment.Experiment2.Threads.{terminated_within, inserted_once}
use db_benchmark.Experiment.Experiment2.Run
use db_benchmark.Experiment.Experiment2.Run.{Handle, shared}
use db_benchmark.Experiment.Experiment2.Ends.{run_experiment_never}
use db_benchmark.Experiment.Experiment3
use db_benchmark.Experiment.Experiment3.ColdReads.{setup_lem}
use db_benchmark.Tests.Machine.{
  Machine, counter, counter-IsUniform, platform, platform-KeepsLatencies, order, database,
  database-KeepsRows, database-TakesAll, dataset, machine, config, experiment,
}

timed_loop-Recorded_example :
    Recorded
      (timed_loop platform database.insert_one dataset (machine, new_recorder)).0
      new_recorder
      (timed_loop platform database.insert_one dataset (machine, new_recorder)).1.1
      3
timed_loop-Recorded_example =
    timed_loop-Recorded platform database.insert_one dataset machine new_recorder

insert_loop_example :
    (k : ℕ) × ((timed_loop platform database.insert_one dataset (machine, new_recorder)).0
        ≢ undefined
      → ((timed_loop platform database.insert_one dataset (machine, new_recorder)).1.0.table
          ≡ order (text "old") ∷ take k dataset)
        × (length
              (timed_loop platform database.insert_one dataset
                (machine, new_recorder)).1.1.latencies_us
            ≡ 0 + k)
        × (k ≤ 3)
        × ((timed_loop platform database.insert_one dataset (machine, new_recorder)).0 ≡ ok tt
            → k ≡ 3))
unfolding new_recorder
insert_loop_example = insert_loop platform database database-KeepsRows dataset machine new_recorder

run_experiment_lem_example :
    (e' : Experiment Milli Machine (Unit {0})) × (Experiment1.run_experiment platform database
        dataset config
        (experiment tt)
      ≡ (ok tt, e'))
    × (e'.world.table ≡ order (text "a") ∷ order (text "b") ∷ [])
    × (e'.result.total_ops ≡ 2)
    × (e'.result.operation ≡ text "insert")
    × (e'.result.database ≡ text "postgres")
unfolding new_recorder
run_experiment_lem_example =
    run_experiment_lem platform database database-KeepsRows database-TakesAll dataset config
      (experiment tt) platform-KeepsLatencies refl

setup_lem_example :
    (Experiment3.setup counter platform database dataset config (experiment [])).0 ≡ ok tt
setup_lem_example =
    (((setup_lem counter counter-IsUniform platform database dataset config (experiment [])
          (omega arith) (inl refl)).2
        refl).1)
      refl

-- Two threads with three orders: the second goes first.
abbrev orders : List ℕ
orders = 1 ∷ 2 ∷ 3 ∷ []

abbrev at_end : List (Worker ℕ)
at_end =
    worker [] (record_latency 4 new_recorder)
    ∷ worker [] (record_latency 6 (record_latency 5 new_recorder))
    ∷ []

three_inserts : Turns (spawn 2 9 orders) [] at_end (2 ∷ 1 ∷ 3 ∷ [])
unfolding spawn slices new_recorder slice end_idx start_idx
three_inserts = turn [] (there (worker (1 ∷ []) new_recorder) (here 2 (3 ∷ []) new_recorder 5 [])) (
    turn (2 ∷ []) (here 1 [] new_recorder 4 (worker (3 ∷ []) (record_latency 5 new_recorder) ∷ []))
      (turn (2 ∷ 1 ∷ [])
        (there (worker [] (record_latency 4 new_recorder))
          (here 3 [] (record_latency 5 new_recorder) 6 []))
        (stop at_end (2 ∷ 1 ∷ 3 ∷ []))))

inserted_once_example :
    ((p : ℕ → Bool) → count_if p (2 ∷ 1 ∷ 3 ∷ []) ≡ count_if p orders)
    × (map (λ w. length (recorder w).latencies_us) at_end
        ≡ map length (slices 2 (rows_to_insert 3 9) orders 2 0))
inserted_once_example = inserted_once 2 9 orders (omega arith) three_inserts (refl, (refl, tt))

-- The insert of the second order throws in the second thread, behind one turn of the first.
second_throws : Terminates (spawn 2 9 orders) [] 2 (1 ∷ [])
unfolding spawn slices new_recorder slice end_idx start_idx
second_throws =
    terminate
      (turn [] (here 1 [] new_recorder 4 (worker (2 ∷ 3 ∷ []) new_recorder ∷ [])) (
        stop (worker [] (record_latency 4 new_recorder) ∷ worker (2 ∷ 3 ∷ []) new_recorder ∷ [])
          (1 ∷ [])))
      (throws_there (worker [] (record_latency 4 new_recorder))
        (throws_here 2 (3 ∷ []) new_recorder []))

terminated_within_example : count_if (λ n. ltb n 3) (1 ∷ 2 ∷ []) ≤ count_if (λ n. ltb n 3) orders
terminated_within_example = terminated_within 2 9 orders (omega arith) second_throws (λ n. ltb n 3)

-- every thread has the database of the experiment
abbrev shared_connection : ℕ → Method Machine (Handle Milli Machine)
shared_connection i = pure shared

abbrev no_threads :
    List (Handle Milli Machine) → List LatencyRecorder → Machine → List LatencyRecorder × Machine
no_threads connections recorders w = (recorders, w)

run_experiment_never_example :
    (Run.run_experiment platform database dataset config shared_connection no_threads
      (experiment Run.new_own)).0
    ≢ ok tt
run_experiment_never_example =
    run_experiment_never platform database dataset config shared_connection no_threads
      (experiment Run.new_own)
