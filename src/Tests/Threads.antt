-- ===== src/Tests/Threads.antt =====
-- A run of the model of src/experiment/Experiment2.cpp: two threads with three dataset.
use db_benchmark.Prelude.{ℕ, ◌≡◌, refl, List, [], ◌∷◌, arith, map}
use db_benchmark.Cpp.Outcome.{ok, undefined}
use db_benchmark.Cpp.Method.{Method, pure}
use db_benchmark.Cpp.Text.{text}
use db_benchmark.Cpp.Milli.{Milli, milli}
use db_benchmark.Metrics.BenchmarkResult.{BenchmarkResult}
use db_benchmark.Metrics.LatencyRecorder.{LatencyRecorder, new_recorder, record_latency}
use db_benchmark.Metrics.MetricsCollector.{merged_local, merge_thread_results}
use db_benchmark.Config.{BenchmarkConfig}
use db_benchmark.Data.Order.{Order}
use db_benchmark.Experiment.ExperimentBase.{Experiment}
use db_benchmark.Experiment.Experiment2.{
  Worker, worker, recorder, slice, end_idx, start_idx, here, there, Turns, stop, turn, slices,
  spawn, rows_to_insert,
}
use db_benchmark.Experiment.Experiment2.Run.{Handle, shared, Own, run_threads}
use db_benchmark.Experiment.Experiment2.Merged.{merged_total}
use db_benchmark.Tests.Machine.{
  Machine, platform, platform-KeepsLatencies, order, database, dataset, config, experiment,
}

abbrev a : Order Milli
a = order (text "a")

abbrev b : Order Milli
b = order (text "b")

abbrev c : Order Milli
c = order (text "c")

abbrev two_threads : BenchmarkConfig
two_threads = record config { thread_count = 2; total_rows = 9 }

abbrev at_end : List (Worker (Order Milli))
at_end =
    worker [] (record_latency 4 new_recorder)
    ∷ worker [] (record_latency 6 (record_latency 5 new_recorder))
    ∷ []

-- the second thread goes first
second_first : Turns (spawn 2 9 dataset) [] at_end (b ∷ a ∷ c ∷ [])
unfolding spawn slices new_recorder slice end_idx start_idx
second_first = turn [] (there (worker (a ∷ []) new_recorder) (here b (c ∷ []) new_recorder 5 [])) (
    turn (b ∷ []) (here a [] new_recorder 4 (worker (c ∷ []) (record_latency 5 new_recorder) ∷ []))
      (turn (b ∷ a ∷ [])
        (there (worker [] (record_latency 4 new_recorder))
          (here c [] (record_latency 5 new_recorder) 6 []))
        (stop at_end (b ∷ a ∷ c ∷ []))))

abbrev shared_connection : ℕ → Method Machine (Handle Milli Machine)
shared_connection i = pure shared

abbrev threads :
    List (Handle Milli Machine) → List LatencyRecorder → Machine → List LatencyRecorder × Machine
threads connections recorders w = (map recorder at_end, record w { table = b ∷ a ∷ c ∷ [] })

abbrev started : Experiment Milli Machine (Own Milli Machine)
started = experiment (record {
  thread_connections = shared ∷ shared ∷ [];
  thread_recorders = new_recorder ∷ new_recorder ∷ [];
})

merged_total_example :
    (merged : BenchmarkResult Milli) × (merged_local
        (run_threads platform database dataset two_threads shared_connection threads
          started).1.own.thread_recorders
        started.result
      ≡ ok merged)
    × (merged.total_ops ≡ 3)
    × (merge_thread_results
          (run_threads platform database dataset two_threads shared_connection threads
            started).1.own.thread_recorders
          started.result
        ≡ undefined)
unfolding rows_to_insert
merged_total_example =
    merged_total platform database dataset two_threads shared_connection threads started
      platform-KeepsLatencies (omega arith) second_first (refl, (refl, tt)) refl
