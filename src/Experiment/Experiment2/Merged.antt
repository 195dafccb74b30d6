-- ===== src/Experiment/Experiment2/Merged.antt =====
-- What the threads of src/experiment/Experiment2.cpp leave in their recorders, and what the merge of
-- src/metrics/MetricsCollector.cpp counts there.
use db_benchmark.Prelude.{
  ℕ, zero, suc, ◌+◌, ◌<◌, ◌%◌, ◌^◌, ◌≡◌, refl, ap, sym, ◌∙◌, List, [], ◌∷◌, arith, length,
  length-append, length-take, length-map, map, min,
}
use db_benchmark.Cpp.Outcome.{ok, undefined}
use db_benchmark.Cpp.Method.{Method}
use db_benchmark.Cpp.Double.{Double}
use db_benchmark.Metrics.BenchmarkResult.{BenchmarkResult}
use db_benchmark.Metrics.LatencyRecorder.{LatencyRecorder, count, stop_timer}
use db_benchmark.Metrics.MetricsCollector.{
  total_ops_of, merge_stats, merged_local, merge_thread_results,
}
use db_benchmark.Metrics.MetricsCollector.Merge.{
  ops_in, thread_stats_total, merge_thread_results_never_returns,
}
use db_benchmark.Config.{BenchmarkConfig}
use db_benchmark.Data.Order.{Order}
use db_benchmark.Db.DbInterface.{DbInterface}
use db_benchmark.Experiment.Platform.{Platform, KeepsLatencies}
use db_benchmark.Experiment.ExperimentBase.{Experiment}
use db_benchmark.Experiment.Experiment2.{Worker, recorder, Turns, slices, spawn, rows_to_insert}
use db_benchmark.Experiment.Experiment2.Slices.{concat, concat-slices}
use db_benchmark.Experiment.Experiment2.Threads.{IsFinished, inserted_once}
use db_benchmark.Experiment.Experiment2.Run.{Handle, Own, restart_timers, run_threads}

total : List ℕ → ℕ
total [] = 0
total (n ∷ ns) = n + total ns

module _ {O : Type 0} where
  length-concat : (xss : List (List O)) → length (concat xss) ≡ total (map length xss)
  unfolding concat total
  length-concat [] = refl
  length-concat (xs ∷ xss) = omega (arith, length-append xs (concat xss), length-concat xss)

  ops_in-recorders :
      (ws : List (Worker O))
      → ops_in (map recorder ws) ≡ total (map (λ w. length (recorder w).latencies_us) ws)
  unfolding total count
  ops_in-recorders [] = refl
  ops_in-recorders (w ∷ ws) = omega (arith, ops_in-recorders ws)

  length-slices :
      (n total : ℕ) (dataset : List O) (c t : ℕ) → length (slices n total dataset c t) ≡ c
  unfolding slices
  length-slices n total dataset zero t = refl
  length-slices n total dataset (suc c) t = ap suc (length-slices n total dataset c (suc t))

module _ {S : Type 0} (m : Platform S) (timers : KeepsLatencies m) where
  restart_timers-ops_in :
      (recorders : List LatencyRecorder) (w : S)
      → ops_in (restart_timers m recorders w).0 ≡ ops_in recorders
  unfolding restart_timers count stop_timer
  restart_timers-ops_in [] w = refl
  restart_timers-ops_in (r ∷ rs) w =
      let (r₁, w₁) = m.start_timer r w in
      omega
        (arith, restart_timers-ops_in rs (m.now w₁).1, ap length (timers.latencies-start_timer r w))

  length-restart_timers :
      (recorders : List LatencyRecorder) (w : S)
      → length (restart_timers m recorders w).0 ≡ length recorders
  unfolding restart_timers
  length-restart_timers [] w = refl
  length-restart_timers (r ∷ rs) w = ap suc (length-restart_timers rs _)

merged_local_total :
    {D : Type 0} ⦃d : Double D⦄ (recorders : List LatencyRecorder) (template : BenchmarkResult D)
    → 0 < length recorders
    → (merged : BenchmarkResult D) × (merged_local recorders template ≡ ok merged)
      × (merged.total_ops ≡ ops_in recorders % 2 ^ 64)
unfolding merged_local merge_stats total_ops_of
merged_local_total [] template h = absurd (omega arith)
merged_local_total (r ∷ rs) template h =
    let (stats, e, sum) = thread_stats_total (r ∷ rs) in
    (merge_stats stats template, rw e refl, sum 0 (omega arith) ∙ omega arith)

module _ {O : Type 0} (num_threads total_rows : ℕ) (dataset : List O) (some : 0 < num_threads)
    {ws : List (Worker O)} {table : List O}
    (turns : Turns (spawn num_threads total_rows dataset) [] ws table) (done : IsFinished ws) where
  recorded_ops : ops_in (map recorder ws) ≡ rows_to_insert (length dataset) total_rows
  unfolding rows_to_insert
  recorded_ops =
      let (_, sizes) = inserted_once num_threads total_rows dataset some turns done in
      let rows = rows_to_insert (length dataset) total_rows in
      ops_in-recorders ws
      ∙ ap total sizes
      ∙ sym (length-concat (slices num_threads rows dataset num_threads 0))
      ∙ ap length (concat-slices num_threads total_rows dataset some)
      ∙ omega (arith, length-take (min (length dataset) total_rows % 2 ^ 32) dataset)

  some_recorders : 0 < length (map recorder ws)
  some_recorders =
      let (_, sizes) = inserted_once num_threads total_rows dataset some turns done in
      let rows = rows_to_insert (length dataset) total_rows in
      omega (
        arith,
        length-map recorder ws,
        length-map (λ w. length (recorder w).latencies_us) ws,
        ap length sizes,
        length-map (length {A = O}) (slices num_threads rows dataset num_threads 0),
        length-slices num_threads rows dataset num_threads 0,
      )

-- Let the threads of Experiment 2, at least one, take their turns in whatever order until all of them
-- are at their end, and let `run` go on with the recorders they leave: if `start_timer` keeps the
-- latencies, the local variable `merged` of `merge_thread_results` gets a value, and the number of
-- operations that it counts there is that of the rows to insert; but the function itself, which does
-- not return the variable, is undefined on the same recorders.
pub merged_total :
    {D S : Type 0} ⦃d : Double D⦄ (m : Platform S) (db : DbInterface D S) (dataset : List (Order D))
    (config : BenchmarkConfig) (factory : ℕ → Method S (Handle D S))
    (threads : List (Handle D S) → List LatencyRecorder → S → List LatencyRecorder × S)
    (e : Experiment D S (Own D S)) {ws : List (Worker (Order D))} {table : List (Order D)}
    → KeepsLatencies m
    → 0 < config.thread_count
    → Turns (spawn config.thread_count config.total_rows dataset) [] ws table
    → IsFinished ws
    → (threads e.own.thread_connections e.own.thread_recorders (m.now e.world).1).0
      ≡ map recorder ws
    → (merged : BenchmarkResult D) × (merged_local
          (run_threads m db dataset config factory threads e).1.own.thread_recorders
          e.result
        ≡ ok merged)
      × (merged.total_ops ≡ rows_to_insert (length dataset) config.total_rows)
      × (merge_thread_results
            (run_threads m db dataset config factory threads e).1.own.thread_recorders
            e.result
          ≡ undefined)
unfolding run_threads rows_to_insert
merged_total m db dataset config factory threads e {ws} timers some turns done left =
    let w₃ =
      (m.now (threads e.own.thread_connections e.own.thread_recorders (m.now e.world).1).1).1 in
    let finished = (threads e.own.thread_connections e.own.thread_recorders (m.now e.world).1).0 in
    let recorders = (restart_timers m finished w₃).0 in
    let some_left : 0 < length recorders = omega (
      arith,
      length-restart_timers m timers finished w₃,
      ap length left,
      some_recorders config.thread_count config.total_rows dataset some turns done,
    ) in
    let (merged, value, ops) = merged_local_total recorders e.result some_left in
    (
      merged,
      value,
      omega (
        arith,
        ops,
        restart_timers-ops_in m timers finished w₃,
        ap ops_in left,
        recorded_ops config.thread_count config.total_rows dataset some turns done,
      ),
      (merge_thread_results_never_returns recorders e.result).1 some_left,
    )
