-- ===== src/Experiment/Experiment2/Run.antt =====
-- src/experiment/Experiment2.hpp and .cpp: the connections of the threads, the statistics and the
-- teardown. What the threads do once they are started is a parameter here. What it prints is not
-- modelled.
use db_benchmark.Prelude.{
  ℕ, zero, suc, ◌-◌, ◌/◌, ◌==◌, List, [], ◌∷◌, ◌++◌, length, replicate, set, take, if◌then◌else◌,
}
use db_benchmark.Cpp.Outcome.{Outcome, ok, throw, undefined, caught}
use db_benchmark.Cpp.Method.{Method, pure, ◌>>=◌, ◌>>◌}
use db_benchmark.Cpp.Text.{text}
use db_benchmark.Cpp.Double.{Double, nought}
use db_benchmark.Metrics.BenchmarkResult.{BenchmarkResult}
use db_benchmark.Metrics.LatencyRecorder.{LatencyRecorder, new_recorder, stop_timer}
use db_benchmark.Metrics.MetricsCollector.{merge_thread_results}
use db_benchmark.Config.{BenchmarkConfig}
use db_benchmark.Data.Order.{Order}
use db_benchmark.Db.DbInterface.{DbInterface}
use db_benchmark.Experiment.Platform.{Platform}
use db_benchmark.Experiment.ExperimentBase.{Experiment, on_world, copy_stats}
use db_benchmark.Experiment.Experiment2.{rows_to_insert}

-- a pointer to a connection: null, the database of the experiment, or another
pub data Handle (D S : Type 0) : Type 0 where
  null shared : Handle D S
  owned : DbInterface D S → Handle D S

pub record Own (D S : Type 0) : Type 0 where
  pub thread_connections : List (Handle D S)
  pub thread_recorders : List LatencyRecorder

-- the members that the constructor leaves, beside the factory
abbrev pub new_own : {D S : Type 0} → Own D S
new_own = record { thread_connections = []; thread_recorders = [] }

-- `rec.start_timer(); rec.stop_timer();` for each recorder
unfoldable pub restart_timers :
    {S : Type 0} → Platform S → List LatencyRecorder → S → List LatencyRecorder × S
restart_timers m [] w = ([], w)
restart_timers m (rec ∷ recorders) w =
    let (rec₁, w₁) = m.start_timer rec w in
    let (t, w₂) = m.now w₁ in
    let (rest, w₃) = restart_timers m recorders w₂ in (stop_timer t rec₁ ∷ rest, w₃)

-- the loop of `teardown`: a connection of its own is disconnected, whatever that throws
unfoldable pub disconnect_own : {D S : Type 0} → List (Handle D S) → Method S (Unit {0})
disconnect_own [] = pure tt
disconnect_own (null ∷ connections) = disconnect_own connections
disconnect_own (shared ∷ connections) = disconnect_own connections
disconnect_own (owned connection ∷ connections) = do
  λ w. (caught (connection.disconnect w).0, (connection.disconnect w).1)
  disconnect_own connections

module _ {D : Type 0} ⦃d : Double D⦄ where
  -- the assignments to `merged`, for a time in microseconds
  unfoldable pub with_wall_time : ℕ → ℕ → BenchmarkResult D → BenchmarkResult D
  with_wall_time total_rows wall_us merged =
      let wall_ms = d.div (d.of_nat wall_us) (d.literal 1000 1) in
      record merged {
        total_ops = total_rows;
        total_time_ms = wall_ms;
        throughput_ops_sec =
            if d.lt nought wall_ms
            then d.div (d.of_nat total_rows) (d.div wall_ms (d.literal 1000 1))
            else nought;
      }

-- `factory` is `connection_factory_`; `threads` is what the threads leave in the recorders and the world
-- once all of them are joined, if none of them throws.
module _ {D S : Type 0} ⦃d : Double D⦄ (m : Platform S) (db : DbInterface D S)
    (dataset : List (Order D)) (config : BenchmarkConfig) (factory : ℕ → Method S (Handle D S))
    (threads : List (Handle D S) → List LatencyRecorder → S → List LatencyRecorder × S) where
  label : Method (Experiment D S (Own D S)) (Unit {0})
  label e = (
    ok tt,
    record e {
      result = record e.result {
        database = db.get_db_name;
        experiment_name = text "experiment 2 concurrent_insert";
        operation = text "insert";
        index_type = text "primary";
        thread_count = config.thread_count;
      };
    },
  )

  unfoldable pub setup : Method (Experiment D S (Own D S)) (Unit {0})
  unfolding label
  setup = do on_world db.clear_table; label

  -- `thread_connections_.resize`
  resize_connections : Method (Experiment D S (Own D S)) (Unit {0})
  resize_connections e =
      let n = config.thread_count in
      let old = e.own.thread_connections in
      (
        ok tt,
        record e {
          own = record e.own { thread_connections = take n old ++ replicate (n - length old) null };
        },
      )

  keep_connection : ℕ → Handle D S → Method (Experiment D S (Own D S)) (Unit {0})
  keep_connection i connection e = (
    ok tt,
    record e {
      own = record e.own { thread_connections = set e.own.thread_connections i connection };
    },
  )

  -- the loop over the factory, from the thread `i` on
  unfoldable pub make_connections : ℕ → ℕ → Method (Experiment D S (Own D S)) (Unit {0})
  unfolding keep_connection
  make_connections zero i = pure tt
  make_connections (suc k) i = do
    connection ← on_world (factory i)
    keep_connection i connection
    make_connections k (suc i)

  make_recorders : Method (Experiment D S (Own D S)) (Unit {0})
  make_recorders e = (
    ok tt,
    record e {
      own = record e.own { thread_recorders = replicate config.thread_count new_recorder };
    },
  )

  -- from the start of the threads to their end, on the clock, in microseconds; then the timers
  unfoldable pub run_threads : Method (Experiment D S (Own D S)) ℕ
  run_threads e =
      let (wall_start, w₁) = m.now e.world in
      let (finished, w₂) = threads e.own.thread_connections e.own.thread_recorders w₁ in
      let (wall_end, w₃) = m.now w₂ in
      let (recorders, w₄) = restart_timers m finished w₃ in
      (
        ok ((wall_end - wall_start) / 1000),
        record e { world = w₄; own = record e.own { thread_recorders = recorders } },
      )

  -- the assignments to `result_`, for how `merge_thread_results` ends
  abbrev pub keep_merged :
      ℕ → Outcome (BenchmarkResult D) → Method (Experiment D S (Own D S)) (Unit {0})
  keep_merged wall_us (ok merged) e =
      let total_rows = rows_to_insert (length dataset) config.total_rows in
      (ok tt, record e { result = copy_stats (with_wall_time total_rows wall_us merged) e.result })
  keep_merged wall_us (throw x) e = (throw x, e)
  keep_merged wall_us undefined e = (undefined, e)

  unfoldable pub merge_recorders : ℕ → Method (Experiment D S (Own D S)) (Unit {0})
  merge_recorders wall_us e =
      keep_merged wall_us (merge_thread_results e.own.thread_recorders e.result) e

  -- before the clock: the division of the rows by the number of threads, the connections and the
  -- recorders
  unfoldable pub prepare : Method (Experiment D S (Own D S)) (Unit {0})
  unfolding resize_connections make_connections make_recorders
  prepare = do
    λ e. (if config.thread_count == 0 then undefined else ok tt, e)
    resize_connections
    make_connections config.thread_count 0
    make_recorders

  -- from the clock on
  unfoldable pub measured : Method (Experiment D S (Own D S)) (Unit {0})
  unfolding run_threads
  measured = do wall_us ← run_threads; merge_recorders wall_us

  unfoldable pub run : Method (Experiment D S (Own D S)) (Unit {0})
  unfolding prepare measured
  run = do prepare; measured

  unfoldable pub teardown : Method (Experiment D S (Own D S)) (Unit {0})
  unfolding disconnect_own
  teardown = do
    λ e. on_world (disconnect_own e.own.thread_connections) e
    λ e. (ok tt, record e { own = record { thread_connections = []; thread_recorders = [] } })

  -- `Experiment2::execute`, which hides that of the base
  unfoldable pub run_experiment : Method (Experiment D S (Own D S)) (Unit {0})
  run_experiment = do setup; run; teardown
