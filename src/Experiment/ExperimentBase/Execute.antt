-- ===== src/Experiment/ExperimentBase/Execute.antt =====
-- How `execute` of src/experiment/ExperimentBase.cpp ends.
use db_benchmark.Prelude.{◌≡◌, refl}
use db_benchmark.Cpp.Outcome.{Exception, ok, throw}
use db_benchmark.Cpp.Method.{Method}
use db_benchmark.Cpp.Double.{Double}
use db_benchmark.Metrics.BenchmarkResult.{BenchmarkResult}
use db_benchmark.Metrics.LatencyRecorder.{count, stop_timer}
use db_benchmark.Metrics.LatencyRecorder.Stats.{compute_stats_total}
use db_benchmark.Experiment.Platform.{Platform}
use db_benchmark.Experiment.ExperimentBase.{
  Experiment, copy_stats, start_clock, stop_clock, store_stats, execute, teardown,
}

module _ {D S X : Type 0} ⦃d : Double D⦄ (m : Platform S)
    (setup run : Method (Experiment D S X) (Unit {0})) where
  -- after `run` has returned, the statistics are stored and `end` is called
  pub execute_ends :
      (end : Method (Experiment D S X) (Unit {0})) (e e₁ e₂ : Experiment D S X)
      → setup e ≡ (ok tt, e₁)
      → run (start_clock m e₁).1 ≡ (ok tt, e₂)
      → (stats : BenchmarkResult D) × (stats.total_ops ≡ count e₂.recorder)
        × (execute m setup run end e
            ≡ end (record e₂ {
              world = (m.now e₂.world).1;
              recorder = stop_timer (m.now e₂.world).0 e₂.recorder;
              result = copy_stats stats e₂.result;
            }))
  unfolding execute stop_clock store_stats count stop_timer
  execute_ends end e e₁ e₂ set_up ran =
      let (stats, made, size) =
        compute_stats_total {D = D} (stop_timer (m.now e₂.world).0 e₂.recorder) in
      (stats, size, rw (set_up, ran) (rw made refl))

  -- If `setup` and then `run` return, `execute` returns; `total_ops` is the number of the latencies
  -- that `run` left in the recorder, the operation and the database are those of `result_` after
  -- `run`, and the world is that of `run` but for one more reading of the clock. If `setup` throws,
  -- `execute` throws the same and leaves what `setup` left.
  pub execute_lem :
      (e e₁ : Experiment D S X)
      → ((e₂ : Experiment D S X)
          → setup e ≡ (ok tt, e₁)
          → run (start_clock m e₁).1 ≡ (ok tt, e₂)
          → (e₃ : Experiment D S X) × (execute m setup run (teardown m) e ≡ (ok tt, e₃))
            × (e₃.world ≡ (m.now e₂.world).1)
            × (e₃.result.total_ops ≡ count e₂.recorder)
            × (e₃.result.operation ≡ e₂.result.operation)
            × (e₃.result.database ≡ e₂.result.database))
        × ((x : Exception)
            → setup e ≡ (throw x, e₁)
            → execute m setup run (teardown m) e ≡ (throw x, e₁))
  unfolding execute stop_clock store_stats teardown copy_stats count stop_timer
  execute_lem e e₁ = (
    λ e₂ set_up ran.
        let (stats, made, size) =
          compute_stats_total {D = D} (stop_timer (m.now e₂.world).0 e₂.recorder) in
        (
          record e₂ {
            world = (m.now e₂.world).1;
            recorder = stop_timer (m.now e₂.world).0 e₂.recorder;
            result = copy_stats stats e₂.result;
          },
          rw (set_up, ran) (rw made refl),
          refl,
          size,
          refl,
          refl,
        ),
    λ x failed. rw failed refl,
  )
