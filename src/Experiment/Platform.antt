-- ===== src/Experiment/Platform.antt =====
-- What the experiments take from the machine beside the database: the steady clock in nanoseconds,
-- which never goes back, and the commands that `std::system` runs, with their return code. Last
-- stands `LatencyRecorder::start_timer`, which src/metrics/LatencyRecorder.hpp declares and no file
-- defines.
use db_benchmark.Prelude.{ℕ, ◌≡◌}
use db_benchmark.Prelude.Int.{ℤ}
use db_benchmark.Cpp.Text.{Text}
use db_benchmark.Metrics.LatencyRecorder.{LatencyRecorder}

pub record Platform (S : Type 0) : Type 0 where
  pub now : S → ℕ × S
  pub system : Text → S → ℤ × S
  pub start_timer : LatencyRecorder → S → LatencyRecorder × S

-- What the timers leave alone: `start_timer` keeps the latencies.
pub record KeepsLatencies {S : Type 0} (m : Platform S) : Type 0 where
  pub latencies-start_timer :
      (r : LatencyRecorder) (w : S) → (m.start_timer r w).0.latencies_us ≡ r.latencies_us
