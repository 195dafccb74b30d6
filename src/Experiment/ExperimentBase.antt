-- ===== src/Experiment/ExperimentBase.antt =====
-- src/experiment/ExperimentBase.hpp and .cpp: the frame of an experiment. The database, the dataset
-- and the configuration are parameters; an experiment's own members are `X`. `teardown` is pure
-- virtual, and the body that the base gives it does nothing.
pub mod Timing
pub mod Execute
pub mod Samples
use db_benchmark.Prelude.{
  ℕ, ◌-◌, ◌/◌, bit_xor, Bool, true, false, List, [], ◌∷◌, ltb, length, map, Option, none, some,
  if◌then◌else◌,
}
use db_benchmark.Cpp.Outcome.{Outcome, ok, throw, undefined, runtime_error, invalid_argument}
use db_benchmark.Cpp.Method.{Method, pure, lift, gets, ◌>>=◌, ◌>>◌}
use db_benchmark.Cpp.Text.{Text, text}
use db_benchmark.Cpp.Double.{Double}
use db_benchmark.Cpp.Random.{Random}
use db_benchmark.Metrics.BenchmarkResult.{BenchmarkResult, default_result}
use db_benchmark.Metrics.LatencyRecorder.{
  LatencyRecorder, new_recorder, record_latency, stop_timer, compute_stats,
}
use db_benchmark.Config.{BenchmarkConfig}
use db_benchmark.Data.Order.{Order}
use db_benchmark.Data.DataGenerator.{pick}
use db_benchmark.Experiment.Platform.{Platform}

pub record Experiment (D S X : Type 0) : Type 0 where
  pub world : S
  pub recorder : LatencyRecorder
  pub result : BenchmarkResult D
  pub own : X

-- The constructor: a null database or dataset is refused.
unfoldable pub construct : {A B C : Type 0} → Option A → Option B → C → Outcome C
construct none dataset made = throw (invalid_argument (text "ExperimentBase: db cannot be null"))
construct (some db) none made =
    throw (invalid_argument (text "ExperimentBase: dataset_ cannot be null"))
construct (some db) (some dataset) made = ok made

module _ {D S X : Type 0} where
  -- an action on the world alone
  abbrev pub on_world : {A : Type 0} → Method S A → Method (Experiment D S X) A
  on_world m e = let (res, w) = m e.world in (res, record e { world = w })

module _ {D : Type 0} where
  -- the assignments that `execute` makes to `result_`
  unfoldable pub copy_stats : BenchmarkResult D → BenchmarkResult D → BenchmarkResult D
  copy_stats stats result = record result {
    total_ops = stats.total_ops;
    total_time_ms = stats.total_time_ms;
    p50_us = stats.p50_us;
    p95_us = stats.p95_us;
    p99_us = stats.p99_us;
    mean_us = stats.mean_us;
    min_us = stats.min_us;
    max_us = stats.max_us;
    throughput_ops_sec = stats.throughput_ops_sec;
  }

module _ {S : Type 0} (m : Platform S) where
  -- the second reading of the clock, in microseconds from the first; what the call throws leaves
  -- before it
  abbrev pub read_after : {A : Type 0} → ℕ → Outcome A → S → Outcome ℕ × S
  read_after t0 (ok a) w = (ok (((m.now w).0 - t0) / 1000), (m.now w).1)
  read_after t0 (throw e) w = (throw e, w)
  read_after t0 undefined w = (undefined, w)

  -- `clock::now()` around a call
  unfoldable pub timed : {A : Type 0} → Method S A → Method S ℕ
  timed op w = let (t0, w₁) = m.now w in let (res, w₂) = op w₁ in read_after t0 res w₂

  -- `recorder_.record` if the call returned
  abbrev pub keep_latency :
      Outcome ℕ → S → LatencyRecorder → Outcome (Unit {0}) × (S × LatencyRecorder)
  keep_latency (ok us) w rec = (ok tt, (w, record_latency us rec))
  keep_latency (throw e) w rec = (throw e, (w, rec))
  keep_latency undefined w rec = (undefined, (w, rec))

  -- one timed call, and its latency in the recorder
  unfoldable pub timed_record : {A : Type 0} → Method S A → Method (S × LatencyRecorder) (Unit {0})
  timed_record op (w, rec) = keep_latency (timed op w).0 (timed op w).1 rec

  -- the loop of timed calls that every experiment has
  unfoldable pub timed_loop :
      {A B : Type 0} → (A → Method S B) → List A → Method (S × LatencyRecorder) (Unit {0})
  timed_loop op [] = pure tt
  timed_loop op (x ∷ xs) = do timed_record (op x); timed_loop op xs

  -- the end of a loop with a recorder of its own: the timer is stopped if the loop returned
  abbrev pub stop_after : Outcome (Unit {0}) → Method (S × LatencyRecorder) (Unit {0})
  stop_after (ok a) (w, rec) = (ok tt, ((m.now w).1, stop_timer (m.now w).0 rec))
  stop_after (throw e) s = (throw e, s)
  stop_after undefined s = (undefined, s)

  -- such a loop, its timer started before
  unfoldable pub timed_phase :
      {A B : Type 0} → (A → Method S B) → List A → Method (S × LatencyRecorder) (Unit {0})
  timed_phase op xs (w, rec) =
      let (rec₁, w₁) = m.start_timer rec w in
      stop_after (timed_loop op xs (w₁, rec₁)).0 (timed_loop op xs (w₁, rec₁)).1

module _ {D S X : Type 0} ⦃d : Double D⦄ (m : Platform S) where
  -- a loop over the recorder of the base
  unfoldable pub on_recorder :
      Method (S × LatencyRecorder) (Unit {0}) → Method (Experiment D S X) (Unit {0})
  on_recorder loop e =
      let (res, (w, rec)) = loop (e.world, e.recorder) in
      (res, record e { world = w; recorder = rec })

  unfoldable pub start_clock : Method (Experiment D S X) (Unit {0})
  start_clock e =
      let (rec, w) = m.start_timer e.recorder e.world in
      (ok tt, record e { world = w; recorder = rec })

  unfoldable pub stop_clock : Method (Experiment D S X) (Unit {0})
  stop_clock e =
      let (t, w) = m.now e.world in
      (ok tt, record e { world = w; recorder = stop_timer t e.recorder })

  -- the assignments to `result_`, for how `compute_stats` ends
  abbrev pub keep_stats : Outcome (BenchmarkResult D) → Method (Experiment D S X) (Unit {0})
  keep_stats (ok stats) e = (ok tt, record e { result = copy_stats stats e.result })
  keep_stats (throw x) e = (throw x, e)
  keep_stats undefined e = (undefined, e)

  unfoldable pub store_stats : Method (Experiment D S X) (Unit {0})
  store_stats e = keep_stats (compute_stats e.recorder) e

  unfoldable pub execute :
      Method (Experiment D S X) (Unit {0})
      → Method (Experiment D S X) (Unit {0})
      → Method (Experiment D S X) (Unit {0})
      → Method (Experiment D S X) (Unit {0})
  unfolding start_clock stop_clock store_stats
  execute setup run teardown = do setup; start_clock; run; stop_clock; store_stats; teardown

  unfoldable pub get_result : Experiment D S X → BenchmarkResult D
  get_result e = e.result

  -- the body in the base class
  unfoldable pub teardown : Method (Experiment D S X) (Unit {0})
  teardown = pure tt

module _ {D : Type 0} ⦃d : Double D⦄ (r : Random D) where
  unfoldable pub sample_random_orders : List (Order D) → ℕ → ℕ → Outcome (List (Order D))
  sample_random_orders [] rng_seed n =
      throw (runtime_error (text "sample random orders dataset is empty"))
  sample_random_orders (o ∷ dataset) rng_seed n =
      let size = length (o ∷ dataset) in
      let capped = if ltb size n then size else n in
      (pick r capped (o ∷ dataset) (r.seed (bit_xor rng_seed 0xFEEDFACE))).0
