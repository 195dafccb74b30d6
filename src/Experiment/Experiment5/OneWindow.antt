-- ===== src/Experiment/Experiment5/OneWindow.antt =====
-- One window of src/experiment/Experiment5.cpp.
use native.Mathlib.Nat.{mul-div_cancel_left}
use db_benchmark.Prelude.{
  ℕ, zero, suc, ◌+◌, ◌/◌, ◌<◌, ◌≡◌, ◌*◌, ◌^◌, refl, ap, ◌∙◌, bit_xor, false, List, [], ◌==◌, arith,
  length, length-append,
}
use db_benchmark.Prelude.Int.{ℤ}
use db_benchmark.Cpp.Outcome.{Outcome, ok}
use db_benchmark.Cpp.Text.{Text}
use db_benchmark.Cpp.Double.{Double}
use db_benchmark.Cpp.Random.{Random}
use db_benchmark.Metrics.LatencyRecorder.{LatencyRecorder, record_latency, stop_timer}
use db_benchmark.Config.{BenchmarkConfig}
use db_benchmark.Data.Order.{Order}
use db_benchmark.Data.DataGenerator.{new_generator, generate_date_range}
use db_benchmark.Db.DbInterface.{DbInterface}
use db_benchmark.Experiment.Platform.{Platform, KeepsLatencies}
use db_benchmark.Experiment.ExperimentBase.{Experiment}
use db_benchmark.Experiment.Experiment5.{
  Own, Slot, Window, to_word, quotient, query, keep_rows, window_query, window_loop, run_window,
  window,
}

rows_more : (k n : ℕ) → suc k * n ≡ n + k * n
rows_more k n = omega arith

module _ {D S : Type 0} ⦃d : Double D⦄ (r : Random D) (m : Platform S) (db : DbInterface D S)
    (dataset : List (Order D)) (config : BenchmarkConfig) where
  -- every range scan that returns finds as many rows
  abbrev pub FindsAlways : ℕ → Type 0
  FindsAlways n =
      (from to : Text) (w : S) (orders : List (Order D))
      → (db.find_by_range from to w).0 ≡ ok orders
      → length orders ≡ n

  -- the scan between two empty dates returns rows, as many as always
  abbrev pub IsScan : List Text → ℕ → Type 0
  IsScan ids q =
      (w : S)
      → (rows : List (Order D)) × ((query r m db dataset config ids q [] [] w).0 ≡ ok rows)
        × ((n : ℕ) → FindsAlways n → length rows ≡ n)

  abbrev ends : List Text → ℤ → ℕ → ℕ → Window S r → Outcome (Unit {0}) × Window S r
  ends = window_loop r m db dataset config

  window_loop_lem :
      (ids : List Text) (days : ℤ) (k q : ℕ) (s : Window S r)
      → ((i : ℕ) → i < q + k → IsScan ids i)
      → ((ends ids days k q s).0 ≡ ok tt)
        × (length (ends ids days k q s).1.recorder.latencies_us
            ≡ length s.recorder.latencies_us + k)
        × ((n : ℕ)
            → FindsAlways n
            → s.total_rows_returned + k * n < 2 ^ 64
            → (ends ids days k q s).1.total_rows_returned ≡ s.total_rows_returned + k * n)
  unfolding window_loop window_query generate_date_range record_latency
  window_loop_lem ids days zero q s scans = (refl, omega arith, λ n always h. omega arith)
  window_loop_lem ids days (suc k) q s scans =
      let (rows, found, found_size) = scans q (omega arith) (m.now s.world).1 in
      let next =
        (keep_rows r m db dataset config (m.now s.world).0 (ok rows)
          (record s { world = (query r m db dataset config ids q [] [] (m.now s.world).1).1 })).1 in
      let (returned, size, total) =
        window_loop_lem ids days k (suc q) next (λ i h. scans i (omega arith)) in
      rw found (
        returned,
        omega (arith, size, length-append s.recorder.latencies_us),
        λ n always h.
            let as_many = found_size n always in
            let more = rows_more k n in omega (arith, total n always (omega arith)),
      )

  module _ (timers : KeepsLatencies m) where
    -- a call of the lambda over scans that return
    pub run_window_lem :
        (ids : List Text) (days : ℤ) (w : S) (rec : LatencyRecorder)
        → ((i : ℕ) → i < config.read_sample_size → IsScan ids i)
        → (rows : ℕ) × ((run_window r m db dataset config ids days (w, rec)).0 ≡ ok rows)
          × (length (run_window r m db dataset config ids days (w, rec)).1.1.latencies_us
              ≡ length rec.latencies_us + config.read_sample_size)
          × ((n : ℕ)
              → FindsAlways n
              → config.read_sample_size * n < 2 ^ 64
              → rows ≡ config.read_sample_size * n)
    unfolding run_window stop_timer
    run_window_lem ids days w rec scans =
        let begun : Window S r = record {
          world = (m.start_timer rec w).1;
          recorder = (m.start_timer rec w).0;
          gen = new_generator r (bit_xor config.rng_seed (to_word days));
          total_rows_returned = 0;
        } in
        let (returned, size, total) =
          window_loop_lem ids days config.read_sample_size 0 begun (λ i h. scans i (omega arith)) in
        let loop = ends ids days config.read_sample_size 0 begun in
        (
          loop.1.total_rows_returned,
          rw returned refl,
          rw returned (omega (arith, size, ap length (timers.latencies-start_timer rec w))),
          λ n always h. total n always (omega arith) ∙ omega arith,
        )

    -- a window stores its recorder, with a latency for each query, and its average
    pub window_lem :
        (slot : Slot) (ids : List Text) (days : ℤ) (e : Experiment D S Own)
        → 0 < config.read_sample_size
        → ((i : ℕ) → i < config.read_sample_size → IsScan ids i)
        → (w : S) × (rec : LatencyRecorder) × (average : ℕ) × (window r m db dataset config slot ids
              days e
            ≡ (
              ok tt,
              record e { world = w; own = slot.set_average average (slot.set_recorder rec e.own) },
            ))
          × (length rec.latencies_us
              ≡ length (slot.recorder e.own).latencies_us + config.read_sample_size)
          × ((n : ℕ) → FindsAlways n → config.read_sample_size * n < 2 ^ 64 → average ≡ n)
    unfolding window quotient
    window_lem slot ids days e some_queries scans =
        let (rows, returned, size, total) =
          run_window_lem ids days e.world (slot.recorder e.own) scans in
        let ran = run_window r m db dataset config ids days (e.world, slot.recorder e.own) in
        (
          ran.1.0,
          ran.1.1,
          rows / config.read_sample_size,
          rw returned (rw (not_zero config.read_sample_size some_queries) refl),
          size,
          λ n always h.
              ap (λ x. x / config.read_sample_size) (total n always h)
              ∙ mul-div_cancel_left n some_queries,
        )
      where
        not_zero : (n : ℕ) → 0 < n → (n == 0) ≡ false
        not_zero n h = ground arith
