-- ===== src/Experiment/Experiment5.antt =====
-- src/experiment/Experiment5.hpp and .cpp: range scans over windows of three lengths, each length with
-- a recorder of its own. What it prints is not modelled.
pub mod OneWindow
pub mod Windows
use db_benchmark.Prelude.{
  ℕ, zero, suc, ◌+◌, ◌-◌, ◌/◌, ◌%◌, ◌^◌, bit_xor, Bool, true, false, ◌&&◌, List, [], ◌∷◌, ◌++◌,
  ◌==◌, length, if◌then◌else◌,
}
use db_benchmark.Prelude.Int.{ℤ, pos, negsuc}
use db_benchmark.Cpp.Outcome.{Outcome, ok, throw, undefined, mapped, both}
use db_benchmark.Cpp.Method.{Method, pure, lift, ◌>>=◌, ◌>>◌}
use db_benchmark.Cpp.Text.{Text, text, text_eq, text_le}
use db_benchmark.Cpp.Decimal.{show_int}
use db_benchmark.Cpp.Double.{Double}
use db_benchmark.Cpp.Random.{Random}
use db_benchmark.Metrics.BenchmarkResult.{BenchmarkResult}
use db_benchmark.Metrics.LatencyRecorder.{
  new_recorder, LatencyRecorder, record_latency, stop_timer, compute_stats, element,
}
use db_benchmark.Config.{BenchmarkConfig}
use db_benchmark.Data.Order.{Order}
use db_benchmark.Data.DataGenerator.{
  DataGenerator, new_generator, sample_user_ids, generate_date_range,
}
use db_benchmark.Db.DbInterface.{DbInterface}
use db_benchmark.Experiment.Platform.{Platform}
use db_benchmark.Experiment.ExperimentBase.{Experiment, on_world, execute}

pub record Own : Type 0 where
  pub small_recorder : LatencyRecorder
  pub medium_recorder : LatencyRecorder
  pub large_recorder : LatencyRecorder
  pub avg_result_count_small : ℕ
  pub avg_result_count_medium : ℕ
  pub avg_result_count_large : ℕ

-- the members that the constructor leaves
abbrev pub new_own : Own
new_own = record {
  small_recorder = new_recorder;
  medium_recorder = new_recorder;
  large_recorder = new_recorder;
  avg_result_count_small = 0;
  avg_result_count_medium = 0;
  avg_result_count_large = 0;
}

-- the recorder and the average of one window, among the members
pub record Slot : Type 0 where
  pub recorder : Own → LatencyRecorder
  pub set_recorder : LatencyRecorder → Own → Own
  pub set_average : ℕ → Own → Own

abbrev pub small : Slot
small = record {
  recorder = λ own. own.small_recorder;
  set_recorder = λ rec own. record own { small_recorder = rec };
  set_average = λ n own. record own { avg_result_count_small = n };
}

abbrev pub medium : Slot
medium = record {
  recorder = λ own. own.medium_recorder;
  set_recorder = λ rec own. record own { medium_recorder = rec };
  set_average = λ n own. record own { avg_result_count_medium = n };
}

abbrev pub large : Slot
large = record {
  recorder = λ own. own.large_recorder;
  set_recorder = λ rec own. record own { large_recorder = rec };
  set_average = λ n own. record own { avg_result_count_large = n };
}

-- `static_cast<uint64_t>` of an `int`
unfoldable pub to_word : ℤ → ℕ
to_word (pos n) = n % 2 ^ 64
to_word (negsuc n) = (2 ^ 64 - 1) - n % 2 ^ 64

-- `window_days > 0`
unfoldable pub is_positive : ℤ → Bool
is_positive (pos zero) = false
is_positive (pos (suc n)) = true
is_positive (negsuc n) = false

-- the rows of a user whose date stands between the two, ends included
unfoldable pub rows_within : {D : Type 0} → Text → Text → List (Order D) → List (Order D)
rows_within start_date end_date [] = []
rows_within start_date end_date (o ∷ orders) =
    let rest = rows_within start_date end_date orders in
    if text_le start_date o.created_at && text_le o.created_at end_date then o ∷ rest else rest

-- what the lambda `run_window` changes: the world, its recorder, and its two local variables
pub record Window {D : Type 0} ⦃d : Double D⦄ (S : Type 0) (r : Random D) : Type 0 where
  pub world : S
  pub recorder : LatencyRecorder
  pub gen : DataGenerator r
  pub total_rows_returned : ℕ

-- the average that a call of the lambda gives, if it gives one
abbrev pub keep_average : {D S : Type 0} → Slot → Outcome ℕ → Method (Experiment D S Own) (Unit {0})
keep_average slot (ok n) e = (ok tt, record e { own = slot.set_average n e.own })
keep_average slot (throw x) e = (throw x, e)
keep_average slot undefined e = (undefined, e)

-- a division of unsigned integers
unfoldable pub quotient : ℕ → ℕ → Outcome ℕ
quotient a n = if n == 0 then undefined else ok (a / n)

-- over `n` queries, if their rows were counted
abbrev pub averaged : ℕ → Outcome ℕ → Outcome ℕ
averaged n (ok rows) = quotient rows n
averaged n (throw x) = throw x
averaged n undefined = undefined

module _ {D S : Type 0} ⦃d : Double D⦄ (r : Random D) (m : Platform S) (db : DbInterface D S)
    (dataset : List (Order D)) (config : BenchmarkConfig) where
  label : Method (Experiment D S Own) (Unit {0})
  label e = (
    ok tt,
    record e {
      result = record e.result {
        database = db.get_db_name;
        experiment_name = text "exp5 range scan";
        operation = text "range_scan";
        thread_count = 1;
      };
    },
  )

  unfoldable pub setup : Method (Experiment D S Own) (Unit {0})
  unfolding label
  setup = do label; on_world db.create_secondary_index

  -- the scan for the query `q`: on Cassandra, of the rows of one user
  unfoldable pub query : List Text → ℕ → Text → Text → Method S (List (Order D))
  query cassandra_user_ids q start_date end_date =
      if text_eq db.get_db_name (text "cassandra")
      then (do
        user_id ← lift (element cassandra_user_ids q)
        user_orders ← db.find_by_secondary_key user_id
        pure (rows_within start_date end_date user_orders))
      else db.find_by_range start_date end_date

  -- the end of an iteration whose clock began at `t0`, for how the scan ended
  abbrev pub keep_rows : ℕ → Outcome (List (Order D)) → Method (Window S r) (Unit {0})
  keep_rows t0 (ok rows) s =
      let (t1, w) = m.now s.world in
      (
        ok tt,
        record s {
          world = w;
          recorder = record_latency ((t1 - t0) / 1000) s.recorder;
          total_rows_returned = (s.total_rows_returned + length rows) % 2 ^ 64;
        },
      )
  keep_rows t0 (throw x) s = (throw x, s)
  keep_rows t0 undefined s = (undefined, s)

  -- the timed scan between the two dates, for how `generate_date_range` ended
  abbrev pub scan : List Text → ℕ → Outcome (Text × Text) → Method (Window S r) (Unit {0})
  scan cassandra_user_ids q (ok (start_date, end_date)) s =
      let (t0, w) = m.now s.world in
      let (res, w') = query cassandra_user_ids q start_date end_date w in
      keep_rows t0 res (record s { world = w' })
  scan cassandra_user_ids q (throw x) s = (throw x, s)
  scan cassandra_user_ids q undefined s = (undefined, s)

  -- one iteration
  unfoldable pub window_query : List Text → ℤ → ℕ → Method (Window S r) (Unit {0})
  window_query cassandra_user_ids window_days q s =
      let (dates, gen) = generate_date_range r dataset window_days s.gen in
      scan cassandra_user_ids q dates (record s { gen = gen })

  -- the loop over the queries from `q` on, as many as the first number says
  unfoldable pub window_loop : List Text → ℤ → ℕ → ℕ → Method (Window S r) (Unit {0})
  window_loop cassandra_user_ids window_days zero q = pure tt
  window_loop cassandra_user_ids window_days (suc k) q = do
    window_query cassandra_user_ids window_days q
    window_loop cassandra_user_ids window_days k (suc q)

  -- the end of the lambda: its timer is stopped if the loop returned
  abbrev pub end_window : Outcome (Unit {0}) → Window S r → Outcome ℕ × (S × LatencyRecorder)
  end_window (ok a) s =
      (ok s.total_rows_returned, ((m.now s.world).1, stop_timer (m.now s.world).0 s.recorder))
  end_window (throw x) s = (throw x, (s.world, s.recorder))
  end_window undefined s = (undefined, (s.world, s.recorder))

  -- the lambda
  unfoldable pub run_window : List Text → ℤ → Method (S × LatencyRecorder) ℕ
  run_window cassandra_user_ids window_days (w, rec) =
      let (rec₁, w₁) = m.start_timer rec w in
      let begun : Window S r = record {
        world = w₁;
        recorder = rec₁;
        gen = new_generator r (bit_xor config.rng_seed (to_word window_days));
        total_rows_returned = 0;
      } in
      let loop = window_loop cassandra_user_ids window_days config.read_sample_size 0 begun in
      end_window loop.0 loop.1

  -- the users whose partitions are scanned: none but on Cassandra
  unfoldable pub choose_user_ids : Outcome (List Text)
  choose_user_ids =
      if text_eq db.get_db_name (text "cassandra")
      then mapped (λ ids. (r.shuffle ids (r.seed (bit_xor config.rng_seed 0x12345678ABCDEF))).0)
          (sample_user_ids r config.read_sample_size (new_generator r config.rng_seed))
      else ok []

  -- a call of the lambda with the members of a window, and the average over its queries
  unfoldable pub window : Slot → List Text → ℤ → Method (Experiment D S Own) (Unit {0})
  unfolding run_window
  window slot ids window_days e =
      let (res, (w, rec)) = run_window ids window_days (e.world, slot.recorder e.own) in
      let average = averaged config.read_sample_size res in
      keep_average slot average (record e { world = w; own = slot.set_recorder rec e.own })

  unfoldable pub run : Method (Experiment D S Own) (Unit {0})
  unfolding choose_user_ids window
  run = do
    cassandra_user_ids ← lift choose_user_ids
    window small cassandra_user_ids config.range_window_small
    window medium cassandra_user_ids config.range_window_medium
    window large cassandra_user_ids config.range_window_large

  unfoldable pub teardown : Method (Experiment D S Own) (Unit {0})
  teardown = on_world db.drop_secondary_index

  unfoldable pub run_experiment : Method (Experiment D S Own) (Unit {0})
  run_experiment = execute m setup run teardown

  -- the lambda `make_result` after its call of `compute_stats`; the dash has three bytes
  unfoldable pub labels : ℤ → ℕ → Text → BenchmarkResult D → BenchmarkResult D
  labels window_days avg_rows label stats = record stats {
    database = db.get_db_name;
    experiment_name = text "exp_05_range_scan";
    operation = text "range_scan";
    index_type = text "secondary";
    phase = label;
    thread_count = 1;
    result_set_size = avg_rows;
    notes =
        if text_eq db.get_db_name (text "cassandra") && is_positive window_days
        then text "Cassandra: range within single user partition. "
          ++ text "Cross-partition range requires ALLOW FILTERING "
          ++ (text "(full cluster scan " ++ (0xE2 ∷ 0x80 ∷ 0x94 ∷ text " not used in production)."))
        else stats.notes;
  }

  unfoldable pub make_result : LatencyRecorder → ℤ → ℕ → Text → Outcome (BenchmarkResult D)
  unfolding labels
  make_result rec window_days avg_rows label =
      mapped (labels window_days avg_rows label) (compute_stats rec)

  unfoldable pub get_all_results : Own → Outcome (List (BenchmarkResult D))
  unfolding make_result
  get_all_results own =
      let result = λ (rec : LatencyRecorder) (days : ℤ) (average : ℕ).
        make_result rec days average (show_int days ++ text "d") in
      mapped (λ (a, (b, c)). a ∷ b ∷ c ∷ [])
        (both (result own.small_recorder config.range_window_small own.avg_result_count_small) (
          both (result own.medium_recorder config.range_window_medium own.avg_result_count_medium)
            (result own.large_recorder config.range_window_large own.avg_result_count_large)))
