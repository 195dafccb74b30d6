-- ===== src/Experiment/Experiment7.antt =====
-- src/experiment/Experiment7.hpp and .cpp: three runs that write all rows, flush the caches and read
-- the rows back, and the averages of the runs. What it prints is not modelled. Its own `execute` is
-- declared and defined nowhere.
pub mod Phases
pub mod Runs
use db_benchmark.Prelude.{
  ℕ, zero, suc, ◌+◌, ◌-◌, ◌*◌, ◌/◌, ◌%◌, ◌^◌, min, bit_xor, Bool, true, false, List, [], ◌∷◌, ◌++◌,
  map, foldl, set, replicate, length, take, if◌then◌else◌,
}
use db_benchmark.Cpp.Outcome.{Outcome, ok, throw, undefined, runtime_error, mapped}
use db_benchmark.Cpp.Method.{Method, pure, lift, ◌>>=◌, ◌>>◌}
use db_benchmark.Cpp.Text.{Text, text, text_eq}
use db_benchmark.Cpp.Decimal.{show_nat, show_int}
use db_benchmark.Cpp.Double.{Double, nought, min_of, max_of}
use db_benchmark.Cpp.Random.{Random}
use db_benchmark.Metrics.BenchmarkResult.{BenchmarkResult, default_result}
use db_benchmark.Metrics.LatencyRecorder.{LatencyRecorder, new_recorder, stop_timer, compute_stats}
use db_benchmark.Config.{BenchmarkConfig}
use db_benchmark.Data.Order.{Order}
use db_benchmark.Db.DbInterface.{DbInterface}
use db_benchmark.Experiment.Platform.{Platform}
use db_benchmark.Experiment.ExperimentBase.{Experiment, on_world, timed_record, timed_loop}
use db_benchmark.Experiment.Experiment3.{failed}

unfoldable pub num_runs : ℕ
num_runs = 3

pub record RunResult (D : Type 0) : Type 0 where
  pub run_number : ℕ
  pub write_result : BenchmarkResult D
  pub read_result : BenchmarkResult D

-- the members of the class; `run_results` is the array
pub record Own (D : Type 0) : Type 0 where
  pub run_results : List (RunResult D)
  pub avg_write_result : BenchmarkResult D
  pub avg_read_result : BenchmarkResult D
  pub written_order_ids : List Text

-- the variables of the loop in `avg_results`
pub record Sums (D : Type 0) : Type 0 where
  pub p50 : D
  pub p95 : D
  pub p99 : D
  pub mean : D
  pub throughput : D
  pub total_ms : D
  pub ops : ℕ
  pub min_val : D
  pub max_val : D

module _ {D : Type 0} ⦃d : Double D⦄ where
  unfoldable pub no_sums : Sums D
  no_sums = record {
    p50 = nought;
    p95 = nought;
    p99 = nought;
    mean = nought;
    throughput = nought;
    total_ms = nought;
    ops = 0;
    min_val = d.largest;
    max_val = nought;
  }

  unfoldable pub add_run : Sums D → BenchmarkResult D → Sums D
  add_run s r = record {
    p50 = d.add s.p50 r.p50_us;
    p95 = d.add s.p95 r.p95_us;
    p99 = d.add s.p99 r.p99_us;
    mean = d.add s.mean r.mean_us;
    throughput = d.add s.throughput r.throughput_ops_sec;
    total_ms = d.add s.total_ms r.total_time_ms;
    ops = (s.ops + r.total_ops) % 2 ^ 64;
    min_val = min_of s.min_val r.min_us;
    max_val = max_of s.max_val r.max_us;
  }

  -- the throughputs in `notes`, from the run `i` on
  unfoldable pub throughputs : ℕ → List (BenchmarkResult D) → Text
  throughputs i [] = []
  throughputs zero (r ∷ rs) = d.fixed 0 r.throughput_ops_sec ++ throughputs 1 rs
  throughputs (suc i) (r ∷ rs) =
      text "/" ++ (d.fixed 0 r.throughput_ops_sec ++ throughputs (suc (suc i)) rs)

  -- the result that the lambda of `is_write` reads
  unfoldable pub phase_result : Bool → RunResult D → BenchmarkResult D
  phase_result true r = r.write_result
  phase_result false r = r.read_result

  -- the end of the lambda, for the results `rs` of the runs
  unfoldable pub avg_of : Text → Bool → List (BenchmarkResult D) → BenchmarkResult D
  unfolding no_sums add_run throughputs default_result num_runs
  avg_of db_name is_write rs =
      let s = foldl add_run no_sums rs in
      let runs = d.of_nat num_runs in
      record default_result {
        database = db_name;
        experiment_name = text "exp_07_write_read_symmetry";
        operation = if is_write then text "insert" else text "point_read";
        index_type = text "primary";
        phase = if is_write then text "avg_write" else text "avg_read";
        thread_count = 1;
        p50_us = d.div s.p50 runs;
        p95_us = d.div s.p95 runs;
        p99_us = d.div s.p99 runs;
        mean_us = d.div s.mean runs;
        throughput_ops_sec = d.div s.throughput runs;
        total_time_ms = d.div s.total_ms runs;
        total_ops = s.ops / num_runs;
        min_us = s.min_val;
        max_us = s.max_val;
        notes = (text "per-run throughput: " ++ throughputs 0 rs) ++ text " ops/s";
      }

  unfoldable pub avg_results : Text → Bool → List (RunResult D) → BenchmarkResult D
  avg_results db_name is_write runs = avg_of db_name is_write (map (phase_result is_write) runs)

  unfoldable pub get_all_run_results : List (RunResult D) → List (BenchmarkResult D)
  get_all_run_results [] = []
  get_all_run_results (r ∷ rs) = r.write_result ∷ r.read_result ∷ get_all_run_results rs

  unfoldable pub get_averaged_results : Own D → BenchmarkResult D × BenchmarkResult D
  get_averaged_results own = (own.avg_write_result, own.avg_read_result)

unfoldable pub container_name : Text → Outcome Text
container_name db_name =
    if text_eq db_name (text "postgres")
    then ok (text "bench_postgres")
    else if text_eq db_name (text "mongo")
    then ok (text "bench_mongo")
    else if text_eq db_name (text "cassandra")
    then ok (text "bench_cassandra")
    else throw (runtime_error (text "exp_07: unknown db name: " ++ db_name))

unfoldable pub flush_container : {S : Type 0} → Platform S → Text → Method S (Unit {0})
unfolding failed
flush_container m container w =
    let (rc, w') = m.system (text "./scripts/flush_cache_mac.sh " ++ container) w in
    if failed rc
    then (
      throw (
          runtime_error (
            text "exp_07: flush_cache_mac.sh failed for "
            ++ container
            ++ text ". Return code: "
            ++ show_int rc)),
      w',
    )
    else (ok tt, w')

module _ {D S : Type 0} ⦃d : Double D⦄ (r : Random D) (m : Platform S) (db : DbInterface D S)
    (dataset : List (Order D)) (config : BenchmarkConfig) where
  unfoldable pub flush_cache : Method S (Unit {0})
  flush_cache = do container ← lift (container_name db.get_db_name); flush_container m container

  -- `push_back` of the id if the insert returned
  abbrev pub push_id :
      Text
      → Outcome (Unit {0})
      → S × LatencyRecorder
      → List Text
      → Outcome (Unit {0}) × ((S × LatencyRecorder) × List Text)
  push_id id (ok a) s ids = (ok tt, (s, ids ++ id ∷ []))
  push_id id (throw e) s ids = (throw e, (s, ids))
  push_id id undefined s ids = (undefined, (s, ids))

  unfoldable pub write_one : Order D → Method ((S × LatencyRecorder) × List Text) (Unit {0})
  write_one o (s, ids) =
      push_id o.order_id (timed_record m (db.insert_one o) s).0
        (timed_record m (db.insert_one o) s).1 ids

  -- the loop of `write_phase`
  unfoldable pub write_loop : List (Order D) → Method ((S × LatencyRecorder) × List Text) (Unit {0})
  write_loop [] = pure tt
  write_loop (o ∷ orders) = do write_one o; write_loop orders

  -- the labels that both phases give to their result
  unfoldable pub phase_labels : Text → ℕ → Text → BenchmarkResult D → BenchmarkResult D
  phase_labels operation run_number suffix stats = record stats {
    database = db.get_db_name;
    experiment_name = text "exp_07_write_read_symmetry";
    operation = operation;
    index_type = text "primary";
    phase = text "run_" ++ show_nat run_number ++ suffix;
    thread_count = 1;
  }

  -- the end of a phase: its timer is stopped and its statistics are taken if the loop returned
  abbrev pub end_phase :
      (BenchmarkResult D → BenchmarkResult D)
      → Outcome (Unit {0})
      → LatencyRecorder
      → Method (Experiment D S (Own D)) (BenchmarkResult D)
  end_phase labels (ok a) rec e =
      let (t, w) = m.now e.world in
      (mapped labels (compute_stats (stop_timer t rec)), record e { world = w })
  end_phase labels (throw x) rec e = (throw x, e)
  end_phase labels undefined rec e = (undefined, e)

  unfoldable pub write_phase : ℕ → Method (Experiment D S (Own D)) (BenchmarkResult D)
  write_phase run_number e =
      let n = min (length dataset) config.total_rows in
      let (rec, w) = m.start_timer new_recorder e.world in
      let (res, ((w', rec'), ids)) = write_loop (take n dataset) ((w, rec), []) in
      end_phase (phase_labels (text "insert") run_number (text "_write")) res rec'
        (record e { world = w'; own = record e.own { written_order_ids = ids } })

  -- `ids_to_read`, seeded by the number of the run
  unfoldable pub ids_to_read : ℕ → List Text → List Text
  ids_to_read run_number ids =
      (r.shuffle ids (r.seed (bit_xor config.rng_seed (run_number * 0xFEEDFACE % 2 ^ 64)))).0

  unfoldable pub read_phase : ℕ → Method (Experiment D S (Own D)) (BenchmarkResult D)
  unfolding ids_to_read
  read_phase run_number e =
      let (rec, w) = m.start_timer new_recorder e.world in
      let (res, (w', rec')) =
        timed_loop m db.find_by_primary_key (ids_to_read run_number e.own.written_order_ids)
          (w, rec) in
      end_phase (phase_labels (text "point_read") run_number (text "_read")) res rec'
        (record e { world = w' })

  unfoldable pub store_run :
      ℕ → BenchmarkResult D → BenchmarkResult D → Method (Experiment D S (Own D)) (Unit {0})
  store_run run_number write_result read_result e = (
    ok tt,
    record e {
      own = record e.own {
        run_results = set e.own.run_results (run_number - 1) (record {
          run_number = run_number;
          write_result = write_result;
          read_result = read_result;
        });
      };
    },
  )

  -- the body of the loop of `run`
  unfoldable pub one_run : ℕ → Method (Experiment D S (Own D)) (Unit {0})
  one_run run_number = do
    on_world db.clear_table
    write_result ← write_phase run_number
    on_world (flush_cache >> db.connect)
    read_result ← read_phase run_number
    store_run run_number write_result read_result

  -- `k` turns of the loop, from the run `i` on
  unfoldable pub runs_from : ℕ → ℕ → Method (Experiment D S (Own D)) (Unit {0})
  runs_from zero i = pure tt
  runs_from (suc k) i = do one_run i; runs_from k (suc i)

  unfoldable pub compute_averages : Method (Experiment D S (Own D)) (Unit {0})
  compute_averages e = (
    ok tt,
    record e {
      own = record e.own {
        avg_write_result = avg_results db.get_db_name true e.own.run_results;
        avg_read_result = avg_results db.get_db_name false e.own.run_results;
      };
    },
  )

  unfoldable pub setup : Method (Experiment D S (Own D)) (Unit {0})
  setup e = (
    ok tt,
    record e {
      result = record e.result {
        database = db.get_db_name;
        experiment_name = text "exp_07_write_read_symmetry";
        thread_count = 1;
      };
    },
  )

  unfoldable pub run : Method (Experiment D S (Own D)) (Unit {0})
  unfolding num_runs
  run = do runs_from num_runs 1; compute_averages
