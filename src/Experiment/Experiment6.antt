-- ===== src/Experiment/Experiment6.antt =====
-- src/experiment/Experiment6.hpp and .cpp: the same reads before and after a compaction, for
-- Cassandra alone. The file that the count of the SSTables is read from is a parameter. What it
-- prints is not modelled.
pub mod Skipped
pub mod Compaction
use db_benchmark.Prelude.{
  ℕ, bit_xor, Bool, true, false, List, [], ◌∷◌, ◌++◌, Option, none, some, ltb, take, map,
  if◌then◌else◌,
}
use db_benchmark.Cpp.Outcome.{Outcome, ok, throw, undefined, runtime_error, mapped}
use db_benchmark.Cpp.Method.{Method, pure, lift, ◌>>=◌, ◌>>◌}
use db_benchmark.Cpp.Text.{Text, text, text_eq}
use db_benchmark.Cpp.Decimal.{show_int}
use db_benchmark.Cpp.Double.{Double, nought}
use db_benchmark.Cpp.Random.{Random}
use db_benchmark.Metrics.BenchmarkResult.{BenchmarkResult, default_result}
use db_benchmark.Metrics.LatencyRecorder.{new_recorder, LatencyRecorder, compute_stats, count}
use db_benchmark.Config.{BenchmarkConfig}
use db_benchmark.Data.Order.{Order}
use db_benchmark.Db.DbInterface.{DbInterface}
use db_benchmark.Experiment.Platform.{Platform}
use db_benchmark.Experiment.ExperimentBase.{
  Experiment, on_world, timed_phase, execute, teardown, sample_random_orders,
}
use db_benchmark.Experiment.Experiment3.{failed}

pub record Own : Type 0 where
  pub before_recorder : LatencyRecorder
  pub after_recorder : LatencyRecorder
  pub sample_ids : List Text
  pub before_sstable_count : ℕ
  pub after_sstable_count : ℕ
  pub should_skip : Bool

-- the members that the constructor leaves
abbrev pub new_own : Own
new_own = record {
  before_recorder = new_recorder;
  after_recorder = new_recorder;
  sample_ids = [];
  before_sstable_count = 0;
  after_sstable_count = 0;
  should_skip = false;
}

unfoldable pub sstable_command : Text
sstable_command =
    text "docker exec bench_cassandra nodetool tablehistograms "
    ++ text "benchmark orders_by_id 2>/dev/null "
    ++ text "| grep -i 'sstable' | awk '{print $NF}' | head -1 "
    ++ text "> /tmp/sstable_count.txt"

-- what `f >> count` leaves in a count of 0, for what the stream of an open file gives
abbrev pub count_in : Option ℕ → ℕ
count_in none = 0
count_in (some n) = n

-- the note of a skipped experiment; its dash has three bytes
unfoldable pub skipped_note : Text
skipped_note = text "Skipped " ++ (0xE2 ∷ 0x80 ∷ 0x94 ∷ text " not Cassandra.")

-- `read_count w` is what `>>` reads from the file in the world `w`, if the file can be opened.
module _ {D S : Type 0} ⦃d : Double D⦄ (r : Random D) (m : Platform S) (read_count : S → Option ℕ)
    (db : DbInterface D S) (dataset : List (Order D)) (config : BenchmarkConfig) where
  unfoldable pub get_sstable_count : Method S ℕ
  unfolding failed
  get_sstable_count w =
      let (rc, w') = m.system sstable_command w in
      (ok (if failed rc then 0 else count_in (read_count w')), w')

  unfoldable pub run_compaction : Method S (Unit {0})
  unfolding failed
  run_compaction w =
      let (rc, w') = m.system (text "./scripts/cassandra_compact.sh") w in
      if failed rc
      then (
        throw (
            runtime_error (
              text "exp_06: cassandra_compact.sh failed. " ++ text "Return code: " ++ show_int rc)),
        w',
      )
      else (ok tt, w')

  label : Method (Experiment D S Own) (Unit {0})
  label e = (
    ok tt,
    record e {
      result = record e.result {
        database = db.get_db_name;
        experiment_name = text "exp_06_compaction";
        operation = text "point_read";
        index_type = text "primary";
        thread_count = 1;
      };
    },
  )

  -- the ids of the sample behind those of before, and the shuffle of them all
  keep_ids : List (Order D) → Method (Experiment D S Own) (Unit {0})
  keep_ids sample e = (
    ok tt,
    record e {
      own = record e.own {
        sample_ids =
            (r.shuffle (e.own.sample_ids ++ map (λ o. o.order_id) sample)
              (r.seed (bit_xor config.rng_seed 0xDEADC0DE12345678))).0;
      };
    },
  )

  keep_before_count : ℕ → Method (Experiment D S Own) (Unit {0})
  keep_before_count n e = (ok tt, record e { own = record e.own { before_sstable_count = n } })

  keep_after_count : ℕ → Method (Experiment D S Own) (Unit {0})
  keep_after_count n e = (ok tt, record e { own = record e.own { after_sstable_count = n } })

  -- `setup` behind its early return
  prepare : Method (Experiment D S Own) (Unit {0})
  unfolding keep_ids keep_before_count
  prepare = do
    sample ← lift (sample_random_orders r dataset config.rng_seed config.read_sample_size)
    keep_ids sample
    n ← on_world get_sstable_count
    keep_before_count n

  unfoldable pub setup : Method (Experiment D S Own) (Unit {0})
  unfolding label prepare
  setup e =
      if text_eq db.get_db_name (text "cassandra")
      then prepare (label e).1
      else (ok tt, record (label e).1 { own = record e.own { should_skip = true } })

  pub before_reads : Method (Experiment D S Own) (Unit {0})
  before_reads e =
      let (res, (w, rec)) =
        timed_phase m db.find_by_primary_key e.own.sample_ids (e.world, e.own.before_recorder) in
      (res, record e { world = w; own = record e.own { before_recorder = rec } })

  after_reads : Method (Experiment D S Own) (Unit {0})
  after_reads e =
      let (res, (w, rec)) =
        timed_phase m db.find_by_primary_key e.own.sample_ids (e.world, e.own.after_recorder) in
      (res, record e { world = w; own = record e.own { after_recorder = rec } })

  -- `run` behind its early return
  unfoldable pub phases : Method (Experiment D S Own) (Unit {0})
  unfolding before_reads after_reads keep_after_count
  phases = do
    before_reads
    on_world run_compaction
    n ← on_world get_sstable_count
    keep_after_count n
    after_reads

  unfoldable pub run : Method (Experiment D S Own) (Unit {0})
  run e = if e.own.should_skip then (ok tt, e) else phases e

  unfoldable pub run_experiment : Method (Experiment D S Own) (Unit {0})
  run_experiment = execute m setup run (teardown m)

  -- the result of an experiment that was skipped
  unfoldable pub skipped_result : BenchmarkResult D
  unfolding default_result
  skipped_result = record default_result {
    database = db.get_db_name;
    experiment_name = text "exp_06_compaction";
    phase = [];
    notes = skipped_note;
  }

  unfoldable pub phase_labels : Text → ℕ → BenchmarkResult D → BenchmarkResult D
  phase_labels phase sstables stats = record stats {
    database = text "cassandra";
    experiment_name = text "exp_06_compaction";
    operation = text "point_read";
    index_type = text "primary";
    phase = phase;
    thread_count = 1;
    sstable_count = sstables;
  }

  unfoldable pub get_before_result : Own → Outcome (BenchmarkResult D)
  unfolding skipped_result phase_labels
  get_before_result own =
      if own.should_skip
      then ok skipped_result
      else mapped (phase_labels (text "before_compaction") own.before_sstable_count)
          (compute_stats own.before_recorder)

  -- the ratio of the two 99th percentiles in `notes`, cut to four characters
  unfoldable pub improvement : BenchmarkResult D → BenchmarkResult D → BenchmarkResult D
  improvement before after = record after {
    notes =
        let ratio = if d.lt nought after.p99_us then d.div before.p99_us after.p99_us else nought in
        text "p99 improvement: " ++ take 4 (d.to_string ratio) ++ text "x after compaction";
  }

  -- the note, if there were reads before the compaction
  abbrev pub compared : Own → BenchmarkResult D → Outcome (BenchmarkResult D)
  compared own after =
      if ltb 0 (count own.before_recorder)
      then mapped (λ before. improvement before after) (compute_stats own.before_recorder)
      else ok after

  -- the result behind the early return, for how `compute_stats` ends
  abbrev pub after_result : Own → Outcome (BenchmarkResult D) → Outcome (BenchmarkResult D)
  after_result own (ok stats) =
      compared own (phase_labels (text "after_compaction") own.after_sstable_count stats)
  after_result own (throw x) = throw x
  after_result own undefined = undefined

  unfoldable pub get_after_result : Own → Outcome (BenchmarkResult D)
  unfolding skipped_result phase_labels improvement
  get_after_result own =
      if own.should_skip
      then ok skipped_result
      else after_result own (compute_stats own.after_recorder)
