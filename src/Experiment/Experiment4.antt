-- ===== src/Experiment/Experiment4.antt =====
-- src/experiment/Experiment4.hpp and .cpp: point reads by the primary key and by a secondary index,
-- each kind with a recorder of its own. What it prints is not modelled.
pub mod BothIndexes
pub mod OnCassandra
use db_benchmark.Prelude.{[], ℕ, bit_xor, Bool, List, ◌++◌, map, if◌then◌else◌}
use db_benchmark.Cpp.Outcome.{Outcome, ok, mapped, both}
use db_benchmark.Cpp.Method.{Method, pure, lift, ◌>>=◌, ◌>>◌}
use db_benchmark.Cpp.Text.{Text, text, text_eq}
use db_benchmark.Cpp.Double.{Double}
use db_benchmark.Cpp.Random.{Random}
use db_benchmark.Metrics.BenchmarkResult.{BenchmarkResult}
use db_benchmark.Metrics.LatencyRecorder.{new_recorder, LatencyRecorder, compute_stats}
use db_benchmark.Config.{BenchmarkConfig}
use db_benchmark.Data.Order.{Order}
use db_benchmark.Data.DataGenerator.{new_generator, sample_user_ids}
use db_benchmark.Db.DbInterface.{DbInterface}
use db_benchmark.Experiment.Platform.{Platform}
use db_benchmark.Experiment.ExperimentBase.{
  Experiment, on_world, timed_phase, execute, sample_random_orders,
}

pub record Own : Type 0 where
  pub primary_recorder : LatencyRecorder
  pub secondary_recorder : LatencyRecorder
  pub primary_sample_ids : List Text
  pub secondary_sample_ids : List Text

-- the members that the constructor leaves
abbrev pub new_own : Own
new_own = record {
  primary_recorder = new_recorder;
  secondary_recorder = new_recorder;
  primary_sample_ids = [];
  secondary_sample_ids = [];
}

module _ {D S : Type 0} ⦃d : Double D⦄ (r : Random D) (m : Platform S) (db : DbInterface D S)
    (dataset : List (Order D)) (config : BenchmarkConfig) where
  label : Method (Experiment D S Own) (Unit {0})
  label e = (
    ok tt,
    record e {
      result = record e.result {
        database = db.get_db_name;
        experiment_name = text "exp4 secondary index read";
        thread_count = 1;
      };
    },
  )

  keep_primary : List (Order D) → Method (Experiment D S Own) (Unit {0})
  keep_primary sample e = (
    ok tt,
    record e {
      own = record e.own {
        primary_sample_ids = e.own.primary_sample_ids ++ map (λ o. o.order_id) sample;
      };
    },
  )

  keep_secondary : List Text → Method (Experiment D S Own) (Unit {0})
  keep_secondary ids e = (ok tt, record e { own = record e.own { secondary_sample_ids = ids } })

  -- the two shuffles, with one engine
  shuffle_ids : Method (Experiment D S Own) (Unit {0})
  shuffle_ids e =
      let (primary, g) =
        r.shuffle e.own.primary_sample_ids (r.seed (bit_xor config.rng_seed 0xABCDEF1234567890)) in
      let (secondary, _) = r.shuffle e.own.secondary_sample_ids g in
      (
        ok tt,
        record e {
          own = record e.own { primary_sample_ids = primary; secondary_sample_ids = secondary };
        },
      )

  unfoldable pub setup : Method (Experiment D S Own) (Unit {0})
  unfolding label keep_primary keep_secondary shuffle_ids
  setup = do
    label
    sample ← lift (sample_random_orders r dataset config.rng_seed config.read_sample_size)
    keep_primary sample
    ids ← lift (sample_user_ids r config.read_sample_size (new_generator r config.rng_seed))
    keep_secondary ids
    shuffle_ids
    on_world db.create_secondary_index

  primary_reads : Method (Experiment D S Own) (Unit {0})
  primary_reads e =
      let (res, (w, rec)) =
        timed_phase m db.find_by_primary_key e.own.primary_sample_ids
          (e.world, e.own.primary_recorder) in
      (res, record e { world = w; own = record e.own { primary_recorder = rec } })

  secondary_reads : Method (Experiment D S Own) (Unit {0})
  secondary_reads e =
      let (res, (w, rec)) =
        timed_phase m db.find_by_secondary_key e.own.secondary_sample_ids
          (e.world, e.own.secondary_recorder) in
      (res, record e { world = w; own = record e.own { secondary_recorder = rec } })

  unfoldable pub run : Method (Experiment D S Own) (Unit {0})
  unfolding primary_reads secondary_reads
  run = do primary_reads; secondary_reads

  unfoldable pub teardown : Method (Experiment D S Own) (Unit {0})
  teardown = on_world db.drop_secondary_index

  unfoldable pub run_experiment : Method (Experiment D S Own) (Unit {0})
  run_experiment = execute m setup run teardown

  unfoldable pub point_read_labels : Text → BenchmarkResult D → BenchmarkResult D
  point_read_labels index_type stats = record stats {
    database = db.get_db_name;
    experiment_name = text "exp4 secondary index read";
    operation = text "point_read";
    index_type = index_type;
    thread_count = 1;
  }

  unfoldable pub cassandra_notes : BenchmarkResult D → BenchmarkResult D
  cassandra_notes stats = record stats {
    notes =
        if text_eq db.get_db_name (text "cassandra")
        then text "Cassandra secondary read hits orders_by_user table "
          ++ text "primary key lookup on denormalzed table. "
          ++ text "Fast read - write amplication paid at insert time."
        else stats.notes;
  }

  unfoldable pub get_both_results : Own → Outcome (BenchmarkResult D × BenchmarkResult D)
  unfolding point_read_labels cassandra_notes
  get_both_results own =
      both (mapped (point_read_labels (text "primary")) (compute_stats own.primary_recorder)) (
        mapped (λ s. cassandra_notes (point_read_labels (text "secondary") s))
          (compute_stats own.secondary_recorder))
