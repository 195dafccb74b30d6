-- ===== src/Metrics/BenchmarkResult.antt =====
-- src/metrics/BenchmarkResult.hpp
use db_benchmark.Prelude.{ℕ, []}
use db_benchmark.Cpp.Text.{Text}
use db_benchmark.Cpp.Double.{Double, nought}

pub record BenchmarkResult (D : Type 0) : Type 0 where
  pub database : Text
  pub experiment_name : Text
  pub operation : Text
  pub index_type : Text
  pub phase : Text
  pub thread_count : ℕ
  pub total_ops : ℕ
  pub total_time_ms : D
  pub p50_us : D
  pub p95_us : D
  pub p99_us : D
  pub mean_us : D
  pub min_us : D
  pub max_us : D
  pub throughput_ops_sec : D
  pub sstable_count : ℕ
  pub result_set_size : ℕ
  pub notes : Text

-- `BenchmarkResult result;`, with the members' initialisers
unfoldable pub default_result : {D : Type 0} ⦃d : Double D⦄ → BenchmarkResult D
default_result = record {
  database = [];
  experiment_name = [];
  operation = [];
  index_type = [];
  phase = [];
  thread_count = 1;
  total_ops = 0;
  total_time_ms = nought;
  p50_us = nought;
  p95_us = nought;
  p99_us = nought;
  mean_us = nought;
  min_us = nought;
  max_us = nought;
  throughput_ops_sec = nought;
  sstable_count = 0;
  result_set_size = 0;
  notes = [];
}
