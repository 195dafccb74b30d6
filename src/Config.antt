-- ===== src/Config.antt =====
-- src/config: the configuration and how it is loaded. The switch is used nowhere.
pub mod ConfigLoader
use db_benchmark.Prelude.{ℕ, Bool, true, false, []}
use db_benchmark.Prelude.Int.{ℤ, pos}
use db_benchmark.Cpp.Text.{Text, text}

pub record DatabaseConfig : Type 0 where
  pub host : Text
  pub port : ℕ
  pub username : Text
  pub password : Text
  pub database_name : Text
  pub enabled : Bool

pub record BenchmarkConfig : Type 0 where
  pub total_rows : ℕ
  pub read_sample_size : ℕ
  pub batch_size : ℕ
  pub thread_count : ℕ
  pub description_length : ℕ
  pub range_window_small : ℤ
  pub range_window_medium : ℤ
  pub range_window_large : ℤ
  pub results_dir : Text
  pub rng_seed : ℕ
  pub postgres : DatabaseConfig
  pub mongo : DatabaseConfig
  pub cassandra : DatabaseConfig

-- `DatabaseConfig cfg;`: `port` has no initialiser, so its value is whatever `port` is here
unfoldable pub default_database : ℕ → DatabaseConfig
default_database port = record {
  host = [];
  port = port;
  username = [];
  password = [];
  database_name = [];
  enabled = true;
}

-- `BenchmarkConfig config;`, with the members' initialisers
unfoldable pub default_config : ℕ → BenchmarkConfig
unfolding default_database
default_config port = record {
  total_rows = 1_000_000;
  read_sample_size = 10_000;
  batch_size = 500;
  thread_count = 8;
  description_length = 600;
  range_window_small = pos 1;
  range_window_medium = pos 7;
  range_window_large = pos 30;
  results_dir = text "./results";
  rng_seed = 42;
  postgres = default_database port;
  mongo = default_database port;
  cassandra = default_database port;
}

pub record ExperimentSwitch : Type 0 where
  pub exp1 : Bool
  pub exp2 : Bool
  pub exp3 : Bool
  pub exp4 : Bool
  pub exp5 : Bool
  pub exp6 : Bool

-- the initialisers of the members
abbrev pub default_switch : ExperimentSwitch
default_switch = record {
  exp1 = true;
  exp2 = true;
  exp3 = false;
  exp4 = false;
  exp5 = false;
  exp6 = false;
}
