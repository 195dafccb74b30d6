-- ===== src/Config/ConfigLoader.antt =====
-- src/config/ConfigLoader.cpp. yaml-cpp is a parameter: its nodes, the look-up of a key, the
-- conversions, which may throw, and the loading of a file. The loader names two members that
-- `BenchmarkConfig` does not have, `totalrows` and `range_window_samll`; they are read as
-- `total_rows` and `range_window_small`.
pub mod Load
use db_benchmark.Prelude.{ℕ, Bool, true, [], ◌++◌, ◌∷◌, not, if◌then◌else◌}
use db_benchmark.Prelude.Int.{ℤ, pos}
use db_benchmark.Cpp.Outcome.{Outcome, ok, throw, runtime_error, ◌>>=◌}
use db_benchmark.Cpp.Text.{Text, text}
use db_benchmark.Config.{DatabaseConfig, BenchmarkConfig, default_database, default_config}

-- how `YAML::LoadFile` ends: the two exceptions carry their `what()`
pub data Loaded (N : Type 0) : Type 0 where
  document : N → Loaded N
  bad_file parser_exception : Text → Loaded N

pub record Yaml : Type 1 where
  pub Node : Type 0
  -- `node[key]`
  pub child : Node → Text → Node
  -- the conversion of a node to `bool`
  pub is_defined : Node → Bool
  -- `as<std::string>`, `as<bool>`, `as<int>` and, by the width in bits, `as<uintN_t>`
  pub as_text : Node → Outcome Text
  pub as_bool : Node → Outcome Bool
  pub as_int : Node → Outcome ℤ
  pub as_uint : ℕ → Node → Outcome ℕ
  pub load_file : Text → Loaded Node

module _ (y : Yaml) where
  open y use {Node, child, is_defined, as_text, as_bool, as_int, as_uint, load_file}

  unfoldable pub get_or {ℓ} : {A : Type ℓ} → (Node → Outcome A) → Node → Text → A → Outcome A
  get_or convert node key default_val =
      if is_defined (child node key) then convert (child node key) else ok default_val

  -- the branch of a missing section
  unfoldable pub missing_section : DatabaseConfig
  missing_section = record {
    host = text "default_host";
    port = 1234;
    username = text "default_user";
    password = text "default_pass";
    database_name = text "benchmark";
    enabled = true;
  }

  unfoldable pub parse_db_config : Node → Text → ℕ → Text → Text → Outcome DatabaseConfig
  unfolding get_or missing_section
  parse_db_config node default_host default_port default_user default_pass =
      if not (is_defined node) then ok missing_section else do
        host ← get_or as_text node (text "host") default_host
        port ← get_or (as_uint 16) node (text "port") default_port
        username ← get_or as_text node (text "username") default_user
        password ← get_or as_text node (text "password") default_pass
        database_name ← get_or as_text node (text "database_name") (text "benchmark")
        enabled ← get_or as_bool node (text "enabled") true
        ok (record {
          host = host;
          port = port;
          username = username;
          password = password;
          database_name = database_name;
          enabled = enabled;
        })

  unfoldable pub load_document : Node → Outcome BenchmarkConfig
  unfolding get_or
  load_document yaml = do
    total_rows ← get_or (as_uint 64) yaml (text "total_rows") 1_000_000
    read_sample_size ← get_or (as_uint 64) yaml (text "read_sample_size") 10_000
    batch_size ← get_or (as_uint 32) yaml (text "batch_size") 500
    thread_count ← get_or (as_uint 32) yaml (text "thread_count") 8
    description_length ← get_or (as_uint 32) yaml (text "description_length") 500
    rng_seed ← get_or (as_uint 64) yaml (text "rng_seed") 42
    small ← get_or as_int yaml (text "range_window_small") (pos 1)
    medium ← get_or as_int yaml (text "range_window_medium") (pos 7)
    large ← get_or as_int yaml (text "range_window_large") (pos 30)
    results_dir ← get_or as_text yaml (text "results_dir") (text "./results")
    postgres ←
        parse_db_config (child yaml (text "postgres")) (text "localhost") 5432 (text "bench")
          (text "bench")
    mongo ←
        parse_db_config (child yaml (text "mongo")) (text "localhost") 27017 (text "bench")
          (text "bench")
    cassandra ←
        parse_db_config (child yaml (text "cassandra")) (text "localhost") 9042 (text "cassandra")
          (text "cassandra")
    ok (record {
      total_rows = total_rows;
      read_sample_size = read_sample_size;
      batch_size = batch_size;
      thread_count = thread_count;
      description_length = description_length;
      range_window_small = small;
      range_window_medium = medium;
      range_window_large = large;
      results_dir = results_dir;
      rng_seed = rng_seed;
      postgres = postgres;
      mongo = mongo;
      cassandra = cassandra;
    })

  unfoldable pub load : Text → Outcome BenchmarkConfig
  unfolding load_document
  load path = elim (load_file path) [
    | document yaml ↦ load_document yaml
    | bad_file what ↦
        throw (runtime_error (text "ConfigLoader cannot open config file: " ++ path ++ 10 ∷ what))
    | parser_exception what ↦
        throw (runtime_error (text "ConfigLoader YAML parse error inn " ++ path ++ 10 ∷ what))
  ]
