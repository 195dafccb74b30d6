-- ===== src/Config/ConfigLoader/Load.antt =====
-- What `load` and `parse_db_config` of src/config/ConfigLoader.cpp give for whole documents.
use db_benchmark.Prelude.{ℕ, ◌≡◌, true, false}
use db_benchmark.Cpp.Outcome.{Outcome, ok}
use db_benchmark.Cpp.Text.{Text, text}
use db_benchmark.Config.{DatabaseConfig, BenchmarkConfig, default_config}
use db_benchmark.Config.ConfigLoader.{
  Yaml, document, get_or, missing_section, parse_db_config, load_document, load,
}

module _ (y : Yaml) where
  open y use {Node, child, is_defined, as_text, as_bool, as_int, as_uint, load_file}

  -- the node holds a value under the key
  abbrev pub Holds {ℓ} : {A : Type ℓ} → (Node → Outcome A) → Node → Text → A → Type ℓ
  Holds convert node key v =
      (is_defined (child node key) ≡ true) × (convert (child node key) ≡ ok v)

  -- A section of a document that spells a database's configuration out.
  pub record IsSection (node : Node) (c : DatabaseConfig) : Type 0 where
    pub present : is_defined node ≡ true
    pub host : Holds as_text node (text "host") c.host
    pub port : Holds (as_uint 16) node (text "port") c.port
    pub username : Holds as_text node (text "username") c.username
    pub password : Holds as_text node (text "password") c.password
    pub database_name : Holds as_text node (text "database_name") c.database_name
    pub enabled : Holds as_bool node (text "enabled") c.enabled

  -- A document that spells the whole configuration out.
  pub record IsDocument (node : Node) (c : BenchmarkConfig) : Type 0 where
    pub total_rows : Holds (as_uint 64) node (text "total_rows") c.total_rows
    pub read_sample_size : Holds (as_uint 64) node (text "read_sample_size") c.read_sample_size
    pub batch_size : Holds (as_uint 32) node (text "batch_size") c.batch_size
    pub thread_count : Holds (as_uint 32) node (text "thread_count") c.thread_count
    pub description_length :
        Holds (as_uint 32) node (text "description_length") c.description_length
    pub rng_seed : Holds (as_uint 64) node (text "rng_seed") c.rng_seed
    pub range_window_small : Holds as_int node (text "range_window_small") c.range_window_small
    pub range_window_medium : Holds as_int node (text "range_window_medium") c.range_window_medium
    pub range_window_large : Holds as_int node (text "range_window_large") c.range_window_large
    pub results_dir : Holds as_text node (text "results_dir") c.results_dir
    pub postgres : IsSection (child node (text "postgres")) c.postgres
    pub mongo : IsSection (child node (text "mongo")) c.mongo
    pub cassandra : IsSection (child node (text "cassandra")) c.cassandra

  get_or-Holds {ℓ} :
      {A : Type ℓ} (convert : Node → Outcome A) (node : Node) (key : Text) (default_val v : A)
      → Holds convert node key v
      → get_or y convert node key default_val ≡ ok v
  unfolding get_or
  get_or-Holds convert node key default_val v (present, value) = rw present value

  parse_db_config-IsSection :
      (node : Node) (c : DatabaseConfig) (host : Text) (port : ℕ) (user pass : Text)
      → IsSection node c
      → parse_db_config y node host port user pass ≡ ok c
  unfolding parse_db_config
  parse_db_config-IsSection node c host port user pass s = rw (
    s.present, s.host.0, s.host.1, s.port.0, s.port.1, s.username.0, s.username.1, s.password.0,
    s.password.1, s.database_name.0, s.database_name.1, s.enabled.0, s.enabled.1,
  )

  load_document-IsDocument :
      (node : Node) (c : BenchmarkConfig) → IsDocument node c → load_document y node ≡ ok c
  unfolding load_document
  load_document-IsDocument node c s = rw (
    s.total_rows.0,
    s.total_rows.1,
    s.read_sample_size.0,
    s.read_sample_size.1,
    s.batch_size.0,
    s.batch_size.1,
    s.thread_count.0,
    s.thread_count.1,
    s.description_length.0,
    s.description_length.1,
    s.rng_seed.0,
    s.rng_seed.1,
    s.range_window_small.0,
    s.range_window_small.1,
    s.range_window_medium.0,
    s.range_window_medium.1,
    s.range_window_large.0,
    s.range_window_large.1,
    s.results_dir.0,
    s.results_dir.1,
    parse_db_config-IsSection _ c.postgres _ _ _ _ s.postgres,
    parse_db_config-IsSection _ c.mongo _ _ _ _ s.mongo,
    parse_db_config-IsSection _ c.cassandra _ _ _ _ s.cassandra,
  )

  -- A document that spells a configuration out is loaded as that configuration.
  pub load-IsDocument :
      (path : Text) (node : Node) (c : BenchmarkConfig)
      → load_file path ≡ document node
      → IsDocument node c
      → load y path ≡ ok c
  unfolding load
  load-IsDocument path node c found s = rw (found, load) (load_document-IsDocument node c s)

  -- A missing section of a database is not an error, and the defaults that the caller passes for
  -- the section are ignored: whatever they are, the result is the same.
  pub parse_db_config_missing :
      (node : Node) (host host' : Text) (port port' : ℕ) (user user' pass pass' : Text)
      → is_defined node ≡ false
      → parse_db_config y node host port user pass ≡ parse_db_config y node host' port' user' pass'
  unfolding parse_db_config
  parse_db_config_missing node host host' port port' user user' pass pass' h = rw h

  abbrev empty_config : ℕ → BenchmarkConfig
  empty_config port = record (default_config port) {
    description_length = 500;
    postgres = missing_section y;
    mongo = missing_section y;
    cassandra = missing_section y;
  }

  load_document_empty :
      (node : Node) (port : ℕ)
      → ((key : Text) → is_defined (child node key) ≡ false)
      → load_document y node ≡ ok (empty_config port)
  unfolding load_document default_config parse_db_config
  load_document_empty node port none = rw (
    none (text "total_rows"),
    none (text "read_sample_size"),
    none (text "batch_size"),
    none (text "thread_count"),
    none (text "description_length"),
    none (text "rng_seed"),
    none (text "range_window_small"),
    none (text "range_window_medium"),
    none (text "range_window_large"),
    none (text "results_dir"),
    none (text "postgres"),
    none (text "mongo"),
    none (text "cassandra"),
  )

  -- A document without any key is loaded as the default configuration, but for the length of the
  -- descriptions, which is 500 and not the 600 of the member's initialiser, and for the databases,
  -- which all get the placeholders of a missing section.
  pub load_empty :
      (path : Text) (node : Node) (port : ℕ)
      → load_file path ≡ document node
      → ((key : Text) → is_defined (child node key) ≡ false)
      → load y path
        ≡ ok (record (default_config port) {
          description_length = 500;
          postgres = missing_section y;
          mongo = missing_section y;
          cassandra = missing_section y;
        })
  unfolding load
  load_empty path node port found none = rw (found, load) (load_document_empty node port none)
