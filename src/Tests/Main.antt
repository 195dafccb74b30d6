-- ===== src/Tests/Main.antt =====
-- Runs of the model of src/main.cpp, with an empty configuration file.
use db_benchmark.Prelude.{◌≡◌, refl, false, [], ◌∷◌}
use db_benchmark.Cpp.Outcome.{Outcome, ok, throw, undefined, other_exception}
use db_benchmark.Cpp.Text.{text}
use db_benchmark.Cpp.Milli.{milli}
use db_benchmark.Config.{BenchmarkConfig, default_config}
use db_benchmark.Config.ConfigLoader.{Yaml, document, missing_section}
use db_benchmark.Config.ConfigLoader.Load.{load_empty}
use db_benchmark.Main.{verify_connections, clients_of, config_path, main}
use db_benchmark.Main.Exit.{main_lem}
use db_benchmark.Tests.Machine.{counter, database, machine}

abbrev bad_conversion : {A : Type 0} → Outcome A
bad_conversion = throw (other_exception (text "bad conversion"))

abbrev empty_file : Yaml
empty_file = record {
  Node = Unit {0};
  child = λ node key. tt;
  is_defined = λ node. false;
  as_text = λ node. bad_conversion;
  as_bool = λ node. bad_conversion;
  as_int = λ node. bad_conversion;
  as_uint = λ bits node. bad_conversion;
  load_file = λ path. document tt;
}

abbrev config : BenchmarkConfig
config = record (default_config 0) {
  description_length = 500;
  postgres = missing_section empty_file;
  mongo = missing_section empty_file;
  cassandra = missing_section empty_file;
}

connected : (verify_connections (clients_of database config) machine).0 ≡ ok tt
unfolding verify_connections clients_of missing_section
connected = refl

main_lem_example :
    (main counter empty_file (λ c. database) (text "db_benchmark" ∷ []) machine).0 ≡ undefined
unfolding default_config config_path text
main_lem_example =
    (((main_lem counter empty_file (λ c. database) (text "db_benchmark" ∷ []) machine).1 config
          (load_empty empty_file (text "./config/benchmark.yaml") tt 0 refl (λ key. refl))).1
        connected).1
      999_999 refl
