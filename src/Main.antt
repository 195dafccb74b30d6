-- ===== src/Main.antt =====
-- src/main.cpp, on a world that the clients act on. What it prints is not modelled. It takes the
-- number of orders from `config.totalrows`, which is no member; it is read as `total_rows`.
pub mod Exit
use db_benchmark.Prelude.{ℕ, Bool, List, [], ◌∷◌, if◌then◌else◌}
use db_benchmark.Cpp.Outcome.{Outcome, ok, throw, undefined}
use db_benchmark.Cpp.Method.{Method, then_do, pure, ◌>>◌, ◌>>=◌}
use db_benchmark.Cpp.Text.{Text, text}
use db_benchmark.Cpp.Double.{Double}
use db_benchmark.Cpp.Random.{Random}
use db_benchmark.Config.{BenchmarkConfig}
use db_benchmark.Config.ConfigLoader.{Yaml, load}
use db_benchmark.Data.Order.{Order}
use db_benchmark.Data.DataGenerator.{DataGenerator, new_generator, generate_n}
use db_benchmark.Db.DbInterface.{DbInterface}

module _ {S : Type 0} where
  -- `catch (...) {}`: how a call that is defined ended does not matter
  abbrev pub ignore : Outcome (Unit {0}) → Method S (Unit {0}) → Method S (Unit {0})
  ignore (ok a) rest = rest
  ignore (throw e) rest = rest
  ignore undefined rest = λ w. (undefined, w)

module _ {D S : Type 0} where
  -- an exception leaves the loop as it came
  unfoldable pub verify_connections : List (Text × DbInterface D S) → Method S (Unit {0})
  verify_connections [] = pure tt
  verify_connections ((name, client) ∷ clients) = do client.connect; verify_connections clients

  unfoldable pub disconnect_all : List (Text × DbInterface D S) → Method S (Unit {0})
  disconnect_all [] w = (ok tt, w)
  disconnect_all ((name, client) ∷ clients) w =
      ignore (client.disconnect w).0 (disconnect_all clients) (client.disconnect w).1

  unfoldable pub clients_of : DbInterface D S → BenchmarkConfig → List (Text × DbInterface D S)
  clients_of pg_client config =
      if config.postgres.enabled then (text "postgres", pg_client) ∷ [] else []

unfoldable pub config_path : List Text → Text
config_path (program ∷ path ∷ _) = path
config_path _ = text "./config/benchmark.yaml"

module _ {D : Type 0} ⦃d : Double D⦄ (r : Random D) where
  -- the exit code after the generation of the data, for how it ended
  abbrev pub after_data : Outcome (List (Order D)) → Outcome ℕ
  after_data (ok dataset) = ok 0
  after_data (throw e) = throw e
  after_data undefined = undefined

  -- the exit code, for how `verify_connections` ended
  abbrev pub after_connections : BenchmarkConfig → Outcome (Unit {0}) → Outcome ℕ
  after_connections config (ok a) =
      after_data (generate_n r config.total_rows (new_generator r config.rng_seed)).0
  after_connections config (throw e) = ok 1
  after_connections config undefined = undefined

  -- `client` makes the client of a configuration
  abbrev pub with_config :
      {S : Type 0} → (BenchmarkConfig → DbInterface D S) → Outcome BenchmarkConfig → Method S ℕ
  with_config client (ok config) w =
      let (res, w') = verify_connections (clients_of (client config) config) w in
      (after_connections config res, w')
  with_config client (throw e) w = (ok 1, w)
  with_config client undefined w = (undefined, w)

  unfoldable pub main :
      {S : Type 0} → Yaml → (BenchmarkConfig → DbInterface D S) → List Text → Method S ℕ
  main y client argv = with_config client (load y (config_path argv))
