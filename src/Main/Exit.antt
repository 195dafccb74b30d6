-- ===== src/Main/Exit.antt =====
-- How src/main.cpp ends.
use db_benchmark.Prelude.{ℕ, suc, ◌≡◌, ◌≢◌, refl, inl, inr, true, List, [], ◌∷◌, arith}
use db_benchmark.Cpp.Outcome.{Exception, ok, throw, undefined, outcome_cases}
use db_benchmark.Cpp.Text.{Text}
use db_benchmark.Cpp.Double.{Double}
use db_benchmark.Cpp.Random.{Random}
use db_benchmark.Config.{BenchmarkConfig}
use db_benchmark.Config.ConfigLoader.{Yaml, load}
use db_benchmark.Db.DbInterface.{DbInterface}
use db_benchmark.Data.DataGenerator.{new_generator, generate_n}
use db_benchmark.Data.DataGenerator.Samples.{generate_n_undefined}
use db_benchmark.Main.{verify_connections, disconnect_all, clients_of, config_path, main}

module _ {D S : Type 0} where
  -- `disconnect_all` never throws, whatever the clients throw.
  pub disconnect-NeverThrows :
      (clients : List (Text × DbInterface D S)) (w : S) (x : Exception)
      → (disconnect_all clients w).0 ≢ throw x
  unfolding disconnect_all
  disconnect-NeverThrows [] w x = λ h. ground arith
  disconnect-NeverThrows ((name, client) ∷ clients) w x =
      elim (outcome_cases (client.disconnect w).0) [
        | inl (a, e) ↦ rw e (disconnect-NeverThrows clients (client.disconnect w).1 x)
        | inr (inl (x', e)) ↦ rw e (disconnect-NeverThrows clients (client.disconnect w).1 x)
        | inr (inr e) ↦ rw e (λ h. ground arith)
      ]

  verify_one :
      (pg : DbInterface D S) (config : BenchmarkConfig) (w : S)
      → config.postgres.enabled ≡ true
      → (x : Exception) → (pg.connect w).0 ≡ throw x
      → (verify_connections (clients_of pg config) w).0 ≡ throw x
  unfolding verify_connections clients_of
  verify_one pg config w enabled x failed = rw (enabled, failed) refl

  module _ ⦃d : Double D⦄ (r : Random D) where
    -- How `main` ends, from any state of the world and for any arguments. If the configuration does
    -- not load, it exits with 1 and touches nothing. If it loads, but PostgreSQL is enabled and the
    -- connection throws, it exits with 1 too. If all connections are made, it exits with 0 when no
    -- rows are asked for, and its behaviour is undefined when one or more are.
    pub main_lem :
        (y : Yaml) (client : BenchmarkConfig → DbInterface D S) (argv : List Text) (w : S)
        → ((x : Exception)
            → load y (config_path argv) ≡ throw x
            → main r y client argv w ≡ (ok 1, w))
          × ((config : BenchmarkConfig)
              → load y (config_path argv) ≡ ok config
              → ((x : Exception)
                  → config.postgres.enabled ≡ true
                  → ((client config).connect w).0 ≡ throw x
                  → (main r y client argv w).0 ≡ ok 1)
                × ((verify_connections (clients_of (client config) config) w).0 ≡ ok tt
                    → (config.total_rows ≡ 0 → (main r y client argv w).0 ≡ ok 0)
                      × ((n : ℕ)
                          → config.total_rows ≡ suc n
                          → (main r y client argv w).0 ≡ undefined)))
    unfolding main generate_n
    main_lem y client argv w = (
      λ x failed. rw failed refl,
      λ config loaded. rw loaded (
        λ x enabled failed. rw (verify_one (client config) config w enabled x failed) refl,
        λ connected. (
          λ none. rw (connected, none) refl,
          λ n some.
              rw (connected, some, (generate_n_undefined r n (new_generator r config.rng_seed)).1)
                refl,
        ),
      ),
    )
