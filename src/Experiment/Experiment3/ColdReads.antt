-- ===== src/Experiment/Experiment3/ColdReads.antt =====
-- What `setup` of src/experiment/Experiment3.cpp does before the reads.
use db_benchmark.Prelude.{
  zero, suc, ◌+◌, ◌<◌, ◌≡◌, ◌≢◌, refl, ap, ◌∙◌, min, Bool, true, List, ◌++◌, arith, length, map,
  All, count_if, count_if-append, ◌⊎◌, inl, inr,
}
use db_benchmark.Prelude.Int.{ℤ, pos, negsuc}
use db_benchmark.Cpp.Outcome.{Exception, ok, throw, runtime_error, what}
use db_benchmark.Cpp.Method.{Method, ◌>>◌}
use db_benchmark.Cpp.Text.{Text, text, text_eq}
use db_benchmark.Cpp.Double.{Double}
use db_benchmark.Cpp.Random.{Random, IsUniform}
use db_benchmark.Config.{BenchmarkConfig}
use db_benchmark.Data.Order.{Order}
use db_benchmark.Data.DataGenerator.Samples.{IsAmong}
use db_benchmark.Db.DbInterface.{DbInterface}
use db_benchmark.Experiment.Platform.{Platform}
use db_benchmark.Experiment.ExperimentBase.{Experiment, sample_random_orders}
use db_benchmark.Experiment.ExperimentBase.Samples.{sample_random_orders_lem}
use db_benchmark.Experiment.Experiment3.{
  label, keep_ids, setup, flush_cache, failed, get_container_name, rethrow, reconnect,
}

-- the names that the clients give themselves
abbrev pub IsDbName : Text → Type 0
IsDbName name = (name ≡ text "postgres") ⊎ ((name ≡ text "mongo") ⊎ (name ≡ text "cassandra"))

container_of : (name : Text) → IsDbName name → get_container_name name ≡ ok (text "bench_" ++ name)
unfolding get_container_name text_eq text
container_of name (inl e) = rw e refl
container_of name (inr (inl e)) = rw e refl
container_of name (inr (inr e)) = rw e refl

pub failed-pos : (rc : ℤ) → rc ≢ pos 0 → failed rc ≡ true
unfolding failed
failed-pos (pos zero) h = absurd (h refl)
failed-pos (pos (suc n)) h = ground arith
failed-pos (negsuc n) h = refl

module _ {D S : Type 0} ⦃d : Double D⦄ (r : Random D) (laws : IsUniform r) (m : Platform S)
    (db : DbInterface D S) (dataset : List (Order D)) (config : BenchmarkConfig)
    (e : Experiment D S (List Text)) where
  -- the command that flushes the cache of the database's container
  abbrev pub flush : ℤ × S
  flush = m.system (text "./scripts/flush_cache_mac.sh " ++ text "bench_" ++ db.get_db_name) e.world

  flow : Method S (Unit {0})
  flow = flush_cache m (text "bench_" ++ db.get_db_name) >> reconnect db.connect

  flow_failed :
      flush.0 ≢ pos 0
      → ((message : Text) × ((flow e.world).0 ≡ throw (runtime_error message)))
        × ((flow e.world).1 ≡ flush.1)
  unfolding flow flush_cache text reconnect
  flow_failed h = rw (failed-pos flush.0 h) ((_, refl), refl)

  flow_flushed :
      flush.0 ≡ pos 0
      → ((flow e.world).0 ≡ rethrow (db.connect flush.1).0)
        × ((flow e.world).1 ≡ (db.connect flush.1).1)
  unfolding flow flush_cache reconnect failed text
  flow_flushed h = rw h (refl, refl)

  -- the members after `setup`, and how it ends, by the steps on the world
  setup-flow :
      (sample : List (Order D))
      → sample_random_orders r dataset config.rng_seed config.read_sample_size ≡ ok sample
      → get_container_name db.get_db_name ≡ ok (text "bench_" ++ db.get_db_name)
      → ((setup r m db dataset config e).0 ≡ (flow e.world).0)
        × ((setup r m db dataset config e).1.world ≡ (flow e.world).1)
        × ((setup r m db dataset config e).1.own ≡ (keep_ids r m db dataset config sample e).1.own)
  unfolding setup label keep_ids flow
  setup-flow sample sampled named = rw (sampled, named) (refl, refl, refl)

  -- `setup` on a dataset that is not empty and a database named postgres, mongo or cassandra, with a
  -- shuffle that rearranges. In every case there is a sample of orders of the dataset,
  -- `read_sample_size` of them or the dataset's size if that is less, whose ids are added to
  -- `sample_ids_`, in some order. If the script that flushes the cache of the container fails,
  -- `setup` throws a runtime error and does not connect; if it succeeds, `setup` connects, returns if
  -- the connection does, and turns what it throws into a runtime error.
  pub setup_lem :
      0 < length dataset
      → IsDbName db.get_db_name
      → ((sample : List (Order D)) × (length sample ≡ min config.read_sample_size (length dataset))
          × All (IsAmong dataset) sample
          × ((p : Text → Bool)
              → count_if p (setup r m db dataset config e).1.own
                ≡ count_if p e.own + count_if p (map (λ o. o.order_id) sample)))
        × (flush.0 ≢ pos 0
            → ((message : Text) × ((setup r m db dataset config e).0
                  ≡ throw (runtime_error message)))
              × ((setup r m db dataset config e).1.world ≡ flush.1))
        × (flush.0 ≡ pos 0
            → ((setup r m db dataset config e).1.world ≡ (db.connect flush.1).1)
              × ((db.connect flush.1).0 ≡ ok tt → (setup r m db dataset config e).0 ≡ ok tt)
              × ((x : Exception)
                  → (db.connect flush.1).0 ≡ throw x
                  → (setup r m db dataset config e).0
                    ≡ throw (runtime_error (text "exp 03 reconnect after flush falied" ++ what x))))
  unfolding keep_ids
  setup_lem some_orders named =
      let (sample, sampled, size, among) =
        (sample_random_orders_lem r laws dataset config.rng_seed config.read_sample_size).0
          some_orders in
      let (res, world, own) = setup-flow sample sampled (container_of db.get_db_name named) in
      let ids = map (λ o. o.order_id) sample in
      (
        (
          sample,
          size,
          among,
          λ p. ap (count_if p) own ∙ laws.count_if-shuffle p _ _ ∙ count_if-append p e.own ids,
        ),
        λ h.
            let ((message, threw), stays) = flow_failed h in
            ((message, res ∙ threw), world ∙ stays),
        λ h.
            let (ends, leaves) = flow_flushed h in
            (
              world ∙ leaves,
              λ connected. res ∙ ends ∙ ap rethrow connected,
              λ x failed. res ∙ ends ∙ ap rethrow failed,
            ),
      )
