-- ===== src/Db/MongoClient/Inserts.antt =====
-- src/experiment/Experiment1.cpp on the database of src/db/MongoClient.cpp.
use db_benchmark.Prelude.{
  false, All, All-append, ◌≡◌, refl, ap, ◌∙◌, min, List, [], ◌∷◌, ◌++◌, map, map-append, take,
  length, inl, inr,
}
use db_benchmark.Prelude.Int.{ℤ, pos}
use db_benchmark.Cpp.Outcome.{Outcome, ok, throw, undefined, outcome_cases}
use db_benchmark.Cpp.Text.{text, text_eq}
use db_benchmark.Cpp.Double.{Double, nought}
use db_benchmark.Config.{DatabaseConfig, BenchmarkConfig}
use db_benchmark.Data.Order.{Order, empty_order}
use db_benchmark.Experiment.Platform.{Platform, KeepsLatencies}
use db_benchmark.Experiment.ExperimentBase.{Experiment, timed, timed_record, timed_loop}
use db_benchmark.Metrics.LatencyRecorder.{LatencyRecorder}
use db_benchmark.Experiment.ExperimentBase.Timing.{throw≢ok, undefined≢ok}
use db_benchmark.Experiment.Experiment1.{run_experiment}
use db_benchmark.Experiment.Experiment1.Table.{run_experiment_returns}
use db_benchmark.Db.Contract.{KeepsRows}
use db_benchmark.Db.MongoClient.{Bson, FindsFirst, order_to_bson, bson_to_order}
use db_benchmark.Db.MongoClient.RoundTrip.{bson_to_order-order_to_bson}
use db_benchmark.Db.MongoClient.Driver.{Driver, KeepsDocuments, AcceptsNew, is_match}
use db_benchmark.Db.MongoClient.Lookup.{Lacks, id-order_to_bson}
use db_benchmark.Db.MongoClient.Client.{insert_options, insert_one, clear_table, mongo}

-- no two of the orders have the same id
abbrev pub HasDistinctIds : {D : Type 0} → List (Order D) → Type 0
HasDistinctIds [] = Unit
HasDistinctIds (o ∷ orders) =
    All (λ p. text_eq o.order_id p.order_id ≡ false) orders × HasDistinctIds orders

module _ {D : Type 0} ⦃d : Double D⦄ (b : Bson D) (amount : D) (quantity : ℤ) where
  abbrev pub order_or_empty : Outcome (Order D) → Order D
  order_or_empty (ok o) = o
  order_or_empty (throw e) = empty_order nought (pos 0)
  order_or_empty undefined = empty_order nought (pos 0)

  -- the order of a document, or an empty one where it is the document of none
  unfoldable pub decode : b.Document → Order D
  decode doc = order_or_empty (bson_to_order b amount quantity doc)

module _ {D : Type 0} ⦃d : Double D⦄ (b : Bson D) (finds : FindsFirst b) (amount : D) (quantity : ℤ)
    {S : Type 0} (driver : Driver b S) (config : DatabaseConfig) (m : Platform S)
    (keeps : KeepsDocuments b driver m) where
  pub decode-order_to_bson : (o : Order D) → decode b amount quantity (order_to_bson b o) ≡ o
  unfolding decode
  decode-order_to_bson o =
      ap (order_or_empty b amount quantity) (bson_to_order-order_to_bson b finds amount quantity o)

  -- the collection as a table
  abbrev pub table : S → List (Order D)
  table w = map (decode b amount quantity) (keeps.documents w)

  table-clear_table :
      (w : S)
      → (clear_table b amount quantity driver config w).0 ≡ ok tt
      → table (clear_table b amount quantity driver config w).1 ≡ []
  unfolding clear_table
  table-clear_table w h = elim (outcome_cases (driver.drop w).0) [
    | inl (a, e) ↦ rw e (
        ap (map (decode b amount quantity)) (
          keeps.documents-use_collection (text "orders") (driver.drop w).1
            (keeps.documents-drop w e)))
    | inr (inl (x, e)) ↦ absurd (throw≢ok x tt (rw e at h))
    | inr (inr e) ↦ absurd (undefined≢ok tt (rw e at h))
  ]

  table-insert_one :
      (o : Order D) (w : S)
      → (insert_one b amount quantity driver config o w).0 ≡ ok tt
      → table (insert_one b amount quantity driver config o w).1 ≡ table w ++ o ∷ []
  unfolding insert_one
  table-insert_one o w h =
      ap (map (decode b amount quantity))
        (keeps.documents-insert_one (order_to_bson b o) insert_options w h)
      ∙ map-append (decode b amount quantity) (keeps.documents w) (order_to_bson b o ∷ [])
      ∙ ap (λ x. table w ++ x ∷ []) (decode-order_to_bson o)

  -- the interface that the experiments rely on, filled
  mongo-KeepsRows : KeepsRows m (mongo b amount quantity driver config)
  unfolding mongo insert_one
  mongo-KeepsRows = record {
    rows = table;
    rows-now = λ w. ap (map (decode b amount quantity)) (keeps.documents-now w);
    rows-start_timer =
        λ rec w. ap (map (decode b amount quantity)) (keeps.documents-start_timer rec w);
    rows-clear_table = table-clear_table;
    rows-insert_one = table-insert_one;
    rows-insert_one_failed = λ o w e h.
        ap (map (decode b amount quantity))
          (keeps.documents-insert_one_failed (order_to_bson b o) insert_options w e h);
  }

  module _ (accepts : AcceptsNew b driver m keeps) where
    -- no document has the id of one of the orders
    abbrev AreNew : List (Order D) → S → Type 0
    AreNew xs w = All (λ o. Lacks b (text "_id") o.order_id (keeps.documents w)) xs

    -- an inserted order takes no other id
    AreNew-after :
        (o : Order D) (xs : List (Order D)) (w w' : S)
        → keeps.documents w' ≡ keeps.documents w ++ order_to_bson b o ∷ []
        → All (λ p. text_eq o.order_id p.order_id ≡ false) xs
        → AreNew xs w
        → AreNew xs w'
    AreNew-after o [] w w' added others fresh = tt
    AreNew-after o (p ∷ xs) w w' added (other, others) (lacks, fresh) = (
      rw added (
          All-append (λ doc. is_match b (text "_id") p.order_id doc ≡ false) (keeps.documents w)
            (order_to_bson b o ∷ []) lacks (rw (id-order_to_bson b finds o) other, tt)),
      AreNew-after o xs w w' added others fresh,
    )

    -- the loop of inserts of new ids returns
    mongo_loop_returns :
        (xs : List (Order D)) (w : S) (rec : LatencyRecorder)
        → HasDistinctIds xs
        → AreNew xs w
        → (timed_loop m (insert_one b amount quantity driver config) xs (w, rec)).0 ≡ ok tt
    unfolding timed_loop timed_record timed insert_one
    mongo_loop_returns [] w rec distinct fresh = refl
    mongo_loop_returns (o ∷ xs) w rec (others, distinct) (lacks, fresh) =
        let w₁ = (m.now w).1 in
        let doc = order_to_bson b o in
        let still = keeps.documents-now w in
        let inserted =
          accepts.insert_one-ok doc insert_options w₁ o.order_id (id-order_to_bson b finds o)
            (rw still lacks) in
        let w₃ = (m.now (driver.insert_one doc insert_options w₁).1).1 in
        let added : keeps.documents w₃ ≡ keeps.documents w ++ doc ∷ [] =
          keeps.documents-now (driver.insert_one doc insert_options w₁).1
          ∙ keeps.documents-insert_one doc insert_options w₁ inserted
          ∙ ap (λ docs. docs ++ doc ∷ []) still in
        rw inserted (mongo_loop_returns xs _ _ distinct (AreNew-after o xs w w₃ added others fresh))

    -- Experiment 1 on MongoDB, over a driver whose collection keeps its documents as `KeepsDocuments`
    -- says and a server that fails no drop and no insert of a new id, for a dataset whose orders to
    -- insert have different ids: it returns from any state whose recorder is fresh; read back as orders,
    -- the documents of the collection are then the first `total_rows` orders of the dataset, or all of
    -- them if it has fewer, in order and whatever the collection held before; and `total_ops` is their
    -- number, for the database mongo.
    pub experiment1_on_mongo :
        (dataset : List (Order D)) (benchmark : BenchmarkConfig) (e : Experiment D S (Unit {0}))
        → KeepsLatencies m
        → e.recorder.latencies_us ≡ []
        → HasDistinctIds (take (min (length dataset) benchmark.total_rows) dataset)
        → (e' : Experiment D S (Unit {0})) × (run_experiment m
              (mongo b amount quantity driver config)
              dataset
              benchmark
              e
            ≡ (ok tt, e'))
          × (map (decode b amount quantity) (keeps.documents e'.world)
              ≡ take (min (length dataset) benchmark.total_rows) dataset)
          × (e'.result.total_ops ≡ min (length dataset) benchmark.total_rows)
          × (e'.result.operation ≡ text "insert")
          × (e'.result.database ≡ text "mongo")
    unfolding mongo mongo-KeepsRows clear_table
    experiment1_on_mongo dataset benchmark e timers fresh distinct =
        let xs = take (min (length dataset) benchmark.total_rows) dataset in
        let w₁ = (clear_table b amount quantity driver config e.world).1 in
        let dropped = accepts.drop-ok e.world in
        let cleared : (clear_table b amount quantity driver config e.world).0 ≡ ok tt =
          rw dropped refl in
        let no_documents : keeps.documents w₁ ≡ [] = rw dropped (
          keeps.documents-use_collection (text "orders") (driver.drop e.world).1
            (keeps.documents-drop e.world dropped)) in
        let no_rows = keeps.documents-start_timer e.recorder w₁ ∙ no_documents in
        run_experiment_returns m (mongo b amount quantity driver config) mongo-KeepsRows dataset
          benchmark e timers fresh cleared
          (mongo_loop_returns xs (m.start_timer e.recorder w₁).1 (m.start_timer e.recorder w₁).0
            distinct (AreNew-none xs (m.start_timer e.recorder w₁).1 no_rows))
      where
        AreNew-none : (ys : List (Order D)) (w : S) → keeps.documents w ≡ [] → AreNew ys w
        AreNew-none [] w h = tt
        AreNew-none (o ∷ ys) w h = (rw h tt, AreNew-none ys w h)
