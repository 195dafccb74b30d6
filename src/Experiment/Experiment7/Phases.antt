-- ===== src/Experiment/Experiment7/Phases.antt =====
-- The two phases of a run of src/experiment/Experiment7.cpp.
use db_benchmark.Prelude.{
  ℕ, suc, ◌+◌, ◌≡◌, ◌≢◌, refl, sym, ap, ◌∙◌, inl, inr, min, List, [], ◌∷◌, ◌++◌, append-nil,
  append_assoc, arith, length, length-append, length-take, take, map,
}
use db_benchmark.Cpp.Outcome.{Outcome, ok, throw, undefined, outcome_cases, mapped}
use db_benchmark.Cpp.Text.{Text, text}
use db_benchmark.Cpp.Double.{Double}
use db_benchmark.Cpp.Random.{Random}
use db_benchmark.Metrics.BenchmarkResult.{BenchmarkResult}
use db_benchmark.Metrics.LatencyRecorder.{
  LatencyRecorder, new_recorder, record_latency, stop_timer, compute_stats, count,
}
use db_benchmark.Metrics.LatencyRecorder.Stats.{compute_stats_total}
use db_benchmark.Config.{BenchmarkConfig}
use db_benchmark.Data.Order.{Order}
use db_benchmark.Db.DbInterface.{DbInterface}
use db_benchmark.Db.Contract.{KeepsRows}
use db_benchmark.Experiment.Platform.{Platform, KeepsLatencies}
use db_benchmark.Experiment.ExperimentBase.{Experiment, timed, timed_record, timed_loop}
use db_benchmark.Experiment.Experiment1.Table.{insert_loop}
use db_benchmark.Experiment.Experiment7.{
  Own, write_one, write_loop, write_phase, phase_labels, end_phase,
}

module _ {D S : Type 0} ⦃d : Double D⦄ (r : Random D) (m : Platform S) (db : DbInterface D S)
    (dataset : List (Order D)) (config : BenchmarkConfig) where
  -- the ids of the first `j` orders were kept, and each was recorded
  abbrev pub IdsKept :
      List (Order D) → List Text → List Text → LatencyRecorder → LatencyRecorder → ℕ → Type 0
  IdsKept orders ids ids' rec rec' j =
      (ids' ≡ ids ++ map (λ o. o.order_id) (take j orders))
      × (length rec'.latencies_us ≡ length rec.latencies_us + j)

  IdsKept-cons :
      (o : Order D) (orders : List (Order D)) (ids ids' : List Text) (us : ℕ)
      (rec rec' : LatencyRecorder) (j : ℕ)
      → IdsKept orders (ids ++ o.order_id ∷ []) ids' (record_latency us rec) rec' j
      → IdsKept (o ∷ orders) ids ids' rec rec' (suc j)
  unfolding record_latency
  IdsKept-cons o orders ids ids' us rec rec' j (kept, size) = (
    kept ∙ append_assoc ids (o.order_id ∷ []) (map (λ x. x.order_id) (take j orders)),
    omega (arith, length-append rec.latencies_us (us ∷ [])),
  )

  -- the loop of `write_phase` is the loop of timed inserts, and keeps an id for each latency
  pub write_loop_lem :
      (orders : List (Order D)) (w : S) (rec : LatencyRecorder) (ids : List Text)
      → (j : ℕ) × ((write_loop r m db dataset config orders ((w, rec), ids)).0
          ≡ (timed_loop m db.insert_one orders (w, rec)).0)
        × ((write_loop r m db dataset config orders ((w, rec), ids)).1.0
            ≡ (timed_loop m db.insert_one orders (w, rec)).1)
        × IdsKept orders ids
            (write_loop r m db dataset config orders ((w, rec), ids)).1.1
            rec
            (timed_loop m db.insert_one orders (w, rec)).1.1
            j
  unfolding write_loop write_one timed_loop timed_record
  write_loop_lem [] w rec ids = (0, refl, refl, (sym (append-nil ids), omega arith))
  write_loop_lem (o ∷ orders) w rec ids =
      let w' = (timed m (db.insert_one o) w).1 in
      elim (outcome_cases (timed m (db.insert_one o) w).0) [
        | inl (us, e) ↦
            let (j, res, state, kept) =
              write_loop_lem orders w' (record_latency us rec) (ids ++ o.order_id ∷ []) in
            rw e (
              suc j,
              res,
              state,
              IdsKept-cons o orders ids
                  (write_loop r m db dataset config orders
                    ((w', record_latency us rec), ids ++ o.order_id ∷ [])).1.1
                  us rec (timed_loop m db.insert_one orders (w', record_latency us rec)).1.1 j kept,
            )
        | inr (inl (x, e)) ↦ rw e (0, refl, refl, (sym (append-nil ids), omega arith))
        | inr (inr e) ↦ rw e (0, refl, refl, (sym (append-nil ids), omega arith))
      ]

  abbrev pub n : ℕ
  n = min (length dataset) config.total_rows

  abbrev pub to_write : List (Order D)
  to_write = take n dataset

  -- the state of the loop in a run that begins in `w`
  abbrev pub begin_phase : S → S × LatencyRecorder
  begin_phase w = ((m.start_timer new_recorder w).1, (m.start_timer new_recorder w).0)

  abbrev pub writing : S → Outcome (Unit {0}) × ((S × LatencyRecorder) × List Text)
  writing w = write_loop r m db dataset config to_write (begin_phase w, [])

  -- the same first `k` orders were inserted, kept and recorded
  abbrev Corresponds : (S → List (Order D)) → S → S → LatencyRecorder → List Text → ℕ → Type 0
  Corresponds rows w w' rec ids k =
      (rows w' ≡ rows w ++ take k to_write)
      × (ids ≡ map (λ o. o.order_id) (take k to_write))
      × (length rec.latencies_us ≡ k)

  module _ (keeps : KeepsRows m db) (timers : KeepsLatencies m) where
    open keeps use {rows}

    fresh_recorder : (w : S) → length (begin_phase w).1.latencies_us ≡ 0
    unfolding new_recorder
    fresh_recorder w = ap length (timers.latencies-start_timer new_recorder w)

    writing_lem :
        (w : S)
        → (k : ℕ) × ((writing w).0 ≢ undefined
            → Corresponds rows w (writing w).1.0.0 (writing w).1.0.1 (writing w).1.1 k
              × ((writing w).0 ≡ ok tt → k ≡ length to_write))
    writing_lem w =
        let (w₁, rec) = begin_phase w in
        let (j, res, state, (ids, size)) = write_loop_lem to_write w₁ rec [] in
        let (k, inserted) = insert_loop m db keeps to_write w₁ rec in
        (
          k,
          λ defined.
              let (all_rows, recorded, bound, full) = inserted (λ h. defined (res ∙ h)) in
              let same : j ≡ k = omega (arith, size, recorded) in
              (
                (
                  ap (λ s. rows s.0) state
                      ∙ all_rows
                      ∙ ap (λ ys. ys ++ take k to_write) (keeps.rows-start_timer new_recorder w),
                  ids ∙ ap (λ i. map (λ o. o.order_id) (take i to_write)) same,
                  omega
                      (arith, ap (λ s. length s.1.latencies_us) state, recorded, fresh_recorder w),
                ),
                λ returned. full (sym res ∙ returned),
              ),
        )

    labelled_ops :
        (operation : Text) (run_number : ℕ) (suffix : Text) (rec : LatencyRecorder) (t : ℕ)
        (stats : BenchmarkResult D)
        → mapped
            (phase_labels r m db dataset config operation run_number suffix)
            (compute_stats (stop_timer t rec))
          ≡ ok stats
        → stats.total_ops ≡ length rec.latencies_us
    unfolding phase_labels count stop_timer
    labelled_ops operation run_number suffix rec t stats h =
        let (s, made, size) = compute_stats_total {D = D} (stop_timer t rec) in
        let same : ok (phase_labels r m db dataset config operation run_number suffix s)
            ≡ ok stats =
          ap (mapped (phase_labels r m db dataset config operation run_number suffix)) (sym made)
          ∙ h in
        ground (arith, size)

    -- the end of a phase, with the labels of either
    end_phase_lem :
        (operation : Text) (run_number : ℕ) (suffix : Text)
        → (res : Outcome (Unit {0})) (rec : LatencyRecorder) (e : Experiment D S (Own D))
        → ((end_phase r m db dataset config
                (phase_labels r m db dataset config operation run_number suffix)
                res
                rec
                e).0
              ≢ undefined
            → res ≢ undefined)
          × ((end_phase r m db dataset config
                (phase_labels r m db dataset config operation run_number suffix)
                res
                rec
                e).1.own
              ≡ e.own)
          × (rows
                (end_phase r m db dataset config
                  (phase_labels r m db dataset config operation run_number suffix)
                  res
                  rec
                  e).1.world
              ≡ rows e.world)
          × ((stats : BenchmarkResult D)
              → (end_phase r m db dataset config
                  (phase_labels r m db dataset config operation run_number suffix)
                  res
                  rec
                  e).0
                ≡ ok stats
              → (res ≡ ok tt) × (stats.total_ops ≡ length rec.latencies_us))
    end_phase_lem operation run_number suffix (ok a) rec e = (
      λ h. ground arith,
      refl,
      keeps.rows-now e.world,
      λ stats h. (refl, labelled_ops operation run_number suffix rec (m.now e.world).0 stats h),
    )
    end_phase_lem operation run_number suffix (throw x) rec e =
        (λ h. ground arith, refl, refl, λ stats h. absurd (ground arith))
    end_phase_lem operation run_number suffix undefined rec e =
        (λ h. absurd (h refl), refl, refl, λ stats h. absurd (ground arith))

    -- `write_phase`, on a database that keeps its rows as `KeepsRows` says and with timers that leave
    -- the latencies alone, from any state and however an insert fails, so long as no call is
    -- undefined: the rows that it adds to the table are some first orders of those to write, and
    -- `written_order_ids` are the ids of just these, in order. If it returns, these are all of them,
    -- and `total_ops` is their number.
    pub write_phase_lem :
        (run_number : ℕ) (e : Experiment D S (Own D))
        → (write_phase r m db dataset config run_number e).0 ≢ undefined
        → (k : ℕ) × (rows (write_phase r m db dataset config run_number e).1.world
            ≡ rows e.world ++ take k to_write)
          × ((write_phase r m db dataset config run_number e).1.own.written_order_ids
              ≡ map (λ o. o.order_id) (take k to_write))
          × ((stats : BenchmarkResult D)
              → (write_phase r m db dataset config run_number e).0 ≡ ok stats
              → (k ≡ n) × (stats.total_ops ≡ n))
    unfolding write_phase
    write_phase_lem run_number e defined =
        let (k, kept) = writing_lem e.world in
        let e' = record e {
          world = (writing e.world).1.0.0;
          own = record e.own { written_order_ids = (writing e.world).1.1 };
        } in
        let (was_defined, own, world, stats_lem) =
          end_phase_lem (text "insert") run_number (text "_write") (writing e.world).0
            (writing e.world).1.0.1 e' in
        let ((all_rows, ids, size), full) = kept (was_defined defined) in
        (
          k,
          world ∙ all_rows,
          ap (λ o. o.written_order_ids) own ∙ ids,
          λ stats returned.
              let (res, ops) = stats_lem stats returned in
              (
                omega (arith, full res, length-take n dataset),
                omega (arith, ops, size, full res, length-take n dataset),
              ),
        )
