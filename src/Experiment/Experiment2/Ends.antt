-- ===== src/Experiment/Experiment2/Ends.antt =====
-- How src/experiment/Experiment2.cpp ends.
use db_benchmark.Prelude.{ℕ, ◌≢◌, ap, List, arith, length, list_cases, inl, inr}
use db_benchmark.Cpp.Outcome.{ok, outcome_cases}
use db_benchmark.Cpp.Method.{Method, ◌>>=◌, ◌>>◌}
use db_benchmark.Cpp.Double.{Double}
use db_benchmark.Metrics.LatencyRecorder.{LatencyRecorder}
use db_benchmark.Metrics.MetricsCollector.Merge.{merge_thread_results_never_returns}
use db_benchmark.Config.{BenchmarkConfig}
use db_benchmark.Data.Order.{Order}
use db_benchmark.Db.DbInterface.{DbInterface}
use db_benchmark.Experiment.Platform.{Platform}
use db_benchmark.Experiment.ExperimentBase.{Experiment}
use db_benchmark.Experiment.ExperimentBase.Timing.{throw≢ok, undefined≢ok}
use db_benchmark.Experiment.Experiment2.Run.{
  Handle, Own, merge_recorders, prepare, run_threads, measured, run, setup, teardown,
  run_experiment,
}

-- the call never returns
abbrev NeverReturns : {S A : Type 0} → Method S A → Type 0
NeverReturns {S} {A} call = (s : S) (a : A) → (call s).0 ≢ ok a

module _ {S A B : Type 0} where
  -- nor does what it is the end of
  NeverReturns-then :
      (first : Method S A) (next : A → Method S B)
      → ((a : A) → NeverReturns (next a))
      → NeverReturns (first >>= next)
  NeverReturns-then first next never s b = elim (outcome_cases (first s).0) [
    | inl (a, e) ↦ rw e (never a (first s).1 b)
    | inr (inl (x, e)) ↦ rw e (throw≢ok x b)
    | inr (inr e) ↦ rw e (undefined≢ok b)
  ]

  -- nor what begins with it
  NeverReturns-first :
      (first : Method S A) (next : A → Method S B)
      → NeverReturns first
      → NeverReturns (first >>= next)
  NeverReturns-first first next never s b = elim (outcome_cases (first s).0) [
    | inl (a, e) ↦ absurd (never s a e)
    | inr (inl (x, e)) ↦ rw e (throw≢ok x b)
    | inr (inr e) ↦ rw e (undefined≢ok b)
  ]

module _ {D S : Type 0} ⦃d : Double D⦄ (m : Platform S) (db : DbInterface D S)
    (dataset : List (Order D)) (config : BenchmarkConfig) (factory : ℕ → Method S (Handle D S))
    (threads : List (Handle D S) → List LatencyRecorder → S → List LatencyRecorder × S) where
  merge_recorders-NeverReturns :
      (wall_us : ℕ) → NeverReturns (merge_recorders m db dataset config factory threads wall_us)
  unfolding merge_recorders
  merge_recorders-NeverReturns wall_us e a =
      let (none, some_recorders) =
        merge_thread_results_never_returns e.own.thread_recorders e.result in
      elim (list_cases e.own.thread_recorders) [
        | inl empty ↦ rw (none empty) (throw≢ok _ a)
        | inr (rec, recs, more) ↦
            rw (some_recorders (omega (arith, ap length more))) (undefined≢ok a)
      ]

  run-NeverReturns : NeverReturns (run m db dataset config factory threads)
  unfolding run measured
  run-NeverReturns =
      NeverReturns-then (prepare m db dataset config factory threads)
        (λ a. measured m db dataset config factory threads)
        λ a.
          NeverReturns-then (run_threads m db dataset config factory threads)
            (merge_recorders m db dataset config factory threads) merge_recorders-NeverReturns

  -- Experiment 2 never returns: for any number of threads, whatever the factory and the threads do and
  -- from any state, it throws or its behaviour is undefined.
  pub run_experiment_never :
      (e : Experiment D S (Own D S))
      → (run_experiment m db dataset config factory threads e).0 ≢ ok tt
  unfolding run_experiment
  run_experiment_never e =
      NeverReturns-then (setup m db dataset config factory threads)
        (λ a.
          run m db dataset config factory threads >> teardown m db dataset config factory threads)
        (λ a.
          NeverReturns-first (run m db dataset config factory threads)
            (λ u. teardown m db dataset config factory threads) run-NeverReturns)
        e tt
