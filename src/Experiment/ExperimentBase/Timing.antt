-- ===== src/Experiment/ExperimentBase/Timing.antt =====
-- What the timed loops of src/experiment leave in the recorder.
use db_benchmark.Prelude.{
  ℕ, suc, ◌<◌, ◌≡◌, ◌≢◌, refl, ap, sym, ◌∙◌, List, [], ◌∷◌, ◌++◌, append-nil, append_assoc, arith,
  ◌+◌, length, length-append, ◌⊎◌, inl, inr,
}
use db_benchmark.Cpp.Outcome.{Exception, Outcome, ok, throw, undefined, outcome_cases}
use db_benchmark.Cpp.Method.{Method}
use db_benchmark.Metrics.LatencyRecorder.{LatencyRecorder, record_latency, stop_timer}
use db_benchmark.Experiment.Platform.{Platform, KeepsLatencies}
use db_benchmark.Experiment.ExperimentBase.{timed, timed_record, timed_loop, timed_phase}

pub throw≢ok : {A : Type 0} (e : Exception) (a : A) → throw e ≢ ok a
throw≢ok e a = ground arith

pub undefined≢ok : {A : Type 0} (a : A) → undefined ≢ ok a
undefined≢ok a = ground arith

-- The run of a loop over `n` elements that ended with `res`: it recorded a latency for each of them
-- if it returned, and for fewer if not, behind the latencies of before.
abbrev pub Recorded : Outcome (Unit {0}) → LatencyRecorder → LatencyRecorder → ℕ → Type 0
Recorded res before after n =
    (us : List ℕ) × (after.latencies_us ≡ before.latencies_us ++ us)
    × (after.start_ns ≡ before.start_ns)
    × (((res ≡ ok tt) × (length us ≡ n)) ⊎ ((res ≢ ok tt) × (length us < n)))

Recorded-cons :
    (res : Outcome (Unit {0})) (us : ℕ) (before after : LatencyRecorder) (n : ℕ)
    → Recorded res (record_latency us before) after n
    → Recorded res before after (suc n)
unfolding record_latency
Recorded-cons res us before after n (rest, e, start, inl (returned, size)) = (
  us ∷ rest,
  e ∙ append_assoc before.latencies_us (us ∷ []) rest,
  start,
  inl (returned, ap suc size),
)
Recorded-cons res us before after n (rest, e, start, inr (failed, size)) = (
  us ∷ rest,
  e ∙ append_assoc before.latencies_us (us ∷ []) rest,
  start,
  inr (failed, omega arith),
)

module _ {S A B : Type 0} (m : Platform S) (op : A → Method S B) where
  -- The loop of timed calls, from any state of the world and the recorder and however the calls end:
  -- the latencies of before stay in front and the start of the timer is kept; if the loop returns it
  -- has appended one latency for each element, and if it does not, fewer.
  pub timed_loop-Recorded :
      (xs : List A) (w : S) (rec : LatencyRecorder)
      → Recorded (timed_loop m op xs (w, rec)).0 rec (timed_loop m op xs (w, rec)).1.1 (length xs)
  unfolding timed_loop timed_record
  timed_loop-Recorded [] w rec = ([], sym (append-nil rec.latencies_us), refl, inl (refl, refl))
  timed_loop-Recorded (x ∷ xs) w rec = elim (outcome_cases (timed m (op x) w).0) [
    | inl (us, e) ↦ rw e (
        Recorded-cons _ us rec
          (timed_loop m op xs ((timed m (op x) w).1, record_latency us rec)).1.1 (length xs)
          (timed_loop-Recorded xs (timed m (op x) w).1 (record_latency us rec)))
    | inr (inl (x', e)) ↦
        rw e ([], sym (append-nil rec.latencies_us), refl, inr (throw≢ok x' tt, omega arith))
    | inr (inr e) ↦
        rw e ([], sym (append-nil rec.latencies_us), refl, inr (undefined≢ok tt, omega arith))
  ]

  -- the number of latencies after a loop that returned
  pub timed_loop_size :
      (xs : List A) (w : S) (rec : LatencyRecorder)
      → (timed_loop m op xs (w, rec)).0 ≡ ok tt
      → length (timed_loop m op xs (w, rec)).1.1.latencies_us ≡ length rec.latencies_us + length xs
  timed_loop_size xs w rec h =
      let (us, e, start, ends) = timed_loop-Recorded xs w rec in
      elim ends [
        | inl (returned, size) ↦ omega (arith, ap length e, length-append rec.latencies_us us, size)
        | inr (failed, size) ↦ absurd (failed h)
      ]

  -- a loop of calls that return returns
  pub timed_loop_returns :
      ((x : A) (w : S) → (b : B) × ((op x w).0 ≡ ok b))
      → (xs : List A) (w : S) (rec : LatencyRecorder) → (timed_loop m op xs (w, rec)).0 ≡ ok tt
  unfolding timed_loop timed_record timed
  timed_loop_returns returns [] w rec = refl
  timed_loop_returns returns (x ∷ xs) w rec =
      let (b, e) = returns x (m.now w).1 in rw e (timed_loop_returns returns xs _ _)

  -- what neither the calls nor the clock change, the loop does not change
  pub timed_loop_keeps :
      {V : Type 0} (f : S → V)
      → ((w : S) → f (m.now w).1 ≡ f w)
      → ((x : A) (w : S) → f (op x w).1 ≡ f w)
      → (xs : List A) (w : S) (rec : LatencyRecorder) → f (timed_loop m op xs (w, rec)).1.0 ≡ f w
  unfolding timed_loop timed_record timed
  timed_loop_keeps f clock calls [] w rec = refl
  timed_loop_keeps f clock calls (x ∷ xs) w rec =
      let w₁ = (m.now w).1 in
      let called : f (op x w₁).1 ≡ f w = calls x w₁ ∙ clock w in
      elim (outcome_cases (op x w₁).0) [
        | inl (b, e) ↦ rw e (timed_loop_keeps f clock calls xs _ _ ∙ clock (op x w₁).1 ∙ called)
        | inr (inl (x', e)) ↦ rw e called
        | inr (inr e) ↦ rw e called
      ]

  -- a phase of calls that return returns, and its recorder has one latency more for each call
  pub timed_phase_returns :
      ((x : A) (w : S) → (b : B) × ((op x w).0 ≡ ok b))
      → KeepsLatencies m
      → (xs : List A) (w : S) (rec : LatencyRecorder)
      → ((timed_phase m op xs (w, rec)).0 ≡ ok tt)
        × (length (timed_phase m op xs (w, rec)).1.1.latencies_us
            ≡ length rec.latencies_us + length xs)
  unfolding timed_phase stop_timer
  timed_phase_returns returns timers xs w rec =
      let (rec₁, w₁) = m.start_timer rec w in
      let returned = timed_loop_returns returns xs w₁ rec₁ in
      let size = timed_loop_size xs w₁ rec₁ returned in
      rw returned (refl, omega (arith, size, ap length (timers.latencies-start_timer rec w)))

  -- a loop with an element whose call does not return, where neither the calls nor the clock change what
  -- that depends on, does not return
  timed_loop_stops :
      {V : Type 0} (f : S → V) (v : V)
      → ((w : S) → f (m.now w).1 ≡ f w)
      → ((x : A) (w : S) → f (op x w).1 ≡ f w)
      → (x : A) → ((w : S) (b : B) → f w ≡ v → (op x w).0 ≢ ok b)
      → (before after : List A) (w : S) (rec : LatencyRecorder) → f w ≡ v
      → (timed_loop m op (before ++ x ∷ after) (w, rec)).0 ≢ ok tt
  unfolding timed_loop timed_record timed
  timed_loop_stops f v clock calls x never [] after w rec h =
      let w₁ = (m.now w).1 in
      elim (outcome_cases (op x w₁).0) [
        | inl (b, e) ↦ absurd (never w₁ b (clock w ∙ h) e)
        | inr (inl (x', e)) ↦ rw e (throw≢ok x' tt)
        | inr (inr e) ↦ rw e (undefined≢ok tt)
      ]
  timed_loop_stops f v clock calls x never (y ∷ before) after w rec h =
      let w₁ = (m.now w).1 in
      let w₂ = (op y w₁).1 in
      elim (outcome_cases (op y w₁).0) [
        | inl (b, e) ↦ rw e (
            timed_loop_stops f v clock calls x never before after (m.now w₂).1 _
              (clock w₂ ∙ calls y w₁ ∙ clock w ∙ h))
        | inr (inl (x', e)) ↦ rw e (throw≢ok x' tt)
        | inr (inr e) ↦ rw e (undefined≢ok tt)
      ]

  pub timed_phase_stops :
      {V : Type 0} (f : S → V) (v : V)
      → ((w : S) → f (m.now w).1 ≡ f w)
      → ((rec : LatencyRecorder) (w : S) → f (m.start_timer rec w).1 ≡ f w)
      → ((x : A) (w : S) → f (op x w).1 ≡ f w)
      → (x : A) → ((w : S) (b : B) → f w ≡ v → (op x w).0 ≢ ok b)
      → (before after : List A) (w : S) (rec : LatencyRecorder) → f w ≡ v
      → (timed_phase m op (before ++ x ∷ after) (w, rec)).0 ≢ ok tt
  unfolding timed_phase
  timed_phase_stops f v clock timer calls x never before after w rec h =
      let (rec₁, w₁) = m.start_timer rec w in
      let loop = timed_loop m op (before ++ x ∷ after) (w₁, rec₁) in
      elim (outcome_cases loop.0) [
        | inl (a, e) ↦
            absurd
              (timed_loop_stops f v clock calls x never before after w₁ rec₁ (timer rec w ∙ h) e)
        | inr (inl (x', e)) ↦ rw e (throw≢ok x' tt)
        | inr (inr e) ↦ rw e (undefined≢ok tt)
      ]

  -- what neither the calls nor the clock nor the timers change, a phase does not change
  pub timed_phase_keeps :
      {V : Type 0} (f : S → V)
      → ((w : S) → f (m.now w).1 ≡ f w)
      → ((rec : LatencyRecorder) (w : S) → f (m.start_timer rec w).1 ≡ f w)
      → ((x : A) (w : S) → f (op x w).1 ≡ f w)
      → (xs : List A) (w : S) (rec : LatencyRecorder) → f (timed_phase m op xs (w, rec)).1.0 ≡ f w
  unfolding timed_phase
  timed_phase_keeps f clock timer calls xs w rec =
      let (rec₁, w₁) = m.start_timer rec w in
      let loop = timed_loop m op xs (w₁, rec₁) in
      let kept = timed_loop_keeps f clock calls xs w₁ rec₁ ∙ timer rec w in
      elim (outcome_cases loop.0) [
        | inl (a, e) ↦ rw e (clock loop.1.0 ∙ kept)
        | inr (inl (x', e)) ↦ rw e kept
        | inr (inr e) ↦ rw e kept
      ]
