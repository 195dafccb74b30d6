-- ===== src/Experiment/Experiment2/Threads.antt =====
-- The threads of src/experiment/Experiment2.cpp and the table, for any order of their turns.
use db_benchmark.Prelude.{
  ℕ, ◌+◌, ◌≤◌, ◌<◌, ◌%◌, ◌^◌, min, ◌≡◌, refl, ap, sym, ◌∙◌, Bool, List, [], ◌∷◌, ◌++◌, arith,
  length, length-append, map, take, All, count_if, count_if-append,
}
use db_benchmark.Metrics.LatencyRecorder.{new_recorder, record_latency}
use db_benchmark.Experiment.Experiment2.{
  Worker, worker, pending, recorder, Turn, here, there, Turns, stop, turn, Throws, throws_here,
  throws_there, Terminates, terminate, slices, spawn, rows_to_insert,
}
use db_benchmark.Experiment.Experiment2.Slices.{concat, concat-slices}

module _ {O : Type 0} where
  -- how many orders that pass a test are still to be inserted
  waiting : (O → Bool) → List (Worker O) → ℕ
  waiting p [] = 0
  waiting p (w ∷ ws) = count_if p (pending w) + waiting p ws

  -- for each thread the orders it has to insert and those it has inserted
  abbrev pub share : Worker O → ℕ
  share w = length (pending w) + length (recorder w).latencies_us

  -- every thread is at its end
  abbrev pub IsFinished : List (Worker O) → Type 0
  IsFinished ws = All (λ w. pending w ≡ []) ws

  Turn-waiting :
      (p : O → Bool) {ws : List (Worker O)} {x : O} {ws' : List (Worker O)}
      → Turn ws x ws'
      → waiting p ws ≡ count_if p (x ∷ []) + waiting p ws'
  unfolding waiting
  Turn-waiting p (here x xs rec us ws) = omega arith
  Turn-waiting p (there w t) = omega (arith, Turn-waiting p t)

  Turn-share :
      {ws : List (Worker O)} {x : O} {ws' : List (Worker O)}
      → Turn ws x ws'
      → map share ws' ≡ map share ws
  unfolding record_latency
  Turn-share (here x xs rec us ws) =
      ap (λ n. n ∷ map share ws) (omega (arith, length-append rec.latencies_us (us ∷ [])))
  Turn-share (there w t) = ap (◌∷◌ (share w)) (Turn-share t)

  Turns-waiting :
      (p : O → Bool) {ws : List (Worker O)} {table : List O} {ws' : List (Worker O)}
      {table' : List O}
      → Turns ws table ws' table'
      → count_if p table' + waiting p ws' ≡ count_if p table + waiting p ws
  Turns-waiting p (stop ws table) = refl
  Turns-waiting p (turn {x = x} table t rest) =
      omega (arith, Turns-waiting p rest, Turn-waiting p t, count_if-append p table (x ∷ []))

  Turns-share :
      {ws : List (Worker O)} {table : List O} {ws' : List (Worker O)} {table' : List O}
      → Turns ws table ws' table'
      → map share ws' ≡ map share ws
  Turns-share (stop ws table) = refl
  Turns-share (turn table t rest) = Turns-share rest ∙ Turn-share t

  finished_waiting : (p : O → Bool) (ws : List (Worker O)) → IsFinished ws → waiting p ws ≡ 0
  unfolding waiting
  finished_waiting p [] h = refl
  finished_waiting p (worker orders rec ∷ ws) (e, h) = rw e (omega (arith, finished_waiting p ws h))

  finished_share :
      (ws : List (Worker O))
      → IsFinished ws
      → map share ws ≡ map (λ w. length (recorder w).latencies_us) ws
  finished_share [] h = refl
  finished_share (worker orders rec ∷ ws) (e, h) =
      rw (e, finished_share ws h)
        (ap (λ n. n ∷ map (λ w. length (recorder w).latencies_us) ws) (omega arith))

  waiting-started :
      (p : O → Bool) (xss : List (List O))
      → waiting p (map (λ orders. worker orders new_recorder) xss) ≡ count_if p (concat xss)
  unfolding waiting concat
  waiting-started p [] = refl
  waiting-started p (xs ∷ xss) =
      omega (arith, waiting-started p xss, count_if-append p xs (concat xss))

  share-started :
      (xss : List (List O))
      → map share (map (λ orders. worker orders new_recorder) xss) ≡ map length xss
  unfolding new_recorder
  share-started [] = refl
  share-started (xs ∷ xss) = rw (share-started xss) (ap (λ n. n ∷ map length xss) (omega arith))

  -- the order whose insert throws is still to be inserted
  Throws-waiting :
      (p : O → Bool) {ws : List (Worker O)} {x : O}
      → Throws ws x
      → count_if p (x ∷ []) ≤ waiting p ws
  unfolding waiting
  Throws-waiting p (throws_here x xs rec ws) = omega arith
  Throws-waiting p (throws_there w t) = omega (arith, Throws-waiting p t)

  -- Where the program is terminated, the table and the order that threw are no more than the threads
  -- had to insert.
  Terminates-waiting :
      (p : O → Bool) {ws : List (Worker O)} {table : List O} {x : O} {table' : List O}
      → Terminates ws table x table'
      → count_if p (table' ++ x ∷ []) ≤ count_if p table + waiting p ws
  Terminates-waiting p (terminate {table' = table'} {x = x} turns t) =
      let same = Turns-waiting p turns in
      let more = Throws-waiting p t in let all = count_if-append p table' (x ∷ []) in omega arith

-- For any number of threads but zero, and in whatever order they take their turns: when all of them
-- are at their end the table, empty before, holds each row to insert as often as the dataset's
-- first rows have it and nothing else, and each recorder has one latency for each order of its
-- thread's slice.
pub inserted_once :
    {O : Type 0} (num_threads total_rows : ℕ) (dataset : List O)
    → 0 < num_threads
    → {ws : List (Worker O)} {table : List O}
    → Turns (spawn num_threads total_rows dataset) [] ws table
    → IsFinished ws
    → ((p : O → Bool)
        → count_if p table ≡ count_if p (take (min (length dataset) total_rows % 2 ^ 32) dataset))
      × (map (λ w. length (recorder w).latencies_us) ws
          ≡ map length (
              slices num_threads
                (rows_to_insert (length dataset) total_rows)
                dataset
                num_threads
                0))
unfolding spawn
inserted_once num_threads total_rows dataset some {ws} {table} turns done =
    let xss =
      slices num_threads (rows_to_insert (length dataset) total_rows) dataset num_threads 0 in
    (
      λ p. omega (
        arith,
        Turns-waiting p turns,
        finished_waiting p ws done,
        waiting-started p xss,
        ap (count_if p) (concat-slices num_threads total_rows dataset some),
      ),
      sym (finished_share ws done) ∙ Turns-share turns ∙ share-started xss,
    )

-- For any number of threads but zero, and in whatever order they take their turns: when the insert of
-- an order throws in one of them, and so the program is terminated, the table, empty before, and the
-- order that threw have together no order more often than the dataset's first rows have it.
pub terminated_within :
    {O : Type 0} (num_threads total_rows : ℕ) (dataset : List O)
    → 0 < num_threads
    → {x : O} {table : List O} → Terminates (spawn num_threads total_rows dataset) [] x table
    → (p : O → Bool)
    → count_if p (table ++ x ∷ [])
      ≤ count_if p (take (min (length dataset) total_rows % 2 ^ 32) dataset)
unfolding spawn
terminated_within num_threads total_rows dataset some end p =
    let xss =
      slices num_threads (rows_to_insert (length dataset) total_rows) dataset num_threads 0 in
    let within = Terminates-waiting p end in
    let started = waiting-started p xss in
    let sliced = ap (count_if p) (concat-slices num_threads total_rows dataset some) in omega arith
