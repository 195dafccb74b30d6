-- ===== src/Experiment/Experiment2.antt =====
-- src/experiment/Experiment2.cpp: inserts from several threads. Here stands how `run` divides the
-- dataset between the threads and what the threads do to the table, an insert at a time in any order
-- of the threads; the child module Run has the connections, the clock and the statistics.
pub mod Slices
pub mod Threads
pub mod Run
pub mod Ends
pub mod Merged
use db_benchmark.Prelude.{
  ℕ, zero, suc, ◌+◌, ◌-◌, ◌*◌, ◌/◌, ◌%◌, ◌^◌, min, List, [], ◌∷◌, ◌++◌, ◌==◌, length, map, take,
  drop, if◌then◌else◌,
}
use db_benchmark.Metrics.LatencyRecorder.{LatencyRecorder, new_recorder, record_latency}

-- `total_rows` of `run`: the minimum is kept in a `uint32_t`
unfoldable pub rows_to_insert : ℕ → ℕ → ℕ
rows_to_insert size total_rows = min size total_rows % 2 ^ 32

-- for a number of threads that is not zero
unfoldable pub rows_per_thread : ℕ → ℕ → ℕ
rows_per_thread num_threads total = total / num_threads

-- `start_idx` of the thread `t`
unfoldable pub start_idx : ℕ → ℕ → ℕ → ℕ
unfolding rows_per_thread
start_idx num_threads total t = t * rows_per_thread num_threads total % 2 ^ 64

unfoldable pub end_idx : ℕ → ℕ → ℕ → ℕ
unfolding rows_per_thread
end_idx num_threads total t =
    if t == num_threads - 1
    then total
    else (start_idx num_threads total t + rows_per_thread num_threads total) % 2 ^ 64

module _ {O : Type 0} (num_threads total : ℕ) (dataset : List O) where
  -- the elements at the indices from `start_idx` below `end_idx`
  unfoldable pub slice : ℕ → List O
  slice t =
      let start = start_idx num_threads total t in
      take (end_idx num_threads total t - start) (drop start dataset)

  -- the slices of `c` threads, from the thread `t` on
  unfoldable pub slices : ℕ → ℕ → List (List O)
  slices zero t = []
  slices (suc c) t = slice t ∷ slices c (suc t)

-- a thread: the orders it has not inserted yet, and its recorder
pub data Worker (O : Type 0) : Type 0 where
  worker : List O → LatencyRecorder → Worker O

module _ {O : Type 0} where
  abbrev pub pending : Worker O → List O
  pending (worker orders rec) = orders

  abbrev pub recorder : Worker O → LatencyRecorder
  recorder (worker orders rec) = rec

  -- one of the threads inserts its next order, with a call that returns, and records the latency
  pub data Turn : List (Worker O) → O → List (Worker O) → Type 0 where
    here :
        (x : O) (xs : List O) (rec : LatencyRecorder) (us : ℕ) (ws : List (Worker O))
        → Turn (worker (x ∷ xs) rec ∷ ws) x (worker xs (record_latency us rec) ∷ ws)
    there :
        (w : Worker O) {ws : List (Worker O)} {x : O} {ws' : List (Worker O)}
        → Turn ws x ws'
        → Turn (w ∷ ws) x (w ∷ ws')

  -- turns in any order, and the rows that they add to the table
  pub data Turns : List (Worker O) → List O → List (Worker O) → List O → Type 0 where
    stop : (ws : List (Worker O)) (table : List O) → Turns ws table ws table
    turn :
        {ws : List (Worker O)} {x : O} {ws' ws'' : List (Worker O)} (table : List O)
        {table' : List O}
        → Turn ws x ws'
        → Turns ws' (table ++ x ∷ []) ws'' table'
        → Turns ws table ws'' table'

module _ {O : Type 0} where
  -- one of the threads is at an order whose insert throws
  pub data Throws : List (Worker O) → O → Type 0 where
    throws_here :
        (x : O) (xs : List O) (rec : LatencyRecorder) (ws : List (Worker O))
        → Throws (worker (x ∷ xs) rec ∷ ws) x
    throws_there : (w : Worker O) {ws : List (Worker O)} {x : O} → Throws ws x → Throws (w ∷ ws) x

  -- Nothing catches what a thread's insert throws: behind some turns it terminates the program. The
  -- last table is the one that the insert found; it may have added its row to it or not.
  pub data Terminates : List (Worker O) → List O → O → List O → Type 0 where
    terminate :
        {ws ws' : List (Worker O)} {table table' : List O} {x : O}
        → Turns ws table ws' table'
        → Throws ws' x
        → Terminates ws table x table'

-- The threads as `run` starts them, each with an empty recorder.
unfoldable pub spawn : {O : Type 0} → ℕ → ℕ → List O → List (Worker O)
unfolding slices rows_to_insert
spawn num_threads total_rows dataset =
    map (λ orders. worker orders new_recorder)
      (slices num_threads (rows_to_insert (length dataset) total_rows) dataset num_threads 0)
