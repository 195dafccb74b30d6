-- ===== src/Experiment/Experiment2/Slices.antt =====
-- The slices of src/experiment/Experiment2.cpp, one behind the other.
use native.Mathlib.Nat.{mod-eq_of_lt, mul-le-mul_right, mul-div-le, suc-mul, zero-mul}
use db_benchmark.Prelude.{
  ℕ, zero, suc, false, ◌+◌, ◌-◌, ◌*◌, ◌/◌, ◌%◌, ◌^◌, ◌≤◌, ◌<◌, ◌≡◌, refl, ap, ◌∙◌, min, List, [],
  ◌∷◌, ◌++◌, append-nil, arith, ◌==◌, length, take, drop,
}
use db_benchmark.Experiment.Experiment2.{
  rows_to_insert, rows_per_thread, start_idx, end_idx, slice, slices,
}

-- the lists one behind the other
unfoldable pub concat : {A : Type 0} → List (List A) → List A
concat [] = []
concat (xs ∷ xss) = xs ++ concat xss

module _ {A : Type 0} where
  drop-nil : (n : ℕ) → drop {A = A} n [] ≡ []
  drop-nil zero = refl
  drop-nil (suc n) = refl

  take-nil : (n : ℕ) → take {A = A} n [] ≡ []
  take-nil zero = refl
  take-nil (suc n) = refl

  take-append-rest : (k b : ℕ) (xs : List A) → k ≤ b → take k xs ++ drop k (take b xs) ≡ take b xs
  take-append-rest zero b xs h = refl
  take-append-rest (suc k) zero xs h = absurd (omega arith)
  take-append-rest (suc k) (suc b) [] h = refl
  take-append-rest (suc k) (suc b) (x ∷ xs) h = ap (◌∷◌ x) (take-append-rest k b xs (omega arith))

  take-append-next :
      (a k b : ℕ) (xs : List A)
      → a + k ≤ b
      → take k (drop a xs) ++ drop (a + k) (take b xs) ≡ drop a (take b xs)
  take-append-next zero k b xs h =
      ap (λ n. take k xs ++ drop n (take b xs)) {x = 0 + k} {y = k} (omega arith)
      ∙ take-append-rest k b xs (omega arith)
  take-append-next (suc a) k zero xs h = absurd (omega arith)
  take-append-next (suc a) k (suc b) [] h = rw (take-nil k, drop-nil (suc a + k)) refl
  take-append-next (suc a) k (suc b) (x ∷ xs) h =
      ap (λ n. take k (drop a xs) ++ drop n (x ∷ take b xs)) {x = suc a + k} {y = suc (a + k)}
        (omega arith)
      ∙ take-append-next a k b xs (omega arith)

  take-drop : (a b : ℕ) (xs : List A) → a ≤ b → take (b - a) (drop a xs) ≡ drop a (take b xs)
  take-drop zero b xs h = ap (λ n. take n xs) {x = b - 0} {y = b} (omega arith)
  take-drop (suc a) zero xs h = absurd (omega arith)
  take-drop (suc a) (suc b) [] h = take-nil (suc b - suc a)
  take-drop (suc a) (suc b) (x ∷ xs) h =
      ap (λ n. take n (drop a xs)) {x = suc b - suc a} {y = b - a} (omega arith)
      ∙ take-drop a b xs (omega arith)

module _ (n total : ℕ) (some : 0 < n) (small : total < 2 ^ 32) where
  bound : (t : ℕ) → t ≤ n → t * (total / n) ≤ total
  bound t h = omega (arith, mul-le-mul_right (total / n) h, mul-div-le total n)

  start_lem : (t : ℕ) → t ≤ n → start_idx n total t ≡ t * (total / n)
  unfolding start_idx rows_per_thread
  start_lem t h = mod-eq_of_lt (omega (arith, bound t h))

  next_start : (t : ℕ) → suc t * (total / n) ≡ t * (total / n) + total / n
  next_start t = suc-mul t (total / n)

  end_last : (t : ℕ) → suc t ≡ n → end_idx n total t ≡ total
  unfolding end_idx
  end_last t h = ground arith

  end_inner : (t : ℕ) → suc t < n → end_idx n total t ≡ t * (total / n) + total / n
  unfolding end_idx rows_per_thread
  end_inner t h =
      let not_last : (t == n - 1) ≡ false = ground arith in
      rw (not_last, start_lem t (omega arith))
        (mod-eq_of_lt (omega (arith, suc-mul t (total / n), bound (suc t) (omega arith))))

  module _ {O : Type 0} (dataset : List O) where
    slice_last :
        (t : ℕ) → suc t ≡ n → slice n total dataset t ≡ drop (t * (total / n)) (take total dataset)
    unfolding slice
    slice_last t h =
        rw (start_lem t (omega arith), end_last t h)
          (take-drop (t * (total / n)) total dataset (bound t (omega arith)))

    slice_inner :
        (t : ℕ)
        → suc t < n
        → slice n total dataset t ++ drop (suc t * (total / n)) (take total dataset)
          ≡ drop (t * (total / n)) (take total dataset)
    unfolding slice
    slice_inner t h =
        let q = total / n in
        let size : t * q + q - t * q ≡ q = omega arith in
        rw (start_lem t (omega arith), end_inner t h, size, next_start t)
          (take-append-next (t * q) q total dataset
            (omega (arith, next_start t, bound (suc t) (omega arith))))

    slices_from :
        (c t : ℕ)
        → t + suc c ≡ n
        → concat (slices n total dataset (suc c) t) ≡ drop (t * (total / n)) (take total dataset)
    unfolding slices concat
    slices_from zero t h = append-nil (slice n total dataset t) ∙ slice_last t (omega arith)
    slices_from (suc c) t h =
        ap (λ xs. slice n total dataset t ++ xs) (slices_from c (suc t) (omega arith))
        ∙ slice_inner t (omega arith)

-- For any number of threads but zero, the slices of the threads, one behind the other, are the rows
-- to insert: the first `total_rows` orders of the dataset, that number kept to 32 bits, each once and
-- none left out where the division has a remainder.
pub concat-slices :
    {O : Type 0} (num_threads total_rows : ℕ) (dataset : List O)
    → 0 < num_threads
    → concat (slices num_threads (rows_to_insert (length dataset) total_rows) dataset num_threads 0)
      ≡ take (min (length dataset) total_rows % 2 ^ 32) dataset
unfolding rows_to_insert
concat-slices zero total_rows dataset some = absurd (omega arith)
concat-slices (suc c) total_rows dataset some =
    slices_from (suc c) (min (length dataset) total_rows % 2 ^ 32) some (omega arith) dataset c 0
      (omega arith)
    ∙ ap (λ k. drop k (take (min (length dataset) total_rows % 2 ^ 32) dataset)) (zero-mul _)
