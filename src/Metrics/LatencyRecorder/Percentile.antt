-- ===== src/Metrics/LatencyRecorder/Percentile.antt =====
-- `percentile` of src/metrics/LatencyRecorder.cpp and the nearest rank.
use db_benchmark.Prelude.{
  ℕ, zero, suc, ◌+◌, ◌^◌, ◌≤◌, ◌<◌, ◌≡◌, refl, List, [], ◌∷◌, arith, ltb, leb, length, get_elem?,
  get_elem?_total, count_if, All, some, true, false, inl, inr, Bool-cases,
}
use db_benchmark.Cpp.Outcome.{ok, undefined}
use db_benchmark.Cpp.Double.{Double, Rounding, nought, one}
use db_benchmark.Cpp.Sort.{sort, IsSorted, sort-IsSorted, count_if-sort, length-sort}
use db_benchmark.Metrics.LatencyRecorder.{
  percentile, percentile_index, rank_index, element, back, sub64,
}

pub get_elem?-back : (x : ℕ) (xs : List ℕ) → get_elem? (x ∷ xs) (length xs) ≡ some (back x xs)
unfolding back
get_elem?-back x [] = refl
get_elem?-back x (y ∷ ys) = get_elem?-back y ys

-- What a read in range gives.
pub element-ok {ℓ} :
    {A : Type ℓ} (xs : List A) (i : ℕ) {v : A} → get_elem? xs i ≡ some v → element xs i ≡ ok v
unfolding element
element-ok xs i e = rw (e, element)

pub All-get_elem? :
    (a : ℕ) (xs : List ℕ) (i : ℕ) {v : ℕ} → All (λ y. a ≤ y) xs → get_elem? xs i ≡ some v → a ≤ v
All-get_elem? a [] i p e = ground arith
All-get_elem? a (x ∷ xs) zero p e = ground arith
All-get_elem? a (x ∷ xs) (suc i) (_, p) e = All-get_elem? a xs i p e

pub none_below : (a : ℕ) (xs : List ℕ) → All (λ y. a ≤ y) xs → count_if (λ y. ltb y a) xs ≡ 0
none_below a [] p = refl
none_below a (x ∷ xs) (p, ps) = ground (arith, none_below a xs ps)

-- In an ascending list at most `i` elements are below the one at index `i`, and more than `i` are
-- not above it.
pub rank_at :
    (xs : List ℕ) (i : ℕ) {v : ℕ}
    → IsSorted xs
    → get_elem? xs i ≡ some v
    → (count_if (λ y. ltb y v) xs ≤ i) × (i < count_if (λ y. leb y v) xs)
rank_at [] i s e = ground arith
rank_at (x ∷ xs) zero {v} (p, s) e = ground (arith, none_below x xs p)
rank_at (x ∷ xs) (suc i) {v} (p, s) e =
    let (below, above) = rank_at xs i {v = v} s e in
    let le : x ≤ v = All-get_elem? x xs i p e in ground arith

module _ {D : Type 0} ⦃d : Double D⦄ where
  pub rank_index-lt : (size : ℕ) (p : D) → 0 < size → rank_index size p < size
  unfolding rank_index sub64
  rank_index-lt size p h = omega arith

  -- a `p` below 1 is read in range
  pub percentile_below_one :
      (x : ℕ) (xs : List ℕ) (p : D)
      → d.lt p one ≡ true
      → (i : ℕ) × (v : ℕ) × (get_elem? (x ∷ xs) i ≡ some v)
        × (percentile (x ∷ xs) p ≡ ok (d.of_nat v))
  unfolding percentile percentile_index
  percentile_below_one x xs p below = elim (Bool-cases (d.le p nought)) [
    | inl low ↦ (0, x, refl, rw low)
    | inr high ↦ elim (Bool-cases (d.le one p)) [
      | inl top ↦ (length xs, back x xs, get_elem?-back x xs, rw (high, top))
      | inr inside ↦
          let i = rank_index (length (x ∷ xs)) p in
          let (v, e) =
            get_elem?_total (x ∷ xs) i (rank_index-lt (length (x ∷ xs)) p (omega arith)) in
          (i, v, e, rw (high, inside, below, element-ok (x ∷ xs) i e))
    ]
  ]

  -- Over a vector that is not empty, `percentile` has four ends that cover every `p`: at most 0 it
  -- gives the first element; at least 1 the last; else, if `p` is below 1, an element of the vector;
  -- and if `p` is none of these, which is so of NaN alone, the conversion of the rank is undefined.
  pub percentile_in_bounds :
      (x : ℕ) (xs : List ℕ) (p : D)
      → (d.le p nought ≡ true → percentile (x ∷ xs) p ≡ ok (d.of_nat x))
        × (d.le p nought ≡ false
            → d.le one p ≡ true
            → (v : ℕ) × (get_elem? (x ∷ xs) (length xs) ≡ some v)
              × (percentile (x ∷ xs) p ≡ ok (d.of_nat v)))
        × (d.lt p one ≡ true
            → (i : ℕ) × (v : ℕ) × (get_elem? (x ∷ xs) i ≡ some v)
              × (percentile (x ∷ xs) p ≡ ok (d.of_nat v)))
        × (d.le p nought ≡ false
            → d.le one p ≡ false
            → d.lt p one ≡ false
            → percentile (x ∷ xs) p ≡ undefined)
  unfolding percentile percentile_index
  percentile_in_bounds x xs p = (
    λ low. rw low refl,
    λ high top. (back x xs, get_elem?-back x xs, rw (high, top) refl),
    percentile_below_one x xs p,
    λ high inside nan. rw (high, inside, nan) refl,
  )

  module _ (laws : Rounding D) (p : D) (p_pos : d.lt nought p ≡ true)
      (p-lt_one : d.lt p one ≡ true) where
    open laws use {
      le_trans, of_nat_mono, mul-le-of_nat, mul_pos, ceil_pos, ceil_mono, ceil-of_nat, not_le_of_lt,
      le_of_lt,
    }

    index_of_rank :
        (n : ℕ)
        → 0 < d.ceil (d.mul p (d.of_nat n))
        → d.ceil (d.mul p (d.of_nat n)) ≤ n
        → n ≤ 2 ^ 53
        → rank_index n p + 1 ≡ d.ceil (d.mul p (d.of_nat n))
    unfolding rank_index sub64
    index_of_rank n h k fits = omega arith

    rank_bounds :
        (n : ℕ)
        → 0 < n
        → n ≤ 2 ^ 53
        → (0 < d.ceil (d.mul p (d.of_nat n))) × (d.ceil (d.mul p (d.of_nat n)) ≤ n)
    rank_bounds n h k =
        let pos = mul_pos p n h p_pos in
        let le = mul-le-of_nat p n h (le_of_lt p one p-lt_one) in
        let fits = of_nat_mono n (2 ^ 63) (omega arith) in
        (
          ceil_pos _ pos (le_trans _ _ _ le fits),
          omega (arith, ceil_mono _ _ pos le fits, ceil-of_nat n h k),
        )

    -- The index that is read is one below the rank.
    pub rank_index-rank :
        (n : ℕ) → 0 < n → n ≤ 2 ^ 53 → rank_index n p + 1 ≡ d.ceil (d.mul p (d.of_nat n))
    rank_index-rank n h k =
        let (some_rank, fits) = rank_bounds n h k in index_of_rank n some_rank fits k

    pub percentile_at :
        (x : ℕ) (xs : List ℕ) {v : ℕ}
        → get_elem? (x ∷ xs) (rank_index (length (x ∷ xs)) p) ≡ some v
        → percentile (x ∷ xs) p ≡ ok (d.of_nat v)
    unfolding percentile percentile_index
    percentile_at x xs e = rw (
      not_le_of_lt nought p p_pos,
      not_le_of_lt p one p-lt_one,
      p-lt_one,
      element-ok (x ∷ xs) (rank_index (length (x ∷ xs)) p) e,
    )

    percentile_sorted :
        (m : List ℕ)
        → IsSorted m
        → 0 < length m
        → length m ≤ 2 ^ 53
        → (v : ℕ) × (percentile m p ≡ ok (d.of_nat v))
          × (count_if (λ y. ltb y v) m < d.ceil (d.mul p (d.of_nat (length m))))
          × (d.ceil (d.mul p (d.of_nat (length m))) ≤ count_if (λ y. leb y v) m)
    percentile_sorted [] s h k = elim h [ ]
    percentile_sorted (x ∷ xs) s h k =
        let n = length (x ∷ xs) in
        let i = rank_index n p in
        let (v, e) = get_elem?_total (x ∷ xs) i (rank_index-lt n p h) in
        let (below, above) = rank_at (x ∷ xs) i s e in
        let at = rank_index-rank n h k in (v, percentile_at x xs e, omega arith, omega arith)

    -- For `p` strictly between 0 and 1 and from one up to 2^53 latencies in any order, `percentile`
    -- of the sorted latencies is the value of the nearest rank: the rank, `p` times their number
    -- rounded up, is above the number of latencies below the value and does not pass the number
    -- of those not above it.
    pub percentile_nearest_rank :
        (l : List ℕ)
        → 0 < length l
        → length l ≤ 2 ^ 53
        → (v : ℕ) × (percentile (sort l) p ≡ ok (d.of_nat v))
          × (count_if (λ y. ltb y v) l < d.ceil (d.mul p (d.of_nat (length l))))
          × (d.ceil (d.mul p (d.of_nat (length l))) ≤ count_if (λ y. leb y v) l)
    percentile_nearest_rank l h k =
        let (v, e, below, above) =
          percentile_sorted (sort l) (sort-IsSorted l) (rw (length-sort l) h)
            (rw (length-sort l) k) in
        (
          v,
          e,
          rw (length-sort l, count_if-sort (λ y. ltb y v) l) at below,
          rw (length-sort l, count_if-sort (λ y. leb y v) l) at above,
        )
