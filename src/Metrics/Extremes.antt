-- ===== src/Metrics/Extremes.antt =====
-- The least and the greatest element of a list, said by counting.
use db_benchmark.Prelude.{
  ℕ, ◌≤◌, ◌<◌, min, max, ◌≡◌, Bool, true, List, [], ◌∷◌, ◌++◌, arith, ltb, leb, lt→ltb, leb→le,
  tests, count_if, count_if-append, Bool-cases, inl, inr,
}

abbrev pub IsLeast : ℕ → List ℕ → Type 0
IsLeast a xs = (count_if (λ y. ltb y a) xs ≡ 0) × (0 < count_if (λ y. leb y a) xs)

abbrev pub IsGreatest : ℕ → List ℕ → Type 0
IsGreatest b xs = (count_if (λ y. ltb b y) xs ≡ 0) × (0 < count_if (λ y. leb b y) xs)

-- A weaker test is passed at least as often.
pub count_if_mono :
    (p q : ℕ → Bool) (xs : List ℕ)
    → ((y : ℕ) → p y ≡ true → q y ≡ true)
    → count_if p xs ≤ count_if q xs
count_if_mono p q [] h = omega arith
count_if_mono p q (x ∷ xs) h = ground (arith, count_if_mono p q xs h, h x)

pub IsLeast-append :
    (a b : ℕ) (xs ys : List ℕ) → IsLeast a xs → IsLeast b ys → IsLeast (min a b) (xs ++ ys)
IsLeast-append a b xs ys (p, p') (q, q') =
    let c = min a b in
    let none_x = count_if_mono (λ y. ltb y c) (λ y. ltb y a) xs (λ y h. lt→ltb y a (omega tests)) in
    let none_y = count_if_mono (λ y. ltb y c) (λ y. ltb y b) ys (λ y h. lt→ltb y b (omega tests)) in
    (
      omega (arith, count_if-append (λ y. ltb y c) xs ys),
      rw (count_if-append (λ y. leb y c) xs ys) (elim (Bool-cases (leb a b)) [
        | inl le ↦
            omega (arith, count_if_mono (λ y. leb y a) (λ y. leb y c) xs (λ y h. ground arith))
        | inr gt ↦
            omega (arith, count_if_mono (λ y. leb y b) (λ y. leb y c) ys (λ y h. ground arith))
      ]),
    )

pub IsGreatest-append :
    (a b : ℕ) (xs ys : List ℕ) → IsGreatest a xs → IsGreatest b ys → IsGreatest (max a b) (xs ++ ys)
IsGreatest-append a b xs ys (p, p') (q, q') =
    let c = max a b in
    let none_x = count_if_mono (λ y. ltb c y) (λ y. ltb a y) xs (λ y h. lt→ltb a y (omega tests)) in
    let none_y = count_if_mono (λ y. ltb c y) (λ y. ltb b y) ys (λ y h. lt→ltb b y (omega tests)) in
    (
      omega (arith, count_if-append (λ y. ltb c y) xs ys),
      rw (count_if-append (λ y. leb c y) xs ys) (elim (Bool-cases (leb a b)) [
        | inl le ↦
            omega (arith, count_if_mono (λ y. leb b y) (λ y. leb c y) ys (λ y h. ground arith))
        | inr gt ↦
            omega (arith, count_if_mono (λ y. leb a y) (λ y. leb c y) xs (λ y h. ground arith))
      ]),
    )

least_not_above : (a b : ℕ) (xs : List ℕ) → IsLeast a xs → IsLeast b xs → a ≤ b
least_not_above a b xs (p, _) (_, q) = elim (Bool-cases (leb a b)) [
  | inl le ↦ leb→le a b le
  | inr gt ↦ absurd (
      omega
        (arith, count_if_mono (λ y. leb y b) (λ y. ltb y a) xs (λ y h. lt→ltb y a (ground arith))))
]

pub IsLeast-unique : (a b : ℕ) (xs : List ℕ) → IsLeast a xs → IsLeast b xs → a ≡ b
IsLeast-unique a b xs p q = omega (arith, least_not_above a b xs p q, least_not_above b a xs q p)

greatest_not_below : (a b : ℕ) (xs : List ℕ) → IsGreatest a xs → IsGreatest b xs → b ≤ a
greatest_not_below a b xs (p, _) (_, q) = elim (Bool-cases (leb b a)) [
  | inl le ↦ leb→le b a le
  | inr gt ↦ absurd (
      omega
        (arith, count_if_mono (λ y. leb b y) (λ y. ltb a y) xs (λ y h. lt→ltb a y (ground arith))))
]

pub IsGreatest-unique : (a b : ℕ) (xs : List ℕ) → IsGreatest a xs → IsGreatest b xs → a ≡ b
IsGreatest-unique a b xs p q =
    omega (arith, greatest_not_below a b xs p q, greatest_not_below b a xs q p)

-- The greatest element is not above a bound that no element exceeds.
pub IsGreatest-le :
    (b bound : ℕ) (xs : List ℕ) → IsGreatest b xs → count_if (λ y. ltb bound y) xs ≡ 0 → b ≤ bound
IsGreatest-le b bound xs (_, q) none = elim (Bool-cases (leb b bound)) [
  | inl le ↦ leb→le b bound le
  | inr gt ↦ absurd (
      omega (
        arith,
        count_if_mono (λ y. leb b y) (λ y. ltb bound y) xs (λ y h. lt→ltb bound y (ground arith)),
      ))
]

module _ (a : ℕ) (xs ys : List ℕ) (same : (p : ℕ → Bool) → count_if p xs ≡ count_if p ys) where
  pub IsLeast-of_counts : IsLeast a xs → IsLeast a ys
  IsLeast-of_counts (p, q) = omega (arith, same (λ y. ltb y a), same (λ y. leb y a))

  pub IsGreatest-of_counts : IsGreatest a xs → IsGreatest a ys
  IsGreatest-of_counts (p, q) = omega (arith, same (λ y. ltb a y), same (λ y. leb a y))
