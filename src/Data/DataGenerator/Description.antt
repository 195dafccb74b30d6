-- ===== src/Data/DataGenerator/Description.antt =====
-- The description that src/data/DataGenerator.cpp gives to every order.
use native.Mathlib.Nat.{mul-add-mod_self_right, mod-eq_of_lt}
use db_benchmark.Prelude.{
  ℕ, zero, suc, ◌+◌, ◌-◌, ◌*◌, ◌%◌, ◌≤◌, ◌<◌, ◌≡◌, refl, ap, sym, ◌∙◌, [], ◌∷◌, ◌++◌, append-nil,
  arith, ltb, length, length-append, length-take, take, get_elem?, Bool-cases, inl, inr, false,
}
use db_benchmark.Cpp.Text.{Text}
use db_benchmark.Data.DataGenerator.{grow, resize, description_of}

-- whole copies of the base text, one behind the other
abbrev IsPeriodic : Text → Text → Type 0
IsPeriodic base s =
    ((k : ℕ) × (length s ≡ k * length base))
    × ((i : ℕ) → i < length s → get_elem? s i ≡ get_elem? base (i % length base))

get_elem?-append_left : (s t : Text) (i : ℕ) → i < length s → get_elem? (s ++ t) i ≡ get_elem? s i
get_elem?-append_left [] t i h = elim h [ ]
get_elem?-append_left (c ∷ s) t zero h = refl
get_elem?-append_left (c ∷ s) t (suc i) h = get_elem?-append_left s t i (omega arith)

get_elem?-append_right : (s t : Text) (j : ℕ) → get_elem? (s ++ t) (length s + j) ≡ get_elem? t j
get_elem?-append_right [] t j = ap (get_elem? t) {x = 0 + j} {y = j} (omega arith)
get_elem?-append_right (c ∷ s) t j =
    ap (get_elem? (c ∷ s ++ t)) {x = suc (length s) + j} {y = suc (length s + j)} (omega arith)
    ∙ get_elem?-append_right s t j

get_elem?-take : (n : ℕ) (s : Text) (i : ℕ) → i < n → get_elem? (take n s) i ≡ get_elem? s i
get_elem?-take zero s i h = elim h [ ]
get_elem?-take (suc n) [] i h = refl
get_elem?-take (suc n) (c ∷ s) zero h = refl
get_elem?-take (suc n) (c ∷ s) (suc i) h = get_elem?-take n s i (omega arith)

mod_in_copy : (k n j : ℕ) → j < n → (k * n + j) % n ≡ j
mod_in_copy k n j h = mul-add-mod_self_right k n j ∙ mod-eq_of_lt h

IsPeriodic-append : (base s : Text) → IsPeriodic base s → IsPeriodic base (s ++ base)
IsPeriodic-append base s ((k, size), at) = (
  (suc k, omega (arith, length-append s base)),
  λ i h. elim (Bool-cases (ltb i (length s))) [
    | inl old ↦ get_elem?-append_left s base i (ground arith) ∙ at i (ground arith)
    | inr new ↦
        let j = i - length s in
        let behind : length s ≤ i = ground arith in
        let here : i ≡ length s + j = omega arith in
        ap (get_elem? (s ++ base)) here
        ∙ get_elem?-append_right s base j
        ∙ ap (get_elem? base) (
            sym (mod_in_copy k (length base) j (omega (arith, length-append s base)))
            ∙ ap (λ n. n % length base) (omega arith))
  ],
)

grow-IsPeriodic :
    (fuel : ℕ) (base s : Text)
    → 0 < length base
    → 600 ≤ length s + fuel
    → IsPeriodic base s
    → (600 ≤ length (grow fuel base s)) × IsPeriodic base (grow fuel base s)
unfolding grow
grow-IsPeriodic zero base s pos h p = (omega arith, p)
grow-IsPeriodic (suc fuel) base s pos h p = elim (Bool-cases (ltb (length s) 600)) [
  | inl more ↦ rw more (
      grow-IsPeriodic fuel base (s ++ base) pos (omega (arith, length-append s base))
        (IsPeriodic-append base s p))
  | inr done ↦ rw done (ground arith, p)
]

resize_long : (n : ℕ) (s : Text) → n ≤ length s → resize n s ≡ take n s
unfolding resize
resize_long n s h =
    let none_left : n - length s ≡ 0 = omega arith in rw none_left (append-nil (take n s))

-- For every base text that is not empty the description has just 600 bytes, and they are those of
-- the base text over and over.
pub description_of_lem :
    (base : Text)
    → 0 < length base
    → (length (description_of base) ≡ 600)
      × ((i : ℕ) → i < 600 → get_elem? (description_of base) i ≡ get_elem? base (i % length base))
unfolding description_of
description_of_lem base pos =
    let (long, (_, at)) =
      grow-IsPeriodic 600 base [] pos (omega arith) ((0, omega arith), λ i h. elim h [ ]) in
    rw (resize_long 600 (grow 600 base []) long) (
      omega (arith, length-take 600 (grow 600 base [])),
      λ i h. get_elem?-take 600 (grow 600 base []) i h ∙ at i (omega arith),
    )

grow_done : (fuel : ℕ) (base s : Text) → 600 ≤ length s → grow fuel base s ≡ s
unfolding grow
grow_done zero base s h = refl
grow_done (suc fuel) base s h = let done : ltb (length s) 600 ≡ false = ground arith in rw done refl

grow_same :
    (fuel fuel' : ℕ) (base s : Text)
    → 0 < length base
    → 600 ≤ length s + fuel
    → 600 ≤ length s + fuel'
    → grow fuel base s ≡ grow fuel' base s
unfolding grow
grow_same zero fuel' base s pos h h' = sym (grow_done fuel' base s (omega arith))
grow_same (suc fuel) zero base s pos h h' = grow_done (suc fuel) base s (omega arith)
grow_same (suc fuel) (suc fuel') base s pos h h' =
    rw
      (grow_same fuel fuel' base (s ++ base) pos (omega (arith, length-append s base))
        (omega (arith, length-append s base)))
      refl

grow-nil : (fuel : ℕ) → grow fuel [] [] ≡ []
unfolding grow
grow-nil zero = refl
grow-nil (suc fuel) = grow-nil fuel

-- The loop that fills the description ends for every base text that is not empty: with 600 units of fuel
-- or more it stops because its test fails, and the description is made of its result, which is the
-- same for all of them. For the empty base text it would never end: the same fuel does not bring it
-- to 600 bytes.
pub grow_ends :
    (base : Text) (fuel : ℕ)
    → 0 < length base
    → 600 ≤ fuel
    → (600 ≤ length (grow fuel base []))
      × (description_of base ≡ resize 600 (grow fuel base []))
      × (length (grow fuel [] []) < 600)
unfolding description_of
grow_ends base fuel pos enough = (
  (grow-IsPeriodic fuel base [] pos (omega arith) ((0, omega arith), λ i h. elim h [ ])).0,
  ap (resize 600) (grow_same 600 fuel base [] pos (omega arith) (omega arith)),
  rw (grow-nil fuel) (omega arith),
)
