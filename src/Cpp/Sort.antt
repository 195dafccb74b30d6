-- ===== src/Cpp/Sort.antt =====
-- `std::sort` on unsigned integers: the list in ascending order. The order that the standard asks
-- for determines the result, so any sorting routine stands for it.
use mathlib.Core.Path.{ap₂}
use db_benchmark.Prelude.{
  ℕ, ◌+◌, ◌≤◌, ◌≡◌, refl, ◌∙◌, ap, sym, Bool, true, List, [], ◌∷◌, arith, ltb, leb, leb→le,
  if◌then◌else◌, length, All, count_if, Bool-cases, inl, inr,
}

insert_sorted : ℕ → List ℕ → List ℕ
insert_sorted x [] = x ∷ []
insert_sorted x (y ∷ ys) = if leb x y then x ∷ y ∷ ys else y ∷ insert_sorted x ys

unfoldable pub sort : List ℕ → List ℕ
unfolding insert_sorted
sort [] = []
sort (x ∷ xs) = insert_sorted x (sort xs)

abbrev pub IsSorted : List ℕ → Type 0
IsSorted [] = Unit
IsSorted (x ∷ xs) = All (λ y. x ≤ y) xs × IsSorted xs

count_if-insert_sorted :
    (p : ℕ → Bool) (x : ℕ) (ys : List ℕ) → count_if p (insert_sorted x ys) ≡ count_if p (x ∷ ys)
unfolding insert_sorted
count_if-insert_sorted p x [] = refl
count_if-insert_sorted p x (y ∷ ys) = elim (Bool-cases (leb x y)) [
  | inl le ↦ rw le
  | inr gt ↦ rw gt (omega (arith, count_if-insert_sorted p x ys))
]

-- Sorting keeps how many elements pass any test.
pub count_if-sort : (p : ℕ → Bool) (xs : List ℕ) → count_if p (sort xs) ≡ count_if p xs
unfolding sort
count_if-sort p [] = refl
count_if-sort p (x ∷ xs) =
    count_if-insert_sorted p x (sort xs) ∙ ap (λ n. (if p x then 1 else 0) + n) (count_if-sort p xs)

length-insert_sorted : (x : ℕ) (ys : List ℕ) → length (insert_sorted x ys) ≡ length (x ∷ ys)
unfolding insert_sorted
length-insert_sorted x [] = refl
length-insert_sorted x (y ∷ ys) = ground (arith, length-insert_sorted x ys)

pub length-sort : (xs : List ℕ) → length (sort xs) ≡ length xs
unfolding sort
length-sort [] = refl
length-sort (x ∷ xs) = length-insert_sorted x (sort xs) ∙ omega (arith, length-sort xs)

All-insert_sorted :
    (a x : ℕ) (ys : List ℕ) → a ≤ x → All (λ y. a ≤ y) ys → All (λ y. a ≤ y) (insert_sorted x ys)
unfolding insert_sorted
All-insert_sorted a x [] h p = (h, tt)
All-insert_sorted a x (y ∷ ys) h (p, ps) = elim (Bool-cases (leb x y)) [
  | inl le ↦ rw le (h, (p, ps))
  | inr gt ↦ rw gt (p, All-insert_sorted a x ys h ps)
]

pub All-le_trans : (a b : ℕ) (ys : List ℕ) → a ≤ b → All (λ y. b ≤ y) ys → All (λ y. a ≤ y) ys
All-le_trans a b [] h p = tt
All-le_trans a b (y ∷ ys) h (p, ps) = (omega arith, All-le_trans a b ys h ps)

insert_sorted-IsSorted : (x : ℕ) (ys : List ℕ) → IsSorted ys → IsSorted (insert_sorted x ys)
unfolding insert_sorted
insert_sorted-IsSorted x [] s = (tt, tt)
insert_sorted-IsSorted x (y ∷ ys) (p, s) = elim (Bool-cases (leb x y)) [
  | inl le ↦ rw le ((leb→le x y le, All-le_trans x y ys (leb→le x y le) p), (p, s))
  | inr gt ↦ rw gt (All-insert_sorted y x ys (ground arith) p, insert_sorted-IsSorted x ys s)
]

-- The result is in ascending order.
pub sort-IsSorted : (xs : List ℕ) → IsSorted (sort xs)
unfolding sort
sort-IsSorted [] = tt
sort-IsSorted (x ∷ xs) = insert_sorted-IsSorted x (sort xs) (sort-IsSorted xs)

count_if-none : (a : ℕ) (xs : List ℕ) → All (λ y. a ≤ y) xs → count_if (λ y. ltb y a) xs ≡ 0
count_if-none a [] p = refl
count_if-none a (x ∷ xs) (p, ps) = ground (arith, count_if-none a xs ps)

head_le :
    (x y : ℕ) (xs ys : List ℕ)
    → IsSorted (y ∷ ys)
    → count_if (λ z. ltb z y) (x ∷ xs) ≡ count_if (λ z. ltb z y) (y ∷ ys)
    → y ≤ x
head_le x y xs ys (p, _) e = ground (arith, count_if-none y ys p)

tail_counts :
    (p : ℕ → Bool) (x y : ℕ) (xs ys : List ℕ)
    → x ≡ y
    → count_if p (x ∷ xs) ≡ count_if p (y ∷ ys)
    → count_if p xs ≡ count_if p ys
tail_counts p x y xs ys same e = omega (arith, ap (λ (z : ℕ). (if p z then 1 else 0) + 0) same)

-- Two ascending lists are equal if every test is passed equally often in both.
pub IsSorted-eq :
    (xs ys : List ℕ)
    → IsSorted xs
    → IsSorted ys
    → ((p : ℕ → Bool) → count_if p xs ≡ count_if p ys)
    → xs ≡ ys
IsSorted-eq [] [] s t e = refl
IsSorted-eq [] (y ∷ ys) s t e = absurd (omega (arith, e (λ _. true)))
IsSorted-eq (x ∷ xs) [] s t e = absurd (omega (arith, e (λ _. true)))
IsSorted-eq (x ∷ xs) (y ∷ ys) s t e =
    let same : x ≡ y = omega (
      arith,
      head_le x y xs ys t (e (λ z. ltb z y)),
      head_le y x ys xs s (sym (e (λ z. ltb z x))),
    ) in
    ap₂ ◌∷◌ same (IsSorted-eq xs ys s.1 t.1 (λ p. tail_counts p x y xs ys same (e p)))

-- Lists whose elements pass every test equally often are sorted to the same list.
pub sort_eq :
    (xs ys : List ℕ) → ((p : ℕ → Bool) → count_if p xs ≡ count_if p ys) → sort xs ≡ sort ys
sort_eq xs ys e =
    IsSorted-eq (sort xs) (sort ys) (sort-IsSorted xs) (sort-IsSorted ys)
      (λ p. count_if-sort p xs ∙ e p ∙ sym (count_if-sort p ys))
