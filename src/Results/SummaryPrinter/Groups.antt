-- ===== src/Results/SummaryPrinter/Groups.antt =====
-- How `print_final_summary` of src/results/SummaryPrinter.cpp groups the results.
use db_benchmark.Prelude.{
  ℕ, ◌+◌, ◌≤◌, ◌<◌, ◌≡◌, refl, ap, ◌∙◌, Bool, true, false, List, [], ◌∷◌, ◌++◌, arith, count_if,
  count_if-append, All, if◌then◌else◌, Bool-cases, inl, inr,
}
use db_benchmark.Cpp.Text.{Text, text_eq, text_eq_refl, text_eq→eq, text_eq_comm}
use db_benchmark.Metrics.BenchmarkResult.{BenchmarkResult}
use db_benchmark.Results.SummaryPrinter.{is_known, collect_names, results_of}

-- how often a name stands in a list
abbrev pub name_count : Text → List Text → ℕ
name_count name = count_if (text_eq name)

abbrev pub sum_over {ℓ} : {A : Type ℓ} → (A → ℕ) → List A → ℕ
sum_over f [] = 0
sum_over f (x ∷ xs) = f x + sum_over f xs

name_count-unknown :
    (name : Text) (names : List Text) → is_known name names ≡ false → name_count name names ≡ 0
unfolding is_known
name_count-unknown name [] h = refl
name_count-unknown name (n ∷ names) h =
    ground (arith, text_eq_comm n name, name_count-unknown name names)

name_count-known :
    (name : Text) (names : List Text) → is_known name names ≡ true → 0 < name_count name names
unfolding is_known
name_count-known name [] h = cc
name_count-known name (n ∷ names) h =
    ground (arith, text_eq_comm n name, name_count-known name names)

sum_over_zero {ℓ} : {A : Type ℓ} (xs : List A) → sum_over (λ _. 0) xs ≡ 0
sum_over_zero [] = refl
sum_over_zero (x ∷ xs) = omega (arith, sum_over_zero xs)

-- A new name behind the others.
appended_once :
    (name n : Text) (names : List Text)
    → is_known name names ≡ false
    → name_count n names ≤ 1
    → name_count n (names ++ name ∷ []) ≤ 1
appended_once name n names new h =
    rw (count_if-append (text_eq n) names (name ∷ [])) (elim (Bool-cases (text_eq n name)) [
      | inl same ↦ rw same (
          omega (
            arith,
            ap (λ m. name_count m names) (text_eq→eq n name same),
            name_count-unknown name names new,
          ))
      | inr other ↦ rw other (omega arith)
    ])

name_count_next :
    (name : Text) (names : List Text)
    → 0 < name_count name (if is_known name names then names else names ++ name ∷ [])
name_count_next name names = elim (Bool-cases (is_known name names)) [
  | inl old ↦ rw old (name_count-known name names old)
  | inr new ↦
      rw (new, count_if-append (text_eq name) names (name ∷ []), text_eq_refl name) (omega arith)
]

module _ {D : Type 0} where
  collect_names-le :
      (name : Text) (results : List (BenchmarkResult D)) (names : List Text)
      → name_count name names ≤ name_count name (collect_names names results)
  unfolding collect_names
  collect_names-le name [] names = omega arith
  collect_names-le name (r ∷ results) names = elim (Bool-cases (is_known r.experiment_name names)) [
    | inl old ↦ rw old (collect_names-le name results names)
    | inr new ↦ rw new (
        omega (
          arith,
          collect_names-le name results (names ++ r.experiment_name ∷ []),
          count_if-append (text_eq name) names (r.experiment_name ∷ []),
        ))
  ]

  -- no name is collected twice
  collect_names_once :
      (name : Text) (results : List (BenchmarkResult D)) (names : List Text)
      → ((n : Text) → name_count n names ≤ 1)
      → name_count name (collect_names names results) ≤ 1
  unfolding collect_names
  collect_names_once name [] names h = h name
  collect_names_once name (r ∷ results) names h =
      elim (Bool-cases (is_known r.experiment_name names)) [
        | inl old ↦ rw old (collect_names_once name results names h)
        | inr new ↦ rw new (
            collect_names_once name results (names ++ r.experiment_name ∷ [])
              (λ n. omega (arith, appended_once r.experiment_name n names new (h n))))
      ]

  -- every result's name is collected
  collect_names_complete :
      (results : List (BenchmarkResult D)) (names : List Text)
      → All (λ r. 0 < name_count r.experiment_name (collect_names names results)) results
  unfolding collect_names
  collect_names_complete [] names = tt
  collect_names_complete (r ∷ results) names =
      let next =
        if is_known r.experiment_name names then names else names ++ r.experiment_name ∷ [] in
      (
        omega (
          arith,
          collect_names-le r.experiment_name results next,
          name_count_next r.experiment_name names,
        ),
        collect_names_complete results next,
      )

  module _ (p : BenchmarkResult D → Bool) where
    -- a result counts in the group of each name that is its own
    group_one :
        (r : BenchmarkResult D) (results : List (BenchmarkResult D)) (names : List Text)
        → sum_over (λ name. count_if p (results_of name (r ∷ results))) names
          ≡ (if p r then name_count r.experiment_name names else 0)
            + sum_over (λ name. count_if p (results_of name results)) names
    unfolding results_of
    group_one r results [] = ground arith
    group_one r results (n ∷ names) = ground (arith, group_one r results names)

    groups_total :
        (results : List (BenchmarkResult D)) (names : List Text)
        → All (λ r. name_count r.experiment_name names ≡ 1) results
        → sum_over (λ name. count_if p (results_of name results)) names ≡ count_if p results
    unfolding results_of
    groups_total [] names h = sum_over_zero names
    groups_total (r ∷ results) names (h, hs) =
        group_one r results names ∙ ground (arith, groups_total results names hs)

  collected_once :
      (results : List (BenchmarkResult D))
      → All (λ r. name_count r.experiment_name (collect_names [] results) ≡ 1) results
  collected_once results = squeeze results (collect_names_complete results [])
    where
      squeeze :
          (rs : List (BenchmarkResult D))
          → All (λ r. 0 < name_count r.experiment_name (collect_names [] results)) rs
          → All (λ r. name_count r.experiment_name (collect_names [] results) ≡ 1) rs
      squeeze [] h = tt
      squeeze (r ∷ rs) (h, hs) = (
        omega (arith, collect_names_once r.experiment_name results [] (λ n. omega arith)),
        squeeze rs hs,
      )

  -- The sections of the final summary share the results out: no name has two sections, the name of
  -- every result has one, and whatever is counted among the results, the sections together show as
  -- many.
  pub final_summary_partition :
      (results : List (BenchmarkResult D))
      → ((name : Text) → name_count name (collect_names [] results) ≤ 1)
        × All (λ r. name_count r.experiment_name (collect_names [] results) ≡ 1) results
        × ((p : BenchmarkResult D → Bool)
            → sum_over (λ name. count_if p (results_of name results)) (collect_names [] results)
              ≡ count_if p results)
  final_summary_partition results = (
    λ name. collect_names_once name results [] (λ n. omega arith),
    collected_once results,
    λ p. groups_total p results (collect_names [] results) (collected_once results),
  )
