-- ===== src/Experiment/ExperimentBase/Samples.antt =====
-- What src/experiment/ExperimentBase.cpp draws from the dataset.
use db_benchmark.Prelude.{
  ℕ, ◌<◌, ◌≡◌, refl, ◌∙◌, min, bit_xor, List, [], ◌∷◌, arith, ltb, length, All, if◌then◌else◌,
}
use db_benchmark.Cpp.Outcome.{ok, throw, runtime_error}
use db_benchmark.Cpp.Text.{text}
use db_benchmark.Cpp.Double.{Double}
use db_benchmark.Cpp.Random.{Random, IsUniform}
use db_benchmark.Data.Order.{Order}
use db_benchmark.Data.DataGenerator.Samples.{IsAmong, pick_lem}
use db_benchmark.Experiment.ExperimentBase.{sample_random_orders}

module _ {D : Type 0} ⦃d : Double D⦄ (r : Random D) (laws : IsUniform r) where
  -- `sample_random_orders` of a dataset that is not empty returns as many orders as asked, the
  -- dataset's size at most, each an order of the dataset; of an empty dataset it throws.
  pub sample_random_orders_lem :
      (dataset : List (Order D)) (rng_seed n : ℕ)
      → (0 < length dataset
          → (sample : List (Order D)) × (sample_random_orders r dataset rng_seed n ≡ ok sample)
            × (length sample ≡ min n (length dataset))
            × All (IsAmong dataset) sample)
        × (sample_random_orders r [] rng_seed n
            ≡ throw (runtime_error (text "sample random orders dataset is empty")))
  unfolding sample_random_orders
  sample_random_orders_lem [] rng_seed n = (λ h. elim h [ ], refl)
  sample_random_orders_lem (o ∷ dataset) rng_seed n = (
    λ h.
        let capped = if ltb (length (o ∷ dataset)) n then length (o ∷ dataset) else n in
        let (sample, e, size, among) =
          pick_lem r laws capped (o ∷ dataset) (r.seed (bit_xor rng_seed 0xFEEDFACE)) h in
        (sample, e, size ∙ ground arith, among),
    refl,
  )
