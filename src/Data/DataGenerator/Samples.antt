-- ===== src/Data/DataGenerator/Samples.antt =====
-- What src/data/DataGenerator.cpp draws from its pools, and how the generation of orders ends.
use db_benchmark.Prelude.{
  ℕ, zero, suc, ◌-◌, ◌<◌, ◌≡◌, refl, ap, bit_xor, List, [], ◌∷◌, map, arith, length, get_elem?,
  get_elem?_total, All, some, list_cases, ◌⊎◌, inl, inr,
}
use db_benchmark.Cpp.Outcome.{ok, throw, undefined, invalid_argument, runtime_error}
use db_benchmark.Cpp.Text.{Text, text}
use db_benchmark.Cpp.Double.{Double}
use db_benchmark.Cpp.Random.{Random, IsUniform}
use db_benchmark.Metrics.LatencyRecorder.Percentile.{element-ok}
use db_benchmark.Data.Order.{Order}
use db_benchmark.Data.DataGenerator.{
  DataGenerator, pick, generate_uuid, random_user_id, generate_one, generate_n,
  generate_random_order_ids, sample_user_ids, draw_pool, uuid_from, new_generator, num_unique_users,
}

-- the value stands somewhere in the list
abbrev pub IsAmong {ℓ} : {A : Type ℓ} → List A → A → Type ℓ
IsAmong xs x = (i : ℕ) × (get_elem? xs i ≡ some x)

module _ {D : Type 0} ⦃d : Double D⦄ (r : Random D) where
  -- Generating one order or more never gives a vector of orders: the behaviour is undefined at the
  -- first order's user, whatever the state. Generating none gives the empty vector.
  pub generate_n_undefined :
      (n : ℕ) (s : DataGenerator r)
      → (generate_n r zero s ≡ (ok [], s)) × ((generate_n r (suc n) s).0 ≡ undefined)
  unfolding generate_n generate_one generate_uuid random_user_id
  generate_n_undefined n s = (refl, refl)

  module _ (laws : IsUniform r) where
    -- the picks succeed, and each is an element of the list
    pub pick_lem :
        {A : Type 0} (n : ℕ) (xs : List A) (g : r.Engine)
        → 0 < length xs
        → (ys : List A) × ((pick r n xs g).0 ≡ ok ys) × (length ys ≡ n) × All (IsAmong xs) ys
    unfolding pick
    pick_lem {A} zero xs g h = ([], refl, refl, tt)
    pick_lem {A} (suc n) xs g h =
        let (i, g') = r.uniform_int 0 (length xs - 1) g in
        let (_, below) = laws.uniform_int-le 0 (length xs - 1) g (omega arith) in
        let (x, e) = get_elem?_total xs i (omega arith) in
        let (ys, e', size, among) = pick_lem n xs g' h in
        (x ∷ ys, rw (element-ok xs i e, e') refl, omega arith, ((i, e), among))

    -- From a dataset that is not empty, `generate_random_order_ids` returns as many ids as asked, each
    -- the id of an order of the dataset, and changes nothing but the engine; from an empty one it
    -- throws and changes nothing.
    pub generate_random_order_ids_lem :
        (n : ℕ) (dataset : List (Order D)) (s : DataGenerator r)
        → (0 < length dataset
            → (ids : List Text) × ((generate_random_order_ids r n dataset s).0 ≡ ok ids)
              × (length ids ≡ n)
              × All (IsAmong (map (λ o. o.order_id) dataset)) ids)
          × ((generate_random_order_ids r n dataset s).1
              ≡ record s { rng = (generate_random_order_ids r n dataset s).1.rng })
          × (generate_random_order_ids r n [] s
              ≡ (throw (invalid_argument (text "dataset is empty")), s))
    unfolding generate_random_order_ids
    generate_random_order_ids_lem n [] s = (λ h. elim h [ ], refl, refl)
    generate_random_order_ids_lem n (o ∷ dataset) s =
        (λ h. pick_lem n (map (λ x. x.order_id) (o ∷ dataset)) s.rng (omega arith), refl, refl)

    sampled :
        (n : ℕ) (s : DataGenerator r)
        → 0 < length s.user_id_pool
        → (s.user_id_pool ≡ []) ⊎ ((y : Text) × (ys : List Text) × (s.user_id_pool ≡ y ∷ ys))
        → (ids : List Text) × (sample_user_ids r n s ≡ ok ids)
          × (length ids ≡ n)
          × All (IsAmong s.user_id_pool) ids
    unfolding sample_user_ids
    sampled n s h (inl e) = absurd (omega (arith, ap length e))
    sampled n s h (inr (y, ys, e)) =
        let (ids, e', size, among) =
          pick_lem n s.user_id_pool (r.seed (bit_xor s.seed_value 0xDEADBEEF)) h in
        (ids, ground arith, size, among)

    -- `sample_user_ids` returns as many ids as asked, each one of the pool, and throws exactly if the
    -- pool is empty.
    pub sample_user_ids_lem :
        (n : ℕ) (s : DataGenerator r)
        → (0 < length s.user_id_pool
            → (ids : List Text) × (sample_user_ids r n s ≡ ok ids)
              × (length ids ≡ n)
              × All (IsAmong s.user_id_pool) ids)
          × (s.user_id_pool ≡ []
              → sample_user_ids r n s ≡ throw (runtime_error (text "user_id_pool_ is empty")))
    unfolding sample_user_ids
    sample_user_ids_lem n s =
        (λ h. sampled n s h (list_cases s.user_id_pool), λ e. rw (e, sample_user_ids))

    length-draw_pool : (n : ℕ) (g : r.Engine) → length (draw_pool r n g).0 ≡ n
    unfolding draw_pool
    length-draw_pool zero g = refl
    length-draw_pool (suc n) g = ap suc (length-draw_pool n (uuid_from r g).1)

    -- a new generator has as many users as the constant says, and gives any number of samples
    pub sample-new_generator :
        (n seed_value : ℕ)
        → (ids : List Text) × (sample_user_ids r n (new_generator r seed_value) ≡ ok ids)
          × (length ids ≡ n)
    unfolding new_generator num_unique_users
    sample-new_generator n seed_value =
        let (ids, e, size, _) =
          (sample_user_ids_lem n (new_generator r seed_value)).0
            (omega (arith, length-draw_pool 100_000 (r.seed seed_value))) in
        (ids, e, size)
