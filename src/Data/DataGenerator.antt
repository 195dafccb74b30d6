-- ===== src/Data/DataGenerator.antt =====
-- src/data/DataGenerator.hpp and .cpp, over the random numbers of `Random` and a `gmtime_r`.
-- `random_user_id` and `generate_timestamp` have no return statement: a call flows off their end.
pub mod Uuid
pub mod Description
pub mod Samples
use db_benchmark.Prelude.{
  ℕ, zero, suc, ◌+◌, ◌-◌, ◌*◌, ◌/◌, ◌%◌, ◌<◌, bit_and, bit_or, bit_xor, Bool, true, false, ◌||◌,
  List, [], ◌∷◌, ◌++◌, ltb, leb, ◌==◌, length, map, take, replicate, if◌then◌else◌,
}
use db_benchmark.Prelude.Int.{ℤ, pos}
use db_benchmark.Cpp.Outcome.{Outcome, ok, throw, undefined, invalid_argument, runtime_error}
use db_benchmark.Cpp.Method.{Method, pure, raise, lift, gets, ◌>>=◌, ◌>>◌}
use db_benchmark.Cpp.Text.{Text, text}
use db_benchmark.Cpp.Time.{Tm, strftime}
use db_benchmark.Cpp.Double.{Double}
use db_benchmark.Cpp.Random.{Random}
use db_benchmark.Metrics.LatencyRecorder.{element}
use db_benchmark.Data.Order.{Order}

-- `while (result.size() < 600) result += base;` with fuel: a pass adds one byte at least
pub grow : ℕ → Text → Text → Text
grow zero base result = result
grow (suc fuel) base result =
    let next = grow fuel base (result ++ base) in if ltb (length result) 600 then next else result

-- `resize(n)`
pub resize : ℕ → Text → Text
resize n s = take n s ++ replicate (n - length s) 0

-- the lambda that fills the description from its base text
unfoldable pub description_of : Text → Text
unfolding grow resize
description_of base = resize 600 (grow 600 base [])

unfoldable pub shared_description : Text
unfolding description_of
shared_description = description_of (
    text "Lorem Ipsum is simply dummy text of the printing and typesetting industry. "
    ++ text
        "Lorem Ipsum has been the industry's standard dummy text ever since the 1500s, when an unknown printer "
    ++ text
        "took a galley of type and scrambled it to make a type specimen book. It has survived not only five "
    ++ text
        "centuries, but also the leap into electronic typesetting, remaining essentially unchanged. It was "
    ++ text
        "popularised in the 1960s with the release of Letraset sheets containing Lorem Ipsum passages, and "
    ++ text
        "more recently with desktop publishing software like Aldus PageMaker including versions of Lorem Ipsum.")

unfoldable pub status_pool : List Text
status_pool = text "pending" ∷ text "shipped" ∷ text "delivered" ∷ text "cancelled" ∷ []

unfoldable pub num_unique_users : ℕ
num_unique_users = 100_000

-- a digit of `std::hex`
unfoldable pub hex_digit : ℕ → ℕ
hex_digit n = if ltb n 10 then 48 + n else 87 + n

-- a byte under `std::setw(2)` and `std::setfill('0')`
unfoldable pub hex_byte : ℕ → Text
hex_byte b = hex_digit (b / 16) ∷ hex_digit (b % 16) ∷ []

-- `bytes[6] = (bytes[6] & 0x0f) | 0x40;`
unfoldable pub version_byte : ℕ → ℕ
version_byte b = bit_or (bit_and b 0x0f) 0x40

-- `bytes[8] = (bytes[8] & 0x3f) | 0x80;`
unfoldable pub variant_byte : ℕ → ℕ
variant_byte b = bit_or (bit_and b 0x3f) 0x80

-- the assignments to the bytes 6 and 8, by the index
unfoldable pub marked_byte : ℕ → ℕ → ℕ
marked_byte i b = if i == 6 then version_byte b else if i == 8 then variant_byte b else b

-- the loop that prints the bytes from index `i` on
unfoldable pub print_bytes : ℕ → List ℕ → Text
print_bytes i [] = []
print_bytes i (b ∷ bytes) =
    (if i == 4 || i == 6 || i == 8 || i == 10 then b'-' ∷ [] else [])
    ++ hex_byte (marked_byte i b)
    ++ print_bytes (suc i) bytes

-- what `push_back` of a read leaves
abbrev pub push {ℓ} : {A : Type ℓ} → Outcome A → Outcome (List A) → Outcome (List A)
push (ok x) (ok xs) = ok (x ∷ xs)
push (ok x) (throw e) = throw e
push (ok x) undefined = undefined
push (throw e) xs = throw e
push undefined xs = undefined

module _ {D : Type 0} ⦃d : Double D⦄ (r : Random D) where
  open r use {Engine, seed, uniform_int, uniform_real}

  pub record DataGenerator : Type 0 where
    pub seed_value : ℕ
    pub rng : Engine
    pub user_id_pool : List Text
    pub base_timestamp : ℕ
    pub timestamp_range : ℕ

  -- the draws of `generate_uuid`, each cast to `uint8_t`
  unfoldable pub draw_bytes : ℕ → Engine → List ℕ × Engine
  draw_bytes zero g = ([], g)
  draw_bytes (suc n) g =
      let (b, g') = uniform_int 0 255 g in
      let (bytes, g'') = draw_bytes n g' in (b % 256 ∷ bytes, g'')

  unfoldable pub uuid_from : Engine → Text × Engine
  uuid_from g = let (bytes, g') = draw_bytes 16 g in (print_bytes 0 bytes, g')

  -- the pool of the constructor
  unfoldable pub draw_pool : ℕ → Engine → List Text × Engine
  draw_pool zero g = ([], g)
  draw_pool (suc n) g =
      let (id, g') = uuid_from g in let (ids, g'') = draw_pool n g' in (id ∷ ids, g'')

  unfoldable pub new_generator : ℕ → DataGenerator
  unfolding num_unique_users
  new_generator seed_value =
      let (ids, g) = draw_pool num_unique_users (seed seed_value) in
      record {
        seed_value = seed_value;
        rng = g;
        user_id_pool = ids;
        base_timestamp = 1640995200;
        timestamp_range = 730 * 24 * 60 * 60;
      }

  unfoldable pub generate_uuid : Method DataGenerator Text
  generate_uuid s = let (id, g) = uuid_from s.rng in (ok id, record s { rng = g })

  unfoldable pub random_status : Method DataGenerator Text
  unfolding status_pool
  random_status s =
      let (i, g) = uniform_int 0 3 s.rng in (element status_pool i, record s { rng = g })

  -- The body only builds a distribution.
  unfoldable pub random_user_id : Method DataGenerator Text
  random_user_id = lift undefined

  -- The body draws, and declares a variable that is named like `epoch_to_iso`.
  unfoldable pub generate_timestamp : Method DataGenerator Text
  generate_timestamp s =
      let (_, g) = uniform_int 0 s.timestamp_range s.rng in (undefined, record s { rng = g })

  draw_amount : Method DataGenerator D
  draw_amount s =
      let (x, g) = uniform_real (d.literal 1 1) (d.literal 99999 100) s.rng in
      (ok (d.div (d.round (d.mul x (d.literal 100 1))) (d.literal 100 1)), record s { rng = g })

  draw_quantity : Method DataGenerator ℤ
  draw_quantity s = let (q, g) = uniform_int 1 10 s.rng in (ok (pos q), record s { rng = g })

  unfoldable pub generate_one : Method DataGenerator (Order D)
  unfolding draw_amount draw_quantity
  generate_one = do
    order_id ← generate_uuid
    user_id ← random_user_id
    product_id ← generate_uuid
    status ← random_status
    amount ← draw_amount
    quantity ← draw_quantity
    created_at ← generate_timestamp
    pure (record {
      order_id = order_id;
      user_id = user_id;
      product_id = product_id;
      status = status;
      amount = amount;
      quantity = quantity;
      description = shared_description;
      created_at = created_at;
      updated_at = created_at;
    })

  unfoldable pub generate_n : ℕ → Method DataGenerator (List (Order D))
  generate_n zero = pure []
  generate_n (suc n) = do o ← generate_one; orders ← generate_n n; pure (o ∷ orders)

  -- `n` draws from `0` to `size - 1`, each read from the vector
  unfoldable pub pick {ℓ} : {A : Type ℓ} → ℕ → List A → Engine → Outcome (List A) × Engine
  pick zero xs g = (ok [], g)
  pick (suc n) xs g =
      let (i, g') = uniform_int 0 (length xs - 1) g in
      let (rest, g'') = pick n xs g' in (push (element xs i) rest, g'')

  unfoldable pub generate_random_order_ids : ℕ → List (Order D) → Method DataGenerator (List Text)
  unfolding pick
  generate_random_order_ids n [] s = (throw (invalid_argument (text "dataset is empty")), s)
  generate_random_order_ids n (o ∷ dataset) s =
      let (ids, g) = pick n (map (λ x. x.order_id) (o ∷ dataset)) s.rng in
      (ids, record s { rng = g })

  unfoldable pub generate_date_range : List (Order D) → ℤ → Method DataGenerator (Text × Text)
  generate_date_range dataset window_days = pure ([], [])

  unfoldable pub generate_description : Method DataGenerator Text
  generate_description = pure shared_description

  -- a generator of its own, seeded from the member: the object is not changed
  unfoldable pub sample_user_ids : ℕ → DataGenerator → Outcome (List Text)
  sample_user_ids n s = elim s.user_id_pool [
    | [] ↦ throw (runtime_error (text "user_id_pool_ is empty"))
    | _ ∷ _ ↦ (pick n s.user_id_pool (seed (bit_xor s.seed_value 0xDEADBEEF))).0
  ]

-- `strftime` into a buffer of 25 bytes, which a year of four digits leaves room in
unfoldable pub epoch_to_iso : (ℤ → Tm) → ℤ → Text
epoch_to_iso gmtime epoch = strftime (text "%Y-%m-%dT%H:%M:%SZ") (gmtime epoch)
