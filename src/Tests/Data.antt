-- ===== src/Tests/Data.antt =====
-- Runs of the model of src/data.
use db_benchmark.Prelude.{◌<◌, ◌≤◌, ◌≡◌, [], ◌∷◌, arith, length}
use db_benchmark.Cpp.Outcome.{ok}
use db_benchmark.Cpp.Text.{Text, text}
use db_benchmark.Cpp.Milli.{milli}
use db_benchmark.Data.DataGenerator.{DataGenerator, grow, resize, description_of, generate_uuid}
use db_benchmark.Data.DataGenerator.Uuid.{IsUuid4, generate_uuid-IsUuid4}
use db_benchmark.Data.DataGenerator.Description.{grow_ends}
use db_benchmark.Tests.Machine.{counter}

abbrev generator : DataGenerator counter
generator = record {
  seed_value = 42;
  rng = 7;
  user_id_pool = text "u1" ∷ text "u2" ∷ [];
  base_timestamp = 1640995200;
  timestamp_range = 63072000;
}

generate_uuid-IsUuid4_example :
    (id : Text) × ((generate_uuid counter generator).0 ≡ ok id) × IsUuid4 id
generate_uuid-IsUuid4_example = generate_uuid-IsUuid4 counter generator

grow_ends_example :
    (600 ≤ length (grow 1000 (text "Lorem ") []))
    × (description_of (text "Lorem ") ≡ resize 600 (grow 1000 (text "Lorem ") []))
    × (length (grow 1000 [] []) < 600)
unfolding text
grow_ends_example = grow_ends (text "Lorem ") 1000 (omega arith) (omega arith)
