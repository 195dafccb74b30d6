-- ===== src/Cpp/Random.antt =====
-- `<random>` and `std::shuffle`. The algorithms of the distributions and of the shuffle are left to
-- the implementation by the standard, so they are a parameter.
use db_benchmark.Prelude.{ℕ, ◌≤◌, ◌≡◌, sym, ◌∙◌, Bool, true, List, length, count_if, count_if-true}
use db_benchmark.Cpp.Text.{Text}

pub record Random (D : Type 0) : Type 1 where
  -- the state of a `std::mt19937_64`
  pub Engine : Type 0
  -- the engine that a seed gives
  pub seed : ℕ → Engine
  -- a draw of `std::uniform_int_distribution` between the two bounds
  pub uniform_int : ℕ → ℕ → Engine → ℕ × Engine
  -- a draw of `std::uniform_real_distribution<double>`
  pub uniform_real : D → D → Engine → D × Engine
  -- `std::shuffle` of a vector of strings
  pub shuffle : List Text → Engine → List Text × Engine

-- What the standard says of them: a draw lies in the closed range of its bounds, and a shuffle is a
-- rearrangement.
pub record IsUniform {D : Type 0} (r : Random D) : Type 0 where
  pub uniform_int-le :
      (lo hi : ℕ) (g : r.Engine)
      → lo ≤ hi
      → (lo ≤ (r.uniform_int lo hi g).0) × ((r.uniform_int lo hi g).0 ≤ hi)
  pub count_if-shuffle :
      (p : Text → Bool) (xs : List Text) (g : r.Engine)
      → count_if p (r.shuffle xs g).0 ≡ count_if p xs

-- A shuffle keeps the number of texts.
pub length-shuffle :
    {D : Type 0} (r : Random D)
    → IsUniform r
    → (xs : List Text) (g : r.Engine) → length (r.shuffle xs g).0 ≡ length xs
length-shuffle r laws xs g =
    sym (count_if-true (r.shuffle xs g).0)
    ∙ laws.count_if-shuffle (λ _. true) xs g
    ∙ count_if-true xs
