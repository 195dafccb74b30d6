-- ===== src/Data/Order.antt =====
-- src/data/Order.hpp
use db_benchmark.Prelude.{[]}
use db_benchmark.Prelude.Int.{ℤ}
use db_benchmark.Cpp.Text.{Text}

pub record Order (D : Type 0) : Type 0 where
  pub order_id : Text
  pub user_id : Text
  pub product_id : Text
  pub status : Text
  pub amount : D
  pub quantity : ℤ
  pub description : Text
  pub created_at : Text
  pub updated_at : Text

-- `Order{}`, value-initialised: the numbers are zero
unfoldable pub empty_order : {D : Type 0} → D → ℤ → Order D
empty_order amount quantity = record {
  order_id = [];
  user_id = [];
  product_id = [];
  status = [];
  amount = amount;
  quantity = quantity;
  description = [];
  created_at = [];
  updated_at = [];
}
