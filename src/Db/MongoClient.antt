-- ===== src/Db/MongoClient.antt =====
-- src/db/MongoClient.cpp: the URI of `connect`, and how orders become documents and back. The
-- documents are those of the library bsoncxx, a parameter. The child modules have the calls of the
-- driver.
pub mod RoundTrip
pub mod Driver
pub mod Client
pub mod Lookup
pub mod Inserts
pub mod Finds
use db_benchmark.Prelude.{◌++◌, Option, none, some, List, [], ◌∷◌, ◌≡◌, if◌then◌else◌}
use db_benchmark.Prelude.Int.{ℤ}
use db_benchmark.Cpp.Outcome.{Outcome, ok, throw, other_exception, ◌>>=◌}
use db_benchmark.Cpp.Text.{Text, text, text_eq}
use db_benchmark.Cpp.Decimal.{show_nat}
use db_benchmark.Config.{DatabaseConfig}
use db_benchmark.Data.Order.{Order, empty_order}

-- `uri_str` of `connect`
unfoldable pub uri_of : DatabaseConfig → Text
uri_of config =
    text "mongodb://"
    ++ config.username
    ++ text ":"
    ++ config.password
    ++ text "@"
    ++ config.host
    ++ text ":"
    ++ show_nat config.port
    ++ text "/"
    ++ config.database_name
    ++ text "?authSource=admin"

-- the values of the types that an order has, and a document of strings, which a filter has
pub data Value (D : Type 0) : Type 0 where
  string : Text → Value D
  double : D → Value D
  int32 : ℤ → Value D
  document : List (Text × Text) → Value D

-- The documents of bsoncxx: how they are made of pairs and how the first element with a key is
-- found; `wrong_type` is the message of the exception that reading it at another type throws.
pub record Bson (D : Type 0) : Type 1 where
  pub Document : Type 0
  pub make_document : List (Text × Value D) → Document
  pub find : Document → Text → Option (Value D)
  pub wrong_type : Text

-- the first value with a key
unfoldable pub first_value : {D : Type 0} → List (Text × Value D) → Text → Option (Value D)
first_value [] key = none
first_value ((k, v) ∷ pairs) key =
    let rest = first_value pairs key in if text_eq k key then some v else rest

-- What the documentation of bsoncxx says of `find`.
pub record FindsFirst {D : Type 0} (b : Bson D) : Type 0 where
  pub find-make_document :
      (pairs : List (Text × Value D)) (key : Text)
      → b.find (b.make_document pairs) key ≡ first_value pairs key

module _ {D : Type 0} (b : Bson D) where
  unfoldable pub order_to_bson : Order D → b.Document
  order_to_bson order = b.make_document (
      (text "_id", string order.order_id)
      ∷ (text "user_id", string order.user_id)
      ∷ (text "product_id", string order.product_id)
      ∷ (text "status", string order.status)
      ∷ (text "amount", double order.amount)
      ∷ (text "quantity", int32 order.quantity)
      ∷ (text "description", string order.description)
      ∷ (text "created_at", string order.created_at)
      ∷ (text "updated_at", string order.updated_at)
      ∷ [])

  -- the lambda `get_str`, for what `find` gives
  abbrev pub get_str : Option (Value D) → Outcome Text
  get_str none = ok []
  get_str (some (string s)) = ok s
  get_str (some _) = throw (other_exception b.wrong_type)

  -- a missing number leaves the member as it is
  abbrev pub get_amount : D → Option (Value D) → Outcome D
  get_amount old none = ok old
  get_amount old (some (double x)) = ok x
  get_amount old (some _) = throw (other_exception b.wrong_type)

  abbrev pub get_quantity : ℤ → Option (Value D) → Outcome ℤ
  get_quantity old none = ok old
  get_quantity old (some (int32 n)) = ok n
  get_quantity old (some _) = throw (other_exception b.wrong_type)

  -- `amount` and `quantity` are what the members of `Order o;`, not initialised, happen to be
  unfoldable pub bson_to_order : D → ℤ → b.Document → Outcome (Order D)
  bson_to_order amount quantity doc = do
    order_id ← get_str (b.find doc (text "_id"))
    user_id ← get_str (b.find doc (text "user_id"))
    product_id ← get_str (b.find doc (text "product_id"))
    status ← get_str (b.find doc (text "status"))
    description ← get_str (b.find doc (text "description"))
    created_at ← get_str (b.find doc (text "created_at"))
    updated_at ← get_str (b.find doc (text "updated_at"))
    amount' ← get_amount amount (b.find doc (text "amount"))
    quantity' ← get_quantity quantity (b.find doc (text "quantity"))
    ok (record {
      order_id = order_id;
      user_id = user_id;
      product_id = product_id;
      status = status;
      amount = amount';
      quantity = quantity';
      description = description;
      created_at = created_at;
      updated_at = updated_at;
    })
