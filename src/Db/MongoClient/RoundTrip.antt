-- ===== src/Db/MongoClient/RoundTrip.antt =====
-- `order_to_bson` and `bson_to_order` of src/db/MongoClient.cpp, one after the other.
use db_benchmark.Prelude.{◌≡◌}
use db_benchmark.Prelude.Int.{ℤ}
use db_benchmark.Cpp.Outcome.{ok}
use db_benchmark.Cpp.Text.{text, text_eq}
use db_benchmark.Data.Order.{Order}
use db_benchmark.Db.MongoClient.{Bson, FindsFirst, first_value, order_to_bson, bson_to_order}

-- Reading the document of an order gives the order, each member from its own key and the numbers
-- from the document, whatever was in the members before.
pub bson_to_order-order_to_bson :
    {D : Type 0} (b : Bson D)
    → FindsFirst b
    → (amount : D) (quantity : ℤ) (o : Order D)
    → bson_to_order b amount quantity (order_to_bson b o) ≡ ok o
unfolding bson_to_order order_to_bson first_value text_eq text
bson_to_order-order_to_bson b finds amount quantity o = simp (finds.find-make_document)
