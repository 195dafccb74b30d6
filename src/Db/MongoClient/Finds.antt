-- ===== src/Db/MongoClient/Finds.antt =====
-- What the look-ups of src/db/MongoClient.cpp by the user and by the date give, for a collection of orders.
use mathlib.Core.List.{Permᴰ}
use db_benchmark.Prelude.{
  ◌≡◌, refl, ap, sym, subst, ◌∙◌, Bool, true, false, ◌&&◌, Bool-cases, inl, inr, All, List, [], ◌∷◌,
  Option, none, some, map, if◌then◌else◌,
}
use db_benchmark.Prelude.Int.{ℤ, pos}
use db_benchmark.Cpp.Outcome.{ok}
use db_benchmark.Cpp.Text.{Text, text, text_eq, text_le}
use db_benchmark.Cpp.Double.{Double}
use db_benchmark.Config.{DatabaseConfig}
use db_benchmark.Data.Order.{Order}
use db_benchmark.Experiment.Platform.{Platform}
use db_benchmark.Db.MongoClient.{
  Value, Bson, FindsFirst, string, int32, document, first_value, order_to_bson,
}
use db_benchmark.Db.MongoClient.RoundTrip.{bson_to_order-order_to_bson}
use db_benchmark.Db.MongoClient.Driver.{Driver, KeepsDocuments, is_match, equals}
use db_benchmark.Db.MongoClient.Client.{orders_of, find_by_secondary_key, find_by_range}
use db_benchmark.Db.MongoClient.Inserts.{decode}

-- the elements that pass a test
unfoldable pub kept : {A : Type 0} → (A → Bool) → List A → List A
kept p [] = []
kept p (x ∷ xs) = let rest = kept p xs in if p x then x ∷ rest else rest

abbrev pub string_or_empty : {D : Type 0} → Option (Value D) → Text
string_or_empty (some (string s)) = s
string_or_empty _ = []

abbrev is_string_within : {D : Type 0} → Text → Text → Option (Value D) → Bool
is_string_within from to (some (string s)) = text_le from s && text_le s to
is_string_within from to _ = false

module _ {D : Type 0} (b : Bson D) where
  -- the document has a string between two others under the key
  abbrev pub is_within : Text → Text → Text → b.Document → Bool
  is_within key from to doc = is_string_within from to (b.find doc key)

  -- the filter for strings between two others under a key
  abbrev pub between : Text → Text → Text → b.Document
  between key from to =
      b.make_document ((key, document ((text "$gte", from) ∷ (text "$lte", to) ∷ [])) ∷ [])

  abbrev pub ascending : Text → b.Document
  ascending key = b.make_document ((key, int32 (pos 1)) ∷ [])

  -- no string under the key is less than that of a document before
  abbrev pub IsAscending : Text → List b.Document → Type 0
  IsAscending key [] = Unit
  IsAscending key (x ∷ docs) =
      All (λ y. text_le (string_or_empty (b.find x key)) (string_or_empty (b.find y key)) ≡ true)
        docs
      × IsAscending key docs

-- What the server documents of `find`: the documents that pass the filter, in any order or, if there is a
-- document to sort by, in ascending order of the key.
pub record Selects {D S : Type 0} (b : Bson D) (driver : Driver b S) (m : Platform S)
    (keeps : KeepsDocuments b driver m) : Type 0 where
  pub find-equals :
      (key s : Text) (w : S) (found : List b.Document)
      → (driver.find (equals b key s) none w).0 ≡ ok found
      → Permᴰ found (kept (is_match b key s) (keeps.documents w))
  pub find-between :
      (key from to : Text) (w : S) (found : List b.Document)
      → (driver.find (between b key from to) (some (ascending b key)) w).0 ≡ ok found
      → Permᴰ found (kept (is_within b key from to) (keeps.documents w)) × IsAscending b key found

-- no order was created before one that stands before it
abbrev pub IsByDate : {D : Type 0} → List (Order D) → Type 0
IsByDate [] = Unit
IsByDate (x ∷ orders) = All (λ y. text_le x.created_at y.created_at ≡ true) orders × IsByDate orders

module _ {A B : Type 0} where
  kept-map :
      (p : B → Bool) (q : A → Bool) (f : A → B) (xs : List A)
      → ((x : A) → p (f x) ≡ q x)
      → kept p (map f xs) ≡ map f (kept q xs)
  unfolding kept
  kept-map p q f [] same = refl
  kept-map p q f (x ∷ xs) same = elim (Bool-cases (q x)) [
    | inl e ↦ rw (same x, e) (ap (◌∷◌ (f x)) (kept-map p q f xs same))
    | inr e ↦ rw (same x, e) (kept-map p q f xs same)
  ]

  map-Permᴰ : (f : A → B) {xs ys : List A} → Permᴰ xs ys → Permᴰ (map f xs) (map f ys)
  map-Permᴰ f Permᴰ.nil = Permᴰ.nil
  map-Permᴰ f (Permᴰ.cons e h) = Permᴰ.cons (ap f e) (map-Permᴰ f h)
  map-Permᴰ f (Permᴰ.swap e e') = Permᴰ.swap (ap f e) (ap f e')
  map-Permᴰ f (Permᴰ.trans h k) = Permᴰ.trans (map-Permᴰ f h) (map-Permᴰ f k)

All-Permᴰ : {A : Type 0} (P : A → Type 0) {xs ys : List A} → Permᴰ xs ys → All P ys → All P xs
All-Permᴰ P Permᴰ.nil h = h
All-Permᴰ P (Permᴰ.cons e p) (h, hs) = (subst P (sym e) h, All-Permᴰ P p hs)
All-Permᴰ P (Permᴰ.swap e e') (h, (k, hs)) = (subst P (sym e) k, (subst P (sym e') h, hs))
All-Permᴰ P (Permᴰ.trans p q) h = All-Permᴰ P p (All-Permᴰ P q h)

map-cancel :
    {A B : Type 0} (f : A → B) (g : B → A) (xs : List A)
    → ((x : A) → g (f x) ≡ x)
    → map g (map f xs) ≡ xs
map-cancel f g [] cancel = refl
map-cancel f g (x ∷ xs) cancel = rw (cancel x) (ap (◌∷◌ x) (map-cancel f g xs cancel))

module _ {D : Type 0} ⦃d : Double D⦄ (b : Bson D) (finds : FindsFirst b) (amount : D)
    (quantity : ℤ) where
  -- the document of an order
  abbrev IsOrder : b.Document → Type 0
  IsOrder doc = (o : Order D) × (doc ≡ order_to_bson b o)

  map-IsOrder : (orders : List (Order D)) → All IsOrder (map (order_to_bson b) orders)
  map-IsOrder [] = tt
  map-IsOrder (o ∷ orders) = ((o, refl), map-IsOrder orders)

  decoded : (o : Order D) → decode b amount quantity (order_to_bson b o) ≡ o
  unfolding decode
  decoded o = rw (bson_to_order-order_to_bson b finds amount quantity o) refl

  orders_of_lem :
      (docs : List b.Document)
      → All IsOrder docs
      → orders_of b amount quantity docs ≡ ok (map (decode b amount quantity) docs)
  unfolding orders_of
  orders_of_lem [] h = refl
  orders_of_lem (doc ∷ docs) ((o, e), h) =
      rw (e, bson_to_order-order_to_bson b finds amount quantity o, decoded o, orders_of_lem docs h)
        refl

  user_match :
      (user : Text) (o : Order D)
      → is_match b (text "user_id") user (order_to_bson b o) ≡ text_eq o.user_id user
  unfolding order_to_bson first_value text_eq text
  user_match user o = rw (finds.find-make_document _ _) refl

  date_of :
      (o : Order D) → b.find (order_to_bson b o) (text "created_at") ≡ some (string o.created_at)
  unfolding order_to_bson first_value text_eq text
  date_of o = finds.find-make_document _ _

  date_within :
      (from to : Text) (o : Order D)
      → is_within b (text "created_at") from to (order_to_bson b o)
        ≡ (text_le from o.created_at && text_le o.created_at to)
  date_within from to o = rw (date_of o) refl

  later_decoded :
      (o : Order D) (docs : List b.Document)
      → All IsOrder docs
      → All (λ y. text_le o.created_at (string_or_empty (b.find y (text "created_at"))) ≡ true) docs
      → All (λ y. text_le o.created_at y.created_at ≡ true) (map (decode b amount quantity) docs)
  later_decoded o [] h later = tt
  later_decoded o (doc ∷ docs) ((p, e), h) (now, later) =
      ((rw (e, decoded p) (rw (e, date_of p) at now)), later_decoded o docs h later)

  ascending-IsByDate :
      (docs : List b.Document)
      → All IsOrder docs
      → IsAscending b (text "created_at") docs
      → IsByDate (map (decode b amount quantity) docs)
  ascending-IsByDate [] h up = tt
  ascending-IsByDate (doc ∷ docs) ((o, e), h) (now, up) =
      rw (e, decoded o)
        (later_decoded o docs h (rw (e, date_of o) at now), ascending-IsByDate docs h up)

  -- the documents that the server picks, read as orders
  picked :
      (p : b.Document → Bool) (q : Order D → Bool) (orders : List (Order D))
      (docs found : List b.Document)
      → ((o : Order D) → p (order_to_bson b o) ≡ q o)
      → docs ≡ map (order_to_bson b) orders
      → Permᴰ found (kept p docs)
      → All IsOrder found × Permᴰ (map (decode b amount quantity) found) (kept q orders)
  picked p q orders docs found same holds perm =
      let chosen : kept p docs ≡ map (order_to_bson b) (kept q orders) =
        ap (kept p) holds ∙ kept-map p q (order_to_bson b) orders same in
      let perm' = subst (λ xs. Permᴰ found xs) chosen perm in
      (
        All-Permᴰ IsOrder perm' (map-IsOrder (kept q orders)),
        subst (λ xs. Permᴰ (map (decode b amount quantity) found) xs)
            (map-cancel (order_to_bson b) (decode b amount quantity) (kept q orders) decoded)
            (map-Permᴰ (decode b amount quantity) perm'),
      )

  module _ {S : Type 0} (driver : Driver b S) (config : DatabaseConfig) (m : Platform S)
      (keeps : KeepsDocuments b driver m) (selects : Selects b driver m keeps) where
    -- Of a collection that holds the documents of some orders, on a server whose `find` picks documents as
    -- `Selects` says, the look-up of a user, if the driver answers, returns the orders of that user,
    -- each as often as the collection has it and no other.
    pub find_by_secondary_key_lem :
        (orders : List (Order D)) (user : Text) (w : S) (found : List b.Document)
        → keeps.documents w ≡ map (order_to_bson b) orders
        → (driver.find (equals b (text "user_id") user) none w).0 ≡ ok found
        → (result : List (Order D)) × ((find_by_secondary_key b amount quantity driver config user
              w).0
            ≡ ok result)
          × Permᴰ result (kept (λ o. text_eq o.user_id user) orders)
    unfolding find_by_secondary_key
    find_by_secondary_key_lem orders user w found holds answered =
        let (all_orders, perm) =
          picked (is_match b (text "user_id") user) (λ o. text_eq o.user_id user) orders
            (keeps.documents w) found (user_match user) holds
            (selects.find-equals (text "user_id") user w found answered) in
        (map (decode b amount quantity) found, rw answered (orders_of_lem found all_orders), perm)

    -- Of a collection that holds the documents of some orders, on a server whose `find` picks documents as
    -- `Selects` says, the look-up of a range of dates, if the driver answers, returns the orders that
    -- were created at one of the two dates or between them, each as often as the collection has it and
    -- no other, none before one that was created earlier.
    pub find_by_range_lem :
        (orders : List (Order D)) (from to : Text) (w : S) (found : List b.Document)
        → keeps.documents w ≡ map (order_to_bson b) orders
        → (driver.find
            (between b (text "created_at") from to)
            (some (ascending b (text "created_at")))
            w).0
          ≡ ok found
        → (result : List (Order D)) × ((find_by_range b amount quantity driver config from to w).0
            ≡ ok result)
          × Permᴰ result (kept (λ o. text_le from o.created_at && text_le o.created_at to) orders)
          × IsByDate result
    unfolding find_by_range
    find_by_range_lem orders from to w found holds answered =
        let (perm', up) = selects.find-between (text "created_at") from to w found answered in
        let (all_orders, perm) =
          picked (is_within b (text "created_at") from to)
            (λ o. text_le from o.created_at && text_le o.created_at to) orders (keeps.documents w)
            found (date_within from to) holds perm' in
        (
          map (decode b amount quantity) found,
          rw answered (orders_of_lem found all_orders),
          perm,
          ascending-IsByDate found all_orders up,
        )
