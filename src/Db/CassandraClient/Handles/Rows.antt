-- ===== src/Db/CassandraClient/Handles/Rows.antt =====
-- How src/db/CassandraClient.cpp reads the rows of a result: what it does not read as an order is
-- undefined.
use db_benchmark.Prelude.{◌≡◌, refl, ◌⊎◌, inl, inr, List, [], ◌∷◌, Option, none, some}
use db_benchmark.Prelude.Int.{ℤ}
use db_benchmark.Cpp.Outcome.{Outcome, ok, throw, undefined, mapped, both}
use db_benchmark.Cpp.Text.{Text}
use db_benchmark.Data.Order.{Order}
use db_benchmark.Db.CassandraClient.{
  Cell, string, double, int32, get_str, get_double, get_int32, get_last, row_to_order,
}
use db_benchmark.Db.CassandraClient.Client.{Row, Driver, first_row, orders_of}

-- the call does not throw
abbrev pub NeverThrows : {A : Type 0} → Outcome A → Type 0
NeverThrows (ok a) = Unit
NeverThrows (throw e) = ⊥
NeverThrows undefined = Unit

module _ {D : Type 0} where
  pub get_str_cases :
      (x : Option (Cell D)) → ((s : Text) × (get_str x ≡ ok s)) ⊎ (get_str x ≡ undefined)
  get_str_cases (some (string s)) = inl (s, refl)
  get_str_cases (some (double y)) = inr refl
  get_str_cases (some (int32 n)) = inr refl
  get_str_cases none = inr refl

  get_double_cases :
      (x : Option (Cell D)) → ((y : D) × (get_double x ≡ ok y)) ⊎ (get_double x ≡ undefined)
  get_double_cases (some (string s)) = inr refl
  get_double_cases (some (double y)) = inl (y, refl)
  get_double_cases (some (int32 n)) = inr refl
  get_double_cases none = inr refl

  get_int32_cases :
      (x : Option (Cell D)) → ((n : ℤ) × (get_int32 x ≡ ok n)) ⊎ (get_int32 x ≡ undefined)
  get_int32_cases (some (string s)) = inr refl
  get_int32_cases (some (double y)) = inr refl
  get_int32_cases (some (int32 n)) = inl (n, refl)
  get_int32_cases none = inr refl

  get_last_cases :
      (x : Option (Cell D)) → ((s : Text) × (get_last x ≡ ok s)) ⊎ (get_last x ≡ undefined)
  get_last_cases none = inl ([], refl)
  get_last_cases (some cell) = get_str_cases (some cell)

  both-NeverThrows :
      (x : Outcome (Order D)) (rest : Outcome (List (Order D)))
      → NeverThrows x
      → NeverThrows rest
      → NeverThrows (mapped (λ (o, orders). o ∷ orders) (both x rest))
  both-NeverThrows (ok o) (ok orders) h k = tt
  both-NeverThrows (ok o) (throw e) h k = k
  both-NeverThrows (ok o) undefined h k = tt
  both-NeverThrows (throw e) rest h k = h
  both-NeverThrows undefined rest h k = tt

  row_to_order-NeverThrows : (column : Row D) → NeverThrows (row_to_order column)
  unfolding row_to_order
  row_to_order-NeverThrows column = elim (get_str_cases (column 0)) [
    | inr e ↦ rw e tt
    | inl (_, e) ↦ rw e (elim (get_str_cases (column 1)) [
      | inr e ↦ rw e tt
      | inl (_, e) ↦ rw e (elim (get_str_cases (column 2)) [
        | inr e ↦ rw e tt
        | inl (_, e) ↦ rw e (elim (get_str_cases (column 3)) [
          | inr e ↦ rw e tt
          | inl (_, e) ↦ rw e (elim (get_double_cases (column 4)) [
            | inr e ↦ rw e tt
            | inl (_, e) ↦ rw e (elim (get_int32_cases (column 5)) [
              | inr e ↦ rw e tt
              | inl (_, e) ↦ rw e (elim (get_str_cases (column 6)) [
                | inr e ↦ rw e tt
                | inl (_, e) ↦ rw e (elim (get_str_cases (column 7)) [
                  | inr e ↦ rw e tt
                  | inl (_, e) ↦
                      rw e (elim (get_last_cases (column 8)) [
                        | inl (_, e) ↦ rw e tt
                        | inr e ↦ rw e tt
                      ])
                ])
              ])
            ])
          ])
        ])
      ])
    ])
  ]

  pub orders_of-NeverThrows : (rows : List (Row D)) → NeverThrows (orders_of rows)
  unfolding orders_of
  orders_of-NeverThrows [] = tt
  orders_of-NeverThrows (row ∷ rows) =
      both-NeverThrows (row_to_order row) (orders_of rows) (row_to_order-NeverThrows row)
        (orders_of-NeverThrows rows)

  pub first_row-NeverThrows :
      {S : Type 0} (driver : Driver D S) (amount : D) (quantity : ℤ) (rows : List (Row D))
      → NeverThrows (first_row driver amount quantity rows)
  first_row-NeverThrows driver amount quantity [] = tt
  first_row-NeverThrows driver amount quantity (row ∷ rows) = row_to_order-NeverThrows row
