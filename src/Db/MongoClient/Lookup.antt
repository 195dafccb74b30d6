-- ===== src/Db/MongoClient/Lookup.antt =====
-- Look-ups by the primary key of src/db/MongoClient.cpp after inserts and deletes.
use db_benchmark.Prelude.{
  ◌≡◌, refl, ap, ◌∙◌, sym, true, false, List, [], ◌∷◌, ◌++◌, Option, none, some, All,
}
use db_benchmark.Prelude.Int.{ℤ, pos}
use db_benchmark.Cpp.Outcome.{Exception, ok, throw}
use db_benchmark.Cpp.Text.{Text, text, text_eq, text_eq_refl}
use db_benchmark.Cpp.Double.{Double, nought}
use db_benchmark.Config.{DatabaseConfig}
use db_benchmark.Data.Order.{Order, empty_order}
use db_benchmark.Experiment.Platform.{Platform}
use db_benchmark.Db.MongoClient.{Bson, FindsFirst, first_value, string, order_to_bson}
use db_benchmark.Db.MongoClient.RoundTrip.{bson_to_order-order_to_bson}
use db_benchmark.Db.MongoClient.Driver.{
  Driver, KeepsDocuments, is_match, first_match, without_match, equals,
}
use db_benchmark.Db.MongoClient.Client.{
  insert_options, insert_one, delete_by_primary_key, find_by_primary_key,
}

module _ {D : Type 0} (b : Bson D) where
  -- no document has the string under the key
  abbrev pub Lacks : Text → Text → List b.Document → Type 0
  Lacks key s docs = All (λ doc. is_match b key s doc ≡ false) docs

  first_match-Lacks :
      (key s : Text) (docs : List b.Document) → Lacks key s docs → first_match b key s docs ≡ none
  unfolding first_match
  first_match-Lacks key s [] lacks = refl
  first_match-Lacks key s (doc ∷ docs) (other, lacks) =
      rw other (first_match-Lacks key s docs lacks)

  first_match-last :
      (key s : Text) (docs : List b.Document) (doc : b.Document)
      → Lacks key s docs
      → is_match b key s doc ≡ true
      → first_match b key s (docs ++ doc ∷ []) ≡ some doc
  unfolding first_match
  first_match-last key s [] doc lacks h = rw h refl
  first_match-last key s (x ∷ docs) doc (other, lacks) h =
      rw other (first_match-last key s docs doc lacks h)

  without_match-last :
      (key s : Text) (docs : List b.Document) (doc : b.Document)
      → Lacks key s docs
      → is_match b key s doc ≡ true
      → without_match b key s (docs ++ doc ∷ []) ≡ docs
  unfolding without_match
  without_match-last key s [] doc lacks h = rw h refl
  without_match-last key s (x ∷ docs) doc (other, lacks) h =
      rw other (ap (λ rest. x ∷ rest) (without_match-last key s docs doc lacks h))

  -- the document of an order has its id as the primary key
  pub id-order_to_bson :
      FindsFirst b
      → (o : Order D) → b.find (order_to_bson b o) (text "_id") ≡ some (string o.order_id)
  unfolding order_to_bson first_value text_eq text
  id-order_to_bson finds o = finds.find-make_document _ _

  module _ ⦃d : Double D⦄ (finds : FindsFirst b) (amount : D) (quantity : ℤ) {S : Type 0}
      (driver : Driver b S) (config : DatabaseConfig) (m : Platform S)
      (keeps : KeepsDocuments b driver m) where
    is_match-order_to_bson :
        (o : Order D) → is_match b (text "_id") o.order_id (order_to_bson b o) ≡ true
    is_match-order_to_bson o = rw (id-order_to_bson finds o) (text_eq_refl o.order_id)

    -- After an insert that returned, the look-up of the order's id gives the order, if the driver
    -- answers; if the driver throws, the look-up throws the same.
    pub find-insert_one :
        (o : Order D) (w : S) (found : Option b.Document)
        → (insert_one b amount quantity driver config o w).0 ≡ ok tt
        → ((driver.find_one
                (equals b (text "_id") o.order_id)
                (insert_one b amount quantity driver config o w).1).0
              ≡ ok found
            → (find_by_primary_key b amount quantity driver config o.order_id
                (insert_one b amount quantity driver config o w).1).0
              ≡ ok o)
          × ((e : Exception)
              → (driver.find_one
                  (equals b (text "_id") o.order_id)
                  (insert_one b amount quantity driver config o w).1).0
                ≡ throw e
              → (find_by_primary_key b amount quantity driver config o.order_id
                  (insert_one b amount quantity driver config o w).1).0
                ≡ throw e)
    unfolding insert_one find_by_primary_key
    find-insert_one o w found inserted =
        let doc = order_to_bson b o in
        let lacks =
          keeps.insert_one-unique doc insert_options w o.order_id inserted
            (id-order_to_bson finds o) in
        let first =
          first_match-last (text "_id") o.order_id (keeps.documents w) doc lacks
            (is_match-order_to_bson o) in
        (
          λ answered.
              let w' = (driver.insert_one doc insert_options w).1 in
              let is_doc : found ≡ some doc =
                keeps.find_one-first (text "_id") o.order_id w' found answered
                ∙ ap (first_match b (text "_id") o.order_id)
                    (keeps.documents-insert_one doc insert_options w inserted)
                ∙ first in
              rw (answered, is_doc) (bson_to_order-order_to_bson b finds amount quantity o),
          λ e failed. rw failed refl,
        )

    -- An insert and the delete of its id, if both return, leave the documents that were there before,
    -- and a look-up of the id that the driver answers then gives an order with empty texts and zeros.
    pub delete-insert_one :
        (o : Order D) (w w₁ w₂ : S) (found : Option b.Document)
        → insert_one b amount quantity driver config o w ≡ (ok tt, w₁)
        → delete_by_primary_key b amount quantity driver config o.order_id w₁ ≡ (ok tt, w₂)
        → (keeps.documents w₂ ≡ keeps.documents w)
          × ((driver.find_one (equals b (text "_id") o.order_id) w₂).0 ≡ ok found
              → (find_by_primary_key b amount quantity driver config o.order_id w₂).0
                ≡ ok (empty_order nought (pos 0)))
    unfolding insert_one delete_by_primary_key find_by_primary_key
    delete-insert_one o w w₁ w₂ found inserted deleted =
        let doc = order_to_bson b o in
        let returned = ap (λ x. x.0) inserted in
        let lacks =
          keeps.insert_one-unique doc insert_options w o.order_id returned
            (id-order_to_bson finds o) in
        let added : keeps.documents w₁ ≡ keeps.documents w ++ doc ∷ [] =
          ap (λ x. keeps.documents x.1) (sym inserted)
          ∙ keeps.documents-insert_one doc insert_options w returned in
        let removed : keeps.documents w₂ ≡ keeps.documents w =
          ap (λ x. keeps.documents x.1) (sym deleted)
          ∙ keeps.documents-delete_one (text "_id") o.order_id w₁ (ap (λ x. x.0) deleted)
          ∙ ap (without_match b (text "_id") o.order_id) added
          ∙ without_match-last (text "_id") o.order_id (keeps.documents w) doc lacks
              (is_match-order_to_bson o) in
        (
          removed,
          λ answered.
              let is_none : found ≡ none =
                keeps.find_one-first (text "_id") o.order_id w₂ found answered
                ∙ ap (first_match b (text "_id") o.order_id) removed
                ∙ first_match-Lacks (text "_id") o.order_id (keeps.documents w) lacks in
              rw (answered, is_none) refl,
        )
