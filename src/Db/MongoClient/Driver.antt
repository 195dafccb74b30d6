-- ===== src/Db/MongoClient/Driver.antt =====
-- What src/db/MongoClient.cpp takes from mongocxx: a client and a collection, as actions on a world
-- that holds them and the server.
use db_benchmark.Prelude.{
  ◌≡◌, Bool, false, List, [], ◌∷◌, ◌++◌, Option, none, some, All, if◌then◌else◌,
}
use db_benchmark.Cpp.Outcome.{Exception, ok, throw}
use db_benchmark.Cpp.Method.{Method}
use db_benchmark.Cpp.Text.{Text, text, text_eq}
use db_benchmark.Db.MongoClient.{Value, Bson, string}
use db_benchmark.Experiment.Platform.{Platform}
use db_benchmark.Metrics.LatencyRecorder.{LatencyRecorder}

-- `mongocxx::options::insert` with its write concern
pub record InsertOptions : Type 0 where
  pub acknowledged : Bool
  pub journal : Bool

-- The client behind `client_`, the database behind `db_` and the collection behind `orders_`. A find
-- has a filter and may have a document to sort by, and gives the documents of its cursor.
pub record Driver {D : Type 0} (b : Bson D) (S : Type 0) : Type 0 where
  pub open_client : Text → Method S (Unit {0})
  pub reset_client : S → S
  pub use_database : Text → S → S
  pub use_collection : Text → S → S
  pub insert_one : b.Document → InsertOptions → Method S (Unit {0})
  pub insert_many : List b.Document → InsertOptions → Method S (Unit {0})
  pub delete_one : b.Document → Method S (Unit {0})
  pub find_one : b.Document → Method S (Option b.Document)
  pub find : b.Document → Option b.Document → Method S (List b.Document)
  pub drop : Method S (Unit {0})
  pub create_index : b.Document → Method S (Unit {0})
  pub drop_one : Text → Method S (Unit {0})

-- the string is the one expected
abbrev pub is_string : {D : Type 0} → Text → Option (Value D) → Bool
is_string s none = false
is_string s (some (string t)) = text_eq t s
is_string s (some _) = false

module _ {D : Type 0} (b : Bson D) where
  -- the document has the string under the key
  abbrev pub is_match : Text → Text → b.Document → Bool
  is_match key s doc = is_string s (b.find doc key)

  -- the first document that matches
  unfoldable pub first_match : Text → Text → List b.Document → Option b.Document
  first_match key s [] = none
  first_match key s (doc ∷ docs) =
      let rest = first_match key s docs in if is_match key s doc then some doc else rest

  -- the documents without the first that matches
  unfoldable pub without_match : Text → Text → List b.Document → List b.Document
  without_match key s [] = []
  without_match key s (doc ∷ docs) =
      let rest = without_match key s docs in if is_match key s doc then docs else doc ∷ rest

  -- the filter for a string under a key
  abbrev pub equals : Text → Text → b.Document
  equals key s = b.make_document ((key, string s) ∷ [])

-- What mongocxx and the server document of the collection, as its documents in the order of their
-- insertion: a write that returns takes effect and one that throws does not; `_id` is unique; a look-up
-- that returns gives a document that matches, if there is one, and reads change nothing; nor do the
-- clock and the timers.
pub record KeepsDocuments {D S : Type 0} (b : Bson D) (driver : Driver b S) (m : Platform S)
    : Type 0 where
  pub documents : S → List b.Document
  pub documents-now : (w : S) → documents (m.now w).1 ≡ documents w
  pub documents-start_timer :
      (rec : LatencyRecorder) (w : S) → documents (m.start_timer rec w).1 ≡ documents w
  pub documents-use_collection :
      (name : Text) (w : S) → documents w ≡ [] → documents (driver.use_collection name w) ≡ []
  pub documents-insert_one :
      (doc : b.Document) (options : InsertOptions) (w : S)
      → (driver.insert_one doc options w).0 ≡ ok tt
      → documents (driver.insert_one doc options w).1 ≡ documents w ++ doc ∷ []
  pub documents-insert_one_failed :
      (doc : b.Document) (options : InsertOptions) (w : S) (e : Exception)
      → (driver.insert_one doc options w).0 ≡ throw e
      → documents (driver.insert_one doc options w).1 ≡ documents w
  pub insert_one-unique :
      (doc : b.Document) (options : InsertOptions) (w : S) (id : Text)
      → (driver.insert_one doc options w).0 ≡ ok tt
      → b.find doc (text "_id") ≡ some (string id)
      → All (λ other. is_match b (text "_id") id other ≡ false) (documents w)
  pub documents-delete_one :
      (key s : Text) (w : S)
      → (driver.delete_one (equals b key s) w).0 ≡ ok tt
      → documents (driver.delete_one (equals b key s) w).1 ≡ without_match b key s (documents w)
  pub find_one-first :
      (key s : Text) (w : S) (found : Option b.Document)
      → (driver.find_one (equals b key s) w).0 ≡ ok found
      → found ≡ first_match b key s (documents w)
  pub documents-drop : (w : S) → (driver.drop w).0 ≡ ok tt → documents (driver.drop w).1 ≡ []

-- a server that fails no drop and no insert of a new id
pub record AcceptsNew {D S : Type 0} (b : Bson D) (driver : Driver b S) (m : Platform S)
    (keeps : KeepsDocuments b driver m) : Type 0 where
  pub drop-ok : (w : S) → (driver.drop w).0 ≡ ok tt
  pub insert_one-ok :
      (doc : b.Document) (options : InsertOptions) (w : S) (id : Text)
      → b.find doc (text "_id") ≡ some (string id)
      → All (λ other. is_match b (text "_id") id other ≡ false) (keeps.documents w)
      → (driver.insert_one doc options w).0 ≡ ok tt
