-- ===== src/Tests/Server.antt =====
-- A server that keeps a list of documents, behind the driver of src/db/MongoClient.cpp.
use mathlib.Core.List.{Permᴰ}
use mathlib.Core.List.Permᴰ
use db_benchmark.Prelude.{
  ℕ, ◌+◌, ◌≡◌, refl, ap, ◌∙◌, sym, inl, inr, Bool-cases, Bool, true, false, false≢true, All, subst,
  arith, Option, none, some, List, [], ◌∷◌, ◌++◌, if◌then◌else◌,
}
use db_benchmark.Prelude.Int.{pos}
use db_benchmark.Cpp.Outcome.{Exception, Outcome, ok, throw, other_exception}
use db_benchmark.Cpp.Text.{Text, text, text_le}
use db_benchmark.Cpp.Milli.{Milli, milli}
use db_benchmark.Experiment.Platform.{Platform, KeepsLatencies}
use db_benchmark.Experiment.ExperimentBase.Timing.{throw≢ok}
use db_benchmark.Db.MongoClient.{Value, string, document, int32}
use db_benchmark.Db.MongoClient.Driver.{
  Driver, KeepsDocuments, AcceptsNew, is_match, first_match, without_match,
}
use db_benchmark.Tests.Db.{pairs}
use db_benchmark.Db.MongoClient.Finds.{kept, string_or_empty, is_within, IsAscending, Selects}

abbrev pub Document : Type 0
Document = List (Text × Value Milli)

pub record Server : Type 0 where
  pub docs : List Document
  pub clock : ℕ

abbrev pub host : Platform Server
host = record {
  now = λ w. (w.clock, record w { clock = w.clock + 1000 });
  system = λ command w. (pos 0, w);
  start_timer = λ rec w. (record rec { start_ns = w.clock }, w);
}

pub host-KeepsLatencies : KeepsLatencies host
host-KeepsLatencies = record { latencies-start_timer = λ r w. refl }

abbrev is_taken : Text → List Document → Bool
is_taken id [] = false
is_taken id (doc ∷ docs) = if is_match pairs (text "_id") id doc then true else is_taken id docs

abbrev is_duplicate : Option (Value Milli) → List Document → Bool
is_duplicate none docs = false
is_duplicate (some (string id)) docs = is_taken id docs
is_duplicate (some _) docs = false

abbrev put : Bool → Document → Server → Outcome (Unit {0}) × Server
put true doc w = (throw (other_exception (text "duplicate key")), w)
put false doc w = (ok tt, record w { docs = w.docs ++ doc ∷ [] })

abbrev removed : Document → List Document → List Document
removed ((key, string s) ∷ []) docs = without_match pairs key s docs
removed _ docs = docs

abbrev found : Document → List Document → Option Document
found ((key, string s) ∷ []) docs = first_match pairs key s docs
found _ docs = none

abbrev insert_by : Text → Document → List Document → List Document
insert_by key doc [] = doc ∷ []
insert_by key doc (x ∷ docs) =
    let rest = insert_by key doc docs in
    if text_le (string_or_empty (pairs.find doc key)) (string_or_empty (pairs.find x key))
    then doc ∷ x ∷ docs
    else x ∷ rest

abbrev sort_by : Text → List Document → List Document
sort_by key [] = []
sort_by key (doc ∷ docs) = insert_by key doc (sort_by key docs)

abbrev pub picks : Document → Option Document → List Document → List Document
picks ((key, string s) ∷ []) none docs = kept (is_match pairs key s) docs
picks ((key, document ((_, from) ∷ (_, to) ∷ [])) ∷ []) (some ((key', int32 _) ∷ [])) docs =
    sort_by key' (kept (is_within pairs key from to) docs)
picks _ _ docs = docs

abbrev pub driver : Driver pairs Server
driver = record {
  open_client = λ uri w. (ok tt, w);
  reset_client = λ w. w;
  use_database = λ name w. w;
  use_collection = λ name w. w;
  insert_one = λ doc options w. put (is_duplicate (pairs.find doc (text "_id")) w.docs) doc w;
  insert_many = λ docs options w. (ok tt, record w { docs = w.docs ++ docs });
  delete_one = λ filter w. (ok tt, record w { docs = removed filter w.docs });
  find_one = λ filter w. (ok (found filter w.docs), w);
  find = λ filter sort w. (ok (picks filter sort w.docs), w);
  drop = λ w. (ok tt, record w { docs = [] });
  create_index = λ keys w. (ok tt, w);
  drop_one = λ name w. (ok tt, w);
}

pub docs-put :
    (taken : Bool) (doc : Document) (w : Server)
    → (put taken doc w).0 ≡ ok tt
    → ((put taken doc w).1.docs ≡ w.docs ++ doc ∷ []) × (taken ≡ false)
docs-put true doc w h = absurd (throw≢ok (other_exception (text "duplicate key")) tt h)
docs-put false doc w h = (refl, refl)

pub docs-put_failed :
    (taken : Bool) (doc : Document) (w : Server) (e : Exception)
    → (put taken doc w).0 ≡ throw e
    → (put taken doc w).1.docs ≡ w.docs
docs-put_failed true doc w e h = refl
docs-put_failed false doc w e h = absurd (throw≢ok e tt (sym h))

pub untaken :
    (id : Text) (docs : List Document)
    → is_taken id docs ≡ false
    → All (λ other. is_match pairs (text "_id") id other ≡ false) docs
untaken id [] h = tt
untaken id (doc ∷ docs) h = elim (Bool-cases (is_match pairs (text "_id") id doc)) [
  | inl e ↦ absurd (false≢true (sym (rw e at h)))
  | inr e ↦ (e, untaken id docs (rw e at h))
]

taken_by_none :
    (id : Text) (docs : List Document)
    → All (λ other. is_match pairs (text "_id") id other ≡ false) docs
    → is_taken id docs ≡ false
taken_by_none id [] h = refl
taken_by_none id (doc ∷ docs) (other, h) = rw other (taken_by_none id docs h)

pub same_result : {x y : Option Document} → ok x ≡ ok y → y ≡ x
same_result h = cc

abbrev pub driver-KeepsDocuments : KeepsDocuments pairs driver host
driver-KeepsDocuments = record {
  documents = λ w. w.docs;
  documents-now = λ w. refl;
  documents-start_timer = λ rec w. refl;
  documents-use_collection = λ name w h. h;
  documents-insert_one =
      λ doc options w h. (docs-put (is_duplicate (pairs.find doc (text "_id")) w.docs) doc w h).0;
  documents-insert_one_failed = λ doc options w e h.
      docs-put_failed (is_duplicate (pairs.find doc (text "_id")) w.docs) doc w e h;
  insert_one-unique = λ doc options w id h named. untaken id w.docs (
      ap (λ v. is_duplicate v w.docs) (sym named)
      ∙ (docs-put (is_duplicate (pairs.find doc (text "_id")) w.docs) doc w h).1);
  documents-delete_one = λ key s w h. refl;
  find_one-first = λ key s w result h. same_result h;
  documents-drop = λ w h. refl;
}

pub driver-AcceptsNew : AcceptsNew pairs driver host driver-KeepsDocuments
driver-AcceptsNew = record {
  drop-ok = λ w. refl;
  insert_one-ok = λ doc options w id named fresh. rw (named, taken_by_none id w.docs fresh) refl;
}

text_le_total : (s t : Text) → text_le s t ≡ false → text_le t s ≡ true
unfolding text_le
text_le_total [] t h = absurd (false≢true (sym h))
text_le_total (c ∷ s) [] h = refl
text_le_total (c ∷ s) (d ∷ t) h = ground (arith, text_le_total s t)

text_le_trans : (s t u : Text) → text_le s t ≡ true → text_le t u ≡ true → text_le s u ≡ true
unfolding text_le
text_le_trans [] t u h k = refl
text_le_trans (c ∷ s) [] u h k = absurd (false≢true h)
text_le_trans (c ∷ s) (d ∷ t) [] h k = absurd (false≢true k)
text_le_trans (c ∷ s) (d ∷ t) (e ∷ u) h k = ground (arith, text_le_trans s t u)

-- the documents have no string under the key that is less
abbrev AtLeast : Text → Text → List Document → Type 0
AtLeast key s docs = All (λ y. text_le s (string_or_empty (pairs.find y key)) ≡ true) docs

AtLeast-insert_by :
    (key s : Text) (doc : Document) (docs : List Document)
    → text_le s (string_or_empty (pairs.find doc key)) ≡ true
    → AtLeast key s docs
    → AtLeast key s (insert_by key doc docs)
AtLeast-insert_by key s doc [] h k = (h, tt)
AtLeast-insert_by key s doc (x ∷ docs) h (k, ks) =
    elim (Bool-cases
      (text_le (string_or_empty (pairs.find doc key)) (string_or_empty (pairs.find x key)))) [
        | inl le ↦ rw le (h, (k, ks))
        | inr gt ↦ rw gt (k, AtLeast-insert_by key s doc docs h ks)
      ]

AtLeast-trans :
    (key s t : Text) (docs : List Document)
    → text_le s t ≡ true
    → AtLeast key t docs
    → AtLeast key s docs
AtLeast-trans key s t [] h k = tt
AtLeast-trans key s t (y ∷ docs) h (k, ks) =
    (text_le_trans s t (string_or_empty (pairs.find y key)) h k, AtLeast-trans key s t docs h ks)

insert_by-IsAscending :
    (key : Text) (doc : Document) (docs : List Document)
    → IsAscending pairs key docs
    → IsAscending pairs key (insert_by key doc docs)
insert_by-IsAscending key doc [] h = (tt, tt)
insert_by-IsAscending key doc (x ∷ docs) (k, ks) =
    let s = string_or_empty (pairs.find doc key) in
    let t = string_or_empty (pairs.find x key) in
    elim (Bool-cases (text_le s t)) [
      | inl le ↦ rw le ((le, AtLeast-trans key s t docs le k), (k, ks))
      | inr gt ↦ rw gt (
        AtLeast-insert_by key t doc docs (text_le_total s t gt) k,
        insert_by-IsAscending key doc docs ks,
      )
    ]

sort_by-IsAscending : (key : Text) (docs : List Document) → IsAscending pairs key (sort_by key docs)
sort_by-IsAscending key [] = tt
sort_by-IsAscending key (doc ∷ docs) =
    insert_by-IsAscending key doc (sort_by key docs) (sort_by-IsAscending key docs)

insert_by-Permᴰ :
    (key : Text) (doc : Document) (docs : List Document)
    → Permᴰ (insert_by key doc docs) (doc ∷ docs)
insert_by-Permᴰ key doc [] = Permᴰ.refl (doc ∷ [])
insert_by-Permᴰ key doc (x ∷ docs) =
    elim (Bool-cases
      (text_le (string_or_empty (pairs.find doc key)) (string_or_empty (pairs.find x key)))) [
        | inl le ↦ rw le (Permᴰ.refl (doc ∷ x ∷ docs))
        | inr gt ↦
            rw gt
              (Permᴰ.trans (Permᴰ.cons refl (insert_by-Permᴰ key doc docs)) (Permᴰ.swap refl refl))
      ]

sort_by-Permᴰ : (key : Text) (docs : List Document) → Permᴰ (sort_by key docs) docs
sort_by-Permᴰ key [] = Permᴰ.nil
sort_by-Permᴰ key (doc ∷ docs) =
    Permᴰ.trans (insert_by-Permᴰ key doc (sort_by key docs))
      (Permᴰ.cons refl (sort_by-Permᴰ key docs))

same_documents : {x y : List Document} → ok x ≡ ok y → x ≡ y
same_documents h = cc

pub driver-Selects : Selects pairs driver host driver-KeepsDocuments
driver-Selects = record {
  find-equals = λ key s w found h.
      subst (λ xs. Permᴰ xs (kept (is_match pairs key s) w.docs)) (same_documents h)
        (Permᴰ.refl (kept (is_match pairs key s) w.docs));
  find-between = λ key from to w found h.
      let within = kept (is_within pairs key from to) w.docs in
      (
        subst (λ xs. Permᴰ xs within) (same_documents h) (sort_by-Permᴰ key within),
        subst (λ xs. IsAscending pairs key xs) (same_documents h) (sort_by-IsAscending key within),
      );
}
