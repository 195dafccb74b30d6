-- ===== src/Tests/Config.antt =====
-- Runs of the model of src/config, with a document as a list of keys and values.
use db_benchmark.Prelude.{ℕ, ◌≡◌, refl, Bool, true, false, if◌then◌else◌}
use db_benchmark.Prelude.Int.{ℤ, pos, negsuc}
use db_benchmark.Cpp.Outcome.{Outcome, ok, throw, other_exception}
use db_benchmark.Cpp.Text.{Text, text, text_eq}
use db_benchmark.Config.{DatabaseConfig, BenchmarkConfig}
use db_benchmark.Config.ConfigLoader.{Yaml, document, bad_file, load}
use db_benchmark.Config.ConfigLoader.Load.{load-IsDocument, IsDocument, IsSection}

-- A node: a value of one of four types, a mapping, or nothing.
mutual
  data Tree : Type 0 where
    absent : Tree
    string : Text → Tree
    boolean : Bool → Tree
    integer : ℤ → Tree
    unsigned : ℕ → Tree
    mapping : Entries → Tree

  data Entries : Type 0 where
    end : Entries
    entry : Text → Tree → Entries → Entries

find : Text → Entries → Tree
find key end = absent
find key (entry k t es) = if text_eq k key then t else find key es

abbrev key_of : Tree → Text → Tree
key_of (mapping es) key = find key es
key_of _ key = absent

abbrev bad_conversion : {A : Type 0} → Outcome A
bad_conversion = throw (other_exception (text "bad conversion"))

abbrev present : Tree → Bool
present absent = false
present _ = true

abbrev to_text : Tree → Outcome Text
to_text (string s) = ok s
to_text _ = bad_conversion

abbrev to_bool : Tree → Outcome Bool
to_bool (boolean b) = ok b
to_bool _ = bad_conversion

abbrev to_int : Tree → Outcome ℤ
to_int (integer z) = ok z
to_int _ = bad_conversion

abbrev to_uint : ℕ → Tree → Outcome ℕ
to_uint bits (unsigned n) = ok n
to_uint bits _ = bad_conversion

abbrev yaml : Tree → Yaml
yaml root = record {
  Node = Tree;
  child = key_of;
  is_defined = present;
  as_text = to_text;
  as_bool = to_bool;
  as_int = to_int;
  as_uint = to_uint;
  load_file =
      λ path. if text_eq path (text "a.yaml") then document root else bad_file (text "bad file");
}

abbrev section : Text → ℕ → Tree
section host port = mapping (
    entry (text "host") (string host) (
      entry (text "port") (unsigned port) (
        entry (text "username") (string (text "u")) (
          entry (text "password") (string (text "p")) (
            entry (text "database_name") (string (text "d"))
              (entry (text "enabled") (boolean false) end))))))

abbrev database : Text → ℕ → DatabaseConfig
database host port = record {
  host = host;
  port = port;
  username = text "u";
  password = text "p";
  database_name = text "d";
  enabled = false;
}

abbrev full : Tree
full = mapping (
    entry (text "total_rows") (unsigned 10) (
      entry (text "read_sample_size") (unsigned 4) (
        entry (text "batch_size") (unsigned 2) (
          entry (text "thread_count") (unsigned 3) (
            entry (text "description_length") (unsigned 7) (
              entry (text "rng_seed") (unsigned 9) (
                entry (text "range_window_small") (integer (negsuc 0)) (
                  entry (text "range_window_medium") (integer (pos 5)) (
                    entry (text "range_window_large") (integer (pos 6)) (
                      entry (text "results_dir") (string (text "out")) (
                        entry (text "postgres") (section (text "pg") 1) (
                          entry (text "mongo") (section (text "mg") 2)
                            (entry (text "cassandra") (section (text "cs") 3) end)))))))))))))

abbrev full_config : BenchmarkConfig
full_config = record {
  total_rows = 10;
  read_sample_size = 4;
  batch_size = 2;
  thread_count = 3;
  description_length = 7;
  range_window_small = negsuc 0;
  range_window_medium = pos 5;
  range_window_large = pos 6;
  results_dir = text "out";
  rng_seed = 9;
  postgres = database (text "pg") 1;
  mongo = database (text "mg") 2;
  cassandra = database (text "cs") 3;
}

section-IsSection :
    (host : Text) (port : ℕ) → IsSection (yaml full) (section host port) (database host port)
unfolding find text text_eq
section-IsSection host port = record {
  present = refl;
  host = (refl, refl);
  port = (refl, refl);
  username = (refl, refl);
  password = (refl, refl);
  database_name = (refl, refl);
  enabled = (refl, refl);
}

full-IsDocument : IsDocument (yaml full) full full_config
unfolding find text text_eq
full-IsDocument = record {
  total_rows = (refl, refl);
  read_sample_size = (refl, refl);
  batch_size = (refl, refl);
  thread_count = (refl, refl);
  description_length = (refl, refl);
  rng_seed = (refl, refl);
  range_window_small = (refl, refl);
  range_window_medium = (refl, refl);
  range_window_large = (refl, refl);
  results_dir = (refl, refl);
  postgres = section-IsSection (text "pg") 1;
  mongo = section-IsSection (text "mg") 2;
  cassandra = section-IsSection (text "cs") 3;
}

load-IsDocument_example : load (yaml full) (text "a.yaml") ≡ ok full_config
unfolding text text_eq
load-IsDocument_example =
    load-IsDocument (yaml full) (text "a.yaml") full full_config refl full-IsDocument
