-- ===== src/Tests/Keyspace.antt =====
-- Two tables as functions of the key, and a session of the driver that writes and reads them.
use mathlib.Core.List.{Memᴰ}
use mathlib.Core.List.Memᴰ
use db_benchmark.Prelude.{
  ◌≡◌, refl, ap, true, ◌⊎◌, inl, inr, Bool-cases, Option, none, some, List, [], ◌∷◌, arith, map,
  suc, length, All, get_elem?, ◌∙◌, if◌then◌else◌,
}
use db_benchmark.Prelude.Int.{pos}
use db_benchmark.Experiment.Platform.{Platform}
use db_benchmark.Experiment.Experiment4.OnCassandra.{LeavesTables}
use db_benchmark.Cpp.Text.{Text, text, text_eq, text_eq_refl}
use db_benchmark.Cpp.Milli.{Milli}
use db_benchmark.Data.Order.{Order}
use db_benchmark.Db.CassandraClient.{
  string, double, int32, Statement, insert_by_id, insert_by_user, delete_by_id, Session, bind_by_id,
  bind_by_user,
}
use db_benchmark.Db.CassandraClient.Client.{
  Row, Select, select_by_id, select_by_user, answered, Driver,
}
use db_benchmark.Db.CassandraClient.Tables.{KeepsTables, HasStatus}
use db_benchmark.Db.CassandraClient.Orphans.{WritesApart, HasNoOrphan}

pub record Keyspace : Type 0 where
  pub ids : Text → Option (Order Milli)
  pub users : Text → List (Order Milli)

abbrev put_id : Order Milli → Keyspace → Keyspace
put_id o w = record w { ids = λ id. if text_eq id o.order_id then some o else w.ids id }

abbrev put_user : Order Milli → Keyspace → Keyspace
put_user o w = record w {
  users = λ user. if text_eq user o.user_id then o ∷ w.users user else w.users user;
}

abbrev remove_id : Text → Keyspace → Keyspace
remove_id id w = record w { ids = λ id'. if text_eq id' id then none else w.ids id' }

abbrev execute : Statement Milli → Keyspace → Option Text × Keyspace
execute
      (insert_by_id (
        string a
        ∷ string b
        ∷ string c
        ∷ string s
        ∷ double x
        ∷ int32 n
        ∷ string t
        ∷ string u
        ∷ string v
        ∷ []))
      w =
    (
      none,
      put_id
          (record {
            order_id = a;
            user_id = b;
            product_id = c;
            status = s;
            amount = x;
            quantity = n;
            description = t;
            created_at = u;
            updated_at = v;
          })
          w,
    )
execute
      (insert_by_user
        (string b ∷ string u ∷ string a ∷ string c ∷ string s ∷ double x ∷ int32 n ∷ string t ∷ []))
      w =
    (
      none,
      put_user
          (record {
            order_id = a;
            user_id = b;
            product_id = c;
            status = s;
            amount = x;
            quantity = n;
            description = t;
            created_at = u;
            updated_at = [];
          })
          w,
    )
execute (delete_by_id (string id ∷ [])) w = (none, remove_id id w)
execute _ w = (some (text "invalid"), w)

abbrev pub session : Session Milli Keyspace
session = record { execute = execute }

-- the row of an order in the first table
abbrev row_of : Option (Order Milli) → List (Row Milli)
row_of none = []
row_of (some o) = get_elem? (bind_by_id o) ∷ []

abbrev answer : Select → Keyspace → List (Row Milli)
answer (select_by_id id) w = row_of (w.ids id)
answer (select_by_user user) w = map (λ o. get_elem? (bind_by_user o)) (w.users user)

abbrev pub driver : Driver Milli Keyspace
driver = record {
  connect_session = λ settings w. (none, w);
  prepare = λ query w. (none, w);
  has_session = λ w. true;
  close_session = λ w. w;
  select = λ query w. (answered (answer query w), w);
  execute_cql = λ cql w. (none, w);
}

user_rows :
    (orders : List (Order Milli))
    → (length (map (λ o. get_elem? (bind_by_user o)) orders) ≡ length orders)
      × All HasStatus (map (λ o. get_elem? (bind_by_user o)) orders)
unfolding bind_by_user
user_rows [] = (refl, tt)
user_rows (o ∷ orders) =
    let (size, texts) = user_rows orders in (ap suc size, ((o.status, refl), texts))

same_answer : {x y : List (Row Milli)} → answered x ≡ answered y → y ≡ x
same_answer h = cc

pub driver-KeepsTables : KeepsTables session driver
unfolding bind_by_id bind_by_user
driver-KeepsTables = record {
  by_id = λ w. w.ids;
  by_user = λ w. w.users;
  by_id-insert = λ o w h. rw (text_eq_refl o.order_id) refl;
  by_id-insert_by_user = λ o w id. refl;
  by_user-insert = λ o w h. rw (text_eq_refl o.user_id) (omega arith);
  select-by_user = λ user w found h. rw (same_answer h) (user_rows (w.users user));
}

abbrev pub empty : Keyspace
empty = record { ids = λ id. none; users = λ user. [] }

in_front :
    {x o : Order Milli} {rows : List (Order Milli)} (id : Text)
    → o.order_id ≡ id
    → Memᴰ x (o ∷ rows)
    → Memᴰ x rows ⊎ (x.order_id ≡ id)
in_front id same row = elim (Memᴰ.cases_cons row) [
  | inl e ↦ inr (ap (λ y. y.order_id) e ∙ same)
  | inr old ↦ inl old
]

pub driver-WritesApart : WritesApart driver-KeepsTables
unfolding bind_by_id bind_by_user driver-KeepsTables
driver-WritesApart = record {
  by_id-insert_apart = λ o w id. elim (Bool-cases (text_eq id o.order_id)) [
    | inl e ↦ inr (rw e refl)
    | inr e ↦ inl (rw e refl)
  ];
  by_user-insert_by_id = λ o w user. refl;
  by_user-insert_apart = λ o w user x row. elim (Bool-cases (text_eq user o.user_id)) [
    | inl e ↦ in_front o.order_id refl (rw e at row)
    | inr e ↦ inl (rw e at row)
  ];
  by_user-insert_row =
      λ o w h. (record o { updated_at = [] }, rw (text_eq_refl o.user_id) (Memᴰ.head refl), refl);
  by_id-delete = λ id w h. rw (text_eq_refl id) refl;
  by_user-delete = λ id w user. refl;
}

pub empty-HasNoOrphan : HasNoOrphan driver-KeepsTables empty
unfolding driver-KeepsTables
empty-HasNoOrphan user x row = absurd (Memᴰ.not-nil row)

-- a machine whose clock stands still
abbrev pub host : Platform Keyspace
host = record {
  now = λ w. (0, w);
  system = λ command w. (pos 0, w);
  start_timer = λ rec w. (rec, w);
}

pub host-LeavesTables : LeavesTables host session driver driver-KeepsTables
unfolding driver-KeepsTables
host-LeavesTables = record {
  by_user-now = λ w. refl;
  by_user-start_timer = λ rec w. refl;
  by_user-select = λ query w. refl;
}
