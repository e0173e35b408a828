-- ===== src/Tests/Shelves.antt =====
-- RocksDB as a shelf of sorted databases in memory, and a store that has one sensor and its readings
-- there: it meets what the buffers of a store rely on. A double loses its last bit.
use Prim.Native.String.{◌++◌}
use libklio.Prelude.{
  ◌≡◌, ◌≢◌, refl, sym, ap, ◌∙◌, inl, inr, Bool-cases, ℕ, ◌+◌, ◌*◌, ◌/◌, Bool, true, Option, none,
  some, String, [], ◌∷◌, ◌==◌, ==_iff, string_eq, nat_eq, arith,
}
use libklio.Prelude.Int.{pos}
use libklio.Exec.{ok}
use libklio.HashMap
use libklio.HashMap.{HashMap, find-assign, find-assign_self}
use libklio.OrdMap
use libklio.OrdMap.{OrdMap}
use libklio.OrdMap.Texts.{text_less}
use libklio.Time.{timestamp_less}
use libklio.Sensor.{Library}
use libklio.Store.{Store, Records}
use libklio.Store.Reliable.{take_new, Model, IsReliable, IsTransactional}
use libklio.Store.View.{IsReady}
use libklio.Store.Flush.Unseen.{IsWellFormed}
use libklio.Rocks.{Api, Members, create_rocksdb}
use libklio.Rocks.Records.{rocks_records}
use libklio.Rocks.Entries.{IsStoring}
use libklio.Rocks.Reliable.{IsWritable, rocks_model, rocks-IsReliable, rocks-IsTransactional}
use libklio.Tests.Memory.{kitchen, pending}
use libklio.Tests.Unary.{
  write, count, count-write, count-append, write_signed, read_signed, read_signed-write_signed,
}

abbrev pub Shelf : Type 0
Shelf = HashMap ℕ (OrdMap String String)

abbrev or_empty : Option (OrdMap String String) → OrdMap String String
or_empty none = []
or_empty (some entries) = entries

unfoldable pub on_shelf : ℕ → Shelf → OrdMap String String
on_shelf db w = or_empty (HashMap.find db w)

abbrev pub shelf : Api Shelf
shelf = record {
  open_path = λ o path w. (none, w);
  delete = λ db w. HashMap.erase db w;
  put = λ o db key value w. (true, HashMap.assign db (OrdMap.assign key value (on_shelf db w)) w);
  write = λ o db batch w. (true, HashMap.assign db (OrdMap.assign_all batch (on_shelf db w)) w);
  get = λ db key w. OrdMap.find key (on_shelf db w);
  entries = on_shelf;
  exists = λ path w. true;
  is_directory = λ path w. true;
  directory = λ path w. ok [];
  create_directory = λ path w. (true, w);
  remove_all = λ path w. w;
  time_to_string = write_signed;
  double_to_string = λ v. write (v / 2 * 2);
  atol = read_signed;
  atof = count;
}

on_shelf-assign :
    (db : ℕ) (entries : OrdMap String String) (w : Shelf)
    → on_shelf db (HashMap.assign db entries w) ≡ entries
unfolding on_shelf
on_shelf-assign db entries w = rw (find-assign_self db entries w) refl

on_shelf-other :
    (db q : ℕ) (entries : OrdMap String String) (w : Shelf)
    → q ≢ db
    → on_shelf q (HashMap.assign db entries w) ≡ on_shelf q w
unfolding on_shelf
on_shelf-other db q entries w differs =
    ground (arith, find-assign q db entries w, ==_iff db q, differs)

abbrev pub works : ℕ → Shelf → Bool
works db w = true

pub shelf-IsStoring : IsStoring shelf works
shelf-IsStoring = record {
  writes = λ o db batch w e. (refl, refl, on_shelf-assign db _ w);
  puts = λ o db key value w e. (refl, refl, on_shelf-assign db _ w);
  writes_one = λ o db q batch w differs. (refl, on_shelf-other db q _ w differs);
  puts_one = λ o db q key value w differs. (refl, on_shelf-other db q _ w differs);
  times = read_signed-write_signed;
}

abbrev pub unary : Library
unary = record {
  to_string = write;
  read_uuid = count;
  erase_all_copy = λ text part. text;
  iequals = λ a b. a == b;
  region_list = [];
}

-- The readings of the kitchen, one at 10.
abbrev pub opened : Members Shelf
opened = record (create_rocksdb "db" true [] [] ((0, (write 10, write 8) ∷ []) ∷ [])) {
  db_buffer = ("db/sensors/iiiiiii/readings", some 0) ∷ [];
}

-- One sensor with pending operations, bulks of two readings, a flush after 600 seconds.
abbrev pub small : Store (Members Shelf)
small = record {
  auto_commit = true;
  auto_flush = true;
  flush_timeout = pos 600;
  last_flush = pos 0;
  min_bulk_size = 1;
  max_bulk_size = 2;
  sensors_buffer = (7, some kitchen) ∷ [];
  reading_operations_buffer = (7, pending) ∷ [];
  external_ids_buffer = ("k1", 7) ∷ [];
  db = opened;
}

abbrev pub records : Records (Members Shelf)
records = rocks_records shelf unary

abbrev pub model : Model (Members Shelf)
model = rocks_model shelf unary works

-- Paths of different sensors have different lengths.
path_length : (u : ℕ) → count ((("db" ++ "/sensors") ++ ("/" ++ write u)) ++ "/readings") ≡ 20 + u
unfolding count
path_length u =
    rw
      (
        count-append ("db/sensors" ++ ("/" ++ write u)) "/readings",
        count-append "db/sensors" ("/" ++ write u),
        count-append "/" (write u),
        count-write u,
      )
      (omega arith)

pub kitchen-IsWritable : IsWritable shelf unary works opened kitchen
unfolding HashMap.find on_shelf write write_signed read_signed count
kitchen-IsWritable = record {
  db = 0;
  there = refl;
  fine = refl;
  sorted = tt;
  plain = (refl, tt);
  own = λ u differs found.
      elim (Bool-cases (
        "db/sensors/iiiiiii/readings"
        == (("db" ++ "/sensors") ++ ("/" ++ write u)) ++ "/readings")) [
          | inl same ↦ differs (
              omega
                (arith, sym (path_length u) ∙ ap count (sym ((==_iff {K = String} _ _).0 same))))
          | inr other ↦ absurd (ground (arith, found, other))
        ];
}

unfoldable pub small-IsReady : IsReady model small kitchen
unfolding HashMap.find timestamp_less
small-IsReady = record {
  ops = pending;
  cached = refl;
  sorted = (refl, tt);
  sorted_updates = tt;
  accepted = kitchen-IsWritable;
  capacity = omega arith;
}

pub small-IsWellFormed : IsWellFormed model small
small-IsWellFormed = ((refl, small-IsReady), tt)

pub reliable : IsReliable records model take_new true
reliable = rocks-IsReliable shelf unary works shelf-IsStoring

pub transactional : IsTransactional records model
transactional = rocks-IsTransactional shelf unary works shelf-IsStoring
