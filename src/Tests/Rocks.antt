-- ===== src/Tests/Rocks.antt =====
-- RocksDB in memory, and an instance for its store. A database is a slot that is empty once it is
-- closed.
use libklio.Prelude.{
  ◌≡◌, refl, ap, inl, inr, Option-cases, ℕ, Bool, true, false, Option, some, is_some, String,
  string_eq, List, [], ◌∷◌, ◌++◌, length, arith,
}
use libklio.Prelude.Int.{pos}
use libklio.Exec.{ok, err, store_exception}
use libklio.Factory.{open_rocksdb_store_with}
use libklio.Factory.Opened.{open_rocksdb_store-refused}
use libklio.HashMap.{find-nil}
use libklio.Rocks.{Api, Members, create_rocksdb}
use libklio.Rocks.Live.{IsOpening, IsLive}
use libklio.Rocks.Requests.{Request, serve, serve-IsLive}
use libklio.Tests.Sqlite.{nth, drop_at, nth-length, nth-append, nth-append_some, nth-drop_at}
use libklio.Tests.Memory.{kitchen}
use libklio.Tests.Backends.{library}

abbrev Slots : Type 0
Slots = List (Option String)

abbrev slots : Api Slots
slots = record {
  open_path = λ o path w. (some (length w), w ++ (some path ∷ []));
  delete = drop_at;
  put = λ o db key value w. (true, w);
  write = λ o db batch w. (true, w);
  get = λ db key w. some "";
  entries = λ db w. [];
  exists = λ path w. true;
  is_directory = λ path w. true;
  directory = λ path w. ok ("7" ∷ []);
  create_directory = λ path w. (true, w);
  remove_all = λ path w. w;
  time_to_string = λ t. "20";
  double_to_string = λ v. "5.000000";
  atol = λ text. pos 20;
  atof = λ text. 5;
}

abbrev is_open : ℕ → Slots → Bool
is_open db w = is_some (nth db w)

is_open-append : (q : ℕ) (w v : Slots) → is_open q w ≡ true → is_open q (w ++ v) ≡ true
is_open-append q w v e = elim (Option-cases (nth q w)) [
  | inl closed ↦ absurd (ground (arith, e, closed))
  | inr (path, there) ↦ ap is_some (nth-append_some q w v path there)
]

slots-IsOpening : IsOpening slots is_open
slots-IsOpening = record {
  opens = λ o path w db e. ground (arith, e, nth-length w, nth-append w (some path));
  keeps = λ o path w q e. is_open-append q w (some path ∷ []) e;
  deletes = λ db q w differs. ap is_some (nth-drop_at db q w differs);
  puts = λ o db q k v w. refl;
  writes = λ o db q batch w. refl;
  creates = λ path q w. refl;
  removes = λ path q w. refl;
}

abbrev fresh : Members Slots
fresh = create_rocksdb "db" true [] [] []

fresh-IsLive : IsLive is_open fresh
fresh-IsLive = record {
  live = λ path db found. absurd (ground (arith, found, find-nil {V = Option ℕ} path));
  own = λ p q db found found'. absurd (ground (arith, found, find-nil {V = Option ℕ} p));
}

serve-IsLive_example : IsLive is_open (
    serve slots library
      (Request.add_sensor kitchen
        ∷ Request.single kitchen (pos 20) 5 false
        ∷ Request.remove_sensor kitchen
        ∷ Request.all kitchen
        ∷ [])
      fresh)
serve-IsLive_example =
    serve-IsLive slots library is_open slots-IsOpening
      (Request.add_sensor kitchen
        ∷ Request.single kitchen (pos 20) 5 false
        ∷ Request.remove_sensor kitchen
        ∷ Request.all kitchen
        ∷ [])
      fresh fresh-IsLive

-- The directory of the sensors has one entry.
open_rocksdb_store-refused_example :
    (open_rocksdb_store_with slots library "db" true (pos 600) false [] [] []).0
    ≡ err store_exception
open_rocksdb_store-refused_example =
    open_rocksdb_store-refused slots library "db" true (pos 600) false [] [] [] "7" [] refl
