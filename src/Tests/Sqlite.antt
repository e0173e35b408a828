-- ===== src/Tests/Sqlite.antt =====
-- SQLite in memory, and instances for the store of SQLite.
use Prim.Native.String.{String}
use libklio.Prelude.{
  ℕ, zero, suc, ◌≡◌, ◌≢◌, refl, true, false, nat_eq, arith, Option, none, some, List, [], ◌∷◌, ◌++◌,
  length, string_eq, ◌↔◌,
}
use libklio.Prelude.Int.{ℤ, pos}
use libklio.Exec.{ok}
use libklio.HashMap
use libklio.OrdMap
use libklio.Time.{Double, Readings, timestamp_less}
use libklio.Store.{Store}
use libklio.Sqlite3.{Api, Members, Pointer, create_members, to_int}
use libklio.Sqlite3.Cached.{IsPreparing, IsCached}
use libklio.Sqlite3.Table.{IsCursor, read_rows-remaining, as_int}
use libklio.Sqlite3.ReadingRecords.{read_rows}
use libklio.Sqlite3.Requests.{Request, serve, serve-IsCached}
use libklio.Sqlite3.Integrity.{compare_versions, compare_versions-intact, Verdict}
use libklio.Sqlite3.Connected.{IsConnected}
use libklio.Sqlite3.Connected.History.{Event, history, history-IsConnected}
use libklio.Tests.Memory.{kitchen}
use libklio.Tests.Backends.{library}

-- The texts of the statements, of which a finalized one is gone, what is bound, and the rows
-- that are still to be read.
record World : Type 0 where
  texts : List (Option String)
  time : ℤ
  value : Double
  rest : Readings
  read : ℤ × Double

abbrev pub nth : ℕ → List (Option String) → Option String
nth n [] = none
nth zero (text ∷ texts) = text
nth (suc n) (text ∷ texts) = nth n texts

abbrev pub drop_at : ℕ → List (Option String) → List (Option String)
drop_at n [] = []
drop_at zero (text ∷ texts) = none ∷ texts
drop_at (suc n) (text ∷ texts) = text ∷ drop_at n texts

abbrev sql : Pointer → World → Option String
sql p w = nth p (none ∷ w.texts)

abbrev finalize_in : Pointer → World → World
finalize_in zero w = w
finalize_in (suc n) w = record w { texts = drop_at n w.texts }

abbrev next_row : Readings → World → ℕ × World
next_row [] w = (101, w)
next_row ((t, v) ∷ rest) w = (100, record w { rest = rest; read = (t, v) })

abbrev writing : Api World
writing = record {
  open_v2 = λ path w. ((0, 1), w);
  close_v2 = λ c w. (0, w);
  prepare_v2 =
      λ c text w. ((0, suc (length w.texts)), record w { texts = w.texts ++ (some text ∷ []) });
  exec = λ c command w. (0, w);
  step = λ p w. (101, w);
  sqlite3_reset = λ p w. w;
  clear_bindings = λ p w. w;
  sqlite3_finalize = finalize_in;
  bind_text = λ p i t w. w;
  bind_int = λ p i t w. record w { time = t };
  bind_double = λ p i v w. record w { value = v };
  column_text = λ p i w. some "";
  column_int = λ p i w. to_int w.read.0;
  column_double = λ p i w. w.read.1;
  exists = λ path w. ok true;
  is_directory = λ path w. ok false;
  is_regular_file = λ path w. ok true;
  file_size = λ path w. ok 1;
  remove = λ path w. (ok tt, w);
  rename = λ from to w. (ok tt, w);
}

abbrev reading : Api World
reading = record writing { step = λ p w. next_row w.rest w }

pub nth-length : (w : List (Option String)) → nth (length w) w ≡ none
nth-length [] = refl
nth-length (t ∷ w) = nth-length w

pub nth-append : (w : List (Option String)) (t : Option String) → nth (length w) (w ++ (t ∷ [])) ≡ t
nth-append [] t = refl
nth-append (x ∷ w) t = nth-append w t

pub nth-append_some :
    (n : ℕ) (w v : List (Option String)) (t : String) → nth n w ≡ some t → nth n (w ++ v) ≡ some t
nth-append_some n [] v t e = absurd (ground (arith, e))
nth-append_some zero (x ∷ w) v t e = e
nth-append_some (suc n) (x ∷ w) v t e = nth-append_some n w v t e

pub nth-drop_at : (n k : ℕ) (w : List (Option String)) → k ≢ n → nth k (drop_at n w) ≡ nth k w
nth-drop_at n k [] differs = refl
nth-drop_at zero zero (x ∷ w) differs = absurd (differs refl)
nth-drop_at zero (suc k) (x ∷ w) differs = refl
nth-drop_at (suc n) zero (x ∷ w) differs = refl
nth-drop_at (suc n) (suc k) (x ∷ w) differs = nth-drop_at n k w (λ e. differs (ground (arith, e)))

sql-kept :
    (q : Pointer) (t : String) (v : List (Option String)) (w : World)
    → sql q w ≡ some t
    → sql q (record w { texts = w.texts ++ v }) ≡ some t
sql-kept zero t v w e = absurd (ground (arith, e))
sql-kept (suc n) t v w e = nth-append_some n w.texts v t e

sql-finalize_in : (p q : Pointer) (w : World) → q ≢ p → sql q (finalize_in p w) ≡ sql q w
sql-finalize_in zero q w differs = refl
sql-finalize_in (suc n) zero w differs = refl
sql-finalize_in (suc n) (suc k) w differs =
    nth-drop_at n k w.texts (λ e. differs (ground (arith, e)))

writing-IsPreparing : IsPreparing writing sql
writing-IsPreparing = record {
  prepares = λ c text w e. (nth-length w.texts, nth-append w.texts (some text));
  keeps = λ c text q t w e. sql-kept q t (some text ∷ []) w e;
  fails = λ c text w e. absurd (e refl);
  null = λ w. refl;
  finalizes = sql-finalize_in;
  steps = λ p q w. refl;
  resets = λ p q w. refl;
  clears = λ p q w. refl;
  binds_text = λ p q i t w. refl;
  binds_int = λ p q i n w. refl;
  binds_double = λ p q i v w. refl;
}

abbrev empty_world : World
empty_world = record {
  texts = [];
  time = pos 0;
  value = 0;
  rest = (pos 10, 1) ∷ (pos 20, 2) ∷ [];
  read = (pos 0, 0);
}

abbrev members : Members World
members = record (create_members "db" "OFF" empty_world) { connection = 1 }

no_statement-IsCached :
    (text : String) (p : Pointer)
    → HashMap.find text (members.statements) ≡ some p
    → sql p empty_world ≡ some text
unfolding HashMap.find
no_statement-IsCached text p e = absurd (ground (arith, e))

serve-IsCached_example : IsCached writing sql (
    serve writing library 10
      (Request.single kitchen (pos 5) 3 false ∷ Request.one kitchen (pos 5) ∷ Request.forget ∷ [])
      members)
serve-IsCached_example =
    serve-IsCached writing library 10 sql writing-IsPreparing
      (Request.single kitchen (pos 5) 3 false ∷ Request.one kitchen (pos 5) ∷ Request.forget ∷ [])
      members no_statement-IsCached

remaining : Pointer → World → Readings
remaining p w = w.rest

reading-IsCursor : IsCursor reading remaining
unfolding remaining
reading-IsCursor = record {
  row = λ p t v rest w e. rw e (refl, refl, refl, refl);
  ends = λ p w e. rw e refl;
}

read_rows-remaining_example :
    (w : World) × (read_rows reading 3 1 [] members
      ≡ (ok ((pos 10, 1) ∷ (pos 20, 2) ∷ []), record members { world = w }))
unfolding timestamp_less OrdMap.insert_all as_int to_int remaining OrdMap.insert
read_rows-remaining_example =
    read_rows-remaining reading remaining reading-IsCursor 3 1 [] ((pos 10, 1) ∷ (pos 20, 2) ∷ [])
      members refl (ground arith)

-- Of "1.10" and "1.9", neither is taken for the other.
abbrev major : String
major = "1"

abbrev minor : String
minor = "10"

abbrev other_minor : String
other_minor = "9"

compare_versions-intact_example :
    (compare_versions (major ∷ minor ∷ []) (major ∷ other_minor ∷ []) ≡ some Verdict.intact)
    ↔ ((major ≡ major) × (minor ≡ other_minor))
compare_versions-intact_example = compare_versions-intact major minor major other_minor [] []

abbrev closed : Store (Members World)
closed = record {
  auto_commit = true;
  auto_flush = true;
  flush_timeout = pos 0;
  last_flush = pos 0;
  min_bulk_size = 10;
  max_bulk_size = 10000;
  sensors_buffer = [];
  reading_operations_buffer = [];
  external_ids_buffer = [];
  db = create_members "db" "OFF" empty_world;
}

closed-IsConnected : IsConnected closed.db
closed-IsConnected = record {
  placed = λ t e. absurd (ground (arith, e));
  connected = λ t e. absurd (ground (arith, e));
}

history-IsConnected_example :
    IsConnected
      (history writing
        (Event.opens
          ∷ Event.starts 0
          ∷ Event.makes
          ∷ Event.closes
          ∷ Event.commits 0
          ∷ Event.opens
          ∷ [])
        closed).db
history-IsConnected_example =
    history-IsConnected writing
      (Event.opens
        ∷ Event.starts 0
        ∷ Event.makes
        ∷ Event.closes
        ∷ Event.commits 0
        ∷ Event.opens
        ∷ [])
      closed closed-IsConnected
