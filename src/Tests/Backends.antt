-- ===== src/Tests/Backends.antt =====
-- Instances for Transaction and Txt.
use libklio.Prelude.{
  ◌≡◌, refl, Bool, true, false, not, ◌&&◌, String, Option, none, some, List, [], ◌∷◌, ◌++◌, ◌==◌,
  ==_iff, string_eq, nat_eq, arith, if◌then◌else◌,
}
use libklio.Prelude.Int.{ℤ, pos}
use libklio.Exec.{Result, ok}
use libklio.HashMap
use libklio.HashMap.{HashMap, find-assign, find-assign_self}
use libklio.OrdMap
use libklio.OrdMap.Texts.{text_less}
use libklio.OrdMap.Union.{first}
use libklio.Time.{Readings, timestamp_less}
use libklio.Sensor.{Library, uuid_string}
use libklio.Store.{Store}
use libklio.Transaction.{Transaction, Statement, Element, redis_commit}
use libklio.Transaction.Agreement.{IsDocumented, Call, handle_all, Knows, handle_all-Knows}
use libklio.Transaction.Replies.{redis_commit-refused}
use libklio.Txt.{update_reading_records, compose_sensor_readings_path, select}
use libklio.Txt.Files.{Disk, Text, IsAppending}
use libklio.Txt.Lines.{LinesByKey, read_lines}
use libklio.Txt.Updates.{Tokenizes, saved, update_reading_records-read_lines}
use libklio.Txt.Selections.{find-select}
use libklio.Tests.Memory.{kitchen}

-- A database that only knows whether a transaction is open. A `COMMIT` finds the disk full and rolls
-- back.
abbrev execute : Statement Bool
execute command opened =
    if command == "BEGIN"
    then (if opened then (ok false, opened) else (ok true, true))
    else if command == "COMMIT"
    then (ok false, false)
    else (if opened then (ok true, false) else (ok false, opened))

execute-IsDocumented : IsDocumented execute (λ opened. opened)
execute-IsDocumented = record {
  begins = λ d e. ground arith;
  commits = λ d e. ground arith;
  rolls_back = λ d e. ground arith;
  fails = λ command d e still_open. ground arith;
  never_throws = never_throws;
}
  where
    never_throws : (command : String) (d : Bool) → (b : Bool) × ((execute command d).0 ≡ ok b)
    never_throws command true =
        (not (command == "BEGIN") && not (command == "COMMIT"), ground arith)
    never_throws command false = (command == "BEGIN", ground arith)

abbrev idle : Transaction Bool
idle = record { connected = true; pending = false; db = false }

handle_all-Knows_example :
    Knows
      (λ opened. opened)
      (handle_all execute (Call.start ∷ Call.commit ∷ Call.rollback ∷ Call.start ∷ []) idle)
handle_all-Knows_example =
    handle_all-Knows execute (λ opened. opened) execute-IsDocumented
      (Call.start ∷ Call.commit ∷ Call.rollback ∷ Call.start ∷ []) idle (λ e. e)

abbrev element : ℤ → String → Element
element integer str = record { integer = integer; str = str }

abbrev request : String → Bool → Result (List Element) × Bool
request command d = (ok (element (pos 1) "" ∷ element (pos 0) "" ∷ []), false)

-- A DEL without an effect among the commands.
redis_commit-refused_example :
    redis_commit request (record { connected = true; pending = true; db = true })
    ≡ (ok tt, record { connected = true; pending = true; db = false })
redis_commit-refused_example =
    redis_commit-refused request (record { connected = true; pending = true; db = true }) false
      (element (pos 1) "" ∷ []) [] (element (pos 0) "") refl refl refl
      (λ e. ground (arith, ==_iff {K = String} "" "OK", e)) refl

abbrev Texts : Type 0
Texts = HashMap String (List String)

abbrev lines_in : Option (List String) → List String
lines_in none = []
lines_in (some lines) = lines

abbrev files : Disk Texts
files = record {
  exists = λ path f. true;
  create_directory = λ path f. (true, f);
  remove_all = λ path f. HashMap.erase path f;
  append = λ path new f. HashMap.assign path (lines_in (HashMap.find path f) ++ new) f;
  lines = λ path f. lines_in (HashMap.find path f);
}

files-IsAppending : IsAppending files
files-IsAppending = record {
  appended =
      λ path new f. rw (find-assign_self path (lines_in (HashMap.find path f) ++ new) f) refl;
  others = λ path other new f differs.
      ground (
        arith,
        find-assign other path (lines_in (HashMap.find path f) ++ new) f,
        ==_iff path other,
      );
}

-- Conversions for one reading.
abbrev texts : Text
texts = record {
  tokenize = λ line. "1" ∷ "20" ∷ "5.0" ∷ [];
  long_to_string = λ t. "20";
  double_to_string = λ v. "5.0";
  long_of_string = λ t. some (pos 20);
  double_of_string = λ v. some 5;
  to_lower = λ text. text;
  contains = λ text part. false;
}

texts-Tokenizes : Tokenizes texts ","
texts-Tokenizes t v = refl

abbrev pub library : Library
library = record {
  to_string = λ uuid. "7";
  read_uuid = λ text. 7;
  erase_all_copy = λ text part. text;
  iequals = λ a b. a == b;
  region_list = "Europe/Berlin" ∷ [];
}

abbrev no_files : Store Texts
no_files = record {
  auto_commit = true;
  auto_flush = true;
  flush_timeout = pos 0;
  last_flush = pos 0;
  min_bulk_size = 10;
  max_bulk_size = 10000;
  sensors_buffer = [];
  reading_operations_buffer = [];
  external_ids_buffer = [];
  db = [];
}

abbrev readings_csv : String
readings_csv = compose_sensor_readings_path "db" "7"

update_reading_records-read_lines_example :
    (f : Texts) × (m' : LinesByKey) × (update_reading_records files texts library "db" "," kitchen
        ((pos 20, 5) ∷ [])
        true
        no_files
      ≡ (ok tt, f))
    × (read_lines texts (files.lines readings_csv f) [] ≡ some m')
    × ((key : String)
        → OrdMap.find key m'
          ≡ first (OrdMap.find {V = List String} key []) (saved texts "," key ((pos 20, 5) ∷ [])))
unfolding uuid_string HashMap.find read_lines
update_reading_records-read_lines_example =
    update_reading_records-read_lines files texts library "db" "," kitchen ((pos 20, 5) ∷ []) true
      no_files [] files-IsAppending texts-Tokenizes refl refl

abbrev two : Readings
two = (pos 10, 1) ∷ (pos 20, 2) ∷ []

find-select_example :
    OrdMap.find (pos 20) (select (pos 20) (pos 30) two [])
    ≡ (if true then OrdMap.find (pos 20) two else none)
unfolding timestamp_less
find-select_example = find-select (pos 20) (pos 30) (pos 20) two (refl, tt)
