-- ===== src/Tests/Hashes.antt =====
-- An instance for Redis: a server that keeps the last fields of a key, and numbers in unary.
use libklio.Prelude.{
  ◌≡◌, refl, true, String, Option, none, some, List, [], ◌∷◌, ◌==◌, string_eq, nat_eq,
  if◌then◌else◌,
}
use libklio.Prelude.Int.{pos}
use libklio.Exec.{Result, ok, err, store_exception}
use libklio.HashMap
use libklio.HashMap.{HashMap}
use libklio.Time.{Readings}
use libklio.Sensor.{Library}
use libklio.Store.{Store}
use libklio.Transaction.{Element}
use libklio.Redis.{Connection, Reply, run_select, compose_readings_key, reading_fields}
use libklio.Redis.Lifetime.{Client, Members, create_redis, open_store}
use libklio.Redis.Reopened.{open_store-unselected}
use libklio.Tests.Memory.{kitchen}
use libklio.Tests.Unary.{write, count, write_signed, read_signed}

abbrev Server : Type 0
Server = HashMap String (List String)

abbrev fields_in : Option (List String) → List String
fields_in none = []
fields_in (some fields) = fields

abbrev elements_of : List String → List Element
elements_of [] = []
elements_of (text ∷ rest) = record { integer = pos 0; str = text } ∷ elements_of rest

abbrev reply_of : List String → Reply
reply_of texts = record { str = "OK"; elements = elements_of texts }

abbrev serve : List String → Server → Result Reply × Server
serve [] d = (ok (reply_of []), d)
serve (name ∷ []) d = (ok (reply_of []), d)
serve (name ∷ key ∷ fields) d =
    if name == "HMSET"
    then (ok (reply_of []), HashMap.assign key fields d)
    else (ok (reply_of (fields_in (HashMap.find key d))), d)

abbrev server : Connection Server
server = record {
  run = serve;
  is_valid = λ d. true;
  lexical_time = write_signed;
  lexical_double = write;
  to_string = write_signed;
  atol = read_signed;
  atof = count;
}

abbrev plain : Library
plain = record {
  to_string = λ uuid. "7";
  read_uuid = λ text. 7;
  erase_all_copy = λ text part. text;
  iequals = λ a b. a == b;
  region_list = "Europe/Berlin" ∷ [];
}

abbrev elements_in : Result Reply → List Element
elements_in (ok reply) = reply.elements
elements_in (err e) = []

abbrev one_sensor : Store Server
one_sensor = record {
  auto_commit = true;
  auto_flush = true;
  flush_timeout = pos 0;
  last_flush = pos 0;
  min_bulk_size = 10;
  max_bulk_size = 10000;
  sensors_buffer = (7, some kitchen) ∷ [];
  reading_operations_buffer = [];
  external_ids_buffer = [];
  db = [];
}

abbrev sent : Readings
sent = (pos 10, 4) ∷ (pos 20, 5) ∷ []

abbrev key : String
key = compose_readings_key server plain kitchen

abbrev after_sent : Server
after_sent = HashMap.assign key (reading_fields server plain sent) []

-- A server that refuses every command.
abbrev refusing : Client Server
refusing = record {
  connection = record server {
    run = λ command d. (ok (record { str = "ERR DB index is out of range"; elements = [] }), d);
  };
  create_connection = λ host port d. (ok tt, d);
  to_string = λ index. "99";
}

abbrev unopened : Members Server
unopened = create_redis "redis-server1" 6379 99 []

open_store-unselected_example :
    (m' : Members Server) × (open_store refusing plain unopened ≡ (err store_exception, m'))
    × (open_store refusing plain m' ≡ (ok tt, m'))
    × (m'.transaction ≡ none)
    × (m'.world ≡ [])
unfolding run_select
open_store-unselected_example =
    open_store-unselected refusing plain unopened [] [] store_exception refl refl refl refl
