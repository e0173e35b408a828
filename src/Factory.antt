-- ===== src/Factory.antt =====
-- libklio/store-factory.cpp: how stores are made. A store is made, opened, and then initialized or
-- checked, and prepared; the store comes back beside the result of these calls.
pub mod Opened
pub mod Servers
use libklio.Prelude.{ℕ, Bool, true, false, String, List, [], if◌then◌else◌}
use libklio.Prelude.Int.{pos}
use libklio.Exec.{Exec, Result, ok, err, pure, ◌>>=◌, ◌>>◌}
use libklio.HashMap.{HashMap}
use libklio.OrdMap.{Less}
use libklio.Time.{Timestamp}
use libklio.Sensor.{Library, Uuid}
use libklio.Store.{Store, create, run}
use libklio.Store.Flush as Flush
use libklio.Sqlite3 as Sqlite3
use libklio.Sqlite3.Connection.{on_members, open_store}
use libklio.Sqlite3.Schema.{initialize, prepare}
use libklio.Sqlite3.Integrity.{check_integrity}
use libklio.Sqlite3.ReadingRecords.{records}
use libklio.Rocks as Rocks
use libklio.Rocks.Lifetime as Lifetime
use libklio.Rocks.Records.{on_rocks, rocks_records}
use libklio.Msg as Msg
use libklio.Msg.Records as MsgRecords
use libklio.Txt as Txt
use libklio.Txt.Files.{Disk, Text}

abbrev os_sync_full : String
os_sync_full = "FULL"

abbrev default_msg_url : String
default_msg_url = "https://api.mysmartgrid.de:8443"

abbrev default_msg_description : String
default_msg_description = "libklio mSG Store"

abbrev default_msg_type : String
default_msg_type = "libklio"

-- Stores of SQLite; `fuel` bounds the rows that a loop reads, `version` is that of the library.
module _ {W : Type 0} (api : Sqlite3.Api W) (l : Library) (split : String → List String)
    (version : String) (fuel : ℕ) where
  abbrev Sqlite3Store : Type 0
  Sqlite3Store = Store (Sqlite3.Members W)

  abbrev new_sqlite3_store : String → Bool → Bool → Timestamp → String → W → Sqlite3Store
  new_sqlite3_store path auto_commit auto_flush flush_timeout synchronous world =
      create auto_commit auto_flush flush_timeout 10 10000
        (Sqlite3.create_members path synchronous world)

  unfoldable pub create_sqlite3_store_with :
      String → Bool → Bool → Bool → Timestamp → String → W → Result (Unit {0}) × Sqlite3Store
  unfolding create open_store initialize prepare records
  create_sqlite3_store_with path prepared auto_commit auto_flush flush_timeout synchronous world =
      (do
        on_members (open_store api)
        on_members (initialize api version)
        if prepared then prepare api (records api l fuel) else pure tt)
        (new_sqlite3_store path auto_commit auto_flush flush_timeout synchronous world)

  unfoldable pub create_sqlite3_store : String → Bool → W → Result (Unit {0}) × Sqlite3Store
  unfolding create_sqlite3_store_with
  create_sqlite3_store path prepared =
      create_sqlite3_store_with path prepared true true (pos 600) os_sync_full

  unfoldable pub open_sqlite3_store_with :
      String → Bool → Bool → Timestamp → String → W → Result (Unit {0}) × Sqlite3Store
  unfolding create open_store check_integrity prepare records
  open_sqlite3_store_with path auto_commit auto_flush flush_timeout synchronous world =
      (do
        on_members (open_store api)
        on_members (check_integrity api split version)
        prepare api (records api l fuel))
        (new_sqlite3_store path auto_commit auto_flush flush_timeout synchronous world)

  unfoldable pub open_sqlite3_store : String → W → Result (Unit {0}) × Sqlite3Store
  unfolding open_sqlite3_store_with
  open_sqlite3_store path = open_sqlite3_store_with path true true (pos 600) os_sync_full

-- Stores of text files; opening one does nothing.
module _ {F : Type 0} ⦃order : Less String⦄ (disk : Disk F) (x : Text) (l : Library) where
  unfoldable pub open_txt_store : String → String → F → Result (Unit {0}) × Store F
  unfolding create Txt.check_integrity Txt.txt_records Flush.prepare
  open_txt_store path field_separator f =
      (do
        run λ s. (Txt.check_integrity disk x l path field_separator s.db, s.db)
        Flush.prepare (Txt.txt_records disk x l path field_separator))
        (create true true (pos 0) 10 10000 f)

  unfoldable pub create_txt_store : String → String → F → Result (Unit {0}) × Store F
  unfolding create Txt.initialize Txt.check_integrity Txt.txt_records Flush.prepare
  create_txt_store path field_separator f =
      (do
        run λ s. Txt.initialize disk x l path field_separator s.db
        run λ s. (Txt.check_integrity disk x l path field_separator s.db, s.db)
        Flush.prepare (Txt.txt_records disk x l path field_separator))
        (create true true (pos 0) 10 10000 f)

-- Stores of mySmartGrid; opening one does nothing.
module _ {J W : Type 0} (web : Msg.Web J W) (l : Library) where
  abbrev MsgStore : Type 0
  MsgStore = Store (Msg.Members W)

  abbrev new_msg_store : String → String → String → String → String → W → MsgStore
  new_msg_store url id key description type world = create true true (pos 600) 1 1000 (
      Msg.create_msg url (l.erase_all_copy id "-") (l.erase_all_copy key "-") description type
        world)

  unfoldable pub create_msg_store_with :
      String → String → String → String → String → W → Result (Unit {0}) × MsgStore
  unfolding create Msg.initialize MsgRecords.prepare
  create_msg_store_with url id key description type world =
      (do MsgRecords.on_msg (Msg.initialize web); MsgRecords.prepare web l)
        (new_msg_store url id key description type world)

  unfoldable pub create_msg_store : String → String → W → Result (Unit {0}) × MsgStore
  unfolding create_msg_store_with
  create_msg_store id key =
      create_msg_store_with default_msg_url id key default_msg_description default_msg_type

  -- The uuids are what the generator returns.
  unfoldable pub create_new_msg_store : Uuid → Uuid → W → Result (Unit {0}) × MsgStore
  unfolding create_msg_store
  create_new_msg_store first second = create_msg_store (l.to_string first) (l.to_string second)

  unfoldable pub open_msg_store_with :
      Timestamp → String → String → String → W → Result (Unit {0}) × MsgStore
  unfolding create Msg.check_integrity MsgRecords.prepare
  open_msg_store_with now url id key world =
      (do MsgRecords.on_msg (Msg.check_integrity web now); MsgRecords.prepare web l)
        (new_msg_store url id key default_msg_description default_msg_type world)

  unfoldable pub open_msg_store : Timestamp → String → String → W → Result (Unit {0}) × MsgStore
  unfolding open_msg_store_with
  open_msg_store now id key = open_msg_store_with now default_msg_url id key

-- Stores of RocksDB.
module _ {W : Type 0} (api : Rocks.Api W) (l : Library) where
  abbrev RocksStore : Type 0
  RocksStore = Store (Rocks.Members W)

  abbrev new_rocksdb_store :
      String
      → Bool
      → Timestamp
      → Bool
      → HashMap String String
      → HashMap String String
      → W
      → RocksStore
  new_rocksdb_store path auto_flush flush_timeout synchronous db_options read_options world =
      create true auto_flush flush_timeout 10 10000
        (Rocks.create_rocksdb path synchronous db_options read_options world)

  unfoldable pub create_rocksdb_store_with :
      String
      → Bool
      → Timestamp
      → Bool
      → HashMap String String
      → HashMap String String
      → W
      → Result (Unit {0}) × RocksStore
  unfolding create Lifetime.open_store Lifetime.initialize rocks_records Flush.prepare
  create_rocksdb_store_with path auto_flush flush_timeout synchronous db_options read_options
        world =
      (do
        Lifetime.open_store api l
        on_rocks (Lifetime.initialize api l)
        Flush.prepare (rocks_records api l))
        (new_rocksdb_store path auto_flush flush_timeout synchronous db_options read_options world)

  unfoldable pub create_rocksdb_store :
      String → Bool → Timestamp → Bool → W → Result (Unit {0}) × RocksStore
  unfolding create_rocksdb_store_with
  create_rocksdb_store path auto_flush flush_timeout synchronous =
      create_rocksdb_store_with path auto_flush flush_timeout synchronous [] []

  unfoldable pub open_rocksdb_store_with :
      String
      → Bool
      → Timestamp
      → Bool
      → HashMap String String
      → HashMap String String
      → W
      → Result (Unit {0}) × RocksStore
  unfolding create Lifetime.open_store Lifetime.check_integrity rocks_records Flush.prepare
  open_rocksdb_store_with path auto_flush flush_timeout synchronous db_options read_options world =
      (do
        Lifetime.open_store api l
        on_rocks (λ s. (Lifetime.check_integrity api l s, s))
        Flush.prepare (rocks_records api l))
        (new_rocksdb_store path auto_flush flush_timeout synchronous db_options read_options world)

  unfoldable pub open_rocksdb_store :
      String → Bool → Timestamp → Bool → W → Result (Unit {0}) × RocksStore
  unfolding open_rocksdb_store_with
  open_rocksdb_store path auto_flush flush_timeout synchronous =
      open_rocksdb_store_with path auto_flush flush_timeout synchronous [] []
