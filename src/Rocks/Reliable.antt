-- ===== src/Rocks/Reliable.antt =====
-- The store of RocksDB as a database that the buffers of `Store` rely on.
use libklio.Prelude.{
  ◌≡◌, refl, sym, ap, subst, ◌∙◌, ◌≢◌, inl, inr, Option-cases, Bool-cases, ℕ, Bool, true, Option,
  none, some, String, [], ◌==◌, ==_iff, map, string_eq, nat_eq, arith,
}
use libklio.Exec.{ok}
use libklio.HashMap
use libklio.OrdMap
use libklio.OrdMap.{OrdMap}
use libklio.OrdMap.Sorted.{IsSorted, assign-IsSorted}
use libklio.OrdMap.Texts.{text_less}
use libklio.Time.{Timestamp, Double, Readings, timestamp_less}
use libklio.Sensor.{Sensor, Library, Uuid, uuid_string}
use libklio.Store.{Store}
use libklio.Store.Reliable.{
  take_new, rounded, Model, Written, Writes, Reads, IsReliable, IsTransactional,
}
use libklio.Rocks.{Api, Members, open_db, db_at, compose_sensor_readings_path}
use libklio.Rocks.Records.{
  rocks_records, open_readings, add_single_reading_record, add_bulk_reading_records,
  update_reading_records, get_all_reading_records,
}
use libklio.Rocks.Entries.{
  IsStoring, round_trip, Canonical, readings_of, put_in_batch, assign-Canonical, readings_of-assign,
  readings_of-assign_all,
}

module _ {W : Type 0} (api : Api W) (l : Library) where
  abbrev pub database : Members W → Uuid → Option ℕ
  database d uuid = db_at (compose_sensor_readings_path (l.to_string uuid) d) d

  abbrev pub entries_of : Option ℕ → W → OrdMap String String
  entries_of none w = []
  entries_of (some db) w = api.entries db w

  -- The readings of the sensor stand in a database that is open, works, holds readings alone, and holds
  -- those of no other sensor.
  pub record IsWritable (works : ℕ → W → Bool) (d : Members W) (sensor : Sensor) : Type 0 where
    pub db : ℕ
    pub there : database d sensor.uuid ≡ some db
    pub fine : works db d.world ≡ true
    pub sorted : IsSorted (api.entries db d.world)
    pub plain : Canonical api l (api.entries db d.world)
    pub own : (u : Uuid) → u ≢ sensor.uuid → database d u ≢ some db

  -- The readings that a store of RocksDB holds.
  abbrev pub rocks_model : (ℕ → W → Bool) → Model (Members W)
  rocks_model works = record {
    stored = λ d uuid. readings_of api l (entries_of (database d uuid) d.world);
    accepts = λ sensors d sensor. IsWritable works d sensor;
    round = round_trip api l;
  }

module _ {W : Type 0} (api : Api W) (l : Library) (works : ℕ → W → Bool)
    (storing : IsStoring api works) where
  is_there :
      (path : String) (d : Members W) (db : ℕ)
      → db_at path d ≡ some db
      → HashMap.contains path d.db_buffer ≡ true
  is_there path d db e = elim (Option-cases (HashMap.find path d.db_buffer)) [
    | inl missing ↦ absurd (ground (arith, e, missing))
    | inr (entry, found) ↦ ground (arith, found)
  ]

  -- A database that is open is found.
  open_readings-there :
      (sensor : Sensor) (d : Members W) (db : ℕ)
      → database api l d sensor.uuid ≡ some db
      → open_readings api l sensor d ≡ (ok db, d)
  unfolding open_readings open_db uuid_string
  open_readings-there sensor d db e =
      rw (e, is_there (compose_sensor_readings_path (l.to_string sensor.uuid) d) d db e) refl

  -- A sensor stays writable where its database, or another, was written to.
  IsWritable-world :
      (d : Members W) (w : W) (db : ℕ) (y : Sensor)
      → works db w ≡ true
      → IsSorted (api.entries db w)
      → Canonical api l (api.entries db w)
      → ((q : ℕ)
          → q ≢ db
          → (works q w ≡ works q d.world) × (api.entries q w ≡ api.entries q d.world))
      → IsWritable api l works d y
      → IsWritable api l works (record d { world = w }) y
  IsWritable-world d w db y fine sorted plain others k = elim (Bool-cases (k.db == db)) [
    | inl here ↦
        let e : db ≡ k.db = sym ((==_iff k.db db).0 here) in
        record {
          db = k.db;
          there = k.there;
          fine = subst (λ q. works q w ≡ true) e fine;
          sorted = subst (λ q. IsSorted (api.entries q w)) e sorted;
          plain = subst (λ q. Canonical api l (api.entries q w)) e plain;
          own = k.own;
        }
    | inr elsewhere ↦
        let (same_works, same_entries) =
          others k.db (λ e. ground (arith, elsewhere, ==_iff k.db db, e)) in
        record {
          db = k.db;
          there = k.there;
          fine = same_works ∙ k.fine;
          sorted = subst IsSorted (sym same_entries) k.sorted;
          plain = subst (Canonical api l) (sym same_entries) k.plain;
          own = k.own;
        }
  ]

  -- What the store holds after a write to the database of one sensor.
  Written-world :
      (sensor : Sensor) (s : Store (Members W)) (h : IsWritable api l works s.db sensor) (w : W)
      (new : Readings)
      → works h.db w ≡ true
      → readings_of api l (api.entries h.db w) ≡ new
      → IsSorted (api.entries h.db w)
      → Canonical api l (api.entries h.db w)
      → ((q : ℕ)
          → q ≢ h.db
          → (works q w ≡ works q s.db.world) × (api.entries q w ≡ api.entries q s.db.world))
      → Written (rocks_model api l works) s sensor.uuid new (record s.db { world = w })
  Written-world sensor s h w new fine content sorted plain others = record {
    accepts = λ y k. IsWritable-world s.db w h.db y fine sorted plain others k;
    written = rw h.there content;
    others = λ u differs. elim (Option-cases (database api l s.db u)) [
      | inl closed ↦ rw closed refl
      | inr (q, found) ↦
          rw found (ap (readings_of api l) (others q (λ e. h.own u differs (found ∙ ap some e))).1)
    ];
  }

  single-Writes :
      (sensor : Sensor) (t : Timestamp) (v : Double) (s : Store (Members W))
      → IsWritable api l works s.db sensor
      → Writes
          (rocks_model api l works)
          s
          sensor.uuid
          (OrdMap.assign t
            (round_trip api l v)
            (readings_of api l (entries_of api l (database api l s.db sensor.uuid) s.db.world)))
          (add_single_reading_record api l sensor t v true s.db)
  unfolding add_single_reading_record
  single-Writes sensor t v s h =
      let key = api.time_to_string t in
      let value = api.double_to_string v in
      let w = (api.put s.db.write_options h.db key value s.db.world).1 in
      let (accepted, fine, entries) =
        storing.puts s.db.write_options h.db key value s.db.world h.fine in
      (
        record s.db { world = w },
        rw (open_readings-there sensor s.db h.db h.there, accepted) refl,
        Written-world sensor s h w _ fine
            (rw (entries, h.there)
              (readings_of-assign api l works storing t v (api.entries h.db s.db.world) h.sorted
                h.plain))
            (subst IsSorted (sym entries)
              (assign-IsSorted key value (api.entries h.db s.db.world) h.sorted))
            (subst (Canonical api l) (sym entries)
              (assign-Canonical api l works storing t value (api.entries h.db s.db.world) h.plain))
            (λ q. storing.puts_one s.db.write_options h.db q key value s.db.world),
      )

  bulk-Writes :
      (sensor : Sensor) (readings : Readings) (s : Store (Members W))
      → IsWritable api l works s.db sensor
      → Writes
          (rocks_model api l works)
          s
          sensor.uuid
          (OrdMap.assign_all
            (rounded (round_trip api l) readings)
            (readings_of api l (entries_of api l (database api l s.db sensor.uuid) s.db.world)))
          (add_bulk_reading_records api l sensor readings true s.db)
  unfolding add_bulk_reading_records
  bulk-Writes sensor readings s h =
      let batch = map (put_in_batch api l works storing) readings in
      let w = (api.write s.db.write_options h.db batch s.db.world).1 in
      let (accepted, fine, entries) =
        storing.writes s.db.write_options h.db batch s.db.world h.fine in
      let (content, sorted, plain) =
        readings_of-assign_all api l works storing readings (api.entries h.db s.db.world) h.sorted
          h.plain in
      (
        record s.db { world = w },
        rw (open_readings-there sensor s.db h.db h.there, accepted) refl,
        Written-world sensor s h w _ fine (rw (entries, h.there) content)
            (subst IsSorted (sym entries) sorted) (subst (Canonical api l) (sym entries) plain)
            (λ q. storing.writes_one s.db.write_options h.db q batch s.db.world),
      )

  -- The records of RocksDB are what the buffers of a store rely on.
  pub rocks-IsReliable : IsReliable (rocks_records api l) (rocks_model api l works) take_new true
  unfolding rocks_records update_reading_records get_all_reading_records readings_of
      OrdMap.assign_all
  rocks-IsReliable = record {
    single = λ sensor t v s h. single-Writes sensor t v s h;
    bulk = λ sensor readings s h. bulk-Writes sensor readings s h;
    update = λ sensor readings s h. bulk-Writes sensor readings s h;
    read = λ sensor s h. (
      s.db,
      rw (open_readings-there sensor s.db h.db h.there, h.there) refl,
      record { accepts = λ x k. k; kept = λ u. refl },
    );
  }

  unchanged :
      {A : Type 0} (s : Store (Members W)) (a : A)
      → Reads (rocks_model api l works) s a (ok a, s.db)
  unchanged s a = (s.db, refl, record { accepts = λ x k. k; kept = λ u. refl })

  -- The handlers of `Store` do nothing.
  pub rocks-IsTransactional : IsTransactional (rocks_records api l) (rocks_model api l works)
  unfolding rocks_records
  rocks-IsTransactional = record {
    handler = λ s. (none, unchanged s none);
    start = λ t s. unchanged s tt;
    commit = λ t s. unchanged s tt;
  }
