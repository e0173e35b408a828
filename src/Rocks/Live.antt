-- ===== src/Rocks/Live.antt =====
-- The databases that the store keeps open: each is open, and each belongs to one path.
pub mod Operations
use libklio.Prelude.{
  ◌≡◌, refl, sym, ◌∙◌, ◌≢◌, inl, inr, Option-cases, ℕ, Bool, true, false, Option, none, some,
  String, List, [], ◌∷◌, ◌==◌, ==_iff, string_eq, arith, is_some, if◌then◌else◌,
}
use libklio.Exec.{
  Exec, Result, ok, err, pure, throw, modify, ◌>>=◌, ◌>>◌, catching, store_exception,
}
use libklio.Exec.Preserves.{
  Preserves, Preserves-pure, Preserves-throw, Preserves-if, Preserves-bind, Preserves-catching,
}
use libklio.HashMap
use libklio.HashMap.{find-assign, find-erase}
use libklio.Time.{Timestamp, Double, Readings}
use libklio.Sensor.{Sensor, Library, uuid_string}
use libklio.Rocks.{
  Api, Members, Options, WriteOptions, open_db, close_db, remove_db, put_value, write_batch,
  get_value, create_directory, delete_directory, ensure_entry, db_at, opened, options_of,
}

-- What RocksDB documents: a database that is opened is a new one, only `delete` closes one, and it
-- closes no other.
pub record IsOpening {W : Type 0} (api : Api W) (is_open : ℕ → W → Bool) : Type 0 where
  pub opens :
      (o : Options) (path : String) (w : W) (db : ℕ)
      → (api.open_path o path w).0 ≡ some db
      → (is_open db w ≡ false) × (is_open db (api.open_path o path w).1 ≡ true)
  pub keeps :
      (o : Options) (path : String) (w : W) (q : ℕ)
      → is_open q w ≡ true
      → is_open q (api.open_path o path w).1 ≡ true
  pub deletes : (db q : ℕ) (w : W) → q ≢ db → is_open q (api.delete db w) ≡ is_open q w
  pub puts :
      (o : WriteOptions) (db q : ℕ) (k v : String) (w : W)
      → is_open q (api.put o db k v w).1 ≡ is_open q w
  pub writes :
      (o : WriteOptions) (db q : ℕ) (batch : List (String × String)) (w : W)
      → is_open q (api.write o db batch w).1 ≡ is_open q w
  pub creates :
      (path : String) (q : ℕ) (w : W) → is_open q (api.create_directory path w).1 ≡ is_open q w
  pub removes : (path : String) (q : ℕ) (w : W) → is_open q (api.remove_all path w) ≡ is_open q w

module _ {W : Type 0} (is_open : ℕ → W → Bool) where
  pub record IsLive (s : Members W) : Type 0 where
    pub live :
        (path : String) (db : ℕ)
        → HashMap.find path s.db_buffer ≡ some (some db)
        → is_open db s.world ≡ true
    pub own :
        (path other : String) (db : ℕ)
        → HashMap.find path s.db_buffer ≡ some (some db)
        → HashMap.find other s.db_buffer ≡ some (some db)
        → path ≡ other

module _ {W : Type 0} (api : Api W) (is_open : ℕ → W → Bool) (spec : IsOpening api is_open) where
  -- Another state of the world, in which the open databases are open.
  pub world-IsLive :
      (s : Members W) (w : W)
      → ((q : ℕ) → is_open q w ≡ is_open q s.world)
      → IsLive is_open s
      → IsLive is_open (record s { world = w })
  world-IsLive s w same h = record {
    live = λ path db found. same db ∙ h.live path db found;
    own = h.own;
  }

  -- The entry of a null pointer.
  pub ensure-IsLive :
      (path : String) (s : Members W) → IsLive is_open s → IsLive is_open (ensure_entry path s)
  ensure-IsLive path s h = record {
    live = λ p db found.
        ground (arith, found, h.live p db, find-assign p path none s.db_buffer, ==_iff path p);
    own = λ p q db found found'. ground (
      arith,
      found,
      found',
      h.own p q db,
      find-assign p path none s.db_buffer,
      find-assign q path none s.db_buffer,
    );
  }

  opened-IsLive :
      (path : String) (o : Options) (s : Members W)
      → IsLive is_open s
      → IsLive is_open (opened api path (api.open_path o path s.world) s).1
  opened-IsLive path o s h =
      let w = (api.open_path o path s.world).1 in
      elim (Option-cases (api.open_path o path s.world).0) [
        | inl refused ↦ rw refused record {
          live = λ p db found. spec.keeps o path s.world db (h.live p db found);
          own = h.own;
        }
        | inr (new, fine) ↦
            let (unused, used) = spec.opens o path s.world new fine in
            rw fine record {
              live = λ p db found. ground (
                arith,
                found,
                used,
                h.live p db,
                spec.keeps o path s.world db,
                find-assign p path (some new) s.db_buffer,
              );
              own = λ p q db found found'. ground (
                arith,
                found,
                found',
                unused,
                h.own p q db,
                h.live p db,
                h.live q db,
                ==_iff path p,
                ==_iff path q,
                find-assign p path (some new) s.db_buffer,
                find-assign q path (some new) s.db_buffer,
              );
            }
      ]

  deleted-IsLive :
      (path : String) (db : ℕ) (s : Members W)
      → HashMap.find path s.db_buffer ≡ some (some db)
      → IsLive is_open s
      → IsLive is_open
          (record s { db_buffer = HashMap.erase path s.db_buffer; world = api.delete db s.world })
  deleted-IsLive path db s is_there h = record {
    live = λ p q found. ground (
      arith,
      found,
      is_there,
      h.live p q,
      h.own path p db,
      ==_iff path p,
      find-erase p path s.db_buffer,
      spec.deletes db q s.world,
    );
    own = λ p q d found found'. ground (
      arith,
      found,
      found',
      h.own p q d,
      find-erase p path s.db_buffer,
      find-erase q path s.db_buffer,
    );
  }

  pub open_db-IsLive :
      (create exclusive : Bool) (path : String)
      → Preserves (IsLive is_open) (open_db api create exclusive path)
  unfolding open_db
  open_db-IsLive create exclusive path = record {
    at = λ s h. elim (Option-cases (db_at path s)) [
      | inl closed ↦ rw closed (
          opened-IsLive path (options_of api create exclusive (ensure_entry path s))
            (ensure_entry path s) (ensure-IsLive path s h))
      | inr (db, is_there) ↦ rw is_there (ensure-IsLive path s h)
    ];
  }

  pub close_db-IsLive :
      (path : String) (s : Members W) → IsLive is_open s → IsLive is_open (close_db api path s)
  unfolding close_db
  close_db-IsLive path s h = elim (Option-cases (db_at path s)) [
    | inl closed ↦ rw closed (ensure-IsLive path s h)
    | inr (db, is_there) ↦ rw is_there (
        deleted-IsLive path db (ensure_entry path s) (ground (arith, is_there))
          (ensure-IsLive path s h))
  ]
