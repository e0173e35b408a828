-- ===== src/Sqlite3/Table.antt =====
-- The rows of a table of SQLite as the store reads them.
use libklio.Prelude.{◌≡◌, refl, ℕ, zero, suc, ◌<◌, [], ◌∷◌, nat_eq, string_eq, arith, length}
use libklio.Prelude.Int.{ℤ}
use libklio.Exec.{ok}
use libklio.OrdMap
use libklio.Time.{Double, Readings, timestamp_less}
use libklio.Sqlite3.{Api, Members, Pointer, to_int}
use libklio.Sqlite3.ReadingRecords.{read_rows}

-- The readings as they are bound, and as they are read: of a timestamp, the lowest 32 bits.
unfoldable pub as_int : Readings → Readings
unfolding to_int
as_int [] = []
as_int ((t, v) ∷ rest) = (to_int t, v) ∷ as_int rest

-- What SQLite documents of a `SELECT` of two columns, of which the first is an integer: a step goes to
-- the next of the remaining rows, or ends.
pub record IsCursor {W : Type 0} (api : Api W) (remaining : Pointer → W → Readings) : Type 0 where
  pub row :
      (p : Pointer) (t : ℤ) (v : Double) (rest : Readings) (w : W)
      → remaining p w ≡ (t, v) ∷ rest
      → ((api.step p w).0 ≡ 100)
        × (api.column_int p 0 (api.step p w).1 ≡ to_int t)
        × (api.column_double p 1 (api.step p w).1 ≡ v)
        × (remaining p (api.step p w).1 ≡ rest)
  pub ends : (p : Pointer) (w : W) → remaining p w ≡ [] → (api.step p w).0 ≡ 101

module _ {W : Type 0} (api : Api W) (remaining : Pointer → W → Readings)
    (spec : IsCursor api remaining) where
  -- The loop over the rows of a statement ends where the fuel is above the number of the remaining
  -- rows, and returns all of them, with timestamps of 32 bits; a first row wins over a later one with
  -- the same timestamp.
  pub read_rows-remaining :
      (fuel : ℕ) (stmt : Pointer) (readings : Readings) (rest : Readings) (s : Members W)
      → remaining stmt s.world ≡ rest
      → length rest < fuel
      → (w : W) × (read_rows api fuel stmt readings s
          ≡ (ok (OrdMap.insert_all (as_int rest) readings), record s { world = w }))
  unfolding read_rows as_int OrdMap.insert_all
  read_rows-remaining zero stmt readings rest s e h = absurd (ground arith)
  read_rows-remaining (suc fuel) stmt readings [] s e h =
      ((api.step stmt s.world).1, rw (spec.ends stmt s.world e) refl)
  read_rows-remaining (suc fuel) stmt readings ((t, v) ∷ rest) s e h =
      let (code, time, value, later) = spec.row stmt t v rest s.world e in
      let (w, ends) =
        read_rows-remaining fuel stmt (OrdMap.insert (to_int t) v readings) rest
          (record s { world = (api.step stmt s.world).1 }) later (ground arith) in
      (w, rw (code, time, value) ends)
