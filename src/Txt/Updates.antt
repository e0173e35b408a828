-- ===== src/Txt/Updates.antt =====
-- What a later line of a file of readings does to the readings that are read back.
use libklio.Prelude.{
  ◌≡◌, refl, ◌∙◌, Bool, true, String, Option, none, some, List, [], ◌∷◌, string_eq, arith,
  if◌then◌else◌,
}
use libklio.Exec.{ok}
use libklio.OrdMap
use libklio.OrdMap.{Less, find}
use libklio.OrdMap.Laws.{same, find-insert}
use libklio.OrdMap.Union.{first}
use libklio.Time.{Timestamp, Double, Readings}
use libklio.Sensor.{Sensor, Library, uuid_string}
use libklio.Store.{Store}
use libklio.Txt.{
  save_reading, save_readings, update_reading_records, check_sensor, enabled,
  compose_sensor_properties_path, compose_sensor_readings_path,
}
use libklio.Txt.Files.{Disk, Text, IsAppending}
use libklio.Txt.Lines.{LinesByKey, read_lines, read_lines-append, read_line}

-- The tokenizer takes the line of a reading apart into the fields that were written.
abbrev pub Tokenizes : Text → String → Type 0
Tokenizes x separator =
    (t : Timestamp) (v : Double)
    → x.tokenize (save_reading x separator t v)
      ≡ enabled ∷ x.long_to_string t ∷ x.double_to_string v ∷ []

module _ ⦃order : Less String⦄ (x : Text) (separator : String) where
  -- The fields of the first reading whose timestamp has this text.
  abbrev pub saved : String → Readings → Option (List String)
  saved key [] = none
  saved key ((t, v) ∷ rest) =
      if same (x.long_to_string t) key
      then some (enabled ∷ x.long_to_string t ∷ x.double_to_string v ∷ [])
      else saved key rest

  abbrev with_reading : Timestamp → Double → LinesByKey → LinesByKey
  with_reading t v m =
      OrdMap.insert (x.long_to_string t) (enabled ∷ x.long_to_string t ∷ x.double_to_string v ∷ [])
        m

  read_line-saved :
      (t : Timestamp) (v : Double) (m : LinesByKey)
      → Tokenizes x separator
      → read_line (x.tokenize (save_reading x separator t v)) m ≡ some (with_reading t v m)
  unfolding read_line
  read_line-saved t v m h = rw (h t v) refl

  read_lines-saved :
      (readings : Readings) (m : LinesByKey)
      → Tokenizes x separator
      → (m' : LinesByKey) × (read_lines x (save_readings x separator readings) m ≡ some m')
        × ((key : String) → find key m' ≡ first (find key m) (saved key readings))
  unfolding save_readings read_lines
  read_lines-saved [] m h = (m, refl, λ key. ground arith)
  read_lines-saved ((t, v) ∷ rest) m h =
      let (m', e, found) = read_lines-saved rest (with_reading t v m) h in
      (
        m',
        rw (read_line-saved t v m h) e,
        λ key.
            found key
            ∙ ground (
              arith,
              find-insert key (x.long_to_string t)
                  (enabled ∷ x.long_to_string t ∷ x.double_to_string v ∷ []) m,
            ),
      )

module _ {F : Type 0} ⦃order : Less String⦄ (disk : Disk F) (x : Text) (l : Library)
    (path separator : String) where
  -- An update of a sensor that the store of text files has, whose file of readings can be read,
  -- succeeds, but shows a value only for a timestamp without a record: where the file has a record
  -- for the text of the timestamp, this record stays the one that is read.
  pub update_reading_records-read_lines :
      (sensor : Sensor) (readings : Readings) (ignore : Bool) (s : Store F) (m : LinesByKey)
      → IsAppending disk
      → Tokenizes x separator
      → disk.exists (compose_sensor_properties_path path (uuid_string l sensor)) s.db ≡ true
      → (let file = compose_sensor_readings_path path (uuid_string l sensor) in
          read_lines x (disk.lines file s.db) [] ≡ some m)
      → (let file = compose_sensor_readings_path path (uuid_string l sensor) in
          (f : F) × (m' : LinesByKey) × (update_reading_records disk x l path separator sensor
              readings ignore s
            ≡ (ok tt, f))
          × (read_lines x (disk.lines file f) [] ≡ some m')
          × ((key : String) → find key m' ≡ first (find key m) (saved x separator key readings)))
  unfolding update_reading_records check_sensor
  update_reading_records-read_lines sensor readings ignore s m appends tokenizes known readable =
      let file = compose_sensor_readings_path path (uuid_string l sensor) in
      let new = save_readings x separator readings in
      let (m', e, found) = read_lines-saved x separator readings m tokenizes in
      (
        disk.append file new s.db,
        m',
        rw known refl,
        rw
            (
              appends.appended file new s.db,
              read_lines-append x (disk.lines file s.db) new [],
              readable,
            )
            e,
        found,
      )
