-- ===== src/Csv.antt =====
-- libklio/csv-importer.cpp: readings from the lines of a stream. The tokenizer and the conversions of
-- Boost are parameters.
pub mod Skipped
use libklio.Prelude.{
  Bool, String, Option, none, some, List, [], ◌∷◌, ◌==◌, string_eq, if◌then◌else◌,
}
use libklio.OrdMap
use libklio.Time.{Timestamp, Double, Readings, timestamp_less, convert_from_epoch}
use libklio.Txt.Files.{Text}

-- `with_point` replaces the first comma of a text by a point.
module _ (x : Text) (with_point : String → String) where
  -- `none` is `bad_lexical_cast`, which is ignored.
  abbrev pub enter : Option Timestamp → Option Double → Readings → Readings
  enter none v readings = readings
  enter (some t) none readings = readings
  enter (some t) (some v) readings = OrdMap.insert (convert_from_epoch t) v readings

  abbrev pub import_record : List String → Readings → Readings
  import_record [] readings = readings
  import_record (column1 ∷ []) readings = readings
  import_record (column1 ∷ column2 ∷ rest) readings =
      if x.contains (x.to_lower column2) "nan"
      then readings
      else enter (x.long_of_string column1) (x.double_of_string (with_point (x.to_lower column2)))
          readings

  abbrev pub import_line : String → Readings → Readings
  import_line line readings =
      if line == "" then readings else import_record (x.tokenize line) readings

  -- The loop over the lines; the import starts from no readings.
  unfoldable pub import_lines : List String → Readings → Readings
  import_lines [] readings = readings
  import_lines (line ∷ rest) readings = import_lines rest (import_line line readings)
