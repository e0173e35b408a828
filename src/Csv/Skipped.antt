-- ===== src/Csv/Skipped.antt =====
-- Lines that the import passes over, and lines that it reads.
use libklio.Prelude.{
  ◌≡◌, refl, ◌∙◌, true, false, String, none, some, List, [], ◌∷◌, ◌==◌, string_eq, arith,
}
use libklio.OrdMap
use libklio.OrdMap.Sorted.{IsSorted, insert_all_copy}
use libklio.Time.{Timestamp, Double, Readings, timestamp_less}
use libklio.Txt.Files.{Text}
use libklio.Csv.{import_lines, import_line}

-- Why a line gives no reading.
pub data IsSkipped (x : Text) (with_point : String → String) (line : String) : Type 0 where
  is_empty : (line == "") ≡ true → IsSkipped x with_point line
  no_column : x.tokenize line ≡ [] → IsSkipped x with_point line
  one_column : (a : String) → x.tokenize line ≡ a ∷ [] → IsSkipped x with_point line
  is_nan :
      (a b : String) (rest : List String)
      → x.tokenize line ≡ a ∷ b ∷ rest
      → x.contains (x.to_lower b) "nan" ≡ true
      → IsSkipped x with_point line
  no_time :
      (a b : String) (rest : List String)
      → x.tokenize line ≡ a ∷ b ∷ rest
      → x.long_of_string a ≡ none
      → IsSkipped x with_point line
  no_value :
      (a b : String) (rest : List String)
      → x.tokenize line ≡ a ∷ b ∷ rest
      → x.double_of_string (with_point (x.to_lower b)) ≡ none
      → IsSkipped x with_point line

-- A line that holds the reading.
pub record Holds (x : Text) (with_point : String → String) (line : String) (t : Timestamp)
    (v : Double) : Type 0 where
  pub filled : (line == "") ≡ false
  pub column1 : String
  pub column2 : String
  pub others : List String
  pub tokens : x.tokenize line ≡ column1 ∷ column2 ∷ others
  pub number : x.contains (x.to_lower column2) "nan" ≡ false
  pub time : x.long_of_string column1 ≡ some t
  pub value : x.double_of_string (with_point (x.to_lower column2)) ≡ some v

-- Lines of a file: those of the readings, in their order, with skipped lines between them.
pub data Describes (x : Text) (with_point : String → String) : List String → Readings → Type 0 where
  ends : Describes x with_point [] []
  skips :
      {line : String} {lines : List String} {readings : Readings}
      → IsSkipped x with_point line
      → Describes x with_point lines readings
      → Describes x with_point (line ∷ lines) readings
  holds :
      {line : String} {lines : List String} {t : Timestamp} {v : Double} {readings : Readings}
      → Holds x with_point line t v
      → Describes x with_point lines readings
      → Describes x with_point (line ∷ lines) ((t, v) ∷ readings)

module _ (x : Text) (with_point : String → String) where
  import_line-skipped :
      (line : String) (readings : Readings)
      → IsSkipped x with_point line
      → import_line x with_point line readings ≡ readings
  import_line-skipped line readings (is_empty e) = ground (arith, e)
  import_line-skipped line readings (no_column e) = ground (arith, e)
  import_line-skipped line readings (one_column a e) = ground (arith, e)
  import_line-skipped line readings (is_nan a b rest e n) = ground (arith, e, n)
  import_line-skipped line readings (no_time a b rest e n) = ground (arith, e, n)
  import_line-skipped line readings (no_value a b rest e n) = ground (arith, e, n)

  import_line-held :
      (line : String) (t : Timestamp) (v : Double) (readings : Readings)
      → Holds x with_point line t v
      → import_line x with_point line readings ≡ OrdMap.insert t v readings
  import_line-held line t v readings h = rw (h.filled, h.tokens, h.number, h.time, h.value) refl

  import_lines-all :
      (lines : List String) (readings held : Readings)
      → Describes x with_point lines readings
      → import_lines x with_point lines held ≡ OrdMap.insert_all readings held
  unfolding import_lines OrdMap.insert_all
  import_lines-all lines readings held ends = refl
  import_lines-all (line ∷ lines) readings held (skips s d) =
      rw (import_line-skipped line held s) (import_lines-all lines readings held d)
  import_lines-all (line ∷ lines) ((t, v) ∷ readings) held (holds h d) =
      rw (import_line-held line t v held h)
        (import_lines-all lines readings (OrdMap.insert t v held) d)

  -- An import of lines that hold readings in the order of their times, with lines between them that
  -- hold none, gives exactly these readings.
  pub import_lines-Describes :
      (lines : List String) (readings : Readings)
      → Describes x with_point lines readings
      → IsSorted readings
      → import_lines x with_point lines [] ≡ readings
  import_lines-Describes lines readings d s =
      import_lines-all lines readings [] d ∙ insert_all_copy readings s
