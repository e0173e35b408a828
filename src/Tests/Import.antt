-- ===== src/Tests/Import.antt =====
-- An instance for Csv.
use libklio.Prelude.{
  ◌≡◌, refl, String, Option, none, some, List, [], ◌∷◌, ◌==◌, string_eq, if◌then◌else◌,
}
use libklio.Prelude.Int.{pos}
use libklio.Time.{Timestamp, Double, timestamp_less}
use libklio.Txt.Files.{Text}
use libklio.Csv.{import_lines}
use libklio.Csv.Skipped.{IsSkipped, Describes, import_lines-Describes}

abbrev tokens_of : String → List String
tokens_of line =
    if line == "10;4"
    then "10" ∷ "4" ∷ []
    else if line == "20;5"
    then "20" ∷ "5" ∷ []
    else line ∷ []

abbrev time_of : String → Option Timestamp
time_of text = if text == "10" then some (pos 10) else if text == "20" then some (pos 20) else none

abbrev value_of : String → Option Double
value_of text = if text == "4" then some 4 else if text == "5" then some 5 else none

abbrev semicolons : Text
semicolons = record {
  tokenize = tokens_of;
  long_to_string = λ t. "";
  double_to_string = λ v. "";
  long_of_string = time_of;
  double_of_string = value_of;
  to_lower = λ text. text;
  contains = λ text part. text == part;
}

abbrev table : List String
table = "time;value of the kitchen" ∷ "10;4" ∷ "" ∷ "20;5" ∷ []

table-Describes : Describes semicolons (λ text. text) table ((pos 10, 4) ∷ (pos 20, 5) ∷ [])
table-Describes = Describes.skips (IsSkipped.one_column "time;value of the kitchen" refl) (
    Describes.holds
      (record {
        filled = refl;
        column1 = "10";
        column2 = "4";
        others = [];
        tokens = refl;
        number = refl;
        time = refl;
        value = refl;
      })
      (Describes.skips (IsSkipped.is_empty refl) (
        Describes.holds
          (record {
            filled = refl;
            column1 = "20";
            column2 = "5";
            others = [];
            tokens = refl;
            number = refl;
            time = refl;
            value = refl;
          })
          Describes.ends)))

import_lines-Describes_example :
    import_lines semicolons (λ text. text) table [] ≡ (pos 10, 4) ∷ (pos 20, 5) ∷ []
unfolding timestamp_less
import_lines-Describes_example =
    import_lines-Describes semicolons (λ text. text) table ((pos 10, 4) ∷ (pos 20, 5) ∷ [])
      table-Describes (refl, tt)
