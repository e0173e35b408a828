-- ===== src/Json.antt =====
-- libklio/json-exporter.cpp: the readings as an array of pairs. How a stream writes a timestamp and a double
-- are parameters.
use Prim.Native.String.{◌++◌}
use libklio.Prelude.{String, [], ◌∷◌}
use libklio.Time.{Timestamp, Double, Readings}

module _ (show_time : Timestamp → String) (show : Double → String) where
  abbrev pub pair : Timestamp → Double → String
  pair ts1 val1 = "[" ++ (show_time ts1 ++ ("," ++ (show val1 ++ "]")))

  -- The loop; a comma follows every pair but the last.
  unfoldable pub write_pairs : Readings → String
  write_pairs [] = ""
  write_pairs ((ts1, val1) ∷ []) = pair ts1 val1
  write_pairs ((ts1, val1) ∷ next ∷ rest) = pair ts1 val1 ++ ("," ++ write_pairs (next ∷ rest))

  -- JSONExporter::process, of which the name and the description are not used
  unfoldable pub export_json : Readings → String
  unfolding write_pairs
  export_json readings = "[" ++ (write_pairs readings ++ "]\n")
