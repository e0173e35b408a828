-- ===== src/Txt/Lines.antt =====
-- libklio/txt/txt-store.cpp: the loop of `read_records` over the lines of a file.
use libklio.Prelude.{
  ◌≡◌, refl, String, Option-cases, inl, inr, Option, none, some, List, [], ◌∷◌, ◌++◌, ◌==◌,
  string_eq, if◌then◌else◌,
}
use libklio.OrdMap
use libklio.OrdMap.{Less, OrdMap}
use libklio.Txt.Files.{Text}

-- The fields of the records by their second field.
abbrev pub LinesByKey : Type 0
LinesByKey = OrdMap String (List String)

module _ ⦃order : Less String⦄ where
  -- `lines.erase(key)`
  unfoldable pub erase : String → LinesByKey → LinesByKey
  erase key [] = []
  erase key ((j, r) ∷ m) =
      let rest = erase key m in
      if order.lt key j then (j, r) ∷ m else if order.lt j key then (j, r) ∷ rest else m

  -- One line, from its tokens: `none` is an exception, for a line of one token.
  unfoldable pub read_line : List String → LinesByKey → Option LinesByKey
  unfolding OrdMap.insert erase
  read_line [] lines = some lines
  read_line (status ∷ []) lines = none
  read_line (status ∷ key ∷ rest) lines =
      some
        (if status == "1" then OrdMap.insert key (status ∷ key ∷ rest) lines else erase key lines)

module _ ⦃order : Less String⦄ (x : Text) where
  abbrev pub go_on : (LinesByKey → Option LinesByKey) → Option LinesByKey → Option LinesByKey
  go_on next none = none
  go_on next (some lines) = next lines

  unfoldable pub read_lines : List String → LinesByKey → Option LinesByKey
  unfolding read_line
  read_lines [] lines = some lines
  read_lines (line ∷ rest) lines = go_on (read_lines rest) (read_line (x.tokenize line) lines)

  pub read_lines-append :
      (old new : List String) (lines : LinesByKey)
      → read_lines (old ++ new) lines ≡ go_on (read_lines new) (read_lines old lines)
  unfolding read_lines
  read_lines-append [] new lines = refl
  read_lines-append (line ∷ old) new lines =
      elim (Option-cases (read_line (x.tokenize line) lines)) [
        | inl e ↦ rw e refl
        | inr (m, e) ↦ rw e (read_lines-append old new m)
      ]
