-- ===== src/Sqlite3/Integrity.antt =====
-- libklio/sqlite3/sqlite3-store.cpp: the check of the file and of the version of the database.
use libklio.Prelude.{
  ◌≡◌, ◌↔◌, Bool, false, ◌&&◌, ◌||◌, not, Option, none, some, String, List, ◌∷◌, ◌==◌, ==_iff,
  arith, nat_eq, string_eq, if◌then◌else◌,
}
use libklio.Exec.{
  Exec, Result, ok, err, pure, throw, modify, ◌>>=◌, ◌>>◌, catching, finally, std_exception,
  store_exception, undefined_behaviour,
}
use libklio.OrdMap.Texts.{text_less}
use libklio.Sqlite3.{Api, Members, Pointer, sqlite_row, finalize, prepare_statement, execute}
use libklio.Sqlite3.Schema.{has_table, in_try}

-- The checkup results; `other` is any other text, with which the check fails too.
pub data Verdict : Type 0 where
  intact old_db old_klio corrupt_db other : Verdict

abbrev pub is_older : String → String → String → String → Bool
is_older a b c d = text_less.lt a c || a == c && text_less.lt b d

-- The comparison of two versions, of which the first two digits count; `none` is std::out_of_range.
unfoldable pub compare_versions : List String → List String → Option Verdict
unfolding text_less
compare_versions (db0 ∷ db1 ∷ db_rest) (klio0 ∷ klio1 ∷ klio_rest) =
    if is_older klio0 klio1 db0 db1
    then some old_klio
    else if is_older db0 db1 klio0 klio1
    then some old_db
    else some intact
compare_versions db klio = none

module _ {W : Type 0} (api : Api W) (split : String → List String) (version : String) where
  abbrev row_text : Pointer → Exec (Members W) String
  row_text stmt s = elim (api.column_text stmt 0 s.world) [
    | none ↦ (err undefined_behaviour, s)
    | some text ↦ (ok text, s)
  ]

  -- The first column of the first row of a statement of its own.
  abbrev read_text : String → Exec (Members W) String
  read_text sql = do
    stmt ← in_try api (finalize api 0) (prepare_statement api sql)
    finally (execute api stmt sqlite_row >> row_text stmt) (finalize api stmt)

  -- A call that throws while no statement is prepared.
  abbrev outside : {A : Type 0} → Exec (Members W) A → Exec (Members W) A
  outside f = in_try api (finalize api 0) f

  abbrev or_out_of_range : Option Verdict → Exec (Members W) Verdict
  or_out_of_range none = throw std_exception
  or_out_of_range (some verdict) = pure verdict

  abbrev check_version : Exec (Members W) Verdict
  check_version = do
    db_version ← read_text "SELECT value FROM properties WHERE name = 'version'"
    outside (or_out_of_range (compare_versions (split db_version) (split version)))

  -- `has_table("sensors") && has_table("properties")`
  abbrev has_tables : Exec (Members W) Bool
  has_tables = do
    sensors ← has_table api "sensors"
    if sensors then has_table api "properties" else pure false

  abbrev check_database : Exec (Members W) Verdict
  check_database = do
    result ← read_text "PRAGMA integrity_check;"
    if result == "ok"
        then (do complete ← outside has_tables; if complete then check_version else pure old_db)
        else pure corrupt_db

  abbrev asked : {A : Type 0} → (String → W → Result A) → Exec (Members W) A
  asked f = outside λ s. (f s.path s.world, s)

  -- The `try` block.
  abbrev check_file : Exec (Members W) Verdict
  check_file = do
    exists ← asked api.exists
    if not exists then pure other else (do
      is_directory ← asked api.is_directory
      if is_directory then pure other else (do
        is_regular_file ← asked api.is_regular_file
        if not is_regular_file
            then pure other
            else (do size ← asked api.file_size; if size == 0 then pure other else check_database)))

  unfoldable pub verdict : Exec (Members W) Verdict
  unfolding compare_versions has_table execute prepare_statement
  verdict = catching check_file λ e. pure other

  abbrev conclude : Verdict → Exec (Members W) Unit
  conclude intact = pure tt
  conclude old_db = throw store_exception
  conclude old_klio = throw store_exception
  conclude corrupt_db = throw store_exception
  conclude other = throw store_exception

  unfoldable pub check_integrity : Exec (Members W) Unit
  unfolding verdict
  check_integrity = do v ← verdict; modify (finalize api 0); conclude v

-- A version is taken for current exactly where its first two digits are those of the library, as
-- texts.
pub compare_versions-intact :
    (a b c d : String) (r q : List String)
    → (compare_versions (a ∷ b ∷ r) (c ∷ d ∷ q) ≡ some intact) ↔ ((a ≡ c) × (b ≡ d))
unfolding compare_versions
compare_versions-intact a b c d r q = ground (
  arith,
  text_less.lt_irrefl a,
  text_less.lt_irrefl b,
  text_less.lt_irrefl c,
  text_less.lt_irrefl d,
  text_less.lt_total a c,
  text_less.lt_total b d,
  ==_iff a c,
  ==_iff c a,
)
