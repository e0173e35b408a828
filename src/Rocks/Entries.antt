-- ===== src/Rocks/Entries.antt =====
-- The entries of a database of readings of RocksDB, and the readings that the store makes of them.
use libklio.Prelude.{
  ◌≡◌, refl, sym, ap, subst, ◌∙◌, ◌≢◌, inl, inr, Bool-cases, ℕ, Bool, true, Option, none, some,
  String, List, [], ◌∷◌, map, string_eq, nat_eq, arith,
}
use libklio.OrdMap
use libklio.OrdMap.{OrdMap}
use libklio.OrdMap.Laws.{same, find-insert, find-assign}
use libklio.OrdMap.Sorted.{IsSorted, insert-IsSorted, assign-IsSorted}
use libklio.OrdMap.Union.{first, find-cons_sorted, find-nil, IsSorted-tail}
use libklio.OrdMap.Extensional.{same_refl, same-eq, same_lookups}
use libklio.OrdMap.Texts.{text_less}
use libklio.Time.{Timestamp, Double, Readings, timestamp_less}
use libklio.Sensor.{Library}
use libklio.Store.Reliable.{rounded}
use libklio.Rocks.{Api, WriteOptions}
use libklio.Rocks.Records.{collect_entries}

-- What RocksDB documents: an iterator goes over the keys in their order, with the value that was put last.
-- `works` holds of an open database where neither this nor a later write to it fails. A `long` is
-- read back from its text.
pub record IsStoring {W : Type 0} (api : Api W) (works : ℕ → W → Bool) : Type 0 where
  pub writes :
      (o : WriteOptions) (db : ℕ) (batch : List (String × String)) (w : W)
      → works db w ≡ true
      → ((api.write o db batch w).0 ≡ true)
        × (works db (api.write o db batch w).1 ≡ true)
        × (api.entries db (api.write o db batch w).1 ≡ OrdMap.assign_all batch (api.entries db w))
  pub puts :
      (o : WriteOptions) (db : ℕ) (key value : String) (w : W)
      → works db w ≡ true
      → ((api.put o db key value w).0 ≡ true)
        × (works db (api.put o db key value w).1 ≡ true)
        × (api.entries db (api.put o db key value w).1 ≡ OrdMap.assign key value (api.entries db w))
  pub writes_one :
      (o : WriteOptions) (db q : ℕ) (batch : List (String × String)) (w : W)
      → q ≢ db
      → (works q (api.write o db batch w).1 ≡ works q w)
        × (api.entries q (api.write o db batch w).1 ≡ api.entries q w)
  pub puts_one :
      (o : WriteOptions) (db q : ℕ) (key value : String) (w : W)
      → q ≢ db
      → (works q (api.put o db key value w).1 ≡ works q w)
        × (api.entries q (api.put o db key value w).1 ≡ api.entries q w)
  pub times : (t : Timestamp) → api.atol (api.time_to_string t) ≡ t

module _ {W : Type 0} (api : Api W) (l : Library) where
  abbrev pub round_trip : Double → Double
  round_trip v = api.atof (api.double_to_string v)

  -- The keys are texts of timestamps.
  abbrev pub Canonical : OrdMap String String → Type 0
  Canonical [] = Unit
  Canonical ((key, value) ∷ rest) = (api.time_to_string (api.atol key) ≡ key) × Canonical rest

  unfoldable pub readings_of : OrdMap String String → Readings
  unfolding collect_entries
  readings_of entries = collect_entries api l entries []

abbrev value_of : {A B : Type 0} → (A → B) → Option A → Option B
value_of f none = none
value_of f (some a) = some (f a)

module _ {W : Type 0} (api : Api W) (l : Library) (works : ℕ → W → Bool)
    (storing : IsStoring api works) where
  same_text :
      (key : String) (j : Timestamp)
      → api.time_to_string (api.atol key) ≡ key
      → same (api.atol key) j ≡ same key (api.time_to_string j)
  same_text key j plain = elim (Bool-cases (same (api.atol key) j)) [
    | inl equal ↦
        equal
        ∙ sym (
            subst (λ x. same x (api.time_to_string j) ≡ true)
              (ap api.time_to_string (sym (same-eq (api.atol key) j equal)) ∙ plain)
              (same_refl (api.time_to_string j)))
    | inr differs ↦ elim (Bool-cases (same key (api.time_to_string j))) [
      | inl equal ↦ absurd (
          ground (
            arith,
            differs,
            same_refl j,
            ap api.atol (same-eq key (api.time_to_string j) equal) ∙ storing.times j,
          ))
      | inr other ↦ differs ∙ sym other
    ]
  ]

  find-collect_entries :
      (j : Timestamp) (entries : OrdMap String String) (held : Readings)
      → IsSorted entries
      → Canonical api l entries
      → OrdMap.find j (collect_entries api l entries held)
        ≡ first
            (OrdMap.find j held)
            (value_of api.atof (OrdMap.find (api.time_to_string j) entries))
  unfolding collect_entries
  find-collect_entries j [] held s c = ground (arith, find-nil {V = String} (api.time_to_string j))
  find-collect_entries j ((key, value) ∷ rest) held s (plain, c) = ground (
    arith,
    find-collect_entries j rest (OrdMap.insert (api.atol key) (api.atof value) held)
        (IsSorted-tail key rest s) c,
    find-insert j (api.atol key) (api.atof value) held,
    find-cons_sorted (api.time_to_string j) key value rest s,
    same_text key j plain,
  )

  collect-IsSorted :
      (entries : OrdMap String String) (held : Readings)
      → IsSorted held
      → IsSorted (collect_entries api l entries held)
  unfolding collect_entries
  collect-IsSorted [] held s = s
  collect-IsSorted ((key, value) ∷ rest) held s =
      collect-IsSorted rest _ (insert-IsSorted (api.atol key) (api.atof value) held s)

  pub assign-Canonical :
      (t : Timestamp) (value : String) (entries : OrdMap String String)
      → Canonical api l entries
      → Canonical api l (OrdMap.assign (api.time_to_string t) value entries)
  unfolding OrdMap.assign
  assign-Canonical t value [] c = (ap api.time_to_string (storing.times t), tt)
  assign-Canonical t value ((key, old) ∷ rest) (plain, c) =
      ground
        (arith, plain, c, assign-Canonical t value rest c, ap api.time_to_string (storing.times t))

  -- A value that is put at the text of its timestamp is the reading there.
  pub readings_of-assign :
      (t : Timestamp) (v : Double) (entries : OrdMap String String)
      → IsSorted entries
      → Canonical api l entries
      → readings_of api l (OrdMap.assign (api.time_to_string t) (api.double_to_string v) entries)
        ≡ OrdMap.assign t (round_trip api l v) (readings_of api l entries)
  unfolding readings_of
  readings_of-assign t v entries s c =
      let key = api.time_to_string t in
      let value = api.double_to_string v in
      let s' = assign-IsSorted key value entries s in
      let c' = assign-Canonical t value entries c in
      same_lookups _ _ (collect-IsSorted (OrdMap.assign key value entries) [] tt)
        (assign-IsSorted t (api.atof value) _ (collect-IsSorted entries [] tt))
        λ j. ground (
          arith,
          find-collect_entries j (OrdMap.assign key value entries) [] s' c',
          find-collect_entries j entries [] s c,
          find-assign (api.time_to_string j) key value entries,
          find-assign j t (api.atof value) (collect_entries api l entries []),
          find-nil {V = Double} j,
          same_text key j (ap api.time_to_string (storing.times t)),
          storing.times t,
        )

  abbrev pub put_in_batch : Timestamp × Double → String × String
  put_in_batch (t, v) = (api.time_to_string t, api.double_to_string v)

  pub readings_of-assign_all :
      (readings : Readings) (entries : OrdMap String String)
      → IsSorted entries
      → Canonical api l entries
      → (let written = OrdMap.assign_all (map put_in_batch readings) entries in
          (readings_of api l written
            ≡ OrdMap.assign_all (rounded (round_trip api l) readings) (readings_of api l entries))
          × IsSorted written
          × Canonical api l written)
  unfolding OrdMap.assign_all
  readings_of-assign_all [] entries s c = (refl, s, c)
  readings_of-assign_all ((t, v) ∷ rest) entries s c =
      let one = readings_of-assign t v entries s c in
      let (all, s', c') =
        readings_of-assign_all rest
          (OrdMap.assign (api.time_to_string t) (api.double_to_string v) entries)
          (assign-IsSorted (api.time_to_string t) (api.double_to_string v) entries s)
          (assign-Canonical t (api.double_to_string v) entries c) in
      (all ∙ ap (OrdMap.assign_all (rounded (round_trip api l) rest)) one, s', c')
