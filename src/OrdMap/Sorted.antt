-- ===== src/OrdMap/Sorted.antt =====
-- The entries of a `std::map` stand in strict order of their keys.
use libklio.Prelude.{◌≡◌, refl, sym, subst, ◌∙◌, true, [], ◌∷◌, ◌++◌, arith}
use mathlib.Core.List.{append-nil, append_assoc}
use libklio.OrdMap.{Less, OrdMap, insert, assign, insert_all, assign_all}
use libklio.OrdMap.Laws.{lt_asymm}

module _ {ℓ κ} {K : Type ℓ} {V : Type κ} ⦃o : Less K⦄ where
  -- The keys rise strictly from above `b` on.
  abbrev pub Above : K → OrdMap K V → Type 0
  Above b [] = Unit
  Above b ((k, v) ∷ m) = (o.lt b k ≡ true) × Above k m

  abbrev pub IsSorted : OrdMap K V → Type 0
  IsSorted [] = Unit
  IsSorted ((k, v) ∷ m) = Above k m

  insert-Above :
      (b k : K) (v : V) (m : OrdMap K V) → o.lt b k ≡ true → Above b m → Above b (insert k v m)
  unfolding insert
  insert-Above b k v [] h s = (h, tt)
  insert-Above b k v ((j, w) ∷ m) h s = ground (arith, insert-Above j k v m)

  assign-Above :
      (b k : K) (v : V) (m : OrdMap K V) → o.lt b k ≡ true → Above b m → Above b (assign k v m)
  unfolding assign
  assign-Above b k v [] h s = (h, tt)
  assign-Above b k v ((j, w) ∷ m) h s = ground (arith, assign-Above j k v m)

  pub insert-IsSorted : (k : K) (v : V) (m : OrdMap K V) → IsSorted m → IsSorted (insert k v m)
  unfolding insert
  insert-IsSorted k v [] s = tt
  insert-IsSorted k v ((j, w) ∷ m) s = ground (arith, insert-Above j k v m)

  pub assign-IsSorted : (k : K) (v : V) (m : OrdMap K V) → IsSorted m → IsSorted (assign k v m)
  unfolding assign
  assign-IsSorted k v [] s = tt
  assign-IsSorted k v ((j, w) ∷ m) s = ground (arith, assign-Above j k v m)

  pub insert_all-IsSorted : (r m : OrdMap K V) → IsSorted m → IsSorted (insert_all r m)
  unfolding insert_all
  insert_all-IsSorted [] m s = s
  insert_all-IsSorted ((k, v) ∷ r) m s =
      insert_all-IsSorted r (insert k v m) (insert-IsSorted k v m s)

  pub assign_all-IsSorted : (r m : OrdMap K V) → IsSorted m → IsSorted (assign_all r m)
  unfolding assign_all
  assign_all-IsSorted [] m s = s
  assign_all-IsSorted ((k, v) ∷ r) m s =
      assign_all-IsSorted r (assign k v m) (assign-IsSorted k v m s)

  lt_of_Above : (b k : K) (v : V) (m r : OrdMap K V) → Above b (m ++ (k, v) ∷ r) → o.lt b k ≡ true
  lt_of_Above b k v [] r s = s.0
  lt_of_Above b k v ((j, w) ∷ m) r s = o.lt_trans b j k s.0 (lt_of_Above j k v m r s.1)

  insert_after :
      (b k : K) (v : V) (m r : OrdMap K V)
      → Above b (m ++ (k, v) ∷ r)
      → insert k v m ≡ m ++ (k, v) ∷ []
  unfolding insert
  insert_after b k v [] r s = refl
  insert_after b k v ((j, w) ∷ m) r s =
      let below = lt_of_Above j k v m r s.1 in
      let rest = insert_after j k v m r s.1 in ground (arith, lt_asymm j k)

  -- Entries that come in order are put behind one another.
  pub insert_last :
      (k : K) (v : V) (m r : OrdMap K V)
      → IsSorted (m ++ (k, v) ∷ r)
      → insert k v m ≡ m ++ (k, v) ∷ []
  unfolding insert
  insert_last k v [] r s = refl
  insert_last k v ((j, w) ∷ m) r s =
      let below = lt_of_Above j k v m r s in
      let rest = insert_after j k v m r s in ground (arith, lt_asymm j k)

  Above-drop : (b : K) (m r : OrdMap K V) → Above b (m ++ r) → IsSorted r
  Above-drop b [] [] s = tt
  Above-drop b [] ((k, v) ∷ r) s = s.1
  Above-drop b ((k, v) ∷ m) r s = Above-drop k m r s.1

  -- What follows the first entries of a sorted map is sorted.
  pub IsSorted-append_right : (m r : OrdMap K V) → IsSorted (m ++ r) → IsSorted r
  IsSorted-append_right [] r s = s
  IsSorted-append_right ((k, v) ∷ m) r s = Above-drop k m r s

  pub insert_all-append :
      (q r m : OrdMap K V) → insert_all (q ++ r) m ≡ insert_all r (insert_all q m)
  unfolding insert_all
  insert_all-append [] r m = refl
  insert_all-append ((k, v) ∷ q) r m = insert_all-append q r (insert k v m)

  pub assign_all-append :
      (q r m : OrdMap K V) → assign_all (q ++ r) m ≡ assign_all r (assign_all q m)
  unfolding assign_all
  assign_all-append [] r m = refl
  assign_all-append ((k, v) ∷ q) r m = assign_all-append q r (assign k v m)

  insert_all_onto : (m r : OrdMap K V) → IsSorted (m ++ r) → insert_all r m ≡ m ++ r
  unfolding insert_all
  insert_all_onto m [] s = simp append-nil
  insert_all_onto m ((k, v) ∷ r) s =
      let regroup = append_assoc m ((k, v) ∷ []) r in
      rw (insert_last k v m r s)
        (insert_all_onto (m ++ (k, v) ∷ []) r (subst IsSorted (sym regroup) s) ∙ regroup)

  -- A copy of a sorted map is the map.
  pub insert_all_copy : (r : OrdMap K V) → IsSorted r → insert_all r [] ≡ r
  insert_all_copy r s = insert_all_onto [] r s
