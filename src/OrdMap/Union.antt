-- ===== src/OrdMap/Union.antt =====
-- What a lookup finds after a loop of writes.
use libklio.Prelude.{◌≡◌, refl, false, Option, none, some, [], ◌∷◌, arith, if◌then◌else◌}
use libklio.OrdMap.{Less, OrdMap, find, insert, assign, insert_all, assign_all}
use libklio.OrdMap.Laws.{same, find-insert, find-assign, lt_asymm}
use libklio.OrdMap.Sorted.{Above, IsSorted}

-- The first value that there is.
abbrev pub first {κ} : {V : Type κ} → Option V → Option V → Option V
first none b = b
first (some a) b = some a

module _ {ℓ κ} {K : Type ℓ} {V : Type κ} ⦃o : Less K⦄ where
  pub IsSorted-tail : (k : K) (r : OrdMap K V) → Above k r → IsSorted r
  IsSorted-tail k [] s = tt
  IsSorted-tail k ((i, w) ∷ r) s = s.1

  pub find_below : (j k : K) (r : OrdMap K V) → Above k r → o.lt k j ≡ false → find j r ≡ none
  unfolding find
  find_below j k [] s h = refl
  find_below j k ((i, w) ∷ r) s h = ground (arith, o.lt_trans j k i, o.lt_total k j, o.lt_total j k)

  find-cons :
      (j k : K) (v : V) (r : OrdMap K V)
      → find j ((k, v) ∷ r) ≡ (if o.lt j k then none else if o.lt k j then find j r else some v)
  unfolding find
  find-cons j k v r = refl

  -- A lookup behind a sorted map: below its first key there is nothing.
  pub find-cons_sorted :
      (j k : K) (v : V) (r : OrdMap K V)
      → Above k r
      → find j ((k, v) ∷ r) ≡ (if same k j then some v else find j r)
  find-cons_sorted j k v r s = ground (arith, find-cons j k v r, find_below j k r s, lt_asymm j k)

  pub find-nil : (j : K) → find {V = V} j [] ≡ none
  unfolding find
  find-nil j = refl

  pub find-insert_all :
      (j : K) (r m : OrdMap K V)
      → IsSorted r
      → find j (insert_all r m) ≡ first (find j m) (find j r)
  unfolding insert_all
  find-insert_all j [] m s = ground (arith, find-nil j)
  find-insert_all j ((k, v) ∷ r) m s = ground (
    arith,
    find-insert_all j r (insert k v m) (IsSorted-tail k r s),
    find-insert j k v m,
    find-cons_sorted j k v r s,
    find_below j k r s,
    o.lt_total k j,
  )

  pub find-assign_all :
      (j : K) (r m : OrdMap K V)
      → IsSorted r
      → find j (assign_all r m) ≡ first (find j r) (find j m)
  unfolding assign_all
  find-assign_all j [] m s = ground (arith, find-nil j)
  find-assign_all j ((k, v) ∷ r) m s = ground (
    arith,
    find-assign_all j r (assign k v m) (IsSorted-tail k r s),
    find-assign j k v m,
    find-cons_sorted j k v r s,
    find_below j k r s,
    o.lt_total k j,
  )
