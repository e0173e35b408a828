-- ===== src/OrdMap/Laws.antt =====
-- What a lookup in a `std::map` finds after a write.
use libklio.Prelude.{◌≡◌, Bool, true, false, Option, none, some, [], ◌∷◌, arith, if◌then◌else◌}
use libklio.OrdMap.{Less, OrdMap, find, insert, assign}

-- `a` and `b` are equivalent under the order.
abbrev pub same {ℓ} : {K : Type ℓ} ⦃o : Less K⦄ → K → K → Bool
same ⦃o⦄ a b = if o.lt a b then false else if o.lt b a then false else true

abbrev pub or_else {κ} : {V : Type κ} → Option V → V → V
or_else none v = v
or_else (some w) v = w

pub lt_asymm {ℓ} : {K : Type ℓ} ⦃o : Less K⦄ (a b : K) → o.lt a b ≡ true → o.lt b a ≡ false
lt_asymm ⦃o⦄ a b h = ground (arith, o.lt_trans a b a, o.lt_irrefl a)

module _ {ℓ κ} {K : Type ℓ} {V : Type κ} ⦃o : Less K⦄ where
  pub find-assign :
      (j k : K) (v : V) (m : OrdMap K V)
      → find j (assign k v m) ≡ (if same k j then some v else find j m)
  unfolding find assign
  find-assign j k v [] = ground arith
  find-assign j k v ((i, w) ∷ m) = ground (
    arith,
    find-assign j k v m,
    o.lt_trans j k i,
    o.lt_trans k j i,
    o.lt_trans k i j,
    o.lt_trans i j k,
    o.lt_trans i k j,
    o.lt_trans j i k,
    o.lt_total i k,
    o.lt_total k j,
    o.lt_total i j,
    o.lt_irrefl i,
    o.lt_irrefl j,
    o.lt_irrefl k,
  )

  pub find-insert :
      (j k : K) (v : V) (m : OrdMap K V)
      → find j (insert k v m) ≡ (if same k j then some (or_else (find j m) v) else find j m)
  unfolding find insert
  find-insert j k v [] = ground arith
  find-insert j k v ((i, w) ∷ m) = ground (
    arith,
    find-insert j k v m,
    o.lt_trans j k i,
    o.lt_trans k j i,
    o.lt_trans k i j,
    o.lt_trans i j k,
    o.lt_trans i k j,
    o.lt_trans j i k,
    o.lt_total i k,
    o.lt_total k j,
    o.lt_total i j,
    o.lt_irrefl i,
    o.lt_irrefl j,
    o.lt_irrefl k,
  )
