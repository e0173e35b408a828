-- ===== src/OrdMap.antt =====
-- `std::map`: its entries in the order of their keys. The order is an interface.
pub mod Extensional
pub mod Laws
pub mod Sorted
pub mod Union
pub mod Texts
use libklio.Prelude.{◌≡◌, Bool, true, false, Option, none, some, List, [], ◌∷◌, if◌then◌else◌}

-- `std::less`, a strict total order.
pub record Less {ℓ} (K : Type ℓ) : Type ℓ where
  pub lt : K → K → Bool
  pub lt_irrefl : (a : K) → lt a a ≡ false
  pub lt_trans : (a b c : K) → lt a b ≡ true → lt b c ≡ true → lt a c ≡ true
  pub lt_total : (a b : K) → lt a b ≡ false → lt b a ≡ false → a ≡ b

abbrev pub OrdMap {ℓ κ} : Type ℓ → Type κ → Type (ℓ ⊔ κ)
OrdMap K V = List (K × V)

module _ {ℓ κ} {K : Type ℓ} {V : Type κ} ⦃o : Less K⦄ where
  unfoldable pub find : K → OrdMap K V → Option V
  find k [] = none
  find k ((j, v) ∷ m) = if o.lt k j then none else if o.lt j k then find k m else some v

  -- `m.insert(pair(k, v))`: a key that is there keeps its value.
  unfoldable pub insert : K → V → OrdMap K V → OrdMap K V
  insert k v [] = (k, v) ∷ []
  insert k v ((j, w) ∷ m) =
      if o.lt k j
      then (k, v) ∷ (j, w) ∷ m
      else if o.lt j k
      then (j, w) ∷ insert k v m
      else (j, w) ∷ m

  -- `m[k] = v`
  unfoldable pub assign : K → V → OrdMap K V → OrdMap K V
  assign k v [] = (k, v) ∷ []
  assign k v ((j, w) ∷ m) =
      if o.lt k j
      then (k, v) ∷ (j, w) ∷ m
      else if o.lt j k
      then (j, w) ∷ assign k v m
      else (j, v) ∷ m

  -- A loop of `insert` or of `m[k] = v` over the entries of another.
  unfoldable pub insert_all : OrdMap K V → OrdMap K V → OrdMap K V
  insert_all [] m = m
  insert_all ((k, v) ∷ r) m = insert_all r (insert k v m)

  unfoldable pub assign_all : OrdMap K V → OrdMap K V → OrdMap K V
  assign_all [] m = m
  assign_all ((k, v) ∷ r) m = assign_all r (assign k v m)
