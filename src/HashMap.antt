-- ===== src/HashMap.antt =====
-- `boost::unordered_map`: its entries in the order in which an iteration meets them, which the
-- library leaves open. No theorem fixes that order.
use libklio.Prelude.{
  ◌≡◌, refl, Bool, Option, none, some, List, [], ◌∷◌, arith, Eq, ◌==◌, ==_iff, ==_refl, is_some,
  if◌then◌else◌,
}

abbrev pub HashMap {ℓ κ} : Type ℓ → Type κ → Type (ℓ ⊔ κ)
HashMap K V = List (K × V)

module _ {ℓ κ} {K : Type ℓ} {V : Type κ} ⦃e : Eq K⦄ where
  unfoldable pub find : K → HashMap K V → Option V
  find k [] = none
  find k ((j, v) ∷ m) = if j == k then some v else find k m

  -- `count(k) > 0`
  abbrev pub contains : K → HashMap K V → Bool
  contains k m = is_some (find k m)

  -- `m[k] = v`
  unfoldable pub assign : K → V → HashMap K V → HashMap K V
  assign k v [] = (k, v) ∷ []
  assign k v ((j, w) ∷ m) = if j == k then (k, v) ∷ m else (j, w) ∷ assign k v m

  -- `m.erase(k)`
  unfoldable pub erase : K → HashMap K V → HashMap K V
  erase k [] = []
  erase k ((j, w) ∷ m) = let rest = erase k m in if j == k then rest else (j, w) ∷ rest

  pub find-nil : (k : K) → find k [] ≡ none
  unfolding find
  find-nil k = refl

  pub find-assign :
      (j k : K) (v : V) (m : HashMap K V)
      → find j (assign k v m) ≡ (if k == j then some v else find j m)
  unfolding find assign
  find-assign j k v [] = refl
  find-assign j k v ((i, w) ∷ m) =
      ground (arith, ==_iff k j, ==_iff i k, ==_iff i j, find-assign j k v m)

  pub find-assign_self : (k : K) (v : V) (m : HashMap K V) → find k (assign k v m) ≡ some v
  find-assign_self k v m = rw (find-assign, ==_refl k)

  pub find-erase :
      (j k : K) (m : HashMap K V) → find j (erase k m) ≡ (if k == j then none else find j m)
  unfolding find erase
  find-erase j k [] = ground arith
  find-erase j k ((i, w) ∷ m) = ground (arith, ==_iff k j, ==_iff i k, ==_iff i j, find-erase j k m)

pub ruleset hash_laws = (find-nil, find-assign, find-erase)
