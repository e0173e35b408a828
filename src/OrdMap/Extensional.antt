-- ===== src/OrdMap/Extensional.antt =====
-- Two maps in which every lookup finds the same are equal.
use libklio.Prelude.{
  ◌≡◌, refl, sym, subst, ◌∙◌, ap, true, Option, none, some, [], ◌∷◌, arith, Bool-cases, inl, inr,
}
use libklio.OrdMap.{Less, OrdMap, find}
use libklio.OrdMap.Laws.{same}
use libklio.OrdMap.Sorted.{Above, IsSorted}
use libklio.OrdMap.Union.{IsSorted-tail, find-cons_sorted, find_below, find-nil}

module _ {ℓ} {K : Type ℓ} ⦃o : Less K⦄ where
  pub same_refl : (k : K) → same k k ≡ true
  same_refl k = ground (arith, o.lt_irrefl k)

  pub same-eq : (a b : K) → same a b ≡ true → a ≡ b
  same-eq a b h = o.lt_total a b (ground (arith, h)) (ground (arith, h))

abbrev from_some {κ} : {V : Type κ} → V → Option V → V
from_some d none = d
from_some d (some v) = v

module _ {ℓ κ} {K : Type ℓ} {V : Type κ} ⦃o : Less K⦄ where
  find_head : (k : K) (v : V) (r : OrdMap K V) → Above k r → find k ((k, v) ∷ r) ≡ some v
  find_head k v r s = find-cons_sorted k k v r s ∙ rw (same_refl k) refl

  find_before : (j k : K) (v : V) (r : OrdMap K V) → o.lt j k ≡ true → find j ((k, v) ∷ r) ≡ none
  unfolding find
  find_before j k v r h = rw h refl

  -- Where the first keys are the same, so are their values and the lookups behind them.
  same_head :
      (k : K) (a b : V) (m n : OrdMap K V)
      → Above k m
      → Above k n
      → ((j : K) → find j ((k, a) ∷ m) ≡ find j ((k, b) ∷ n))
      → (a ≡ b) × ((j : K) → find j m ≡ find j n)
  same_head k a b m n s q e = (
    ap (from_some a) (sym (find_head k a m s) ∙ e k ∙ find_head k b n q),
    λ j. elim (Bool-cases (same k j)) [
      | inl here ↦
          find_below j k m s (ground (arith, here))
          ∙ sym (find_below j k n q (ground (arith, here)))
      | inr elsewhere ↦
          ground (arith, e j, elsewhere, find-cons_sorted j k a m s, find-cons_sorted j k b n q)
    ],
  )

  pub same_lookups :
      (m n : OrdMap K V) → IsSorted m → IsSorted n → ((j : K) → find j m ≡ find j n) → m ≡ n
  same_lookups [] [] s q e = refl
  same_lookups [] ((k, b) ∷ n) s q e =
      absurd (ground (arith, find-nil {V = V} k, e k, find_head k b n q))
  same_lookups ((i, a) ∷ m) [] s q e =
      absurd (ground (arith, find-nil {V = V} i, e i, find_head i a m s))
  same_lookups ((i, a) ∷ m) ((k, b) ∷ n) s q e = elim (Bool-cases (o.lt i k)) [
    | inl first ↦ absurd (ground (arith, e i, find_head i a m s, find_before i k b n first))
    | inr not_first ↦ elim (Bool-cases (o.lt k i)) [
      | inl second ↦ absurd (ground (arith, e k, find_head k b n q, find_before k i a m second))
      | inr not_second ↦
          let key : i ≡ k = o.lt_total i k not_first not_second in
          let q' : Above i n = subst (λ x. Above x n) (sym key) q in
          let e' : (j : K) → find j ((i, a) ∷ m) ≡ find j ((i, b) ∷ n) =
            λ j. e j ∙ ap (λ x. find j ((x, b) ∷ n)) (sym key) in
          let (value, later) = same_head i a b m n s q' e' in
          ap (λ x. (i, x) ∷ m) value
          ∙ ap (λ r. (i, b) ∷ r)
              (same_lookups m n (IsSorted-tail i m s) (IsSorted-tail i n q') later)
          ∙ ap (λ x. (x, b) ∷ n) key
    ]
  ]
