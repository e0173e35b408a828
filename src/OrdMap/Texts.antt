-- ===== src/OrdMap/Texts.antt =====
-- `std::less<std::string>`.
use Prim.Native.Char.{Char, code}
use Prim.Native.Nat.{Ordering, compare as compare_ℕ}
use Prim.Native.String.compare as compare_laws
use Prim.Native.String.{String, [], ◌∷◌, compare, then as and_then}
use text.Mathlib.Text.{is_lt}
use text.Mathlib.TextEquality.{codes_equal}
use libklio.Prelude.{ℕ, ◌≡◌, refl, sym, ap, ◌∙◌, Bool, true, false, arith, ltb, if◌then◌else◌}
use libklio.OrdMap.{Less}

unfoldable pub text_lt : String → String → Bool
text_lt a b = is_lt (compare a b)

-- What two texts say after their first characters, of the numbers `m` and `n`.
abbrev pub below : ℕ → ℕ → Bool → Bool
below m n later = if ltb m n then true else if ltb n m then false else later

pub and_then_lt :
    (m n : ℕ) (r : Ordering) → is_lt (and_then (compare_ℕ m n) r) ≡ below m n (is_lt r)
and_then_lt m n r = ground arith

pub text_lt-cons :
    (c d : Char) (s t : String) → text_lt (c ∷ s) (d ∷ t) ≡ below (code c) (code d) (text_lt s t)
unfolding text_lt
text_lt-cons c d s t =
    ap is_lt (compare_laws.cons-cons c d s t) ∙ and_then_lt (code c) (code d) (compare s t)

pub text_lt-nil : (d : Char) (t : String) → text_lt [] (d ∷ t) ≡ true
unfolding text_lt
text_lt-nil d t = ap is_lt (compare_laws.nil-cons d t)

pub text_gt-nil : (c : Char) (s : String) → text_lt (c ∷ s) [] ≡ false
unfolding text_lt
text_gt-nil c s = ap is_lt (compare_laws.cons-nil c s)

pub nil_nil : text_lt [] [] ≡ false
unfolding text_lt
nil_nil = ap is_lt compare_laws.nil-nil

pub below_irrefl : (m : ℕ) (r : Bool) → r ≡ false → below m m r ≡ false
below_irrefl m r h = ground arith

pub below_trans :
    (k m n : ℕ) (p q r : Bool)
    → (p ≡ true → q ≡ true → r ≡ true)
    → below k m p ≡ true
    → below m n q ≡ true
    → below k n r ≡ true
below_trans k m n p q r h first second = ground arith

text_irrefl : (a : String) → text_lt a a ≡ false
text_irrefl [] = nil_nil
text_irrefl (c ∷ s) = text_lt-cons c c s s ∙ below_irrefl (code c) (text_lt s s) (text_irrefl s)

text_trans : (a b c : String) → text_lt a b ≡ true → text_lt b c ≡ true → text_lt a c ≡ true
text_trans [] [] c p q = q
text_trans [] (d ∷ t) [] p q = cc (text_gt-nil d t)
text_trans [] (d ∷ t) (e ∷ u) p q = text_lt-nil e u
text_trans (c ∷ s) [] e p q = cc (text_gt-nil c s)
text_trans (c ∷ s) (d ∷ t) [] p q = cc (text_gt-nil d t)
text_trans (c ∷ s) (d ∷ t) (e ∷ u) p q =
    text_lt-cons c e s u
    ∙ below_trans (code c) (code d) (code e) (text_lt s t) (text_lt t u) (text_lt s u)
        (text_trans s t u) (sym (text_lt-cons c d s t) ∙ p) (sym (text_lt-cons d e t u) ∙ q)

pub below_total :
    (m n : ℕ) (p q : Bool)
    → below m n p ≡ false
    → below n m q ≡ false
    → (compare_ℕ m n ≡ Ordering.eq) × (p ≡ false) × (q ≡ false)
below_total m n p q h k = ground arith

text_total : (a b : String) → text_lt a b ≡ false → text_lt b a ≡ false → a ≡ b
text_total [] [] p q = refl
text_total [] (d ∷ t) p q = cc (text_lt-nil d t)
text_total (c ∷ s) [] p q = cc (text_lt-nil c s)
text_total (c ∷ s) (d ∷ t) p q =
    let (same, below_s, below_t) =
      below_total (code c) (code d) (text_lt s t) (text_lt t s) (sym (text_lt-cons c d s t) ∙ p)
        (sym (text_lt-cons d c t s) ∙ q) in
    λ i. codes_equal c d same i ∷ text_total s t below_s below_t i

instance unfoldable pub text_less : Less String
unfolding text_lt text_irrefl text_trans text_total
text_less = record {
  lt = text_lt;
  lt_irrefl = text_irrefl;
  lt_trans = text_trans;
  lt_total = text_total;
}
