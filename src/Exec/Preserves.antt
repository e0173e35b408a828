-- ===== src/Exec/Preserves.antt =====
-- Invariants of member functions, one rule for each way to build a function.
use libklio.Prelude.{Bool, true, false, if◌then◌else◌}
use libklio.Exec.{
  Exec, Result, ok, err, Error, pure, throw, continue, ◌>>=◌, finally, caught_by, catching,
  is_exception,
}

-- `f` keeps `P`, whether it returns or throws.
pub record Preserves {ℓ} {S : Type ℓ} (P : S → Type ℓ) {A : Type ℓ} (f : Exec S A) : Type ℓ where
  pub at : (before : S) → P before → P (f before).1

module _ {ℓ} {S : Type ℓ} {P : S → Type ℓ} {A : Type ℓ} where
  pub Preserves-throw : (e : Error) → Preserves P (throw {A = A} e)
  Preserves-throw e = record { at = λ s h. h }

  pub Preserves-if :
      (b : Bool) (taken other : Exec S A)
      → Preserves P taken
      → Preserves P other
      → Preserves P (if b then taken else other)
  Preserves-if true taken other h k = h
  Preserves-if false taken other h k = k

  pub Preserves-pure : (a : A) → Preserves P (pure a)
  Preserves-pure a = record { at = λ s h. h }

module _ {ℓ} {S A B : Type ℓ} {P : S → Type ℓ} where
  Preserves-continue :
      (result : Result A) (f : A → Exec S B) (s : S)
      → ((a : A) → Preserves P (f a))
      → P s
      → P (continue result f s).1
  Preserves-continue (ok a) f s k h = (k a).at s h
  Preserves-continue (err e) f s k h = h

  pub Preserves-bind :
      (start : Exec S A) (next : A → Exec S B)
      → Preserves P start
      → ((result : A) → Preserves P (next result))
      → Preserves P (start >>= next)
  Preserves-bind start next h k = record {
    at = λ s p. let (result, s') = start s in Preserves-continue result next s' k (h.at s p);
  }

module _ {ℓ} {S A : Type ℓ} {P : S → Type ℓ} where
  pub Preserves-finally :
      (body : Exec S A) (cleanup : S → S)
      → Preserves P body
      → ((s : S) → P s → P (cleanup s))
      → Preserves P (finally body cleanup)
  Preserves-finally body cleanup h k = record { at = λ s p. k (body s).1 (h.at s p) }

  Preserves-caught_by :
      (handler : Error → Exec S A) (result : Result A) (s : S)
      → ((e : Error) → Preserves P (handler e))
      → P s
      → P (caught_by handler (result, s)).1
  Preserves-caught_by handler (ok a) s k h = h
  Preserves-caught_by handler (err e) s k h =
      (Preserves-if (is_exception e) (handler e) (throw e) (k e) (Preserves-throw e)).at s h

  pub Preserves-catching :
      (body : Exec S A) (handler : Error → Exec S A)
      → Preserves P body
      → ((e : Error) → Preserves P (handler e))
      → Preserves P (catching body handler)
  Preserves-catching body handler h k = record {
    at = λ s p. Preserves-caught_by handler (body s).0 (body s).1 k (h.at s p);
  }

pub ruleset preserves_rules = (Preserves-pure, Preserves-throw, Preserves-if, Preserves-bind)
