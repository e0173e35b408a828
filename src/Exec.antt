-- ===== src/Exec.antt =====
-- Member functions that change an object and may throw. What was written before a `throw` stays
-- written, so the object comes back beside the exception too. Messages are not modelled.
pub mod Preserves
use libklio.Prelude.{Bool, true, false, if◌then◌else◌}

-- libklio/error.hpp; `std_exception` is any other exception of the C++ library, and
-- `undefined_behaviour` marks the points where the C++ standard gives the code no meaning, and
-- `out_of_fuel` the end of the fuel of a loop in the model, which no code throws.
pub data Error : Type 0 where
  generic_exception communication_exception data_format_exception store_exception : Error
  environment_exception memory_exception std_exception undefined_behaviour out_of_fuel : Error

pub data Result {ℓ} (A : Type ℓ) : Type ℓ where
  ok : A → Result A
  err : Error → Result A

abbrev pub Exec {ℓ} : Type ℓ → Type ℓ → Type ℓ
Exec S A = S → Result A × S

module _ {ℓ} {S A : Type ℓ} where
  abbrev pub pure : A → Exec S A
  pure a s = (ok a, s)

  abbrev pub throw : Error → Exec S A
  throw e s = (err e, s)

  abbrev pub gets : (S → A) → Exec S A
  gets f s = (ok (f s), s)

module _ {ℓ} {S : Type ℓ} where
  abbrev pub modify : (S → S) → Exec S (Unit {ℓ})
  modify f s = (ok tt, f s)

module _ {ℓ} {S A B : Type ℓ} where
  abbrev pub continue : Result A → (A → Exec S B) → Exec S B
  continue (ok a) f s = f a s
  continue (err e) f s = (err e, s)

  infixl 10 ◌>>=◌
  abbrev pub ◌>>=◌ : Exec S A → (A → Exec S B) → Exec S B
  ◌>>=◌ m f s = let (r, s') = m s in continue r f s'

module _ {ℓ} {S B : Type ℓ} where
  infixl 10 ◌>>◌
  abbrev pub ◌>>◌ : Exec S (Unit {ℓ}) → Exec S B → Exec S B
  m >> n = m >>= λ _. n

-- What `catch (std::exception const&)` catches.
abbrev pub is_exception : Error → Bool
is_exception undefined_behaviour = false
is_exception out_of_fuel = false
is_exception generic_exception = true
is_exception communication_exception = true
is_exception data_format_exception = true
is_exception store_exception = true
is_exception environment_exception = true
is_exception memory_exception = true
is_exception std_exception = true

module _ {ℓ} {S A : Type ℓ} where
  abbrev pub caught_by : (Error → Exec S A) → Result A × S → Result A × S
  caught_by handler (ok a, s) = (ok a, s)
  caught_by handler (err e, s) = (if is_exception e then handler e else throw e) s

  -- try { body } catch (std::exception const& e) { handler }
  abbrev pub catching : Exec S A → (Error → Exec S A) → Exec S A
  catching body handler s = caught_by handler (body s)

  -- try { body } catch (std::exception const& e) { cleanup; throw; } cleanup;
  abbrev pub finally : Exec S A → (S → S) → Exec S A
  finally body cleanup s = let (r, s') = body s in (r, cleanup s')
