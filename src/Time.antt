-- ===== src/Time.antt =====
-- libklio/time.hpp, libklio/time.cpp and the readings of libklio/types.hpp. A `time_t` or a `long`
-- is an integer; no sum of two that the code makes is taken modulo 2^64, since overflow of a signed
-- integer has no meaning in C++. A `double` is the pattern of its 64 bits, so 0 is 0.0: the store
-- copies readings and never computes with them.
use libklio.Prelude.{ℕ, ◌≡◌, true, false, arith}
use libklio.Prelude.Int.{ℤ, ltb_ℤ}
use libklio.OrdMap.{OrdMap, Less}

abbrev pub Timestamp : Type 0
Timestamp = ℤ

abbrev pub Double : Type 0
Double = ℕ

abbrev pub zero_double : Double
zero_double = 0

lt_irrefl : (a : ℤ) → ltb_ℤ a a ≡ false
lt_irrefl a = ground arith

lt_trans : (a b c : ℤ) → ltb_ℤ a b ≡ true → ltb_ℤ b c ≡ true → ltb_ℤ a c ≡ true
lt_trans a b c p q = ground arith

lt_total : (a b : ℤ) → ltb_ℤ a b ≡ false → ltb_ℤ b a ≡ false → a ≡ b
lt_total a b p q = ground arith

-- `std::less<time_t>`
instance unfoldable pub timestamp_less : Less ℤ
unfolding lt_irrefl lt_trans lt_total
timestamp_less = record {
  lt = ltb_ℤ;
  lt_irrefl = lt_irrefl;
  lt_trans = lt_trans;
  lt_total = lt_total;
}

-- readings_t
abbrev pub Readings : Type 0
Readings = OrdMap Timestamp Double

-- reading_t
abbrev pub Reading : Type 0
Reading = Timestamp × Double

abbrev pub convert_to_epoch : Timestamp → ℤ
convert_to_epoch time = time

abbrev pub convert_from_epoch : ℤ → Timestamp
convert_from_epoch epoch = epoch
