-- ===== src/Tests/Unary.antt =====
-- Numbers as texts of so many characters.
use Prim.Native.Char.{Char, code}
use Prim.Native.Nat.{ℕ, zero, suc, Ordering, compare, ◌+◌}
use Prim.Native.String.append
use Prim.Native.String.{String, [], ◌∷◌, ◌++◌}
use mathlib.Core.Path.{◌≡◌, refl, ap}
use libklio.Prelude.{arith}
use libklio.Prelude.Int.{ℤ, pos, negsuc}

unfoldable pub write : ℕ → String
write zero = []
write (suc n) = "i" ∷ write n

unfoldable pub count : String → ℕ
count [] = 0
count (c ∷ text) = suc (count text)

pub count-write : (n : ℕ) → count (write n) ≡ n
unfolding count write
count-write zero = refl
count-write (suc n) = ap suc (count-write n)

pub count-append : (a b : String) → count (a ++ b) ≡ count a + count b
unfolding count
count-append [] b = omega (arith, ap count (append.nil b))
count-append (c ∷ a) b = omega (arith, ap count (append.cons c a b), count-append a b)

-- Signed numbers: the first character is the sign.
unfoldable pub write_signed : ℤ → String
unfolding write
write_signed (pos n) = write n
write_signed (negsuc n) = "-" ∷ write n

abbrev sign_of : Char → ℕ → ℤ
sign_of c n = elim (compare (code c) 45) [ Ordering.eq ↦ negsuc n | _ ↦ pos (suc n) ]

unfoldable pub read_signed : String → ℤ
unfolding count
read_signed [] = pos 0
read_signed (c ∷ text) = sign_of c (count text)

pub read_signed-write_signed : (t : ℤ) → read_signed (write_signed t) ≡ t
unfolding read_signed write_signed write
read_signed-write_signed (pos zero) = refl
read_signed-write_signed (pos (suc n)) = ap (λ k. pos (suc k)) (count-write n)
read_signed-write_signed (negsuc n) = ap negsuc (count-write n)
