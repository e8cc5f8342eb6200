-- ===== src/Syntax/Numbers/Bounds.antt =====
-- The ranges that `int32` and `uint32` enforce, and the width of a bit string.
use native.Mathlib.Nat.{pow-suc}
use uberserver.Base.{
  ℕ, zero, suc, ◌+◌, ◌-◌, ◌*◌, ◌/◌, ◌%◌, ◌^◌, ◌≤◌, ◌<◌, ◌≡◌, refl, ◌↔◌, [], ◌∷◌, some, arith,
  length, length-append,
}
use uberserver.Base.Int.{ℤ, pos, negsuc, parse_int, ◌≤ℤ◌}
use uberserver.Base.Text.{Text}
use uberserver.Syntax.Numbers.{int32, uint32, bits_from, repeat_char, rjust, dec2bin}

-- `int32` answers exactly when the text is an integer from -2147483648 to 2147483647, and then
-- with that integer.
pub int32_iff :
    (x : Text) (v : ℤ)
    → (int32 x ≡ some v)
      ↔ ((parse_int x ≡ some v) × (negsuc 2147483647 ≤ℤ v) × (v ≤ℤ pos 2147483647))
unfolding int32
int32_iff x v = (λ h. ground arith, λ h. ground arith)

-- `uint32` answers exactly when the text is an integer from 0 to 4294967296: the upper end is
-- 2 ^ 32, which takes 33 bits.
uint32_iff :
    (x : Text) (v : ℤ)
    → (uint32 x ≡ some v) ↔ ((parse_int x ≡ some v) × (pos 0 ≤ℤ v) × (v ≤ℤ pos (2 ^ 32)))
unfolding uint32
uint32_iff x v = (λ h. ground arith, λ h. ground arith)

pub length-repeat_char : (c n : ℕ) → length (repeat_char c n) ≡ n
unfolding repeat_char
length-repeat_char c zero = refl
length-repeat_char c (suc n) = omega (arith, length-repeat_char c n)

pub length-rjust : (b : Text) (bits : ℕ) → length b ≤ bits → length (rjust b bits) ≡ bits
unfolding rjust
length-rjust b bits h = omega (
  arith,
  length-append {0} (repeat_char 48 (bits - length b)) b,
  length-repeat_char 48 (bits - length b),
)

half_below : (i k : ℕ) → i < 2 ^ suc k → i / 2 < 2 ^ k
half_below i k h = let e : 2 ^ suc k ≡ 2 ^ k * 2 = pow-suc 2 k in omega arith

pub length-bits_from :
    (fuel i k : ℕ) (b : Text) → i < 2 ^ k → length (bits_from fuel i b) ≤ k + length b
unfolding bits_from
length-bits_from zero i k b h = omega arith
length-bits_from (suc fuel) zero k b h = omega arith
length-bits_from (suc fuel) (suc i) zero b h = absurd (omega arith)
length-bits_from (suc fuel) (suc i) (suc k) b h = ground (
  arith,
  half_below (suc i) k h,
  length-bits_from fuel (suc i / 2) k ((48 + suc i % 2) ∷ b) (half_below (suc i) k h),
)

-- A number below 2 ^ bits is written with exactly `bits` digits.
pub length-dec2bin : (i bits : ℕ) → 0 < bits → i < 2 ^ bits → length (dec2bin (pos i) bits) ≡ bits
unfolding dec2bin
length-dec2bin i bits p h =
    ground (arith, length-rjust (bits_from i i []) bits, length-bits_from i i bits [] h)
