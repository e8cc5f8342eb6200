-- ===== src/Syntax/Numbers.antt =====
-- protocol/Protocol.py: `int32`, `uint32`, `_bin2dec`, `_dec2bin`. A raised exception is `none`.
use uberserver.Base.{
  ℕ, zero, suc, ◌+◌, ◌-◌, ◌*◌, ◌/◌, ◌%◌, ◌^◌, ◌≤◌, ◌<◌, ◌≡◌, refl, Bool, true, false, ◌||◌, List,
  [], ◌∷◌, ◌++◌, Option, none, some, arith, leb, eqb, if◌then◌else◌, length, length-append, inl,
  inr, Bool-cases,
}
use uberserver.Base.Int.{ℤ, pos, negsuc, parse_int, ltb_ℤ, ◌≤ℤ◌}
use uberserver.Base.Text.{Text, codes}
pub mod Bounds
pub mod Roundtrip

unfoldable pub int32 : Text → Option ℤ
int32 x = elim (parse_int x) [
  | none ↦ none
  | some val ↦
      if ltb_ℤ (pos 2147483647) val
      then none
      else if ltb_ℤ val (negsuc 2147483647)
      then none
      else some val
]

unfoldable pub uint32 : Text → Option ℤ
uint32 x = elim (parse_int x) [
  | none ↦ none
  | some val ↦
      if ltb_ℤ (pos 4294967296) val then none else if ltb_ℤ val (pos 0) then none else some val
]

-- The digits of `s` read after the value `acc`.
unfoldable pub bin_from : ℕ → Text → Option ℕ
bin_from acc [] = some acc
bin_from acc (c ∷ s) =
    let rest = bin_from (2 * acc + (c - 48)) s in if eqb c 48 || eqb c 49 then rest else none

-- `int(s, 2)`, at the texts of binary digits that the program builds.
unfoldable pub bin2dec : Text → Option ℕ
unfolding bin_from
bin2dec [] = none
bin2dec (c ∷ s) = bin_from 0 (c ∷ s)

-- `while i > 0`, on fuel; `i` itself is enough.
unfoldable pub bits_from : ℕ → ℕ → Text → Text
bits_from zero i b = b
bits_from (suc fuel) i b =
    let rest = bits_from fuel (i / 2) ((48 + i % 2) ∷ b) in if eqb i 0 then b else rest

-- `c * n`
unfoldable pub repeat_char : ℕ → ℕ → Text
repeat_char c zero = []
repeat_char c (suc n) = c ∷ repeat_char c n

-- `b.rjust(bits, '0')`
unfoldable pub rjust : Text → ℕ → Text
unfolding repeat_char
rjust b bits = repeat_char 48 (bits - length b) ++ b

-- The loop does not run at a negative number. `bits` is 0 where the argument is left out.
unfoldable pub dec2bin : ℤ → ℕ → Text
unfolding bits_from rjust
dec2bin i bits =
    let b : Text = elim i [ pos n ↦ bits_from n n [] | negsuc _ ↦ [] ] in
    if eqb bits 0 then b else rjust b bits
