-- ===== src/Syntax/Numbers/Roundtrip.antt =====
-- Reading back what `_dec2bin` writes.
use uberserver.Base.{
  ℕ, zero, suc, ◌+◌, ◌-◌, ◌/◌, ◌%◌, ◌≤◌, ◌<◌, ◌≡◌, refl, [], ◌∷◌, ◌++◌, some, arith, length, ap,
  ◌∙◌, ◌^◌,
}
use uberserver.Base.Int.{pos}
use uberserver.Base.Text.{Text}
use uberserver.Syntax.Numbers.{bin_from, bin2dec, bits_from, repeat_char, rjust, dec2bin}
use uberserver.Syntax.Numbers.Bounds.{length-rjust, length-bits_from}

-- Reading the digits of `i` and then `b` is reading `b` after `i`.
pub bin_from-bits_from :
    (fuel i : ℕ) (b : Text) → i ≤ fuel → bin_from 0 (bits_from fuel i b) ≡ bin_from i b
unfolding bits_from bin_from
bin_from-bits_from zero i b h = let e : i ≡ 0 = omega arith in rw e
bin_from-bits_from (suc fuel) i b h =
    ground (arith, bin_from-bits_from fuel (i / 2) ((48 + i % 2) ∷ b))

bin_from-zeros : (n : ℕ) (b : Text) → bin_from 0 (repeat_char 48 n ++ b) ≡ bin_from 0 b
unfolding bin_from repeat_char
bin_from-zeros zero b = refl
bin_from-zeros (suc n) b = ground (arith, bin_from-zeros n b)

bin2dec-eq-bin_from : (s : Text) → 0 < length s → bin2dec s ≡ bin_from 0 s
unfolding bin2dec
bin2dec-eq-bin_from [] h = elim h [ ]
bin2dec-eq-bin_from (c ∷ s) h = refl

bin2dec-rjust :
    (i bits : ℕ) (b : Text)
    → 0 < bits
    → length b ≤ bits
    → bin_from 0 b ≡ some i
    → bin2dec (rjust b bits) ≡ some i
unfolding rjust
bin2dec-rjust i bits b p w h =
    bin2dec-eq-bin_from (repeat_char 48 (bits - length b) ++ b)
      (omega (arith, ap (λ (t : ℕ). t) (length-rjust b bits w)))
    ∙ bin_from-zeros (bits - length b) b
    ∙ h

-- A number below 2 ^ bits comes back from its `bits` digits.
pub bin2dec-dec2bin :
    (i bits : ℕ) → 0 < bits → i < 2 ^ bits → bin2dec (dec2bin (pos i) bits) ≡ some i
unfolding dec2bin bin_from
bin2dec-dec2bin i bits p h =
    let read : bin_from 0 (bits_from i i []) ≡ some i = bin_from-bits_from i i [] (omega arith) in
    let wide : length (bits_from i i []) ≤ bits + 0 = length-bits_from i i bits [] h in
    ground (arith, bin2dec-rjust i bits (bits_from i i []) p (omega arith) read)
