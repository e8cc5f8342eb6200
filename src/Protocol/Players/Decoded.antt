-- ===== src/Protocol/Players/Decoded.antt =====
-- What MYBATTLESTATUS of protocol/Protocol.py reads out of a number, and what
-- `calc_battlestatus` of protocol/Battle.py makes of it.
use uberserver.Base.{
  ℕ, zero, suc, ◌+◌, ◌-◌, ◌^◌, ◌<◌, ◌≤◌, ◌≡◌, refl, sym, ap, ◌∙◌, [], ◌∷◌, ◌++◌, some, arith,
  length, take, text_eq,
}
use uberserver.Base.Int.{pos}
use uberserver.Base.Text.{Text, codes}
use uberserver.Syntax.Numbers.{bin2dec, dec2bin}
use uberserver.Syntax.Numbers.Bounds.{length-dec2bin}
use uberserver.Syntax.Numbers.Roundtrip.{bin2dec-dec2bin}
use uberserver.Server.Types.{BattleStatus}
use uberserver.Battle.Status.{calc_battlestatus, status_bits}
use uberserver.Protocol.Players.{drop, last_32, field, status_of_bits}

pub drop-nil : (n : ℕ) → drop n [] ≡ []
unfolding drop
drop-nil zero = refl
drop-nil (suc n) = refl

take-drop : (n : ℕ) (s : Text) → take n s ++ drop n s ≡ s
unfolding drop
take-drop zero s = refl
take-drop (suc n) [] = refl
take-drop (suc n) (c ∷ s) = ap (λ (t : Text). c ∷ t) (take-drop n s)

drop-drop : (a n b : ℕ) (s : Text) → b ≡ a + n → drop n (drop a s) ≡ drop b s
unfolding drop
drop-drop zero n b s e = ap (λ (k : ℕ). drop k s) (omega arith)
drop-drop (suc a) n zero s e = absurd (omega arith)
drop-drop (suc a) n (suc b) [] e = drop-nil n
drop-drop (suc a) n (suc b) (c ∷ s) e = drop-drop a n b s (omega arith)

field_then : (a n b : ℕ) (s : Text) → b ≡ a + n → field a n s ++ drop b s ≡ drop a s
field_then a n b s e =
    ap (λ (t : Text). take n (drop a s) ++ t) (sym (drop-drop a n b s e)) ∙ take-drop n (drop a s)

drop-length : (n : ℕ) (s : Text) → length s ≤ n → drop n s ≡ []
unfolding drop
drop-length zero [] h = refl
drop-length zero (c ∷ s) h = absurd (omega arith)
drop-length (suc n) [] h = refl
drop-length (suc n) (c ∷ s) h = drop-length n s (omega arith)

-- The 32 digits that are unpacked are the number's own.
pub last_32-dec2bin : (v : ℕ) → v < 2 ^ 32 → last_32 (dec2bin (pos v) 32) ≡ dec2bin (pos v) 32
unfolding last_32 drop
last_32-dec2bin v h =
    ap (λ (n : ℕ). drop (n - 32) (dec2bin (pos v) 32)) (length-dec2bin v 32 (omega arith) h)

rebuilt :
    (s : Text) (old : BattleStatus)
    → length s ≡ 32
    → field 0 4 s ≡ codes "0000"
    → field 10 4 s ≡ codes "0000"
    → field 31 1 s ≡ codes "0"
    → field 14 7 s ≡ old.handicap
    → status_bits (status_of_bits s (field 21 1 s) old) ≡ s
unfolding status_bits status_of_bits
rebuilt s old l u0 u10 u31 u14 =
    let e0 = field_then 0 4 4 s refl in
    let e4 = field_then 4 4 8 s refl in
    let e8 = field_then 8 2 10 s refl in
    let e10 = field_then 10 4 14 s refl in
    let e14 = field_then 14 7 21 s refl in
    let e21 = field_then 21 1 22 s refl in
    let e22 = field_then 22 4 26 s refl in
    let e26 = field_then 26 4 30 s refl in
    let e30 = field_then 30 1 31 s refl in
    let e31 = field_then 31 1 32 s refl in let e32 = drop-length 32 s (omega arith) in cc

-- A status below 2 ^ 32 whose unused digits are 0 and whose handicap is the one that the client has
-- already is stored as it is: `calc_battlestatus` gives the same number back.
pub battlestatus_roundtrip :
    (v : ℕ) (old : BattleStatus)
    → v < 2 ^ 32
    → field 0 4 (dec2bin (pos v) 32) ≡ codes "0000"
    → field 10 4 (dec2bin (pos v) 32) ≡ codes "0000"
    → field 31 1 (dec2bin (pos v) 32) ≡ codes "0"
    → field 14 7 (dec2bin (pos v) 32) ≡ old.handicap
    → let bits = last_32 (dec2bin (pos v) 32) in
      calc_battlestatus (status_of_bits bits (field 21 1 bits) old) ≡ some v
unfolding calc_battlestatus
battlestatus_roundtrip v old h u0 u10 u31 u14 =
    ap (λ (s : Text). bin2dec (status_bits (status_of_bits s (field 21 1 s) old)))
      (last_32-dec2bin v h)
    ∙ ap bin2dec
        (rebuilt (dec2bin (pos v) 32) old (length-dec2bin v 32 (omega arith) h) u0 u10 u31 u14)
    ∙ bin2dec-dec2bin v 32 (omega arith) h
