-- ===== src/Protocol/Rights/Status.antt =====
-- The number that `_calc_status` of protocol/Protocol.py stores.
use uberserver.Base.{
  ℕ, zero, suc, ◌+◌, ◌-◌, ◌*◌, ◌≤◌, ◌≡◌, refl, ap, List, [], ◌∷◌, ◌++◌, some, arith, length, Bool,
  false, eqb, eqb_iff, if◌then◌else◌, text_eq, ◌⊎◌, inl, inr, ◌/◌, ◌%◌, Bool-cases,
}
use uberserver.Base.Dict.{contains}
use uberserver.Base.Int.{ℤ, pos, negsuc}
use uberserver.Base.Text.{Text, codes}
use uberserver.Syntax.Numbers.{bin_from, bin2dec, bits_from, repeat_char, rjust, dec2bin}
use uberserver.Server.Types.{Root}
use uberserver.Server.Outcome.{done}
use uberserver.Protocol.Players.{drop}
use uberserver.Protocol.Players.Decoded.{drop-nil}
use uberserver.Protocol.Rights.{rank_of, ranks, digit_at, last_7, status_digits, calc_status}

-- Every character of `s` is a binary digit.
abbrev pub Binary : Text → Type 0
Binary s = (n : ℕ) → (digit_at n s ≡ 48) ⊎ (digit_at n s ≡ 49)

rank_of-le : (minutes : ℕ) (ts : List ℕ) → rank_of minutes ts ≤ length ts
unfolding rank_of
rank_of-le minutes [] = omega arith
rank_of-le minutes (t ∷ ts) = ground (arith, rank_of-le minutes ts)

rank_digits :
    (k acc : ℕ) (t : Text)
    → k ≤ 7
    → bin_from acc (dec2bin (pos k) 3 ++ t) ≡ bin_from (8 * acc + k) t
unfolding dec2bin bits_from rjust repeat_char bin_from
rank_digits zero acc t h = ap (λ (n : ℕ). bin_from n t) (omega arith)
rank_digits (suc zero) acc t h = ap (λ (n : ℕ). bin_from n t) (omega arith)
rank_digits (suc (suc zero)) acc t h = ap (λ (n : ℕ). bin_from n t) (omega arith)
rank_digits (suc (suc (suc zero))) acc t h = ap (λ (n : ℕ). bin_from n t) (omega arith)
rank_digits (suc (suc (suc (suc zero)))) acc t h = ap (λ (n : ℕ). bin_from n t) (omega arith)
rank_digits (suc (suc (suc (suc (suc zero))))) acc t h = ap (λ (n : ℕ). bin_from n t) (omega arith)
rank_digits (suc (suc (suc (suc (suc (suc zero)))))) acc t h =
    ap (λ (n : ℕ). bin_from n t) (omega arith)
rank_digits (suc (suc (suc (suc (suc (suc (suc zero))))))) acc t h =
    ap (λ (n : ℕ). bin_from n t) (omega arith)
rank_digits (suc (suc (suc (suc (suc (suc (suc (suc k)))))))) acc t h = absurd (omega arith)

Binary-nil : Binary []
Binary-nil n = inl (ap (λ (t : Text). elim t [ [] ↦ b'0' | c ∷ _ ↦ c ]) (drop-nil n))

Binary-cons : (c : ℕ) (s : Text) → (c ≡ 48) ⊎ (c ≡ 49) → Binary s → Binary (c ∷ s)
unfolding drop
Binary-cons c s p h zero = p
Binary-cons c s p h (suc n) = h n

Binary-drop : (k : ℕ) (s : Text) → Binary s → Binary (drop k s)
unfolding drop
Binary-drop zero s h = h
Binary-drop (suc k) [] h = h
Binary-drop (suc k) (c ∷ s) h = Binary-drop k s (λ n. h (suc n))

bit_digit : (i : ℕ) → (48 + i % 2 ≡ 48) ⊎ (48 + i % 2 ≡ 49)
bit_digit i = elim (Bool-cases (eqb (i % 2) 0)) [
  | inl e ↦ inl (ground arith)
  | inr e ↦ inr (ground arith)
]

bits_from-Binary : (fuel i : ℕ) (b : Text) → Binary b → Binary (bits_from fuel i b)
unfolding bits_from
bits_from-Binary zero i b h = h
bits_from-Binary (suc fuel) i b h = elim (Bool-cases (eqb i 0)) [
  | inl e ↦ rw (e, bits_from) h
  | inr e ↦
      rw (e, bits_from)
        (bits_from-Binary fuel (i / 2) ((48 + i % 2) ∷ b)
          (Binary-cons (48 + i % 2) b (bit_digit i) h))
]

zeros-Binary : (k : ℕ) (b : Text) → Binary b → Binary (repeat_char 48 k ++ b)
unfolding repeat_char
zeros-Binary zero b h = h
zeros-Binary (suc k) b h = Binary-cons 48 (repeat_char 48 k ++ b) (inl refl) (zeros-Binary k b h)

pub dec2bin-Binary : (i : ℤ) (bits : ℕ) → eqb bits 0 ≡ false → Binary (dec2bin i bits)
unfolding dec2bin rjust
dec2bin-Binary (pos i) bits h =
    rw (h, dec2bin)
      (zeros-Binary (bits - length (bits_from i i [])) (bits_from i i [])
        (bits_from-Binary i i [] Binary-nil))
dec2bin-Binary (negsuc i) bits h = rw (h, dec2bin) (zeros-Binary (bits - 0) [] Binary-nil)

last_7-Binary : (i : ℤ) → Binary (last_7 (dec2bin i 7))
unfolding last_7
last_7-Binary i = Binary-drop (length (dec2bin i 7) - 7) (dec2bin i 7) (dec2bin-Binary i 7 refl)

-- The weight of a flag.
abbrev pub weight : Bool → ℕ → ℕ
weight b w = if b then w else 0

status_value :
    (bot : Bool) (access : Text) (minutes away ingame : ℕ)
    → (away ≡ 48) ⊎ (away ≡ 49)
    → (ingame ≡ 48) ⊎ (ingame ≡ 49)
    → bin2dec (status_digits bot access minutes away ingame)
      ≡ some (
          weight bot 64
          + weight (contains access (codes "mod" ∷ codes "admin" ∷ [])) 32
          + 4 * rank_of minutes ranks
          + weight (eqb away 49) 2
          + weight (eqb ingame 49) 1)
unfolding status_digits bin2dec bin_from
status_value bot access minutes away ingame p q =
    let k = rank_of minutes ranks in
    let below : k ≤ 7 = rank_of-le minutes ranks in
    let end : Text = away ∷ ingame ∷ [] in
    ground (
      arith,
      rank_digits k 0 end below,
      rank_digits k 1 end below,
      rank_digits k 2 end below,
      rank_digits k 3 end below,
    )

-- Whatever number the client sends, `_calc_status` returns and stores the sum of: 64 for a bot, 32
-- for a moderator or administrator, four times the rank that the time in games gives, 2 and 1 for the
-- away and in-game flags that it has kept; the rank is at most 7.
pub calc_status_stores :
    (sid : ℕ) (asked : ℤ) (r : Root)
    → (s : Root) × (calc_status sid asked r ≡ done s)
      × (rank_of (r.client_at sid).ingame_time ranks ≤ 7)
      × ((s.client_at sid).status
          ≡ weight (r.client_at sid).bot 64
            + weight (contains (r.client_at sid).access (codes "mod" ∷ codes "admin" ∷ [])) 32
            + 4 * rank_of (r.client_at sid).ingame_time ranks
            + weight (s.client_at sid).away 2
            + weight (s.client_at sid).is_ingame 1)
unfolding calc_status
calc_status_stores sid asked r =
    let c = r.client_at sid in
    let bits = last_7 (dec2bin asked 7) in
    let digits = last_7-Binary asked in
    let value =
      status_value c.bot c.access c.ingame_time (digit_at 5 bits) (digit_at 6 bits) (digits 5)
        (digits 6) in
    rw (value, calc_status)
      (_, refl, rank_of-le c.ingame_time ranks, ground (arith, eqb_iff sid sid))
