-- ===== src/Wire/Tweak/Charges.antt =====
-- What a tweak set may cost, and that a message id does not change what a line is.
use uberserver.Base.{
  ℕ, suc, ◌+◌, ◌≤◌, ◌≡◌, refl, Bool, true, false, ◌&&◌, List, [], ◌∷◌, ◌++◌, arith, eqb, leb,
  length, all, sum, map, keep, Bool-cases, inl, inr,
}
use uberserver.Base.Text.{
  Text, space, newline, split, split_parts, starts_with, partition, all_digits, is_digit,
}
use uberserver.Base.Text.Cuts.{Lacks, partition-cut}
use uberserver.Wire.Framing.{init}
use uberserver.Wire.Tweak.{
  is_tweak_command, without_msg_id, tweak_command_bytes, tweak_msg_length, set_msg_id,
}

keep-sum-le :
    (p : Text → Bool) (lines : List Text)
    → sum (map (λ line. length line + 1) (keep p lines)) ≤ sum (map (λ line. length line + 1) lines)
keep-sum-le p [] = omega arith
keep-sum-le p (line ∷ lines) = ground (arith, keep-sum-le p lines)

digits-Lacks : (s : Text) → all is_digit s ≡ true → Lacks space s
digits-Lacks [] h = tt
digits-Lacks (c ∷ s) h = ground (arith, digits-Lacks s)

all_digits-Lacks : (s : Text) → all_digits s ≡ true → Lacks space s
unfolding all_digits
all_digits-Lacks [] h = tt
all_digits-Lacks (c ∷ s) h = ground (arith, digits-Lacks s)

with_id-partition :
    (id cmd : Text)
    → all_digits id ≡ true
    → partition space (b'#' ∷ (id ++ (space ∷ cmd))) ≡ (b'#' ∷ id, true, cmd)
with_id-partition id cmd h =
    partition-cut space (b'#' ∷ id) cmd ((λ e. absurd (omega arith)), all_digits-Lacks id h)

-- A line `#<digits> <command>` is stripped to the command, both where the length limit is chosen
-- and where the command is handled, and its replies carry `#<digits> `.
msg_id_stripped :
    (id cmd : Text)
    → all_digits id ≡ true
    → let line = b'#' ∷ (id ++ (space ∷ cmd)) in
      (without_msg_id line ≡ cmd) × (set_msg_id line ≡ (b'#' ∷ (id ++ (space ∷ [])), cmd))
unfolding without_msg_id set_msg_id starts_with
msg_id_stripped id cmd h = ground (arith, with_id-partition id cmd h)

-- The characters that a list of parts was cut from, the cuts included.
weight : Text → List Text → ℕ
weight f [] = length f
weight f (r ∷ rs) = length f + 1 + weight r rs

weight-split_parts : (c : ℕ) (s : Text) → weight (split_parts c s).0 (split_parts c s).1 ≡ length s
unfolding split_parts weight
weight-split_parts c [] = refl
weight-split_parts c (x ∷ s) = elim (Bool-cases (eqb x c)) [
  | inl cut ↦ rw cut (omega (arith, weight-split_parts c s))
  | inr stays ↦ rw stays (longer (split_parts c s).0 (split_parts c s).1 (weight-split_parts c s))
]
  where
    longer :
        (f : Text) (rs : List Text) → weight f rs ≡ length s → weight (x ∷ f) rs ≡ suc (length s)
    longer f [] e = omega arith
    longer f (r ∷ rs) e = omega arith

init-sum-le :
    (f : Text) (rs : List Text) → sum (map (λ line. length line + 1) (init (f ∷ rs))) ≤ weight f rs
unfolding init weight
init-sum-le f [] = omega arith
init-sum-le f (r ∷ rs) = omega (arith, init-sum-le r rs)

-- The bytes charged to the tweak allowance are at most those received, and none before login.
tweak_command_bytes_bound :
    (received : Text) (logged_in : Bool)
    → let charged = tweak_command_bytes (init (split newline received)) logged_in in
      (charged ≤ length received) × (logged_in ≡ false → charged ≡ 0)
unfolding tweak_command_bytes split
tweak_command_bytes_bound received true = (
  omega (
    arith,
    keep-sum-le (λ line. leb (length line) tweak_msg_length && is_tweak_command line)
        (init (split newline received)),
    init-sum-le (split_parts newline received).0 (split_parts newline received).1,
    weight-split_parts newline received,
  ),
  λ h. cc,
)
tweak_command_bytes_bound received false = (omega arith, λ h. refl)
