-- ===== src/Protocol/Dispatch/Arguments.antt =====
-- How many arguments `get_function_args` of protocol/Protocol.py hands to a handler.
use uberserver.Base.{
  ℕ, zero, suc, ◌+◌, ◌-◌, ◌≤◌, ◌≡◌, refl, List, [], ◌∷◌, some, text_eq, arith, length, min,
  if◌then◌else◌,
}
use uberserver.Base.Text.{Text, split_parts, split, split_at_most, partition, count_char, space}
use uberserver.Protocol.Dispatch.{get_function_args}

length-split_parts : (c : ℕ) (s : Text) → length (split_parts c s).1 ≡ count_char c s
unfolding split_parts count_char
length-split_parts c [] = refl
length-split_parts c (x ∷ s) = ground (arith, length-split_parts c s)

partition-count :
    (c : ℕ) (s : Text)
    → count_char c s ≡ (if (partition c s).1 then suc (count_char c (partition c s).2) else 0)
unfolding partition count_char
partition-count c [] = refl
partition-count c (x ∷ s) = ground (arith, partition-count c s)

length-split_at_most :
    (c n : ℕ) (s : Text) → length (split_at_most c n s) ≡ suc (min n (count_char c s))
unfolding split_at_most
length-split_at_most c zero s = omega arith
length-split_at_most c (suc n) s =
    ground (arith, partition-count c s, length-split_at_most c n (partition c s).2)

-- The arguments of a line with `numspaces` spaces, the first of which ends the command, are at least
-- as many as the handler requires and at most as many as it takes.
get_function_args_fit :
    (total optional numspaces : ℕ) (given : Text) (arguments : List Text)
    → optional ≤ total
    → numspaces ≡ count_char space given + 1
    → get_function_args total optional numspaces given ≡ some arguments
    → (total - optional ≤ length arguments) × (length arguments ≤ total)
unfolding get_function_args split
get_function_args_fit total optional numspaces given arguments h e p =
    ground (arith, length-split_parts space given, length-split_at_most space (total - 1) given)
