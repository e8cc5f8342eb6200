-- ===== src/Base/Text.antt =====
-- Python strings as lists of code points. Case mapping, digits and white space are those of ASCII.
use Prim.Native.Char.{code}
use uberserver.Base.{
  ℕ, zero, suc, ◌+◌, ◌-◌, ◌*◌, ◌/◌, ◌%◌, String, Bool, true, false, ◌&&◌, ◌||◌, List, [], ◌∷◌, ◌++◌,
  map, eqb, leb, all, if◌then◌else◌,
}
pub mod Cuts

abbrev pub Text : Type 0
Text = List ℕ

-- The code points of a literal.
abbrev pub codes : String → Text
codes String.[] = []
codes (String.◌∷◌ c s) = code c ∷ codes s

abbrev pub space : ℕ
space = 32

abbrev pub tab : ℕ
tab = 9

abbrev pub newline : ℕ
newline = 10

unfoldable pub lower_char : ℕ → ℕ
lower_char c = if leb 65 c && leb c 90 then c + 32 else c

unfoldable pub upper_char : ℕ → ℕ
upper_char c = if leb 97 c && leb c 122 then c - 32 else c

-- `s.lower()`
unfoldable pub lower : Text → Text
unfolding lower_char
lower = map lower_char

-- `s.upper()`
unfoldable pub upper : Text → Text
unfolding upper_char
upper = map upper_char

abbrev pub is_digit : ℕ → Bool
is_digit c = leb 48 c && leb c 57

-- `s.isdigit()`
unfoldable pub all_digits : Text → Bool
all_digits [] = false
all_digits (c ∷ s) = is_digit c && all is_digit s

-- `s.startswith(p)`
unfoldable pub starts_with : Text → Text → Bool
starts_with [] s = true
starts_with (p ∷ ps) [] = false
starts_with (p ∷ ps) (c ∷ s) = if eqb p c then starts_with ps s else false

-- `p in s`
unfoldable pub has_substring : Text → Text → Bool
unfolding starts_with
has_substring p [] = starts_with p []
has_substring p (c ∷ s) = if starts_with p (c ∷ s) then true else has_substring p s

-- `s.count(c)` for one character.
unfoldable pub count_char : ℕ → Text → ℕ
count_char c [] = 0
count_char c (x ∷ s) = (if eqb x c then 1 else 0) + count_char c s

-- `s.split(c)`: the part before the first `c`, and the parts after it.
unfoldable pub split_parts : ℕ → Text → Text × List Text
split_parts c [] = ([], [])
split_parts c (x ∷ s) =
    let (first, rest) = split_parts c s in if eqb x c then ([], first ∷ rest) else (x ∷ first, rest)

unfoldable pub split : ℕ → Text → List Text
unfolding split_parts
split c s = (split_parts c s).0 ∷ (split_parts c s).1

-- `s.partition(c)`: before, whether `c` occurs, after.
unfoldable pub partition : ℕ → Text → Text × Bool × Text
partition c [] = ([], false, [])
partition c (x ∷ s) =
    let (before, found, after) = partition c s in
    if eqb x c then ([], true, s) else (x ∷ before, found, after)

-- `s.split(c, n)`: at most n cuts.
unfoldable pub split_at_most : ℕ → ℕ → Text → List Text
unfolding partition
split_at_most c zero s = s ∷ []
split_at_most c (suc n) s =
    let (before, found, after) = partition c s in
    let rest = split_at_most c n after in if found then before ∷ rest else before ∷ []

-- `sep.join(parts)`
unfoldable pub join : Text → List Text → Text
join sep [] = []
join sep (s ∷ []) = s
join sep (s ∷ t ∷ ts) = s ++ sep ++ join sep (t ∷ ts)

-- `s.lstrip(c)` and `s.rstrip(c)` for one character.
unfoldable pub lstrip_char : ℕ → Text → Text
lstrip_char c [] = []
lstrip_char c (x ∷ s) = let rest = lstrip_char c s in if eqb x c then rest else x ∷ s

unfoldable pub rstrip_char : ℕ → Text → Text
rstrip_char c [] = []
rstrip_char c (x ∷ s) = elim (rstrip_char c s) [
  | [] ↦ if eqb x c then [] else x ∷ []
  | y ∷ t ↦ x ∷ y ∷ t
]

abbrev pub is_space : ℕ → Bool
is_space c = eqb c 32 || (leb 9 c && leb c 13)

unfoldable pub lstrip : Text → Text
lstrip [] = []
lstrip (x ∷ s) = let rest = lstrip s in if is_space x then rest else x ∷ s

unfoldable pub rstrip : Text → Text
rstrip [] = []
rstrip (x ∷ s) = elim (rstrip s) [ [] ↦ if is_space x then [] else x ∷ [] | y ∷ t ↦ x ∷ y ∷ t ]

-- `s.strip()`
unfoldable pub strip : Text → Text
unfolding lstrip rstrip
strip s = lstrip (rstrip s)

-- `str(n)`: the decimal digits, the number of steps being bounded by the number itself.
unfoldable pub digits_from : ℕ → ℕ → Text → Text
digits_from zero n acc = acc
digits_from (suc f) n acc =
    let rest = digits_from f (n / 10) ((48 + n % 10) ∷ acc) in
    if leb n 9 then (48 + n) ∷ acc else rest

unfoldable pub show_nat : ℕ → Text
unfolding digits_from
show_nat n = digits_from (suc n) n []

unfoldable pub decimal_from : ℕ → Text → ℕ
decimal_from acc [] = acc
decimal_from acc (c ∷ s) = decimal_from (acc * 10 + (c - 48)) s
