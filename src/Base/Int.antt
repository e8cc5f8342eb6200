-- ===== src/Base/Int.antt =====
-- Python's integers over the native numbers.
use uberserver.Base.{
  ◌≡◌, Eq, subst, true, arith, ℕ, suc, ◌+◌, ◌-◌, ◌≤◌, Bool, [], ◌∷◌, Option, none, some, leb, ltb,
  eqb, if◌then◌else◌,
}
use uberserver.Base.Text.{Text, strip, is_digit, decimal_from}

-- `negsuc n` is -(n + 1).
pub data ℤ : Type 0 where
  pos : ℕ → ℤ
  negsuc : ℕ → ℤ

abbrev pub pos_part : ℤ → ℕ
pos_part (pos n) = n
pos_part (negsuc _) = 0

abbrev pub neg_part : ℤ → ℕ
neg_part (pos _) = 0
neg_part (negsuc n) = suc n

abbrev pub sub_ℕ : ℕ → ℕ → ℤ
sub_ℕ a b = if leb b a then pos (a - b) else negsuc (b - a - 1)

infixl 65 ◌+ℤ◌ ◌-ℤ◌
infix 50 ◌≤ℤ◌
unfoldable pub ◌+ℤ◌ : ℤ → ℤ → ℤ
a +ℤ b = sub_ℕ (pos_part a + pos_part b) (neg_part a + neg_part b)

unfoldable pub ◌-ℤ◌ : ℤ → ℤ → ℤ
a -ℤ b = sub_ℕ (pos_part a + neg_part b) (neg_part a + pos_part b)

abbrev pub ◌≤ℤ◌ : ℤ → ℤ → Type 0
a ≤ℤ b = pos_part a + neg_part b ≤ pos_part b + neg_part a

abbrev pub ltb_ℤ : ℤ → ℤ → Bool
ltb_ℤ a b = ltb (pos_part a + neg_part b) (pos_part b + neg_part a)

abbrev pub leb_ℤ : ℤ → ℤ → Bool
leb_ℤ a b = leb (pos_part a + neg_part b) (pos_part b + neg_part a)

abbrev pub eqb_ℤ : ℤ → ℤ → Bool
eqb_ℤ a b = eqb (pos_part a + neg_part b) (pos_part b + neg_part a)

abbrev pub negate : ℕ → ℤ
negate n = sub_ℕ 0 n

-- Digits with single underscores between them, as `int` reads; `none` is a ValueError.
unfoldable pub digit_groups : Text → Option Text
digit_groups [] = none
digit_groups (c ∷ []) = if is_digit c then some (c ∷ []) else none
digit_groups (c ∷ d ∷ s) =
    let plain = digit_groups (d ∷ s) in
    let grouped = digit_groups s in
    if is_digit c
    then elim (if eqb d b'_' then grouped else plain) [ none ↦ none | some t ↦ some (c ∷ t) ]
    else none

unfoldable pub parse_unsigned : Text → Option ℕ
unfolding digit_groups decimal_from
parse_unsigned s = elim (digit_groups s) [ none ↦ none | some t ↦ some (decimal_from 0 t) ]

-- `int(s)` at a text.
unfoldable pub parse_int : Text → Option ℤ
unfolding parse_unsigned strip
parse_int s = elim (strip s) [
  | [] ↦ none
  | c ∷ t ↦
      if eqb c b'-'
      then elim (parse_unsigned t) [ none ↦ none | some n ↦ some (negate n) ]
      else elim (if eqb c b'+' then parse_unsigned t else parse_unsigned (c ∷ t)) [
        | none ↦ none
        | some n ↦ some (pos n)
      ]
]

pub same_int : (a b : ℤ) → eqb_ℤ a b ≡ true → a ≡ b
same_int (pos a) (pos b) h = ground arith
same_int (pos a) (negsuc b) h = absurd (ground arith)
same_int (negsuc a) (pos b) h = absurd (ground arith)
same_int (negsuc a) (negsuc b) h = ground arith

pub int_refl : (a : ℤ) → eqb_ℤ a a ≡ true
int_refl (pos a) = ground arith
int_refl (negsuc a) = ground arith

instance abbrev pub int_eq : Eq ℤ
int_eq = record {
  beq = eqb_ℤ;
  beq_iff = λ a b. (same_int a b, λ p. subst (λ (x : ℤ). eqb_ℤ a x ≡ true) p (int_refl a));
}
