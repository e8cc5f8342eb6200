-- ===== src/Syntax/Names/Valid.antt =====
-- What the accepted names are, said without the program's loops.
use uberserver.Base.{ℕ, ◌≤◌, ◌≡◌, refl, ◌↔◌, ◌⊎◌, true, [], ◌∷◌, All, arith, length}
use uberserver.Base.Text.{Text, lower_char}
use uberserver.Syntax.Names.{valid, among, name_chars, written_in, valid_username_syntax}

-- An ASCII letter, a digit, a bracket or an underscore.
abbrev pub NameChar : ℕ → Type 0
NameChar c =
    ((b'0' ≤ c) × (c ≤ b'9'))
    ⊎ ((b'A' ≤ c) × (c ≤ b'Z'))
    ⊎ ((b'a' ≤ c) × (c ≤ b'z'))
    ⊎ (c ≡ b'[')
    ⊎ (c ≡ b']')
    ⊎ (c ≡ b'_')

among-name_chars : (c : ℕ) → (among (lower_char c) name_chars ≡ true) ↔ NameChar c
unfolding among lower_char
among-name_chars c = (λ h. ground arith, λ h. ground arith)

written_in_iff :
    (chars : Text) (P : ℕ → Type 0)
    → ((c : ℕ) → (among (lower_char c) chars ≡ true) ↔ P c)
    → (s : Text) → (written_in chars s ≡ true) ↔ All P s
unfolding written_in
written_in_iff chars P spec [] = (λ h. tt, λ h. refl)
written_in_iff chars P spec (c ∷ s) = ground (arith, spec c, written_in_iff chars P spec s)

-- A username is accepted exactly when it has 3 to 20 characters, each an ASCII letter, a digit, a
-- bracket or an underscore.
valid_username_syntax_iff :
    (s : Text)
    → (valid_username_syntax s ≡ valid) ↔ (All NameChar s × (3 ≤ length s) × (length s ≤ 20))
unfolding valid_username_syntax
valid_username_syntax_iff [] = (λ h. ground arith, λ h. absurd (omega arith))
valid_username_syntax_iff (c ∷ s) =
    let spec = written_in_iff name_chars NameChar among-name_chars (c ∷ s) in
    (λ h. ground (arith, spec), λ h. ground (arith, spec))
