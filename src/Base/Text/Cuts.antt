-- ===== src/Base/Text/Cuts.antt =====
-- Cutting a text at a character that its first part lacks.
use uberserver.Base.{ℕ, ◌≡◌, refl, ◌≢◌, true, [], ◌∷◌, ◌++◌, arith, All}
use uberserver.Base.Text.{Text, split, split_parts, partition}

-- `c` does not occur in `s`.
abbrev pub Lacks : ℕ → Text → Type 0
Lacks c s = All (λ x. x ≢ c) s

pub Lacks-append : (c : ℕ) (s t : Text) → Lacks c s → Lacks c t → Lacks c (s ++ t)
Lacks-append c [] t hs ht = ht
Lacks-append c (x ∷ s) t hs ht = (hs.0, Lacks-append c s t hs.1 ht)

pub split_parts-last : (c : ℕ) (s : Text) → Lacks c s → split_parts c s ≡ (s, [])
unfolding split_parts
split_parts-last c [] h = refl
split_parts-last c (x ∷ s) h = ground (arith, split_parts-last c s h.1)

pub split_parts-cut :
    (c : ℕ) (s t : Text) → Lacks c s → split_parts c (s ++ (c ∷ t)) ≡ (s, split c t)
unfolding split_parts split
split_parts-cut c [] t h = ground arith
split_parts-cut c (x ∷ s) t h = ground (arith, split_parts-cut c s t h.1)

pub partition-cut : (c : ℕ) (s t : Text) → Lacks c s → partition c (s ++ (c ∷ t)) ≡ (s, true, t)
unfolding partition
partition-cut c [] t h = ground arith
partition-cut c (x ∷ s) t h = ground (arith, partition-cut c s t h.1)
