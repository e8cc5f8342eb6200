-- ===== src/Base/Dict/Undone.antt =====
-- What takes back an assignment to a dict or an addition to a set.
use uberserver.Base.{
  ◌≡◌, refl, false, List, [], ◌∷◌, none, some, arith, Eq, ◌==◌, Bool-cases, inl, inr,
}
use uberserver.Base.Dict.{Dict, lookup, insert, erase, contains, add, discard}

module _ {ℓ κ} {K : Type ℓ} {V : Type κ} ⦃e : Eq K⦄ where
  pub erase-missing : (k : K) (d : Dict K V) → lookup k d ≡ none → erase k d ≡ d
  unfolding lookup erase
  erase-missing k [] h = refl
  erase-missing k ((j, w) ∷ d) h = ground (arith, erase-missing k d)

  pub erase-insert : (k : K) (v : V) (d : Dict K V) → lookup k d ≡ none → erase k (insert k v d) ≡ d
  unfolding lookup erase insert
  erase-insert k v [] h = ground (arith, e.beq_iff k k)
  erase-insert k v ((j, w) ∷ d) h = ground (arith, e.beq_iff k k, erase-insert k v d)

  pub insert-insert : (k : K) (v w : V) (d : Dict K V) → insert k v (insert k w d) ≡ insert k v d
  unfolding insert
  insert-insert k v w [] = ground (arith, e.beq_iff k k)
  insert-insert k v w ((j, u) ∷ d) = ground (arith, e.beq_iff k k, insert-insert k v w d)

  pub insert-lookup : (k : K) (v : V) (d : Dict K V) → lookup k d ≡ some v → insert k v d ≡ d
  unfolding insert lookup
  insert-lookup k v [] h = ground arith
  insert-lookup k v ((j, u) ∷ d) h = elim (Bool-cases (k == j)) [
    | inl same ↦ ground (arith, e.beq_iff k j)
    | inr other ↦ ground (arith, insert-lookup k v d)
  ]

module _ {ℓ} {K : Type ℓ} ⦃e : Eq K⦄ where
  discard-missing : (k : K) (xs : List K) → contains k xs ≡ false → discard k xs ≡ xs
  unfolding contains discard
  discard-missing k [] h = refl
  discard-missing k (x ∷ xs) h = ground (arith, discard-missing k xs)

  pub discard-add : (k : K) (xs : List K) → contains k xs ≡ false → discard k (add k xs) ≡ xs
  unfolding contains discard add
  discard-add k [] h = ground (arith, e.beq_iff k k)
  discard-add k (x ∷ xs) h = ground (arith, discard-add k xs)
