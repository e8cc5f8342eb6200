-- ===== src/Base/Dict.antt =====
-- A Python dict in insertion order, and a Python set as a list without duplicates. Python fixes no
-- order for a set's members; the model keeps the order of insertion.
use uberserver.Base.{
  ◌≢◌, ◌⊎◌, inl, inr, Bool-cases, ◌≡◌, refl, Bool, true, false, List, [], ◌∷◌, Option, none, some,
  arith, Eq, ◌==◌, if◌then◌else◌, keep, sym,
}
pub mod Undone

abbrev pub Dict {ℓ κ} : Type ℓ → Type κ → Type (ℓ ⊔ κ)
Dict K V = List (K × V)

abbrev pub keys {ℓ κ} : {K : Type ℓ} {V : Type κ} → Dict K V → List K
keys [] = []
keys ((k, _) ∷ d) = k ∷ keys d

abbrev pub values {ℓ κ} : {K : Type ℓ} {V : Type κ} → Dict K V → List V
values [] = []
values ((_, v) ∷ d) = v ∷ values d

abbrev pub is_some {ℓ} : {A : Type ℓ} → Option A → Bool
is_some none = false
is_some (some _) = true

module _ {ℓ κ} {K : Type ℓ} {V : Type κ} ⦃e : Eq K⦄ where
  unfoldable pub lookup : K → Dict K V → Option V
  lookup k [] = none
  lookup k ((j, v) ∷ d) = if k == j then some v else lookup k d

  -- `k in d`
  abbrev pub has_key : K → Dict K V → Bool
  has_key k d = is_some (lookup k d)

  -- `d.get(k, default)`
  abbrev pub get_or : K → V → Dict K V → V
  get_or k default d = elim (lookup k d) [ none ↦ default | some v ↦ v ]

  -- `d[k] = v`
  unfoldable pub insert : K → V → Dict K V → Dict K V
  insert k v [] = (k, v) ∷ []
  insert k v ((j, w) ∷ d) = if k == j then (k, v) ∷ d else (j, w) ∷ insert k v d

  -- `del d[k]`, or nothing where the key is missing.
  unfoldable pub erase : K → Dict K V → Dict K V
  erase k [] = []
  erase k ((j, w) ∷ d) = let rest = erase k d in if k == j then rest else (j, w) ∷ rest

  -- `d.update(more)`
  unfoldable pub update : Dict K V → Dict K V → Dict K V
  unfolding insert
  update d [] = d
  update d ((k, v) ∷ more) = update (insert k v d) more

  pub lookup-insert :
      (j k : K) (v : V) (d : Dict K V)
      → lookup j (insert k v d) ≡ (if j == k then some v else lookup j d)
  unfolding insert lookup
  lookup-insert j k v [] = refl
  lookup-insert j k v ((i, w) ∷ d) =
      ground (arith, e.beq_iff j k, e.beq_iff k i, e.beq_iff j i, lookup-insert j k v d)

  pub lookup-erase :
      (j k : K) (d : Dict K V) → lookup j (erase k d) ≡ (if j == k then none else lookup j d)
  unfolding erase lookup
  lookup-erase j k [] = ground arith
  lookup-erase j k ((i, w) ∷ d) =
      ground (arith, e.beq_iff j k, e.beq_iff k i, e.beq_iff j i, lookup-erase j k d)

module _ {ℓ} {K : Type ℓ} ⦃e : Eq K⦄ where
  -- `k in s`
  unfoldable pub contains : K → List K → Bool
  contains k [] = false
  contains k (x ∷ xs) = if k == x then true else contains k xs

  -- `s.add(k)`
  unfoldable pub add : K → List K → List K
  add k [] = k ∷ []
  add k (x ∷ xs) = if k == x then x ∷ xs else x ∷ add k xs

  -- `s.discard(k)`
  unfoldable pub discard : K → List K → List K
  discard k [] = []
  discard k (x ∷ xs) = let rest = discard k xs in if k == x then rest else x ∷ rest

  pub contains-add :
      (j k : K) (xs : List K) → contains j (add k xs) ≡ (if j == k then true else contains j xs)
  unfolding contains add
  contains-add j k [] = refl
  contains-add j k (x ∷ xs) =
      ground (arith, e.beq_iff j k, e.beq_iff k x, e.beq_iff j x, contains-add j k xs)

  pub contains-discard :
      (j k : K) (xs : List K)
      → contains j (discard k xs) ≡ (if j == k then false else contains j xs)
  unfolding contains discard
  contains-discard j k [] = ground arith
  contains-discard j k (x ∷ xs) =
      ground (arith, e.beq_iff j k, e.beq_iff k x, e.beq_iff j x, contains-discard j k xs)

  pub not-contains-nil : (k : K) → contains k [] ≢ true
  unfolding contains
  not-contains-nil k h = cc

  -- A member of a list is its head or a member of its tail.
  pub contains-cons :
      (k x : K) (xs : List K) → contains k (x ∷ xs) ≡ true → (k ≡ x) ⊎ (contains k xs ≡ true)
  unfolding contains
  contains-cons k x xs h = elim (Bool-cases (k == x)) [
    | inl same ↦ inl ((e.beq_iff k x).0 same)
    | inr other ↦ inr (ground arith)
  ]

  pub contains-head : (k : K) (xs : List K) → contains k (k ∷ xs) ≡ true
  unfolding contains
  contains-head k xs = ground (arith, e.beq_iff k k)

  pub contains-later : (k x : K) (xs : List K) → contains k xs ≡ true → contains k (x ∷ xs) ≡ true
  unfolding contains
  contains-later k x xs h = ground arith

  -- No member stands twice.
  abbrev pub Distinct : List K → Type 0
  Distinct [] = Unit
  Distinct (x ∷ xs) = (contains x xs ≡ false) × Distinct xs

  pub contains-keep :
      (p : K → Bool) (k : K) (xs : List K)
      → contains k (keep p xs) ≡ (if p k then contains k xs else false)
  unfolding contains
  contains-keep p k [] = ground arith
  contains-keep p k (x ∷ xs) = elim (Bool-cases (k == x)) [
    | inl same ↦
        rw (sym ((e.beq_iff k x).0 same)) (ground (arith, e.beq_iff k k, contains-keep p k xs))
    | inr other ↦ ground (arith, contains-keep p k xs)
  ]

  pub keep-Distinct : (p : K → Bool) (xs : List K) → Distinct xs → Distinct (keep p xs)
  keep-Distinct p [] h = tt
  keep-Distinct p (x ∷ xs) h = ground (arith, contains-keep p x xs, keep-Distinct p xs h.1)
