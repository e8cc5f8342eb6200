-- ===== src/Jobs/Quotas.antt =====
-- DataHandler.py: `decrement_dict`, behind the limits on registrations, renames and credentials.
use uberserver.Base.{
  ℕ, zero, suc, ◌-◌, ◌≡◌, refl, Bool, false, List, [], ◌∷◌, Option, none, some, arith,
  if◌then◌else◌, leb, Eq, ◌≢◌,
}
use uberserver.Base.Dict.{Dict, lookup, erase, contains, lookup-erase, get_or}

module _ {ℓ} {K : Type ℓ} ⦃e : Eq K⦄ where
  -- `for i in d: d[i] -= 1`. The values are counts, of which none is below 1.
  unfoldable pub lowered : Dict K ℕ → Dict K ℕ
  lowered [] = []
  lowered ((k, v) ∷ d) = (k, v - 1) ∷ lowered d

  -- `to_delete`: the keys whose value is 0 or less.
  unfoldable pub spent : Dict K ℕ → List K
  spent [] = []
  spent ((k, v) ∷ d) = let rest = spent d in if leb v 0 then k ∷ rest else rest

  -- `for i in to_delete: del d[i]`
  unfoldable pub erase_all : List K → Dict K ℕ → Dict K ℕ
  erase_all [] d = d
  erase_all (k ∷ ks) d = erase_all ks (erase k d)

  unfoldable pub decrement_dict : Dict K ℕ → Dict K ℕ
  unfolding lowered spent erase_all
  decrement_dict d = let d1 = lowered d in erase_all (spent d1) d1

  -- So many runs of the job.
  unfoldable pub decrement_times : ℕ → Dict K ℕ → Dict K ℕ
  unfolding decrement_dict
  decrement_times zero d = d
  decrement_times (suc n) d = decrement_times n (decrement_dict d)

  -- The abstract counter that the dict stands for: 0 where there is no entry.
  abbrev pub uses : K → Dict K ℕ → ℕ
  uses k d = get_or k 0 d

  lookup-lowered :
      (k : K) (d : Dict K ℕ)
      → lookup k (lowered d)
        ≡ elim (lookup k d) as (λ _. Option ℕ) [ none ↦ none | some v ↦ some (v - 1) ]
  unfolding lowered lookup
  lookup-lowered k [] = refl
  lookup-lowered k ((j, v) ∷ d) = ground (arith, lookup-lowered k d)

  lookup-erase_all :
      (k : K) (ks : List K) (d : Dict K ℕ)
      → lookup k (erase_all ks d) ≡ (if contains k ks then none else lookup k d)
  unfolding erase_all contains
  lookup-erase_all k [] d = refl
  lookup-erase_all k (j ∷ ks) d =
      ground (arith, lookup-erase k j d, lookup-erase_all k ks (erase j d))

  -- A dict has each key once.
  abbrev pub OneEach : Dict K ℕ → Type 0
  OneEach [] = Unit
  OneEach ((k, _) ∷ d) = (lookup k d ≡ none) × OneEach d

  contains-spent :
      (k : K) (d : Dict K ℕ)
      → OneEach d
      → contains k (spent d) ≡ elim (lookup k d) as (λ _. Bool) [ none ↦ false | some v ↦ leb v 0 ]
  unfolding contains spent lookup
  contains-spent k [] h = refl
  contains-spent k ((j, v) ∷ d) h = ground (arith, e.beq_iff k j, contains-spent k d h.1)

  lowered-OneEach : (d : Dict K ℕ) → OneEach d → OneEach (lowered d)
  unfolding lowered
  lowered-OneEach [] h = tt
  lowered-OneEach ((k, v) ∷ d) h = (ground (arith, lookup-lowered k d), lowered-OneEach d h.1)

  erase-OneEach : (k : K) (d : Dict K ℕ) → OneEach d → OneEach (erase k d)
  unfolding erase
  erase-OneEach k [] h = tt
  erase-OneEach k ((j, v) ∷ d) h = ground (arith, lookup-erase j k d, erase-OneEach k d h.1)

  erase_all-OneEach : (ks : List K) (d : Dict K ℕ) → OneEach d → OneEach (erase_all ks d)
  unfolding erase_all
  erase_all-OneEach [] d h = h
  erase_all-OneEach (k ∷ ks) d h = erase_all-OneEach ks (erase k d) (erase-OneEach k d h)

  lookup-decrement :
      (k : K) (d : Dict K ℕ)
      → OneEach d
      → lookup k (decrement_dict d) ≡ (if leb (uses k d) 1 then none else some (uses k d - 1))
  unfolding decrement_dict
  lookup-decrement k d h = ground (
    arith,
    lookup-erase_all k (spent (lowered d)) (lowered d),
    contains-spent k (lowered d) (lowered-OneEach d h),
    lookup-lowered k d,
  )

  decrement-OneEach : (d : Dict K ℕ) → OneEach d → OneEach (decrement_dict d)
  unfolding decrement_dict
  decrement-OneEach d h = erase_all-OneEach (spent (lowered d)) (lowered d) (lowered-OneEach d h)

  -- The dict implements a counter for each key: after n runs of the job the count of a key is what it
  -- was less n, and a key whose count has come to 0 has no entry any more. No key stands twice in the
  -- dict, and the key has no entry of 0 to begin with.
  pub lookup-decrement_times :
      (n : ℕ) (k : K) (d : Dict K ℕ)
      → OneEach d
      → lookup k d ≢ some 0
      → lookup k (decrement_times n d) ≡ (if leb (uses k d) n then none else some (uses k d - n))
  unfolding decrement_times
  lookup-decrement_times zero k d h p = ground (arith, p)
  lookup-decrement_times (suc n) k d h p = ground (
    arith,
    lookup-decrement k d h,
    lookup-decrement_times n k (decrement_dict d) (decrement-OneEach d h),
  )
