-- ===== src/Users/Cache/Writes.antt =====
-- What a write to the table of users asks of the cache of SQLUsers.py, and how large the cache grows.
use uberserver.Base.{
  ℕ, suc, ◌+◌, ◌≤◌, ◌≡◌, true, false, [], ◌∷◌, Option, some, arith, leb, length, nat_eq, text_eq,
  Eq, ◌==◌, Bool-cases, inl, inr,
}
use uberserver.Base.Dict.{Dict, lookup, insert, erase, has_key}
use uberserver.Base.Text.{Text}
use uberserver.Server.Accounts.{Account}
use uberserver.Users.Cache.{
  Hit, UserCache, Queries, user_cache_max, pop_first, put_one, user_cache_put,
  invalidate_user_cache, cached_from_id, cached_from_username,
}
use uberserver.Users.Cache.Coherence.{Answers, Coherent, Keyed, cached_from-Coherent}

module _ {ℓ} {K : Type ℓ} ⦃e : Eq K⦄ where
  -- Between two states of the table, the rows that stand under another key than one, and are asked for
  -- by it, stay; new rows may come.
  abbrev pub OnlyAt : (Account → K) → K → (K → Option Account) → (K → Option Account) → Type ℓ
  OnlyAt own key before after =
      (k : K) (a : Account) → before k ≡ some a → own a ≡ k → (k == key) ≡ false → after k ≡ some a

  erase-OnlyAt :
      (own : Account → K) (key : K) (before after : K → Option Account) (d : Dict K Hit)
      → OnlyAt own key before after
      → Answers own before d
      → Answers own after (erase key d)
  unfolding erase
  erase-OnlyAt own key before after [] only h = tt
  erase-OnlyAt own key before after ((k, (a, t)) ∷ d) only h =
      let rest = erase-OnlyAt own key before after d only h.1 in
      elim (Bool-cases (key == k)) [
        | inl same ↦ ground arith
        | inr other ↦
            let apart : (k == key) ≡ false = ground (arith, e.beq_iff k key, e.beq_iff key k) in
            let here : after k ≡ some a = only k a h.0.0 h.0.1 apart in ground arith
      ]

  insert-grows :
      (k : K) (a : Account) (t : ℕ) (d : Dict K Hit) → length (insert k (a, t) d) ≤ suc (length d)
  unfolding insert
  insert-grows k a t [] = omega arith
  insert-grows k a t ((j, b) ∷ d) = ground (arith, insert-grows k a t d)

  length-replace :
      (k : K) (a : Account) (t : ℕ) (d : Dict K Hit)
      → has_key k d ≡ true
      → length (insert k (a, t) d) ≡ length d
  unfolding insert lookup
  length-replace k a t [] h = ground arith
  length-replace k a t ((j, b) ∷ d) h = ground (arith, length-replace k a t d)

  pop_first-room :
      (k : K) (a : Account) (t : ℕ) (d : Dict K Hit)
      → length d ≤ user_cache_max
      → length (insert k (a, t) (pop_first d)) ≤ user_cache_max
  pop_first-room k a t [] h = ground (arith, insert-grows k a t [])
  pop_first-room k a t (_ ∷ d) h = ground (arith, insert-grows k a t d)

  length-put_one :
      (k : K) (a : Account) (t : ℕ) (d : Dict K Hit)
      → length d ≤ user_cache_max
      → length (put_one k a t d) ≤ user_cache_max
  unfolding put_one
  length-put_one k a t d h = elim (Bool-cases (has_key k d)) [
    | inl there ↦ rw (there, put_one) (rw (length-replace k a t d there) h)
    | inr new ↦ elim (Bool-cases (leb user_cache_max (length d))) [
      | inl full ↦ rw (new, put_one) (rw full (pop_first-room k a t d h))
      | inr free ↦ rw (new, put_one) (rw free (ground (arith, insert-grows k a t d)))
    ]
  ]

-- After a write to the row of one user, whose id and name were these, `invalidate_user_cache` with both
-- leaves a cache that holds only what the queries now answer, and the next lookups give the new row.
-- The write may change that row alone, its name included, and may add rows; ids and names are keys.
pub invalidate-Coherent :
    (before db : Queries) (id now : ℕ) (username : Text) (c : UserCache)
    → OnlyAt (λ a. a.user_id) id before.with_id db.with_id
    → OnlyAt (λ a. a.username) username before.with_name db.with_name
    → Coherent before c
    → Keyed db
    → let d = invalidate_user_cache (some id) (some username) c in
      Coherent db d
      × ((cached_from_id db id now d).0 ≡ db.with_id id)
      × ((cached_from_username db username now d).0 ≡ db.with_name username)
unfolding invalidate_user_cache
invalidate-Coherent before db id now username c ids names h keyed =
    let d = invalidate_user_cache (some id) (some username) c in
    let fresh : Coherent db d = (
      erase-OnlyAt (λ a. a.user_id) id before.with_id db.with_id c.by_id ids h.0,
      erase-OnlyAt (λ a. a.username) username before.with_name db.with_name c.by_name names h.1,
    ) in
    let (by_id, _, by_name, _) = cached_from-Coherent db now id username d keyed fresh in
    (fresh, by_id, by_name)

-- A dict of the cache that has at most 500 entries keeps to that: one more answer drops the oldest
-- where the dict is full.
user_cache_put-bounds :
    (a : Account) (now : ℕ) (c : UserCache)
    → length c.by_name ≤ user_cache_max
    → length c.by_id ≤ user_cache_max
    → (length (user_cache_put a now c).by_name ≤ user_cache_max)
      × (length (user_cache_put a now c).by_id ≤ user_cache_max)
unfolding user_cache_put
user_cache_put-bounds a now c names ids = (
  length-put_one a.username a (now + 120) c.by_name names,
  length-put_one a.user_id a (now + 120) c.by_id ids,
)
