-- ===== src/Users/Cache/Coherence.antt =====
-- That the cache of SQLUsers.py cannot be told from the database.
use uberserver.Base.{
  ℕ, ◌+◌, ◌≡◌, refl, sym, ◌∙◌, not, ◌&&◌, [], ◌∷◌, Option, none, some, arith, ltb, leb, length,
  nat_eq, text_eq, Eq, ◌==◌, Bool-cases, Option-cases, inl, inr, ◌⊎◌,
}
use uberserver.Base.Dict.{Dict, lookup, insert, erase, has_key}
use uberserver.Base.Text.{Text}
use uberserver.Server.Accounts.{Account}
use uberserver.Users.Cache.{
  Hit, UserCache, Queries, user_cache_max, pop_first, user_cache_get, put_one, user_cache_put,
  cached_from_id, cached_from_username, queried,
}

module _ {ℓ} {K : Type ℓ} ⦃e : Eq K⦄ (own : Account → K) (answer : K → Option Account) where
  -- Every entry of a store stands under the key of its account, and is what the query for it answers.
  abbrev pub Answers : Dict K Hit → Type ℓ
  Answers [] = Unit
  Answers ((k, (a, _)) ∷ d) = ((answer k ≡ some a) × (own a ≡ k)) × Answers d

  lookup-Answers :
      (k : K) (a : Account) (t : ℕ) (d : Dict K Hit)
      → Answers d
      → lookup k d ≡ some (a, t)
      → answer k ≡ some a
  unfolding lookup
  lookup-Answers k a t [] h found = ground arith
  lookup-Answers k a t ((j, (b, s)) ∷ d) h found = elim (Bool-cases (k == j)) [
    | inl same ↦ ground (arith, e.beq_iff k j)
    | inr other ↦ lookup-Answers k a t d h.1 (ground arith)
  ]

  erase-Answers : (k : K) (d : Dict K Hit) → Answers d → Answers (erase k d)
  unfolding erase
  erase-Answers k [] h = tt
  erase-Answers k ((j, (b, s)) ∷ d) h = ground (arith, erase-Answers k d h.1)

  insert-Answers :
      (k : K) (a : Account) (t : ℕ) (d : Dict K Hit)
      → Answers d
      → (answer k ≡ some a) × (own a ≡ k)
      → Answers (insert k (a, t) d)
  unfolding insert
  insert-Answers k a t [] h now = (now, tt)
  insert-Answers k a t ((j, (b, s)) ∷ d) h now = ground (arith, insert-Answers k a t d h.1 now)

  pop_first-Answers : (d : Dict K Hit) → Answers d → Answers (pop_first d)
  pop_first-Answers [] h = tt
  pop_first-Answers (_ ∷ d) h = h.1

  put_one-Answers :
      (k : K) (a : Account) (t : ℕ) (d : Dict K Hit)
      → Answers d
      → (answer k ≡ some a) × (own a ≡ k)
      → Answers (put_one k a t d)
  unfolding put_one
  put_one-Answers k a t d h now =
      elim (Bool-cases (not (has_key k d) && leb user_cache_max (length d))) [
        | inl full ↦
            rw (full, put_one) (insert-Answers k a t (pop_first d) (pop_first-Answers d h) now)
        | inr free ↦ rw (free, put_one) (insert-Answers k a t d h now)
      ]

  -- What the cache gives is the query's answer, and what it keeps answers too.
  get-Answers :
      (k : K) (now : ℕ) (d : Dict K Hit)
      → Answers d
      → ((user_cache_get k now d).0 ≡ none) ⊎ ((user_cache_get k now d).0 ≡ answer k)
  unfolding user_cache_get
  get-Answers k now d h = elim (Option-cases (lookup k d)) [
    | inl missing ↦ rw (missing, user_cache_get) (inl refl)
    | inr ((a, t), found) ↦ elim (Bool-cases (ltb t now)) [
      | inl old ↦ rw (found, user_cache_get) (rw old (inl refl))
      | inr young ↦
          rw (found, user_cache_get) (rw young (inr (sym (lookup-Answers k a t d h found))))
    ]
  ]

  kept-Answers : (k : K) (now : ℕ) (d : Dict K Hit) → Answers d → Answers (user_cache_get k now d).1
  unfolding user_cache_get
  kept-Answers k now d h = elim (Option-cases (lookup k d)) [
    | inl missing ↦ rw (missing, user_cache_get) h
    | inr ((a, t), found) ↦ elim (Bool-cases (ltb t now)) [
      | inl old ↦ rw (found, user_cache_get) (rw old (erase-Answers k d h))
      | inr young ↦ rw (found, user_cache_get) (rw young h)
    ]
  ]

-- The cache holds nothing but what the queries answer, under the ids and names of the accounts.
abbrev pub Coherent : Queries → UserCache → Type 0
Coherent db c =
    Answers (λ a. a.user_id) db.with_id c.by_id × Answers (λ a. a.username) db.with_name c.by_name

-- Ids and names are keys: the row that a query finds is found by its own id and by its own name.
abbrev pub Keyed : Queries → Type 0
Keyed db =
    ((k : ℕ) (a : Account)
      → db.with_id k ≡ some a
      → (db.with_id a.user_id ≡ some a) × (db.with_name a.username ≡ some a))
    × ((k : Text) (a : Account)
        → db.with_name k ≡ some a
        → (db.with_id a.user_id ≡ some a) × (db.with_name a.username ≡ some a))

module _ (db : Queries) (keyed : Keyed db) (now : ℕ) where
  put-Coherent :
      (a : Account) (c : UserCache)
      → (db.with_id a.user_id ≡ some a) × (db.with_name a.username ≡ some a)
      → Coherent db c
      → Coherent db (user_cache_put a now c)
  unfolding user_cache_put
  put-Coherent a c own h = (
    put_one-Answers (λ a. a.user_id) db.with_id a.user_id a (now + 120) c.by_id h.0 (own.0, refl),
    put_one-Answers (λ a. a.username) db.with_name a.username a (now + 120) c.by_name h.1
        (own.1, refl),
  )

  queried-Coherent :
      (answer : Option Account) (c : UserCache)
      → ((a : Account)
          → answer ≡ some a
          → (db.with_id a.user_id ≡ some a) × (db.with_name a.username ≡ some a))
      → Coherent db c
      → ((queried answer now c).0 ≡ answer) × Coherent db (queried answer now c).1
  queried-Coherent none c own h = (refl, h)
  queried-Coherent (some a) c own h = (refl, put-Coherent a c (own a refl) h)

  id-Coherent :
      (user_id : ℕ) (c : UserCache)
      → Coherent db c
      → ((cached_from_id db user_id now c).0 ≡ db.with_id user_id)
        × Coherent db (cached_from_id db user_id now c).1
  unfolding cached_from_id
  id-Coherent user_id c h =
      let c1 = record c { by_id = (user_cache_get user_id now c.by_id).1 } in
      let h1 : Coherent db c1 =
        (kept-Answers (λ a. a.user_id) db.with_id user_id now c.by_id h.0, h.1) in
      let asked =
        queried-Coherent (db.with_id user_id) c1 (λ a found. keyed.0 user_id a found) h1 in
      elim (Option-cases (user_cache_get user_id now c.by_id).0) [
        | inl miss ↦ rw (miss, cached_from_id) asked
        | inr (a, hit) ↦ elim (get-Answers (λ a. a.user_id) db.with_id user_id now c.by_id h.0) [
          | inl miss ↦ absurd cc
          | inr right ↦ rw (hit, cached_from_id) (sym hit ∙ right, h1)
        ]
      ]

  name-Coherent :
      (username : Text) (c : UserCache)
      → Coherent db c
      → ((cached_from_username db username now c).0 ≡ db.with_name username)
        × Coherent db (cached_from_username db username now c).1
  unfolding cached_from_username
  name-Coherent username c h =
      let c1 = record c { by_name = (user_cache_get username now c.by_name).1 } in
      let h1 : Coherent db c1 =
        (h.0, kept-Answers (λ a. a.username) db.with_name username now c.by_name h.1) in
      let asked =
        queried-Coherent (db.with_name username) c1 (λ a found. keyed.1 username a found) h1 in
      elim (Option-cases (user_cache_get username now c.by_name).0) [
        | inl miss ↦ rw (miss, cached_from_username) asked
        | inr (a, hit) ↦
            elim (get-Answers (λ a. a.username) db.with_name username now c.by_name h.1) [
              | inl miss ↦ absurd cc
              | inr right ↦ rw (hit, cached_from_username) (sym hit ∙ right, h1)
            ]
      ]

-- The cached lookups cannot be told from the queries: where ids and names are keys, and the cache
-- holds only what the queries answer, each account under its own id and name, a lookup by id or by name
-- gives the query's answer at any time, and leaves such a cache.
pub cached_from-Coherent :
    (db : Queries) (now user_id : ℕ) (username : Text) (c : UserCache)
    → Keyed db
    → Coherent db c
    → ((cached_from_id db user_id now c).0 ≡ db.with_id user_id)
      × Coherent db (cached_from_id db user_id now c).1
      × ((cached_from_username db username now c).0 ≡ db.with_name username)
      × Coherent db (cached_from_username db username now c).1
cached_from-Coherent db now user_id username c keyed h =
    let (by_id, left_by_id) = id-Coherent db keyed now user_id c h in
    let (by_name, left_by_name) = name-Coherent db keyed now username c h in
    (by_id, left_by_id, by_name, left_by_name)
