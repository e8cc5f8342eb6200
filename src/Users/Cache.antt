-- ===== src/Users/Cache.antt =====
-- SQLUsers.py: the cache of `UsersHandler`: `_user_cache_get`, `_user_cache_put`,
-- `invalidate_user_cache`, `flush_user_cache`, and `clientFromID`, `clientFromUsername` through it.
-- The queries themselves are the parameter `db`.
use uberserver.Base.{
  ℕ, ◌+◌, Bool, true, false, not, ◌&&◌, List, [], ◌∷◌, Option, none, some, if◌then◌else◌, ltb, leb,
  length, nat_eq, text_eq, Eq,
}
use uberserver.Base.Dict.{Dict, lookup, insert, erase, has_key}
use uberserver.Base.Text.{Text}
use uberserver.Server.Accounts.{Account}
pub mod Coherence
pub mod Writes

-- In seconds, and in entries of each dict.
abbrev pub user_cache_ttl : ℕ
user_cache_ttl = 120

abbrev pub user_cache_max : ℕ
user_cache_max = 500

-- An account, and until when it may be used.
abbrev pub Hit : Type 0
Hit = Account × ℕ

pub record UserCache : Type 0 where
  pub by_name : Dict Text Hit
  pub by_id : Dict ℕ Hit

-- The queries for one user, by id and by name.
pub record Queries : Type 0 where
  pub with_id : ℕ → Option Account
  pub with_name : Text → Option Account

-- `store.pop(next(iter(store)))`
abbrev pub pop_first {ℓ} : {A : Type ℓ} → List A → List A
pop_first [] = []
pop_first (_ ∷ xs) = xs

module _ {ℓ} {K : Type ℓ} ⦃e : Eq K⦄ where
  -- What is found, and the store without it where its time is over.
  unfoldable pub user_cache_get : K → ℕ → Dict K Hit → Option Account × Dict K Hit
  user_cache_get key now store = elim (lookup key store) [
    | none ↦ (none, store)
    | some (client, expiry) ↦
        if ltb expiry now then (none, erase key store) else (some client, store)
  ]

  -- The loop of `_user_cache_put`, for one of the two stores: the oldest entry makes room.
  unfoldable pub put_one : K → Account → ℕ → Dict K Hit → Dict K Hit
  put_one key client expiry store =
      insert key (client, expiry)
        (if not (has_key key store) && leb user_cache_max (length store)
          then pop_first store
          else store)

unfoldable pub user_cache_put : Account → ℕ → UserCache → UserCache
unfolding put_one
user_cache_put client now c =
    let expiry = now + user_cache_ttl in
    record {
      by_name = put_one client.username client expiry c.by_name;
      by_id = put_one client.user_id client expiry c.by_id;
    }

abbrev popped {ℓ} : {K : Type ℓ} ⦃e : Eq K⦄ → Option K → Dict K Hit → Dict K Hit
popped none store = store
popped (some key) store = erase key store

unfoldable pub invalidate_user_cache : Option ℕ → Option Text → UserCache → UserCache
invalidate_user_cache user_id username c = record {
  by_name = popped username c.by_name;
  by_id = popped user_id c.by_id;
}

abbrev pub flush_user_cache : UserCache → UserCache
flush_user_cache c = record { by_name = []; by_id = [] }

-- A query whose answer is kept.
abbrev queried : Option Account → ℕ → UserCache → Option Account × UserCache
queried none now c = (none, c)
queried (some client) now c = (some client, user_cache_put client now c)

module _ (db : Queries) where
  unfoldable pub cached_from_id : ℕ → ℕ → UserCache → Option Account × UserCache
  unfolding user_cache_get user_cache_put
  cached_from_id user_id now c =
      let (cached, store) = user_cache_get user_id now c.by_id in
      let c1 = record c { by_id = store } in
      elim cached [ some client ↦ (some client, c1) | none ↦ queried (db.with_id user_id) now c1 ]

  unfoldable pub cached_from_username : Text → ℕ → UserCache → Option Account × UserCache
  unfolding user_cache_get user_cache_put
  cached_from_username username now c =
      let (cached, store) = user_cache_get username now c.by_name in
      let c1 = record c { by_name = store } in
      elim cached [
        | some client ↦ (some client, c1)
        | none ↦ queried (db.with_name username) now c1
      ]
