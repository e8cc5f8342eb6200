-- ===== src/Users/Bans/Fresh.antt =====
-- That the cache of bans in SQLUsers.py cannot be told from the query.
use mathlib.Core.Option.{some-injective}
use uberserver.Base.{
  ℕ, ◌+◌, ◌≤◌, ◌≡◌, refl, sym, ap, ◌∙◌, true, ◌&&◌, Option, none, some, arith, if◌then◌else◌, ◌==◌,
  leb, leb→le, Eq, Bool-cases, Option-cases, inl, inr,
}
use uberserver.Base.Dict.{lookup, lookup-insert}
use uberserver.Users.Bans.{Ban, BanCache, ban_cache_ttl, in_force, asked_again, check_ban}

module _ {K : Type 0} ⦃e : Eq K⦄ (query : K → ℕ → Option Ban) where
  -- While nobody is banned and no ban is lifted: a ban that was found is found until it ends, and where
  -- none was found none is found later.
  abbrev pub Stable : Type 0
  Stable =
      ((k : K) (t u : ℕ) (ban : Ban)
        → query k t ≡ some ban
        → t ≤ u
        → u ≤ ban.end_date
        → query k u ≡ some ban)
      × ((k : K) (t u : ℕ) → query k t ≡ none → t ≤ u → query k u ≡ none)

  -- Each entry of the cache was the query's answer at a time that is not after `now`.
  abbrev pub Remembered : ℕ → BanCache K → Type 0
  Remembered now cache =
      (k : K) (result : Option Ban) (expiry : ℕ)
      → lookup k cache ≡ some (result, expiry)
      → (t : ℕ) × (query k t ≡ result) × (t ≤ now)

  still :
      Stable
      → (k : K) (result : Option Ban) (t now : ℕ) → query k t ≡ result
      → t ≤ now
      → in_force result now ≡ true
      → result ≡ query k now
  still stable k none t now was le lasts = sym (stable.1 k t now was le)
  still stable k (some ban) t now was le lasts =
      sym (stable.0 k t now ban was le (leb→le now ban.end_date lasts))

  again-Remembered :
      (key : K) (now : ℕ) (cache : BanCache K)
      → Remembered now cache
      → Remembered now (asked_again query key now cache).1
  again-Remembered key now cache h k result expiry found =
      let entry : Option Ban × ℕ = (query key now, now + ban_cache_ttl) in
      let chosen : (if k == key then some entry else lookup k cache) ≡ some (result, expiry) =
        sym (lookup-insert k key entry cache) ∙ found in
      elim (Bool-cases (k == key)) [
        | inl same ↦ (
          now,
          ap (λ (j : K). query j now) ((e.beq_iff k key).0 same)
              ∙ ap (λ (v : Option Ban × ℕ). v.0)
                  (some-injective entry (result, expiry) (rw same at chosen)),
          omega arith,
        )
        | inr other ↦ h k result expiry (rw other at chosen)
      ]

  later-Remembered :
      (now later : ℕ) (cache : BanCache K)
      → now ≤ later
      → Remembered now cache
      → Remembered later cache
  later-Remembered now later cache le h k result expiry found =
      let (t, was, before) = h k result expiry found in (t, was, omega (arith, le, before))

  check-Remembered :
      Stable
      → (key : K) (now : ℕ) (cache : BanCache K) → Remembered now cache
      → ((check_ban query key now cache).0 ≡ query key now)
        × Remembered now (check_ban query key now cache).1
  unfolding check_ban
  check-Remembered stable key now cache h = elim (Option-cases (lookup key cache)) [
    | inl missing ↦ rw (missing, check_ban) (refl, again-Remembered key now cache h)
    | inr ((result, expiry), found) ↦ elim (Bool-cases (leb now expiry && in_force result now)) [
      | inr over ↦ rw (found, check_ban) (rw over (refl, again-Remembered key now cache h))
      | inl usable ↦
          let (t, was, before) = h key result expiry found in
          let lasts : in_force result now ≡ true = ground arith in
          (
            rw (found, check_ban) (rw usable (still stable key result t now was before lasts)),
            rw (found, check_ban) (rw usable h),
          )
    ]
  ]

-- The cached check for a ban gives what the query gives now, as long as nobody is banned and no ban is
-- lifted: at a time that is not before those at which the cache was filled, it is the query's answer,
-- although the cache has answers up to five minutes old, and it leaves such a cache.
pub check_ban-Remembered :
    {K : Type 0} ⦃e : Eq K⦄
    → (query : K → ℕ → Option Ban) (key : K) (before now : ℕ) (cache : BanCache K) → Stable query
    → before ≤ now
    → Remembered query before cache
    → ((check_ban query key now cache).0 ≡ query key now)
      × Remembered query now (check_ban query key now cache).1
check_ban-Remembered query key before now cache stable le h =
    check-Remembered query stable key now cache (later-Remembered query before now cache le h)
