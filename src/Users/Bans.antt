-- ===== src/Users/Bans.antt =====
-- SQLUsers.py: the cache of `check_ban`, `_query_ban`, `_flush_ban_cache`, and what a login is checked
-- by: `check_login_user`, `check_banned`, `remaining_ban_str`, `precheck_login`. The queries are
-- parameters. Numbers are seconds, and the query finds only bans that have not ended.
use uberserver.Base.{
  ℕ, ◌+◌, ◌-◌, ◌*◌, ◌/◌, Bool, true, false, not, ◌&&◌, List, [], ◌∷◌, ◌++◌, Option, none, some,
  if◌then◌else◌, ◌==◌, ltb, leb, eqb, text_eq, Eq,
}
use uberserver.Base.Dict.{Dict, lookup, insert}
use uberserver.Base.Text.{Text, codes, show_nat}
pub mod Fresh
pub mod Admitted

pub record Ban : Type 0 where
  pub reason : Text
  pub end_date : ℕ

abbrev pub ban_cache_ttl : ℕ
ban_cache_ttl = 300

-- By user id, address and e-mail: what was found, and until when it may be used.
abbrev pub BanCache : Type 0 → Type 0
BanCache K = Dict K (Option Ban × ℕ)

abbrev pub in_force : Option Ban → ℕ → Bool
in_force none now = true
in_force (some ban) now = leb now ban.end_date

-- `K` is the type of the keys, and `query` is `_query_ban` of a key and a time.
module _ {K : Type 0} ⦃e : Eq K⦄ (query : K → ℕ → Option Ban) where
  abbrev pub asked_again : K → ℕ → BanCache K → Option Ban × BanCache K
  asked_again key now cache =
      let result = query key now in (result, insert key (result, now + ban_cache_ttl) cache)

  unfoldable pub check_ban : K → ℕ → BanCache K → Option Ban × BanCache K
  check_ban key now cache = elim (lookup key cache) [
    | none ↦ asked_again key now cache
    | some (result, expiry) ↦
        if leb now expiry && in_force result now then (result, cache) else asked_again key now cache
  ]

-- `_query_ban`: by the user, then by the address, then by the e-mail; an id of 0 and an empty text ask
-- for nothing.
pub record BanQueries : Type 0 where
  pub of_user : ℕ → ℕ → Option Ban
  pub of_ip : Text → ℕ → Option Ban
  pub of_email : Text → ℕ → Option Ban

abbrev asked_nat : Option ℕ → Option ℕ
asked_nat none = none
asked_nat (some n) = if eqb n 0 then none else some n

abbrev asked_text : Option Text → Option Text
asked_text none = none
asked_text (some []) = none
asked_text (some (c ∷ s)) = some (c ∷ s)

abbrev or_else : Option Ban → Option Ban → Option Ban
or_else none later = later
or_else (some ban) later = some ban

unfoldable pub query_ban : BanQueries → Option ℕ × Option Text × Option Text → ℕ → Option Ban
query_ban q (user_id, ip, email) now =
    let by_email : Option Ban = elim (asked_text email) [
      | none ↦ none
      | some m ↦ q.of_email m now
    ] in
    let by_ip : Option Ban = elim (asked_text ip) [ none ↦ none | some a ↦ q.of_ip a now ] in
    let by_user : Option Ban = elim (asked_nat user_id) [
      | none ↦ none
      | some u ↦ q.of_user u now
    ] in
    or_else by_user (or_else by_ip by_email)

-- The part of a row of the table of users that a login is checked by.
pub record Row : Type 0 where
  pub user_id : ℕ
  pub username : Text
  pub password : Text
  pub access : Text
  pub email : Text

-- The time that a ban has left.
unfoldable pub remaining_ban_str : ℕ → ℕ → Text
remaining_ban_str end_date now =
    let timeleft = end_date - now in
    if ltb (60 * 60 * 24 * 900) timeleft
    then []
    else if ltb (60 * 60 * 24) timeleft
    then show_nat (timeleft / (60 * 60 * 24)) ++ codes " days remaining"
    else if ltb (60 * 60) timeleft
    then show_nat (timeleft / (60 * 60)) ++ codes " hours remaining"
    else codes "less than one hour remaining"

-- Whether a login is accepted, with the reason if not.
pub data Verdict : Type 0 where
  accepted : Verdict
  denied : Text → Verdict

module _ (with_name : Text → Option Row) where
  -- The table compares names without case.
  unfoldable pub check_login_user : Text → Text → Verdict
  check_login_user username password = elim (with_name username) [
    | none ↦ denied (codes "Invalid username or password")
    | some row ↦
        if not (row.username == username)
        then denied (codes "Invalid username -- did you mean '" ++ row.username ++ codes "'")
        else if not (row.password == password)
        then denied (codes "Invalid username or password")
        else accepted
  ]

  -- `banned` is `check_ban` of a user, an address and an e-mail at this time.
  module _ (banned : ℕ → Text → Text → Option Ban) (now : ℕ) where
    unfoldable pub check_banned : Text → Text → Option Text
    unfolding remaining_ban_str
    check_banned username ip = elim (with_name username) [
      | none ↦ none
      | some row ↦ elim (banned row.user_id ip row.email) [
        | none ↦ none
        | some ban ↦
            if row.access == codes "admin"
            then none
            else some (
                codes "You are banned: ("
                ++ ban.reason
                ++ codes "), "
                ++ remaining_ban_str ban.end_date now)
      ]
    ]

    -- The credentials, and the reason of a ban, which is asked for only where they are right.
    unfoldable pub precheck_login : Text → Text → Text → Verdict × Option Text
    unfolding check_login_user check_banned
    precheck_login username password ip = elim (check_login_user username password) [
      | denied reason ↦ (denied reason, none)
      | accepted ↦ (accepted, check_banned username ip)
    ]
