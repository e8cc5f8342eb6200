-- ===== src/Users/Login.antt =====
-- protocol/Protocol.py: `_login_finish_now` and the beginning of `_SendLoginInfo`, until the client is
-- in the tables. What follows is sent to the client and to the others, and is not modelled; neither are
-- the country of an address, the texts of the agreement and the cache of users, which
-- Users/Cache.antt has. Whether an address is one is the parameter `is_address`.
use uberserver.Base.{
  ℕ, Bool, true, false, ◌||◌, not, List, [], ◌∷◌, Option, none, some, if◌then◌else◌, ◌==◌, text_eq,
  nat_eq,
}
use uberserver.Base.Dict.{Dict, lookup, insert, has_key}
use uberserver.Base.Int.{pos}
use uberserver.Base.Text.{Text, codes, starts_with}
use uberserver.Server.Types.{Root, Client, Message, Piece, lit, txt}
use uberserver.Server.Store.{set_client}
use uberserver.Server.Cast.{send}
use uberserver.Server.Outcome.{Outcome, done, raised, ◌>>=◌}
use uberserver.Server.Accounts.{Account}
use uberserver.Protocol.Rights.{calc_access, calc_status}
pub mod Once
pub mod Asked

-- What `do_login` gives: the account, the time in games, and the ids of those that the user ignores.
pub record Snapshot : Type 0 where
  pub account : Account
  pub ingame_time : ℕ
  pub ignored : List ℕ

-- The fields that come from the database.
unfoldable pub take_account : ℕ → Snapshot → Text → Root → Root
unfolding calc_access
take_account sid u agent r = calc_access sid (
    set_client sid
      (λ c. record c {
        access = u.account.access;
        username = u.account.username;
        user_id = u.account.user_id;
        bot = u.account.bot;
        last_ip = u.account.last_ip;
        ingame_time = u.ingame_time;
        agent = agent;
      })
      r)

abbrev denied : ℕ → Root → Root
denied sid r = send sid (lit "DENIED " ∷ lit "Already logged in." ∷ []) r

-- `_SendLoginInfo`, as far as the tables.
unfoldable pub enter_lobby : ℕ → List ℕ → Root → Outcome
unfolding calc_status
enter_lobby sid ignored r = calc_status sid (pos 0) r >>= λ s.
    let c = s.client_at sid in
    done (
      set_client sid (λ d. record d { logged_in = true; ignored = ignored })
        (record s {
          user_ids = insert c.user_id sid s.user_ids;
          usernames = insert c.username sid s.usernames;
        }))

-- Either name of the account is in use.
unfoldable pub is_taken : ℕ → Root → Bool
is_taken sid r =
    let c = r.client_at sid in has_key c.username r.usernames || has_key c.user_id r.user_ids

-- The address in the local network that is kept: the connection's own in place of one that is none.
unfoldable pub set_local_ip : (Text → Bool) → ℕ → Text → Root → Root
unfolding starts_with
set_local_ip is_address sid local_ip r =
    let own = starts_with (codes "127.") local_ip || not (is_address local_ip) in
    set_client sid (λ c. record c { local_ip = if own then c.ip_address else local_ip }) r

unfoldable pub login_finish_now : (Text → Bool) → ℕ → Snapshot → Text → Text → Root → Outcome
unfolding take_account set_local_ip is_taken send enter_lobby
login_finish_now is_address sid u agent local_ip r =
    let r1 = take_account sid u agent r in
    if u.account.access == codes "agreement"
    then done r1
    else (let r2 = set_local_ip is_address sid local_ip r1 in
        if is_taken sid r2 then done (denied sid r2) else enter_lobby sid u.ignored r2)
