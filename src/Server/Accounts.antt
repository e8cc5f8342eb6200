-- ===== src/Server/Accounts.antt =====
-- What the handlers ask of the databases of users (SQLUsers.py), as an interface, and the lookups of
-- DataHandler.py that fall back on it: `clientFromUsername` and `clientFromID` with `fromdb`,
-- `bridgedClientFromUsername`, `bridgedClientFromID`.
use uberserver.Base.{ℕ, Bool, List, [], Option, none, some, if◌then◌else◌, nat_eq, text_eq, ◌==◌}
use uberserver.Base.Dict.{lookup, contains}
use uberserver.Base.Text.{Text}
use uberserver.Server.Types.{Root}
use uberserver.Server.Store.{client_from_username, client_from_id}
use uberserver.Channel.Access.{Person, person}
use uberserver.Protocol.Rights.{levels_of}

-- The part of an `OfflineClient` that handlers read.
pub record Account : Type 0 where
  pub user_id : ℕ
  pub username : Text
  pub last_ip : Text
  pub access : Text
  pub bot : Bool

pub record Bridged : Type 0 where
  pub bridged_id : ℕ
  pub username : Text

-- `UsersHandler` and `BridgedUsersHandler`. The database compares names without case.
pub record UserDb : Type 0 where
  pub by_username : Text → Option Account
  pub by_id : ℕ → Option Account
  pub bridged_by_username : Text → Option Bridged
  pub bridged_by_id : ℕ → Option Bridged

-- An account as channels see it, with access levels only where `_calc_access` has set them.
abbrev pub offline : Account → List Text → Person
offline a levels = record {
  user_id = a.user_id;
  username = a.username;
  last_ip = a.last_ip;
  accesslevels = levels;
  session = none;
}

module _ (users : UserDb) (r : Root) where
  unfoldable pub find_username : Text → Option Person
  unfolding client_from_username
  find_username username = elim (client_from_username r username) [
    | some sid ↦ some (person (r.client_at sid))
    | none ↦ elim (users.by_username username) [
      | none ↦ none
      | some a ↦ if username == a.username then some (offline a (levels_of a.access)) else none
    ]
  ]

  -- No access levels are set here.
  unfoldable pub find_id : ℕ → Option Person
  unfolding client_from_id
  find_id user_id = elim (client_from_id r user_id) [
    | some sid ↦ some (person (r.client_at sid))
    | none ↦ elim (users.by_id user_id) [ none ↦ none | some a ↦ some (offline a []) ]
  ]

  unfoldable pub find_bridged : Text → Option Bridged
  find_bridged username = elim (lookup username r.bridged_usernames) [
    | some bridged_id ↦
        some (record { bridged_id = bridged_id; username = (r.bridged_at bridged_id).username })
    | none ↦ users.bridged_by_username username
  ]

  unfoldable pub find_bridged_id : ℕ → Option Bridged
  find_bridged_id bridged_id =
      if contains bridged_id r.bridged_ids
      then some (record { bridged_id = bridged_id; username = (r.bridged_at bridged_id).username })
      else users.bridged_by_id bridged_id
