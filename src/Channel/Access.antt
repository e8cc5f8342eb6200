-- ===== src/Channel/Access.antt =====
-- protocol/Channel.py: `isAdmin`, `isMod`, `isFounder`, `isOp`, `getAccess`, `isMuted`, `hasKey`, and
-- `canChangeSettings`, `passworded` of protocol/Battle.py. The client is always given.
use uberserver.Base.{
  ℕ, Bool, false, ◌||◌, not, Option, none, some, eqb, if◌then◌else◌, nat_eq, text_eq, List,
}
use uberserver.Base.Dict.{contains, has_key}
use uberserver.Base.Text.{Text, codes}
use uberserver.Server.Types.{Channel, Client}
use uberserver.Server.Store.{is_open_key}

-- The part of a user, online or read from the database, that channels look at; `session` is missing
-- for a user who is not online.
pub record Person : Type 0 where
  pub user_id : ℕ
  pub username : Text
  pub last_ip : Text
  pub accesslevels : List Text
  pub session : Option ℕ

abbrev pub person : Client → Person
person c = record {
  user_id = c.user_id;
  username = c.username;
  last_ip = c.last_ip;
  accesslevels = c.accesslevels;
  session = some c.session_id;
}

unfoldable pub is_admin : Person → Bool
is_admin p = contains (codes "admin") p.accesslevels

unfoldable pub is_mod : Person → Bool
unfolding is_admin
is_mod p = contains (codes "mod") p.accesslevels || is_admin p

unfoldable pub is_founder : Channel → Person → Bool
is_founder ch p =
    elim ch.owner_user_id [ none ↦ false | some owner ↦ eqb p.user_id owner ] || is_mod p

unfoldable pub is_op : Channel → Person → Bool
is_op ch p = contains p.user_id ch.operators || is_founder ch p

pub data Access : Type 0 where
  mod_access founder_access op_access normal_access : Access

unfoldable pub get_access : Channel → Person → Access
get_access ch p =
    if is_mod p
    then mod_access
    else if is_founder ch p
    then founder_access
    else if is_op ch p
    then op_access
    else normal_access

unfoldable pub is_muted : Channel → Person → Bool
is_muted ch p = has_key p.user_id ch.mutelist

unfoldable pub has_key_set : Channel → Bool
has_key_set ch = not (is_open_key ch.key)

unfoldable pub can_change_settings : Channel → Client → Bool
can_change_settings ch c = elim ch.battle.host [ none ↦ false | some host ↦ eqb c.session_id host ]

-- The number that BATTLEOPENED carries.
unfoldable pub passworded : Channel → ℕ
passworded ch = if is_open_key ch.key then 0 else 1
