-- ===== src/Server/Types.antt =====
-- The objects of Client.py, protocol/Channel.py, protocol/Battle.py and DataHandler.py, as far as
-- the modelled handlers read and write them.
--
-- A client object is known by its session id and a channel object by a reference, so that the two
-- maps `channels` and `battles` can hold one object. The logs `sent` and `db` are newest first.
use uberserver.Base.{ℕ, Bool, String, List, Option}
use uberserver.Base.Dict.{Dict}
use uberserver.Base.Int.{ℤ}
use uberserver.Base.Text.{Text}

-- A message is the pieces that its format string is filled with.
pub data Piece : Type 0 where
  lit : String → Piece
  txt : Text → Piece
  num : ℕ → Piece
  int : ℤ → Piece

abbrev pub Message : Type 0
Message = List Piece

-- A team colour is a text as received, or a number once MYBATTLESTATUS has read it.
pub data Color : Type 0 where
  raw : Text → Color
  read : ℤ → Color

pub record BattleStatus : Type 0 where
  pub ready : Text
  pub id : Text
  pub ally : Text
  pub mode : Text
  pub sync : Text
  pub side : Text
  pub handicap : Text

pub record Client : Type 0 where
  pub session_id : ℕ
  pub user_id : ℕ
  pub username : Text
  pub access : Text
  pub accesslevels : List Text
  pub bot : Bool
  pub static : Bool
  pub logged_in : Bool
  pub tls : Bool
  pub compat : List Text
  pub agent : Text
  pub ip_address : Text
  pub local_ip : Text
  pub last_ip : Text
  pub msg_id : Text
  pub status : ℕ
  pub ingame_time : ℕ
  pub is_ingame : Bool
  pub away : Bool
  pub channels : List Text
  pub ignored : List ℕ
  pub script_password : Option Text
  pub battle_bots : Dict Text ℕ
  pub current_battle : Option ℕ
  pub pending_battle : Option ℕ
  pub relayed_host_ip : Option Text
  pub battlestatus : BattleStatus
  pub teamcolor : Color
  pub hostport : Option ℕ
  pub udpport : ℕ
  pub went_ingame : Option ℕ
  pub bridge : Dict Text (Dict Text ℕ)

-- An entry of `mutelist`, `ban`, `ban_ip` or `bridged_ban`; `who` is the user or bridged id,
-- and the address is kept in bans of users only.
pub record Penalty : Type 0 where
  pub who : ℕ
  pub expires : ℕ
  pub reason : Text
  pub issuer_user_id : ℕ
  pub ip_address : Text

pub record Bot : Type 0 where
  pub owner : Text
  pub status : Text
  pub color : Text
  pub ai_dll : Text

pub record Rect : Type 0 where
  pub left : ℤ
  pub top : ℤ
  pub right : ℤ
  pub bottom : ℤ

-- What `Battle` adds to a channel.
pub record BattlePart : Type 0 where
  pub battle_id : Option ℕ
  pub host : Option ℕ
  pub type : Option ℤ
  pub nat_type : Option ℤ
  pub port : ℤ
  pub relayed_ip : Option Text
  pub title : Text
  pub map_name : Text
  pub maphash : Option ℤ
  pub modname : Text
  pub hashcode : Option ℤ
  pub engine : Text
  pub version : Text
  pub rank : Text
  pub maxplayers : ℤ
  pub spectators : ℤ
  pub locked : ℤ
  pub pending_users : List ℕ
  pub bots : Dict Text Bot
  pub script_tags : Dict Text Text
  pub startrects : Dict ℤ Rect
  pub disabled_units : List Text

-- `identity` is whether the object is a `Battle`.
pub record Channel : Type 0 where
  pub is_battle : Bool
  pub name : Text
  pub key : Option Text
  pub owner_user_id : Option ℕ
  pub topic : Option Text
  pub topic_user_id : Option ℕ
  pub antispam : Bool
  pub store_history : Bool
  pub last_used : Option ℕ
  pub operators : List ℕ
  pub users : List ℕ
  pub user_clients : List ℕ
  pub bridged_users : List ℕ
  pub mutelist : Dict ℕ Penalty
  pub ban : Dict ℕ Penalty
  pub ban_ip : Dict Text Penalty
  pub bridged_ban : Dict ℕ Penalty
  pub forwards : List Text
  pub battle : BattlePart

pub record BridgedClient : Type 0 where
  pub bridged_id : ℕ
  pub external_id : Text
  pub location : Text
  pub external_username : Text
  pub username : Text
  pub bridge_user_id : ℕ
  pub channels : List Text

-- A message to a client, by session id.
pub record Sent : Type 0 where
  pub to : ℕ
  pub message : Message

-- A call that writes to a database: the method, the channel (empty for the database of users) and
-- the arguments.
pub record DbCall : Type 0 where
  pub method : String
  pub channel : Text
  pub args : Message

pub record Root : Type 0 where
  pub channel_at : ℕ → Channel
  pub client_at : ℕ → Client
  pub bridged_at : ℕ → BridgedClient
  pub next_ref : ℕ
  pub channels : Dict Text ℕ
  pub battles : Dict ℕ ℕ
  pub clients : List ℕ
  pub usernames : Dict Text ℕ
  pub user_ids : Dict ℕ ℕ
  pub bridged_locations : Dict Text ℕ
  pub bridged_ids : List ℕ
  pub bridged_usernames : Dict Text ℕ
  pub registered_names : List Text
  pub nextbattle : ℕ
  pub chanserv : ℕ
  pub online_ip : Option Text
  pub local_ip : Option Text
  pub online_ip_override : Option Text
  pub local_ip_override : Option Text
  pub ip_refresh_pending : Bool
  pub turn_uri : Option Text
  pub turn_secret : Option Text
  pub turn_lan_ip : Option Text
  pub trusted_proxies : List Text
  pub min_spring_version : Text
  pub now : ℕ
  pub sent : List Sent
  pub db : List DbCall
