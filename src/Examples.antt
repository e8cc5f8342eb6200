-- ===== src/Examples.antt =====
-- A small lobby on which the theorems are tried: Ada (session 1) is in the channel main, Bob (session
-- 2) hosts battle 7, and Cid (session 3) is in neither.
use uberserver.Base.{
  ℕ, ◌+◌, Bool, true, false, List, [], ◌∷◌, Option, none, some, eqb, if◌then◌else◌,
}
use uberserver.Base.Int.{pos}
use uberserver.Base.Text.{Text, codes}
use uberserver.Server.Types.{Root, Client, Channel, BridgedClient, Penalty, raw}
use uberserver.Battle.Status.{fresh_battle, fresh_status}
use uberserver.Channel.Access.{Person}
use uberserver.Protocol.Rooms.{fresh_channel}
mod Wire
mod Channels
mod Battles
mod Commands
pub mod Robots
mod Jobs
mod Chat
mod Presence
mod Accounts
mod Logins
mod Entries
mod Staff

abbrev pub someone : ℕ → Text → Client
someone sid username = record {
  session_id = sid;
  user_id = 100 + sid;
  username = username;
  access = codes "user";
  accesslevels = codes "user" ∷ codes "everyone" ∷ [];
  bot = false;
  static = false;
  logged_in = true;
  tls = true;
  compat = codes "u" ∷ [];
  agent = codes "SpringLobby";
  ip_address = codes "9.9.9.9";
  local_ip = codes "192.168.0.2";
  last_ip = codes "9.9.9.9";
  msg_id = [];
  status = 0;
  ingame_time = 0;
  is_ingame = false;
  away = false;
  channels = [];
  ignored = [];
  script_password = none;
  battle_bots = [];
  current_battle = none;
  pending_battle = none;
  relayed_host_ip = none;
  battlestatus = fresh_status;
  teamcolor = raw (codes "0");
  hostport = none;
  udpport = 0;
  went_ingame = none;
  bridge = [];
}

abbrev pub ada : Client
ada = record (someone 1 (codes "ada")) { channels = codes "main" ∷ [] }

abbrev pub bob : Client
bob = record (someone 2 (codes "bob")) {
  ip_address = codes "10.0.0.5";
  channels = codes "__battle__102" ∷ [];
  current_battle = some 7;
}

-- Cid is a bot.
abbrev pub cid : Client
cid = record (someone 3 (codes "cid")) { bot = true }

abbrev pub some_penalty : Penalty
some_penalty = record {
  who = 103;
  expires = 900;
  reason = codes "spam";
  issuer_user_id = 101;
  ip_address = codes "9.9.9.9";
}

-- Cid is banned from main, which forwards to the battle's channel.
abbrev pub main : Channel
main = record (fresh_channel false (codes "main")) {
  owner_user_id = some 101;
  users = 1 ∷ [];
  user_clients = 1 ∷ [];
  ban = (103, some_penalty) ∷ [];
  forwards = codes "__battle__102" ∷ [];
}

abbrev pub bobs : Channel
bobs = record (fresh_channel true (codes "__battle__102")) {
  key = some (codes "secret");
  users = 2 ∷ [];
  user_clients = 2 ∷ [];
  battle = record fresh_battle {
    battle_id = some 7;
    host = some 2;
    type = some (pos 0);
    nat_type = some (pos 0);
    port = pos 8452;
    disabled_units = codes "armflea" ∷ codes "corak" ∷ [];
  };
}

abbrev pub spare : Channel
spare = fresh_channel false (codes "spare")

abbrev pub no_bridged : BridgedClient
no_bridged = record {
  bridged_id = 0;
  external_id = [];
  location = [];
  external_username = [];
  username = [];
  bridge_user_id = 0;
  channels = [];
}

abbrev pub world : Root
world = record {
  channel_at = λ k. if eqb k 0 then main else if eqb k 1 then bobs else spare;
  client_at = λ k. if eqb k 1 then ada else if eqb k 2 then bob else cid;
  bridged_at = λ _. no_bridged;
  next_ref = 2;
  channels = (codes "main", 0) ∷ (codes "__battle__102", 1) ∷ [];
  battles = (7, 1) ∷ [];
  clients = 1 ∷ 2 ∷ 3 ∷ [];
  usernames = (codes "ada", 1) ∷ (codes "bob", 2) ∷ (codes "cid", 3) ∷ [];
  user_ids = (101, 1) ∷ (102, 2) ∷ (103, 3) ∷ [];
  bridged_locations = [];
  bridged_ids = [];
  bridged_usernames = [];
  registered_names = [];
  nextbattle = 7;
  chanserv = 0;
  online_ip = some (codes "8.8.8.8");
  local_ip = some (codes "10.0.0.1");
  online_ip_override = none;
  local_ip_override = none;
  ip_refresh_pending = false;
  turn_uri = none;
  turn_secret = none;
  turn_lan_ip = none;
  trusted_proxies = [];
  min_spring_version = codes "*";
  now = 500;
  sent = [];
  db = [];
}

abbrev pub as_person : ℕ → Text → Person
as_person sid username = record {
  user_id = 100 + sid;
  username = username;
  last_ip = codes "9.9.9.9";
  accesslevels = [];
  session = some sid;
}
