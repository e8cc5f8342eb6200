-- ===== src/Lib.antt =====
-- Uberserver: the lobby server of the Spring engine. A connection (Client.py) cuts what it receives into
-- command lines and charges them to flood limits; the protocol (protocol/Protocol.py) checks the sender's
-- rights and runs the handler of the command; handlers act on channels (protocol/Channel.py) and on
-- battles, which are channels with more state (protocol/Battle.py); the root object (DataHandler.py)
-- holds the tables of clients, channels and battles, sends to groups of clients and runs jobs at
-- intervals. A bot in the server, ChanServ (ChanServ.py), turns what users say into calls of the
-- channels' methods.
--
-- Base holds what the other modules share: tests, lists, dictionaries, sets, Python's integers and
-- texts. The files by the code they are about, paths from the repository's root:
--   Syntax: protocol/Protocol.py, `int32`, `uint32`, `_bin2dec`, `_dec2bin`, the `_valid…Syntax` checks
--     of names, `_parseTags`, `_dictToTags`, `_isPrivateIP`, `_pretty_time_delta`.
--   Wire: Client.py. Tweak has `is_tweak_command`, `command_length_limit`, `tweak_command_bytes` and
--     `set_msg_id`, Framing has `HandleProtocolCommands`, Flood has `Handle` and `sumFloodHistory`.
--   Hooks: SayHooks.py, the word and site filters, without the spam filter.
--   Server: the objects (Types), assignments to them and lookups (Store), sending (Cast: `multicast`,
--     `broadcast`, `broadcast_battle` of DataHandler.py, `Send` of Client.py), what a client receives
--     (Delivery), the lookups that fall back on the database (Accounts) and how calls end (Outcome).
--   Channel: protocol/Channel.py, every method that changes a channel: Members (`addUser`,
--     `removeUser`, the bridged ones), Settings (topic, founder, key, flags, forwards), Penalties
--     (operators, kicks, bans, mutes), Access (the questions).
--   Battle: protocol/Battle.py: Join (`joinBattle`), Leave (`leaveBattle`, `removeBattle`), Status
--     (`calc_battlestatus` and the initial values).
--   Protocol: handlers of protocol/Protocol.py. Dispatch has `_handle`, `_dispatch`, `get_function_args`
--     and the table of rights, Rights has `_calc_access` and `_calc_status`, Rooms has JOIN, LEAVE,
--     CHANNELTOPIC and CHANNELS, Battles has JOINBATTLE, its ACCEPT and DENY, KICKFROMBATTLE and
--     LEAVEBATTLE, Opening has OPENBATTLE, Options has script tags, start rectangles, units and
--     UPDATEBATTLEINFO, Players has MYBATTLESTATUS, HANDICAP and the FORCE commands, Bots has ADDBOT,
--     UPDATEBOT, REMOVEBOT and RING, Chat has SAY, SAYEX, the private messages and BATTLEHOSTMSG with
--     `hook_SAY` of SayHooks.py, History the queue of messages to be stored, Bridge the commands for
--     bridged users, Presence MYSTATUS and the disconnection in `_remove`, Address has `client_AddBattle` and the announcements of
--     addresses, Staff has SETACCESS and the broadcasts of moderators.
--   ChanServ: ChanServ.py. The commands of `HandleCommand` are in Governing (of moderators and
--     founders), Policing (of operators), Listing (the lists) and Commands (the rest, and the choice
--     among them); Messages has `Handle`, `HandleMessage` and `Respond`. A command gives an `Answer`:
--     the lines it says, or an exception.
--   Jobs: DataHandler.py, what runs at intervals or on threads. Quotas has `decrement_dict`, Logins
--     `drain_login_queue`, Workers `_run_db`, Timeouts `channel_mute_ban_timeout`.
--   Users: SQLUsers.py and protocol/Protocol.py. Cache has the cache of accounts in `UsersHandler`, Bans
--     the cache of bans and what a login is checked by, Ignores has IGNORE, UNIGNORE and IGNORELIST with
--     what follows the answers of the database. Login has `_login_finish_now` and the beginning of
--     `_SendLoginInfo`, until the client is in the tables, and in Login/Asked `login_now` and
--     `_login_finish`.
--   Examples: a small lobby, and each theorem at a concrete input.
--
-- State: `Root` is the whole server. A client is known by its session id, a channel or battle by a
-- reference, so that `channels` and `battles` can name one object; an assignment to a field of an object
-- is `set_client`, `set_channel` or `set_battle`. What is sent, and what is stored in the database, is
-- appended to the logs `sent` and `db`, newest first. A handler gives an `Outcome`: it returns, or an
-- exception leaves it, and what it wrote until then stays written. `none` stands for Python's None, for
-- a missing key and for an exception of a function without effects; each definition says which.
--
-- Bounds and fuel: numbers are natural numbers, and ℤ where the code has negative ones; `int32` and
-- `uint32` check their ranges as the code does. The calls of a channel on the channels that it forwards to
-- run on fuel, the depth of forwarding; where forwards go only from channels to battles, which forward
-- nowhere, two levels are enough; ChanServ's commands and the jobs take the depth as a parameter. The
-- login queue runs on its length, since each round takes one entry; `_run_db` makes four attempts, as
-- the code does. `_dec2bin` runs on the number as fuel, which is enough since it halves.
--
-- Parameters: the databases of users, as an interface `UserDb` of lookups; whether the spam filter trips
-- (`spams`), which goes by the clock in fractions of a second; the handlers that the dispatch runs; what
-- a login, a database function and the registration of a bridged user do; what ChanServ does with a
-- private message, which ChanServ/Messages.antt has. The signatures of handlers that `get_function_args`
-- inspects, and the word lists of SayHooks.py, which are files, are parameters too.
--
-- Not modelled: the databases (SQLUsers.py) but for the calls that channels make and the lookups above,
-- the checks of a LOGIN once the database has answered, what a client is told once it is logged in,
-- registration, e-mail, friends and other account commands, the Twisted, XML-RPC and NAT sockets,
-- certificates, start-up and configuration, logging and statistics. Case, digits and white
-- space are those of ASCII; a Python set is a list in the order of insertion, where the code fixes no
-- order; times are whole seconds.
pub mod Base
pub mod Syntax
pub mod Wire
pub mod Hooks
pub mod Server
pub mod Channel
pub mod Battle
pub mod Protocol
pub mod ChanServ
pub mod Jobs
pub mod Users
pub mod Examples
