-- ===== src/Protocol/Opening.antt =====
-- protocol/Protocol.py: `in_OPENBATTLE`, `_getNextBattleId`, `_versiontuple`, `_validEngineVersion`.
use uberserver.Base.{
  ℕ, suc, ◌≤◌, Bool, true, false, ◌&&◌, ◌||◌, not, List, [], ◌∷◌, ◌++◌, Option, none, some,
  if◌then◌else◌, ◌==◌, text_eq, nat_eq, eqb, length,
}
use uberserver.Base.Dict.{Dict, lookup, insert, has_key}
use uberserver.Base.Int.{ℤ, pos, eqb_ℤ, ltb_ℤ, parse_int}
use uberserver.Base.Text.{
  Text, codes, split, split_at_most, strip, count_char, tab, is_digit, decimal_from, show_nat,
  all_digits,
}
use uberserver.Syntax.Numbers.{int32}
use uberserver.Hooks.{Lists, hook_openbattle}
use uberserver.Server.Types.{Root, Client, Channel, Message, Piece, lit, txt, num, int}
use uberserver.Server.Store.{set_client, set_channel, has_flag}
use uberserver.Server.Cast.{send, out_openbattlefailed, out_servermsg}
use uberserver.Server.Outcome.{Outcome, done, raised, ◌>>=◌}
use uberserver.Battle.Join.{join_battle}
use uberserver.Protocol.Address.{broadcast_add_battle}
use uberserver.Protocol.Battles.{in_leavebattle}
use uberserver.Protocol.Rooms.{create_channel}
pub mod Opened

-- The digits and dots at the front of a version.
unfoldable pub version_prefix : Text → Text
version_prefix [] = []
version_prefix (c ∷ s) =
    let rest = version_prefix s in if is_digit c || eqb c b'.' then c ∷ rest else []

-- `tuple(map(int, parts))`; an empty part is a ValueError.
unfoldable pub read_parts : List Text → Option (List ℕ)
unfolding all_digits decimal_from
read_parts [] = some []
read_parts (part ∷ parts) =
    let rest = read_parts parts in
    if all_digits part
    then elim rest [ none ↦ none | some ns ↦ some (decimal_from 0 part ∷ ns) ]
    else none

unfoldable pub version_tuple : Text → Option (List ℕ)
unfolding version_prefix read_parts split
version_tuple version =
    if eqb (length version) 0
    then none
    else elim (read_parts (split b'.' (version_prefix version))) [
      | none ↦ none
      | some (n ∷ []) ↦ some (n ∷ 0 ∷ [])
      | some ns ↦ some ns
    ]

-- `a >= b` of tuples.
unfoldable pub tuple_at_least : List ℕ → List ℕ → Bool
tuple_at_least a [] = true
tuple_at_least [] (b ∷ bs) = false
tuple_at_least (a ∷ more) (b ∷ bs) =
    if eqb a b then tuple_at_least more bs else ltb_ℤ (pos b) (pos a)

-- `none` is an exception that `_versiontuple` raises.
unfoldable pub valid_engine_version : Root → Text → Text → Option Bool
unfolding version_tuple tuple_at_least
valid_engine_version r engine version =
    if not (engine == codes "spring")
    then some false
    else if r.min_spring_version == codes "*"
    then some true
    else if eqb (length version) 0
    then some false
    else elim (version_tuple version) [
      | none ↦ none
      | some given ↦ elim (version_tuple r.min_spring_version) [
        | none ↦ none
        | some least ↦ some (tuple_at_least given least)
      ]
    ]

-- The numbers of the command once they are read.
pub record Numbers : Type 0 where
  pub type : ℤ
  pub nat_type : ℤ
  pub port : ℤ
  pub maphash : ℤ
  pub hashcode : ℤ
  pub maxplayers : ℤ

-- The words of the command as they came.
pub record Words : Type 0 where
  pub type : Text
  pub nat_type : Text
  pub key : Text
  pub port : Text
  pub maxplayers : Text
  pub hashcode : Text
  pub rank : Text
  pub maphash : Text

-- The parts of `sentence_args`.
pub record Names : Type 0 where
  pub engine : Text
  pub version : Text
  pub map_name : Text
  pub title : Text
  pub modname : Text

abbrev bind_int {ℓ} : {A : Type ℓ} → Option ℤ → (ℤ → Option A) → Option A
bind_int none f = none
bind_int (some n) f = f n

unfoldable pub read_numbers : Words → Option Numbers
unfolding int32 parse_int
read_numbers w = bind_int (parse_int w.type) (λ type. bind_int (parse_int w.nat_type) (λ nat_type.
    bind_int (parse_int w.port) (λ port. bind_int (int32 w.maphash) (λ maphash.
      bind_int (int32 w.hashcode) (λ hashcode. bind_int (int32 w.maxplayers) (λ maxplayers.
        some (record {
          type = type;
          nat_type = nat_type;
          port = port;
          maphash = maphash;
          hashcode = hashcode;
          maxplayers = maxplayers;
        })))))))

-- `sentence_args.split('\t', 4)` at exactly four tabs.
unfoldable pub read_names : Text → Option Names
unfolding split_at_most count_char
read_names s =
    if eqb (count_char tab s) 4
    then elim (split_at_most tab 4 s) [
      | engine ∷ version ∷ map_name ∷ title ∷ modname ∷ [] ↦ some (record {
        engine = engine;
        version = version;
        map_name = map_name;
        title = title;
        modname = modname;
      })
      | _ ↦ none
    ]
    else none

-- The first part that is missing.
unfoldable pub blank_name : Names → Option Message
blank_name n =
    if eqb (length n.engine) 0
    then some (lit "No engine specified." ∷ [])
    else if eqb (length n.version) 0
    then some (lit "No engine version specified." ∷ [])
    else if eqb (length n.map_name) 0
    then some (lit "No map name specified" ∷ [])
    else if eqb (length n.title) 0
    then some (lit "No title specified" ∷ [])
    else if eqb (length n.modname) 0
    then some (lit "No game name specified" ∷ [])
    else none

-- At most eight players for a host without the bot flag.
unfoldable pub limit_players : ℕ → ℤ → Root → ℤ × Root
unfolding out_servermsg
limit_players sid maxplayers r =
    if not (r.client_at sid).bot && ltb_ℤ (pos 8) maxplayers
    then (
      pos 8,
      out_servermsg sid
          (lit
              "A botflag is required to host battles with > 8 players. Your battle was restricted to 8 players"
            ∷ [])
          r,
    )
    else (maxplayers, r)

abbrev pub battle_name : Client → Text
battle_name c = codes "__battle__" ++ show_nat c.user_id

-- `self._root.channels[battle_name]`, made if it is missing.
unfoldable pub find_battle : Text → Root → ℕ × Root
unfolding create_channel
find_battle name r = elim (lookup name r.channels) [
  | some ref ↦ (ref, r)
  | none ↦ (r.next_ref, create_channel true name r)
]

-- The assignments to the battle's fields.
unfoldable pub fill_battle : ℕ → ℕ → ℕ → Option Text → Words → Names → Numbers → ℤ → Root → Root
fill_battle sid ref battle_id relayed_ip w names n maxplayers r =
    set_channel ref
      (λ ch. record ch {
        key = some w.key;
        battle = record ch.battle {
          battle_id = some battle_id;
          host = some sid;
          type = some n.type;
          nat_type = some n.nat_type;
          port = n.port;
          relayed_ip = relayed_ip;
          title = names.title;
          map_name = names.map_name;
          maphash = some n.maphash;
          modname = names.modname;
          hashcode = some n.hashcode;
          engine = names.engine;
          version = names.version;
          rank = w.rank;
          maxplayers = maxplayers;
        };
      })
      r

-- A battle whose words have all been accepted.
unfoldable pub publish_battle : ℕ → ℕ → Option Text → Words → Names → Numbers → Root → Outcome
unfolding limit_players show_nat find_battle fill_battle broadcast_add_battle send join_battle
publish_battle sid battle_id relayed_ip w names n r =
    let (maxplayers, r1) = limit_players sid n.maxplayers r in
    let (ref, r2) = find_battle (battle_name (r1.client_at sid)) r1 in
    let r3 = fill_battle sid ref battle_id relayed_ip w names n maxplayers r2 in
    broadcast_add_battle ref (record r3 { battles = insert battle_id ref r3.battles })
    >>= (λ r4. join_battle sid ref (send sid (lit "OPENBATTLE " ∷ num battle_id ∷ []) r4))

-- The checks of the numbers. The text of the exception is left out of the first answer.
unfoldable pub open_with_names : ℕ → Option Text → Words → Names → Root → Outcome
unfolding out_openbattlefailed read_numbers out_servermsg publish_battle
open_with_names sid relayed_ip w names r =
    let battle_id = suc r.nextbattle in
    let r1 = record r { nextbattle = battle_id } in
    elim (read_numbers w) [
      | none ↦ done (
          out_openbattlefailed sid (lit "Invalid argument type, send this to your lobby dev" ∷ [])
            r1)
      | some n ↦
          if ltb_ℤ n.port (pos 1) || ltb_ℤ (pos 65535) n.port
          then done (
              out_openbattlefailed sid (lit "Port is out of range: 1-65535: " ∷ int n.port ∷ []) r1)
          else if eqb_ℤ n.hashcode (pos 0)
          then done (out_openbattlefailed sid (lit "Invalid game hash 0" ∷ []) r1)
          else if not (r.client_at sid).tls
          then done (
              out_servermsg sid
                (lit "A TLS connection is required to host battles. Please upgrade your client."
                  ∷ [])
                r1)
          else publish_battle sid battle_id relayed_ip w names n r1
    ]

-- The checks of the names and of the engine's version.
unfoldable pub check_names : ℕ → Option Text → Words → Names → Root → Outcome
unfolding blank_name out_openbattlefailed valid_engine_version open_with_names
check_names sid relayed_ip w names r = elim (blank_name names) [
  | some error ↦ done (out_openbattlefailed sid error r)
  | none ↦
      if not (r.client_at sid).bot
      then open_with_names sid relayed_ip w names r
      else elim (valid_engine_version r names.engine names.version) [
        | none ↦ raised r
        | some true ↦ open_with_names sid relayed_ip w names r
        | some false ↦ done (
            out_openbattlefailed sid
              (lit "Engine version specified ("
                ∷ txt names.engine
                ∷ lit ","
                ∷ txt names.version
                ∷ lit ") is invalid: Spring "
                ∷ txt r.min_spring_version
                ∷ lit " or later is required!"
                ∷ [])
              r)
      ]
]

-- The title goes through the word and site filters; a listed site raises, as `None.strip()`.
unfoldable pub censor_title : Lists → ℕ → Option Text → Words → Text → Root → Outcome
unfolding read_names hook_openbattle strip out_openbattlefailed check_names count_char
censor_title l sid relayed_ip w sentence_args r = elim (read_names sentence_args) [
  | none ↦ done (
      out_openbattlefailed sid
        (lit "Invalid arguments ("
          ∷ num (count_char tab sentence_args)
          ∷ lit "): "
          ∷ txt sentence_args
          ∷ [])
        r)
  | some names ↦ elim (hook_openbattle l names.title) [
    | none ↦ raised r
    | some title ↦ check_names sid relayed_ip w (record names { title = strip title }) r
  ]
]

-- The staged relay address is used up first, and a battle that the client is in is left.
unfoldable pub in_openbattle : Lists → ℕ → Words → Text → Root → Outcome
unfolding in_leavebattle censor_title
in_openbattle l sid w sentence_args r =
    let relayed_ip = (r.client_at sid).relayed_host_ip in
    let r1 = set_client sid (λ c. record c { relayed_host_ip = none }) r in
    (if elim (r1.client_at sid).current_battle [ none ↦ false | some id ↦ not (eqb id 0) ]
      then in_leavebattle sid r1
      else done r1)
    >>= censor_title l sid relayed_ip w sentence_args
