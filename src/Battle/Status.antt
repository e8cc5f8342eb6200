-- ===== src/Battle/Status.antt =====
-- protocol/Battle.py: `__init__Battle__` and `calc_battlestatus`; the `battlestatus` of Client.py.
use uberserver.Base.{
  ℕ, Bool, List, [], ◌++◌, Option, none, some, ◌==◌, text_eq, nat_eq, length, keep, false,
}
use uberserver.Base.Int.{ℤ, pos}
use uberserver.Base.Text.{Text, codes}
use uberserver.Syntax.Numbers.{bin2dec}
use uberserver.Server.Types.{
  BattleStatus, BattlePart, Root, Piece, lit, txt, num, int, Color, raw, read,
}
use uberserver.Server.Store.{client_from_session}

-- `None` and `''` are `none`.
abbrev pub fresh_battle : BattlePart
fresh_battle = record {
  battle_id = none;
  host = none;
  type = none;
  nat_type = none;
  port = pos 0;
  relayed_ip = none;
  title = [];
  map_name = [];
  maphash = none;
  modname = [];
  hashcode = none;
  engine = [];
  version = [];
  rank = codes "0";
  maxplayers = pos 0;
  spectators = pos 0;
  locked = pos 0;
  pending_users = [];
  bots = [];
  script_tags = [];
  startrects = [];
  disabled_units = [];
}

abbrev pub fresh_status : BattleStatus
fresh_status = record {
  ready = codes "0";
  id = codes "0000";
  ally = codes "0000";
  mode = codes "0";
  sync = codes "00";
  side = codes "00";
  handicap = codes "0000000";
}

-- `'0000%s%s0000%s%s%s%s%s0'`
unfoldable pub status_bits : BattleStatus → Text
status_bits b =
    codes "0000"
    ++ (b.side
        ++ (b.sync
            ++ (codes "0000"
                ++ (b.handicap ++ (b.mode ++ (b.ally ++ (b.id ++ (b.ready ++ codes "0"))))))))

unfoldable pub calc_battlestatus : BattleStatus → Option ℕ
unfolding status_bits bin2dec
calc_battlestatus b = bin2dec (status_bits b)

abbrev pub is_spectator : BattleStatus → Bool
is_spectator b = b.mode == codes "0"

-- A session that is online and spectates.
unfoldable pub spectates : Root → ℕ → Bool
unfolding client_from_session
spectates r sid = elim (client_from_session r sid) [
  | none ↦ false
  | some s ↦ is_spectator (r.client_at s).battlestatus
]

unfoldable pub spectator_count : Root → List ℕ → ℕ
unfolding spectates
spectator_count r sids = length (keep (spectates r) sids)

-- How values that may be None are written.
abbrev pub optional_nat : Option ℕ → Piece
optional_nat none = lit "None"
optional_nat (some n) = num n

abbrev pub optional_int : Option ℤ → Piece
optional_int none = lit "None"
optional_int (some n) = int n

abbrev pub color_piece : Color → Piece
color_piece (raw s) = txt s
color_piece (read n) = int n
