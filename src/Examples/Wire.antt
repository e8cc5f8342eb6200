-- ===== src/Examples/Wire.antt =====
-- The theorems about a connection, with a peer that keeps what it is called with.
use uberserver.Base.{
  ◌+◌, ◌*◌, ◌≤◌, ◌<◌, All, ◌≡◌, true, List, [], ◌∷◌, ◌++◌, arith, length, sum, ◌⊎◌, text_eq, nat_eq,
}
use uberserver.Base.Dict.{values}
use uberserver.Base.Text.{Text, codes, split, newline}
use uberserver.Wire.Framing.{Peer, handle_protocol_commands}
use uberserver.Wire.Framing.Chunks.{handle_protocol_commands-two_reads}
use uberserver.Wire.Framing.Limits.{handle_protocol_commands-keeps}
use uberserver.Wire.Flood.{FloodLimits, Conn, handle}
use uberserver.Wire.Flood.Bounds.{IsWithin, handle_bounds}

-- The commands that were dispatched, newest first.
abbrev log_peer : Peer (List Text)
log_peer = record {
  dispatch = λ cmd s. cmd ∷ s;
  send = λ _ s. s;
  report_flood_breach = λ _ _ s. s;
  remove = λ _ s. s;
  logged_in = λ _. true;
}

abbrev two_lines : Text
two_lines = codes "PING" ++ (newline ∷ codes "EXIT now") ++ (newline ∷ [])

handle_protocol_commands-two_reads_example :
    handle_protocol_commands log_peer 1024 (split newline ([] ++ (codes "PI" ++ codes "NG"))) [] ≡ (
      let (s', d') = handle_protocol_commands log_peer 1024 (split newline ([] ++ codes "PI")) [] in
      handle_protocol_commands log_peer 1024 (split newline (d' ++ codes "NG")) s')
handle_protocol_commands-two_reads_example =
    handle_protocol_commands-two_reads log_peer 1024 [] (codes "PI") (codes "NG") []

-- No empty command is in the log.
abbrev LogIsFilled : List Text → Type 0
LogIsFilled = All (λ cmd. 0 < length cmd)

handle_protocol_commands-keeps_example :
    LogIsFilled (handle_protocol_commands log_peer 1024 (split newline two_lines) []).0
handle_protocol_commands-keeps_example =
    handle_protocol_commands-keeps log_peer LogIsFilled 1024 (λ m s h. h) (λ m n s h. h)
      (λ cmd s d h. (d.0, h)) (split newline two_lines) [] (ground arith)

abbrev some_limits : FloodLimits
some_limits = record { msglength = 1024; bytespersecond = 100; seconds = 10; tweakbytes = 5000 }

abbrev fresh_conn : Conn
fresh_conn = record { buffered = []; msg_length_history = []; tweak_length_history = [] }

handle_bounds_example :
    let (c', s') = handle log_peer some_limits 500 (codes "user") two_lines (fresh_conn, []) in
    IsWithin some_limits c'
    × (((reason : Text) × (before : List Text) × (s' ≡ log_peer.remove reason before))
        ⊎ (sum (values c'.msg_length_history)
            ≤ some_limits.bytespersecond * some_limits.seconds + some_limits.tweakbytes))
handle_bounds_example =
    handle_bounds log_peer some_limits 500 (codes "user") two_lines fresh_conn [] (omega arith)
