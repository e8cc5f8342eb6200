-- ===== src/Wire/Flood.antt =====
-- Client.py: `Handle` and `sumFloodHistory`.
use uberserver.Base.{
  ℕ, ◌+◌, ◌-◌, ◌*◌, Bool, List, [], ◌∷◌, ◌++◌, eqb, ltb, min, if◌then◌else◌, length, keep, sum,
  nat_eq, text_eq, Option, some, none,
}
use uberserver.Base.Dict.{Dict, values, get_or, insert, lookup}
use uberserver.Base.Text.{Text, codes, newline, split, show_nat}
use uberserver.Wire.Tweak.{tweak_command_bytes}
use uberserver.Wire.Framing.{Peer, init, handle_protocol_commands}
pub mod Bounds

pub record FloodLimits : Type 0 where
  pub msglength : ℕ
  pub bytespersecond : ℕ
  pub seconds : ℕ
  pub tweakbytes : ℕ

-- The fields of the client that only `Handle` and its callees touch.
pub record Conn : Type 0 where
  pub buffered : Text
  pub msg_length_history : Dict ℕ ℕ
  pub tweak_length_history : Dict ℕ ℕ

-- The first lines of `Handle`: a bot's limits, those of the access level, or those of `fresh`. A
-- missing `bot` or `fresh` entry, a KeyError, is `none`.
unfoldable pub select_limits : Dict Text FloodLimits → Bool → Text → Option FloodLimits
select_limits table bot access =
    if bot then lookup (codes "bot") table else elim (lookup access table) [
      | some limits ↦ some limits
      | none ↦ lookup (codes "fresh") table
    ]

-- What stays of a history: `iter < now - (seconds - 1)` is deleted.
unfoldable pub in_window : ℕ → ℕ → Dict ℕ ℕ → Dict ℕ ℕ
in_window now seconds [] = []
in_window now seconds ((iter, n) ∷ history) =
    let rest = in_window now seconds history in
    if ltb (iter + seconds) (now + 1) then rest else (iter, n) ∷ rest

-- The total, and the history without what fell out of the window.
unfoldable pub sum_flood_history : Dict ℕ ℕ → ℕ → ℕ → ℕ × Dict ℕ ℕ
unfolding in_window
sum_flood_history history now seconds =
    (sum (values (in_window now seconds history)), in_window now seconds history)

abbrev pub drop_message : Text
drop_message =
    codes
      "SERVERMSG Max client data cache was exceeded, some of your data was dropped by the server"

-- The histories and the buffer after the accounting, and the bytes charged to the byte rate.
unfoldable pub charge : FloodLimits → ℕ → Bool → Text → Conn → Conn × ℕ
charge limits now logged_in data_in c =
    let buffered = c.buffered ++ data_in in
    let recorded =
      insert now (get_or now 0 c.msg_length_history + length data_in) c.msg_length_history in
    let (total, messages) = sum_flood_history recorded now limits.seconds in
    let (exempt, tweaks) = sum_flood_history c.tweak_length_history now limits.seconds in
    let spare = limits.tweakbytes - exempt in
    let tweaked = min spare (tweak_command_bytes (init (split newline buffered)) logged_in) in
    (
      record {
        buffered = buffered;
        msg_length_history = messages;
        tweak_length_history = insert now (get_or now 0 tweaks + tweaked) tweaks;
      },
      total - (exempt + tweaked),
    )

module _ {S : Type 0} (peer : Peer S) where
  -- `access` is the level named in the farewell.
  unfoldable pub handle : FloodLimits → ℕ → Text → Text → Conn × S → Conn × S
  handle limits now access data_in (c, s) =
      let (c', charged) = charge limits now (peer.logged_in s) data_in c in
      if ltb (limits.bytespersecond * limits.seconds) charged
      then (
        c',
        peer.remove (codes "Kicked for flooding (" ++ (access ++ codes ")")) (
            peer.report_flood_breach (codes "flood limit") charged (
              peer.send
                (codes "SERVERMSG No flooding (over "
                  ++ (show_nat limits.bytespersecond
                      ++ (codes " per second for "
                          ++ (show_nat limits.seconds ++ codes " seconds)"))))
                s)),
      )
      else if eqb (length (split newline c'.buffered)) 1
      then if ltb (limits.msglength * 16) (length c'.buffered)
        then
            -- The buffer is cleared before it is measured for the report.
            (
              record c' { buffered = [] },
              peer.report_flood_breach (codes "max client data cache ") 0
                  (peer.send drop_message s),
            )
        else (c', s)
      else let (s', rest) =
          handle_protocol_commands peer limits.msglength (split newline c'.buffered) s in
        (record c' { buffered = rest }, s')
