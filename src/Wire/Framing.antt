-- ===== src/Wire/Framing.antt =====
-- Client.py: `HandleProtocolCommand` and `HandleProtocolCommands`, the cut of the received text into
-- command lines.
use uberserver.Base.{
  ℕ, ◌+◌, ◌*◌, Bool, List, [], ◌∷◌, ◌++◌, eqb, ltb, if◌then◌else◌, length, take, Option, some, none,
}
use uberserver.Base.Text.{Text, codes, space, newline, split, lstrip_char, rstrip_char, show_nat}
use uberserver.Wire.Tweak.{command_length_limit}
pub mod Chunks
pub mod Limits

-- What a connection calls on the client and the root: the dispatch of a command, `Send`,
-- `ReportFloodBreach`, `Remove`, and the `logged_in` flag that a dispatched LOGIN may set.
pub record Peer (S : Type 0) : Type 0 where
  pub dispatch : Text → S → S
  pub send : Text → S → S
  pub report_flood_breach : Text → ℕ → S → S
  pub remove : Text → S → S
  pub logged_in : S → Bool

-- `split_data[: len(split_data) - 1]`
unfoldable pub init {ℓ} : {A : Type ℓ} → List A → List A
init [] = []
init (x ∷ []) = []
init (x ∷ y ∷ xs) = x ∷ init (y ∷ xs)

-- `split_data[-1]`
unfoldable pub last : List Text → Text
last [] = []
last (x ∷ []) = x
last (x ∷ y ∷ xs) = last (y ∷ xs)

-- `(raw_data_blob.rstrip('\r')).lstrip(' ')`
unfoldable pub clean : Text → Text
clean blob = lstrip_char space (rstrip_char 13 blob)

unfoldable pub commands_of : List Text → List Text
unfolding clean
commands_of [] = []
commands_of (blob ∷ blobs) =
    let rest = commands_of blobs in if eqb (length blob) 0 then rest else clean blob ∷ rest

module _ {S : Type 0} (peer : Peer S) where
  unfoldable pub handle_protocol_command : Text → S → S
  handle_protocol_command cmd s = if ltb (length cmd) 1 then s else peer.dispatch cmd s

  -- One round of the loop over `commands_buffer`.
  unfoldable pub handle_one : ℕ → Text → S → S
  handle_one msglength command s =
      let length_limit = command_length_limit command msglength (peer.logged_in s) in
      if ltb length_limit (length command)
      then peer.report_flood_breach
          (codes "max message length (cmd=" ++ (take 16 command ++ codes "...)")) (length command)
          (peer.send
            (codes "SERVERMSG message length limit of "
              ++ (show_nat length_limit
                  ++ (codes " chars was exceeded: command \""
                      ++ (take 16 command ++ codes "...\" dropped."))))
            s)
      else handle_protocol_command command s

  unfoldable pub handle_each : ℕ → List Text → S → S
  handle_each msglength [] s = s
  handle_each msglength (command ∷ commands) s =
      handle_each msglength commands (handle_one msglength command s)

  -- The second component of the result is `self.data`.
  unfoldable pub handle_protocol_commands : ℕ → List Text → S → S × Text
  handle_protocol_commands msglength split_data s =
      (handle_each msglength (commands_of (init split_data)) s, last split_data)
