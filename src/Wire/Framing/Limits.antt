-- ===== src/Wire/Framing/Limits.antt =====
-- Only commands within their length limit reach the protocol.
use uberserver.Base.{
  ℕ, ◌≤◌, ◌<◌, ◌≡◌, Bool, true, false, ◌⊎◌, inl, inr, List, [], ◌∷◌, arith, ltb, length, Bool-cases,
}
use uberserver.Base.Text.{Text}
use uberserver.Wire.Tweak.{is_tweak_command, command_length_limit, tweak_msg_length}
use uberserver.Wire.Framing.{
  Peer, handle_protocol_command, handle_one, handle_each, handle_protocol_commands, commands_of,
  init,
}

-- Not empty, and within the account's limit, or a tweak set of a logged in client within the limit
-- for tweak sets.
abbrev pub Deliverable : ℕ → Bool → Text → Type 0
Deliverable limit logged_in cmd =
    (0 < length cmd)
    × ((length cmd ≤ limit)
        ⊎ ((logged_in ≡ true) × (is_tweak_command cmd ≡ true) × (length cmd ≤ tweak_msg_length)))

module _ {S : Type 0} (peer : Peer S) (P : S → Type 0) (limit : ℕ)
    (send_keeps : (m : Text) (s : S) → P s → P (peer.send m s))
    (report_keeps : (m : Text) (n : ℕ) (s : S) → P s → P (peer.report_flood_breach m n s))
    (dispatch_keeps : (cmd : Text) (s : S)
      → Deliverable limit (peer.logged_in s) cmd
      → P s
      → P (peer.dispatch cmd s)) where
  within :
      (cmd : Text) (s : S)
      → ltb (command_length_limit cmd limit (peer.logged_in s)) (length cmd) ≡ false
      → 0 < length cmd
      → Deliverable limit (peer.logged_in s) cmd
  unfolding command_length_limit
  within cmd s h p = (p, ground arith)

  handle_one-keeps : (cmd : Text) (s : S) → P s → P (handle_one peer limit cmd s)
  unfolding handle_one handle_protocol_command
  handle_one-keeps cmd s h =
      elim (Bool-cases (ltb (command_length_limit cmd limit (peer.logged_in s)) (length cmd))) [
        | inl over ↦ rw over (report_keeps _ _ _ (send_keeps _ s h))
        | inr fits ↦ rw fits (elim (Bool-cases (ltb (length cmd) 1)) [
          | inl blank ↦ rw blank h
          | inr filled ↦ rw filled (dispatch_keeps cmd s (within cmd s fits (ground arith)) h)
        ])
      ]

  handle_each-keeps : (cmds : List Text) (s : S) → P s → P (handle_each peer limit cmds s)
  unfolding handle_each
  handle_each-keeps [] s h = h
  handle_each-keeps (cmd ∷ cmds) s h =
      handle_each-keeps cmds (handle_one peer limit cmd s) (handle_one-keeps cmd s h)

  -- What holds of the server before a read holds after it, if `Send`, the flood report and the
  -- dispatch of a deliverable command keep it: no other command is dispatched.
  pub handle_protocol_commands-keeps :
      (split_data : List Text) (s : S)
      → P s
      → P (handle_protocol_commands peer limit split_data s).0
  unfolding handle_protocol_commands
  handle_protocol_commands-keeps split_data s h =
      handle_each-keeps (commands_of (init split_data)) s h
