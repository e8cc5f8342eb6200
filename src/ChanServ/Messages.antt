-- ===== src/ChanServ/Messages.antt =====
-- ChanServ.py: `Handle`, `HandleMessage`, `Respond`, and the answers of `refreship` once it is over.
-- The handlers that the protocol runs for ChanServ's own lines, and for moderators' commands typed
-- into #moderator, are the parameter `h`.
use uberserver.Base.{
  ℕ, suc, Bool, true, false, not, ◌&&◌, List, [], ◌∷◌, ◌++◌, Option, none, some, if◌then◌else◌, eqb,
  nat_eq, text_eq, ◌==◌,
}
use uberserver.Base.Dict.{contains}
use uberserver.Base.Int.{pos, negsuc}
use uberserver.Base.Text.{Text, codes, partition, space, show_nat, lstrip_char}
use uberserver.Server.Types.{Root, Message, Piece, lit, txt, num, int}
use uberserver.Server.Store.{client_from_username}
use uberserver.Server.Outcome.{Outcome, done, raised, ◌>>=◌, after}
use uberserver.Server.Accounts.{UserDb}
use uberserver.Protocol.Current.{get_current_battle}
use uberserver.Protocol.Dispatch.{Handlers, handle, mod_commands}
use uberserver.ChanServ.{Answer, says, fails, given}
use uberserver.ChanServ.Commands.{handle_command, written}

-- The text that a format string gives.
unfoldable pub render_piece : Piece → Text
unfolding show_nat
render_piece (lit s) = codes s
render_piece (txt s) = s
render_piece (num n) = show_nat n
render_piece (int (pos n)) = show_nat n
render_piece (int (negsuc n)) = b'-' ∷ show_nat (suc n)

unfoldable pub render : Message → Text
unfolding render_piece
render [] = []
render (p ∷ m) = render_piece p ++ render m

-- The command, the channel and the arguments of a message without its colon. In a channel the
-- channel is known; a private message names it.
unfoldable pub command_of : Option Text → Text → Text × Option Text × Option Text
command_of (some chan) msg =
    let (cmd, spaced, args) = partition space msg in
    (cmd, some chan, if spaced then some args else none)
command_of none msg =
    let (cmd, spaced, rest) = partition space msg in
    let (chan, more, args) = partition space rest in
    (cmd, if spaced then some chan else none, if spaced && more then some args else none)

abbrev same_address : Option Text → Option Text → Bool
same_address none none = true
same_address (some a) (some b) = a == b
same_address none (some _) = false
same_address (some _) none = false

abbrev starts_with_colon : Text → Bool
starts_with_colon [] = false
starts_with_colon (c ∷ _) = eqb c b':'

module _ (limit : ℕ) (users : UserDb) (h : Handlers) where
  unfoldable pub respond : Message → Root → Outcome
  unfolding render
  respond m r = handle h r.chanserv (render m) r

  unfoldable pub respond_all : Text → List Message → Root → Outcome
  unfolding respond
  respond_all user [] r = done r
  respond_all user (line ∷ lines) r =
      respond (lit "SAYPRIVATE " ∷ txt user ∷ lit " " ∷ line) r >>= respond_all user lines

  -- `chan == "moderator" and cmd in self._root.protocol.restricted['mod']`
  abbrev runs_directly : Option Text → Text → Bool
  runs_directly none msg = false
  runs_directly (some chan) msg =
      (chan == codes "moderator") && contains (partition space msg).0 mod_commands

  -- A message without a colon: a moderator's command, or a private message with a hint for answer.
  unfoldable pub uncommanded : Option Text → Text → Text → Root → Outcome
  unfolding client_from_username respond
  uncommanded chan user msg r =
      (if runs_directly chan msg
        then elim (client_from_username r user) [ none ↦ done r | some sid ↦ handle h sid msg r ]
        else done r)
      >>= λ s. elim (given chan) [
        | some _ ↦ done s
        | none ↦
            respond
              (lit "SAYPRIVATE "
                ∷ txt user
                ∷ lit " ChanServ commands must be prefixed by a colon e.g. ':help'"
                ∷ [])
              s
      ]

  -- The end of a refresh that `refreship` began on another thread, which has left what it found in
  -- the root; until then another one is refused.
  unfoldable pub refresh_reported : Text → Option Text → Root → Outcome
  unfolding respond
  refresh_reported user old_online r =
      let r1 = record r { ip_refresh_pending = false } in
      respond
        (lit "SAYPRIVATE "
          ∷ txt user
          ∷ lit " "
          ∷ (if same_address r.online_ip old_online
              then lit "IP refresh complete. Unchanged: online "
                ∷ (written r.online_ip ++ (lit ", local " ∷ written r.local_ip))
              else lit "IP refresh complete. Online IP "
                ∷ (written old_online
                    ++ (lit " -> "
                        ∷ (written r.online_ip
                            ++ (lit " (local "
                                ∷ (written r.local_ip
                                    ++ (lit
                                          "). New battles will advertise the updated address; battles already open must be rehosted."
                                        ∷ []))))))))
        r1

  -- `error` is the message of the exception.
  unfoldable pub refresh_failed : Text → Text → Root → Outcome
  unfolding respond
  refresh_failed user error r =
      respond (lit "SAYPRIVATE " ∷ txt user ∷ lit " IP refresh failed: " ∷ txt error ∷ [])
        (record r { ip_refresh_pending = false })

  -- The answer to a command, line by line.
  unfoldable pub conclude : Text → Answer → Outcome
  unfolding respond_all
  conclude user (says lines r) = respond_all user lines r
  conclude user (fails r) = raised r

  unfoldable pub handle_message : Option Text → Text → Text → Root → Outcome
  unfolding uncommanded command_of conclude
  handle_message chan user msg r = elim msg [
    | [] ↦ done r
    | c ∷ s ↦
        if not (eqb c b':')
        then uncommanded chan user (c ∷ s) r
        else (let (cmd, where_, args) = command_of (given chan) (lstrip_char b':' (c ∷ s)) in
            conclude user (handle_command limit users respond user cmd where_ args r))
  ]

  abbrev two_words : Text → Option (Text × Text)
  two_words args =
      let (first, spaced, rest) = partition space args in
      if spaced then some (first, rest) else none

  -- What is said in a channel, in private or in a battle. Too few words are a ValueError.
  unfoldable pub heard : Text → Text → Root → Outcome
  unfolding handle_message client_from_username get_current_battle
  heard cmd args r =
      if cmd == codes "SAID"
      then elim (two_words args) [
        | none ↦ raised r
        | some (chan, rest) ↦ elim (two_words rest) [
          | none ↦ raised r
          | some (user, msg) ↦ handle_message (some chan) user msg r
        ]
      ]
      else if cmd == codes "SAIDPRIVATE"
      then elim (two_words args) [
        | none ↦ raised r
        | some (user, msg) ↦ handle_message none user msg r
      ]
      else if cmd == codes "SAIDBATTLE"
      then elim (two_words args) [
        | none ↦ raised r
        | some (user, msg) ↦ elim (client_from_username r user) [
          | none ↦ raised r
          | some sid ↦ elim (get_current_battle r sid) [
            | none ↦ raised r
            | some ref ↦ handle_message (some (r.channel_at ref).name) user msg r
          ]
        ]
      ]
      else done r

  -- `Handle`: whatever is raised is logged.
  unfoldable pub chanserv_handle : Text → Root → Root
  unfolding heard
  chanserv_handle msg r =
      let (cmd, spaced, args) = partition space msg in
      if spaced then after (heard cmd args r) else r
