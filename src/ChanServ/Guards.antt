-- ===== src/ChanServ/Guards.antt =====
-- Who may do what through ChanServ, over ChanServ.py `HandleCommand`.
use uberserver.Base.{
  ℕ, ◌≡◌, refl, Bool, true, false, List, [], ◌∷◌, Option, none, some, arith, if◌then◌else◌, text_eq,
  Option-cases, Bool-cases, inl, inr, ◌==◌,
}
use uberserver.Base.Dict.{lookup, contains}
use uberserver.Base.Text.{Text, codes, lower}
use uberserver.Server.Types.{Root, Message}
use uberserver.Server.Store.{client_from_username}
use uberserver.Server.Outcome.{Outcome}
use uberserver.Server.Accounts.{UserDb, find_username}
use uberserver.Channel.Access.{Person, person, is_mod, is_admin, is_founder, is_op, get_access}
use uberserver.ChanServ.{Answer, answered, Call, governor, officer, access_of, given}
use uberserver.ChanServ.Governing.{
  unregister_command, forward_command, unforward_command, history_command, antispam_command,
  setkey_command, op_command, deop_command, changefounder_command,
}
use uberserver.ChanServ.Policing.{
  mute_command, unmute_command, ban_command, unban_command, kick_command, topic_command, ban_target,
  mute_target, three_words, is_bridged_name,
}
use uberserver.ChanServ.Listing.{
  battlename_command, showip_command, listforwards_command, listmutes_command, listbans_command,
  info_command,
}
use uberserver.ChanServ.Commands.{
  setbot_command, refreship_command, register_command, channel_command, named_command, unknown,
  with_channel, handle_command,
}
pub mod Ranks
pub mod Protected

-- A command that is answered without changing anything.
pub record Harmless (r : Root) (a : Answer) : Type 0 where
  pub same : answered a ≡ r

-- One test of a chain of commands.
infixr 5 ◌▸◌
pub ◌▸◌ :
    {r : Root} {b : Bool} {x : Answer} {y : Answer}
    → (b ≡ true → Harmless r x)
    → Harmless r y
    → Harmless r (if b then x else y)
◌▸◌ {b = true} h k = h refl
◌▸◌ {b = false} h k = k

pub unknown-Harmless : (cmd : Text) (r : Root) → Harmless r (unknown cmd r)
unknown-Harmless cmd r = ground arith

module _ (respond : Message → Root → Outcome) (limit : ℕ) (users : UserDb) (k : Call)
    (r : Root) where
  -- Without the access of a founder.
  pub ungoverned :
      governor k r ≡ none
      → Harmless r (unregister_command respond k r)
        × Harmless r (history_command k r)
        × Harmless r (antispam_command k r)
        × Harmless r (setkey_command k r)
        × Harmless r (op_command limit users k r)
        × Harmless r (deop_command limit users k r)
        × Harmless r (changefounder_command limit users k r)
  unfolding unregister_command history_command antispam_command setkey_command op_command
      deop_command changefounder_command
  ungoverned h = (
    record { same = rw (h, unregister_command) refl },
    record { same = rw (h, history_command) refl },
    record { same = rw (h, antispam_command) refl },
    record { same = rw (h, setkey_command) refl },
    record { same = rw (h, op_command) refl },
    record { same = rw (h, deop_command) refl },
    record { same = rw (h, changefounder_command) refl },
  )

  -- Without the access of an operator.
  pub unpoliced :
      officer k r ≡ none
      → Harmless r (mute_command limit users k r)
        × Harmless r (unmute_command limit users k r)
        × Harmless r (ban_command limit users k r)
        × Harmless r (unban_command limit users k r)
        × Harmless r (kick_command limit users k r)
        × Harmless r (topic_command k r)
  unfolding mute_command unmute_command ban_command unban_command kick_command topic_command
  unpoliced h = (
    record { same = rw (h, mute_command) refl },
    record { same = rw (h, unmute_command) refl },
    record { same = rw (h, ban_command) refl },
    record { same = rw (h, unban_command) refl },
    record { same = rw (h, kick_command) refl },
    record { same = rw (h, topic_command) refl },
  )

  -- Without the rights of a moderator of the server.
  pub unstaffed :
      (c : Person)
      → k.client ≡ some c
      → is_mod c ≡ false
      → Harmless r (forward_command k r) × Harmless r (unforward_command k r)
  unfolding forward_command unforward_command
  unstaffed c e h = (
    record { same = rw (e, forward_command) (rw h refl) },
    record { same = rw (e, unforward_command) (rw h refl) },
  )

  pub listmutes-Harmless : Harmless r (listmutes_command users k r)
  unfolding listmutes_command
  listmutes-Harmless = ground arith

  pub listbans-Harmless : Harmless r (listbans_command users k r)
  unfolding listbans_command
  listbans-Harmless = ground arith

  pub info-Harmless : Harmless r (info_command users k r)
  unfolding info_command
  info-Harmless = ground arith

  pub listforwards-Harmless : Harmless r (listforwards_command k r)
  unfolding listforwards_command
  listforwards-Harmless = ground arith
