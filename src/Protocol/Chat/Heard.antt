-- ===== src/Protocol/Chat/Heard.antt =====
-- Who hears what is said with SAY and SAYEX of protocol/Protocol.py.
use uberserver.Base.{ℕ, Bool, ◌&&◌, not, nat_eq, text_eq}
use uberserver.Base.Dict.{contains}
use uberserver.Base.Text.{Text}
use uberserver.Server.Types.{Root}
use uberserver.Protocol.Bots.{is_ignored}

-- Whether a client hears what another says in a channel: a member that is logged in, is not ChanServ and
-- does not ignore the sender.
abbrev pub hears : Root → ℕ → ℕ → ℕ → Bool
hears r ref sid x =
    contains x (r.channel_at ref).user_clients
    && ((r.client_at x).logged_in && not (is_ignored r x sid) && not (r.client_at x).static)
