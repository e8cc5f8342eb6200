-- ===== src/Protocol/Presence/Gone.antt =====
-- What `_remove` of protocol/Protocol.py leaves behind of a client that has disconnected.
use uberserver.Base.{ℕ, [], ◌≡◌, true, false, none, text_eq, nat_eq}
use uberserver.Base.Dict.{Dict}
use uberserver.Base.Text.{Text}
use uberserver.Server.Types.{Root}
use uberserver.Protocol.Chat.{is_blank}

-- A client that is logged in, and that is no bridge, in no battle and waiting for none.
abbrev pub Ordinary : ℕ → Root → Type 0
Ordinary sid r =
    let c = r.client_at sid in
    (c.static ≡ false)
    × (c.logged_in ≡ true)
    × (c.bridge ≡ [])
    × (c.pending_battle ≡ none)
    × (c.current_battle ≡ none)
    × (is_blank c.username ≡ false)
