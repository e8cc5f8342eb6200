-- ===== src/Protocol/Rooms/Entrance.antt =====
-- Whom JOIN of protocol/Protocol.py does not let into a channel.
use uberserver.Base.{
  ℕ, ◌≡◌, refl, true, false, not, ◌&&◌, ◌||◌, Option, some, arith, eqb, nat_eq, text_eq, ◌==◌,
  Bool-cases, Option-cases, inl, inr, ◌⊎◌, length,
}
use uberserver.Base.Dict.{contains, lookup, has_key}
use uberserver.Base.Text.{Text, codes, lstrip_char, has_substring}
use uberserver.Syntax.Names.{Verdict, valid, invalid, valid_channel_syntax}
use uberserver.Server.Types.{Root, Client, Message}
use uberserver.Server.Store.{has_level}
use uberserver.Server.Cast.{send, out_failed}
use uberserver.Server.Outcome.{done, after}
use uberserver.Channel.Access.{is_founder, person}
use uberserver.Protocol.Rooms.{fits_key, refusal, enter_channel, find_or_create, in_join, kept_out}

-- Nobody's membership differs.
abbrev pub SameUsers : Root → Root → Type 0
SameUsers r s = (j : ℕ) → (s.channel_at j).users ≡ (r.channel_at j).users

-- Session `sid` may not enter channel `ref` with this key: it is neither founder nor moderator, and
-- it is banned, by account or address, or the key is wrong.
abbrev pub ShutOut : Root → ℕ → ℕ → Option Text → Type 0
ShutOut r sid ref key =
    let ch = r.channel_at ref in
    let c = r.client_at sid in
    ((is_founder ch (person c) || has_level c (codes "mod")) ≡ false)
    × ((has_key c.user_id ch.ban || has_key c.ip_address ch.ban_ip) || not (fits_key ch key) ≡ true)

refusal-ShutOut :
    (r : Root) (sid ref : ℕ) (chan : Text) (key : Option Text)
    → ShutOut r sid ref key
    → (m : Message) × (refusal r sid ref chan key ≡ some m)
unfolding refusal
refusal-ShutOut r sid ref chan key (outsider, why) =
    elim (Option-cases (refusal r sid ref chan key)) [
      | inl e ↦ absurd (ground arith)
      | inr (m, e) ↦ (m, e)
    ]

enter_channel-ShutOut :
    (r : Root) (sid ref : ℕ) (chan : Text) (key : Option Text)
    → ShutOut r sid ref key
    → SameUsers r (after (enter_channel sid ref chan key r))
unfolding enter_channel send
enter_channel-ShutOut r sid ref chan key b j =
    elim (Bool-cases (contains sid (r.channel_at ref).users)) [
      | inl old ↦ rw (old, enter_channel) refl
      | inr new ↦
          let (m, e) = refusal-ShutOut r sid ref chan key b in
          rw (new, enter_channel) (rw (e, enter_channel) refl)
    ]

Verdict-cases : (v : Verdict) → (v ≡ valid) ⊎ ((why : Text) × (v ≡ invalid why))
Verdict-cases valid = inl refl
Verdict-cases (invalid why) = inr (why, refl)

in_join-SameUsers :
    (sid : ℕ) (given : Text) (key : Option Text) (r : Root)
    → SameUsers r (after (find_or_create sid (lstrip_char b'#' given) key r))
    → SameUsers r (after (in_join sid given key r))
unfolding in_join send out_failed
in_join-SameUsers sid given key r h j =
    let chan = lstrip_char b'#' given in
    let c = r.client_at sid in
    elim (Verdict-cases (valid_channel_syntax chan)) [
      | inr (why, e) ↦ rw (e, in_join) refl
      | inl e ↦ elim (Bool-cases (kept_out c chan)) [
        | inl out ↦ rw (e, in_join) (rw (out, in_join) refl)
        | inr no_bot ↦
            elim (Bool-cases ((chan == codes "moderator") && not (has_level c (codes "mod")))) [
              | inl closed ↦ rw (e, in_join) (rw (no_bot, in_join) (rw (closed, in_join) refl))
              | inr allowed ↦ elim (Bool-cases (eqb (length chan) 0)) [
                | inl blank ↦
                    rw (e, in_join)
                      (rw (no_bot, in_join) (rw (allowed, in_join) (rw (blank, in_join) refl)))
                | inr named ↦
                    rw (e, in_join)
                      (rw (no_bot, in_join) (rw (allowed, in_join) (rw (named, in_join) (h j))))
              ]
            ]
      ]
    ]

-- JOIN leaves every channel's members as they are if the channel that it names exists and shuts the
-- client out.
pub join_keeps_out :
    (sid : ℕ) (given : Text) (key : Option Text) (r : Root) (ref : ℕ)
    → lookup (lstrip_char b'#' given) r.channels ≡ some ref
    → ShutOut r sid ref key
    → SameUsers r (after (in_join sid given key r))
unfolding find_or_create
join_keeps_out sid given key r ref e b =
    in_join-SameUsers sid given key r
      (rw (e, find_or_create) (enter_channel-ShutOut r sid ref (lstrip_char b'#' given) key b))

bot_kept_out :
    (c : Client) (chan : Text)
    → c.bot ≡ true
    → (c.username == codes "ChanServ") ≡ false
    → has_substring chan (codes "newbies") ≡ true
    → kept_out c chan ≡ true
unfolding kept_out
bot_kept_out c chan bot other part =
    rw (bot, kept_out) (rw (other, kept_out) (rw (part, kept_out) refl))

-- A bot that is not ChanServ gets no answer and joins nothing when it asks for a channel whose name is
-- a part of the word newbies, as "new" and "b" are, and not only for newbies itself.
join_ignores_bots :
    (sid : ℕ) (given : Text) (key : Option Text) (r : Root)
    → (r.client_at sid).bot ≡ true
    → ((r.client_at sid).username == codes "ChanServ") ≡ false
    → valid_channel_syntax (lstrip_char b'#' given) ≡ valid
    → has_substring (lstrip_char b'#' given) (codes "newbies") ≡ true
    → in_join sid given key r ≡ done r
unfolding in_join
join_ignores_bots sid given key r bot other syntax part =
    rw (syntax, in_join)
      (rw (bot_kept_out (r.client_at sid) (lstrip_char b'#' given) bot other part, in_join) refl)
