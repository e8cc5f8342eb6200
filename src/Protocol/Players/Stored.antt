-- ===== src/Protocol/Players/Stored.antt =====
-- What MYBATTLESTATUS of protocol/Protocol.py has stored when it returns.
use uberserver.Base.{
  ℕ, ◌^◌, ◌<◌, ◌≡◌, sym, ap, ◌∙◌, subst, some, arith, eqb_iff, length, text_eq, nat_eq, inl, inr,
  Option-cases,
}
use uberserver.Base.Int.{ℤ, pos}
use uberserver.Base.Text.{Text, codes}
use uberserver.Syntax.Numbers.{dec2bin}
use uberserver.Server.Types.{Root, Color, read, BattleStatus}
use uberserver.Server.Outcome.{done, after, Quiet, Quiet-trans}
use uberserver.Battle.Status.{calc_battlestatus, is_spectator, spectator_count}
use uberserver.Protocol.Players.{
  last_32, field, status_of_bits, granted_mode, change_status, tell_status, announce_count,
  assign_status,
}
use uberserver.Protocol.Players.Decoded.{battlestatus_roundtrip}
use uberserver.Protocol.Players.Counted.{
  tell_status-Quiet, announce_count-Quiet, raised_is_not_done,
}

assigned_status :
    (sid ref : ℕ) (status : BattleStatus) (color : Color) (specs : ℤ) (r : Root)
    → ((assign_status sid ref status color specs r).client_at sid).battlestatus ≡ status
assigned_status sid ref status color specs r = ground (arith, eqb_iff sid sid)

-- The mode that MYBATTLESTATUS asks for with a number.
abbrev pub asked_mode : ℕ → Text
asked_mode v = field 21 1 (last_32 (dec2bin (pos v) 32))

-- The mode that the battle grants instead.
abbrev pub granted_here : ℕ → ℕ → ℕ → Root → Text
granted_here sid ref v r =
    let ch = r.channel_at ref in
    (granted_mode (is_spectator (r.client_at sid).battlestatus) (asked_mode v) (length ch.users)
      (spectator_count r ch.users) ch.battle.maxplayers).0

-- Where MYBATTLESTATUS returns, the status that it was sent stands in the client, and `calc_battlestatus`
-- gives it back: for a number below 2 ^ 32 whose unused digits are 0, whose handicap is the one that the
-- client has already, and whose mode is granted, as it is unless the client is a spectator and the
-- battle is full.
pub change_status-calc :
    (sid ref v : ℕ) (color : ℤ) (r s : Root)
    → v < 2 ^ 32
    → field 0 4 (dec2bin (pos v) 32) ≡ codes "0000"
    → field 10 4 (dec2bin (pos v) 32) ≡ codes "0000"
    → field 31 1 (dec2bin (pos v) 32) ≡ codes "0"
    → field 14 7 (dec2bin (pos v) 32) ≡ (r.client_at sid).battlestatus.handicap
    → granted_here sid ref v r ≡ asked_mode v
    → change_status sid ref v color r ≡ done s
    → calc_battlestatus (s.client_at sid).battlestatus ≡ some v
unfolding change_status
change_status-calc sid ref v color r s small u0 u10 u31 u14 granted e =
    let c = r.client_at sid in
    let ch = r.channel_at ref in
    let bits = last_32 (dec2bin (pos v) 32) in
    let given =
      granted_mode (is_spectator c.battlestatus) (field 21 1 bits) (length ch.users)
        (spectator_count r ch.users) ch.battle.maxplayers in
    let new = status_of_bits bits given.0 c.battlestatus in
    let r1 = assign_status sid ref new (read color) given.1 r in
    let r2 = announce_count ref ch.battle.spectators r1 in
    let stored : calc_battlestatus new ≡ some v =
      ap (λ (m : Text). calc_battlestatus (status_of_bits bits m c.battlestatus)) granted
      ∙ battlestatus_roundtrip v c.battlestatus small u0 u10 u31 u14 in
    let here : calc_battlestatus (r1.client_at sid).battlestatus ≡ some v =
      ap calc_battlestatus (assigned_status sid ref new (read color) given.1 r) ∙ stored in
    elim (Option-cases (calc_battlestatus c.battlestatus)) [
      | inl f ↦ absurd (raised_is_not_done r s (rw (f, change_status) at e))
      | inr (old, f) ↦
          let told = tell_status sid ref old c.teamcolor r2 in
          let quiet : Quiet r1 (after told) =
            Quiet-trans r1 r2 (after told) (announce_count-Quiet ref ch.battle.spectators r1)
              (tell_status-Quiet sid ref old c.teamcolor r2) in
          let ends : told ≡ done s = rw (f, change_status) at e in
          subst (λ (x : Root). calc_battlestatus (x.client_at sid).battlestatus ≡ some v)
            (ap after ends)
            (subst (λ (x : Root). calc_battlestatus (x.client_at sid).battlestatus ≡ some v)
              (sym quiet) here)
    ]
