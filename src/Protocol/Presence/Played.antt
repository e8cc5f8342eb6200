-- ===== src/Protocol/Presence/Played.antt =====
-- What MYSTATUS of protocol/Protocol.py makes of the time in games.
use uberserver.Base.{
  ℕ, ◌+◌, ◌-◌, ◌/◌, ◌≡◌, Bool, true, false, ◌&&◌, not, none, some, arith, eqb, eqb_iff,
  if◌then◌else◌, Bool-cases, Option-cases, inl, inr,
}
use uberserver.Base.Int.{ℤ}
use uberserver.Base.Text.{Text}
use uberserver.Syntax.Numbers.{int32, bin2dec, dec2bin}
use uberserver.Server.Types.{Root}
use uberserver.Server.Cast.{broadcast_all, broadcast, delivered, out_failed, send}
use uberserver.Server.Outcome.{done, after}
use uberserver.Protocol.Current.{get_current_battle}
use uberserver.Protocol.Rights.{calc_status, status_digits, digit_at, last_7}
use uberserver.Protocol.Rights.Status.{calc_status_stores}
use uberserver.Protocol.Presence.{
  tell_client_status, game_begins, game_ends, count_game, after_status, in_mystatus,
}

-- The whole minutes since the time that is stored for a client, 0 where none is. It is stored when the
-- client goes into a game from a battle with other members, and stays when the game ends.
abbrev pub minutes_played : Root → ℕ → ℕ
minutes_played r sid = elim (r.client_at sid).went_ingame [
  | none ↦ 0
  | some went ↦ if eqb went 0 then 0 else (r.now - went) / 60
]

-- What a client's time in games is after a step from `r` to `s`.
abbrev Timed : Bool → ℕ → Root → Root → Type 0
Timed was sid r s =
    (s.client_at sid).ingame_time
    ≡ (r.client_at sid).ingame_time
      + (if was && not (s.client_at sid).is_ingame then minutes_played r sid else 0)

begins-Timed : (sid : ℕ) (r : Root) → Timed false sid r (after (game_begins sid r))
unfolding game_begins tell_client_status broadcast_all broadcast delivered out_failed send
begins-Timed sid r = elim (Option-cases (get_current_battle r sid)) [
  | inl e ↦ rw (e, game_begins) (ground (arith, eqb_iff sid sid))
  | inr (ref, e) ↦ rw (e, game_begins) (ground (arith, eqb_iff sid sid))
]

ends-Timed :
    (sid : ℕ) (r : Root)
    → (r.client_at sid).is_ingame ≡ false
    → Timed true sid r (after (done (game_ends sid r)))
unfolding game_ends count_game tell_client_status broadcast_all broadcast delivered
ends-Timed sid r out = elim (Option-cases (r.client_at sid).went_ingame) [
  | inl e ↦ rw (e, game_ends) (ground (arith, eqb_iff sid sid))
  | inr (went, e) ↦ rw (e, game_ends) (ground (arith, eqb_iff sid sid))
]

after_status-Timed :
    (was : Bool) (sid : ℕ) (r : Root) → Timed was sid r (after (after_status was sid r))
unfolding after_status tell_client_status broadcast_all broadcast delivered
after_status-Timed true sid r = elim (Bool-cases (r.client_at sid).is_ingame) [
  | inl playing ↦ rw (playing, after_status) (ground (arith, playing))
  | inr out ↦ rw (out, after_status) (ends-Timed sid r out)
]
after_status-Timed false sid r = elim (Bool-cases (r.client_at sid).is_ingame) [
  | inl playing ↦ rw (playing, after_status) (begins-Timed sid r)
  | inr out ↦ rw (out, after_status) (ground arith)
]

-- Only the status and its two flags are new after `_calc_status`.
abbrev SameGame : ℕ → Root → Root → Type 0
SameGame sid r s =
    ((s.client_at sid).ingame_time ≡ (r.client_at sid).ingame_time)
    × (minutes_played s sid ≡ minutes_played r sid)

calc_status-SameGame : (sid : ℕ) (n : ℤ) (r : Root) → SameGame sid r (after (calc_status sid n r))
unfolding calc_status
calc_status-SameGame sid n r =
    let c = r.client_at sid in
    let bits = last_7 (dec2bin n 7) in
    elim (Option-cases
      (bin2dec (status_digits c.bot c.access c.ingame_time (digit_at 5 bits) (digit_at 6 bits)))) [
        | inl e ↦ rw (e, calc_status) (ground (arith, eqb_iff sid sid))
        | inr (status, e) ↦ rw (e, calc_status) (ground (arith, eqb_iff sid sid))
      ]

-- Whatever readable status a client sends, its time in games grows by the whole minutes since the time
-- stored in `went_ingame`, if one is, when the status takes it out of a game, and does not change
-- otherwise, also where the handler raises. Whether that time is the beginning of this game is not said.
pub mystatus_counts :
    (sid : ℕ) (asked : Text) (n : ℤ) (r : Root)
    → int32 asked ≡ some n
    → let s = after (in_mystatus sid asked r) in
      (s.client_at sid).ingame_time
      ≡ (r.client_at sid).ingame_time
        + (if (r.client_at sid).is_ingame && not (s.client_at sid).is_ingame
            then minutes_played r sid
            else 0)
unfolding in_mystatus
mystatus_counts sid asked n r read =
    let was = (r.client_at sid).is_ingame in
    let (s, stored, _, _) = calc_status_stores sid n r in
    let same : SameGame sid r s = rw stored at (calc_status-SameGame sid n r) in
    let timed = after_status-Timed was sid s in
    rw (read, in_mystatus) (rw stored (ground (arith, same, timed)))
