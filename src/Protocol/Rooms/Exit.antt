-- ===== src/Protocol/Rooms/Exit.antt =====
-- What LEAVE of protocol/Protocol.py leaves behind.
use uberserver.Base.{
  ℕ, ◌≡◌, refl, ap, ◌∙◌, Bool, true, false, not, ◌&&◌, ◌||◌, Option, none, some, arith, eqb,
  eqb_iff, nat_eq, text_eq, Bool-cases, inl, inr, length, eq_refl,
}
use uberserver.Base.Dict.{contains, lookup, lookup-erase}
use uberserver.Base.Text.{Text}
use uberserver.Server.Types.{Root, Channel}
use uberserver.Server.Store.{is_registered}
use uberserver.Server.Outcome.{done}
use uberserver.Channel.Members.{remove_user}
use uberserver.Channel.Members.Lockstep.{remove_user-users}
use uberserver.Protocol.Rooms.{drop_if_empty, in_leave, settle}

-- The channel is kept for somebody: it is registered, or it has a member or a bridged user.
abbrev pub in_use : Root → ℕ → Bool
in_use r ref =
    let ch = r.channel_at ref in
    is_registered r ch.name
    || not (eqb (length ch.users) 0)
    || not (eqb (length ch.bridged_users) 0)

pub left_out :
    (sid ref : ℕ) (reason : Option Text) (r : Root)
    → contains sid ((remove_user sid ref reason r).channel_at ref).users ≡ false
left_out sid ref reason r = remove_user-users sid ref reason r sid ∙ ground (arith, eqb_iff sid sid)

pub drop_if_empty-channel_at :
    (ref : ℕ) (chan : Text) (r : Root) → (drop_if_empty ref chan r).channel_at ≡ r.channel_at
unfolding drop_if_empty
drop_if_empty-channel_at ref chan r =
    elim (Bool-cases (
      not (is_registered r (r.channel_at ref).name)
      && eqb (length (r.channel_at ref).users) 0
      && eqb (length (r.channel_at ref).bridged_users) 0)) [
        | inl e ↦ rw (e, drop_if_empty) refl
        | inr e ↦ rw (e, drop_if_empty) refl
      ]

drop_if_empty-gone :
    (ref : ℕ) (chan : Text) (r : Root)
    → in_use r ref ≡ false
    → lookup chan (drop_if_empty ref chan r).channels ≡ none
unfolding drop_if_empty
drop_if_empty-gone ref chan r h =
    let unused : (not (is_registered r (r.channel_at ref).name)
          && eqb (length (r.channel_at ref).users) 0
          && eqb (length (r.channel_at ref).bridged_users) 0)
        ≡ true =
      ground arith in
    rw (unused, drop_if_empty) (lookup-erase chan chan r.channels ∙ ground (arith, eq_refl chan))

pub settle-done :
    (sid ref : ℕ) (chan : Text) (r : Root)
    → contains sid (r.channel_at ref).users ≡ false
    → settle sid ref chan r ≡ done (drop_if_empty ref chan r)
unfolding settle
settle-done sid ref chan r e = rw (e, settle) refl

-- LEAVE from a channel that the client is a member of, and that is no battle, returns; the client is
-- no member afterwards, and the channel's name is free again unless the channel is still in use.
pub leave_leaves :
    (sid : ℕ) (chan : Text) (reason : Option Text) (r : Root) (ref : ℕ)
    → lookup chan r.channels ≡ some ref
    → (r.channel_at ref).is_battle ≡ false
    → contains sid (r.channel_at ref).users ≡ true
    → (s : Root) × (in_leave sid chan reason r ≡ done s)
      × (contains sid (s.channel_at ref).users ≡ false)
      × (in_use (remove_user sid ref reason r) ref ≡ false → lookup chan s.channels ≡ none)
unfolding in_leave
leave_leaves sid chan reason r ref e plain inside =
    let r1 = remove_user sid ref reason r in
    let out = left_out sid ref reason r in
    let same = drop_if_empty-channel_at ref chan r1 in
    (
      drop_if_empty ref chan r1,
      rw (e, in_leave)
          (rw (plain, in_leave) (rw (inside, in_leave) (settle-done sid ref chan r1 out))),
      ap (λ (at : ℕ → Channel). contains sid (at ref).users) same ∙ out,
      drop_if_empty-gone ref chan r1,
    )
