-- ===== src/Channel/Penalties/Mutes.antt =====
-- The mute list.
use uberserver.Base.{
  ℕ, zero, suc, ◌≡◌, ◌≢◌, refl, ◌∙◌, true, false, [], Option, none, some, arith, eqb_iff, nat_eq,
  Bool-cases, inl, inr, ◌==◌, if◌then◌else◌,
}
use uberserver.Base.Dict.{lookup, has_key, lookup-insert, lookup-erase}
use uberserver.Base.Text.{Text}
use uberserver.Server.Types.{Root, Penalty}
use uberserver.Server.Outcome.{done, after, each_channel, each_channel-keeps}
use uberserver.Channel.Access.{Person}
use uberserver.Channel.Members.{channel_message, channel_broadcast}
use uberserver.Channel.Penalties.{
  mute_user, mute_here, unmute_user, unmute_here, expires_after, penalty,
}

-- The mute of a user in a channel.
abbrev pub mute_in : Root → ℕ → ℕ → Option Penalty
mute_in r ref user_id = lookup user_id (r.channel_at ref).mutelist

module _ (client target : Person) (reason : Text) (duration : ℕ) where
  mute_user-keeps :
      (P : Root → Type 0)
      → ((ref : ℕ) (r : Root) → P r → P (mute_here ref client target reason duration r))
      → (fuel ref : ℕ) (r : Root) → P r
      → P (after (mute_user fuel ref client target reason duration r))
  unfolding mute_user
  mute_user-keeps P step zero ref r h = h
  mute_user-keeps P step (suc fuel) ref r h =
      elim (Bool-cases (has_key target.user_id (r.channel_at ref).mutelist)) [
        | inl old ↦ rw old h
        | inr new ↦ rw new (
            each_channel-keeps P (λ next. mute_user fuel next client target reason duration)
              (r.channel_at ref).forwards (mute_here ref client target reason duration r)
              (λ next s hs. mute_user-keeps P step fuel next s hs) (step ref r h))
      ]

  mute_here-mute_in :
      (k u ref : ℕ) (r : Root)
      → mute_in (mute_here ref client target reason duration r) k u ≡ (
          if k == ref
          then (if u == target.user_id
              then some
                  (penalty target.user_id (expires_after r.now duration) reason client.user_id)
              else mute_in r ref u)
          else mute_in r k u)
  unfolding mute_here channel_message channel_broadcast
  mute_here-mute_in k u ref r = ground (
    arith,
    lookup-insert u target.user_id
        (penalty target.user_id (expires_after r.now duration) reason client.user_id)
        (r.channel_at ref).mutelist,
  )

  -- Muting one user leaves the mutes of every other user as they were, in every channel.
  pub mute_user-others :
      (fuel ref k u : ℕ) (r : Root)
      → u ≢ target.user_id
      → mute_in (after (mute_user fuel ref client target reason duration r)) k u ≡ mute_in r k u
  mute_user-others fuel ref k u r other =
      mute_user-keeps (λ s. mute_in s k u ≡ mute_in r k u) (λ next s h. others_here next s h) fuel
        ref r refl
    where
      others_here :
          (next : ℕ) (s : Root)
          → mute_in s k u ≡ mute_in r k u
          → mute_in (mute_here next client target reason duration s) k u ≡ mute_in r k u
      others_here next s h = ground (arith, mute_here-mute_in k u next s, eqb_iff k next)

  muted_stays :
      (k next : ℕ) (s : Root)
      → has_key target.user_id (s.channel_at k).mutelist ≡ true
      → has_key target.user_id
          ((mute_here next client target reason duration s).channel_at k).mutelist
        ≡ true
  muted_stays k next s h = ground (arith, mute_here-mute_in k target.user_id next s, eqb_iff k next)

  -- After a mute the target is muted in the channel, whatever the forwards do.
  mute_user-target :
      (fuel ref : ℕ) (r : Root)
      → has_key target.user_id
          ((after (mute_user (suc fuel) ref client target reason duration r)).channel_at
            ref).mutelist
        ≡ true
  unfolding mute_user
  mute_user-target fuel ref r =
      elim (Bool-cases (has_key target.user_id (r.channel_at ref).mutelist)) [
        | inl old ↦ rw old old
        | inr new ↦ rw new (
            each_channel-keeps (λ s. has_key target.user_id (s.channel_at ref).mutelist ≡ true)
              (λ next. mute_user fuel next client target reason duration)
              (r.channel_at ref).forwards (mute_here ref client target reason duration r)
              (λ next s hs.
                mute_user-keeps (λ x. has_key target.user_id (x.channel_at ref).mutelist ≡ true)
                  (λ k x. muted_stays ref k x) fuel next s hs)
              (ground (arith, mute_here-mute_in ref target.user_id ref r)))
      ]

pub unmute_here-mute_in :
    (client target : Person) (k u ref : ℕ) (r : Root)
    → mute_in (unmute_here ref client target r) k u ≡ (
        if k == ref then (if u == target.user_id then none else mute_in r ref u) else mute_in r k u)
unfolding unmute_here channel_message channel_broadcast
unmute_here-mute_in client target k u ref r =
    ground (arith, lookup-erase u target.user_id (r.channel_at ref).mutelist)

mute_user_flat :
    (client target : Person) (reason : Text) (duration fuel ref : ℕ) (r : Root)
    → (r.channel_at ref).forwards ≡ []
    → has_key target.user_id (r.channel_at ref).mutelist ≡ false
    → mute_user (suc fuel) ref client target reason duration r
      ≡ done (mute_here ref client target reason duration r)
unfolding mute_user each_channel
mute_user_flat client target reason duration fuel ref r flat new = rw (new, flat)

unmute_user_flat :
    (client target : Person) (fuel ref : ℕ) (r : Root)
    → (r.channel_at ref).forwards ≡ []
    → has_key target.user_id (r.channel_at ref).mutelist ≡ true
    → unmute_user (suc fuel) ref client target r ≡ done (unmute_here ref client target r)
unfolding unmute_user each_channel
unmute_user_flat client target fuel ref r flat old = rw (old, flat)

mute_here-forwards :
    (client target : Person) (reason : Text) (duration ref : ℕ) (r : Root)
    → ((mute_here ref client target reason duration r).channel_at ref).forwards
      ≡ (r.channel_at ref).forwards
unfolding mute_here channel_message channel_broadcast
mute_here-forwards client target reason duration ref r = ground arith

-- A mute and then an unmute, in a channel that forwards nowhere, of a user who was not muted there,
-- leave every user's mute as it was.
unmute_user-mute_user :
    (client target : Person) (reason : Text) (duration fuel ref u : ℕ) (r : Root)
    → (r.channel_at ref).forwards ≡ []
    → has_key target.user_id (r.channel_at ref).mutelist ≡ false
    → let s = after (mute_user (suc fuel) ref client target reason duration r) in
      mute_in (after (unmute_user (suc fuel) ref client target s)) ref u ≡ mute_in r ref u
unmute_user-mute_user client target reason duration fuel ref u r flat new =
    let s = mute_here ref client target reason duration r in
    rw (mute_user_flat client target reason duration fuel ref r flat new) (
      rw
        (unmute_user_flat client target fuel ref s
          (mute_here-forwards client target reason duration ref r ∙ flat)
          (ground
            (arith, mute_here-mute_in client target reason duration ref target.user_id ref r)))
        (ground (
          arith,
          unmute_here-mute_in client target ref u ref s,
          mute_here-mute_in client target reason duration ref u ref r,
          eqb_iff u target.user_id,
        )))
