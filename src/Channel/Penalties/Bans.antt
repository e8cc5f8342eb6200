-- ===== src/Channel/Penalties/Bans.antt =====
-- The ban lists, and what goes wrong where a ban meets a battle.
use uberserver.Base.{
  ℕ, zero, suc, ◌≡◌, refl, true, false, [], none, arith, nat_eq, text_eq, inl, inr, ==_iff, ◌⊎◌,
}
use uberserver.Base.Dict.{lookup, has_key, contains, lookup-insert, lookup-erase, contains-discard}
use uberserver.Base.Text.{Text}
use uberserver.Server.Types.{Root}
use uberserver.Server.Outcome.{
  done, raised, after, each_channel, each_channel-keeps, Outcome-cases, ◌>>=◌,
}
use uberserver.Channel.Access.{Person}
use uberserver.Channel.Members.{channel_broadcast, remove_bridged_user}
use uberserver.Channel.Penalties.{
  ban_user, add_ban, kick_user, ban_of, penalty, ban_bridged_user, add_bridged_ban, unban_user,
  unban_here,
}

module _ (client target : Person) (expires : ℕ) (reason : Text) where
  -- Banning a user from a battle records the ban and then always raises: the user stays in it.
  ban_user_battle :
      (fuel ref : ℕ) (r : Root)
      → (r.channel_at ref).is_battle ≡ true
      → has_key target.user_id (r.channel_at ref).ban ≡ false
      → let o = ban_user (suc fuel) ref client target expires reason r in
        (o ≡ raised (after o))
        × (has_key target.user_id ((after o).channel_at ref).ban ≡ true)
        × (((after o).channel_at ref).users ≡ (r.channel_at ref).users)
  unfolding ban_user add_ban kick_user
  ban_user_battle fuel ref r battle new = ground (
    arith,
    lookup-insert target.user_id target.user_id
        (record (penalty target.user_id expires reason client.user_id) {
          ip_address = target.last_ip;
        })
        (r.channel_at ref).ban,
  )

-- Neither the user nor the address has a ban.
abbrev pub IsUnbanned : Root → ℕ → ℕ → Text → Type 0
IsUnbanned r ref user_id ip =
    (lookup user_id (r.channel_at ref).ban ≡ none) × (lookup ip (r.channel_at ref).ban_ip ≡ none)

module _ (client target : Person) where
  unban_here-IsUnbanned :
      (k ref : ℕ) (r : Root)
      → (k ≡ ref) ⊎ IsUnbanned r k target.user_id target.last_ip
      → IsUnbanned (unban_here ref target r) k target.user_id target.last_ip
  unfolding unban_here
  unban_here-IsUnbanned k ref r h = ground (
    arith,
    lookup-erase target.user_id target.user_id (r.channel_at ref).ban,
    lookup-erase target.last_ip target.last_ip (r.channel_at ref).ban_ip,
    ==_iff target.last_ip target.last_ip,
  )

  unban_user-keeps :
      (k fuel ref : ℕ) (r : Root)
      → IsUnbanned r k target.user_id target.last_ip
      → IsUnbanned (after (unban_user fuel ref client target r)) k target.user_id target.last_ip
  unfolding unban_user
  unban_user-keeps k zero ref r h = h
  unban_user-keeps k (suc fuel) ref r h =
      each_channel-keeps (λ s. IsUnbanned s k target.user_id target.last_ip)
        (λ next. unban_user fuel next client target) (r.channel_at ref).forwards
        (unban_here ref target r) (λ next s hs. unban_user-keeps k fuel next s hs)
        (unban_here-IsUnbanned k ref r (inr h))

  -- After an unban no ban of the channel holds for the user at the address last seen, whatever the
  -- forwards do.
  unban_user-target :
      (fuel ref : ℕ) (r : Root)
      → let s = after (unban_user (suc fuel) ref client target r) in
        ban_of (s.channel_at ref) target.user_id target.last_ip ≡ none
  unfolding unban_user ban_of
  unban_user-target fuel ref r =
      let h =
        each_channel-keeps (λ s. IsUnbanned s ref target.user_id target.last_ip)
          (λ next. unban_user fuel next client target) (r.channel_at ref).forwards
          (unban_here ref target r) (λ next s hs. unban_user-keeps ref fuel next s hs)
          (unban_here-IsUnbanned ref ref r (inl refl)) in
      rw (h.0, ban_of) h.1

-- `removeBridgedUser` leaves the user outside the channel.
remove_bridged_user-gone :
    (bridged_id ref : ℕ) (reason : Text) (r s : Root)
    → remove_bridged_user bridged_id ref reason r ≡ done s
    → contains bridged_id (s.channel_at ref).bridged_users ≡ false
unfolding remove_bridged_user channel_broadcast
remove_bridged_user-gone bridged_id ref reason r s d =
    ground (arith, contains-discard bridged_id bridged_id (r.channel_at ref).bridged_users)

-- A ban of a bridged user is never announced in the channel: once the user is removed the test for
-- the announcement fails, and the ban is the entry, the removal and the forwards.
ban_bridged_user_silent :
    (fuel ref bridged_id duration : ℕ) (client : Person) (reason : Text) (r : Root)
    → has_key bridged_id (r.channel_at ref).bridged_ban ≡ false
    → ban_bridged_user (suc fuel) ref client bridged_id reason duration r ≡ (
        remove_bridged_user bridged_id ref []
          (add_bridged_ban ref client bridged_id reason duration r)
        >>= each_channel
            (λ next. ban_bridged_user fuel next client bridged_id reason duration)
            (r.channel_at ref).forwards)
unfolding ban_bridged_user
ban_bridged_user_silent fuel ref bridged_id duration client reason r new =
    rw new
      (elim (Outcome-cases (
        remove_bridged_user bridged_id ref []
          (add_bridged_ban ref client bridged_id reason duration r))) [
            | inl (s, went) ↦
                rw went (rw (remove_bridged_user-gone bridged_id ref [] _ s went) refl)
            | inr (s, stopped) ↦ rw stopped refl
          ])
