-- ===== src/Battle/Leave/Exit.antt =====
-- What `leaveBattle` and `removeBattle` of protocol/Battle.py leave behind.
use uberserver.Base.{
  ℕ, ◌≡◌, refl, subst, sym, ◌∙◌, false, List, [], ◌∷◌, none, some, arith, eqb, eqb_iff, nat_eq,
  text_eq, Bool-cases, Option-cases, inl, inr, any, keep,
}
use uberserver.Base.Dict.{contains, has_key, keys, lookup}
use uberserver.Base.Int.{pos, eqb_ℤ}
use uberserver.Base.Text.{Text}
use uberserver.Server.Types.{Root, Message}
use uberserver.Server.Cast.{
  Filter, everyone, broadcast_all, broadcast_battle, receives, multicast, delivered,
}
use uberserver.Server.Outcome.{done, after, Quiet, bind-keeps}
use uberserver.Channel.Members.{remove_user}
use uberserver.Channel.Members.Lockstep.{remove_user-users}
use uberserver.Battle.Status.{spectator_count}
use uberserver.Battle.Leave.{
  tell_battle, exit_battle, remove_bots, drop_bot, bot_message, without_bot, recount_spectators,
  leave_battle, announce_leaving, tell_left,
}

-- Session `sid` is in no battle, and is no member of channel `ref`.
abbrev Outside : ℕ → ℕ → Root → Type 0
Outside sid ref r =
    ((r.client_at sid).current_battle ≡ none) × (contains sid (r.channel_at ref).users ≡ false)

pub broadcast_battle-Quiet :
    (m : Message) (battle_id : ℕ) (f : Filter) (r : Root)
    → Quiet r (after (broadcast_battle m battle_id f r))
unfolding broadcast_battle multicast delivered
broadcast_battle-Quiet m battle_id f r = elim (Option-cases (lookup battle_id r.battles)) [
  | inl e ↦ rw (e, broadcast_battle) refl
  | inr (ref, e) ↦
      elim (Bool-cases (
        any (λ sid. (r.client_at sid).static)
          (keep (receives r.client_at f) (r.channel_at ref).user_clients))) [
            | inl s ↦ rw (e, broadcast_battle) (rw s refl)
            | inr s ↦ rw (e, broadcast_battle) (rw s refl)
          ]
]

pub tell_battle-Quiet : (ref : ℕ) (m : Message) (r : Root) → Quiet r (after (tell_battle ref m r))
unfolding tell_battle
tell_battle-Quiet ref m r = elim (Option-cases (r.channel_at ref).battle.battle_id) [
  | inl e ↦ rw (e, tell_battle) refl
  | inr (battle_id, e) ↦ rw (e, tell_battle) (broadcast_battle-Quiet m battle_id everyone r)
]

-- A property that looks at no log survives an announcement to the battle.
tell_battle-keeps :
    (P : Root → Type 0) (ref : ℕ) (m : Message) (r : Root)
    → P (record r {
      sent = (after (tell_battle ref m r)).sent;
      db = (after (tell_battle ref m r)).db;
    })
    → P (after (tell_battle ref m r))
tell_battle-keeps P ref m r h = subst P (sym (tell_battle-Quiet ref m r)) h

drop_bot-Outside :
    (sid ref : ℕ) (bot : Text) (r : Root)
    → Outside sid ref r
    → Outside sid ref (after (drop_bot sid ref bot r))
unfolding drop_bot
drop_bot-Outside sid ref bot r h = elim (Bool-cases (has_key bot (r.channel_at ref).battle.bots)) [
  | inl e ↦
      rw (e, drop_bot)
        (tell_battle-keeps (Outside sid ref) ref (bot_message r ref bot) (without_bot sid ref bot r)
          (ground arith, ground arith))
  | inr e ↦ rw (e, drop_bot) (ground arith, ground arith)
]

remove_bots-Outside :
    (sid ref : ℕ) (bots : List Text) (r : Root)
    → Outside sid ref r
    → Outside sid ref (after (remove_bots sid ref bots r))
unfolding remove_bots
remove_bots-Outside sid ref [] r h = h
remove_bots-Outside sid ref (bot ∷ bots) r h =
    bind-keeps (Outside sid ref) (drop_bot sid ref bot r) (remove_bots sid ref bots)
      (drop_bot-Outside sid ref bot r h) (λ s hs. remove_bots-Outside sid ref bots s hs)

-- `recount_spectators` by the two ways that it ends.
recount_spectators-Outside :
    (sid ref : ℕ) (r : Root) → Outside sid ref r → Outside sid ref (recount_spectators ref r)
unfolding recount_spectators broadcast_all
recount_spectators-Outside sid ref r h =
    elim (Bool-cases (
      eqb_ℤ (r.channel_at ref).battle.spectators
        (pos (spectator_count r (r.channel_at ref).users)))) [
          | inl e ↦ rw (e, recount_spectators) (ground arith, ground arith)
          | inr e ↦ rw (e, recount_spectators) (ground arith, ground arith)
        ]

announce_leaving-Outside :
    (sid ref : ℕ) (r : Root) → Outside sid ref r → Outside sid ref (announce_leaving sid ref r)
unfolding announce_leaving broadcast_all
announce_leaving-Outside sid ref r out =
    elim (Bool-cases
      (elim (r.channel_at ref).battle.host [ none ↦ false | some host ↦ eqb sid host ])) [
        | inl e ↦ rw (e, announce_leaving) out
        | inr e ↦
            rw (e, announce_leaving) (recount_spectators-Outside sid ref (tell_left sid ref r) out)
      ]

exit_battle-Outside :
    (sid ref : ℕ) (r : Root) → Outside sid ref (exit_battle sid (remove_user sid ref none r))
unfolding exit_battle
exit_battle-Outside sid ref r = (
  ground (arith, eqb_iff sid sid),
  remove_user-users sid ref none r sid ∙ ground (arith, eqb_iff sid sid),
)

-- After `leaveBattle` the client is in no battle and is no member of the battle's channel, whether it
-- returns or an announcement raises.
pub leave_battle_leaves :
    (sid ref : ℕ) (r : Root)
    → let s = after (leave_battle sid ref r) in
      ((s.client_at sid).current_battle ≡ none) × (contains sid (s.channel_at ref).users ≡ false)
unfolding leave_battle
leave_battle_leaves sid ref r =
    let r1 = exit_battle sid (remove_user sid ref none r) in
    let bots = keys (r1.client_at sid).battle_bots in
    bind-keeps (Outside sid ref) (remove_bots sid ref bots r1)
      (λ (s : Root). done (announce_leaving sid ref s))
      (remove_bots-Outside sid ref bots r1 (exit_battle-Outside sid ref r))
      (λ s hs. announce_leaving-Outside sid ref s hs)

-- After a recount, the battle's number of spectators is the number of its online members that
-- spectate.
pub recount_spectators_counts :
    (ref : ℕ) (r : Root)
    → let s = recount_spectators ref r in
      (s.channel_at ref).battle.spectators ≡ pos (spectator_count s (s.channel_at ref).users)
unfolding recount_spectators broadcast_all spectator_count
recount_spectators_counts ref r =
    elim (Bool-cases (
      eqb_ℤ (r.channel_at ref).battle.spectators
        (pos (spectator_count r (r.channel_at ref).users)))) [
          | inl e ↦ rw (e, recount_spectators) (ground arith)
          | inr e ↦ rw (e, recount_spectators) (ground arith)
        ]
