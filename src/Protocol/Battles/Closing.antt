-- ===== src/Protocol/Battles/Closing.antt =====
-- What LEAVEBATTLE of protocol/Protocol.py does when the host leaves.
use uberserver.Base.{
  ℕ, ◌≡◌, refl, ap, ◌∙◌, Bool, true, false, not, ◌&&◌, List, [], ◌∷◌, none, arith, eqb, eqb_iff,
  nat_eq, text_eq, Bool-cases, Option-cases, inl, inr, if◌then◌else◌, length,
}
use uberserver.Base.Dict.{Dict, lookup, erase, has_key, lookup-erase}
use uberserver.Server.Types.{Root}
use uberserver.Server.Store.{is_registered, client_from_session}
use uberserver.Server.Outcome.{after, bind-keeps}
use uberserver.Channel.Members.{remove_user, channel_broadcast}
use uberserver.Battle.Leave.{
  remove_battle, dismiss_pending, dismiss_users, dismiss_one, broadcast_remove_battle, exit_battle,
}
use uberserver.Protocol.Battles.{close_battle}

-- No battle has the id `battle_id`.
abbrev Gone : ℕ → Root → Type 0
Gone battle_id r = lookup battle_id r.battles ≡ none

dismiss_one-battles : (ref sid : ℕ) (r : Root) → (dismiss_one ref sid r).battles ≡ r.battles
unfolding dismiss_one exit_battle remove_user channel_broadcast
dismiss_one-battles ref sid r = ground arith

dismiss_pending-battles :
    (sids : List ℕ) (r : Root) → (after (dismiss_pending sids r)).battles ≡ r.battles
unfolding dismiss_pending
dismiss_pending-battles [] r = refl
dismiss_pending-battles (sid ∷ sids) r = elim (Option-cases (client_from_session r sid)) [
  | inl e ↦ rw (e, dismiss_pending) refl
  | inr (s, e) ↦ rw (e, dismiss_pending) (dismiss_pending-battles sids _)
]

dismiss_users-battles :
    (ref : ℕ) (sids : List ℕ) (r : Root) → (after (dismiss_users ref sids r)).battles ≡ r.battles
unfolding dismiss_users
dismiss_users-battles ref [] r = refl
dismiss_users-battles ref (sid ∷ sids) r = elim (Option-cases (client_from_session r sid)) [
  | inl e ↦ rw (e, dismiss_users) refl
  | inr (s, e) ↦
      rw (e, dismiss_users)
        (dismiss_users-battles ref sids (dismiss_one ref s r) ∙ dismiss_one-battles ref s r)
]

remove_battle-battles : (ref : ℕ) (r : Root) → (after (remove_battle ref r)).battles ≡ r.battles
unfolding remove_battle broadcast_remove_battle
remove_battle-battles ref r = elim (Bool-cases (eqb (length (r.channel_at ref).bridged_users) 0)) [
  | inr some_bridged ↦ rw (some_bridged, remove_battle) refl
  | inl empty ↦
      rw (empty, remove_battle)
        (bind-keeps (λ x. x.battles ≡ r.battles)
          (dismiss_pending (r.channel_at ref).battle.pending_users r) _
          (dismiss_pending-battles (r.channel_at ref).battle.pending_users r)
          (λ r1 e1.
            bind-keeps (λ x. x.battles ≡ r.battles) (dismiss_users ref (r.channel_at ref).users r1)
              _ (dismiss_users-battles ref (r.channel_at ref).users r1 ∙ e1) (λ r2 e2. e2)))
]

and_false : (b : Bool) → (b && false) ≡ false
and_false true = refl
and_false false = refl

-- Once the host of a battle whose channel is in the table has closed it, no battle has that id any
-- more and the other battles are still there, also where dismissing the members raises.
pub close_battle_removes :
    (ref battle_id : ℕ) (r : Root)
    → has_key (r.channel_at ref).name r.channels ≡ true
    → let s = after (close_battle ref battle_id r) in
      (lookup battle_id s.battles ≡ none)
      × ((other : ℕ)
          → eqb other battle_id ≡ false
          → lookup other s.battles ≡ lookup other r.battles)
unfolding close_battle
close_battle_removes ref battle_id r h =
    let name = (r.channel_at ref).name in
    let r1 = record r {
      channels = if is_registered r name then r.channels else erase name r.channels;
      battles = erase battle_id r.battles;
    } in
    let same : (after (close_battle ref battle_id r)).battles ≡ erase battle_id r.battles =
      rw (h, close_battle)
        (rw (and_false (not (is_registered r name))) (remove_battle-battles ref r1)) in
    (
      ap (λ (d : Dict ℕ ℕ). lookup battle_id d) same
          ∙ lookup-erase battle_id battle_id r.battles
          ∙ ground (arith, eqb_iff battle_id battle_id),
      λ other e.
          ap (λ (d : Dict ℕ ℕ). lookup other d) same
          ∙ lookup-erase other battle_id r.battles
          ∙ ground (arith, e),
    )
