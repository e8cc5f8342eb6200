-- ===== src/Battle/Join/Entry.antt =====
-- What `joinBattle` of protocol/Battle.py leaves behind.
use uberserver.Base.{
  ℕ, ◌≡◌, refl, subst, sym, ap, true, false, not, ◌&&◌, ◌||◌, List, [], ◌∷◌, Option, none, some,
  arith, eqb, eqb_iff, nat_eq, text_eq, Bool-cases, Option-cases, inl, inr, length,
}
use uberserver.Base.Dict.{Dict, contains, contains-add}
use uberserver.Base.Int.{ℤ, pos, ltb_ℤ}
use uberserver.Base.Text.{Text, codes}
use uberserver.Server.Types.{Root, BattlePart, Bot, Rect}
use uberserver.Server.Store.{client_from_session, has_flag}
use uberserver.Server.Cast.{send, broadcast, turn_enabled}
use uberserver.Server.Outcome.{
  Outcome, done, raised, ◌>>=◌, after, Quiet, Quiet-trans, Quiet-bind, Outcome-cases,
}
use uberserver.Channel.Members.{add_user, admit}
use uberserver.Channel.Members.Lockstep.{announce_join-Quiet}
use uberserver.Battle.Status.{calc_battlestatus}
use uberserver.Battle.Join.{
  announce_joiner, announce_unless_host, send_settings, send_ip_port, send_statuses, send_bots,
  send_rects, brief, enter_battle, join_battle, host_of,
}

announce_joiner-Quiet : (sid host ref : ℕ) (r : Root) → Quiet r (announce_joiner sid host ref r)
unfolding announce_joiner send broadcast
announce_joiner-Quiet sid host ref r =
    elim (Bool-cases (has_flag (r.client_at host) (codes "r") && turn_enabled r)) [
      | inl e ↦ rw e refl
      | inr e ↦ rw e refl
    ]

announce_unless_host-Quiet :
    (sid : ℕ) (host : Option ℕ) (ref : ℕ) (r : Root)
    → Quiet r (after (announce_unless_host sid host ref r))
unfolding announce_unless_host
announce_unless_host-Quiet sid none ref r = refl
announce_unless_host-Quiet sid (some host) ref r = elim (Bool-cases (eqb sid host)) [
  | inl e ↦ rw e refl
  | inr e ↦ rw e (announce_joiner-Quiet sid host ref r)
]

send_settings-Quiet : (sid ref : ℕ) (r : Root) → Quiet r (send_settings sid ref r)
unfolding send_settings send
send_settings-Quiet sid ref r =
    elim (Bool-cases (eqb (length (r.channel_at ref).battle.disabled_units) 0)) [
      | inl e ↦ rw e refl
      | inr e ↦ rw e refl
    ]

send_ip_port-Quiet :
    (sid : ℕ) (host : Option ℕ) (ref : ℕ) (r : Root) → Quiet r (after (send_ip_port sid host ref r))
unfolding send_ip_port send
send_ip_port-Quiet sid none ref r = elim (Option-cases (r.channel_at ref).battle.nat_type) [
  | inl e ↦ rw (e, send_ip_port) refl
  | inr (n, e) ↦
      rw (e, send_ip_port)
        (elim (Bool-cases (not (ltb_ℤ (pos 0) n) || eqb (r.client_at sid).udpport 0 || false)) [
          | inl t ↦ rw (t, send_ip_port) refl
          | inr t ↦ rw (t, send_ip_port) refl
        ])
]
send_ip_port-Quiet sid (some h) ref r = elim (Option-cases (r.channel_at ref).battle.nat_type) [
  | inl e ↦ rw (e, send_ip_port) refl
  | inr (n, e) ↦
      rw (e, send_ip_port)
        (elim (Bool-cases (not (ltb_ℤ (pos 0) n) || eqb (r.client_at sid).udpport 0 || eqb h sid)) [
          | inl t ↦ rw (t, send_ip_port) refl
          | inr t ↦ rw (t, send_ip_port) refl
        ])
]

send_statuses-Quiet :
    (sid : ℕ) (members : List ℕ) (r : Root) → Quiet r (after (send_statuses sid members r))
unfolding send_statuses send
send_statuses-Quiet sid [] r = refl
send_statuses-Quiet sid (m ∷ members) r = elim (Option-cases (client_from_session r m)) [
  | inl e ↦ rw (e, send_statuses) refl
  | inr (s, e) ↦ elim (Option-cases (calc_battlestatus (r.client_at s).battlestatus)) [
    | inl f ↦ rw (e, send_statuses) (rw (f, send_statuses) refl)
    | inr (n, f) ↦ rw (e, send_statuses) (rw (f, send_statuses) (send_statuses-Quiet sid members _))
  ]
]

send_bots-Quiet :
    (sid : ℕ) (battle_id : Option ℕ) (bots : Dict Text Bot) (r : Root)
    → Quiet r (send_bots sid battle_id bots r)
unfolding send_bots send
send_bots-Quiet sid battle_id [] r = refl
send_bots-Quiet sid battle_id ((name, bot) ∷ bots) r = send_bots-Quiet sid battle_id bots _

send_rects-Quiet : (sid : ℕ) (rects : Dict ℤ Rect) (r : Root) → Quiet r (send_rects sid rects r)
unfolding send_rects send
send_rects-Quiet sid [] r = refl
send_rects-Quiet sid ((allyno, rect) ∷ rects) r = send_rects-Quiet sid rects _

brief-Quiet : (sid ref : ℕ) (r : Root) → Quiet r (after (brief sid ref r))
unfolding brief
brief-Quiet sid ref r =
    Quiet-bind r (announce_unless_host sid (host_of r ref) ref r) _
      (announce_unless_host-Quiet sid (host_of r ref) ref r)
      (λ r1.
        Quiet-bind r1 (send_ip_port sid (host_of r1 ref) ref (send_settings sid ref r1)) _
          (Quiet-trans r1 (send_settings sid ref r1) _ (send_settings-Quiet sid ref r1)
            (send_ip_port-Quiet sid (host_of r1 ref) ref (send_settings sid ref r1)))
          (λ r2.
            Quiet-bind r2 (send_statuses sid (r2.channel_at ref).users r2) _
              (send_statuses-Quiet sid (r2.channel_at ref).users r2)
              (λ r3.
                let bots =
                  send_bots sid (r3.channel_at ref).battle.battle_id (r3.channel_at ref).battle.bots
                    r3 in
                Quiet-trans r3 bots _
                  (send_bots-Quiet sid (r3.channel_at ref).battle.battle_id
                    (r3.channel_at ref).battle.bots r3)
                  (send_rects-Quiet sid (r3.channel_at ref).battle.startrects bots))))

-- Session `sid` is a member of channel `ref`, whose battle is `b`.
abbrev Inside : ℕ → ℕ → BattlePart → Root → Type 0
Inside sid ref b r =
    (contains sid (r.channel_at ref).users ≡ true) × ((r.channel_at ref).battle ≡ b)

admit-Inside : (sid ref : ℕ) (r : Root) → Inside sid ref (r.channel_at ref).battle (admit sid ref r)
unfolding admit
admit-Inside sid ref r =
    (ground (arith, contains-add sid sid (r.channel_at ref).users), ground arith)

add_user-Inside :
    (sid ref : ℕ) (r : Root) → Inside sid ref (r.channel_at ref).battle (after (add_user sid ref r))
unfolding add_user
add_user-Inside sid ref r = elim (Bool-cases (contains sid (r.channel_at ref).users)) [
  | inl old ↦ rw (old, add_user) (old, refl)
  | inr new ↦
      rw (new, add_user)
        (subst (Inside sid ref (r.channel_at ref).battle)
          (sym (announce_join-Quiet sid ref (admit sid ref r))) (admit-Inside sid ref r))
]

-- Once the briefing is over, the client names the battle as its own.
enter_battle-Inside :
    (sid ref : ℕ) (b : BattlePart) (r : Root)
    → Inside sid ref b r
    → Inside sid ref b (enter_battle sid ref r)
      × (((enter_battle sid ref r).client_at sid).current_battle ≡ b.battle_id)
unfolding enter_battle send
enter_battle-Inside sid ref b r h =
    (h, ground (arith, eqb_iff sid sid, ap (λ (x : BattlePart). x.battle_id) h.1))

raised_is_not_done : (a b : Root) → raised a ≡ done b → ⊥
raised_is_not_done a b h = cc

brief_then_enter :
    (sid ref : ℕ) (b : BattlePart) (o : Outcome) (s : Root)
    → Inside sid ref b (after o)
    → (o >>= (λ r1. brief sid ref r1 >>= (λ r2. done (enter_battle sid ref r2)))) ≡ done s
    → Inside sid ref b s × ((s.client_at sid).current_battle ≡ b.battle_id)
brief_then_enter sid ref b (raised r1) s h e = absurd (raised_is_not_done r1 s e)
brief_then_enter sid ref b (done r1) s h e = elim (Outcome-cases (brief sid ref r1)) [
  | inr (r2, f) ↦ absurd (raised_is_not_done r2 s (rw f at e))
  | inl (r2, f) ↦
      let there : Inside sid ref b (after (brief sid ref r1)) =
        subst (Inside sid ref b) (sym (brief-Quiet sid ref r1)) h in
      let entered : done (enter_battle sid ref r2) ≡ done s = rw f at e in
      subst (λ (x : Root). Inside sid ref b x × ((x.client_at sid).current_battle ≡ b.battle_id))
        (ap after entered)
        (enter_battle-Inside sid ref b r2 (subst (Inside sid ref b) (ap after f) there))
]

-- When `joinBattle` returns, the client is a member of the battle's channel, its current battle is
-- that battle, and the battle itself is as it was.
pub join_battle_enters :
    (sid ref : ℕ) (r s : Root)
    → join_battle sid ref r ≡ done s
    → (contains sid (s.channel_at ref).users ≡ true)
      × ((s.channel_at ref).battle ≡ (r.channel_at ref).battle)
      × ((s.client_at sid).current_battle ≡ (r.channel_at ref).battle.battle_id)
unfolding join_battle send
join_battle_enters sid ref r s e =
    let ((inside, same), current) =
      brief_then_enter sid ref (r.channel_at ref).battle _ s (add_user-Inside sid ref _) e in
    (inside, same, current)
