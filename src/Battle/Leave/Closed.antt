-- ===== src/Battle/Leave/Closed.antt =====
-- What `removeBattle` of protocol/Battle.py has done once it returns.
use mathlib.Core.Option.{some-injective}
use uberserver.Base.{
  ℕ, ◌≡◌, refl, subst, sym, ap, ◌∙◌, Bool, true, false, List, [], ◌∷◌, none, some, arith, eqb,
  eqb_iff, nat_eq, text_eq, Bool-cases, Option-cases, inl, inr, length, ◌==◌,
}
use uberserver.Base.Dict.{contains, contains-discard}
use uberserver.Base.Text.{Text, codes}
use uberserver.Server.Types.{Root}
use uberserver.Server.Store.{set_battle, set_client, client_from_session}
use uberserver.Server.Outcome.{Outcome, done, raised, ◌>>=◌, after}
use uberserver.Channel.Members.{remove_user, channel_broadcast}
use uberserver.Battle.Status.{fresh_battle}
use uberserver.Battle.Leave.{
  exit_battle, dismiss_one, dismiss_users, dismiss_pending, broadcast_remove_battle, remove_battle,
}

-- A client that the battle no longer knows of.
abbrev pub Cleared : ℕ → Root → Type 0
Cleared sid r = ((r.client_at sid).current_battle ≡ none) × ((r.client_at sid).battle_bots ≡ [])

abbrev pub is_chanserv : ℕ → Root → Bool
is_chanserv sid r = (r.client_at sid).username == codes "ChanServ"

-- What later steps of the closing keep of an earlier one.
abbrev Later : ℕ → Root → Root → Type 0
Later ref r s =
    (j : ℕ)
    → ((s.client_at j).username ≡ (r.client_at j).username)
      × (Cleared j r → Cleared j s)
      × (contains j (r.channel_at ref).users ≡ false → contains j (s.channel_at ref).users ≡ false)
      × ((r.client_at j).pending_battle ≡ none → (s.client_at j).pending_battle ≡ none)

Later-trans : (ref : ℕ) (r s t : Root) → Later ref r s → Later ref s t → Later ref r t
Later-trans ref r s t a b j =
    let (n1, c1, u1, p1) = a j in
    let (n2, c2, u2, p2) = b j in (n2 ∙ n1, (λ h. c2 (c1 h)), (λ h. u2 (u1 h)), λ h. p2 (p1 h))

dismiss_one-Later : (ref sid : ℕ) (r : Root) → Later ref r (dismiss_one ref sid r)
unfolding dismiss_one exit_battle remove_user channel_broadcast
dismiss_one-Later ref sid r j = elim (Bool-cases (is_chanserv sid r)) [
  | inl e ↦
      rw (e, dismiss_one)
        (
          ground (arith, eqb_iff j sid),
          (λ (a, b). (ground (arith, a), ground (arith, b))),
          (λ h. h),
          λ h. ground (arith, h),
        )
  | inr e ↦
      rw (e, dismiss_one)
        (
          ground (arith, eqb_iff j sid),
          (λ (a, b). (ground (arith, a), ground (arith, b))),
          (λ h. ground (arith, h, contains-discard j sid (r.channel_at ref).users)),
          λ h. ground (arith, h),
        )
]

dismiss_one-Cleared : (ref sid : ℕ) (r : Root) → Cleared sid (dismiss_one ref sid r)
unfolding dismiss_one exit_battle remove_user channel_broadcast
dismiss_one-Cleared ref sid r = elim (Bool-cases (is_chanserv sid r)) [
  | inl e ↦ rw (e, dismiss_one) (ground (arith, eqb_iff sid sid), ground (arith, eqb_iff sid sid))
  | inr e ↦ rw (e, dismiss_one) (ground (arith, eqb_iff sid sid), ground (arith, eqb_iff sid sid))
]

dismiss_one-leaves :
    (ref sid : ℕ) (r : Root)
    → is_chanserv sid r ≡ false
    → contains sid ((dismiss_one ref sid r).channel_at ref).users ≡ false
unfolding dismiss_one exit_battle remove_user channel_broadcast
dismiss_one-leaves ref sid r e =
    rw (e, dismiss_one)
      (ground (arith, eqb_iff sid sid, contains-discard sid sid (r.channel_at ref).users))

raised_is_not_done : (a b : Root) → raised a ≡ done b → ⊥
raised_is_not_done a b h = cc

-- Everybody in the list is cleared, and out of the channel but for ChanServ.
abbrev Dismissed : ℕ → List ℕ → Root → Root → Type 0
Dismissed ref sids r s =
    (j : ℕ)
    → contains j sids ≡ true
    → Cleared j s × (is_chanserv j r ≡ false → contains j (s.channel_at ref).users ≡ false)

none_is_not_some : (j : ℕ) → none ≡ some j → ⊥
none_is_not_some j h = cc

found_self : (r : Root) (sid s : ℕ) → client_from_session r sid ≡ some s → s ≡ sid
unfolding client_from_session
found_self r sid s h = elim (Bool-cases (contains sid r.clients)) [
  | inl e ↦ sym (some-injective sid s (rw e at h))
  | inr e ↦ absurd (none_is_not_some s (rw e at h))
]

dismiss_users-Dismissed :
    (ref : ℕ) (sids : List ℕ) (r s : Root)
    → dismiss_users ref sids r ≡ done s
    → Later ref r s × Dismissed ref sids r s
unfolding dismiss_users contains
dismiss_users-Dismissed ref [] r s d =
    subst (λ (x : Root). Later ref r x × Dismissed ref [] r x) (ap after d)
      ((λ j. (refl, (λ h. h), (λ h. h), λ h. h)), λ j m. absurd (ground (arith, m)))
dismiss_users-Dismissed ref (sid ∷ sids) r s d = elim (Option-cases (client_from_session r sid)) [
  | inl e ↦ absurd (raised_is_not_done r s (rw (e, dismiss_users) at d))
  | inr (t, e) ↦
      let self = found_self r sid t e in
      let r1 = dismiss_one ref sid r in
      let rest : dismiss_users ref sids r1 ≡ done s = rw self at (rw (e, dismiss_users) at d) in
      let (later, gone) = dismiss_users-Dismissed ref sids r1 s rest in
      let first = dismiss_one-Later ref sid r in
      (
        Later-trans ref r r1 s first later,
        λ j m. elim (Bool-cases (eqb j sid)) [
          | inl here ↦
              let same : j ≡ sid = ground (arith, eqb_iff j sid) in
              rw same (
                (later sid).1 (dismiss_one-Cleared ref sid r),
                λ other. (later sid).2 (dismiss_one-leaves ref sid r other),
              )
          | inr there ↦
              let (clear, out) = gone j (rw there at m) in
              (clear, λ other. out (ap (λ (u : Text). u == codes "ChanServ") (first j).0 ∙ other))
        ],
      )
]

dismiss_pending-Later :
    (ref : ℕ) (sids : List ℕ) (r s : Root)
    → dismiss_pending sids r ≡ done s
    → Later ref r s × ((j : ℕ) → contains j sids ≡ true → (s.client_at j).pending_battle ≡ none)
unfolding dismiss_pending contains
dismiss_pending-Later ref [] r s d =
    subst
      (λ (x : Root).
        Later ref r x × ((j : ℕ) → false ≡ true → (x.client_at j).pending_battle ≡ none))
      (ap after d) ((λ j. (refl, (λ h. h), (λ h. h), λ h. h)), λ j m. absurd (ground (arith, m)))
dismiss_pending-Later ref (sid ∷ sids) r s d = elim (Option-cases (client_from_session r sid)) [
  | inl e ↦ absurd (raised_is_not_done r s (rw (e, dismiss_pending) at d))
  | inr (t, e) ↦
      let self = found_self r sid t e in
      let r1 = set_client sid (λ c. record c { pending_battle = none }) r in
      let rest : dismiss_pending sids r1 ≡ done s = rw self at (rw (e, dismiss_pending) at d) in
      let (later, free) = dismiss_pending-Later ref sids r1 s rest in
      let first : Later ref r r1 = λ j. (
        ground (arith, eqb_iff j sid),
        (λ (a, b). (ground (arith, a), ground (arith, b))),
        (λ h. h),
        λ h. ground (arith, h),
      ) in
      (
        Later-trans ref r r1 s first later,
        λ j m. elim (Bool-cases (eqb j sid)) [
          | inl here ↦
              let same : j ≡ sid = ground (arith, eqb_iff j sid) in
              rw same ((later sid).3 (ground (arith, eqb_iff sid sid)))
          | inr there ↦ free j (rw there at m)
        ],
      )
]

-- A chain that returns has links that do.
bind_done :
    (o : Outcome) (f : Root → Outcome) (s : Root)
    → (o >>= f) ≡ done s
    → (r1 : Root) × (o ≡ done r1) × (f r1 ≡ done s)
bind_done (done r) f s d = (r, refl, d)
bind_done (raised r) f s d = absurd (raised_is_not_done r s d)

closing_steps :
    (ref : ℕ) (r s : Root)
    → remove_battle ref r ≡ done s
    → let ch = r.channel_at ref in
      (r1 : Root) × (r2 : Root) × (dismiss_pending ch.battle.pending_users r ≡ done r1)
      × (dismiss_users ref ch.users r1 ≡ done r2)
      × (set_battle ref (λ _. fresh_battle) (broadcast_remove_battle ref r2) ≡ s)
unfolding remove_battle
closing_steps ref r s d =
    let ch = r.channel_at ref in
    let last =
      λ (x : Root). done (set_battle ref (λ _. fresh_battle) (broadcast_remove_battle ref x)) in
    elim (Bool-cases (eqb (length ch.bridged_users) 0)) [
      | inr e ↦ absurd (raised_is_not_done r s (rw (e, remove_battle) at d))
      | inl e ↦
          let (r1, d1, rest) =
            bind_done (dismiss_pending ch.battle.pending_users r)
              (λ (x : Root). dismiss_users ref ch.users x >>= last) s
              (rw (e, remove_battle) at d) in
          let (r2, d2, d3) = bind_done (dismiss_users ref ch.users r1) last s rest in
          (r1, r2, d1, d2, ap after d3)
    ]

-- Where `removeBattle` returns, the battle is as new, every member of its channel is in no battle and
-- has no bots, and is out of the channel unless it is ChanServ, and nobody who waited for the host's
-- answer waits any more.
pub remove_battle_dismisses :
    (ref : ℕ) (r s : Root)
    → remove_battle ref r ≡ done s
    → ((s.channel_at ref).battle ≡ fresh_battle)
      × ((j : ℕ)
          → contains j (r.channel_at ref).users ≡ true
          → ((s.client_at j).current_battle ≡ none)
            × ((s.client_at j).battle_bots ≡ [])
            × (((r.client_at j).username == codes "ChanServ") ≡ false
                → contains j (s.channel_at ref).users ≡ false))
      × ((j : ℕ)
          → contains j (r.channel_at ref).battle.pending_users ≡ true
          → (s.client_at j).pending_battle ≡ none)
unfolding broadcast_remove_battle
remove_battle_dismisses ref r s d =
    let ch = r.channel_at ref in
    let (r1, r2, d1, d2, closed) = closing_steps ref r s d in
    let (kept, free) = dismiss_pending-Later ref ch.battle.pending_users r r1 d1 in
    let (later, gone) = dismiss_users-Dismissed ref ch.users r1 r2 d2 in
    subst
      (λ (x : Root).
        ((x.channel_at ref).battle ≡ fresh_battle)
        × ((j : ℕ)
            → contains j ch.users ≡ true
            → ((x.client_at j).current_battle ≡ none)
              × ((x.client_at j).battle_bots ≡ [])
              × (is_chanserv j r ≡ false → contains j (x.channel_at ref).users ≡ false))
        × ((j : ℕ)
            → contains j ch.battle.pending_users ≡ true
            → (x.client_at j).pending_battle ≡ none))
      closed
      (
        ground (arith, eqb_iff ref ref),
        (λ j m.
            let ((a, b), out) = gone j m in
            (
              a,
              b,
              λ other. ground (
                arith,
                out (ap (λ (u : Text). u == codes "ChanServ") (kept j).0 ∙ other),
                eqb_iff ref ref,
              ),
            )),
        λ j m. (later j).3 (free j m),
      )
