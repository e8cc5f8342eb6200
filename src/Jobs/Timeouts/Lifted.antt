-- ===== src/Jobs/Timeouts/Lifted.antt =====
-- What `channel_mute_ban_timeout` of DataHandler.py leaves.
use mathlib.Core.Option.{some-injective}
use uberserver.Base.{
  ℕ, suc, ◌≡◌, ◌<◌, sym, ◌∙◌, ap, subst, true, List, [], ◌∷◌, none, some, arith, nat_eq,
  Option-cases, inl, inr, eqb_iff,
}
use uberserver.Base.Dict.{Dict, lookup, contains, contains-cons, not-contains-nil}
use uberserver.Server.Types.{Root, Penalty, num}
use uberserver.Server.Store.{record_db, client_from_id}
use uberserver.Server.Outcome.{Outcome, done, raised, after, Outcome-cases}
use uberserver.Server.Accounts.{UserDb, find_id}
use uberserver.Channel.Access.{Person}
use uberserver.Channel.Penalties.{unmute_user}
use uberserver.Channel.Penalties.Mutes.{mute_in}
use uberserver.Jobs.Timeouts.{
  expired, unmute_expired, unban_bridged_expired, the_chanserv, unmute_user-none,
  unmute_user-target, unmute_user-find_id,
}

contains-expired :
    (u now : ℕ) (p : Penalty) (d : Dict ℕ Penalty)
    → lookup u d ≡ some p
    → p.expires < now
    → contains u (expired now d) ≡ true
unfolding contains expired lookup
contains-expired u now p [] e lt = absurd (ground arith)
contains-expired u now p ((k, q) ∷ d) e lt = ground (arith, eqb_iff u k, contains-expired u now p d)

raised_is_not_done : (a b : Root) → raised a ≡ done b → ⊥
raised_is_not_done a b h = cc

none_is_not_some : (t : Person) → none ≡ some t → ⊥
none_is_not_some t h = cc

module _ (limit : ℕ) (users : UserDb) (ref u : ℕ) where
  unmute_expired-none :
      (ids : List ℕ) (r : Root)
      → mute_in r ref u ≡ none
      → mute_in (after (unmute_expired (suc limit) users ref ids r)) ref u ≡ none
  unfolding unmute_expired
  unmute_expired-none [] r h = h
  unmute_expired-none (x ∷ ids) r h = elim (Option-cases (find_id users r x)) [
    | inl gone ↦ rw (gone, unmute_expired) (unmute_expired-none ids r h)
    | inr (t, found) ↦
        let cs = the_chanserv r in
        let kept = unmute_user-none cs t ref u (suc limit) ref r h in
        elim (Outcome-cases (unmute_user (suc limit) ref cs t r)) [
          | inr (m, e) ↦ rw (found, unmute_expired) (rw e (rw e at kept))
          | inl (m, e) ↦
              rw (found, unmute_expired)
                (rw e (
                  unmute_expired-none ids
                    (record_db "unmuteUser" (m.channel_at ref).name (num t.user_id ∷ []) m)
                    (rw e at kept)))
        ]
  ]

  lifts :
      (target : Person)
      → target.user_id ≡ u
      → (ids : List ℕ) (r s : Root) → find_id users r u ≡ some target
      → contains u ids ≡ true
      → unmute_expired (suc limit) users ref ids r ≡ done s
      → mute_in s ref u ≡ none
  unfolding unmute_expired find_id client_from_id
  lifts target own [] r s known m d = absurd (not-contains-nil u m)
  lifts target own (x ∷ ids) r s known m d = elim (Option-cases (find_id users r x)) [
    | inl gone ↦ elim (contains-cons u x ids m) [
      | inl same ↦
          absurd (none_is_not_some target (sym gone ∙ ap (find_id users r) (sym same) ∙ known))
      | inr later ↦ lifts target own ids r s known later (rw (gone, unmute_expired) at d)
    ]
    | inr (t, found) ↦
        let cs = the_chanserv r in
        let o = unmute_user (suc limit) ref cs t r in
        elim (Outcome-cases o) [
          | inr (w, e) ↦ absurd (raised_is_not_done w s (rw e at (rw (found, unmute_expired) at d)))
          | inl (w, e) ↦
              let w1 = record_db "unmuteUser" (w.channel_at ref).name (num t.user_id ∷ []) w in
              let rest : unmute_expired (suc limit) users ref ids w1 ≡ done s =
                rw e at (rw (found, unmute_expired) at d) in
              elim (contains-cons u x ids m) [
                | inl same ↦
                    let it_is : t ≡ target =
                      some-injective t target
                        (sym found ∙ ap (find_id users r) (sym same) ∙ known) in
                    let gone = unmute_user-target cs t limit ref r in
                    let now_none : mute_in w ref u ≡ none =
                      rw (ap (λ (p : Person). p.user_id) it_is ∙ own) at (rw e at gone) in
                    subst (λ (z : Outcome). mute_in (after z) ref u ≡ none) rest
                      (unmute_expired-none ids w1 now_none)
                | inr later ↦
                    lifts target own ids w1 s
                      (rw e at (unmute_user-find_id cs t users u (suc limit) ref r) ∙ known) later
                      rest
              ]
        ]
  ]

-- When the lifting of the mutes of a channel returns, a user whose mute there was over is not muted
-- there any more, if the user is found under the id.
pub unmute_expired_lifts :
    (limit : ℕ) (users : UserDb) (ref u : ℕ) (target : Person) (p : Penalty) (r s : Root)
    → find_id users r u ≡ some target
    → target.user_id ≡ u
    → mute_in r ref u ≡ some p
    → p.expires < r.now
    → unmute_expired (suc limit) users ref (expired r.now (r.channel_at ref).mutelist) r ≡ done s
    → mute_in s ref u ≡ none
unmute_expired_lifts limit users ref u target p r s known own muted over d =
    lifts limit users ref u target own (expired r.now (r.channel_at ref).mutelist) r s known
      (contains-expired u r.now p (r.channel_at ref).mutelist muted over) d

-- When the ban of a bridged user who is online is over, lifting it raises an exception and changes
-- nothing, whatever other bans are over: the job ends there, and the ban stays.
unban_bridged_expired_raises :
    (limit : ℕ) (users : UserDb) (b : ℕ) (ids : List ℕ) (r : Root)
    → contains b r.bridged_ids ≡ true
    → contains b ids ≡ true
    → unban_bridged_expired limit users ids r ≡ raised r
unfolding unban_bridged_expired
unban_bridged_expired_raises limit users b [] r online m = absurd (not-contains-nil b m)
unban_bridged_expired_raises limit users b (x ∷ ids) r online m = elim (contains-cons b x ids m) [
  | inl same ↦ ground arith
  | inr later ↦ ground (arith, unban_bridged_expired_raises limit users b ids r online later)
]
