-- ===== src/Channel/Members/Lockstep.antt =====
-- The three records of a membership agree: the sets `users` and `user_clients` of the channel, and
-- the names that the client keeps.
use uberserver.Base.{
  ℕ, subst, sym, not, ◌&&◌, ◌≡◌, refl, true, false, List, [], ◌∷◌, Option, none, some, arith,
  eqb_iff, ◌==◌, nat_eq, text_eq, eq_refl, Bool-cases, inl, inr, if◌then◌else◌,
}
use uberserver.Base.Dict.{Dict, contains, contains-add, contains-discard}
use uberserver.Base.Text.{Text}
use uberserver.Server.Types.{Root}
use uberserver.Server.Store.{has_flag}
use uberserver.Server.Cast.{send}
use uberserver.Server.Outcome.{after, Quiet, Quiet-trans}
use uberserver.Channel.Members.{
  admit, announce_join, channel_broadcast, u_flag, add_user, remove_user, send_channel_state,
  send_bridged, send_lists, send_topic, member_names,
}

-- Session `sid` is in both sets of channel `ref` or in neither, and the client has the channel's
-- name exactly when it is in them.
abbrev pub Agree : Root → ℕ → ℕ → Type 0
Agree r sid ref =
    (contains sid (r.channel_at ref).users
      ≡ contains (r.channel_at ref).name (r.client_at sid).channels)
    × (contains sid (r.channel_at ref).user_clients ≡ contains sid (r.channel_at ref).users)

send_bridged-Quiet :
    (sid : ℕ) (name : Text) (d : Dict Text (List Text)) (r : Root)
    → Quiet r (send_bridged sid name d r)
unfolding send_bridged send
send_bridged-Quiet sid name [] r = refl
send_bridged-Quiet sid name ((bridge, names) ∷ d) r = send_bridged-Quiet sid name d _

send_lists-Quiet :
    (sid : ℕ) (name : Text) (d : Option (Dict Text (List Text))) (m : Option (List Text)) (r : Root)
    → Quiet r (after (send_lists sid name d m r))
unfolding send_lists send
send_lists-Quiet sid name none m r = refl
send_lists-Quiet sid name (some d) none r = send_bridged-Quiet sid name d r
send_lists-Quiet sid name (some d) (some m) r =
    Quiet-trans r (send_bridged sid name d r) _ (send_bridged-Quiet sid name d r) refl

-- Telling a client the state of a channel changes none of it.
pub send_channel_state-Quiet :
    (sid ref : ℕ) (r : Root) → Quiet r (after (send_channel_state sid ref r))
unfolding send_channel_state send_topic send
send_channel_state-Quiet sid ref r = Quiet-trans r (send_topic sid ref r) _ refl (
    send_lists-Quiet sid (r.channel_at ref).name _ (member_names r (r.channel_at ref).users)
      (send_topic sid ref r))

told-Quiet : (sid ref : ℕ) (r s : Root) → Quiet r s → Quiet r (after (send_channel_state sid ref s))
told-Quiet sid ref r s q = Quiet-trans r s _ q (send_channel_state-Quiet sid ref s)

pub announce_join-Quiet : (sid ref : ℕ) (r : Root) → Quiet r (after (announce_join sid ref r))
unfolding announce_join channel_broadcast send
announce_join-Quiet sid ref r =
    elim (Bool-cases ((r.channel_at ref).is_battle && not (has_flag (r.client_at sid) u_flag))) [
      | inl hidden ↦ rw hidden refl
      | inr shown ↦ rw shown (told-Quiet sid ref r _ refl)
    ]

-- Agreement looks at nothing that the logs hold.
Quiet-Agree : (r s : Root) (sid ref : ℕ) → Quiet r s → Agree r sid ref → Agree s sid ref
Quiet-Agree r s sid ref q a = subst (λ (x : Root). Agree x sid ref) (sym q) a

admit-Agree : (sid ref : ℕ) (r : Root) → Agree (admit sid ref r) sid ref
unfolding admit
admit-Agree sid ref r = ground (
  arith,
  contains-add sid sid (r.channel_at ref).users,
  contains-add sid sid (r.channel_at ref).user_clients,
  contains-add (r.channel_at ref).name (r.channel_at ref).name (r.client_at sid).channels,
  eq_refl (r.channel_at ref).name,
)

admit-users :
    (sid ref : ℕ) (r : Root) (j : ℕ)
    → contains j ((admit sid ref r).channel_at ref).users
      ≡ (if j == sid then true else contains j (r.channel_at ref).users)
unfolding admit
admit-users sid ref r j = ground (arith, contains-add j sid (r.channel_at ref).users)

-- Joining keeps the records of the joiner in agreement, however `addUser` ends, and puts the joiner
-- into the channel and nobody else.
pub add_user-Agree :
    (sid ref : ℕ) (r : Root)
    → Agree r sid ref
    → let s = after (add_user sid ref r) in
      Agree s sid ref
      × ((j : ℕ)
          → contains j (s.channel_at ref).users
            ≡ (if j == sid then true else contains j (r.channel_at ref).users))
unfolding add_user
add_user-Agree sid ref r a = elim (Bool-cases (contains sid (r.channel_at ref).users)) [
  | inl old ↦ rw (old, add_user) (a, λ j. ground (arith, old, eqb_iff j sid))
  | inr new ↦
      rw (new, add_user)
        (subst
          (λ (s : Root).
            Agree s sid ref
            × ((j : ℕ)
                → contains j (s.channel_at ref).users
                  ≡ (if j == sid then true else contains j (r.channel_at ref).users)))
          (sym (announce_join-Quiet sid ref (admit sid ref r)))
          (admit-Agree sid ref r, admit-users sid ref r))
]

pub remove_user-users :
    (sid ref : ℕ) (reason : Option Text) (r : Root) (j : ℕ)
    → contains j ((remove_user sid ref reason r).channel_at ref).users
      ≡ (if j == sid then false else contains j (r.channel_at ref).users)
unfolding remove_user channel_broadcast
remove_user-users sid ref reason r j =
    ground (arith, contains-discard j sid (r.channel_at ref).users, eqb_iff j sid)

remove_user-Agree_self :
    (sid ref : ℕ) (reason : Option Text) (r : Root)
    → Agree r sid ref
    → Agree (remove_user sid ref reason r) sid ref
unfolding remove_user channel_broadcast
remove_user-Agree_self sid ref reason r a = ground (
  arith,
  contains-discard sid sid (r.channel_at ref).users,
  contains-discard sid sid (r.channel_at ref).user_clients,
  contains-discard (r.channel_at ref).name (r.channel_at ref).name (r.client_at sid).channels,
  eq_refl (r.channel_at ref).name,
)

-- Leaving keeps them in agreement, whether or not the client was in the channel, and takes the
-- client out of it and nobody else.
pub remove_user-Agree :
    (sid ref : ℕ) (reason : Option Text) (r : Root)
    → Agree r sid ref
    → let s = remove_user sid ref reason r in
      Agree s sid ref
      × ((j : ℕ)
          → contains j (s.channel_at ref).users
            ≡ (if j == sid then false else contains j (r.channel_at ref).users))
remove_user-Agree sid ref reason r a =
    (remove_user-Agree_self sid ref reason r a, remove_user-users sid ref reason r)
