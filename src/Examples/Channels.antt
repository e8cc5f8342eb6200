-- ===== src/Examples/Channels.antt =====
-- The theorems about channels in the small lobby.
use mathlib.Core.Option.{some-injective}
use uberserver.Channel.Access.{Person}
use uberserver.Base.{
  subst, inl, inr, ℕ, ◌≡◌, refl, true, false, [], none, some, text_eq, nat_eq, text_beq,
  if◌then◌else◌, ◌==◌,
}
use uberserver.Base.Dict.{contains, contains-cons, not-contains-nil, lookup}
use uberserver.Base.Text.{Text, codes}
use uberserver.Server.Outcome.{after}
use uberserver.Channel.Members.{add_user, remove_user}
use uberserver.Channel.Members.Lockstep.{Agree, add_user-Agree, remove_user-Agree}
use uberserver.Examples.{world, main, as_person}

add_user-Agree_example :
    let s = after (add_user 3 0 world) in
    Agree s 3 0
    × ((j : ℕ)
        → contains j (s.channel_at 0).users
          ≡ (if j == 3 then true else contains j (world.channel_at 0).users))
unfolding contains text_beq
add_user-Agree_example = add_user-Agree 3 0 world (refl, refl)

remove_user-Agree_example :
    let s = remove_user 1 0 none world in
    Agree s 1 0
    × ((j : ℕ)
        → contains j (s.channel_at 0).users
          ≡ (if j == 1 then false else contains j (world.channel_at 0).users))
unfolding contains text_beq
remove_user-Agree_example = remove_user-Agree 1 0 none world (refl, refl)

abbrev boss : Person
boss = as_person 1 (codes "ada")

abbrev other : Person
other = as_person 3 (codes "cid")

battles_forward_nowhere :
    (chan : Text) (k : ℕ)
    → contains chan main.forwards ≡ true
    → lookup chan world.channels ≡ some k
    → (world.channel_at k).forwards ≡ []
unfolding contains lookup text_beq
battles_forward_nowhere chan k h e = elim (contains-cons chan (codes "__battle__102") [] h) [
  | inr later ↦ absurd (not-contains-nil chan later)
  | inl same ↦
      let found : some 1 ≡ some k = subst (λ (t : Text). lookup t world.channels ≡ some k) same e in
      subst (λ (n : ℕ). (world.channel_at n).forwards ≡ []) (some-injective 1 k found) refl
]
