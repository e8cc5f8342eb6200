-- ===== src/Protocol/Battles/Gate.antt =====
-- Who JOINBATTLE of protocol/Protocol.py does not let into a battle.
use uberserver.Base.{
  ℕ, ◌≡◌, refl, ap, ◌∙◌, true, false, not, ◌&&◌, ◌||◌, Option, some, arith, eqb_iff, nat_eq,
  text_eq, Bool-cases, Option-cases, inl, inr,
}
use uberserver.Base.Dict.{Dict, contains, lookup, has_key}
use uberserver.Base.Int.{ℤ, pos, negsuc, eqb_ℤ}
use uberserver.Base.Text.{Text, codes}
use uberserver.Syntax.Numbers.{int32}
use uberserver.Server.Types.{Root, Channel, Message}
use uberserver.Server.Store.{has_level, is_open_key, is_truthy, put}
use uberserver.Server.Cast.{send}
use uberserver.Server.Outcome.{after}
use uberserver.Channel.Access.{is_founder, person}
use uberserver.Protocol.Battles.{
  join_refusal, same_key, enter_or_ask, in_joinbattle, battle_with_id, in_open_battle,
  join_numbered, note_password,
}

-- Session `sid` may not enter the battle of channel `ref` with this key: it is neither founder nor
-- moderator, and the key is wrong, or it is banned, or the battle is locked.
abbrev pub Barred : Root → ℕ → ℕ → Option Text → Type 0
Barred r sid ref key =
    let ch = r.channel_at ref in
    let c = r.client_at sid in
    ((is_founder ch (person c) || has_level c (codes "mod")) ≡ false)
    × ((not (is_open_key ch.key) && not (same_key ch.key key))
          || has_key c.user_id ch.ban
          || not (eqb_ℤ ch.battle.locked (pos 0))
        ≡ true)

-- Nobody's membership differs.
abbrev pub SameMembers : Root → Root → Type 0
SameMembers r s = (j : ℕ) → (s.channel_at j).users ≡ (r.channel_at j).users

join_refusal-Barred :
    (r : Root) (sid ref : ℕ) (key : Option Text)
    → Barred r sid ref key
    → (m : Message) × (join_refusal (r.channel_at ref) (r.client_at sid) key ≡ some m)
unfolding join_refusal
join_refusal-Barred r sid ref key (outsider, why) =
    elim (Option-cases (join_refusal (r.channel_at ref) (r.client_at sid) key)) [
      | inl e ↦ absurd (ground arith)
      | inr (m, e) ↦ (m, e)
    ]

enter_or_ask-Barred :
    (r : Root) (sid ref : ℕ) (key : Option Text)
    → Barred r sid ref key
    → SameMembers r (after (enter_or_ask sid ref key r))
unfolding enter_or_ask send
enter_or_ask-Barred r sid ref key b =
    let (m, e) = join_refusal-Barred r sid ref key b in λ j. rw (e, enter_or_ask) refl

join_numbered-Barred :
    (r : Root) (sid ref : ℕ) (n : ℤ) (key : Option Text)
    → battle_with_id r n ≡ some ref
    → Barred r sid ref key
    → SameMembers r (after (join_numbered sid n key r))
unfolding join_numbered send
join_numbered-Barred r sid ref n key f b = elim (Bool-cases (in_open_battle r sid)) [
  | inl busy ↦ λ j. rw (busy, join_numbered) refl
  | inr idle ↦ elim (Bool-cases (contains sid (r.channel_at ref).users)) [
    | inl old ↦ λ j. rw (idle, join_numbered) (rw (f, join_numbered) (rw (old, join_numbered) refl))
    | inr new ↦ λ j.
        rw (idle, join_numbered)
          (rw (f, join_numbered) (rw (new, join_numbered) (enter_or_ask-Barred r sid ref key b j)))
  ]
]

-- Noting the script password changes nothing that the checks look at.
note_password-Barred :
    (r : Root) (sid ref : ℕ) (key script_password : Option Text)
    → Barred r sid ref key
    → Barred (note_password sid script_password r) sid ref key
unfolding note_password
note_password-Barred r sid ref key script_password b =
    elim (Bool-cases (is_truthy script_password)) [
      | inl e ↦ rw (e, note_password) (rw ((eqb_iff sid sid).1 refl, put) b)
      | inr e ↦ rw (e, note_password) b
    ]

note_password-battles :
    (r : Root) (sid : ℕ) (script_password : Option Text)
    → (note_password sid script_password r).battles ≡ r.battles
unfolding note_password
note_password-battles r sid script_password = ground arith

note_password-channel_at :
    (r : Root) (sid : ℕ) (script_password : Option Text)
    → (note_password sid script_password r).channel_at ≡ r.channel_at
unfolding note_password
note_password-channel_at r sid script_password = ground arith

battle_with_id-cong :
    (r s : Root) (n : ℤ) → s.battles ≡ r.battles → battle_with_id s n ≡ battle_with_id r n
unfolding battle_with_id
battle_with_id-cong r s (pos n) e = ap (λ (d : Dict ℕ ℕ). lookup n d) e
battle_with_id-cong r s (negsuc n) e = refl

-- JOINBATTLE leaves every channel's members as they are if the battle that it names bars the client.
pub joinbattle_keeps_out :
    (sid : ℕ) (battle_id : Text) (key script_password : Option Text) (r : Root) (n : ℤ) (ref : ℕ)
    → int32 battle_id ≡ some n
    → battle_with_id r n ≡ some ref
    → Barred r sid ref key
    → SameMembers r (after (in_joinbattle sid battle_id key script_password r))
unfolding in_joinbattle
joinbattle_keeps_out sid battle_id key script_password r n ref e f b =
    let r1 = note_password sid script_password r in
    let there : battle_with_id r1 n ≡ some ref =
      battle_with_id-cong r r1 n (note_password-battles r sid script_password) ∙ f in
    λ j.
      rw (e, in_joinbattle)
        (join_numbered-Barred r1 sid ref n key there
            (note_password-Barred r sid ref key script_password b) j
          ∙ ap (λ (at : ℕ → Channel). (at j).users)
              (note_password-channel_at r sid script_password))
