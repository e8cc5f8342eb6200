-- ===== src/Protocol/Options/Effects.antt =====
-- Whose battle's settings a client may change in protocol/Protocol.py, and what ENABLEUNITS does.
use uberserver.Base.{
  ℕ, ◌≡◌, refl, sym, subst, false, none, some, arith, [], eqb, eqb_iff, text_eq, nat_eq, length,
  inl, inr, ◌⊎◌, Bool-cases, Option-cases,
}
use mathlib.Core.Option.{some-injective}
use uberserver.Base.Dict.{lookup, has_key, insert, erase, update}
use uberserver.Base.Int.{int_eq}
use uberserver.Base.Text.{Text, split, space}
use uberserver.Syntax.Numbers.{int32}
use uberserver.Syntax.Tags.{parse_tags}
use uberserver.Server.Types.{Root, BattlePart, Message}
use uberserver.Server.Store.{set_battle}
use uberserver.Server.Cast.{send, out_failed, out_servermsg, everyone}
use uberserver.Server.Outcome.{raised, after, Quiet}
use uberserver.Channel.Access.{can_change_settings}
use uberserver.Battle.Leave.Exit.{broadcast_battle-Quiet}
use uberserver.Protocol.Current.{owned_battle, get_current_battle, tell_current}
use uberserver.Protocol.Options.{
  set_script_tags, remove_script_tags, add_start_rect, remove_start_rect, disable_units,
  enable_units, enable_each, enable_all_units, read_rect, set_of, remove_tags, disable_each,
}

-- The client is in a battle, which is this one, and hosts it.
abbrev pub Owns : Root → ℕ → ℕ → Type 0
Owns r sid ref =
    (battle_id : ℕ) × ((r.client_at sid).current_battle ≡ some battle_id)
    × (lookup battle_id r.battles ≡ some ref)
    × ((r.channel_at ref).battle.host ≡ some (r.client_at sid).session_id)

-- Of channels and clients, only the battle that the client owns may differ.
unfoldable pub OwnOnly : ℕ → Root → Root → Type 0
OwnOnly sid r s =
    ((k : ℕ) → (s.channel_at k ≡ r.channel_at k) ⊎ Owns r sid k) × (s.client_at ≡ r.client_at)

none_is_not_some : (k : ℕ) → none ≡ some k → ⊥
none_is_not_some k h = cc

owned_battle-Owns : (r : Root) (sid ref : ℕ) → owned_battle r sid ≡ some ref → Owns r sid ref
unfolding owned_battle get_current_battle can_change_settings
owned_battle-Owns r sid ref h = elim (Option-cases (r.client_at sid).current_battle) [
  | inl e ↦ absurd (none_is_not_some ref (rw (e, owned_battle) at h))
  | inr (battle_id, e) ↦ elim (Bool-cases (eqb battle_id 0)) [
    | inl zero_id ↦ absurd (none_is_not_some ref (rw zero_id at (rw (e, owned_battle) at h)))
    | inr real ↦ elim (Option-cases (lookup battle_id r.battles)) [
      | inl gone ↦
          absurd (none_is_not_some ref (rw gone at (rw real at (rw (e, owned_battle) at h))))
      | inr (k, found) ↦
          let left = rw found at (rw real at (rw (e, owned_battle) at h)) in
          elim (Option-cases (r.channel_at k).battle.host) [
            | inl nobody ↦ absurd (none_is_not_some ref (rw nobody at left))
            | inr (host, hosted) ↦
                let last = rw hosted at left in
                elim (Bool-cases (eqb (r.client_at sid).session_id host)) [
                  | inr foreign ↦ absurd (none_is_not_some ref (rw foreign at last))
                  | inl own ↦
                      let same_ref : k ≡ ref = some-injective k ref (rw own at last) in
                      let same_host : host ≡ (r.client_at sid).session_id =
                        ground (arith, own, eqb_iff (r.client_at sid).session_id host) in
                      subst (Owns r sid) same_ref (battle_id, e, found, rw (sym same_host) hosted)
                ]
          ]
    ]
  ]
]

tell_current-Quiet : (sid : ℕ) (m : Message) (r : Root) → Quiet r (after (tell_current sid m r))
unfolding tell_current
tell_current-Quiet sid m r = elim (Option-cases (r.client_at sid).current_battle) [
  | inl e ↦ rw (e, tell_current) refl
  | inr (k, e) ↦ rw (e, tell_current) (broadcast_battle-Quiet m k everyone r)
]

Quiet-OwnOnly : (sid : ℕ) (r s t : Root) → Quiet s t → OwnOnly sid r s → OwnOnly sid r t
unfolding OwnOnly
Quiet-OwnOnly sid r s t q h = subst (OwnOnly sid r) (sym q) h

-- A change of the owned battle.
changed :
    (sid ref : ℕ) (f : BattlePart → BattlePart) (r : Root)
    → owned_battle r sid ≡ some ref
    → OwnOnly sid r (set_battle ref f r)
unfolding OwnOnly
changed sid ref f r own = (
  (λ k. elim (Bool-cases (eqb k ref)) [
    | inl same ↦
        let e : ref ≡ k = ground (arith, eqb_iff k ref) in
        inr (subst (Owns r sid) e (owned_battle-Owns r sid ref own))
    | inr other ↦ inl (rw other refl)
  ]),
  refl,
)

-- And its announcement.
announced :
    (sid ref : ℕ) (f : BattlePart → BattlePart) (m : Message) (r : Root)
    → owned_battle r sid ≡ some ref
    → OwnOnly sid r (after (tell_current sid m (set_battle ref f r)))
announced sid ref f m r own =
    Quiet-OwnOnly sid r (set_battle ref f r) (after (tell_current sid m (set_battle ref f r)))
      (tell_current-Quiet sid m (set_battle ref f r)) (changed sid ref f r own)

same : (sid : ℕ) (r : Root) → OwnOnly sid r r
unfolding OwnOnly
same sid r = ((λ k. inl refl), refl)

answered : (sid : ℕ) (m : Message) (r : Root) → OwnOnly sid r (send sid m r)
unfolding OwnOnly send
answered sid m r = ((λ k. inl refl), refl)

module _ (sid : ℕ) (r : Root) where
  set_script_tags-OwnOnly : (a : Text) → OwnOnly sid r (after (set_script_tags sid a r))
  unfolding set_script_tags out_failed
  set_script_tags-OwnOnly a = elim (Option-cases (owned_battle r sid)) [
    | inl e ↦ rw (e, set_script_tags) (answered sid _ r)
    | inr (ref, e) ↦ elim (Bool-cases (eqb (length (parse_tags a)) 0)) [
      | inl empty ↦ rw (e, set_script_tags) (rw empty (same sid r))
      | inr some_tags ↦
          rw (e, set_script_tags)
            (rw some_tags (
              announced sid ref
                (λ b. record b { script_tags = update b.script_tags (parse_tags a) }) _ r e))
    ]
  ]

  remove_script_tags-OwnOnly : (a : Text) → OwnOnly sid r (after (remove_script_tags sid a r))
  unfolding remove_script_tags out_failed
  remove_script_tags-OwnOnly a = elim (Option-cases (owned_battle r sid)) [
    | inl e ↦ rw (e, remove_script_tags) (answered sid _ r)
    | inr (ref, e) ↦
        elim (Bool-cases (
          eqb
            (length (remove_tags (set_of (split space a)) (r.channel_at ref).battle.script_tags).0)
            0)) [
              | inl empty ↦ rw (e, remove_script_tags) (rw empty (same sid r))
              | inr gone ↦
                  rw (e, remove_script_tags)
                    (rw gone (
                      announced sid ref
                        (λ b. record b {
                          script_tags =
                              (remove_tags (set_of (split space a))
                                (r.channel_at ref).battle.script_tags).1;
                        })
                        _ r e))
            ]
  ]

  add_start_rect-OwnOnly :
      (a b c d e : Text) → OwnOnly sid r (after (add_start_rect sid a b c d e r))
  unfolding add_start_rect out_servermsg
  add_start_rect-OwnOnly a b c d e = elim (Option-cases (owned_battle r sid)) [
    | inl none_owned ↦ rw (none_owned, add_start_rect) (same sid r)
    | inr (ref, own) ↦ elim (Option-cases (int32 a)) [
      | inl bad ↦ rw (own, add_start_rect) (rw bad (answered sid _ r))
      | inr (n, read) ↦ elim (Option-cases (read_rect b c d e)) [
        | inl bad ↦ rw (own, add_start_rect) (rw read (rw bad (answered sid _ r)))
        | inr (rect, ok) ↦
            rw (own, add_start_rect)
              (rw read (
                rw ok (
                  announced sid ref (λ b. record b { startrects = insert n rect b.startrects }) _ r
                    own)))
      ]
    ]
  ]

  remove_start_rect-OwnOnly : (a : Text) → OwnOnly sid r (after (remove_start_rect sid a r))
  unfolding remove_start_rect out_servermsg
  remove_start_rect-OwnOnly a = elim (Option-cases (owned_battle r sid)) [
    | inl e ↦ rw (e, remove_start_rect) (same sid r)
    | inr (ref, e) ↦ elim (Option-cases (int32 a)) [
      | inl bad ↦ rw (e, remove_start_rect) (rw bad (same sid r))
      | inr (n, read) ↦ elim (Bool-cases (has_key n (r.channel_at ref).battle.startrects)) [
        | inl there ↦
            rw (e, remove_start_rect)
              (rw read (
                rw there
                  (announced sid ref (λ b. record b { startrects = erase n b.startrects }) _ r e)))
        | inr missing ↦ rw (e, remove_start_rect) (rw read (rw missing (answered sid _ r)))
      ]
    ]
  ]

  disable_units-OwnOnly : (a : Text) → OwnOnly sid r (after (disable_units sid a r))
  unfolding disable_units
  disable_units-OwnOnly a = elim (Option-cases (owned_battle r sid)) [
    | inl e ↦ rw (e, disable_units) (same sid r)
    | inr (ref, e) ↦
        elim (Bool-cases (
          eqb (length (disable_each (split space a) (r.channel_at ref).battle.disabled_units).0)
            0)) [
              | inl empty ↦ rw (e, disable_units) (rw empty (same sid r))
              | inr fresh ↦
                  rw (e, disable_units)
                    (rw fresh (
                      announced sid ref
                        (λ b. record b {
                          disabled_units =
                              (disable_each (split space a)
                                (r.channel_at ref).battle.disabled_units).1;
                        })
                        _ r e))
            ]
  ]

  enable_units-OwnOnly : (a : Text) → OwnOnly sid r (after (enable_units sid a r))
  unfolding enable_units
  enable_units-OwnOnly a = elim (Option-cases (owned_battle r sid)) [
    | inl e ↦ rw (e, enable_units) (same sid r)
    | inr (ref, e) ↦
        elim (Bool-cases (
          eqb (length (enable_each (split space a) (r.channel_at ref).battle.disabled_units).0)
            0)) [
              | inl empty ↦
                  rw (e, enable_units)
                    (rw empty (
                      changed sid ref
                        (λ b. record b {
                          disabled_units =
                              (enable_each (split space a)
                                (r.channel_at ref).battle.disabled_units).1;
                        })
                        r e))
              | inr freed ↦
                  rw (e, enable_units)
                    (rw freed (
                      changed sid ref
                        (λ b. record b {
                          disabled_units =
                              (enable_each (split space a)
                                (r.channel_at ref).battle.disabled_units).1;
                        })
                        r e))
            ]
  ]

  enable_all_units-OwnOnly : OwnOnly sid r (after (enable_all_units sid r))
  unfolding enable_all_units
  enable_all_units-OwnOnly = elim (Option-cases (owned_battle r sid)) [
    | inl e ↦ rw (e, enable_all_units) (same sid r)
    | inr (ref, e) ↦
        rw (e, enable_all_units) (announced sid ref (λ b. record b { disabled_units = [] }) _ r e)
  ]

-- Whatever a client sends with the commands that set script tags, start rectangles and disabled units,
-- and however they end, no client differs afterwards, and no channel but the one of the battle that the
-- client is in and hosts.
pub settings_guarded :
    (sid : ℕ) (r : Root) (a b c d e : Text)
    → OwnOnly sid r (after (set_script_tags sid a r))
      × OwnOnly sid r (after (remove_script_tags sid a r))
      × OwnOnly sid r (after (add_start_rect sid a b c d e r))
      × OwnOnly sid r (after (remove_start_rect sid a r))
      × OwnOnly sid r (after (disable_units sid a r))
      × OwnOnly sid r (after (enable_units sid a r))
      × OwnOnly sid r (after (enable_all_units sid r))
settings_guarded sid r a b c d e = (
  set_script_tags-OwnOnly sid r a,
  remove_script_tags-OwnOnly sid r a,
  add_start_rect-OwnOnly sid r a b c d e,
  remove_start_rect-OwnOnly sid r a,
  disable_units-OwnOnly sid r a,
  enable_units-OwnOnly sid r a,
  enable_all_units-OwnOnly sid r,
)

-- When the host enables a unit that is disabled, ENABLEUNITS raises after the change: the battle has
-- the new list and nothing is sent.
enable_units_raises :
    (sid ref : ℕ) (units : Text) (r : Root)
    → owned_battle r sid ≡ some ref
    → (eqb (length (enable_each (split space units) (r.channel_at ref).battle.disabled_units).0) 0
        ≡ false)
    → (s : Root) × (enable_units sid units r ≡ raised s)
      × ((s.channel_at ref).battle.disabled_units
          ≡ (enable_each (split space units) (r.channel_at ref).battle.disabled_units).1)
      × (s.sent ≡ r.sent)
unfolding enable_units
enable_units_raises sid ref units r h e =
    rw (h, enable_units) (rw (e, enable_units) (_, refl, ground arith, refl))
