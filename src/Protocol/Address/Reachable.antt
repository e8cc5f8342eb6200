-- ===== src/Protocol/Address/Reachable.antt =====
-- Which address protocol/Protocol.py names to whom.
use uberserver.Base.{
  ◌≡◌, refl, ap, Option, none, text_beq_iff, sym, ◌∙◌, true, false, List, [], ◌∷◌, some, arith,
  text_eq, ◌==◌, Bool-cases, inl, inr, ◌⊎◌,
}
use uberserver.Base.Text.{Text, codes, split, starts_with}
use uberserver.Syntax.Tags.{is_private_ip}
use uberserver.Server.Types.{Root, Client, BattlePart, Channel}
use uberserver.Server.Store.{is_truthy, has_flag}
use uberserver.Protocol.Address.{
  same_text, add_battle_lines, battle_opened, relayed_address_for, translated_ip, text_of,
  turn_uri_for, first_plain,
}

relayed_address :
    (r : Root) (host c : Client) (b : BattlePart)
    → is_truthy b.relayed_ip ≡ true
    → (translated_ip r host c b ≡ b.relayed_ip)
      ⊎ ((translated_ip r host c b ≡ r.turn_lan_ip) × (is_private_ip c.ip_address ≡ true))
unfolding translated_ip relayed_address_for
relayed_address r host c b h = ground arith

same_text_lem : (a b : Option Text) → same_text a b ≡ true → a ≡ b
same_text_lem none none h = refl
same_text_lem (some a) (some b) h = ap some ((text_beq_iff a b).0 h)
same_text_lem none (some b) h = absurd cc
same_text_lem (some a) none h = absurd cc

true_is_not_false : true ≡ false → ⊥
true_is_not_false h = cc

same_text_refl : (a : Option Text) → same_text a a ≡ true
same_text_refl none = refl
same_text_refl (some a) = (text_beq_iff a a).1 refl

-- When a client is given the relay's address in the server's network.
abbrev pub ByLan : Root → Client → BattlePart → Type 0
ByLan r c b =
    (is_truthy r.turn_lan_ip ≡ true)
    × (b.relayed_ip ≡ r.online_ip)
    × (is_private_ip c.ip_address ≡ true)

by_lan :
    (r : Root) (c : Client) (b : BattlePart)
    → is_truthy b.relayed_ip ≡ true
    → ((relayed_address_for r c b ≡ r.turn_lan_ip) × ByLan r c b)
      ⊎ ((relayed_address_for r c b ≡ b.relayed_ip) × (ByLan r c b → ⊥))
unfolding relayed_address_for
by_lan r c b h = elim (Bool-cases (is_truthy r.turn_lan_ip)) [
  | inr unset ↦
      rw (h, relayed_address_for) (rw unset (inr (refl, λ (lan, _, _). ground (arith, lan, unset))))
  | inl lan ↦ elim (Bool-cases (same_text b.relayed_ip r.online_ip)) [
    | inr elsewhere ↦
        rw (h, relayed_address_for)
          (rw lan (
            rw elsewhere (
              inr (
                refl,
                λ (_, here, _). true_is_not_false (
                    sym (same_text_refl b.relayed_ip)
                    ∙ ap (same_text b.relayed_ip) here
                    ∙ elsewhere),
              ))))
    | inl here ↦ elim (Bool-cases (is_private_ip c.ip_address)) [
      | inr public ↦
          rw (h, relayed_address_for)
            (rw lan (
              rw here (rw public (inr (refl, λ (_, _, private). ground (arith, private, public))))))
      | inl private ↦
          rw (h, relayed_address_for)
            (rw lan (
              rw here (
                rw private
                  (inl (refl, (refl, same_text_lem b.relayed_ip r.online_ip here, refl))))))
    ]
  ]
]

translated_relayed :
    (r : Root) (host c : Client) (b : BattlePart)
    → is_truthy b.relayed_ip ≡ true
    → translated_ip r host c b ≡ relayed_address_for r c b
unfolding translated_ip
translated_relayed r host c b h = rw (h, translated_ip) refl

opened_alike :
    (r : Root) (host other c : Client) (ch : Channel)
    → translated_ip r host c ch.battle ≡ translated_ip r other c ch.battle
    → host.username ≡ other.username
    → add_battle_lines r host c ch ≡ add_battle_lines r other c ch
unfolding add_battle_lines battle_opened
opened_alike r host other c ch same named = cc

-- What a relayed battle is announced with depends on its host by the host's name alone, so that the
-- host's own addresses are never named. It has the relay's address in the server's network where that is
-- configured, the relay is at the server's public address and the client is on a private one, and the
-- relay's address otherwise.
pub relayed_battle_hides_host :
    (r : Root) (host other c : Client) (ch : Channel)
    → is_truthy ch.battle.relayed_ip ≡ true
    → host.username ≡ other.username
    → (add_battle_lines r host c ch ≡ add_battle_lines r other c ch)
      × (((translated_ip r host c ch.battle ≡ r.turn_lan_ip) × ByLan r c ch.battle)
          ⊎ ((translated_ip r host c ch.battle ≡ ch.battle.relayed_ip) × (ByLan r c ch.battle → ⊥)))
relayed_battle_hides_host r host other c ch h named =
    let b = ch.battle in
    let e = translated_relayed r host c b h in
    (
      opened_alike r host other c ch (e ∙ sym (translated_relayed r other c b h)) named,
      elim (by_lan r c b h) [
        | inl (lan, conditions) ↦ inl (e ∙ lan, conditions)
        | inr (plain, none_of_it) ↦ inr (e ∙ plain, none_of_it)
      ],
    )

-- A client on a public address is never given a private one, if the server's own address and that of
-- the relay are public and the client does not share the host's address.
public_client_gets_public_ip :
    (r : Root) (host c : Client) (b : BattlePart)
    → is_private_ip c.ip_address ≡ false
    → (host.ip_address == c.ip_address) ≡ false
    → is_private_ip (text_of r.online_ip) ≡ false
    → is_private_ip (text_of b.relayed_ip) ≡ false
    → is_private_ip (text_of (translated_ip r host c b)) ≡ false
unfolding translated_ip
public_client_gets_public_ip r host c b p q o t = elim (Bool-cases (is_truthy b.relayed_ip)) [
  | inl relayed ↦ elim (relayed_address r host c b relayed) [
    | inl e ↦ rw e t
    | inr (_, private) ↦ absurd (true_is_not_false (sym private ∙ p))
  ]
  | inr direct ↦ elim (Bool-cases (is_private_ip host.ip_address)) [
    | inl private ↦
        rw (direct, translated_ip)
          (rw (q, translated_ip) (rw (private, translated_ip) (rw (p, translated_ip) o)))
    | inr public ↦
        rw (direct, translated_ip) (rw (q, translated_ip) (rw (public, translated_ip) public))
  ]
]

first_plain-plain :
    (entries : List Text) (uri : Text)
    → first_plain entries ≡ some uri
    → starts_with (codes "turns:") uri ≡ false
unfolding first_plain
first_plain-plain [] uri h = absurd (ground arith)
first_plain-plain (entry ∷ entries) uri h = ground (arith, first_plain-plain entries uri)

-- A client without 'turns' is never sent a relay that needs it, and one with it gets the whole line.
turn_uri_for_understood :
    (uri shown : Text) (c : Client)
    → turn_uri_for uri c ≡ some shown
    → (has_flag c (codes "turns") ≡ true → shown ≡ uri)
      × (has_flag c (codes "turns") ≡ false → starts_with (codes "turns:") shown ≡ false)
unfolding turn_uri_for
turn_uri_for_understood uri shown c h =
    (λ k. ground arith, λ k. ground (arith, first_plain-plain (split b',' uri) shown))
