-- ===== src/Protocol/Bridge/Owned.antt =====
-- Whose bridged users a client may move, remove and speak for, over LEAVEFROM, UNBRIDGECLIENTFROM,
-- JOINFROM and SAYFROM of protocol/Protocol.py.
use uberserver.Base.{ℕ, ◌≡◌, refl, false, eqb, text_eq, Bool-cases, Option-cases, inl, inr}
use uberserver.Base.Dict.{lookup}
use uberserver.Base.Text.{Text}
use uberserver.Server.Types.{Root}
use uberserver.Server.Store.{has_flag}
use uberserver.Server.Cast.{send, out_failed}
use uberserver.Server.Outcome.{done, after}
use uberserver.Server.Delivery.{Answered}
use uberserver.Channel.Members.{u_flag}
use uberserver.Protocol.Chat.{is_blank}
use uberserver.Protocol.Bridge.{
  bridged, bridged_client, bridge_user_of, bridging_refusal, in_leavefrom, in_unbridgeclientfrom,
  in_joinfrom, in_sayfrom,
}

module _ (sid : ℕ) (chan location external_id msg : Text) (b : ℕ) (r : Root)
    (found : bridged_client r location external_id ≡ bridged b)
    (foreign : eqb (bridge_user_of r b) (r.client_at sid).user_id ≡ false) where
  leavefrom_owned : Answered sid r (after (in_leavefrom sid chan location external_id r))
  unfolding in_leavefrom out_failed send
  leavefrom_owned = elim (Bool-cases (has_flag (r.client_at sid) u_flag)) [
    | inr old ↦ rw (old, in_leavefrom) (inl refl)
    | inl new ↦ elim (Option-cases (lookup chan r.channels)) [
      | inl e ↦ rw (new, in_leavefrom) (rw e (inr (_, refl)))
      | inr (ref, e) ↦ rw (new, in_leavefrom) (rw e (rw found (rw foreign (inr (_, refl)))))
    ]
  ]

  unbridge_owned : Answered sid r (after (in_unbridgeclientfrom sid location external_id r))
  unfolding in_unbridgeclientfrom out_failed send
  unbridge_owned = elim (Bool-cases (has_flag (r.client_at sid) u_flag)) [
    | inr old ↦ rw (old, in_unbridgeclientfrom) (inl refl)
    | inl new ↦ rw (new, in_unbridgeclientfrom) (rw found (rw foreign (inr (_, refl))))
  ]

  joinfrom_owned : Answered sid r (after (in_joinfrom sid chan location external_id r))
  unfolding in_joinfrom out_failed send
  joinfrom_owned = elim (Bool-cases (has_flag (r.client_at sid) u_flag)) [
    | inr old ↦ rw (old, in_joinfrom) (inl refl)
    | inl new ↦ elim (Option-cases (lookup chan r.channels)) [
      | inl e ↦ rw (new, in_joinfrom) (rw e (inr (_, refl)))
      | inr (ref, e) ↦ elim (Option-cases (bridging_refusal r sid ref chan)) [
        | inr (m, refused) ↦ rw (new, in_joinfrom) (rw e (rw refused (inr (_, refl))))
        | inl go ↦ rw (new, in_joinfrom) (rw e (rw go (rw found (rw foreign (inr (_, refl))))))
      ]
    ]
  ]

  sayfrom_owned : in_sayfrom sid chan location external_id msg r ≡ done r
  unfolding in_sayfrom
  sayfrom_owned = elim (Bool-cases (is_blank msg)) [
    | inl blank ↦ rw (blank, in_sayfrom) refl
    | inr text ↦ elim (Option-cases (lookup chan r.channels)) [
      | inl e ↦ rw (text, in_sayfrom) (rw e refl)
      | inr (ref, e) ↦ rw (text, in_sayfrom) (rw e (rw found (rw foreign refl)))
    ]
  ]

-- A client that is not the bridge of a bridged user can neither take that user into a channel, nor out
-- of one, nor off the bridge, nor speak for it: nothing changes but that at most one message is sent, to
-- the client itself, and SAYFROM does nothing at all.
pub bridge_owned :
    (sid : ℕ) (chan location external_id msg : Text) (b : ℕ) (r : Root)
    → bridged_client r location external_id ≡ bridged b
    → eqb (bridge_user_of r b) (r.client_at sid).user_id ≡ false
    → Answered sid r (after (in_joinfrom sid chan location external_id r))
      × Answered sid r (after (in_leavefrom sid chan location external_id r))
      × Answered sid r (after (in_unbridgeclientfrom sid location external_id r))
      × (in_sayfrom sid chan location external_id msg r ≡ done r)
bridge_owned sid chan location external_id msg b r found foreign = (
  joinfrom_owned sid chan location external_id msg b r found foreign,
  leavefrom_owned sid chan location external_id msg b r found foreign,
  unbridge_owned sid chan location external_id msg b r found foreign,
  sayfrom_owned sid chan location external_id msg b r found foreign,
)
