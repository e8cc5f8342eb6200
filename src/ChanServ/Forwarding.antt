-- ===== src/ChanServ/Forwarding.antt =====
-- The forwards that `forward` in ChanServ.py allows, and what they mean for the calls that follow them.
use mathlib.Core.Option.{some-injective}
use uberserver.Base.{
  ℕ, suc, ◌≡◌, refl, sym, ◌∙◌, ap, subst, true, false, [], ◌∷◌, some, arith, if◌then◌else◌, eqb,
  eqb_iff, text_eq, nat_eq, Option-cases, Bool-cases, inl, inr, ◌⊎◌,
}
use uberserver.Base.Dict.{Dict, lookup, contains, add, contains-add}
use uberserver.Base.Text.{Text, lstrip_char}
use uberserver.Server.Types.{Root, Message}
use uberserver.Server.Store.{is_registered}
use uberserver.Server.Outcome.{Outcome, done, after}
use uberserver.Server.Accounts.{UserDb, find_username}
use uberserver.Channel.Access.{Person, is_mod, is_op}
use uberserver.Channel.Members.{channel_message, channel_broadcast}
use uberserver.Channel.Settings.{add_forward}
use uberserver.Channel.Penalties.{op_user}
use uberserver.Channel.Penalties.Operators.{
  IsOperator, op_user_returns, op_user-target, op_user_forwards,
}
use uberserver.ChanServ.{says, answered, Call, given, governor}
use uberserver.ChanServ.Governing.{about_user, forward_to, forward_command, op_command}

-- Channels are kept under their names, battles forward nowhere, and channels forward into battles.
pub record IntoBattles (r : Root) : Type 0 where
  pub named : (name : Text) (k : ℕ) → lookup name r.channels ≡ some k → (r.channel_at k).name ≡ name
  pub ends : (k : ℕ) → (r.channel_at k).is_battle ≡ true → (r.channel_at k).forwards ≡ []
  pub battles :
      (k j : ℕ) (name : Text)
      → contains name (r.channel_at k).forwards ≡ true
      → lookup name r.channels ≡ some j
      → (r.channel_at j).is_battle ≡ true

module _ (ref : ℕ) (c : Person) (ref_to : ℕ) (r : Root) where
  abbrev added : Root
  added = add_forward ref c ref_to r

  added_parts :
      (j : ℕ)
      → (added.channels ≡ r.channels)
        × ((added.channel_at j).name ≡ (r.channel_at j).name)
        × ((added.channel_at j).is_battle ≡ (r.channel_at j).is_battle)
        × ((added.channel_at j).forwards ≡ (
            if eqb j ref
            then add (r.channel_at ref_to).name (r.channel_at j).forwards
            else (r.channel_at j).forwards))
  unfolding add_forward channel_message channel_broadcast
  added_parts j = (
    refl,
    ground (arith, eqb_iff j ref, eqb_iff j ref_to),
    ground (arith, eqb_iff j ref, eqb_iff j ref_to),
    ground (arith, eqb_iff j ref, eqb_iff j ref_to),
  )

  -- From a channel into a battle.
  module _ (name : Text) (found : lookup name r.channels ≡ some ref_to)
      (from : (r.channel_at ref).is_battle ≡ false) (to : (r.channel_at ref_to).is_battle ≡ true)
      (h : IntoBattles r) where
    forward_of :
        (k : ℕ) (chan : Text)
        → contains chan (added.channel_at k).forwards ≡ true
        → (chan ≡ name) ⊎ (contains chan (r.channel_at k).forwards ≡ true)
    forward_of k chan m = elim (Bool-cases (contains chan (r.channel_at k).forwards)) [
      | inl old ↦ inr old
      | inr new ↦ inl (
          ground (
            arith,
            (added_parts k).3,
            contains-add chan (r.channel_at ref_to).name (r.channel_at k).forwards,
            text_eq.beq_iff chan (r.channel_at ref_to).name,
            h.named name ref_to found,
          ))
    ]

    added_battles :
        (k j : ℕ) (chan : Text)
        → contains chan (added.channel_at k).forwards ≡ true
        → lookup chan added.channels ≡ some j
        → (added.channel_at j).is_battle ≡ true
    added_battles k j chan m e =
        let e' : lookup chan r.channels ≡ some j =
          subst (λ (d : Dict Text ℕ). lookup chan d ≡ some j) (added_parts k).0 e in
        (added_parts j).2 ∙ elim (forward_of k chan m) [
          | inr old ↦ h.battles k j chan old e'
          | inl same ↦
              subst (λ (x : ℕ). (r.channel_at x).is_battle ≡ true)
                (some-injective ref_to j
                  (sym found ∙ ap (λ (t : Text). lookup t r.channels) (sym same) ∙ e'))
                to
        ]

    added-IntoBattles : IntoBattles added
    added-IntoBattles = record {
      named = λ chan k e.
          (added_parts k).1
          ∙ h.named chan k
              (subst (λ (d : Dict Text ℕ). lookup chan d ≡ some k) (added_parts k).0 e);
      ends = λ k b.
          ground
            (arith, (added_parts k).3, (added_parts k).2, h.ends k, eqb_iff k ref, eqb_iff ref k);
      battles = added_battles;
    }

forward_to-IntoBattles :
    (k : Call) (c : Person) (ref_to : ℕ) (r : Root) (name : Text)
    → lookup name r.channels ≡ some ref_to
    → IntoBattles r
    → IntoBattles (answered (forward_to k c ref_to r))
unfolding forward_to
forward_to-IntoBattles k c ref_to r name found h =
    let to = r.channel_at ref_to in
    elim (Bool-cases (r.channel_at k.ref).is_battle) [
      | inl wrong ↦ rw wrong h
      | inr from ↦ elim (Bool-cases to.is_battle) [
        | inr wrong ↦ rw (from, wrong) h
        | inl into ↦
            rw (from, into)
              (elim (Bool-cases (contains to.name (r.channel_at k.ref).forwards)) [
                | inl old ↦ rw old h
                | inr new ↦ rw new (elim (Bool-cases (is_registered r to.name)) [
                  | inr unregistered ↦ rw unregistered h
                  | inl ok ↦ rw ok (added-IntoBattles k.ref c ref_to r name found from into h)
                ])
              ])
      ]
    ]

-- The command `forward`, whoever gives it, keeps channels under their names, battles without forwards
-- and the forwards of every channel into battles.
forward_command-IntoBattles :
    (k : Call) (r : Root) → IntoBattles r → IntoBattles (answered (forward_command k r))
unfolding forward_command
forward_command-IntoBattles k r h = elim (Option-cases k.client) [
  | inl gone ↦ rw (gone, forward_command) h
  | inr (c, here) ↦
      rw (here, forward_command)
        (elim (Bool-cases (is_mod c)) [
          | inr low ↦ rw low h
          | inl high ↦ rw high (elim (Option-cases (given k.args)) [
            | inl none_given ↦ rw none_given h
            | inr (args, e) ↦
                rw e (elim (Option-cases (lookup (lstrip_char b'#' args) r.channels)) [
                  | inl unknown ↦ rw unknown h
                  | inr (ref_to, found) ↦
                      rw found (forward_to-IntoBattles k c ref_to r (lstrip_char b'#' args) found h)
                ])
          ])
        ])
]

op_user_ends :
    (client target : Person) (limit ref : ℕ) (r : Root)
    → IntoBattles r
    → (s : Root) × (op_user (suc (suc limit)) ref client target r ≡ done s)
op_user_ends client target limit ref r h =
    op_user_returns client target limit ref r (λ chan k m e. h.ends k (h.battles ref k chan m e))

not_operator :
    (ref : ℕ) (target : Person) (r : Root)
    → is_op (r.channel_at ref) target ≡ false
    → contains target.user_id (r.channel_at ref).operators ≡ false
unfolding is_op
not_operator ref target r h = ground (arith, h)

-- Where forwards go from channels into battles only, the command `op` of ChanServ, from a founder or
-- moderator and for a user who exists and is no operator of the channel, is answered, and the user is
-- then an operator of the channel and of every existing channel that it forwards to.
pub op_command_ops :
    (limit : ℕ) (users : UserDb) (k : Call) (c target : Person) (name : Text) (r : Root)
    → IntoBattles r
    → governor k r ≡ some c
    → given k.args ≡ some name
    → find_username users r name ≡ some target
    → is_op (r.channel_at k.ref) target ≡ false
    → (m : Message) × (s : Root) × (op_command (suc (suc limit)) users k r ≡ says (m ∷ []) s)
      × IsOperator s k.ref target.user_id
      × ((chan : Text) (j : ℕ)
          → contains chan (r.channel_at k.ref).forwards ≡ true
          → lookup chan r.channels ≡ some j
          → IsOperator s j target.user_id)
unfolding op_command
op_command_ops limit users k c target name r h high named found new =
    let (s, d) = op_user_ends c target limit k.ref r h in
    let own : IsOperator s k.ref target.user_id =
      subst (λ (o : Outcome). IsOperator (after o) k.ref target.user_id) d
        (op_user-target c target (suc limit) k.ref r) in
    (
      about_user k "added <" name "> to operator list",
      s,
      rw (high, op_command) (rw named (rw found (rw (new, d) refl))),
      own,
      λ chan j m e.
          (op_user_forwards c target limit k.ref j chan r s (not_operator k.ref target r new) m e
            d).1,
    )
