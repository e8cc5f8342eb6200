-- ===== src/Channel/Penalties/Operators.antt =====
-- The operator list and the channels that it is forwarded to.
use uberserver.Base.{
  ℕ, zero, suc, ◌≡◌, refl, sym, ◌∙◌, ap, true, false, [], some, arith, eqb_iff, nat_eq, text_eq,
  Bool-cases, inl, inr, subst,
}
use uberserver.Base.Dict.{Dict, contains, contains-add, lookup}
use uberserver.Base.Text.{Text}
use uberserver.Server.Types.{Root}
use uberserver.Server.Outcome.{
  Outcome, done, after, each_channel, each_channel-keeps, each_channel-visits, each_channel-returns,
}
use uberserver.Channel.Access.{Person}
use uberserver.Channel.Members.{channel_message, channel_broadcast}
use uberserver.Channel.Penalties.{op_user, op_here}

-- The user is an operator of the channel.
abbrev pub IsOperator : Root → ℕ → ℕ → Type 0
IsOperator r ref user_id = contains user_id (r.channel_at ref).operators ≡ true

module _ (client target : Person) where
  -- A rule for `op_user`: what its first step keeps, at every channel, all of it keeps.
  op_user-keeps :
      (P : Root → Type 0)
      → ((ref : ℕ) (r : Root) → P r → P (op_here ref client target r))
      → (fuel ref : ℕ) (r : Root) → P r
      → P (after (op_user fuel ref client target r))
  unfolding op_user
  op_user-keeps P step zero ref r h = h
  op_user-keeps P step (suc fuel) ref r h =
      elim (Bool-cases (contains target.user_id (r.channel_at ref).operators)) [
        | inl old ↦ rw old h
        | inr new ↦ rw new (
            each_channel-keeps P (λ next. op_user fuel next client target)
              (r.channel_at ref).forwards (op_here ref client target r)
              (λ next s hs. op_user-keeps P step fuel next s hs) (step ref r h))
      ]

  op_here-IsOperator :
      (k u ref : ℕ) (r : Root) → IsOperator r k u → IsOperator (op_here ref client target r) k u
  unfolding op_here channel_message channel_broadcast
  op_here-IsOperator k u ref r h =
      ground (arith, contains-add u target.user_id (r.channel_at ref).operators, eqb_iff k ref)

  op_here-target :
      (ref : ℕ) (r : Root) → IsOperator (op_here ref client target r) ref target.user_id
  unfolding op_here channel_message channel_broadcast
  op_here-target ref r =
      ground (arith, contains-add target.user_id target.user_id (r.channel_at ref).operators)

  op_here-channels : (ref : ℕ) (r : Root) → (op_here ref client target r).channels ≡ r.channels
  unfolding op_here channel_message channel_broadcast
  op_here-channels ref r = refl

  -- With fuel, the target is an operator of the channel itself, whatever the forwards do.
  pub op_user-target :
      (fuel ref : ℕ) (r : Root)
      → IsOperator (after (op_user (suc fuel) ref client target r)) ref target.user_id
  unfolding op_user
  op_user-target fuel ref r =
      elim (Bool-cases (contains target.user_id (r.channel_at ref).operators)) [
        | inl old ↦ rw old old
        | inr new ↦ rw new (
            each_channel-keeps (λ s. IsOperator s ref target.user_id)
              (λ next. op_user fuel next client target) (r.channel_at ref).forwards
              (op_here ref client target r)
              (λ next s hs.
                op_user-keeps (λ s'. IsOperator s' ref target.user_id)
                  (op_here-IsOperator ref target.user_id) fuel next s hs)
              (op_here-target ref r))
      ]

  op_user-channels :
      (fuel ref : ℕ) (r : Root) → (after (op_user fuel ref client target r)).channels ≡ r.channels
  op_user-channels fuel ref r =
      op_user-keeps (λ s. s.channels ≡ r.channels) (λ k s h. op_here-channels k s ∙ h) fuel ref r
        refl

  op_user-step :
      (fuel ref : ℕ) (r : Root)
      → contains target.user_id (r.channel_at ref).operators ≡ false
      → op_user (suc fuel) ref client target r
        ≡ each_channel
            (λ next. op_user fuel next client target)
            (r.channel_at ref).forwards
            (op_here ref client target r)
  unfolding op_user
  op_user-step fuel ref r new = rw new

  -- An `opUser` that returns, for a user who was no operator of the channel yet, has made the user
  -- an operator of the channel and of every existing channel that it forwards to.
  pub op_user_forwards :
      (fuel ref k : ℕ) (chan : Text) (r s : Root)
      → contains target.user_id (r.channel_at ref).operators ≡ false
      → contains chan (r.channel_at ref).forwards ≡ true
      → lookup chan r.channels ≡ some k
      → op_user (suc (suc fuel)) ref client target r ≡ done s
      → IsOperator s ref target.user_id × IsOperator s k target.user_id
  unfolding op_here
  op_user_forwards fuel ref k chan r s new m e d = (
    subst (λ (o : Outcome). IsOperator (after o) ref target.user_id) d
        (op_user-target (suc fuel) ref r),
    each_channel-visits (λ next. op_user (suc fuel) next client target)
        (λ x. IsOperator x k target.user_id) k (λ next x. op_user-channels (suc fuel) next x)
        (λ next x h.
          op_user-keeps (λ y. IsOperator y k target.user_id) (op_here-IsOperator k target.user_id)
            (suc fuel) next x h)
        (λ x. op_user-target fuel k x) chan (r.channel_at ref).forwards
        (op_here ref client target r) s e m (sym (op_user-step (suc fuel) ref r new) ∙ d),
  )

  -- Forwards and the names of the channels are as in `r`.
  abbrev SameForwards : Root → Root → Type 0
  SameForwards r s =
      ((k : ℕ) → (s.channel_at k).forwards ≡ (r.channel_at k).forwards) × (s.channels ≡ r.channels)

  op_here-SameForwards :
      (r : Root) (ref : ℕ) (s : Root)
      → SameForwards r s
      → SameForwards r (op_here ref client target s)
  unfolding op_here channel_message channel_broadcast
  op_here-SameForwards r ref s h = (λ k. ground (arith, h.0 k, eqb_iff k ref), h.1)

  op_user_end :
      (fuel k : ℕ) (r s : Root)
      → SameForwards r s
      → (r.channel_at k).forwards ≡ []
      → (t : Root) × (op_user (suc fuel) k client target s ≡ done t) × SameForwards r t
  unfolding op_user each_channel
  op_user_end fuel k r s h flat =
      elim (Bool-cases (contains target.user_id (s.channel_at k).operators)) [
        | inl old ↦ (s, rw old, h)
        | inr new ↦ (op_here k client target s, rw (new, h.0 k, flat), op_here-SameForwards r k s h)
      ]

  -- Where the channels that a channel forwards to forward nowhere, two levels of calls are enough:
  -- `opUser` returns.
  pub op_user_returns :
      (fuel ref : ℕ) (r : Root)
      → ((chan : Text) (k : ℕ)
          → contains chan (r.channel_at ref).forwards ≡ true
          → lookup chan r.channels ≡ some k
          → (r.channel_at k).forwards ≡ [])
      → (s : Root) × (op_user (suc (suc fuel)) ref client target r ≡ done s)
  unfolding op_user
  op_user_returns fuel ref r flat =
      elim (Bool-cases (contains target.user_id (r.channel_at ref).operators)) [
        | inl old ↦ (r, rw old)
        | inr new ↦
            let (s, d, _) =
              each_channel-returns (SameForwards r) (λ next. op_user (suc fuel) next client target)
                (r.channel_at ref).forwards (op_here ref client target r)
                (λ chan k s m e h.
                  op_user_end fuel k r s h
                    (flat chan k m (sym (ap (λ (d : Dict Text ℕ). lookup chan d) h.1) ∙ e)))
                (op_here-SameForwards r ref r (λ k. refl, refl)) in
            (s, rw new d)
      ]
