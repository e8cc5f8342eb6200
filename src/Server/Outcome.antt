-- ===== src/Server/Outcome.antt =====
-- How a call ends: it returns, or an exception leaves it; what it wrote until then stays written.
use mathlib.Core.Option.{some-injective}
use uberserver.Base.{
  ℕ, ◌≡◌, subst, List, [], ◌∷◌, none, some, text_eq, Option-cases, inl, inr, ◌⊎◌, true, sym, ◌∙◌,
  ap, refl,
}
use uberserver.Base.Dict.{
  Dict, lookup, contains, contains-cons, not-contains-nil, contains-head, contains-later,
}
use uberserver.Base.Text.{Text}
use uberserver.Server.Types.{Root}

pub data Outcome : Type 0 where
  done : Root → Outcome
  raised : Root → Outcome

infixl 5 ◌>>=◌
abbrev pub ◌>>=◌ : Outcome → (Root → Outcome) → Outcome
done r >>= f = f r
raised r >>= f = raised r

-- The state that a call leaves.
abbrev pub after : Outcome → Root
after (done r) = r
after (raised r) = r

-- Nothing but the logs of what was sent and stored differs.
abbrev pub Quiet : Root → Root → Type 0
Quiet r s = s ≡ record r { sent = s.sent; db = s.db }

pub Quiet-trans : (r s t : Root) → Quiet r s → Quiet s t → Quiet r t
Quiet-trans r s t p q = subst (λ (x : Root). t ≡ record x { sent = t.sent; db = t.db }) p q

-- A chain whose links only send and store only sends and stores.
pub Quiet-bind :
    (r : Root) (o : Outcome) (f : Root → Outcome)
    → Quiet r (after o)
    → ((s : Root) → Quiet s (after (f s)))
    → Quiet r (after (o >>= f))
Quiet-bind r (done s) f q k = Quiet-trans r s (after (f s)) q (k s)
Quiet-bind r (raised s) f q k = q

-- `for chan in names: if chan in self._root.channels: f(self._root.channels[chan])`
unfoldable pub each_channel : (ℕ → Root → Outcome) → List Text → Root → Outcome
each_channel f [] r = done r
each_channel f (chan ∷ chans) r = elim (lookup chan r.channels) [
  | none ↦ each_channel f chans r
  | some ref ↦ f ref r >>= each_channel f chans
]

-- A property of the state that a step keeps is kept by its outcome, and by a chain of two.
pub bind-keeps :
    (P : Root → Type 0) (o : Outcome) (f : Root → Outcome)
    → P (after o)
    → ((r : Root) → P r → P (after (f r)))
    → P (after (o >>= f))
bind-keeps P (done r) f h k = k r h
bind-keeps P (raised r) f h k = h

pub each_channel-keeps :
    (P : Root → Type 0) (f : ℕ → Root → Outcome) (chans : List Text) (r : Root)
    → ((ref : ℕ) (s : Root) → P s → P (after (f ref s)))
    → P r
    → P (after (each_channel f chans r))
unfolding each_channel
each_channel-keeps P f [] r k h = h
each_channel-keeps P f (chan ∷ chans) r k h = elim (Option-cases (lookup chan r.channels)) [
  | inl e ↦ rw (e, each_channel) (each_channel-keeps P f chans r k h)
  | inr (ref, e) ↦
      rw (e, each_channel)
        (bind-keeps P (f ref r) (each_channel f chans) (k ref r h)
          (λ s hs. each_channel-keeps P f chans s k hs))
]

pub Outcome-cases : (o : Outcome) → ((r : Root) × (o ≡ done r)) ⊎ ((r : Root) × (o ≡ raised r))
Outcome-cases (done r) = inl (r, refl)
Outcome-cases (raised r) = inr (r, refl)

each_channel-none :
    (f : ℕ → Root → Outcome) (x : Text) (chans : List Text) (r : Root)
    → lookup x r.channels ≡ none
    → each_channel f (x ∷ chans) r ≡ each_channel f chans r
unfolding each_channel
each_channel-none f x chans r e = rw (e, each_channel)

each_channel-some :
    (f : ℕ → Root → Outcome) (x : Text) (chans : List Text) (r : Root) (ref : ℕ)
    → lookup x r.channels ≡ some ref
    → each_channel f (x ∷ chans) r ≡ (f ref r >>= each_channel f chans)
unfolding each_channel
each_channel-some f x chans r ref e = rw (e, each_channel)

-- A loop over channels that returns has visited each channel of its list: what the visit of `chan`
-- establishes and every later visit keeps holds in the end.
module _ (f : ℕ → Root → Outcome) (Q : Root → Type 0) (k : ℕ)
    (same : (ref : ℕ) (r : Root) → (after (f ref r)).channels ≡ r.channels)
    (keeps : (ref : ℕ) (r : Root) → Q r → Q (after (f ref r)))
    (visit : (r : Root) → Q (after (f k r))) where
  raised_is_not_done : (a b : Root) → raised a ≡ done b → ⊥
  raised_is_not_done a b h = cc

  rest_keeps : (chans : List Text) (r s : Root) → each_channel f chans r ≡ done s → Q r → Q s
  rest_keeps chans r s d q = subst Q (ap after d) (each_channel-keeps Q f chans r keeps q)

  pub each_channel-visits :
      (chan : Text) (chans : List Text) (r s : Root)
      → lookup chan r.channels ≡ some k
      → contains chan chans ≡ true
      → each_channel f chans r ≡ done s
      → Q s
  each_channel-visits chan [] r s e m d = absurd (not-contains-nil chan m)
  each_channel-visits chan (x ∷ chans) r s e m d = elim (Option-cases (lookup x r.channels)) [
    | inl missing ↦ elim (contains-cons chan x chans m) [
      | inl same_name ↦ cc
      | inr later ↦
          each_channel-visits chan chans r s e later
            (sym (each_channel-none f x chans r missing) ∙ d)
    ]
    | inr (ref, found) ↦
        let d' : (f ref r >>= each_channel f chans) ≡ done s =
          sym (each_channel-some f x chans r ref found) ∙ d in
        elim (Outcome-cases (f ref r)) [
          | inr (m', stopped) ↦ absurd (raised_is_not_done m' s (rw stopped at d'))
          | inl (m', went) ↦
              let rest : each_channel f chans m' ≡ done s = rw went at d' in
              elim (contains-cons chan x chans m) [
                | inl same_name ↦ rest_keeps chans m' s rest (
                    subst Q
                      (ap after (
                        ap (λ (j : ℕ). f j r)
                          (some-injective k ref
                            (sym e ∙ ap (λ (t : Text). lookup t r.channels) same_name ∙ found))
                        ∙ went))
                      (visit r))
                | inr later ↦
                    each_channel-visits chan chans m' s
                      (subst (λ (d : Dict Text ℕ). lookup chan d ≡ some k)
                        (sym (ap (λ (o : Outcome). (after o).channels) (sym went) ∙ same ref r)) e)
                      later rest
              ]
        ]
  ]

-- A loop over channels returns if each visit does, as long as `P` holds.
pub each_channel-returns :
    (P : Root → Type 0) (f : ℕ → Root → Outcome) (chans : List Text) (r : Root)
    → ((chan : Text) (k : ℕ) (s : Root)
        → contains chan chans ≡ true
        → lookup chan s.channels ≡ some k
        → P s
        → (t : Root) × (f k s ≡ done t) × P t)
    → P r
    → (s : Root) × (each_channel f chans r ≡ done s) × P s
unfolding each_channel contains
each_channel-returns P f [] r ok h = (r, refl, h)
each_channel-returns P f (x ∷ chans) r ok h =
    let later = λ (chan : Text) (k : ℕ) (s : Root) (m : contains chan chans ≡ true).
      ok chan k s (contains-later chan x chans m) in
    elim (Option-cases (lookup x r.channels)) [
      | inl missing ↦ rw (missing, each_channel) (each_channel-returns P f chans r later h)
      | inr (ref, found) ↦
          let (t, went, ht) = ok x ref r (contains-head x chans) found h in
          rw (found, each_channel) (rw went (each_channel-returns P f chans t later ht))
    ]
