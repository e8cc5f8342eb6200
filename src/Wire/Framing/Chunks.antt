-- ===== src/Wire/Framing/Chunks.antt =====
-- Where the network cuts the stream does not matter: two reads handled one after the other do what
-- one read of both does.
use uberserver.Base.{
  sym, if◌then◌else◌, ℕ, ◌≡◌, refl, ◌∙◌, ap, List, [], ◌∷◌, ◌++◌, append_assoc, arith, eqb,
}
use uberserver.Base.Text.{Text, newline, split, split_parts}
use uberserver.Wire.Framing.{
  Peer, init, last, commands_of, handle_one, handle_each, handle_protocol_commands,
}

commands_of-append : (xs ys : List Text) → commands_of (xs ++ ys) ≡ commands_of xs ++ commands_of ys
unfolding commands_of
commands_of-append [] ys = refl
commands_of-append (x ∷ xs) ys = ground (arith, commands_of-append xs ys)

-- The parts of a text, joined to a text that follows it.
glue : ℕ → Text → Text × List Text → Text × List Text
glue c t (f, []) = split_parts c (f ++ t)
glue c t (f, r ∷ rs) = (f, init (r ∷ rs) ++ split c (last (r ∷ rs) ++ t))

-- One more character in front.
extend : ℕ → ℕ → Text × List Text → Text × List Text
extend c x p = if eqb x c then ([], p.0 ∷ p.1) else (x ∷ p.0, p.1)

glue-extend :
    (c x : ℕ) (t : Text) (p : Text × List Text) → extend c x (glue c t p) ≡ glue c t (extend c x p)
unfolding glue extend split split_parts init last
glue-extend c x t (f, []) = ground arith
glue-extend c x t (f, r ∷ rs) = ground arith

split_parts-nil : (c : ℕ) (t : Text) → split_parts c t ≡ glue c t (split_parts c [])
unfolding split_parts glue
split_parts-nil c t = refl

split_parts-cons : (c x : ℕ) (s : Text) → split_parts c (x ∷ s) ≡ extend c x (split_parts c s)
unfolding split_parts extend
split_parts-cons c x s = refl

split_parts-append : (c : ℕ) (s t : Text) → split_parts c (s ++ t) ≡ glue c t (split_parts c s)
unfolding glue
split_parts-append c [] t = split_parts-nil c t
split_parts-append c (x ∷ s) t =
    split_parts-cons c x (s ++ t)
    ∙ ap (extend c x) (split_parts-append c s t)
    ∙ glue-extend c x t (split_parts c s)
    ∙ ap (glue c t) (sym (split_parts-cons c x s))

parts_of_glue :
    (c : ℕ) (t : Text) (p : Text × List Text)
    → (glue c t p).0 ∷ (glue c t p).1 ≡ init (p.0 ∷ p.1) ++ split c (last (p.0 ∷ p.1) ++ t)
unfolding glue split init last
parts_of_glue c t (f, []) = refl
parts_of_glue c t (f, r ∷ rs) = refl

-- The parts of `s ++ t` are those of `s`, the last of them going on into `t`.
pub split-append :
    (c : ℕ) (s t : Text) → split c (s ++ t) ≡ init (split c s) ++ split c (last (split c s) ++ t)
unfolding split
split-append c s t =
    ap (λ (p : Text × List Text). p.0 ∷ p.1) (split_parts-append c s t)
    ∙ parts_of_glue c t (split_parts c s)

init-append : (xs ys : List Text) (y : Text) → init (xs ++ (y ∷ ys)) ≡ xs ++ init (y ∷ ys)
unfolding init
init-append [] ys y = refl
init-append (x ∷ []) ys y = refl
init-append (x ∷ z ∷ xs) ys y = ap (◌∷◌ x) (init-append (z ∷ xs) ys y)

last-append : (xs ys : List Text) (y : Text) → last (xs ++ (y ∷ ys)) ≡ last (y ∷ ys)
unfolding last
last-append [] ys y = refl
last-append (x ∷ []) ys y = refl
last-append (x ∷ z ∷ xs) ys y = last-append (z ∷ xs) ys y

init-split :
    (xs : List Text) (s : Text) → init (xs ++ split newline s) ≡ xs ++ init (split newline s)
unfolding split
init-split xs s = init-append xs _ _

last-split : (xs : List Text) (s : Text) → last (xs ++ split newline s) ≡ last (split newline s)
unfolding split
last-split xs s = last-append xs _ _

module _ {S : Type 0} (peer : Peer S) where
  handle_each-append :
      (limit : ℕ) (xs ys : List Text) (s : S)
      → handle_each peer limit (xs ++ ys) s
        ≡ handle_each peer limit ys (handle_each peer limit xs s)
  unfolding handle_each
  handle_each-append limit [] ys s = refl
  handle_each-append limit (x ∷ xs) ys s =
      handle_each-append limit xs ys (handle_one peer limit x s)

  -- Handling the reads `a` and `b` one after the other, with the unfinished line of the first kept
  -- in the buffer, runs the same commands in the same order and leaves the same unfinished line as
  -- handling `a ++ b` at once. `d` is what the buffer held before.
  pub handle_protocol_commands-two_reads :
      (limit : ℕ) (d a b : Text) (s : S)
      → handle_protocol_commands peer limit (split newline (d ++ (a ++ b))) s ≡ (
          let (s', d') = handle_protocol_commands peer limit (split newline (d ++ a)) s in
          handle_protocol_commands peer limit (split newline (d' ++ b)) s')
  unfolding handle_protocol_commands
  handle_protocol_commands-two_reads limit d a b s = rw (
    sym (append_assoc d a b),
    split-append newline (d ++ a) b,
    init-split,
    last-split,
    commands_of-append,
    handle_each-append limit,
  )
