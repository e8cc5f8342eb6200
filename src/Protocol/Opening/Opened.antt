-- ===== src/Protocol/Opening/Opened.antt =====
-- What OPENBATTLE of protocol/Protocol.py refuses, and its comparison of versions.
use uberserver.Base.{
  ℕ, suc, ◌≡◌, refl, Bool, true, false, not, ◌||◌, List, [], ◌∷◌, Option, none, some, arith,
  Bool-cases, Option-cases, inl, inr,
}
use uberserver.Base.Int.{pos, eqb_ℤ, ltb_ℤ}
use uberserver.Base.Text.{Text}
use uberserver.Server.Types.{Root}
use uberserver.Server.Cast.{send, out_openbattlefailed, out_servermsg}
use uberserver.Server.Outcome.{after, Quiet}
use uberserver.Protocol.Opening.{
  tuple_at_least, Words, Names, Numbers, read_numbers, open_with_names,
}

-- What is wrong with the numbers of the command, or with the connection.
abbrev pub unfit : Option Numbers → Bool → Bool
unfit none tls = true
unfit (some n) tls =
    (ltb_ℤ n.port (pos 1) || ltb_ℤ (pos 65535) n.port) || eqb_ℤ n.hashcode (pos 0) || not tls

-- With a number that cannot be read, a port outside of 1 to 65535, the hash 0, or no TLS, no battle is
-- opened: one id is used up, and only answers are sent.
open_refuses_unfit :
    (sid : ℕ) (relayed_ip : Option Text) (w : Words) (names : Names) (r : Root)
    → unfit (read_numbers w) (r.client_at sid).tls ≡ true
    → Quiet
        (record r { nextbattle = suc r.nextbattle })
        (after (open_with_names sid relayed_ip w names r))
unfolding open_with_names out_openbattlefailed out_servermsg send
open_refuses_unfit sid relayed_ip w names r h = elim (Option-cases (read_numbers w)) [
  | inl e ↦ rw (e, open_with_names) refl
  | inr (n, e) ↦
      let bad : unfit (some n) (r.client_at sid).tls ≡ true = rw e at h in
      elim (Bool-cases (ltb_ℤ n.port (pos 1) || ltb_ℤ (pos 65535) n.port)) [
        | inl port ↦ rw (e, open_with_names) (rw (port, open_with_names) refl)
        | inr in_range ↦ elim (Bool-cases (eqb_ℤ n.hashcode (pos 0))) [
          | inl hash ↦
              rw (e, open_with_names)
                (rw (in_range, open_with_names) (rw (hash, open_with_names) refl))
          | inr some_hash ↦
              let no_tls : (r.client_at sid).tls ≡ false = ground arith in
              rw (e, open_with_names)
                (rw (in_range, open_with_names)
                  (rw (some_hash, open_with_names) (rw (no_tls, open_with_names) refl)))
        ]
      ]
]

-- The comparison of versions is total and transitive.
tuple_at_least_total : (a b : List ℕ) → tuple_at_least a b ≡ false → tuple_at_least b a ≡ true
unfolding tuple_at_least
tuple_at_least_total a [] h = absurd (ground arith)
tuple_at_least_total [] (y ∷ b) h = refl
tuple_at_least_total (x ∷ a) (y ∷ b) h = ground (arith, tuple_at_least_total a b)

tuple_at_least_trans :
    (a b c : List ℕ)
    → tuple_at_least a b ≡ true
    → tuple_at_least b c ≡ true
    → tuple_at_least a c ≡ true
unfolding tuple_at_least
tuple_at_least_trans a b [] h k = (ground arith)
tuple_at_least_trans a [] (z ∷ c) h k = absurd (ground arith)
tuple_at_least_trans [] (y ∷ b) (z ∷ c) h k = absurd (ground arith)
tuple_at_least_trans (x ∷ a) (y ∷ b) (z ∷ c) h k = ground (arith, tuple_at_least_trans a b c)

-- Of two versions one is at least the other, and what is at least a version that is at least a third
-- is at least the third.
pub versions_ordered :
    ((a b : List ℕ) → tuple_at_least a b ≡ false → tuple_at_least b a ≡ true)
    × ((a b c : List ℕ)
        → tuple_at_least a b ≡ true
        → tuple_at_least b c ≡ true
        → tuple_at_least a c ≡ true)
versions_ordered = (tuple_at_least_total, tuple_at_least_trans)
