-- ===== src/Wire/Flood/Bounds.antt =====
-- The tweak allowance is never exceeded, and a client that is not removed for flooding has sent no
-- more in the window than the byte rate and the allowance permit.
use uberserver.Base.{
  ℕ, ◌+◌, ◌-◌, ◌*◌, ◌≤◌, ◌≡◌, refl, ◌⊎◌, inl, inr, Bool, false, [], ◌∷◌, ◌++◌, arith, eqb, ltb, min,
  length, sum, nat_eq, Bool-cases,
}
use uberserver.Base.Dict.{Dict, values, get_or, insert, lookup}
use uberserver.Base.Text.{Text, newline, split}
use uberserver.Wire.Tweak.{tweak_command_bytes}
use uberserver.Wire.Framing.{Peer, init}
use uberserver.Wire.Flood.{FloodLimits, Conn, in_window, sum_flood_history, charge, handle}

sum-insert_more :
    (now n : ℕ) (h : Dict ℕ ℕ)
    → sum (values (insert now (get_or now 0 h + n) h)) ≡ sum (values h) + n
unfolding insert lookup
sum-insert_more now n [] = omega arith
sum-insert_more now n ((t, m) ∷ h) = ground (arith, sum-insert_more now n h)

sum-in_window-le :
    (now seconds : ℕ) (h : Dict ℕ ℕ) → sum (values (in_window now seconds h)) ≤ sum (values h)
unfolding in_window
sum-in_window-le now seconds [] = omega arith
sum-in_window-le now seconds ((t, m) ∷ h) = ground (arith, sum-in_window-le now seconds h)

-- The tweak bytes on record fit the allowance.
abbrev pub IsWithin : FloodLimits → Conn → Type 0
IsWithin limits c = sum (values c.tweak_length_history) ≤ limits.tweakbytes

charge_bounds :
    (limits : FloodLimits) (now : ℕ) (logged_in : Bool) (data_in : Text) (c : Conn)
    → IsWithin limits c
    → let (c', charged) = charge limits now logged_in data_in c in
      IsWithin limits c' × (sum (values c'.msg_length_history) ≤ charged + limits.tweakbytes)
unfolding charge sum_flood_history
charge_bounds limits now logged_in data_in c h = omega (
  arith,
  sum-in_window-le now limits.seconds c.tweak_length_history,
  sum-insert_more now
      (min (limits.tweakbytes - sum (values (in_window now limits.seconds c.tweak_length_history)))
        (tweak_command_bytes (init (split newline (c.buffered ++ data_in))) logged_in))
      (in_window now limits.seconds c.tweak_length_history),
)

module _ {S : Type 0} (peer : Peer S) where
  -- A read keeps the tweak allowance, and either ends in the removal of the client, or the bytes on
  -- record for the window are within the byte rate and the allowance.
  pub handle_bounds :
      (limits : FloodLimits) (now : ℕ) (access data_in : Text) (c : Conn) (s : S)
      → IsWithin limits c
      → let (c', s') = handle peer limits now access data_in (c, s) in
        IsWithin limits c'
        × (((reason : Text) × (before : S) × (s' ≡ peer.remove reason before))
            ⊎ (sum (values c'.msg_length_history)
                ≤ limits.bytespersecond * limits.seconds + limits.tweakbytes))
  unfolding handle
  handle_bounds limits now access data_in c s h =
      let r = charge limits now (peer.logged_in s) data_in c in
      let b = charge_bounds limits now (peer.logged_in s) data_in c h in
      elim (Bool-cases (ltb (limits.bytespersecond * limits.seconds) r.1)) [
        | inl flooding ↦ rw flooding (b.0, inl (_, _, refl))
        | inr slow ↦ rw slow (elim (Bool-cases (eqb (length (split newline r.0.buffered)) 1)) [
          | inl partial ↦
              rw partial (elim (Bool-cases (ltb (limits.msglength * 16) (length r.0.buffered))) [
                | inl full ↦ rw full (b.0, inr (omega (arith, small slow)))
                | inr short ↦ rw short (b.0, inr (omega (arith, small slow)))
              ])
          | inr lines ↦ rw lines (b.0, inr (omega (arith, small slow)))
        ])
      ]
    where
      small : {a b : ℕ} → ltb a b ≡ false → b ≤ a
      small e = ground arith
