-- ===== src/ChanServ/Lengths.antt =====
-- What `parse_duration` of ChanServ.py may give.
use uberserver.Base.{ℕ, ◌≤◌, ◌<◌, ◌≡◌, arith}
use uberserver.Base.Text.{Text}
use uberserver.ChanServ.{lasting, longest, unit_of, with_unit, parse_duration}

with_unit_bounds : (t : Text) (s : ℕ) → with_unit t ≡ lasting s → (0 < s) × (s ≤ longest)
unfolding with_unit unit_of
with_unit_bounds t s h = ground arith

-- A duration that is read is positive and no longer than the longest time that there is.
parse_duration_bounds : (t : Text) (s : ℕ) → parse_duration t ≡ lasting s → (0 < s) × (s ≤ longest)
unfolding parse_duration
parse_duration_bounds t s h = ground (arith, with_unit_bounds t s)
