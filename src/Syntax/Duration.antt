-- ===== src/Syntax/Duration.antt =====
-- protocol/Protocol.py: `_pretty_time_delta`, at a duration in whole seconds.
use uberserver.Base.{ℕ, ◌-◌, ◌/◌, ◌%◌, Bool, false, ◌&&◌, ◌||◌, ◌++◌, [], ltb, eqb, if◌then◌else◌}
use uberserver.Base.Int.{ℤ, pos, negsuc}
use uberserver.Base.Text.{Text, codes, show_nat, strip}

-- `duration.days` and `duration.seconds`: the seconds are never negative.
unfoldable pub delta_days : ℤ → ℤ
delta_days (pos n) = pos (n / 86400)
delta_days (negsuc n) = negsuc (n / 86400)

unfoldable pub delta_seconds : ℤ → ℕ
delta_seconds (pos n) = n % 86400
delta_seconds (negsuc n) = 86399 - n % 86400

-- The days where they are positive, else 0, and whether they are 0.
abbrev positive_days : ℤ → ℕ
positive_days (pos n) = n
positive_days (negsuc _) = 0

abbrev no_days : ℤ → Bool
no_days (pos n) = eqb n 0
no_days (negsuc _) = false

unfoldable pub pretty_parts : ℕ → Bool → ℕ → ℕ → ℕ → Text
pretty_parts days none_left hours minutes seconds =
    (if ltb 0 days then show_nat days ++ codes " days " else [])
    ++ ((if (ltb 0 days && ltb 0 minutes) || ltb 0 hours
          then show_nat hours ++ codes " hours "
          else [])
        ++ ((if (ltb 0 days && ltb 0 hours) || ltb 0 minutes
              then show_nat minutes ++ codes " minutes "
              else [])
            ++ (if none_left && eqb hours 0 && eqb minutes 0
                then show_nat seconds ++ codes " seconds "
                else [])))

unfoldable pub pretty_time_delta : ℤ → Text
unfolding delta_days delta_seconds pretty_parts
pretty_time_delta duration =
    let days = positive_days (delta_days duration) in
    let hours = delta_seconds duration / 3600 in
    let remainder = delta_seconds duration % 3600 in
    if ltb 900 days
    then codes "a long time"
    else strip
        (pretty_parts days (no_days (delta_days duration)) hours (remainder / 60) (remainder % 60))
