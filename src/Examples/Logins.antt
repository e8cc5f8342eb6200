-- ===== src/Examples/Logins.antt =====
-- The cache of bans and the checks of a login at concrete users.
use mathlib.Core.Option.{some-injective}
use uberserver.Base.{
  ℕ, ◌≤◌, ◌≡◌, ◌↔◌, sym, ap, subst, true, [], ◌∷◌, Option, none, some, arith, eqb, leb,
  if◌then◌else◌, nat_eq, text_eq, Bool-cases, inl, inr,
}
use uberserver.Base.Dict.{lookup}
use uberserver.Base.Text.{Text, codes}
use uberserver.Users.Bans.{Ban, BanCache, Row, accepted, check_ban, precheck_login}
use uberserver.Users.Bans.Fresh.{Stable, Remembered, check_ban-Remembered}
use uberserver.Users.Bans.Admitted.{Rightful, precheck_login_iff}

-- The user 7 is banned until the time 900, and this is remembered since the time 400.
abbrev a_ban : Ban
a_ban = record { reason = codes "spam"; end_date = 900 }

abbrev banned_seven : ℕ → ℕ → Option Ban
banned_seven k t = if eqb k 7 then (if leb t 900 then some a_ban else none) else none

abbrev remembering : BanCache ℕ
remembering = (7, (some a_ban, 700)) ∷ []

held : (k t : ℕ) (ban : Ban) → banned_seven k t ≡ some ban → (eqb k 7 ≡ true) × (a_ban ≡ ban)
held k t ban found = elim (Bool-cases (eqb k 7)) [
  | inr other ↦ absurd (ground (arith, found, other))
  | inl seven ↦ elim (Bool-cases (leb t 900)) [
    | inr over ↦ absurd (ground (arith, found, over, seven))
    | inl held_still ↦ (seven, some-injective a_ban ban (rw held_still at (rw seven at found)))
  ]
]

banned_seven-Stable : Stable banned_seven
banned_seven-Stable = (
  (λ k t u ban found le end.
      let (seven, same) = held k t ban found in
      let soon : u ≤ 900 = subst (λ (b : Ban). u ≤ b.end_date) (sym same) end in
      rw seven (rw (sym same) (ground (arith, soon)))),
  λ k t u free le. ground (arith, free, le),
)

first_answer : Remembered banned_seven 400 remembering
unfolding lookup
first_answer k result expiry found = elim (Bool-cases (eqb k 7)) [
  | inl seven ↦ (
    400,
    rw seven (
        ap (λ (v : Option Ban × ℕ). v.0)
          (some-injective (some a_ban, 700) (result, expiry) (rw seven at found))),
    omega arith,
  )
  | inr other ↦ absurd (ground (arith, found, other))
]

check_ban-Remembered_example :
    ((check_ban banned_seven 7 500 remembering).0 ≡ some a_ban)
    × Remembered banned_seven 500 (check_ban banned_seven 7 500 remembering).1
check_ban-Remembered_example =
    check_ban-Remembered banned_seven 7 400 500 remembering banned_seven-Stable (omega arith)
      first_answer

abbrev finn : Row
finn = record {
  user_id = 7;
  username = codes "Finn";
  password = codes "xyz";
  access = codes "user";
  email = codes "f@x.org";
}

abbrev finns : Text → Option Row
finns _ = some finn

abbrev banned_finn : ℕ → Text → Text → Option Ban
banned_finn user_id _ _ = banned_seven user_id 500

precheck_login_iff_example :
    (precheck_login finns banned_finn 500 (codes "finn") (codes "xyz") (codes "9.9.9.9")
      ≡ (accepted, none))
    ↔ Rightful finns banned_finn (codes "finn") (codes "xyz") (codes "9.9.9.9")
precheck_login_iff_example =
    precheck_login_iff finns banned_finn 500 (codes "finn") (codes "xyz") (codes "9.9.9.9")
