-- ===== src/Users/Bans/Admitted.antt =====
-- Whom `precheck_login` of SQLUsers.py lets in.
use uberserver.Base.{
  ℕ, ◌≡◌, ◌≢◌, ◌↔◌, refl, ap, false, Option, none, some, arith, ◌==◌, text_eq, Bool-cases,
  Option-cases, inl, inr,
}
use uberserver.Base.Text.{Text, codes}
use uberserver.Users.Bans.{
  Ban, Row, Verdict, accepted, denied, check_login_user, check_banned, precheck_login,
}

-- A login by this name, password and address is right: the row with the name is spelled as given and
-- has the password, and its user is an administrator or is not banned.
abbrev pub Rightful :
    (Text → Option Row) → (ℕ → Text → Text → Option Ban) → Text → Text → Text → Type 0
Rightful with_name banned username password ip =
    (row : Row) × (with_name username ≡ some row)
    × (row.username ≡ username)
    × (row.password ≡ password)
    × ((row.access == codes "admin") ≡ false → banned row.user_id ip row.email ≡ none)

module _ (with_name : Text → Option Row) (banned : ℕ → Text → Text → Option Ban) (now : ℕ)
    (username password ip : Text) where
  credentials :
      check_login_user with_name username password ≡ accepted
      → (row : Row) × (with_name username ≡ some row)
        × (row.username ≡ username)
        × (row.password ≡ password)
  unfolding check_login_user
  credentials ok = elim (Option-cases (with_name username)) [
    | inl nobody ↦ absurd (ground (arith, ok, nobody))
    | inr (row, found) ↦ (
      row,
      found,
      (text_eq.beq_iff row.username username).0 (ground (arith, ok, found)),
      (text_eq.beq_iff row.password password).0 (ground (arith, ok, found)),
    )
  ]

  credentials_suffice :
      (row : Row)
      → with_name username ≡ some row
      → row.username ≡ username
      → row.password ≡ password
      → check_login_user with_name username password ≡ accepted
  unfolding check_login_user
  credentials_suffice row found name pass =
      rw (found, check_login_user)
        (rw ((text_eq.beq_iff row.username username).1 name)
          (rw ((text_eq.beq_iff row.password password).1 pass) refl))

  unbanned :
      (row : Row)
      → with_name username ≡ some row
      → ((check_banned with_name banned now username ip ≡ none)
          ↔ ((row.access == codes "admin") ≡ false → banned row.user_id ip row.email ≡ none))
  unfolding check_banned
  unbanned row found = elim (Option-cases (banned row.user_id ip row.email)) [
    | inl free ↦ ((λ _ _. free), λ _. rw (found, check_banned) (rw free refl))
    | inr (ban, held) ↦ elim (Bool-cases (row.access == codes "admin")) [
      | inl admin ↦ (
        (λ _ low. absurd (ground (arith, admin, low))),
        λ _. rw (found, check_banned) (rw held (rw admin refl)),
      )
      | inr low ↦ (
        (λ passed _. absurd (ground (arith, passed, found, held, low))),
        λ free. absurd (ground (arith, free low, held)),
      )
    ]
  ]

verdict_apart : (reason : Text) → denied reason ≢ accepted
verdict_apart reason h = cc

passed_both :
    (v : Verdict) (b : Option Text)
    → (elim v as (λ _. Verdict × Option Text) [
      | denied reason ↦ (denied reason, none)
      | accepted ↦ (accepted, b)
    ])
      ≡ (accepted, none)
    → (v ≡ accepted) × (b ≡ none)
passed_both accepted b h = (refl, ap (λ (x : Verdict × Option Text). x.1) h)
passed_both (denied reason) b h =
    absurd (verdict_apart reason (ap (λ (x : Verdict × Option Text). x.0) h))

-- `precheck_login` lets a login in, with right credentials and no ban, exactly where the account with
-- the name is spelled as given, has the password, and is an administrator's or is not banned by its id,
-- the address or its e-mail.
pub precheck_login_iff :
    (with_name : Text → Option Row) (banned : ℕ → Text → Text → Option Ban) (now : ℕ)
    (username password ip : Text)
    → ((precheck_login with_name banned now username password ip ≡ (accepted, none))
        ↔ Rightful with_name banned username password ip)
unfolding precheck_login
precheck_login_iff with_name banned now username password ip = (
  (λ passed.
      let (right, free) =
        passed_both (check_login_user with_name username password)
          (check_banned with_name banned now username ip) passed in
      let (row, found, name, pass) = credentials with_name banned now username password ip right in
      (
        row,
        found,
        name,
        pass,
        (unbanned with_name banned now username password ip row found).0 free,
      )),
  λ (row, found, name, pass, free).
      rw
        (
          credentials_suffice with_name banned now username password ip row found name pass,
          precheck_login,
        )
        (rw ((unbanned with_name banned now username password ip row found).1 free) refl),
)
