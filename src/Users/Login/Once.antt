-- ===== src/Users/Login/Once.antt =====
-- That an account is logged in at most once, over `_login_finish_now` of protocol/Protocol.py.
use mathlib.Core.Option.{some-injective}
use uberserver.Base.{
  ℕ, ◌≡◌, refl, sym, ap, ◌∙◌, Bool, true, false, List, none, some, arith, eqb, eqb_iff, ◌==◌,
  text_eq, nat_eq, Bool-cases, Option-cases, inl, inr,
}
use uberserver.Base.Dict.{Dict, lookup, insert, lookup-insert, has_key, contains}
use uberserver.Base.Int.{ℤ, pos}
use uberserver.Base.Text.{Text, codes}
use uberserver.Syntax.Numbers.{dec2bin, bin2dec}
use uberserver.Server.Types.{Root, Client}
use uberserver.Server.Store.{set_client}
use uberserver.Server.Cast.{send}
use uberserver.Server.Outcome.{after}
use uberserver.Protocol.Rights.{calc_access, calc_status, status_digits, digit_at, last_7}
use uberserver.Protocol.Rights.Status.{calc_status_stores}
use uberserver.Users.Login.{
  Snapshot, take_account, enter_lobby, is_taken, set_local_ip, login_finish_now,
}

-- A client that is connected and logged in, and that is not ChanServ, the only static one.
abbrev pub IsUser : Root → ℕ → Type 0
IsUser r s =
    (contains s r.clients ≡ true)
    × ((r.client_at s).static ≡ false)
    × ((r.client_at s).logged_in ≡ true)

-- Each of them is the one that its id leads to.
abbrev pub Entered : Root → Type 0
Entered r = (s : ℕ) → IsUser r s → lookup (r.client_at s).user_id r.user_ids ≡ some s

-- No two of them have one account.
abbrev pub OneLogin : Root → Type 0
OneLogin r =
    (s t : ℕ) → IsUser r s → IsUser r t → (r.client_at s).user_id ≡ (r.client_at t).user_id → s ≡ t

Entered-OneLogin : (r : Root) → Entered r → OneLogin r
Entered-OneLogin r h s t ls lt same =
    some-injective s t (sym (h s ls) ∙ ap (λ (k : ℕ). lookup k r.user_ids) same ∙ h t lt)

-- Both tables and the other clients are as they were, and this client is still not logged in.
abbrev Waiting : ℕ → Root → Root → Type 0
Waiting sid r s =
    (s.user_ids ≡ r.user_ids)
    × (s.clients ≡ r.clients)
    × ((s.client_at sid).logged_in ≡ false)
    × ((j : ℕ) → eqb j sid ≡ false → s.client_at j ≡ r.client_at j)

Waiting-Entered : (sid : ℕ) (r s : Root) → Waiting sid r s → Entered r → Entered s
Waiting-Entered sid r s (ids, online, out, others) h j (there, plain, logged) =
    elim (Bool-cases (eqb j sid)) [
      | inl self ↦ absurd (ground (arith, eqb_iff j sid, out, logged))
      | inr other ↦
          rw (ids, others j other)
            (h j (
              ap (contains j) (sym online) ∙ there,
              ap (λ (c : Client). c.static) (sym (others j other)) ∙ plain,
              ap (λ (c : Client). c.logged_in) (sym (others j other)) ∙ logged,
            ))
    ]

-- Nothing that the tables of users depend on differs.
abbrev Kept : ℕ → Root → Root → Type 0
Kept sid r s =
    (s.user_ids ≡ r.user_ids)
    × (s.clients ≡ r.clients)
    × ((s.client_at sid).logged_in ≡ (r.client_at sid).logged_in)
    × ((s.client_at sid).user_id ≡ (r.client_at sid).user_id)
    × ((j : ℕ) → eqb j sid ≡ false → s.client_at j ≡ r.client_at j)

calc_status-Kept : (sid : ℕ) (n : ℤ) (r : Root) → Kept sid r (after (calc_status sid n r))
unfolding calc_status
calc_status-Kept sid n r =
    let c = r.client_at sid in
    let bits = last_7 (dec2bin n 7) in
    elim (Option-cases
      (bin2dec (status_digits c.bot c.access c.ingame_time (digit_at 5 bits) (digit_at 6 bits)))) [
        | inl e ↦
            rw (e, calc_status)
              (
                refl,
                refl,
                ground (arith, eqb_iff sid sid),
                ground (arith, eqb_iff sid sid),
                λ j o. rw o refl,
              )
        | inr (status, e) ↦
            rw (e, calc_status)
              (
                refl,
                refl,
                ground (arith, eqb_iff sid sid),
                ground (arith, eqb_iff sid sid),
                λ j o. rw o refl,
              )
      ]

eqb_to : (a b : ℕ) → eqb a b ≡ true → a ≡ b
eqb_to a b h = ground (arith, eqb_iff a b)

eqb_same : (a : ℕ) → eqb a a ≡ true
eqb_same a = ground (arith, eqb_iff a a)

none-not-some : (j : ℕ) → none ≡ some j → ⊥
none-not-some j h = cc

-- An id that leads to nobody is put into the table.
entry-fresh :
    (r : Root) (ids : Dict ℕ ℕ) (sid own j k : ℕ)
    → ids ≡ r.user_ids
    → lookup own r.user_ids ≡ none
    → lookup k r.user_ids ≡ some j
    → lookup k (insert own sid ids) ≡ some j
entry-fresh r ids sid own j k same free found =
    rw (same, lookup-insert k own sid r.user_ids)
      (elim (Bool-cases (eqb k own)) [
        | inl e ↦ absurd (
            none-not-some j
              (sym free ∙ ap (λ (i : ℕ). lookup i r.user_ids) (sym (eqb_to k own e)) ∙ found))
        | inr e ↦ rw e found
      ])

entry-own : (ids : Dict ℕ ℕ) (sid own : ℕ) → lookup own (insert own sid ids) ≡ some sid
entry-own ids sid own = rw (lookup-insert own own sid ids) (ground (arith, eqb_iff own own))

-- The client is entered under an id that leads to nobody.
entered :
    (sid : ℕ) (ignored : List ℕ) (r s : Root)
    → Kept sid r s
    → Entered r
    → lookup (r.client_at sid).user_id r.user_ids ≡ none
    → Entered (
        set_client sid
          (λ d. record d { logged_in = true; ignored = ignored })
          (record s {
            user_ids = insert (s.client_at sid).user_id sid s.user_ids;
            usernames = insert (s.client_at sid).username sid s.usernames;
          }))
entered sid ignored r s (ids, online, _, own, others) h free j (there, plain, logged) =
    elim (Bool-cases (eqb j sid)) [
      | inl self ↦
          let here = eqb_to j sid self in
          rw here (rw (eqb_same sid) (entry-own s.user_ids sid (s.client_at sid).user_id))
      | inr other ↦
          let user : IsUser r j = (
            ap (contains j) (sym online) ∙ there,
            ap (λ (c : Client). c.static) (sym (others j other)) ∙ rw other at plain,
            ap (λ (c : Client). c.logged_in) (sym (others j other)) ∙ rw other at logged,
          ) in
          let gone : lookup (s.client_at sid).user_id r.user_ids ≡ none = rw own free in
          let found : lookup (s.client_at j).user_id r.user_ids ≡ some j =
            rw (others j other) (h j user) in
          rw other (
            entry-fresh r s.user_ids sid (s.client_at sid).user_id j (s.client_at j).user_id ids
              gone found)
    ]

take_account-Waiting :
    (sid : ℕ) (u : Snapshot) (agent : Text) (r : Root)
    → (r.client_at sid).logged_in ≡ false
    → Waiting sid r (take_account sid u agent r)
unfolding take_account calc_access
take_account-Waiting sid u agent r out =
    (refl, refl, ground (arith, eqb_same sid, out), λ j other. rw other refl)

has_key-lookup : (k : ℕ) (d : Dict ℕ ℕ) → has_key k d ≡ false → lookup k d ≡ none
has_key-lookup k d h = elim (Option-cases (lookup k d)) [
  | inl e ↦ e
  | inr (v, e) ↦ absurd (ground (arith, rw e at h))
]

enter_lobby-Entered :
    (sid : ℕ) (ignored : List ℕ) (r : Root)
    → Entered r
    → is_taken sid r ≡ false
    → Entered (after (enter_lobby sid ignored r))
unfolding enter_lobby is_taken
enter_lobby-Entered sid ignored r h free =
    let (s, stored, _, _) = calc_status_stores sid (pos 0) r in
    let kept : Kept sid r s = rw stored at (calc_status-Kept sid (pos 0) r) in
    rw (stored, enter_lobby)
      (entered sid ignored r s kept h
        (has_key-lookup (r.client_at sid).user_id r.user_ids (ground (arith, free))))

set_local_ip-Waiting :
    (is_address : Text → Bool) (sid : ℕ) (local_ip : Text) (r s : Root)
    → Waiting sid r s
    → Waiting sid r (set_local_ip is_address sid local_ip s)
unfolding set_local_ip
set_local_ip-Waiting is_address sid local_ip r s (ids, online, out, others) =
    (ids, online, ground (arith, eqb_same sid, out), λ j other. rw other (others j other))

finish-Entered :
    (is_address : Text → Bool) (sid : ℕ) (u : Snapshot) (agent local_ip : Text) (r : Root)
    → Entered r
    → (r.client_at sid).logged_in ≡ false
    → Entered (after (login_finish_now is_address sid u agent local_ip r))
unfolding login_finish_now send
finish-Entered is_address sid u agent local_ip r h out =
    let r1 = take_account sid u agent r in
    let r2 = set_local_ip is_address sid local_ip r1 in
    let w1 = take_account-Waiting sid u agent r out in
    let e2 = Waiting-Entered sid r r2 (set_local_ip-Waiting is_address sid local_ip r r1 w1) h in
    elim (Bool-cases (u.account.access == codes "agreement")) [
      | inl asked ↦ rw (asked, login_finish_now) (Waiting-Entered sid r r1 w1 h)
      | inr ready ↦ elim (Bool-cases (is_taken sid r2)) [
        | inl taken ↦ rw (ready, taken, login_finish_now) e2
        | inr free ↦
            rw (ready, free, login_finish_now) (enter_lobby-Entered sid u.ignored r2 e2 free)
      ]
    ]

-- Where each client that is connected and logged in, ChanServ aside, is the one that its id leads to, this
-- holds after `_login_finish_now` for a client that is not logged in, whatever account it is given and
-- wherever the handler returns; so no two of these clients have one account.
pub login_finish_now-OneLogin :
    (is_address : Text → Bool) (sid : ℕ) (u : Snapshot) (agent local_ip : Text) (r : Root)
    → Entered r
    → (r.client_at sid).logged_in ≡ false
    → let s = after (login_finish_now is_address sid u agent local_ip r) in Entered s × OneLogin s
login_finish_now-OneLogin is_address sid u agent local_ip r h out =
    let r1 = after (login_finish_now is_address sid u agent local_ip r) in
    let entered_now = finish-Entered is_address sid u agent local_ip r h out in
    (entered_now, Entered-OneLogin r1 entered_now)
