-- ===== src/Protocol/Staff/Unignored.antt =====
-- That a new moderator or administrator is ignored by nobody, over `in_SETACCESS` of protocol/Protocol.py.
use mathlib.Core.Option.{some-injective}
use uberserver.Base.{
  ℕ, ◌≡◌, refl, sym, ap, ◌∙◌, subst, Bool, true, false, List, [], ◌∷◌, none, some, if◌then◌else◌,
  text_eq, nat_eq, eqb, eqb_iff, arith, Bool-cases, Option-cases, inl, inr,
}
use uberserver.Base.Dict.{lookup, contains, discard, contains-discard}
use uberserver.Base.Text.{Text, codes}
use uberserver.Server.Types.{Root, lit, txt, num}
use uberserver.Server.Store.{set_client, record_db, client_from_id, client_from_username}
use uberserver.Server.Cast.{send, broadcast_all, broadcast, delivered}
use uberserver.Server.Outcome.{done, raised, after}
use uberserver.Server.Accounts.{UserDb, find_username}
use uberserver.Channel.Access.{Person}
use uberserver.Protocol.Rights.{calc_access_status}
use uberserver.Protocol.Rights.Status.{calc_status_stores}
use uberserver.Protocol.Rights.{calc_access, calc_status}
use uberserver.Base.Int.{ℤ, pos}
use uberserver.Protocol.Staff.{unignore_everywhere, access_levels, assign_access, in_setaccess}

-- Who is told has the account no longer in the list of those ignored.
abbrev told : ℕ → Text → ℕ → Root → Root
told user_id username t r =
    send t (lit "UNIGNORE userName=" ∷ txt username ∷ [])
      (set_client t (λ c. record c { ignored = discard user_id c.ignored }) r)

-- Whether a client's list has the account.
abbrev ignores : ℕ → ℕ → Root → Bool
ignores user_id t r = contains user_id (r.client_at t).ignored

ignores-told :
    (user_id t j : ℕ) (username : Text) (r : Root)
    → ignores user_id j (told user_id username t r)
      ≡ (if eqb j t then false else ignores user_id j r)
unfolding send
ignores-told user_id t j username r = elim (Bool-cases (eqb j t)) [
  | inl same ↦
      rw (same, contains-discard user_id user_id (r.client_at t).ignored)
        (ground (arith, eqb_iff user_id user_id))
  | inr other ↦ rw other refl
]

stays_out :
    (user_id j : ℕ) (username : Text) (ks : List ℕ) (r : Root)
    → ignores user_id j r ≡ false
    → ignores user_id j (after (unignore_everywhere user_id username ks r)) ≡ false
unfolding unignore_everywhere client_from_id
stays_out user_id j username [] r out = out
stays_out user_id j username (k ∷ ks) r out = elim (Option-cases (lookup k r.user_ids)) [
  | inl e ↦ rw (e, unignore_everywhere) (stays_out user_id j username ks r out)
  | inr (t, e) ↦
      let step : ignores user_id j (told user_id username t r) ≡ false =
        rw (ignores-told user_id t j username r) (ground (arith, out)) in
      elim (Bool-cases (ignores user_id t r)) [
        | inl had ↦
            rw (e, unignore_everywhere)
              (rw had (stays_out user_id j username ks (told user_id username t r) step))
        | inr not_had ↦ rw (e, unignore_everywhere) (rw not_had out)
      ]
]

missing : (t : ℕ) → none ≡ some t → ⊥
missing t h = cc

failed : (r s : Root) → raised r ≡ done s → ⊥
failed r s h = cc

equal : (a b : ℕ) → eqb a b ≡ true → a ≡ b
equal a b h = ground (arith, eqb_iff a b)

-- Where it returns, nobody among those online whom the database has named ignores the account.
unignore_everywhere_lem :
    (user_id k t : ℕ) (username : Text) (ks : List ℕ) (r s : Root)
    → unignore_everywhere user_id username ks r ≡ done s
    → contains k ks ≡ true
    → lookup k r.user_ids ≡ some t
    → ignores user_id t s ≡ false
unfolding unignore_everywhere client_from_id contains send
unignore_everywhere_lem user_id k t username [] r s d listed online =
    absurd (ground (arith, listed))
unignore_everywhere_lem user_id k t username (i ∷ ks) r s d listed online =
    elim (Option-cases (lookup i r.user_ids)) [
      | inl e ↦ elim (Bool-cases (eqb k i)) [
        | inl here ↦ absurd (
            missing t (sym e ∙ ap (λ (n : ℕ). lookup n r.user_ids) (sym (equal k i here)) ∙ online))
        | inr later ↦
            unignore_everywhere_lem user_id k t username ks r s (rw (e, unignore_everywhere) at d)
              (rw later at listed) online
      ]
      | inr (u, e) ↦ elim (Bool-cases (ignores user_id u r)) [
        | inr not_had ↦ absurd (failed r s (rw not_had at (rw (e, unignore_everywhere) at d)))
        | inl had ↦
            let rest : unignore_everywhere user_id username ks (told user_id username u r)
                ≡ done s =
              rw had at (rw (e, unignore_everywhere) at d) in
            elim (Bool-cases (eqb k i)) [
              | inl here ↦
                  let same : u ≡ t =
                    some-injective u t (
                      sym e
                      ∙ ap (λ (n : ℕ). lookup n r.user_ids) (sym (equal k i here))
                      ∙ online) in
                  let out : ignores user_id t (told user_id username u r) ≡ false =
                    rw (ignores-told user_id u t username r) (ground (arith, same, eqb_iff t u)) in
                  subst (λ (x : Root). ignores user_id t x ≡ false) (ap after rest)
                    (stays_out user_id t username ks (told user_id username u r) out)
              | inr later ↦
                  unignore_everywhere_lem user_id k t username ks (told user_id username u r) s rest
                    (rw later at listed) online
            ]
      ]
    ]

calc_status-user_ids :
    (sid : ℕ) (n : ℤ) (r : Root) → (after (calc_status sid n r)).user_ids ≡ r.user_ids
unfolding calc_status
calc_status-user_ids sid n r = ground arith

assign_access-user_ids :
    (username access : Text) (r : Root)
    → (q : Root) × (assign_access username access r ≡ done q) × (q.user_ids ≡ r.user_ids)
unfolding assign_access client_from_username calc_access_status calc_access broadcast_all broadcast
    delivered
assign_access-user_ids username access r = elim (Option-cases (lookup username r.usernames)) [
  | inl e ↦ rw (e, assign_access) (r, refl, refl)
  | inr (t, e) ↦
      let r1 = calc_access t (set_client t (λ c. record c { access = access }) r) in
      let n = pos (r1.client_at t).status in
      let (q, stored, _, _) = calc_status_stores t n r1 in
      let same : q.user_ids ≡ r.user_ids = rw stored at (calc_status-user_ids t n r1) in
      rw (e, assign_access) (rw stored (_, refl, same))
]

staff_level :
    (access : Text)
    → contains access (codes "mod" ∷ codes "admin" ∷ []) ≡ true
    → contains access access_levels ≡ true
unfolding contains
staff_level access staff = ground (arith, staff)

-- Where SETACCESS makes a user that it has found a moderator or an administrator and returns, none of
-- those who are online and whom the database names as ignoring that user ignores it.
pub setaccess_unignores :
    (users : UserDb) (ignored_by : ℕ → List ℕ) (sid k t : ℕ) (username access : Text)
    (user : Person) (r s : Root)
    → find_username users r username ≡ some user
    → contains access (codes "mod" ∷ codes "admin" ∷ []) ≡ true
    → in_setaccess users ignored_by sid username access r ≡ done s
    → contains k (ignored_by user.user_id) ≡ true
    → lookup k r.user_ids ≡ some t
    → contains user.user_id (s.client_at t).ignored ≡ false
unfolding in_setaccess send
setaccess_unignores users ignored_by sid k t username access user r s found staff d listed online =
    let (q, assigned, same) = assign_access-user_ids username access r in
    let level = staff_level access staff in
    let left = rw staff at (rw assigned at (rw level at (rw (found, in_setaccess) at d))) in
    unignore_everywhere_lem user.user_id k t username (ignored_by user.user_id)
      (send sid (lit "OK cmd=SETACCESS" ∷ [])
        (record_db "save_user" [] (num user.user_id ∷ txt access ∷ []) q))
      s left listed (rw same online)
