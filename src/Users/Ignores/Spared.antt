-- ===== src/Users/Ignores/Spared.antt =====
-- That staff is ignored by nobody, over IGNORE and UNIGNORE of protocol/Protocol.py.
use uberserver.Base.{
  ℕ, ◌≡◌, refl, sym, ap, ◌∙◌, subst, Bool, true, false, not, List, [], ◌∷◌, ◌++◌, All, Option, some,
  arith, eqb_iff, if◌then◌else◌, nat_eq, text_eq, Bool-cases, Option-cases, leb, length, inl, inr,
  ◌==◌,
}
use uberserver.Base.Dict.{contains, contains-add, contains-discard}
use uberserver.Base.Text.{Text}
use uberserver.Server.Types.{Root, Client}
use uberserver.Server.Cast.{send, out_servermsg}
use uberserver.Users.Ignores.{
  Turn, after_turn, ignore_resolved, ignore_stored, unignore_resolved, unignore_removed,
  is_staff_access, gone, ignored_max,
}
use uberserver.Users.Ignores.Interleaved.{
  Pending, World, waits, Step, ignore_looked_up, unignore_looked_up, stored, removed, failed,
  elsewhere, Reach, here, next,
}

-- Nobody ignores an account for which `staff` holds, and no INSERT for one is under way.
module _ (staff : ℕ → Bool) where
  abbrev pub Safe : Pending → Type 0
  Safe p = p.inserts ≡ true → staff p.target_id ≡ false

  abbrev pub Spared : Root → Type 0
  Spared r = (sid x : ℕ) → contains x (r.client_at sid).ignored ≡ true → staff x ≡ false

  abbrev pub NoStaff : World → Type 0
  NoStaff w = Spared w.root × All Safe w.pending

  All-without :
      (p : Pending) (before later : List Pending)
      → All Safe (before ++ (p ∷ later))
      → Safe p × All Safe (before ++ later)
  All-without p [] later h = h
  All-without p (q ∷ before) later h =
      let (here_safe, rest) = All-without p before later h.1 in (here_safe, (h.0, rest))

  stored-Spared :
      (sid target_id : ℕ) (username : Text) (reason : Option Text) (r : Root)
      → Spared r
      → staff target_id ≡ false
      → Spared (ignore_stored sid username target_id reason r)
  unfolding ignore_stored send
  stored-Spared sid target_id username reason r h safe j x m = ground (
    arith,
    m,
    h j x,
    h sid x,
    safe,
    contains-add x target_id (r.client_at sid).ignored,
    eqb_iff x target_id,
    eqb_iff j sid,
  )

  removed-Spared :
      (sid target_id : ℕ) (username : Text) (r : Root)
      → Spared r
      → Spared (unignore_removed sid username target_id r)
  unfolding unignore_removed send
  removed-Spared sid target_id username r h j x m = ground (
    arith,
    m,
    h j x,
    h sid x,
    contains-discard x target_id (r.client_at sid).ignored,
    eqb_iff x target_id,
    eqb_iff j sid,
  )

  -- What a turn makes of the world: no list of ignored users, and at most a safe call more.
  abbrev pub Harmless : Pending → Root → Turn ℕ → List Pending → Type 0
  Harmless p r t ps = ((after_turn t).client_at ≡ r.client_at) × All Safe (waits p t ps)

  either-Harmless :
      (p : Pending) (r : Root) (ps : List Pending) (b : Bool) (t u : Turn ℕ)
      → Harmless p r t ps
      → Harmless p r u ps
      → Harmless p r (if b then t else u) ps
  either-Harmless p r ps true t u ht hu = ht
  either-Harmless p r ps false t u ht hu = hu

  ignore-Harmless :
      (resolved : Option (ℕ × Text)) (p : Pending) (r : Root) (ps : List Pending)
      → ((id : ℕ) (access : Text)
          → resolved ≡ some (id, access)
          → is_staff_access access ≡ false
          → staff id ≡ false)
      → All Safe ps
      → Harmless p r (ignore_resolved resolved p.sid p.username r) ps
  unfolding ignore_resolved out_servermsg send
  ignore-Harmless resolved p r ps ranks h = elim (Bool-cases (gone p.sid r)) [
    | inl left ↦ rw (left, ignore_resolved) (refl, h)
    | inr here_still ↦ elim (Option-cases resolved) [
      | inl nobody ↦ rw (here_still, ignore_resolved) (rw nobody (refl, h))
      | inr ((id, access), found) ↦ elim (Bool-cases (is_staff_access access)) [
        | inl high ↦ rw (here_still, ignore_resolved) (rw found (rw high (refl, h)))
        | inr low ↦
            rw (here_still, ignore_resolved)
              (rw found (
                rw low (
                  either-Harmless p r ps (p.username == (r.client_at p.sid).username) _ _ (refl, h)
                    (either-Harmless p r ps (contains id (r.client_at p.sid).ignored) _ _ (refl, h)
                      (either-Harmless p r ps (leb ignored_max (length (r.client_at p.sid).ignored))
                        _ _ (refl, h) (refl, ((λ _. ranks id access found low), h)))))))
      ]
    ]
  ]

  unignore-Harmless :
      (resolved : Option (ℕ × Text)) (p : Pending) (r : Root) (ps : List Pending)
      → p.inserts ≡ false
      → All Safe ps
      → Harmless p r (unignore_resolved resolved p.sid r) ps
  unfolding unignore_resolved out_servermsg send
  unignore-Harmless resolved p r ps deletes h = elim (Bool-cases (gone p.sid r)) [
    | inl left ↦ rw (left, unignore_resolved) (refl, h)
    | inr here_still ↦ elim (Option-cases resolved) [
      | inl nobody ↦ rw (here_still, unignore_resolved) (rw nobody (refl, h))
      | inr ((id, access), found) ↦
          rw (here_still, unignore_resolved)
            (rw found (
              either-Harmless p r ps (not (contains id (r.client_at p.sid).ignored)) _ _ (refl, h)
                (refl, ((λ inserts. absurd cc), h))))
    ]
  ]

  Harmless-NoStaff :
      (p : Pending) (w : World) (t : Turn ℕ)
      → Spared w.root
      → Harmless p w.root t w.pending
      → NoStaff (record { root = after_turn t; pending = waits p t w.pending })
  Harmless-NoStaff p w t h (same, safe) = (
    (λ sid x m. h sid x (subst (λ (f : ℕ → Client). contains x (f sid).ignored ≡ true) same m)),
    safe,
  )

  module _ (answers : Text → Option (ℕ × Text) → Type 0)
      (ranks : (name : Text) (id : ℕ) (access : Text)
        → answers name (some (id, access))
        → is_staff_access access ≡ false
        → staff id ≡ false) where
    Step-NoStaff : (v w : World) → Step answers v w → NoStaff v → NoStaff w
    Step-NoStaff v w (ignore_looked_up _ p resolved a e) (h, safe) =
        Harmless-NoStaff p v (ignore_resolved resolved p.sid p.username v.root) h (
          ignore-Harmless resolved p v.root v.pending
            (λ id access found low.
              ranks p.username id access (subst (answers p.username) found a) low)
            safe)
    Step-NoStaff v w (unignore_looked_up _ p resolved a e) (h, safe) =
        Harmless-NoStaff p v (unignore_resolved resolved p.sid v.root) h
          (unignore-Harmless resolved p v.root v.pending e safe)
    Step-NoStaff v w (stored _ p before later place e) (h, safe) =
        let (mine, rest) = All-without p before later (rw place at safe) in
        (stored-Spared p.sid p.target_id p.username p.reason v.root h (mine e), rest)
    Step-NoStaff v w (removed _ p before later place e) (h, safe) =
        let (_, rest) = All-without p before later (rw place at safe) in
        (removed-Spared p.sid p.target_id p.username v.root h, rest)
    Step-NoStaff v w (failed _ p before later place) (h, safe) =
        let (_, rest) = All-without p before later (rw place at safe) in (h, rest)
    Step-NoStaff v w (elsewhere _ r same) (h, safe) =
        ((λ sid x m. h sid x (ap (contains x) (sym (same sid)) ∙ m)), safe)

-- In whatever order IGNOREs and UNIGNOREs of any clients are looked up, stored, removed and failed, and
-- whatever the server does in between that writes to no ignore list, a disconnection among it, nobody
-- comes to ignore an account for which `staff` holds: where nobody did at the start and no INSERT of one
-- was under way, and an account that some answer of the database puts below moderator is none of these.
pub Reach-NoStaff :
    (staff : ℕ → Bool) (answers : Text → Option (ℕ × Text) → Type 0) (start w : World)
    → ((name : Text) (id : ℕ) (access : Text)
        → answers name (some (id, access))
        → is_staff_access access ≡ false
        → staff id ≡ false)
    → NoStaff staff start
    → Reach answers start w
    → NoStaff staff w
Reach-NoStaff staff answers start w ranks h here = h
Reach-NoStaff staff answers start w ranks h (next {v} reached step) =
    Step-NoStaff staff answers ranks v w step (Reach-NoStaff staff answers start v ranks h reached)
