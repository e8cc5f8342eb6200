-- ===== src/Protocol/Dispatch/Guards.antt =====
-- What `_handle` and `_dispatch` of protocol/Protocol.py guarantee for every handler.
use uberserver.Base.{
  ℕ, ◌≡◌, refl, Bool, true, false, List, [], ◌∷◌, some, text_eq, arith, inl, inr, Bool-cases,
  Option-cases, if◌then◌else◌, text_beq, eqb_iff,
}
use uberserver.Base.Dict.{contains}
use uberserver.Base.Text.{Text, codes, partition, space, upper, count_char}
use uberserver.Server.Types.{Root}
use uberserver.Server.Outcome.{Outcome, done, raised, after}
use uberserver.Wire.Tweak.{set_msg_id}
use uberserver.Protocol.Dispatch.{
  Handlers, call, get_function_args, restricted, restricted_list, is_allowed, dispatch, handle,
  restore, with_id, user_commands, mod_commands, admin_commands, everyone_commands,
}
use uberserver.Protocol.Rights.{levels_of}

restore-msg_id :
    (sid : ℕ) (msg_id : Text) (o : Outcome)
    → ((after (restore sid msg_id o)).client_at sid).msg_id ≡ msg_id
unfolding restore
restore-msg_id sid msg_id (done r) = ground (arith, eqb_iff sid sid)
restore-msg_id sid msg_id (raised r) = ground (arith, eqb_iff sid sid)

-- Whatever a line says and whatever its handler does, returning or raising, the id that the client's
-- replies carry is afterwards the one from before the line.
pub handle_restores_msg_id :
    (h : Handlers) (sid : ℕ) (msg : Text) (r : Root)
    → ((after (handle h sid msg r)).client_at sid).msg_id ≡ (r.client_at sid).msg_id
unfolding handle
handle_restores_msg_id h sid msg r =
    restore-msg_id sid (r.client_at sid).msg_id
      (dispatch h sid (set_msg_id msg).1 (with_id sid (set_msg_id msg).0 r))

-- Two tables of handlers agree on a command.
abbrev pub SameHandler : Handlers → Handlers → Text → Type 0
SameHandler h k command =
    (h.total_args command ≡ k.total_args command)
    × (h.optional_args command ≡ k.optional_args command)
    × ((sid : ℕ) (args : List Text) (r : Root)
        → h.run command sid args r ≡ k.run command sid args r)

call-SameHandler :
    (h k : Handlers) (sid : ℕ) (command : Text) (spaces : ℕ) (given : Text) (r : Root)
    → SameHandler h k command
    → call h sid command spaces given r ≡ call k sid command spaces given r
unfolding call
call-SameHandler h k sid command spaces given r (total, optional, run) =
    elim (Option-cases
      (get_function_args (k.total_args command) (k.optional_args command) spaces given)) [
        | inl e ↦ rw (total, call) (rw (optional, call) (rw (e, call) refl))
        | inr (args, e) ↦ rw (total, call) (rw (optional, call) (rw (e, call) (run sid args r)))
      ]

-- What a line does depends on no handler but those of commands that exist and that one of the client's
-- levels allows: with handlers that agree on these the dispatch ends alike, with the same state,
-- messages and database calls.
pub dispatch-SameHandler :
    (h k : Handlers) (sid : ℕ) (msg : Text) (r : Root)
    → ((command : Text)
        → contains command restricted_list ≡ true
        → is_allowed command (r.client_at sid).accesslevels ≡ some true
        → SameHandler h k command)
    → dispatch h sid msg r ≡ dispatch k sid msg r
unfolding dispatch
dispatch-SameHandler h k sid msg r same =
    let command = upper (partition space msg).0 in
    let levels = (r.client_at sid).accesslevels in
    elim (Bool-cases (contains command restricted_list)) [
      | inr unknown ↦ rw (unknown, dispatch) refl
      | inl known ↦ elim (Option-cases (is_allowed command levels)) [
        | inl broken ↦ rw (known, dispatch) (rw (broken, dispatch) refl)
        | inr (false, denied) ↦ rw (known, dispatch) (rw (denied, dispatch) refl)
        | inr (true, allowed) ↦
            rw (known, dispatch)
              (rw (allowed, dispatch)
                (call-SameHandler h k sid command (count_char space msg) (partition space msg).2 r
                  (same command known allowed)))
      ]
    ]

restricted_user : restricted (codes "user") ≡ some user_commands
unfolding restricted text_beq
restricted_user = refl

restricted_mod : restricted (codes "mod") ≡ some mod_commands
unfolding restricted text_beq
restricted_mod = refl

restricted_admin : restricted (codes "admin") ≡ some admin_commands
unfolding restricted text_beq
restricted_admin = refl

restricted_everyone : restricted (codes "everyone") ≡ some everyone_commands
unfolding restricted text_beq
restricted_everyone = refl

levels_of_user : levels_of (codes "user") ≡ codes "user" ∷ codes "everyone" ∷ []
unfolding levels_of text_beq contains
levels_of_user = refl

levels_of_mod : levels_of (codes "mod") ≡ codes "user" ∷ codes "mod" ∷ codes "everyone" ∷ []
unfolding levels_of text_beq contains
levels_of_mod = refl

levels_of_admin :
    levels_of (codes "admin") ≡ codes "mod" ∷ codes "user" ∷ codes "admin" ∷ codes "everyone" ∷ []
unfolding levels_of text_beq contains
levels_of_admin = refl

allowed_cons :
    (command level : Text) (commands levels : List Text)
    → restricted level ≡ some commands
    → is_allowed command (level ∷ levels)
      ≡ (if contains command commands then some true else is_allowed command levels)
unfolding is_allowed
allowed_cons command level commands levels e = rw (e, is_allowed) refl

allowed_everyone :
    (command : Text)
    → is_allowed command (codes "everyone" ∷ [])
      ≡ (if contains command everyone_commands then some true else some false)
unfolding is_allowed
allowed_everyone command =
    allowed_cons command (codes "everyone") everyone_commands [] restricted_everyone

widen :
    (u m a e : Bool)
    → ((if u then some true else if e then some true else some false) ≡ some true
        → (if u then some true else if m then some true else if e then some true else some false)
          ≡ some true)
      × ((if u then some true else if m then some true else if e then some true else some false)
            ≡ some true
          → (if m
              then some true
              else if u
              then some true
              else if a
              then some true
              else if e
              then some true
              else some false)
            ≡ some true)
widen u m a e = (λ h. ground arith, λ h. ground arith)

-- What a user may call a moderator may call, and what a moderator may call an administrator may
-- call, each with the levels that `_calc_access` gives.
levels_inherit :
    (command : Text)
    → (is_allowed command (levels_of (codes "user")) ≡ some true
        → is_allowed command (levels_of (codes "mod")) ≡ some true)
      × (is_allowed command (levels_of (codes "mod")) ≡ some true
          → is_allowed command (levels_of (codes "admin")) ≡ some true)
levels_inherit command =
    let last = codes "everyone" ∷ [] in
    let admin = codes "admin" ∷ last in
    let mod_last = codes "mod" ∷ last in
    let e0 = allowed_everyone command in
    let e1 = allowed_cons command (codes "user") user_commands last restricted_user in
    let e2 = allowed_cons command (codes "mod") mod_commands last restricted_mod in
    let e3 = allowed_cons command (codes "user") user_commands mod_last restricted_user in
    let e4 = allowed_cons command (codes "admin") admin_commands last restricted_admin in
    let e5 = allowed_cons command (codes "user") user_commands admin restricted_user in
    let e6 =
      allowed_cons command (codes "mod") mod_commands (codes "user" ∷ admin) restricted_mod in
    rw (levels_of_user, levels_of_mod, levels_of_admin)
      (rw (e1, e3, e2, e6, e5, e4, e0)
        (widen (contains command user_commands) (contains command mod_commands)
          (contains command admin_commands) (contains command everyone_commands)))
