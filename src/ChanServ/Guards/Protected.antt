-- ===== src/ChanServ/Guards/Protected.antt =====
-- Operators are safe from the commands of ChanServ.py, `HandleCommand`, that act on users; and `op`
-- makes operators.
use uberserver.Base.{
  ℕ, suc, ◌≡◌, refl, true, false, some, arith, text_eq, nat_eq, Option-cases, inl, inr, ◌⊎◌, sym,
  subst, if◌then◌else◌,
}
use uberserver.Base.Text.{Text}
use uberserver.Server.Types.{Root, Message}
use uberserver.Server.Outcome.{Outcome, done, raised, after}
use uberserver.Server.Accounts.{UserDb, find_username}
use uberserver.Channel.Access.{Person, is_op}
use uberserver.Channel.Penalties.{op_user}
use uberserver.Channel.Penalties.Operators.{IsOperator, op_user-target}
use uberserver.ChanServ.{
  Answer, answered, reply_after, Call, governor, officer, given, Duration, lasting, unreadable,
  overflows, parse_duration,
}
use uberserver.ChanServ.Governing.{op_command}
use uberserver.ChanServ.Policing.{
  mute_command, mute_target, ban_command, ban_target, kick_command, three_words, is_bridged_name,
  timed, ban_bridged_target,
}

Duration-cases : (d : Duration) → ((s : ℕ) × (d ≡ lasting s)) ⊎ ((d ≡ unreadable) ⊎ (d ≡ overflows))
Duration-cases (lasting s) = inl (s, refl)
Duration-cases unreadable = inr (inl refl)
Duration-cases overflows = inr (inr refl)

-- Whatever the duration says.
timed_same :
    (k : Call) (f : Text → ℕ → Text → Answer) (r : Root) (args name duration reason : Text)
    → k.args ≡ some args
    → three_words args ≡ some (name, duration, reason)
    → ((s : ℕ) → answered (f name s reason) ≡ r)
    → answered (timed k f r) ≡ r
timed_same k f r args name duration reason g w h =
    rw (g, timed)
      (rw w (elim (Duration-cases (parse_duration duration)) [
        | inl (s, e) ↦ rw e (h s)
        | inr (inl e) ↦ rw e refl
        | inr (inr e) ↦ rw e refl
      ]))

answered-reply_after : (m : Message) (o : Outcome) → answered (reply_after m o) ≡ after o
answered-reply_after m (done r) = refl
answered-reply_after m (raised r) = refl

module _ (limit : ℕ) (users : UserDb) (k : Call) (r : Root) (name : Text) (target : Person)
    (found : find_username users r name ≡ some target)
    (op : is_op (r.channel_at k.ref) target ≡ true) where
  mute_target_op :
      (c : Person) (seconds : ℕ) (reason : Text)
      → answered (mute_target limit users k c name seconds reason r) ≡ r
  unfolding mute_target
  mute_target_op c seconds reason = ground arith

  ban_target_op :
      (c : Person) (seconds : ℕ) (reason : Text)
      → answered (ban_target limit users k c name seconds reason r) ≡ r
  unfolding ban_target
  ban_target_op c seconds reason = rw (found, ban_target) (rw op refl)

  mute_op :
      (args duration reason : Text)
      → k.args ≡ some args
      → three_words args ≡ some (name, duration, reason)
      → answered (mute_command limit users k r) ≡ r
  unfolding mute_command
  mute_op args duration reason g w = elim (Option-cases (officer k r)) [
    | inl low ↦ rw (low, mute_command) refl
    | inr (c, high) ↦
        rw (high, mute_command)
          (timed_same k
            (λ name' seconds reason'. mute_target limit users k c name' seconds reason' r) r args
            name duration reason g w (λ s. mute_target_op c s reason))
  ]

  ban_op :
      (args duration reason : Text)
      → is_bridged_name name ≡ false
      → k.args ≡ some args
      → three_words args ≡ some (name, duration, reason)
      → answered (ban_command limit users k r) ≡ r
  unfolding ban_command
  ban_op args duration reason plain g w = elim (Option-cases (officer k r)) [
    | inl low ↦ rw (low, ban_command) refl
    | inr (c, high) ↦
        rw (high, ban_command)
          (timed_same k
            (λ name' seconds reason'.
              if is_bridged_name name'
              then ban_bridged_target limit users k c name' seconds reason' r
              else ban_target limit users k c name' seconds reason' r)
            r args name duration reason g w (λ s. rw plain (ban_target_op c s reason)))
  ]

  kick_op : given k.args ≡ some name → answered (kick_command limit users k r) ≡ r
  unfolding kick_command
  kick_op g = elim (Option-cases (officer k r)) [
    | inl low ↦ rw (low, kick_command) refl
    | inr (c, high) ↦ rw (high, kick_command) (rw g (rw found (ground arith)))
  ]

-- Nobody, the founder and the moderators included, can mute, ban or kick an operator of the channel
-- with the commands `mute`, `ban` and `kick` that name the operator: they change nothing at all. The
-- commands are those of a user whose name has no colon in it.
pub operators_protected :
    (limit : ℕ) (users : UserDb) (k : Call) (r : Root) (name duration reason args : Text)
    (target : Person)
    → find_username users r name ≡ some target
    → is_op (r.channel_at k.ref) target ≡ true
    → is_bridged_name name ≡ false
    → three_words args ≡ some (name, duration, reason)
    → given (some name) ≡ some name
    → let timed_call : Call = record k { args = some args } in
      (answered (mute_command limit users timed_call r) ≡ r)
      × (answered (ban_command limit users timed_call r) ≡ r)
      × (answered (kick_command limit users (record k { args = some name }) r) ≡ r)
operators_protected limit users k r name duration reason args target found op plain w g =
    let timed_call : Call = record k { args = some args } in
    (
      mute_op limit users timed_call r name target found op args duration reason refl w,
      ban_op limit users timed_call r name target found op args duration reason plain refl w,
      kick_op limit users (record k { args = some name }) r name target found op g,
    )

-- When a founder or moderator names somebody who is no operator yet to `op`, that user is an operator
-- of the channel afterwards, however the calls on its forwards end.
op_command_grants :
    (limit : ℕ) (users : UserDb) (k : Call) (r : Root) (c target : Person) (name : Text)
    → governor k r ≡ some c
    → given k.args ≡ some name
    → find_username users r name ≡ some target
    → is_op (r.channel_at k.ref) target ≡ false
    → IsOperator (answered (op_command (suc limit) users k r)) k.ref target.user_id
unfolding op_command
op_command_grants limit users k r c target name g a f new =
    rw (g, op_command)
      (rw (a, f, new)
        (subst (λ (x : Root). IsOperator x k.ref target.user_id)
          (sym (answered-reply_after _ (op_user (suc limit) k.ref c target r)))
          (op_user-target c target limit k.ref r)))
