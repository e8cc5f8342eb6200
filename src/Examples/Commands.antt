-- ===== src/Examples/Commands.antt =====
-- The theorems about commands and rights in the small lobby.
use uberserver.Base.{
  ◌≡◌, refl, true, false, [], ◌∷◌, none, some, text_eq, nat_eq, text_beq, text_beq_iff, inl, inr,
  if◌then◌else◌, ◌==◌, Bool-cases, arith,
}
use uberserver.Base.Dict.{contains, lookup}
use uberserver.Base.Text.{Text, codes, lstrip_char}
use uberserver.Server.Types.{Root}
use uberserver.Server.Outcome.{done, after, raised}
use uberserver.Channel.Access.{is_founder, is_mod, is_admin}
use uberserver.Channel.Members.{remove_user}
use uberserver.Protocol.Dispatch.{Handlers, dispatch, handle, is_allowed, restricted}
use uberserver.Protocol.Dispatch.Guards.{handle_restores_msg_id, dispatch-SameHandler}
use uberserver.Protocol.Rooms.{in_join, in_leave}
use uberserver.Protocol.Rooms.Entrance.{SameUsers, join_keeps_out}
use uberserver.Protocol.Rooms.Exit.{leave_leaves, in_use}
use uberserver.Examples.{world}

-- Handlers that take one argument and clear the log.
abbrev forgetful : Handlers
forgetful = record {
  total_args = λ _. 1;
  optional_args = λ _. 0;
  run = λ _ _ _ r. done (record r { sent = [] });
}

handle_restores_msg_id_example :
    ((after (handle forgetful 1 (codes "#7 JOIN main") world)).client_at 1).msg_id ≡ []
handle_restores_msg_id_example = handle_restores_msg_id forgetful 1 (codes "#7 JOIN main") world

-- The same, but KICK raises.
abbrev harmless_kick : Handlers
harmless_kick = record forgetful {
  run =
      λ command _ _ r. if command == codes "KICK" then raised r else done (record r { sent = [] });
}

to_kick : (command : Text) → (command == codes "KICK") ≡ true → command ≡ codes "KICK"
to_kick command h = ground (arith, h, text_beq_iff command (codes "KICK"))

kick_refused : is_allowed (codes "KICK") (codes "user" ∷ codes "everyone" ∷ []) ≡ some true → ⊥
unfolding is_allowed restricted contains text_beq
kick_refused h = absurd cc

-- A user may not call KICK.
kick_denied :
    (command : Text)
    → is_allowed command (codes "user" ∷ codes "everyone" ∷ []) ≡ some true
    → (command == codes "KICK") ≡ false
kick_denied command allowed = elim (Bool-cases (command == codes "KICK")) [
  | inr other ↦ other
  | inl kick ↦ absurd (kick_refused (rw (to_kick command kick) at allowed))
]

dispatch-SameHandler_example :
    dispatch forgetful 1 (codes "kick bob") world
    ≡ dispatch harmless_kick 1 (codes "kick bob") world
dispatch-SameHandler_example =
    dispatch-SameHandler forgetful harmless_kick 1 (codes "kick bob") world
      (λ command known allowed. (refl, refl, λ sid args r. rw (kick_denied command allowed) refl))

join_keeps_out_example : SameUsers world (after (in_join 3 (codes "#main") none world))
unfolding lstrip_char lookup text_beq is_founder is_mod is_admin contains
join_keeps_out_example = join_keeps_out 3 (codes "#main") none world 0 refl (refl, refl)

leave_leaves_example :
    (s : Root) × (in_leave 1 (codes "main") none world ≡ done s)
    × (contains 1 (s.channel_at 0).users ≡ false)
    × (in_use (remove_user 1 0 none world) 0 ≡ false → lookup (codes "main") s.channels ≡ none)
unfolding lookup contains text_beq
leave_leaves_example = leave_leaves 1 (codes "main") none world 0 refl refl refl
