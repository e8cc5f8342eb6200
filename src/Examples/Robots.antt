-- ===== src/Examples/Robots.antt =====
-- The theorems about ChanServ in the small lobby.
use uberserver.Base.{
  ℕ, ◌≡◌, refl, true, false, ◌∷◌, [], nat_eq, none, some, arith, inl, text_beq, text_eq, Option,
}
use uberserver.Base.Dict.{contains, lookup}
use uberserver.Base.Text.{
  Text, codes, lower, lower_char, split_at_most, partition, starts_with, has_substring,
}
use uberserver.Server.Types.{Root, Message}
use uberserver.Server.Store.{client_from_username}
use uberserver.Server.Outcome.{done}
use uberserver.Server.Accounts.{UserDb, find_username}
use uberserver.Channel.Access.{person, is_admin, is_mod, is_founder, is_op, get_access}
use uberserver.ChanServ.{Call, answered, governor, access_of, says}
use uberserver.ChanServ.Governing.{op_command}
use uberserver.ChanServ.Policing.{mute_command, ban_command, kick_command, three_words}
use uberserver.ChanServ.Commands.{handle_command}
use uberserver.ChanServ.Guards.Ranks.{ranks_hold}
use uberserver.ChanServ.Guards.Protected.{operators_protected}
use uberserver.ChanServ.Forwarding.{IntoBattles, op_command_ops}
use uberserver.Channel.Penalties.Operators.{IsOperator}
use uberserver.Examples.{world, ada, bob}

abbrev pub no_accounts : UserDb
no_accounts = record {
  by_username = λ _. none;
  by_id = λ _. none;
  bridged_by_username = λ _. none;
  bridged_by_id = λ _. none;
}

bob_founds_nothing : (ref : ℕ) → is_founder (world.channel_at ref) (person bob) ≡ false
unfolding is_founder is_mod is_admin contains text_beq
bob_founds_nothing ref = ground arith

ranks_hold_example :
    answered (
      handle_command 2 no_accounts
        (λ _ r. done r)
        (codes "bob")
        (codes "OP")
        (some (codes "main"))
        (some (codes "cid"))
        world)
    ≡ world
unfolding client_from_username lookup text_beq is_mod is_admin contains lower lower_char
ranks_hold_example =
    ranks_hold (λ _ r. done r) 2 no_accounts (codes "bob") (codes "OP") (some (codes "main"))
      (some (codes "cid")) 2 world refl refl
      (λ name e ref found. (bob_founds_nothing ref, inl refl))

abbrev by_ada : Option Text → Call
by_ada args = record {
  user = codes "ada";
  client = some (person ada);
  chan = codes "main";
  ref = 0;
  args = args;
}

operators_protected_example :
    (answered (mute_command 2 no_accounts (by_ada (some (codes "ada 5 fun"))) world) ≡ world)
    × (answered (ban_command 2 no_accounts (by_ada (some (codes "ada 5 fun"))) world) ≡ world)
    × (answered (kick_command 2 no_accounts (by_ada (some (codes "ada"))) world) ≡ world)
unfolding find_username client_from_username lookup text_beq is_op is_founder contains has_substring
    starts_with three_words split_at_most partition
operators_protected_example =
    operators_protected 2 no_accounts (by_ada none) world (codes "ada") (codes "5") (codes "fun")
      (codes "ada 5 fun") (person ada) refl refl refl refl refl

world-IntoBattles : IntoBattles world
unfolding lookup text_beq contains
world-IntoBattles = record {
  named = λ name k e.
      ground
        (arith, text_eq.beq_iff name (codes "main"), text_eq.beq_iff name (codes "__battle__102"));
  ends = λ k b. ground arith;
  battles = λ k j name m e.
      ground
        (arith, text_eq.beq_iff name (codes "main"), text_eq.beq_iff name (codes "__battle__102"));
}

op_command_ops_example :
    (m : Message) × (s : Root) × (op_command 2 no_accounts (by_ada (some (codes "bob"))) world
      ≡ says (m ∷ []) s)
    × IsOperator s 0 102
    × ((chan : Text) (j : ℕ)
        → contains chan (world.channel_at 0).forwards ≡ true
        → lookup chan world.channels ≡ some j
        → IsOperator s j 102)
unfolding find_username client_from_username lookup text_beq is_op is_founder is_mod is_admin
    contains governor access_of get_access
op_command_ops_example =
    op_command_ops 0 no_accounts (by_ada (some (codes "bob"))) (person ada) (person bob)
      (codes "bob") world world-IntoBattles refl refl refl refl
