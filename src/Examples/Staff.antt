-- ===== src/Examples/Staff.antt =====
-- SETACCESS in the small lobby.
use uberserver.Base.{text_beq, ℕ, ◌≡◌, refl, false, List, [], ◌∷◌, none, nat_eq, eqb, if◌then◌else◌}
use uberserver.Base.Dict.{lookup, contains}
use uberserver.Base.Text.{codes}
use uberserver.Server.Types.{Root}
use uberserver.Server.Outcome.{done, after}
use uberserver.Server.Accounts.{UserDb, find_username}
use uberserver.Channel.Access.{person}
use uberserver.Protocol.Staff.{in_setaccess}
use uberserver.Protocol.Staff.Unignored.{setaccess_unignores}
use uberserver.Examples.{world, ada, bob, cid}

-- Cid ignores Bob, and nobody is known who is not online.
abbrev grumbling : Root
grumbling = record world {
  client_at =
      λ k. if eqb k 1 then ada else if eqb k 2 then bob else record cid { ignored = 102 ∷ [] };
}

abbrev nobody_else : UserDb
nobody_else = record {
  by_username = λ _. none;
  by_id = λ _. none;
  bridged_by_username = λ _. none;
  bridged_by_id = λ _. none;
}

abbrev ignoring_bob : ℕ → List ℕ
ignoring_bob _ = 103 ∷ []

abbrev promoted : Root
promoted = after (in_setaccess nobody_else ignoring_bob 1 (codes "bob") (codes "mod") grumbling)

returns :
    in_setaccess nobody_else ignoring_bob 1 (codes "bob") (codes "mod") grumbling ≡ done promoted
unfolding in_setaccess lookup contains text_beq
returns = refl

setaccess_unignores_example : contains 102 (promoted.client_at 3).ignored ≡ false
unfolding lookup contains find_username text_beq
setaccess_unignores_example =
    setaccess_unignores nobody_else ignoring_bob 1 103 3 (codes "bob") (codes "mod")
      (person (grumbling.client_at 2)) grumbling promoted refl refl returns refl refl
