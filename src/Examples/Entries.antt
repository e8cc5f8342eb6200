-- ===== src/Examples/Entries.antt =====
-- A login in the small lobby.
use uberserver.Base.{
  ◌∷◌, refl, true, false, [], arith, eqb, eqb_iff, if◌then◌else◌, Bool-cases, inl, inr, nat_eq,
}
use uberserver.Base.Dict.{lookup}
use uberserver.Base.Text.{codes}
use uberserver.Server.Types.{Root, Client}
use uberserver.Server.Outcome.{after}
use uberserver.Users.Login.{Snapshot, login_finish_now}
use uberserver.Users.Login.Once.{Entered, OneLogin, login_finish_now-OneLogin}
use uberserver.Examples.{world, ada, bob, cid}

-- ChanServ, which is logged in and in no table of ids, the three of the small lobby, and a client that has
-- just connected.
abbrev newcomer : Client
newcomer = record cid { logged_in = false }

abbrev chanserv : Client
chanserv = record cid { user_id = 0; static = true; username = codes "ChanServ" }

abbrev lobby : Root
lobby = record world {
  client_at = λ k.
      if eqb k 0
      then chanserv
      else if eqb k 1
      then ada
      else if eqb k 2
      then bob
      else if eqb k 3
      then cid
      else newcomer;
  clients = 0 ∷ 1 ∷ 2 ∷ 3 ∷ 4 ∷ [];
  usernames = (codes "ChanServ", 0) ∷ world.usernames;
}

lobby-Entered : Entered lobby
unfolding lookup
lobby-Entered s (_, plain, logged) = elim (Bool-cases (eqb s 0)) [
  | inl zero ↦ absurd (ground (arith, plain, zero))
  | inr not_zero ↦ elim (Bool-cases (eqb s 1)) [
    | inl one ↦ ground (arith, one, eqb_iff s 1)
    | inr not_one ↦ elim (Bool-cases (eqb s 2)) [
      | inl two ↦ ground (arith, two, not_one, eqb_iff s 2)
      | inr not_two ↦ elim (Bool-cases (eqb s 3)) [
        | inl three ↦ ground (arith, three, not_one, not_two, eqb_iff s 3)
        | inr new ↦ absurd (ground (arith, logged, new, not_zero, not_one, not_two))
      ]
    ]
  ]
]

-- Ada's account once more.
abbrev adas : Snapshot
adas = record {
  account = record {
    user_id = 101;
    username = codes "ada";
    last_ip = codes "9.9.9.9";
    access = codes "user";
    bot = false;
  };
  ingame_time = 0;
  ignored = [];
}

login_finish_now-OneLogin_example :
    let s = after (login_finish_now (λ _. true) 4 adas (codes "lobby") (codes "10.0.0.9") lobby) in
    Entered s × OneLogin s
login_finish_now-OneLogin_example =
    login_finish_now-OneLogin (λ _. true) 4 adas (codes "lobby") (codes "10.0.0.9") lobby
      lobby-Entered refl
