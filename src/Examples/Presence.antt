-- ===== src/Examples/Presence.antt =====
-- Bridged users, games and disconnections in the small lobby. Cid is the bridge of the location irc,
-- from where Ann comes.
use uberserver.Base.{
  ℕ, ◌≡◌, refl, true, not, [], ◌∷◌, some, eqb, if◌then◌else◌, text_eq, nat_eq, text_beq,
}
use uberserver.Base.Dict.{Dict, lookup, contains}
use uberserver.Base.Int.{pos, parse_int}
use uberserver.Base.Text.{Text, codes}
use uberserver.Syntax.Numbers.{int32}
use uberserver.Server.Types.{Root, BridgedClient}
use uberserver.Server.Store.{client_from_id}
use uberserver.Server.Outcome.{done, after}
use uberserver.Server.Delivery.{Answered}
use uberserver.Protocol.Bridge.{
  bridged_client, in_joinfrom, in_leavefrom, in_unbridgeclientfrom, in_sayfrom,
}
use uberserver.Protocol.Bridge.Owned.{bridge_owned}
use uberserver.Protocol.Bridge.Admission.{install}
use uberserver.Protocol.Bridge.Restored.{unbridge-install}
use uberserver.Protocol.Presence.{in_mystatus}
use uberserver.Protocol.Presence.Played.{mystatus_counts}
use uberserver.Examples.{world, ada, bob, cid, no_bridged}

abbrev ann : BridgedClient
ann = record no_bridged {
  bridged_id = 5;
  external_id = codes "x1";
  location = codes "irc";
  external_username = codes "ann";
  username = codes "ann:irc";
  bridge_user_id = 103;
}

abbrev anns : Dict Text ℕ
anns = (codes "x1", 5) ∷ []

abbrev bridging : Root
bridging = record world {
  client_at = λ k.
      if eqb k 1
      then ada
      else if eqb k 2
      then bob
      else record cid { bridge = (codes "irc", anns) ∷ [] };
  bridged_at = λ _. ann;
  bridged_locations = (codes "irc", 103) ∷ [];
  bridged_ids = 5 ∷ [];
  bridged_usernames = (codes "ann:irc", 5) ∷ [];
}

bridge_owned_example :
    Answered 1 bridging (after (in_joinfrom 1 (codes "main") (codes "irc") (codes "x1") bridging))
    × Answered 1 bridging
        (after (in_leavefrom 1 (codes "main") (codes "irc") (codes "x1") bridging))
    × Answered 1 bridging (after (in_unbridgeclientfrom 1 (codes "irc") (codes "x1") bridging))
    × (in_sayfrom 1 (codes "main") (codes "irc") (codes "x1") (codes "hi") bridging ≡ done bridging)
unfolding bridged_client client_from_id lookup contains text_beq
bridge_owned_example =
    bridge_owned 1 (codes "main") (codes "irc") (codes "x1") (codes "hi") 5 bridging refl refl

unbridge-install_example :
    (s : Root) × (in_unbridgeclientfrom 3
        (codes "irc")
        (codes "x2")
        (install 3 (codes "irc") (codes "x2") (codes "ben") 6 anns bridging)
      ≡ done s)
    × (s.bridged_ids ≡ 5 ∷ [])
    × (s.bridged_usernames ≡ (codes "ann:irc", 5) ∷ [])
    × ((s.client_at 3).bridge ≡ (codes "irc", anns) ∷ [])
    × (s.bridged_locations ≡ (codes "irc", 103) ∷ [])
unfolding client_from_id lookup contains text_beq
unbridge-install_example =
    unbridge-install 3 (codes "irc") (codes "x2") (codes "ben") 6 anns bridging
      (refl, refl, refl, refl) (refl, refl, refl)

-- Bob has been in a game for five minutes.
abbrev playing : Root
playing = record world { client_at = λ _. record bob { is_ingame = true; went_ingame = some 200 } }

mystatus_counts_example :
    let s = after (in_mystatus 2 (codes "0") playing) in
    (s.client_at 2).ingame_time ≡ (if not (s.client_at 2).is_ingame then 5 else 0)
unfolding int32 parse_int in_mystatus contains text_beq
mystatus_counts_example = mystatus_counts 2 (codes "0") (pos 0) playing refl
