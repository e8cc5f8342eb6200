-- ===== src/Examples/Battles.antt =====
-- The theorems about battles in the small lobby.
use uberserver.Base.{
  ◌==◌, ℕ, ◌≡◌, refl, true, false, [], none, some, arith, text_eq, nat_eq, text_beq, eqb, ◌⊎◌,
}
use uberserver.Base.Dict.{contains, lookup, add}
use uberserver.Base.Int.{pos, parse_int, digit_groups, parse_unsigned, ◌-ℤ◌}
use uberserver.Base.Text.{codes, strip, lstrip, rstrip, decimal_from}
use uberserver.Syntax.Numbers.{int32, dec2bin, bits_from, rjust, repeat_char, bin2dec, bin_from}
use uberserver.Server.Types.{Root, Channel}
use uberserver.Server.Store.{client_from_session}
use uberserver.Server.Outcome.{done, after}
use uberserver.Channel.Access.{is_founder, is_mod, is_admin}
use uberserver.Channel.Members.{
  add_user, admit, announce_join, send_channel_state, bridged_names, member_names, send_lists,
}
use uberserver.Battle.Status.{calc_battlestatus, fresh_battle, status_bits}
use uberserver.Battle.Join.{
  join_battle, brief, announce_unless_host, send_ip_port, send_statuses, send_settings,
  enter_battle, host_of, announce_joiner,
}
use uberserver.Battle.Join.Entry.{join_battle_enters}
use uberserver.Battle.Leave.{leave_battle, remove_battle, dismiss_pending, dismiss_users}
use uberserver.Server.Store.{client_from_session}
use uberserver.Battle.Leave.Exit.{leave_battle_leaves}
use uberserver.Battle.Leave.Closed.{remove_battle_dismisses}
use uberserver.Protocol.Battles.{battle_with_id, in_joinbattle, close_battle}
use uberserver.Protocol.Battles.Gate.{SameMembers, joinbattle_keeps_out}
use uberserver.Protocol.Battles.Closing.{close_battle_removes}
use uberserver.Battle.Status.{spectator_count}
use uberserver.Protocol.Players.Counted.{change_status_counts}
use uberserver.Protocol.Players.{
  change_status, tell_status, last_32, drop, field, status_of_bits, granted_mode,
}
use uberserver.Protocol.Players.Stored.{change_status-calc}
use uberserver.Protocol.Address.{translated_ip, add_battle_lines}
use uberserver.Protocol.Address.Reachable.{relayed_battle_hides_host, ByLan}
use uberserver.Protocol.Options.{
  set_script_tags, remove_script_tags, add_start_rect, remove_start_rect, disable_units,
  enable_units, enable_all_units,
}
use uberserver.Protocol.Options.Effects.{OwnOnly, settings_guarded}
use uberserver.Examples.{world, bobs, bob, cid}

join_battle_enters_example :
    let s = after (join_battle 3 1 world) in
    (contains 3 (s.channel_at 1).users ≡ true)
    × ((s.channel_at 1).battle ≡ bobs.battle)
    × ((s.client_at 3).current_battle ≡ some 7)
unfolding join_battle add_user admit announce_join send_channel_state send_lists bridged_names
    member_names brief announce_unless_host send_ip_port send_statuses host_of enter_battle
    calc_battlestatus status_bits bin2dec bin_from client_from_session contains add text_beq
    send_settings announce_joiner
join_battle_enters_example = join_battle_enters 3 1 world (after (join_battle 3 1 world)) refl

leave_battle_leaves_example :
    let s = after (leave_battle 2 1 world) in
    ((s.client_at 2).current_battle ≡ none) × (contains 2 (s.channel_at 1).users ≡ false)
leave_battle_leaves_example = leave_battle_leaves 2 1 world

abbrev closed : Root
closed = after (remove_battle 1 world)

closing_returns : remove_battle 1 world ≡ done closed
unfolding remove_battle dismiss_pending dismiss_users client_from_session contains
closing_returns = refl

remove_battle_dismisses_example :
    ((closed.channel_at 1).battle ≡ fresh_battle)
    × ((j : ℕ)
        → contains j (world.channel_at 1).users ≡ true
        → ((closed.client_at j).current_battle ≡ none)
          × ((closed.client_at j).battle_bots ≡ [])
          × (((world.client_at j).username == codes "ChanServ") ≡ false
              → contains j (closed.channel_at 1).users ≡ false))
    × ((j : ℕ)
        → contains j (world.channel_at 1).battle.pending_users ≡ true
        → (closed.client_at j).pending_battle ≡ none)
remove_battle_dismisses_example = remove_battle_dismisses 1 world closed closing_returns

joinbattle_keeps_out_example :
    SameMembers world (after (in_joinbattle 3 (codes "7") (some (codes "guess")) none world))
unfolding int32 parse_int parse_unsigned digit_groups decimal_from strip lstrip rstrip
    battle_with_id lookup is_founder is_mod is_admin contains text_beq
joinbattle_keeps_out_example =
    joinbattle_keeps_out 3 (codes "7") (some (codes "guess")) none world (pos 7) 1 refl refl
      (refl, refl)

close_battle_removes_example :
    let s = after (close_battle 1 7 world) in
    (lookup 7 s.battles ≡ none)
    × ((k : ℕ) → eqb k 7 ≡ false → lookup k s.battles ≡ lookup k world.battles)
unfolding lookup text_beq
close_battle_removes_example = close_battle_removes 1 7 world refl

-- Ready, team 3, playing.
abbrev some_status : ℕ
some_status = 1038

abbrev relayed : Channel
relayed = record bobs { battle = record bobs.battle { relayed_ip = some (codes "7.7.7.7") } }

-- Whether Bob's addresses are others makes no difference.
relayed_battle_hides_host_example :
    (add_battle_lines world bob cid relayed
      ≡ add_battle_lines world (record bob { ip_address = codes "1.2.3.4" }) cid relayed)
    × (((translated_ip world bob cid relayed.battle ≡ none) × ByLan world cid relayed.battle)
        ⊎ ((translated_ip world bob cid relayed.battle ≡ some (codes "7.7.7.7"))
            × (ByLan world cid relayed.battle → ⊥)))
relayed_battle_hides_host_example =
    relayed_battle_hides_host world bob (record bob { ip_address = codes "1.2.3.4" }) cid relayed
      refl refl

settings_guarded_example :
    OwnOnly 1 world (after (set_script_tags 1 (codes "a=b") world))
    × OwnOnly 1 world (after (remove_script_tags 1 (codes "a=b") world))
    × OwnOnly 1 world (
        after
          (add_start_rect 1 (codes "a=b") (codes "0") (codes "0") (codes "9") (codes "9") world))
    × OwnOnly 1 world (after (remove_start_rect 1 (codes "a=b") world))
    × OwnOnly 1 world (after (disable_units 1 (codes "a=b") world))
    × OwnOnly 1 world (after (enable_units 1 (codes "a=b") world))
    × OwnOnly 1 world (after (enable_all_units 1 world))
settings_guarded_example =
    settings_guarded 1 world (codes "a=b") (codes "0") (codes "0") (codes "9") (codes "9")

-- Bob, a spectator of his own battle for two players, asks for a place in the game.
abbrev two_players : Root
two_players = record world {
  channel_at = λ k. record bobs { battle = record bobs.battle { maxplayers = pos 2 } };
}

abbrev after_status : Root
after_status = after (change_status 2 1 some_status (pos 0) two_players)

status_returns : change_status 2 1 some_status (pos 0) two_players ≡ done after_status
unfolding contains change_status calc_battlestatus status_bits bin2dec bin_from tell_status
    uberserver.Protocol.Players.announce_count granted_mode text_beq ◌-ℤ◌ spectator_count drop
    last_32 dec2bin status_of_bits lookup uberserver.Server.Cast.receives
status_returns = refl

change_status_counts_example :
    let s = after_status in
    (s.channel_at 1).battle.spectators ≡ pos (spectator_count s (s.channel_at 1).users)
unfolding contains
change_status_counts_example =
    change_status_counts 2 1 some_status (pos 0) two_players after_status (omega arith) refl refl
      (refl, tt) status_returns

change_status-calc_example :
    calc_battlestatus (after_status.client_at 2).battlestatus ≡ some some_status
unfolding drop dec2bin bits_from rjust repeat_char granted_mode text_beq ◌-ℤ◌ spectator_count
    last_32 contains
change_status-calc_example =
    change_status-calc 2 1 some_status (pos 0) two_players after_status (omega arith) refl refl refl
      refl refl status_returns
