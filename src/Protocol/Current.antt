-- ===== src/Protocol/Current.antt =====
-- protocol/Protocol.py: `getCurrentBattle`, and the guards that the battle commands begin with.
use uberserver.Base.{ℕ, Option, none, some, if◌then◌else◌, eqb, nat_eq, text_eq}
use uberserver.Base.Dict.{lookup, contains}
use uberserver.Base.Text.{Text}
use uberserver.Server.Types.{Root, Message}
use uberserver.Server.Store.{client_from_username}
use uberserver.Server.Cast.{broadcast_battle, everyone}
use uberserver.Server.Outcome.{Outcome, raised}
use uberserver.Channel.Access.{can_change_settings}

-- `False` is `none`; the battle id 0 is as good as none.
unfoldable pub get_current_battle : Root → ℕ → Option ℕ
get_current_battle r sid = elim (r.client_at sid).current_battle [
  | none ↦ none
  | some battle_id ↦ if eqb battle_id 0 then none else lookup battle_id r.battles
]

-- `if not battle or not battle.canChangeSettings(client): return`
unfoldable pub owned_battle : Root → ℕ → Option ℕ
unfolding get_current_battle can_change_settings
owned_battle r sid = elim (get_current_battle r sid) [
  | none ↦ none
  | some ref ↦ if can_change_settings (r.channel_at ref) (r.client_at sid) then some ref else none
]

-- `if not user or not user.session_id in battle.users: return`
unfoldable pub member_called : Root → ℕ → Text → Option ℕ
unfolding client_from_username
member_called r ref username = elim (client_from_username r username) [
  | none ↦ none
  | some user ↦ if contains user (r.channel_at ref).users then some user else none
]

-- `self._root.broadcast_battle(m, client.current_battle)`, which asserts that the id is a number.
unfoldable pub tell_current : ℕ → Message → Root → Outcome
unfolding broadcast_battle
tell_current sid m r = elim (r.client_at sid).current_battle [
  | none ↦ raised r
  | some battle_id ↦ broadcast_battle m battle_id everyone r
]
