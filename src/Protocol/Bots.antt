-- ===== src/Protocol/Bots.antt =====
-- protocol/Protocol.py: `in_ADDBOT`, `in_UPDATEBOT`, `in_REMOVEBOT`, `in_RING`, `is_ignored`.
use uberserver.Base.{
  ℕ, Bool, false, ◌&&◌, ◌||◌, not, [], ◌∷◌, Option, none, some, if◌then◌else◌, ◌==◌, text_eq,
  nat_eq, eqb,
}
use uberserver.Base.Dict.{lookup, insert, erase, contains, has_key}
use uberserver.Base.Text.{Text, codes}
use uberserver.Server.Types.{Root, Client, Bot, Message, lit, txt}
use uberserver.Server.Store.{set_client, set_battle, has_level, client_from_username}
use uberserver.Server.Cast.{send, out_failed}
use uberserver.Server.Outcome.{Outcome, done, raised}
use uberserver.Battle.Status.{optional_nat}
use uberserver.Battle.Leave.{tell_battle}
use uberserver.Protocol.Current.{get_current_battle}

abbrev pub no_battle : Message
no_battle = lit "Couldn't find battle" ∷ []

-- `client.battle_bots[name] = battle.battle_id`; a battle that is open has an id.
unfoldable pub note_bot : ℕ → Text → Option ℕ → Root → Root
note_bot sid name none r = r
note_bot sid name (some battle_id) r =
    set_client sid (λ c. record c { battle_bots = insert name battle_id c.battle_bots }) r

unfoldable pub add_bot : ℕ → Text → Text → Text → Text → Root → Outcome
unfolding get_current_battle out_failed tell_battle note_bot
add_bot sid name battlestatus teamcolor ai_dll r = elim (get_current_battle r sid) [
  | none ↦ done (out_failed sid "ADDBOT" no_battle r)
  | some ref ↦
      let b = (r.channel_at ref).battle in
      let owner = (r.client_at sid).username in
      if has_key name b.bots
      then done (out_failed sid "ADDBOT" (lit "Bot already exists!" ∷ []) r)
      else tell_battle ref
          (lit "ADDBOT "
            ∷ optional_nat b.battle_id
            ∷ lit " "
            ∷ txt name
            ∷ lit " "
            ∷ txt owner
            ∷ lit " "
            ∷ txt battlestatus
            ∷ lit " "
            ∷ txt teamcolor
            ∷ lit " "
            ∷ txt ai_dll
            ∷ [])
          (set_battle ref
            (λ b. record b {
              bots =
                  insert name
                    (record {
                      owner = owner;
                      status = battlestatus;
                      color = teamcolor;
                      ai_dll = ai_dll;
                    })
                    b.bots;
            })
            (note_bot sid name b.battle_id r))
]

-- The owner of the bot and the host may change it.
unfoldable pub may_change_bot : ℕ → ℕ → Bot → Root → Bool
may_change_bot sid ref bot r =
    ((r.client_at sid).username == bot.owner)
    || elim (r.channel_at ref).battle.host [ none ↦ false | some host ↦ eqb sid host ]

unfoldable pub update_bot : ℕ → Text → Text → Text → Root → Outcome
unfolding get_current_battle out_failed tell_battle may_change_bot
update_bot sid name battlestatus teamcolor r = elim (get_current_battle r sid) [
  | none ↦ done (out_failed sid "UPDATEBOT" no_battle r)
  | some ref ↦ elim (lookup name (r.channel_at ref).battle.bots) [
    | none ↦ done r
    | some bot ↦
        if may_change_bot sid ref bot r
        then tell_battle ref
            (lit "UPDATEBOT "
              ∷ optional_nat (r.channel_at ref).battle.battle_id
              ∷ lit " "
              ∷ txt name
              ∷ lit " "
              ∷ txt battlestatus
              ∷ lit " "
              ∷ txt teamcolor
              ∷ [])
            (set_battle ref
              (λ b. record b {
                bots = insert name (record bot { status = battlestatus; color = teamcolor }) b.bots;
              })
              r)
        else done r
  ]
]

-- `del self._root.usernames[owner].battle_bots[name]`: a KeyError where the owner is not online or
-- has no such bot.
unfoldable pub remove_bot : ℕ → Text → Root → Outcome
unfolding get_current_battle out_failed tell_battle may_change_bot client_from_username
remove_bot sid name r = elim (get_current_battle r sid) [
  | none ↦ done (out_failed sid "REMOVEBOT" no_battle r)
  | some ref ↦ elim (lookup name (r.channel_at ref).battle.bots) [
    | none ↦ done r
    | some bot ↦
        if may_change_bot sid ref bot r
        then elim (client_from_username r bot.owner) [
          | none ↦ raised r
          | some owner ↦
              if has_key name (r.client_at owner).battle_bots
              then (tell_battle ref
                  (lit "REMOVEBOT "
                    ∷ optional_nat (r.channel_at ref).battle.battle_id
                    ∷ lit " "
                    ∷ txt name
                    ∷ [])
                  (set_battle ref (λ b. record b { bots = erase name b.bots })
                    (set_client owner (λ c. record c { battle_bots = erase name c.battle_bots })
                      r)))
              else raised r
        ]
        else done r
  ]
]

-- `is_ignored(client, ignoredClient)` for a client that is online.
abbrev pub is_ignored : Root → ℕ → ℕ → Bool
is_ignored r client ignored = contains (r.client_at ignored).user_id (r.client_at client).ignored

-- `battle.host in (client.session_id, user.session_id)`, and the client is in the battle.
unfoldable pub may_ring : ℕ → ℕ → Root → Bool
unfolding get_current_battle
may_ring sid user r = has_level (r.client_at sid) (codes "mod") || elim (get_current_battle r sid) [
  | none ↦ false
  | some ref ↦
      elim (r.channel_at ref).battle.host [
        | none ↦ false
        | some host ↦ eqb host sid || eqb host user
      ]
      && contains sid (r.channel_at ref).users
]

-- `if not client.current_battle: return`
abbrev pub in_a_battle : Client → Bool
in_a_battle c = elim c.current_battle [ none ↦ false | some battle_id ↦ not (eqb battle_id 0) ]

unfoldable pub ring : ℕ → Text → Root → Root
unfolding client_from_username may_ring send
ring sid username r = elim (client_from_username r username) [
  | none ↦ r
  | some user ↦
      if in_a_battle (r.client_at sid) && may_ring sid user r && not (is_ignored r user sid)
      then send user (lit "RING " ∷ txt (r.client_at sid).username ∷ []) r
      else r
]
