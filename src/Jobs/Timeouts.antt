-- ===== src/Jobs/Timeouts.antt =====
-- DataHandler.py: `channel_mute_ban_timeout`, which lifts the mutes and bans whose time is over.
use uberserver.Base.{
  ℕ, zero, suc, ◌≡◌, refl, sym, ◌∙◌, ap, subst, Bool, true, false, not, List, [], ◌∷◌, Option, none,
  some, arith, if◌then◌else◌, ltb, nat_eq, text_eq, Bool-cases, Option-cases, inl, inr, eqb_iff,
  ◌==◌,
}
use uberserver.Base.Dict.{Dict, lookup, contains, contains-cons, not-contains-nil, values, has_key}
use uberserver.Base.Text.{Text}
use uberserver.Server.Types.{Root, Penalty, num}
use uberserver.Server.Store.{record_db, client_from_id}
use uberserver.Server.Outcome.{
  Outcome, done, raised, ◌>>=◌, after, each_channel, each_channel-keeps, Outcome-cases,
}
use uberserver.Server.Accounts.{UserDb, find_id}
use uberserver.Channel.Access.{Person, person}
use uberserver.Channel.Members.{channel_message, channel_broadcast}
use uberserver.Channel.Penalties.{unmute_user, unmute_here, unban_user}
use uberserver.Channel.Penalties.Mutes.{mute_in, unmute_here-mute_in}
pub mod Lifted

-- The ids whose entry ends before now.
unfoldable pub expired : ℕ → Dict ℕ Penalty → List ℕ
expired now [] = []
expired now ((who, p) ∷ d) =
    let rest = expired now d in if ltb p.expires now then who ∷ rest else rest

abbrev pub the_chanserv : Root → Person
the_chanserv r = person (r.client_at r.chanserv)

-- `limit` is how deep the calls of a channel on its forwards may go.
module _ (limit : ℕ) (users : UserDb) where
  -- Users that are in no database any more are passed over.
  unfoldable pub unmute_expired : ℕ → List ℕ → Root → Outcome
  unmute_expired ref [] r = done r
  unmute_expired ref (user_id ∷ ids) r = elim (find_id users r user_id) [
    | none ↦ unmute_expired ref ids r
    | some target ↦ unmute_user limit ref (the_chanserv r) target r >>= λ s.
        unmute_expired ref ids
          (record_db "unmuteUser" (s.channel_at ref).name (num target.user_id ∷ []) s)
  ]

  unfoldable pub unban_expired : ℕ → List ℕ → Root → Outcome
  unban_expired ref [] r = done r
  unban_expired ref (user_id ∷ ids) r = elim (find_id users r user_id) [
    | none ↦ unban_expired ref ids r
    | some target ↦
        unban_user limit ref (the_chanserv r) target
          (record_db "unbanUser" (r.channel_at ref).name (num target.user_id ∷ []) r)
        >>= unban_expired ref ids
  ]

  -- `unbanBridgedUser` is given the number where it reads `target.bridged_id`: an AttributeError at
  -- the first bridged user who is online.
  unfoldable pub unban_bridged_expired : List ℕ → Root → Outcome
  unban_bridged_expired [] r = done r
  unban_bridged_expired (bridged_id ∷ ids) r =
      let rest = unban_bridged_expired ids r in
      if not (contains bridged_id r.bridged_ids) then rest else raised r

  unfoldable pub time_out_channel : ℕ → Root → Outcome
  unfolding expired unmute_expired unban_expired unban_bridged_expired
  time_out_channel ref r = unmute_expired ref (expired r.now (r.channel_at ref).mutelist) r >>= λ s.
      unban_expired ref (expired s.now (s.channel_at ref).ban) s >>= λ t.
      unban_bridged_expired (expired t.now (t.channel_at ref).bridged_ban) t

  unfoldable pub time_out_all : List ℕ → Root → Outcome
  unfolding time_out_channel
  time_out_all [] r = done r
  time_out_all (ref ∷ refs) r = time_out_channel ref r >>= time_out_all refs

  -- Whatever is raised is logged.
  unfoldable pub channel_mute_ban_timeout : Root → Root
  unfolding time_out_all
  channel_mute_ban_timeout r = after (time_out_all (values r.channels) r)

module _ (client target : Person) where
  unmute_user-keeps :
      (P : Root → Type 0)
      → ((ref : ℕ) (r : Root) → P r → P (unmute_here ref client target r))
      → (fuel ref : ℕ) (r : Root) → P r
      → P (after (unmute_user fuel ref client target r))
  unfolding unmute_user
  unmute_user-keeps P step zero ref r h = h
  unmute_user-keeps P step (suc fuel) ref r h =
      elim (Bool-cases (has_key target.user_id (r.channel_at ref).mutelist)) [
        | inr missing ↦ rw missing h
        | inl there ↦ rw there (
            each_channel-keeps P (λ next. unmute_user fuel next client target)
              (r.channel_at ref).forwards (unmute_here ref client target r)
              (λ next s hs. unmute_user-keeps P step fuel next s hs) (step ref r h))
      ]

  -- Who is not muted in a channel is not muted by lifting mutes.
  pub unmute_user-none :
      (k u fuel ref : ℕ) (r : Root)
      → mute_in r k u ≡ none
      → mute_in (after (unmute_user fuel ref client target r)) k u ≡ none
  unmute_user-none k u fuel ref r h =
      unmute_user-keeps (λ s. mute_in s k u ≡ none) (λ next s e. lifted next s e) fuel ref r h
    where
      lifted :
          (next : ℕ) (s : Root)
          → mute_in s k u ≡ none
          → mute_in (unmute_here next client target s) k u ≡ none
      lifted next s e = ground (arith, unmute_here-mute_in client target k u next s, eqb_iff k next)

  pub unmute_user-target :
      (fuel ref : ℕ) (r : Root)
      → mute_in (after (unmute_user (suc fuel) ref client target r)) ref target.user_id ≡ none
  unfolding unmute_user
  unmute_user-target fuel ref r =
      elim (Bool-cases (has_key target.user_id (r.channel_at ref).mutelist)) [
        | inr missing ↦ rw missing (ground arith)
        | inl there ↦ rw there (
            each_channel-keeps (λ s. mute_in s ref target.user_id ≡ none)
              (λ next. unmute_user fuel next client target) (r.channel_at ref).forwards
              (unmute_here ref client target r)
              (λ next s hs. unmute_user-none ref target.user_id fuel next s hs)
              (ground (arith, unmute_here-mute_in client target ref target.user_id ref r)))
      ]

  pub unmute_user-find_id :
      (users : UserDb) (u fuel ref : ℕ) (r : Root)
      → find_id users (after (unmute_user fuel ref client target r)) u ≡ find_id users r u
  unfolding unmute_here channel_message channel_broadcast find_id client_from_id
  unmute_user-find_id users u fuel ref r =
      unmute_user-keeps (λ s. find_id users s u ≡ find_id users r u) (λ next s e. e) fuel ref r refl
