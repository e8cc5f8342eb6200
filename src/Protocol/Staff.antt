-- ===== src/Protocol/Staff.antt =====
-- protocol/Protocol.py: `in_SETACCESS`, `in_BROADCAST`, `in_BROADCASTEX`, `in_PING`;
-- DataHandler.py: `admin_broadcast`. The accounts that `globally_unignore_user` gives are the parameter
-- `ignored_by`. The access in the record of a user who is not online is not kept.
use mathlib.Core.Option.{some-injective}
use uberserver.Base.{
  ℕ, ◌≡◌, refl, sym, ap, ◌∙◌, subst, Bool, true, false, not, ◌&&◌, List, [], ◌∷◌, Option, none,
  some, if◌then◌else◌, ◌==◌, text_eq, nat_eq, eqb, eqb_iff, arith, Bool-cases, Option-cases, inl,
  inr,
}
use uberserver.Base.Dict.{Dict, lookup, contains, discard, contains-discard}
use uberserver.Base.Text.{Text, codes}
use uberserver.Server.Types.{Root, Client, Message, Piece, lit, txt, num}
use uberserver.Server.Store.{set_client, record_db, client_from_id, client_from_username, has_level}
use uberserver.Server.Cast.{send, out_servermsg, broadcast_all}
use uberserver.Server.Outcome.{Outcome, done, raised, after, ◌>>=◌}
use uberserver.Server.Accounts.{UserDb, find_username}
use uberserver.Channel.Access.{Person}
use uberserver.Protocol.Chat.{is_blank}
use uberserver.Protocol.Rights.{calc_access_status}
pub mod Unignored

unfoldable pub in_ping : ℕ → Option Text → Root → Root
unfolding send
in_ping sid none = send sid (lit "PONG" ∷ [])
in_ping sid (some reply) =
    if is_blank reply then send sid (lit "PONG" ∷ []) else send sid (lit "PONG " ∷ txt reply ∷ [])

unfoldable pub in_broadcast : Text → Root → Root
unfolding broadcast_all
in_broadcast msg = broadcast_all (lit "BROADCAST " ∷ txt msg ∷ [])

unfoldable pub in_broadcastex : Text → Root → Root
unfolding broadcast_all
in_broadcastex msg = broadcast_all (lit "SERVERMSGBOX " ∷ txt msg ∷ [])

-- `for user in self.usernames`
unfoldable pub tell_admins : Dict Text ℕ → Text → Root → Root
unfolding send
tell_admins [] msg r = r
tell_admins ((user, sid) ∷ more) msg r = tell_admins more msg (
    if not (user == codes "ChanServ") && has_level (r.client_at sid) (codes "admin")
    then send sid (lit "SERVERMSG Admin broadcast: " ∷ txt msg ∷ []) r
    else r)

unfoldable pub admin_broadcast : Text → Root → Root
unfolding tell_admins
admin_broadcast msg r = tell_admins r.usernames msg r

-- Those online who ignored the account are told, and have it no longer in their lists; `pop` of a
-- missing key raises.
unfoldable pub unignore_everywhere : ℕ → Text → List ℕ → Root → Outcome
unfolding client_from_id send
unignore_everywhere user_id username [] r = done r
unignore_everywhere user_id username (k ∷ ks) r = elim (client_from_id r k) [
  | none ↦ unignore_everywhere user_id username ks r
  | some t ↦
      let told =
        send t (lit "UNIGNORE userName=" ∷ txt username ∷ [])
          (set_client t (λ c. record c { ignored = discard user_id c.ignored }) r) in
      let rest = unignore_everywhere user_id username ks told in
      if contains user_id (r.client_at t).ignored then rest else raised r
]

abbrev pub access_levels : List Text
access_levels = codes "user" ∷ codes "mod" ∷ codes "admin" ∷ []

-- `if username in self._root.usernames`, where the user found has its new access.
unfoldable pub assign_access : Text → Text → Root → Outcome
unfolding client_from_username calc_access_status broadcast_all
assign_access username access r = elim (client_from_username r username) [
  | none ↦ done r
  | some t ↦ calc_access_status t (set_client t (λ c. record c { access = access }) r) >>= λ s.
      done (
        broadcast_all
          (lit "CLIENTSTATUS " ∷ txt username ∷ lit " " ∷ num (s.client_at t).status ∷ []) s)
]

module _ (users : UserDb) (ignored_by : ℕ → List ℕ) where
  unfoldable pub in_setaccess : ℕ → Text → Text → Root → Outcome
  unfolding find_username out_servermsg assign_access send unignore_everywhere
  in_setaccess sid username access r = elim (find_username users r username) [
    | none ↦ done (out_servermsg sid (lit "User not found." ∷ []) r)
    | some user ↦
        if not (contains access access_levels)
        then done
            (out_servermsg sid (lit "Invalid access mode, only user, mod, admin is valid." ∷ []) r)
        else (assign_access username access r >>= λ s.
            let saved =
              send sid (lit "OK cmd=SETACCESS" ∷ [])
                (record_db "save_user" [] (num user.user_id ∷ txt access ∷ []) s) in
            if contains access (codes "mod" ∷ codes "admin" ∷ [])
            then unignore_everywhere user.user_id username (ignored_by user.user_id) saved
            else done saved)
  ]
