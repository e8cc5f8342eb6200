-- ===== src/Server/Store.antt =====
-- Reading and writing the objects, and the lookups of DataHandler.py: `clientFromID`,
-- `clientFromUsername` and `clientFromSession` without the database.
use uberserver.Base.{
  ℕ, Bool, true, false, [], ◌∷◌, Option, none, some, eqb, if◌then◌else◌, String, nat_eq, text_eq,
}
use uberserver.Base.Dict.{lookup, contains}
use uberserver.Base.Text.{Text, codes}
use uberserver.Server.Types.{Root, Client, Channel, BattlePart, Message}

abbrev pub put {ℓ} : {A : Type ℓ} → ℕ → A → (ℕ → A) → ℕ → A
put k v f = λ j. if eqb j k then v else f j

-- An assignment to fields of the client with this session id.
abbrev pub set_client : ℕ → (Client → Client) → Root → Root
set_client sid f r = record r { client_at = put sid (f (r.client_at sid)) r.client_at }

-- An assignment to fields of the channel with this reference.
abbrev pub set_channel : ℕ → (Channel → Channel) → Root → Root
set_channel ref f r = record r { channel_at = put ref (f (r.channel_at ref)) r.channel_at }

abbrev pub set_battle : ℕ → (BattlePart → BattlePart) → Root → Root
set_battle ref f = set_channel ref (λ c. record c { battle = f c.battle })

abbrev pub record_db : String → Text → Message → Root → Root
record_db method name args r = record r {
  db = record { method = method; channel = name; args = args } ∷ r.db;
}

unfoldable pub client_from_session : Root → ℕ → Option ℕ
client_from_session r sid = if contains sid r.clients then some sid else none

unfoldable pub client_from_username : Root → Text → Option ℕ
client_from_username r username = lookup username r.usernames

unfoldable pub client_from_id : Root → ℕ → Option ℕ
client_from_id r user_id = lookup user_id r.user_ids

-- `channeldb.registered(channel)`: whether the database has a channel of that name.
unfoldable pub is_registered : Root → Text → Bool
is_registered r name = contains name r.registered_names

-- `if x`, `x in (…)` and `==` at values that may be None.
abbrev pub is_truthy : Option Text → Bool
is_truthy none = false
is_truthy (some []) = false
is_truthy (some (_ ∷ _)) = true

abbrev pub is_open_key : Option Text → Bool
is_open_key none = true
is_open_key (some k) = text_eq.beq k (codes "*")

abbrev pub has_flag : Client → Text → Bool
has_flag c flag = contains flag c.compat

abbrev pub has_level : Client → Text → Bool
has_level c level = contains level c.accesslevels
