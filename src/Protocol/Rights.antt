-- ===== src/Protocol/Rights.antt =====
-- protocol/Protocol.py: `_calc_access`, `_calc_status`, `_calc_access_status`, the table `ranks`.
use uberserver.Base.{
  ℕ, ◌+◌, ◌-◌, ◌*◌, ◌≤◌, Bool, true, false, not, List, [], ◌∷◌, ◌++◌, Option, none, some,
  if◌then◌else◌, ◌==◌, text_eq, eqb, leb, length,
}
use uberserver.Base.Dict.{contains}
use uberserver.Base.Int.{ℤ, pos}
use uberserver.Base.Text.{Text, codes}
use uberserver.Syntax.Numbers.{dec2bin, bin2dec}
use uberserver.Server.Types.{Root, Client}
use uberserver.Server.Store.{set_client}
use uberserver.Server.Outcome.{Outcome, done, raised}
use uberserver.Protocol.Players.{drop}
pub mod Status

-- `inherit.get(userlevel, [userlevel])`
abbrev pub inherited_from : Text → List Text
inherited_from level =
    if level == codes "mod"
    then codes "user" ∷ []
    else if level == codes "admin"
    then codes "mod" ∷ codes "user" ∷ []
    else level ∷ []

unfoldable pub levels_of : Text → List Text
levels_of access =
    let inherited = inherited_from access in
    (if contains access inherited then inherited else inherited ++ (access ∷ []))
    ++ (codes "everyone" ∷ [])

unfoldable pub calc_access : ℕ → Root → Root
unfolding levels_of
calc_access sid r = set_client sid (λ c. record c { accesslevels = levels_of c.access }) r

-- In hours.
abbrev pub ranks : List ℕ
ranks = 5 ∷ 15 ∷ 30 ∷ 100 ∷ 300 ∷ 1000 ∷ 3000 ∷ []

-- How many of the ranks are reached after so many minutes: `minutes / 60 >= t`, without rounding.
unfoldable pub rank_of : ℕ → List ℕ → ℕ
rank_of minutes [] = 0
rank_of minutes (t ∷ ts) = (if leb (t * 60) minutes then 1 else 0) + rank_of minutes ts

abbrev pub bit_of : Bool → ℕ
bit_of b = if b then b'1' else b'0'

-- The digit at a position, or '0'.
abbrev pub digit_at : ℕ → Text → ℕ
digit_at n s = elim (drop n s) [ [] ↦ b'0' | c ∷ _ ↦ c ]

-- `status[-7:]`
unfoldable pub last_7 : Text → Text
unfolding drop
last_7 s = drop (length s - 7) s

-- bot, access, three digits of the rank, away and ingame.
unfoldable pub status_digits : Bool → Text → ℕ → ℕ → ℕ → Text
unfolding dec2bin rank_of
status_digits bot access minutes away ingame =
    bit_of bot
    ∷ bit_of (contains access (codes "mod" ∷ codes "admin" ∷ []))
    ∷ (dec2bin (pos (rank_of minutes ranks)) 3 ++ (away ∷ ingame ∷ []))

-- Only the last two digits of what the client asks for are used.
unfoldable pub calc_status : ℕ → ℤ → Root → Outcome
unfolding dec2bin last_7 drop status_digits bin2dec
calc_status sid asked r =
    let bits = last_7 (dec2bin asked 7) in
    let away = digit_at 5 bits in
    let ingame = digit_at 6 bits in
    let r1 =
      set_client sid (λ c. record c { is_ingame = eqb ingame b'1'; away = eqb away b'1' }) r in
    let c = r.client_at sid in
    elim (bin2dec (status_digits c.bot c.access c.ingame_time away ingame)) [
      | none ↦ raised r1
      | some status ↦ done (set_client sid (λ c. record c { status = status }) r1)
    ]

unfoldable pub calc_access_status : ℕ → Root → Outcome
unfolding calc_access calc_status
calc_access_status sid r =
    let r1 = calc_access sid r in calc_status sid (pos (r1.client_at sid).status) r1
