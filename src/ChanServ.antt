-- ===== src/ChanServ.antt =====
-- ChanServ.py: the bot that turns chat commands into calls of the channels' methods. This file has
-- what the commands share: `parse_duration`, how a command ends, and the checks of access.
use uberserver.Base.{
  ℕ, ◌*◌, Bool, true, false, List, [], ◌∷◌, Option, none, some, if◌then◌else◌, leb, eqb, String,
}
use uberserver.Base.Int.{ℤ, pos, negsuc, parse_int}
use uberserver.Base.Text.{Text, split_at_most, space}
use uberserver.Server.Types.{Root, Channel, Message, Piece, lit, txt}
use uberserver.Server.Outcome.{Outcome, done, raised}
use uberserver.Channel.Access.{
  Person, is_mod, Access, mod_access, founder_access, op_access, normal_access, get_access,
}
pub mod Forwarding
pub mod Governing
pub mod Policing
pub mod Listing
pub mod Commands
pub mod Messages
pub mod Guards
pub mod Lengths

-- What `parse_duration` gives: seconds, None, or the OverflowError of a `timedelta` past its maximum.
pub data Duration : Type 0 where
  lasting : ℕ → Duration
  unreadable : Duration
  overflows : Duration

-- `timedelta.max`, without its fraction of a second.
abbrev pub longest : ℕ
longest = 86399999999999

abbrev bounded : ℕ → Duration → Duration
bounded seconds otherwise = if leb seconds longest then lasting seconds else otherwise

abbrev pub last_char : Text → Option ℕ
last_char [] = none
last_char (c ∷ []) = some c
last_char (_ ∷ d ∷ s) = last_char (d ∷ s)

-- `duration[:-1]`
abbrev pub without_last : Text → Text
without_last [] = []
without_last (_ ∷ []) = []
without_last (c ∷ d ∷ s) = c ∷ without_last (d ∷ s)

-- The seconds of a unit, by its letter.
unfoldable pub unit_of : Option ℕ → Option ℕ
unit_of none = none
unit_of (some c) =
    if eqb c b'm'
    then some 60
    else if eqb c b'h'
    then some 3600
    else if eqb c b'd'
    then some 86400
    else if eqb c b'w'
    then some 604800
    else none

-- A number that is not positive stands for the longest time.
abbrev counted : ℤ → (ℕ → Duration) → Duration
counted (negsuc _) f = lasting longest
counted (pos n) f = if eqb n 0 then lasting longest else f n

-- The second attempt: a number with the letter of its unit.
unfoldable pub with_unit : Text → Duration
unfolding unit_of
with_unit duration = elim (parse_int (without_last duration)) [
  | none ↦ unreadable
  | some num ↦ counted num (λ n. elim (unit_of (last_char duration)) [
    | none ↦ unreadable
    | some unit ↦ bounded (n * unit) overflows
  ])
]

-- A plain number is in minutes; where that overflows the exception is caught.
unfoldable pub parse_duration : Text → Duration
unfolding with_unit
parse_duration duration = elim (parse_int duration) [
  | none ↦ with_unit duration
  | some num ↦ counted num (λ n. bounded (n * 60) (with_unit duration))
]

-- How a command ends: with the lines of its answer, none for None, or with an exception.
pub data Answer : Type 0 where
  says : List Message → Root → Answer
  fails : Root → Answer

abbrev pub answered : Answer → Root
answered (says lines r) = r
answered (fails r) = r

abbrev pub reply : Message → Root → Answer
reply m r = says (m ∷ []) r

-- The answer after a method that may raise.
abbrev pub reply_after : Message → Outcome → Answer
reply_after m (done r) = reply m r
reply_after m (raised r) = fails r

-- The arguments of `HandleCommand` once the channel is known: `client` is missing for a user who is
-- no longer online.
pub record Call : Type 0 where
  pub user : Text
  pub client : Option Person
  pub chan : Text
  pub ref : ℕ
  pub args : Option Text

-- `'#%s: …' % chan`
abbrev pub in_channel : Call → Message → Message
in_channel k m = lit "#" ∷ txt k.chan ∷ lit ": " ∷ m

abbrev pub deny : Call → String → Root → Answer
deny k reason = reply (in_channel k (lit reason ∷ []))

-- `channel.getAccess(client)`, where None is an ordinary user.
unfoldable pub access_of : Channel → Option Person → Access
access_of ch none = normal_access
access_of ch (some c) = get_access ch c

abbrev if_governs : Access → Option Person → Option Person
if_governs mod_access c = c
if_governs founder_access c = c
if_governs op_access c = none
if_governs normal_access c = none

abbrev if_polices : Access → Option Person → Option Person
if_polices mod_access c = c
if_polices founder_access c = c
if_polices op_access c = c
if_polices normal_access c = none

-- `if not access in ['mod', 'founder']`: the client, if its access lets it pass.
unfoldable pub governor : Call → Root → Option Person
unfolding access_of
governor k r = if_governs (access_of (r.channel_at k.ref) k.client) k.client

-- `if not access in ['mod', 'founder', 'op']`
unfoldable pub officer : Call → Root → Option Person
unfolding access_of
officer k r = if_polices (access_of (r.channel_at k.ref) k.client) k.client

-- `if not client.isMod(): return …`; an AttributeError where there is no client.
abbrev pub as_staff : Option Person → Answer → (Person → Answer) → Root → Answer
as_staff none refusal f r = fails r
as_staff (some c) refusal f r = if is_mod c then f c else refusal

-- `if not args`
abbrev pub given : Option Text → Option Text
given none = none
given (some []) = none
given (some (c ∷ s)) = some (c ∷ s)

abbrev pub is_empty : Text → Bool
is_empty [] = true
is_empty (_ ∷ _) = false
