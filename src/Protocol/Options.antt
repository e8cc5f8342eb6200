-- ===== src/Protocol/Options.antt =====
-- protocol/Protocol.py: `in_SETSCRIPTTAGS`, `in_REMOVESCRIPTTAGS`, `in_ADDSTARTRECT`,
-- `in_REMOVESTARTRECT`, `in_DISABLEUNITS`, `in_ENABLEUNITS`, `in_ENABLEALLUNITS`,
-- `in_UPDATEBATTLEINFO`.
use uberserver.Base.{
  ℕ, Bool, true, false, ◌&&◌, ◌||◌, not, List, [], ◌∷◌, ◌++◌, Option, none, some, if◌then◌else◌,
  ◌==◌, text_eq, nat_eq, eqb, length,
}
use uberserver.Base.Dict.{Dict, lookup, insert, erase, update, contains, add, discard, has_key}
use uberserver.Base.Int.{ℤ, pos, eqb_ℤ, parse_int, int_eq}
use uberserver.Base.Text.{Text, codes, join, split, lower, space, tab}
use uberserver.Syntax.Numbers.{int32, uint32}
use uberserver.Syntax.Tags.{parse_tags}
use uberserver.Server.Types.{Root, Client, Channel, Message, Piece, lit, txt, num, int, Rect}
use uberserver.Server.Store.{set_battle}
use uberserver.Server.Cast.{send, out_failed, out_servermsg, broadcast_all}
use uberserver.Server.Outcome.{Outcome, done, raised}
use uberserver.Battle.Join.{rect_message}
use uberserver.Battle.Leave.{battle_info, tell_battle}
use uberserver.Protocol.Current.{get_current_battle, owned_battle, tell_current}
pub mod Effects

-- The tags as they are announced: in lower case, though they are stored as they came.
unfoldable pub announced_tags : Dict Text Text → List Text
unfolding lower
announced_tags [] = []
announced_tags ((tag, value) ∷ d) = (lower tag ++ (codes "=" ++ value)) ∷ announced_tags d

abbrev pub not_allowed : Message
not_allowed = lit "You are not allowed to change settings in this battle" ∷ []

unfoldable pub set_script_tags : ℕ → Text → Root → Outcome
unfolding owned_battle tell_current out_failed
set_script_tags sid scripttags r = elim (owned_battle r sid) [
  | none ↦ done (out_failed sid "SETSCRIPTTAGS" not_allowed r)
  | some ref ↦
      let tags = parse_tags scripttags in
      if eqb (length tags) 0
      then done r
      else tell_current sid
          (lit "SETSCRIPTTAGS " ∷ txt (join (tab ∷ []) (announced_tags tags)) ∷ [])
          (set_battle ref (λ b. record b { script_tags = update b.script_tags tags }) r)
]

-- `set(xs)`
unfoldable pub set_of : List Text → List Text
unfolding add
set_of [] = []
set_of (x ∷ xs) = add x (set_of xs)

-- Which of the tags were there, and the tags without them.
unfoldable pub remove_tags : List Text → Dict Text Text → List Text × Dict Text Text
remove_tags [] d = ([], d)
remove_tags (tag ∷ tags) d =
    let (removed, rest) = remove_tags tags (erase tag d) in
    (if has_key tag d then tag ∷ removed else removed, rest)

unfoldable pub remove_script_tags : ℕ → Text → Root → Outcome
unfolding owned_battle tell_current out_failed set_of remove_tags
remove_script_tags sid tags r = elim (owned_battle r sid) [
  | none ↦ done (out_failed sid "REMOVESCRIPTTAGS" not_allowed r)
  | some ref ↦
      let (removed, rest) =
        remove_tags (set_of (split space tags)) (r.channel_at ref).battle.script_tags in
      if eqb (length removed) 0
      then done r
      else tell_current sid (lit "REMOVESCRIPTTAGS " ∷ txt (join (codes " ") removed) ∷ [])
          (set_battle ref (λ b. record b { script_tags = rest }) r)
]

-- The four sides, or `none` where one of them is refused.
unfoldable pub read_rect : Text → Text → Text → Text → Option Rect
unfolding uint32
read_rect left top right bottom = elim (uint32 left) [
  | none ↦ none
  | some l ↦ elim (uint32 top) [
    | none ↦ none
    | some t ↦ elim (uint32 right) [
      | none ↦ none
      | some ri ↦ elim (uint32 bottom) [
        | none ↦ none
        | some b ↦ some (record { left = l; top = t; right = ri; bottom = b })
      ]
    ]
  ]
]

unfoldable pub add_start_rect : ℕ → Text → Text → Text → Text → Text → Root → Outcome
unfolding owned_battle tell_current out_servermsg int32 read_rect
add_start_rect sid allyno left top right bottom r = elim (owned_battle r sid) [
  | none ↦ done r
  | some ref ↦
      let invalid = done (out_servermsg sid (lit "invalid ADDSTARTRECT received" ∷ []) r) in
      elim (int32 allyno) [
        | none ↦ invalid
        | some n ↦ elim (read_rect left top right bottom) [
          | none ↦ invalid
          | some rect ↦
              tell_current sid (rect_message n rect)
                (set_battle ref (λ b. record b { startrects = insert n rect b.startrects }) r)
        ]
      ]
]

-- The number is read outside of the `try`.
unfoldable pub remove_start_rect : ℕ → Text → Root → Outcome
unfolding owned_battle tell_current out_servermsg int32
remove_start_rect sid allyno r = elim (owned_battle r sid) [
  | none ↦ done r
  | some ref ↦ elim (int32 allyno) [
    | none ↦ raised r
    | some n ↦
        if has_key n (r.channel_at ref).battle.startrects
        then tell_current sid (lit "REMOVESTARTRECT " ∷ int n ∷ [])
            (set_battle ref (λ b. record b { startrects = erase n b.startrects }) r)
        else done (out_servermsg sid (lit "invalid rect removed: " ∷ int n ∷ []) r)
  ]
]

-- The units that were not yet disabled, and the new list.
unfoldable pub disable_each : List Text → List Text → List Text × List Text
disable_each [] disabled = ([], disabled)
disable_each (unit ∷ units) disabled =
    let known = contains unit disabled in
    let (fresh, all_of_them) =
      disable_each units (if known then disabled else disabled ++ (unit ∷ [])) in
    (if known then fresh else unit ∷ fresh, all_of_them)

unfoldable pub disable_units : ℕ → Text → Root → Outcome
unfolding owned_battle tell_current disable_each
disable_units sid units r = elim (owned_battle r sid) [
  | none ↦ done r
  | some ref ↦
      let (fresh, all_of_them) =
        disable_each (split space units) (r.channel_at ref).battle.disabled_units in
      if eqb (length fresh) 0
      then done r
      else tell_current sid (lit "DISABLEUNITS " ∷ txt (join (codes " ") fresh) ∷ [])
          (set_battle ref (λ b. record b { disabled_units = all_of_them }) r)
]

-- `xs.remove(x)`: the first occurrence.
unfoldable pub remove_first : Text → List Text → List Text
remove_first x [] = []
remove_first x (y ∷ ys) = if x == y then ys else y ∷ remove_first x ys

-- The units that were disabled, and the new list.
unfoldable pub enable_each : List Text → List Text → List Text × List Text
unfolding remove_first
enable_each [] disabled = ([], disabled)
enable_each (unit ∷ units) disabled =
    let known = contains unit disabled in
    let (freed, rest) =
      enable_each units (if known then remove_first unit disabled else disabled) in
    (if known then unit ∷ freed else freed, rest)

-- The client's name stands where `broadcast_battle` asserts that a set stands, so that the
-- announcement raises.
unfoldable pub enable_units : ℕ → Text → Root → Outcome
unfolding owned_battle enable_each
enable_units sid units r = elim (owned_battle r sid) [
  | none ↦ done r
  | some ref ↦
      let (freed, rest) =
        enable_each (split space units) (r.channel_at ref).battle.disabled_units in
      let r1 = set_battle ref (λ b. record b { disabled_units = rest }) r in
      if eqb (length freed) 0 then done r1 else raised r1
]

unfoldable pub enable_all_units : ℕ → Root → Outcome
unfolding owned_battle tell_current
enable_all_units sid r = elim (owned_battle r sid) [
  | none ↦ done r
  | some ref ↦
      tell_current sid (lit "ENABLEALLUNITS" ∷ [])
        (set_battle ref (λ b. record b { disabled_units = [] }) r)
]

-- `oldstr != newstr` compares the three fields that differ; the map's name is the last of them.
unfoldable pub update_battle_info : ℕ → Text → Text → Text → Root → Outcome
unfolding get_current_battle out_servermsg broadcast_all int32
update_battle_info sid locked maphash mapname r = elim (get_current_battle r sid) [
  | none ↦ done r
  | some ref ↦
      let b = (r.channel_at ref).battle in
      if elim b.host [ none ↦ false | some host ↦ eqb host sid ]
      then elim (int32 maphash) [
        | none ↦ done (
            out_servermsg sid
              (lit "UPDATEBATTLEINFO failed - Invalid map hash send: "
                ∷ txt mapname
                ∷ lit " "
                ∷ txt maphash
                ∷ lit " "
                ∷ [])
              r)
        | some hash ↦
            if eqb (length mapname) 0 || contains tab mapname
            then done (
                out_servermsg sid
                  (lit "UPDATEBATTLEINFO failed - invalid mapname send: " ∷ txt mapname ∷ []) r)
            else elim (parse_int locked) [
              | none ↦ raised r
              | some lock ↦
                  let r1 =
                    set_battle ref
                      (λ b. record b { locked = lock; maphash = some hash; map_name = mapname })
                      r in
                  let same =
                    eqb_ℤ b.locked lock
                    && elim b.maphash [ none ↦ false | some old ↦ eqb_ℤ old hash ]
                    && (b.map_name == mapname) in
                  done (if same then r1 else broadcast_all (battle_info r1 ref) r1)
            ]
      ]
      else done r
]
