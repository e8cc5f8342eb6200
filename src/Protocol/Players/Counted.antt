-- ===== src/Protocol/Players/Counted.antt =====
-- The number of spectators that MYBATTLESTATUS of protocol/Protocol.py keeps.
use uberserver.Base.{
  ℕ, zero, suc, ◌+◌, ◌<◌, ◌^◌, ◌≡◌, refl, sym, ap, ◌∙◌, subst, List, [], ◌∷◌, arith, length, keep,
  Bool, true, false, eqb, eqb_iff, text_beq, if◌then◌else◌, text_eq, nat_eq, ◌==◌, Bool-cases,
  Option-cases, inl, inr, ◌⊎◌, ◌&&◌,
}
use uberserver.Base.Dict.{contains, Distinct}
use uberserver.Base.Int.{ℤ, pos, ◌-ℤ◌, ◌+ℤ◌, eqb_ℤ}
use uberserver.Base.Text.{Text, codes}
use uberserver.Server.Types.{Root, Color, read, BattleStatus}
use uberserver.Server.Store.{client_from_session, put}
use uberserver.Server.Outcome.{done, raised, after, Quiet, Quiet-trans}
use uberserver.Server.Cast.{send, broadcast_all}
use uberserver.Battle.Status.{is_spectator, spectates, spectator_count, calc_battlestatus}
use uberserver.Battle.Leave.Exit.{tell_battle-Quiet}
use uberserver.Syntax.Numbers.{dec2bin}
use uberserver.Syntax.Numbers.Bounds.{length-dec2bin}
use uberserver.Protocol.Rights.{digit_at}
use uberserver.Protocol.Rights.Status.{dec2bin-Binary}
use uberserver.Protocol.Players.Decoded.{last_32-dec2bin}
use uberserver.Protocol.Players.{
  granted_mode, drop, field, last_32, status_of_bits, assign_status, announce_count, tell_status,
  change_status, same_color, battlestatus_message,
}

abbrev one_if : Bool → ℕ
one_if b = if b then 1 else 0

-- Two tests that differ at one session at most count alike where it does not occur, and differ as they
-- do at it where it occurs once.
module _ (p q : ℕ → Bool) (sid : ℕ) (elsewhere : (x : ℕ) → eqb x sid ≡ false → p x ≡ q x) where
  count_without : (xs : List ℕ) → contains sid xs ≡ false → length (keep q xs) ≡ length (keep p xs)
  unfolding contains
  count_without [] h = refl
  count_without (x ∷ xs) h =
      ground (arith, elsewhere x, count_without xs, eqb_iff sid x, eqb_iff x sid)

  count_with :
      (xs : List ℕ)
      → Distinct xs
      → contains sid xs ≡ true
      → length (keep q xs) + one_if (p sid) ≡ length (keep p xs) + one_if (q sid)
  unfolding contains
  count_with [] d h = absurd (ground arith)
  count_with (x ∷ xs) (fresh, d) h = elim (Bool-cases (eqb sid x)) [
    | inl same ↦
        let e : sid ≡ x = (eqb_iff sid x).0 same in
        let away : contains sid xs ≡ false =
          subst (λ (y : ℕ). contains y xs ≡ false) (sym e) fresh in
        ground (arith, count_without xs away, ap p e, ap q e)
    | inr other ↦ ground (arith, elsewhere x, eqb_iff x sid, eqb_iff sid x, count_with xs d)
  ]

-- The count that is granted with a mode is right for that mode.
granted_count :
    (spectating : Bool) (mode : Text) (members specs after_specs : ℕ) (maxplayers : ℤ)
    → (mode ≡ codes "0") ⊎ (mode ≡ codes "1")
    → after_specs + one_if spectating
      ≡ specs + one_if ((granted_mode spectating mode members specs maxplayers).0 == codes "0")
    → (granted_mode spectating mode members specs maxplayers).1 ≡ pos after_specs
unfolding granted_mode text_beq ◌-ℤ◌ ◌+ℤ◌
granted_count true mode members specs after_specs maxplayers (inl m) e =
    rw m (ground (arith, rw m at e))
granted_count true mode members specs after_specs maxplayers (inr m) e =
    rw m (ground (arith, rw m at e))
granted_count false mode members specs after_specs maxplayers (inl m) e =
    rw m (ground (arith, rw m at e))
granted_count false mode members specs after_specs maxplayers (inr m) e =
    rw m (ground (arith, rw m at e))

-- One digit of the text.
field_one : (n : ℕ) (s : Text) → n < length s → field n 1 s ≡ digit_at n s ∷ []
unfolding drop
field_one zero [] h = absurd (omega arith)
field_one zero (c ∷ s) h = refl
field_one (suc n) [] h = absurd (omega arith)
field_one (suc n) (c ∷ s) h = field_one n s (omega arith)

mode_digit :
    (status : ℕ)
    → status < 2 ^ 32
    → let mode = field 21 1 (last_32 (dec2bin (pos status) 32)) in
      (mode ≡ codes "0") ⊎ (mode ≡ codes "1")
mode_digit status h =
    let s = dec2bin (pos status) 32 in
    let long : length s ≡ 32 = length-dec2bin status 32 (omega arith) h in
    let one : field 21 1 s ≡ digit_at 21 s ∷ [] = field_one 21 s (omega arith) in
    rw (last_32-dec2bin status h) (elim (dec2bin-Binary (pos status) 32 refl 21) [
      | inl e ↦ inl (one ∙ ap (λ (c : ℕ). c ∷ []) e)
      | inr e ↦ inr (one ∙ ap (λ (c : ℕ). c ∷ []) e)
    ])

-- The battle's number of spectators is the number of its online members that spectate.
abbrev pub IsCounted : ℕ → Root → Type 0
IsCounted ref r =
    (r.channel_at ref).battle.spectators ≡ pos (spectator_count r (r.channel_at ref).users)

assigned_elsewhere :
    (sid ref : ℕ) (status : BattleStatus) (color : Color) (specs : ℤ) (r : Root) (x : ℕ)
    → eqb x sid ≡ false
    → spectates r x ≡ spectates (assign_status sid ref status color specs r) x
unfolding spectates client_from_session
assigned_elsewhere sid ref status color specs r x h = elim (Bool-cases (contains x r.clients)) [
  | inl e ↦ rw (e, spectates) (rw (h, put) refl)
  | inr e ↦ rw (e, spectates) refl
]

assigned_here :
    (sid ref : ℕ) (status : BattleStatus) (color : Color) (specs : ℤ) (r : Root)
    → contains sid r.clients ≡ true
    → (spectates r sid ≡ is_spectator (r.client_at sid).battlestatus)
      × (spectates (assign_status sid ref status color specs r) sid ≡ is_spectator status)
unfolding spectates client_from_session
assigned_here sid ref status color specs r h = (ground arith, ground (arith, eqb_iff sid sid))

pub tell_status-Quiet :
    (sid ref oldstatus : ℕ) (oldcolor : Color) (r : Root)
    → Quiet r (after (tell_status sid ref oldstatus oldcolor r))
unfolding tell_status send
tell_status-Quiet sid ref oldstatus oldcolor r =
    elim (Option-cases (calc_battlestatus (r.client_at sid).battlestatus)) [
      | inl e ↦ rw (e, tell_status) refl
      | inr (n, e) ↦
          elim (Bool-cases (eqb oldstatus n && same_color (r.client_at sid).teamcolor oldcolor)) [
            | inl same ↦ rw (e, tell_status) (rw (same, tell_status) refl)
            | inr changed ↦
                rw (e, tell_status)
                  (rw (changed, tell_status)
                    (tell_battle-Quiet ref
                      (battlestatus_message (r.client_at sid).username n
                        (r.client_at sid).teamcolor)
                      r))
          ]
    ]

pub announce_count-Quiet :
    (ref : ℕ) (oldspecs : ℤ) (r : Root) → Quiet r (announce_count ref oldspecs r)
unfolding announce_count broadcast_all
announce_count-Quiet ref oldspecs r =
    elim (Bool-cases (eqb_ℤ oldspecs (r.channel_at ref).battle.spectators)) [
      | inl e ↦ rw e refl
      | inr e ↦ rw e refl
    ]

assigned_channel :
    (sid ref : ℕ) (status : BattleStatus) (color : Color) (specs : ℤ) (r : Root)
    → let ch = (assign_status sid ref status color specs r).channel_at ref in
      (ch.users ≡ (r.channel_at ref).users) × (ch.battle.spectators ≡ specs)
assigned_channel sid ref status color specs r =
    (ground (arith, eqb_iff ref ref), ground (arith, eqb_iff ref ref))

-- What is left once the mode and the count have been granted.
assigned-IsCounted :
    (sid ref : ℕ) (status : BattleStatus) (mode : Text) (color : Color) (r : Root)
    → let ch = r.channel_at ref in
      let spectating = is_spectator (r.client_at sid).battlestatus in
      let granted =
        granted_mode spectating mode
          (length ch.users)
          (spectator_count r ch.users)
          ch.battle.maxplayers in
      (mode ≡ codes "0") ⊎ (mode ≡ codes "1")
      → contains sid r.clients ≡ true
      → contains sid ch.users ≡ true
      → Distinct ch.users
      → status.mode ≡ granted.0
      → IsCounted ref (assign_status sid ref status color granted.1 r)
unfolding spectator_count
assigned-IsCounted sid ref status mode color r m online inside distinct g =
    let ch = r.channel_at ref in
    let spectating = is_spectator (r.client_at sid).battlestatus in
    let granted =
      granted_mode spectating mode (length ch.users) (spectator_count r ch.users)
        ch.battle.maxplayers in
    let s = assign_status sid ref status color granted.1 r in
    let (before, now) = assigned_here sid ref status color granted.1 r online in
    let (members, specs) = assigned_channel sid ref status color granted.1 r in
    let counted =
      count_with (spectates r) (spectates s) sid
        (assigned_elsewhere sid ref status color granted.1 r) ch.users distinct inside in
    let balance =
      ap (λ (b : Bool). length (keep (spectates s) ch.users) + one_if b) (sym before)
      ∙ counted
      ∙ ap (λ (b : Bool). length (keep (spectates r) ch.users) + one_if b)
          (now ∙ ap (λ (t : Text). t == codes "0") g) in
    specs
    ∙ granted_count spectating mode (length ch.users) (spectator_count r ch.users)
        (length (keep (spectates s) ch.users)) ch.battle.maxplayers m balance
    ∙ ap (λ (xs : List ℕ). pos (length (keep (spectates s) xs))) (sym members)

status_of_bits-mode :
    (bits mode : Text) (old : BattleStatus) → (status_of_bits bits mode old).mode ≡ mode
unfolding status_of_bits
status_of_bits-mode bits mode old = refl

pub raised_is_not_done : (a b : Root) → raised a ≡ done b → ⊥
raised_is_not_done a b h = cc

-- A step that only logs keeps the count.
Quiet-IsCounted : (ref : ℕ) (r s : Root) → Quiet r s → IsCounted ref r → IsCounted ref s
unfolding spectator_count spectates client_from_session
Quiet-IsCounted ref r s q h = subst (IsCounted ref) (sym q) h

-- After MYBATTLESTATUS the battle's number of spectators is the number of its online members that
-- spectate: for a status below 2 ^ 32, from an online member, where no member stands twice, and where
-- the handler returns.
pub change_status_counts :
    (sid ref status : ℕ) (color : ℤ) (r s : Root)
    → status < 2 ^ 32
    → contains sid r.clients ≡ true
    → contains sid (r.channel_at ref).users ≡ true
    → Distinct (r.channel_at ref).users
    → change_status sid ref status color r ≡ done s
    → (s.channel_at ref).battle.spectators ≡ pos (spectator_count s (s.channel_at ref).users)
unfolding change_status
change_status_counts sid ref status color r s h online inside distinct e =
    let c = r.client_at sid in
    let ch = r.channel_at ref in
    let bits = last_32 (dec2bin (pos status) 32) in
    let granted =
      granted_mode (is_spectator c.battlestatus) (field 21 1 bits) (length ch.users)
        (spectator_count r ch.users) ch.battle.maxplayers in
    let new = status_of_bits bits granted.0 c.battlestatus in
    let r1 = assign_status sid ref new (read color) granted.1 r in
    let r2 = announce_count ref ch.battle.spectators r1 in
    let good : IsCounted ref r1 =
      assigned-IsCounted sid ref new (field 21 1 bits) (read color) r (mode_digit status h) online
        inside distinct (status_of_bits-mode bits granted.0 c.battlestatus) in
    elim (Option-cases (calc_battlestatus c.battlestatus)) [
      | inl f ↦ absurd (raised_is_not_done r s (rw (f, change_status) at e))
      | inr (old, f) ↦
          let told = tell_status sid ref old c.teamcolor r2 in
          let quiet : Quiet r1 (after told) =
            Quiet-trans r1 r2 (after told) (announce_count-Quiet ref ch.battle.spectators r1)
              (tell_status-Quiet sid ref old c.teamcolor r2) in
          let ends : told ≡ done s = rw (f, change_status) at e in
          subst (IsCounted ref) (ap after ends) (Quiet-IsCounted ref r1 (after told) quiet good)
    ]
