-- ===== src/Protocol/Presence/Leaving.antt =====
-- What the LEAVEs of a client that has disconnected do, for `_remove` of protocol/Protocol.py.
use mathlib.Core.Option.{some-injective}
use uberserver.Base.{
  ℕ, List, [], ◌∷◌, ◌≡◌, refl, sym, ap, ◌∙◌, subst, true, false, ◌&&◌, not, Option, some, arith,
  eqb, eqb_iff, length, Bool-cases, Option-cases, inl, inr, text_eq, nat_eq, ◌==◌,
}
use uberserver.Base.Dict.{Dict, contains, lookup, lookup-erase, contains-discard, not-contains-nil}
use uberserver.Base.Text.{Text, codes}
use uberserver.Server.Types.{Root, Channel, lit, txt}
use uberserver.Server.Store.{is_registered}
use uberserver.Server.Cast.{out_failed, send, broadcast, delivered}
use uberserver.Server.Outcome.{done, after}
use uberserver.Channel.Members.{remove_user, forget_channel, expel, channel_broadcast, record_use}
use uberserver.Protocol.Rooms.{drop_if_empty, in_leave, settle}
use uberserver.Protocol.Rooms.Exit.{left_out, settle-done, drop_if_empty-channel_at}
use uberserver.Protocol.Presence.{leave_channels}

-- What a client keeps while it leaves channels: its names, and its absence from a channel.
abbrev pub Kept : ℕ → ℕ → Root → Root → Type 0
Kept sid ref r s =
    ((s.channel_at ref).is_battle ≡ (r.channel_at ref).is_battle)
    × ((s.client_at sid).username ≡ (r.client_at sid).username)
    × ((s.client_at sid).user_id ≡ (r.client_at sid).user_id)
    × ((s.client_at sid).static ≡ (r.client_at sid).static)
    × (contains sid (r.channel_at ref).users ≡ false
        → contains sid (s.channel_at ref).users ≡ false)

remove_user-Kept :
    (sid ref k : ℕ) (reason : Option Text) (r : Root) → Kept sid ref r (remove_user sid k reason r)
unfolding remove_user forget_channel expel channel_broadcast broadcast delivered record_use
remove_user-Kept sid ref k reason r =
    ground (arith, eqb_iff sid sid, eqb_iff ref k, contains-discard sid sid (r.channel_at k).users)

drop-Kept :
    (sid ref k : ℕ) (chan : Text) (r s : Root)
    → Kept sid ref r s
    → Kept sid ref r (drop_if_empty k chan s)
unfolding drop_if_empty
drop-Kept sid ref k chan r s h =
    elim (Bool-cases (
      not (is_registered s (s.channel_at k).name)
      && eqb (length (s.channel_at k).users) 0
      && eqb (length (s.channel_at k).bridged_users) 0)) [
        | inl e ↦ rw (e, drop_if_empty) h
        | inr e ↦ rw (e, drop_if_empty) h
      ]

drop-lookup :
    (x chan : Text) (k : ℕ) (s : Root)
    → (x == chan) ≡ false
    → lookup x (drop_if_empty k chan s).channels ≡ lookup x s.channels
unfolding drop_if_empty
drop-lookup x chan k s other = ground (arith, lookup-erase x chan s.channels)

-- What LEAVE of a channel does to the client: it is out of the channel unless that is a battle, and
-- other names stand for the channels that they stood for.
abbrev Left : ℕ → Text → Root → Root → Type 0
Left sid chan r s =
    ((ref : ℕ) → Kept sid ref r s)
    × ((x : Text) → (x == chan) ≡ false → lookup x s.channels ≡ lookup x r.channels)
    × ((ref : ℕ)
        → lookup chan r.channels ≡ some ref
        → (r.channel_at ref).is_battle ≡ false
        → contains sid (s.channel_at ref).users ≡ false)

same-Kept : (sid ref : ℕ) (r : Root) → Kept sid ref r r
same-Kept sid ref r = (refl, refl, refl, refl, λ h. h)

remove_user-channels :
    (sid k : ℕ) (reason : Option Text) (r : Root)
    → (remove_user sid k reason r).channels ≡ r.channels
unfolding remove_user forget_channel expel channel_broadcast broadcast delivered record_use
remove_user-channels sid k reason r = ground arith

one_channel :
    (r : Root) (chan : Text) (k ref : ℕ)
    → lookup chan r.channels ≡ some k
    → lookup chan r.channels ≡ some ref
    → k ≡ ref
one_channel r chan k ref e found = some-injective k ref (sym e ∙ found)

settled :
    (sid k : ℕ) (chan : Text) (reason : Option Text) (r : Root)
    → lookup chan r.channels ≡ some k
    → (s : Root) × (settle sid k chan (remove_user sid k reason r) ≡ done s) × Left sid chan r s
settled sid k chan reason r e =
    let r1 = remove_user sid k reason r in
    let out = left_out sid k reason r in
    (
      drop_if_empty k chan r1,
      settle-done sid k chan r1 out,
      (
        (λ ref. drop-Kept sid ref k chan r r1 (remove_user-Kept sid ref k reason r)),
        (λ x other.
            drop-lookup x chan k r1 other
            ∙ ap (λ (d : Dict Text ℕ). lookup x d) (remove_user-channels sid k reason r)),
        λ ref found plain.
            ap (λ (at : ℕ → Channel). contains sid (at ref).users)
              (drop_if_empty-channel_at k chan r1)
            ∙ subst (λ (j : ℕ). contains sid (r1.channel_at j).users ≡ false)
                (one_channel r chan k ref e found) out,
      ),
    )

leave-Left :
    (sid : ℕ) (chan : Text) (reason : Option Text) (r : Root)
    → (s : Root) × (in_leave sid chan reason r ≡ done s) × Left sid chan r s
unfolding in_leave out_failed send
leave-Left sid chan reason r = elim (Option-cases (lookup chan r.channels)) [
  | inl e ↦ (
    r,
    rw (e, in_leave) refl,
    ((λ ref. same-Kept sid ref r), (λ x other. refl), λ ref found plain. cc),
  )
  | inr (k, e) ↦
      elim (Bool-cases
        ((r.channel_at k).is_battle && not ((r.client_at sid).username == codes "ChanServ"))) [
          | inl battle ↦ (
            out_failed sid "LEAVE" (txt chan ∷ lit " is a battle, use LEAVEBATTLE to leave it" ∷ [])
                r,
            rw (e, in_leave) (rw battle refl),
            (
              (λ ref. same-Kept sid ref r),
              (λ x other. refl),
              λ ref found plain. ground (arith, one_channel r chan k ref e found),
            ),
          )
          | inr free ↦ elim (Bool-cases (contains sid (r.channel_at k).users)) [
            | inr absent ↦ (
              out_failed sid "LEAVE" (lit "not in channel " ∷ txt chan ∷ []) r,
              rw (e, in_leave) (rw free (rw absent refl)),
              (
                (λ ref. same-Kept sid ref r),
                (λ x other. refl),
                λ ref found plain. rw (one_channel r chan k ref e found) at absent,
              ),
            )
            | inl member ↦
                let (s, went, left) = settled sid k chan reason r e in
                (s, rw (e, in_leave) (rw free (rw member went)), left)
          ]
        ]
]

-- So many LEAVEs, one after the other.
pub leave_channels-Kept :
    (sid ref : ℕ) (chans : List Text) (r : Root)
    → (s : Root) × (leave_channels sid chans r ≡ done s) × Kept sid ref r s
unfolding leave_channels
leave_channels-Kept sid ref [] r = (r, refl, same-Kept sid ref r)
leave_channels-Kept sid ref (x ∷ chans) r =
    let (m, went, left) = leave-Left sid x (some (codes "disconnected")) r in
    let (s, rest, kept) = leave_channels-Kept sid ref chans m in
    (s, rw (went, leave_channels) rest, ground (arith, left.0 ref, kept))

pub after_leave_channels-Kept :
    (sid ref : ℕ) (chans : List Text) (r s : Root)
    → leave_channels sid chans r ≡ done s
    → Kept sid ref r s
after_leave_channels-Kept sid ref chans r s d =
    let (s', went, kept) = leave_channels-Kept sid ref chans r in
    subst (λ (x : Root). Kept sid ref r x) (ap after (sym went ∙ d)) kept

later_member :
    (chan x : Text) (chans : List Text)
    → contains chan (x ∷ chans) ≡ true
    → (chan == x) ≡ false
    → contains chan chans ≡ true
unfolding contains
later_member chan x chans m other = ground arith

pub leave_channels-leaves :
    (sid ref : ℕ) (chan : Text) (chans : List Text) (r s : Root)
    → contains chan chans ≡ true
    → lookup chan r.channels ≡ some ref
    → (r.channel_at ref).is_battle ≡ false
    → leave_channels sid chans r ≡ done s
    → contains sid (s.channel_at ref).users ≡ false
unfolding leave_channels
leave_channels-leaves sid ref chan [] r s m found plain d = absurd (not-contains-nil chan m)
leave_channels-leaves sid ref chan (x ∷ chans) r s m found plain d =
    let (t, went, left) = leave-Left sid x (some (codes "disconnected")) r in
    let (kept, names, out) = left in
    let later : leave_channels sid chans t ≡ done s = rw went at d in
    elim (Bool-cases (chan == x)) [
      | inl same ↦
          let (_, _, _, _, stays) = after_leave_channels-Kept sid ref chans t s later in
          stays (
            out ref
              (subst (λ (c : Text). lookup c r.channels ≡ some ref)
                ((text_eq.beq_iff chan x).0 same) found)
              plain)
      | inr other ↦
          let (same_kind, _, _, _, _) = kept ref in
          leave_channels-leaves sid ref chan chans t s (later_member chan x chans m other)
            (names chan other ∙ found) (same_kind ∙ plain) later
    ]
