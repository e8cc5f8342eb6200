-- ===== src/Protocol/Chat/Private.antt =====
-- What a sender of messages can learn and do, over SAYPRIVATE and SAY of protocol/Protocol.py.
use uberserver.Base.{
  ℕ, ◌≡◌, refl, Bool, true, false, List, ◌∷◌, none, some, arith, eqb, eqb_iff, nat_eq, text_eq,
  Bool-cases, inl, inr, ◌⊎◌,
}
use uberserver.Base.Dict.{contains, lookup}
use uberserver.Base.Text.{Text, strip}
use uberserver.Server.Types.{Root, Message}
use uberserver.Server.Store.{set_client, client_from_username}
use uberserver.Server.Cast.{send, out_failed}
use uberserver.Server.Delivery.{received}
use uberserver.Server.Outcome.{done, after}
use uberserver.Channel.Access.{person, is_muted}
use uberserver.Protocol.Chat.{say, say_hooked, hook_say, say_private, is_blank}

-- A client whose ignore list is another.
abbrev pub ignoring : ℕ → List ℕ → Root → Root
ignoring sid ids = set_client sid (λ c. record c { ignored = ids })

-- Whether a private message is ignored cannot be observed by its sender: what the sender receives is
-- the same whatever the ignore list of the receiver, another client and not ChanServ, is; and a receiver
-- that ignores the sender receives nothing.
pub ignore_unobservable :
    (chanserv : Message → Root → Root) (ex : Bool) (sid receiver : ℕ) (user msg : Text)
    (ids : List ℕ) (r : Root)
    → client_from_username r user ≡ some receiver
    → eqb sid receiver ≡ false
    → (r.client_at receiver).static ≡ false
    → (received sid (say_private chanserv ex sid user msg (ignoring receiver ids r)).sent
        ≡ received sid (say_private chanserv ex sid user msg r).sent)
      × (received receiver
            (say_private chanserv ex sid user msg
              (ignoring receiver ((r.client_at sid).user_id ∷ ids) r)).sent
          ≡ received receiver r.sent)
unfolding say_private send received client_from_username contains
ignore_unobservable chanserv ex sid receiver user msg ids r found other plain = (
  ground (arith, eqb_iff sid receiver),
  ground (arith, eqb_iff sid receiver, eqb_iff receiver sid),
)

-- Why a client may not speak in a channel: there is none of that name, the client is not in it, or it
-- is muted there.
abbrev pub Silenced : ℕ → Text → Root → Type 0
Silenced sid chan r =
    (lookup chan r.channels ≡ none)
    ⊎ ((ref : ℕ) × (lookup chan r.channels ≡ some ref)
        × ((contains sid (r.channel_at ref).users ≡ false)
            ⊎ (is_muted (r.channel_at ref) (person (r.client_at sid)) ≡ true)))

hook_say_muted :
    (limit : ℕ) (spams : ℕ → ℕ → Text → Root → Bool) (sid ref : ℕ) (msg : Text) (r : Root)
    → is_muted (r.channel_at ref) (person (r.client_at sid)) ≡ true
    → hook_say limit spams sid ref msg r ≡ done r
unfolding hook_say
hook_say_muted limit spams sid ref msg r muted = rw (muted, hook_say) refl

say_hooked_muted :
    (ex : Bool) (sid ref x : ℕ) (chan msg : Text) (r : Root)
    → is_muted (r.channel_at ref) (person (r.client_at sid)) ≡ true
    → eqb x sid ≡ false
    → (received x (after (say_hooked ex sid ref chan msg r)).sent ≡ received x r.sent)
      × ((after (say_hooked ex sid ref chan msg r)).db ≡ r.db)
unfolding say_hooked send received
say_hooked_muted ex sid ref x chan msg r muted other = elim (Bool-cases (is_blank (strip msg))) [
  | inl blank ↦ rw (blank, say_hooked) (refl, refl)
  | inr text ↦ rw (text, say_hooked) (rw muted (ground arith))
]

-- A client that is not in a channel or is muted there cannot speak in it: with SAY and SAYEX no other
-- client is sent anything, and no message is stored.
pub Silenced-unheard :
    (limit : ℕ) (spams : ℕ → ℕ → Text → Root → Bool) (ex : Bool) (sid x : ℕ) (chan msg : Text)
    (r : Root)
    → Silenced sid chan r
    → eqb x sid ≡ false
    → (received x (after (say limit spams ex sid chan msg r)).sent ≡ received x r.sent)
      × ((after (say limit spams ex sid chan msg r)).db ≡ r.db)
unfolding say out_failed send received
Silenced-unheard limit spams ex sid x chan msg r why other = elim (Bool-cases (is_blank msg)) [
  | inl blank ↦ rw (blank, say) (refl, refl)
  | inr text ↦ elim why [
    | inl missing ↦ rw (text, say) (rw missing (ground arith))
    | inr (ref, found, inl outside) ↦ rw (text, say) (rw (found, outside) (ground arith))
    | inr (ref, found, inr muted) ↦ elim (Bool-cases (contains sid (r.channel_at ref).users)) [
      | inr outside ↦ rw (text, say) (rw (found, outside) (ground arith))
      | inl inside ↦
          rw (text, say)
            (rw (found, inside)
              (rw (hook_say_muted limit spams sid ref msg r muted)
                (say_hooked_muted ex sid ref x chan msg r muted other)))
    ]
  ]
]
