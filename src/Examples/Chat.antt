-- ===== src/Examples/Chat.antt =====
-- The theorems about what is said, in the small lobby.
use uberserver.Base.{ℕ, ◌≡◌, refl, Bool, false, [], ◌∷◌, none, inl, inr, text_beq}
use uberserver.Base.Dict.{contains, lookup}
use uberserver.Base.Text.{Text, codes}
use uberserver.Server.Types.{Root, Message}
use uberserver.Server.Store.{client_from_username}
use uberserver.Server.Outcome.{after}
use uberserver.Server.Delivery.{received}
use uberserver.Protocol.Chat.{say, say_private}
use uberserver.Protocol.Chat.Private.{ignore_unobservable, ignoring, Silenced-unheard}
use uberserver.Protocol.History.{Stored, enqueue_channel_store}
use uberserver.Protocol.History.Queue.{Past, start, say_taken, here, next, InOrder, Reach-InOrder}
use uberserver.Examples.{world, main}

abbrev never : ℕ → ℕ → Text → Root → Bool
never _ _ _ _ = false

-- Ada and Cid are in main.
abbrev talk : Root
talk = record world {
  channel_at = λ _. record main { users = 1 ∷ 3 ∷ []; user_clients = 1 ∷ 3 ∷ [] };
}

abbrev deaf : Message → Root → Root
deaf _ r = r

ignore_unobservable_example :
    (received 1
        (say_private deaf false 1 (codes "bob") (codes "hi") (ignoring 2 (107 ∷ []) world)).sent
      ≡ received 1 (say_private deaf false 1 (codes "bob") (codes "hi") world).sent)
    × (received 2
          (say_private deaf false 1
            (codes "bob")
            (codes "hi")
            (ignoring 2 (101 ∷ 107 ∷ []) world)).sent
        ≡ received 2 world.sent)
unfolding client_from_username lookup text_beq
ignore_unobservable_example =
    ignore_unobservable deaf false 1 2 (codes "bob") (codes "hi") (107 ∷ []) world refl refl refl

Silenced-unheard_example :
    (received 1 (after (say 2 never false 2 (codes "main") (codes "hi") world)).sent
      ≡ received 1 world.sent)
    × ((after (say 2 never false 2 (codes "main") (codes "hi") world)).db ≡ world.db)
unfolding lookup text_beq contains
Silenced-unheard_example =
    Silenced-unheard 2 never false 2 1 (codes "main") (codes "hi") world (inr (0, refl, inl refl))
      refl

abbrev hello : Stored
hello = record { user_id = 101; bridged_id = none; msg = codes "hello"; ex_msg = false }

abbrev told : Past
told = record start { now = enqueue_channel_store hello start.now; taken = hello ∷ [] }

Reach-InOrder_example : InOrder told
Reach-InOrder_example = Reach-InOrder (next here (say_taken start hello refl))
