-- ===== src/Protocol/History.antt =====
-- protocol/Protocol.py: `_enqueue_channel_store`, `_pump_channel_store`, `_channel_store_done`,
-- `_channel_store_failed`: the queue of messages of one channel that wait to be stored, of which at most
-- one is with the database.
use uberserver.Base.{
  ℕ, Bool, true, false, List, [], ◌∷◌, ◌++◌, Option, none, some, if◌then◌else◌, leb, length,
}
use uberserver.Base.Text.{Text}
pub mod Queue

pub record Stored : Type 0 where
  pub user_id : ℕ
  pub bridged_id : Option ℕ
  pub msg : Text
  pub ex_msg : Bool

-- `history_queue`, and `history_inflight` with the message that is with the database.
pub record Backlog : Type 0 where
  pub history_queue : List Stored
  pub history_inflight : Option Stored

abbrev pub channel_store_max : ℕ
channel_store_max = 10000

-- Nothing where a store is under way or nothing waits.
unfoldable pub pump_channel_store : Backlog → Backlog
pump_channel_store b = elim b.history_inflight [
  | some _ ↦ b
  | none ↦ elim b.history_queue [
    | [] ↦ b
    | m ∷ rest ↦ record { history_queue = rest; history_inflight = some m }
  ]
]

-- Whether the message is taken; one past the limit is dropped.
abbrev pub has_room : Backlog → Bool
has_room b = if leb channel_store_max (length b.history_queue) then false else true

unfoldable pub enqueue_channel_store : Stored → Backlog → Backlog
unfolding pump_channel_store
enqueue_channel_store m b =
    if has_room b
    then pump_channel_store (record b { history_queue = b.history_queue ++ (m ∷ []) })
    else b

-- The store that was under way is over, and the next begins: with `_channel_store_done` and with
-- `_channel_store_failed` alike.
unfoldable pub channel_store_over : Backlog → Backlog
unfolding pump_channel_store
channel_store_over b = pump_channel_store (record b { history_inflight = none })
