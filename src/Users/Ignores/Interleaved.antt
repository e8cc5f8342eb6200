-- ===== src/Users/Ignores/Interleaved.antt =====
-- IGNORE and UNIGNORE of protocol/Protocol.py while the answers of the database come in any order: the
-- events as a relation.
use uberserver.Base.{ℕ, ◌≡◌, Bool, true, false, List, ◌∷◌, ◌++◌, Option, nat_eq, text_eq}
use uberserver.Base.Text.{Text}
use uberserver.Server.Types.{Root}
use uberserver.Users.Ignores.{
  Turn, ends, asks, after_turn, ignore_resolved, ignore_stored, unignore_resolved, unignore_removed,
}

-- An INSERT or a DELETE whose answer has not come: the client, the id and the name.
pub record Pending : Type 0 where
  pub sid : ℕ
  pub target_id : ℕ
  pub username : Text
  pub reason : Option Text
  pub inserts : Bool

-- The server, and what it waits for, in no order.
pub record World : Type 0 where
  pub root : Root
  pub pending : List Pending

abbrev pub waits : Pending → Turn ℕ → List Pending → List Pending
waits p (ends _) ps = ps
waits p (asks target_id _) ps = record p { target_id = target_id } ∷ ps

-- `answers` are the answers that the database can give about a name: its id and access. Two lookups of a
-- name need not be answered alike.
module _ (answers : Text → Option (ℕ × Text) → Type 0) where
  pub data Step : World → World → Type 0 where
    ignore_looked_up :
        (w : World) (p : Pending) (resolved : Option (ℕ × Text))
        → answers p.username resolved
        → p.inserts ≡ true
        → Step w (record {
          root = after_turn (ignore_resolved resolved p.sid p.username w.root);
          pending = waits p (ignore_resolved resolved p.sid p.username w.root) w.pending;
        })
    unignore_looked_up :
        (w : World) (p : Pending) (resolved : Option (ℕ × Text))
        → answers p.username resolved
        → p.inserts ≡ false
        → Step w (record {
          root = after_turn (unignore_resolved resolved p.sid w.root);
          pending = waits p (unignore_resolved resolved p.sid w.root) w.pending;
        })
    stored :
        (w : World) (p : Pending) (before later : List Pending)
        → w.pending ≡ before ++ (p ∷ later)
        → p.inserts ≡ true
        → Step w (record {
          root = ignore_stored p.sid p.username p.target_id p.reason w.root;
          pending = before ++ later;
        })
    removed :
        (w : World) (p : Pending) (before later : List Pending)
        → w.pending ≡ before ++ (p ∷ later)
        → p.inserts ≡ false
        → Step w (record {
          root = unignore_removed p.sid p.username p.target_id w.root;
          pending = before ++ later;
        })
    failed :
        (w : World) (p : Pending) (before later : List Pending)
        → w.pending ≡ before ++ (p ∷ later)
        → Step w (record w { pending = before ++ later })
    -- Another step of the server, a disconnection say, that writes to no ignore list.
    elsewhere :
        (w : World) (r : Root)
        → ((sid : ℕ) → (r.client_at sid).ignored ≡ (w.root.client_at sid).ignored)
        → Step w (record w { root = r })

  pub data Reach (start : World) : World → Type 0 where
    here : Reach start start
    next : {v w : World} → Reach start v → Step v w → Reach start w
