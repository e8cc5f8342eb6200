-- ===== src/Examples/Accounts.antt =====
-- The cache of users and the ignore lists in the small lobby.
use uberserver.Base.{
  ℕ, ◌≡◌, refl, subst, Bool, true, false, [], ◌∷◌, ◌++◌, Option, none, some, arith, eqb, eqb_iff,
  if◌then◌else◌, text_eq, nat_eq, text_beq, ◌==◌,
}
use mathlib.Core.Option.{some-injective}
use uberserver.Base.Dict.{contains}
use uberserver.Base.Text.{Text, codes}
use uberserver.Server.Accounts.{Account}
use uberserver.Users.Cache.{
  UserCache, Queries, cached_from_id, cached_from_username, invalidate_user_cache,
}
use uberserver.Users.Cache.Coherence.{Coherent, Keyed, cached_from-Coherent}
use uberserver.Users.Cache.Writes.{invalidate-Coherent}
use uberserver.Users.Ignores.{after_turn, ignore_resolved, ignore_stored}
use uberserver.Users.Ignores.Interleaved.{
  Pending, World, ignore_looked_up, stored, here, next, waits, elsewhere,
}
use uberserver.Users.Ignores.Spared.{NoStaff, Reach-NoStaff}
use uberserver.Examples.{world}

abbrev eve : Account
eve = record {
  user_id = 104;
  username = codes "eve";
  last_ip = codes "9.9.9.9";
  access = codes "user";
  bot = false;
}

-- A table with Eve in it, by whatever access she has.
abbrev table : Account → Queries
table a = record {
  with_id = λ k. if eqb k a.user_id then some a else none;
  with_name = λ k. if k == a.username then some a else none;
}

only_row : (b : Bool) (x a : Account) → (if b then some x else none) ≡ some a → x ≡ a
only_row true x a found = some-injective x a found
only_row false x a found = absurd cc

row_found :
    (a : Account)
    → ((table a).with_id a.user_id ≡ some a) × ((table a).with_name a.username ≡ some a)
row_found a = (
  ground (arith, eqb_iff a.user_id a.user_id),
  ground (arith, text_eq.beq_iff a.username a.username),
)

table-Keyed : (a : Account) → Keyed (table a)
table-Keyed a = (
  (λ k b found.
      subst
        (λ (x : Account).
          ((table a).with_id x.user_id ≡ some x) × ((table a).with_name x.username ≡ some x))
        (only_row (eqb k a.user_id) a b found) (row_found a)),
  λ k b found.
      subst
        (λ (x : Account).
          ((table a).with_id x.user_id ≡ some x) × ((table a).with_name x.username ≡ some x))
        (only_row (k == a.username) a b found) (row_found a),
)

-- Eve is in the cache, until the time 600.
abbrev warm : UserCache
warm = record { by_name = (codes "eve", (eve, 600)) ∷ []; by_id = (104, (eve, 600)) ∷ [] }

cached_from-Coherent_example :
    ((cached_from_id (table eve) 104 500 warm).0 ≡ some eve)
    × Coherent (table eve) (cached_from_id (table eve) 104 500 warm).1
    × ((cached_from_username (table eve) (codes "eve") 500 warm).0 ≡ some eve)
    × Coherent (table eve) (cached_from_username (table eve) (codes "eve") 500 warm).1
unfolding text_beq
cached_from-Coherent_example =
    cached_from-Coherent (table eve) 500 104 (codes "eve") warm (table-Keyed eve)
      (((refl, refl), tt), ((refl, refl), tt))

-- Eve has become a moderator.
abbrev promoted : Account
promoted = record eve { access = codes "mod" }

other_row : (b : Bool) (x a : Account) → (if b then some x else none) ≡ some a → b ≡ false → ⊥
other_row b x a found other = ground (arith, found, other)

invalidate-Coherent_example :
    let d = invalidate_user_cache (some 104) (some (codes "eve")) warm in
    Coherent (table promoted) d
    × ((cached_from_id (table promoted) 104 500 d).0 ≡ some promoted)
    × ((cached_from_username (table promoted) (codes "eve") 500 d).0 ≡ some promoted)
unfolding text_beq
invalidate-Coherent_example =
    invalidate-Coherent (table eve) (table promoted) 104 500 (codes "eve") warm
      (λ k a found own other. absurd (other_row (eqb k 104) eve a found other))
      (λ k a found own other. absurd (other_row (k == codes "eve") eve a found other))
      (((refl, refl), tt), ((refl, refl), tt)) (table-Keyed promoted)

-- Ada ignores Eve; 900 would be a moderator.
abbrev is_staff : ℕ → Bool
is_staff x = eqb x 900

abbrev known : Text → Option (ℕ × Text)
known _ = some (104, codes "user")

abbrev wish : Pending
wish = record { sid = 1; target_id = 104; username = codes "eve"; reason = none; inserts = true }

abbrev quiet_world : World
quiet_world = record { root = world; pending = [] }

abbrev looked_up : World
looked_up = record {
  root = after_turn (ignore_resolved (known (codes "eve")) 1 (codes "eve") world);
  pending = waits wish (ignore_resolved (known (codes "eve")) 1 (codes "eve") world) [];
}

abbrev ignoring_eve : World
ignoring_eve = record { root = ignore_stored 1 (codes "eve") 104 none looked_up.root; pending = [] }

nobody_ignored : (sid x : ℕ) → contains x (world.client_at sid).ignored ≡ true → is_staff x ≡ false
unfolding contains
nobody_ignored sid x m = ground (arith, m)

eve_asked : looked_up.pending ≡ [] ++ (wish ∷ [])
unfolding ignore_resolved contains text_beq
eve_asked = refl

-- The only answer about any name.
abbrev KnownOnly : Text → Option (ℕ × Text) → Type 0
KnownOnly name answer = known name ≡ answer

known_rank :
    (name : Text) (id : ℕ) (access : Text)
    → KnownOnly name (some (id, access))
    → is_staff id ≡ false
known_rank name id access found =
    subst (λ (y : ℕ × Text). is_staff y.0 ≡ false)
      (some-injective (104, codes "user") (id, access) found) refl

-- Client 1 disconnects.
abbrev left : World
left = record ignoring_eve { root = record ignoring_eve.root { clients = 2 ∷ 3 ∷ [] } }

Reach-NoStaff_example : NoStaff is_staff left
Reach-NoStaff_example =
    Reach-NoStaff is_staff KnownOnly quiet_world left
      (λ name id access found low. known_rank name id access found) (nobody_ignored, tt)
      (next
        (next (next here (ignore_looked_up quiet_world wish (known (codes "eve")) refl refl))
          (stored looked_up wish [] [] eve_asked refl))
        (elsewhere ignoring_eve left.root (λ sid. refl)))
