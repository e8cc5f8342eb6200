-- ===== src/Users/Login/Asked.antt =====
-- protocol/Protocol.py: `login_now` until the database is asked, `_validPasswordSyntax`,
-- `_validLegacyPasswordSyntax`, and `_login_finish`. What `base64.b64decode` makes of a text is the
-- parameter `b64decode`; its bytes are never equal to a text, so that the comparison of the two is left
-- out.
use uberserver.Base.{
  ℕ, ◌≡◌, Bool, false, not, List, [], ◌∷◌, Option, none, some, if◌then◌else◌, text_eq, nat_eq, ◌++◌,
  eqb, length, arith, Bool-cases, inl, inr,
}
use uberserver.Base.Dict.{has_key, contains}
use uberserver.Base.Text.{Text, codes}
use uberserver.Hooks.{Lists, is_nasty}
use uberserver.Syntax.Names.{Verdict, valid, invalid, valid_username_syntax}
use uberserver.Server.Types.{Root, Message, lit, txt}
use uberserver.Server.Cast.{send}
use uberserver.Server.Outcome.{after}
use uberserver.Users.Login.{Snapshot, login_finish_now}
use uberserver.Users.Login.Once.{Entered, login_finish_now-OneLogin}

-- What decoding gives: bytes, or the text of an exception.
pub data Decoded : Type 0 where
  bytes : List ℕ → Decoded
  failure : Text → Decoded

unfoldable pub valid_legacy_password_syntax : (Text → Decoded) → Text → Verdict
valid_legacy_password_syntax b64decode [] = invalid (codes "Empty passwords are not allowed.")
valid_legacy_password_syntax b64decode (c ∷ s) = elim (b64decode (c ∷ s)) [
  | failure e ↦ invalid (codes "Invalid base64-encoding: " ++ e)
  | bytes hash ↦ if eqb (length hash) 16 then valid else invalid (codes "Invalid MD5-checksum.")
]

unfoldable pub valid_password_syntax : (Text → Decoded) → Text → Verdict
unfolding valid_legacy_password_syntax
valid_password_syntax b64decode [] = invalid (codes "Empty password.")
valid_password_syntax b64decode (c ∷ s) = valid_legacy_password_syntax b64decode (c ∷ s)

-- A login is answered at once, or its credentials are looked up on another thread.
pub data Asked : Type 0 where
  answered : Root → Asked
  looked_up : Asked

abbrev deny : ℕ → Message → Root → Asked
deny sid reason r = answered (send sid (lit "DENIED " ∷ reason) r)

unfoldable pub login_now : Lists → (Text → Decoded) → ℕ → Text → Text → Root → Asked
unfolding valid_username_syntax valid_password_syntax is_nasty send
login_now l b64decode sid username password r = elim (valid_username_syntax username) [
  | invalid reason ↦ deny sid (txt reason ∷ []) r
  | valid ↦ elim (valid_password_syntax b64decode password) [
    | invalid reason ↦ deny sid (txt reason ∷ []) r
    | valid ↦
        if has_key username r.usernames
        then deny sid (lit "Already logged in." ∷ []) r
        else if is_nasty l username
        then deny sid (lit "Invalid username: '" ∷ txt username ∷ lit "'" ∷ []) r
        else looked_up
  ]
]

-- The database is asked only about a name and a password of the right form, a name that nobody who is
-- logged in has, and a name without a listed word.
login_now-looked_up :
    (l : Lists) (b64decode : Text → Decoded) (sid : ℕ) (username password : Text) (r : Root)
    → login_now l b64decode sid username password r ≡ looked_up
    → (valid_username_syntax username ≡ valid)
      × (valid_password_syntax b64decode password ≡ valid)
      × (has_key username r.usernames ≡ false)
      × (is_nasty l username ≡ false)
unfolding login_now
login_now-looked_up l b64decode sid username password r h = ground arith

-- What follows the answer of `do_login`. An exception is logged, and what was written until then stays.
unfoldable pub login_finish : (Text → Bool) → ℕ → Option Snapshot → Text → Text → Root → Root
unfolding login_finish_now send
login_finish is_address sid result agent local_ip r =
    if not (contains sid r.clients) then r else elim result [
      | none ↦ send sid (lit "DENIED " ∷ lit "Invalid username or password" ∷ []) r
      | some u ↦ after (login_finish_now is_address sid u agent local_ip r)
    ]

-- After `_login_finish` each client that is logged in is the one that its id leads to, where this held
-- before and the client was not logged in.
login_finish-Entered :
    (is_address : Text → Bool) (sid : ℕ) (result : Option Snapshot) (agent local_ip : Text)
    (r : Root)
    → Entered r
    → (r.client_at sid).logged_in ≡ false
    → Entered (login_finish is_address sid result agent local_ip r)
unfolding login_finish send
login_finish-Entered is_address sid none agent local_ip r h out =
    elim (Bool-cases (contains sid r.clients)) [
      | inl there ↦ rw (there, login_finish) h
      | inr gone ↦ rw (gone, login_finish) h
    ]
login_finish-Entered is_address sid (some u) agent local_ip r h out =
    elim (Bool-cases (contains sid r.clients)) [
      | inl there ↦
          rw (there, login_finish)
            (login_finish_now-OneLogin is_address sid u agent local_ip r h out).0
      | inr gone ↦ rw (gone, login_finish) h
    ]
