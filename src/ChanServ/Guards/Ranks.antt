-- ===== src/ChanServ/Guards/Ranks.antt =====
-- The ranks of ChanServ.py, `HandleCommand`: what is left to operators and to ordinary users.
use uberserver.Base.{
  ℕ, ◌≡◌, refl, sym, Bool, true, false, List, [], ◌∷◌, Option, none, some, arith, text_eq,
  Option-cases, inl, inr, ◌==◌, ◌⊎◌, subst, ◌∙◌, text_beq,
}
use uberserver.Base.Dict.{lookup, contains}
use uberserver.Base.Text.{Text, codes, lower}
use uberserver.Server.Types.{Root, Message}
use uberserver.Server.Store.{client_from_username}
use uberserver.Server.Outcome.{Outcome}
use uberserver.Server.Accounts.{UserDb}
use uberserver.Channel.Access.{Person, person, is_mod, is_founder, is_op, get_access}
use uberserver.ChanServ.{answered, Call, governor, officer, access_of}
use uberserver.ChanServ.Listing.{battlename_command, showip_command}
use uberserver.ChanServ.Commands.{
  setbot_command, refreship_command, register_command, channel_command, named_command, with_channel,
  handle_command,
}
use uberserver.ChanServ.Guards.{
  Harmless, ◌▸◌, unknown-Harmless, ungoverned, unpoliced, unstaffed, listmutes-Harmless,
  listbans-Harmless, info-Harmless, listforwards-Harmless,
}

-- The commands with which operators act on users and on the topic.
abbrev pub policing : List Text
policing =
    codes "mute" ∷ codes "unmute" ∷ codes "ban" ∷ codes "unban" ∷ codes "kick" ∷ codes "topic" ∷ []

true_is_not_false : true ≡ false → ⊥
true_is_not_false h = cc

-- Whether a command is one of them, and lets an operator pass.
abbrev pub Barred : Root → Person → Text → ℕ → Type 0
Barred r c cmd ref = (contains cmd policing ≡ false) ⊎ (is_op (r.channel_at ref) c ≡ false)

governor-none :
    (k : Call) (r : Root) (c : Person)
    → k.client ≡ some c
    → is_founder (r.channel_at k.ref) c ≡ false
    → governor k r ≡ none
unfolding governor access_of get_access is_founder
governor-none k r c e h = rw (e, governor) (ground arith)

officer-none :
    (k : Call) (r : Root) (c : Person)
    → k.client ≡ some c
    → is_op (r.channel_at k.ref) c ≡ false
    → officer k r ≡ none
unfolding officer access_of get_access is_op is_founder
officer-none k r c e h = rw (e, officer) (ground arith)

not_mod :
    (r : Root) (ref : ℕ) (c : Person) → is_founder (r.channel_at ref) c ≡ false → is_mod c ≡ false
unfolding is_founder
not_mod r ref c h = ground arith

-- In a call by `c`, who is not the founder of the channel.
module _ (respond : Message → Root → Outcome) (limit : ℕ) (users : UserDb) (cmd : Text) (k : Call)
    (r : Root) (c : Person) (caller : k.client ≡ some c)
    (low : is_founder (r.channel_at k.ref) c ≡ false) (barred : Barred r c cmd k.ref) where
  -- At one of the six commands the user is no operator.
  no_officer :
      (name : Text) → contains name policing ≡ true → (cmd == name) ≡ true → officer k r ≡ none
  no_officer name m e = elim barred [
    | inr lower_still ↦ officer-none k r c caller lower_still
    | inl out ↦
        let in_list : contains cmd policing ≡ true =
          subst (λ (t : Text). contains t policing ≡ true) (sym ((text_eq.beq_iff cmd name).0 e))
            m in
        absurd (true_is_not_false (sym in_list ∙ out))
  ]

  channel_command-Harmless : Harmless r (channel_command limit users respond cmd k r)
  unfolding channel_command contains text_beq
  channel_command-Harmless =
      let ruled = ungoverned respond limit users k r (governor-none k r c caller low) in
      let staffed = unstaffed respond limit users k r c caller (not_mod r k.ref c low) in
      let police = λ (name : Text) (m : contains name policing ≡ true) (e : (cmd == name) ≡ true).
        unpoliced respond limit users k r (no_officer name m e) in
      (λ _. ruled.0)
      ▸ (λ _. staffed.0)
      ▸ (λ _. staffed.1)
      ▸ (λ _. listforwards-Harmless respond limit users k r)
      ▸ (λ _. ruled.1)
      ▸ (λ _. ruled.2)
      ▸ (λ _. ruled.3)
      ▸ (λ _. ruled.4)
      ▸ (λ _. ruled.5)
      ▸ (λ _. ruled.6)
      ▸ (λ e. (police (codes "mute") refl e).0)
      ▸ (λ e. (police (codes "unmute") refl e).1)
      ▸ (λ _. listmutes-Harmless respond limit users k r)
      ▸ (λ e. (police (codes "ban") refl e).2)
      ▸ (λ e. (police (codes "unban") refl e).3)
      ▸ (λ _. listbans-Harmless respond limit users k r)
      ▸ (λ e. (police (codes "kick") refl e).4)
      ▸ (λ e. (police (codes "topic") refl e).5)
      ▸ (λ _. info-Harmless respond limit users k r)
      ▸ unknown-Harmless cmd r

-- Below the rank of a founder of the channel `name`, and with no command that an operator may give.
abbrev pub Powerless : Root → Person → Text → Text → Type 0
Powerless r c cmd name =
    (ref : ℕ)
    → lookup name r.channels ≡ some ref
    → (is_founder (r.channel_at ref) c ≡ false) × Barred r c cmd ref

module _ (respond : Message → Root → Outcome) (limit : ℕ) (users : UserDb) (user cmd : Text)
    (c : Person) (args : Option Text) (r : Root) (outsider : is_mod c ≡ false) where
  register-Harmless :
      (name : Text) → Harmless r (register_command limit users respond user (some c) name args r)
  unfolding register_command
  register-Harmless name = record { same = rw (outsider, register_command) refl }

  named-Harmless :
      (name : Text)
      → Powerless r c cmd name
      → Harmless r (named_command limit users respond user cmd (some c) name args r)
  unfolding named_command
  named-Harmless name low =
      let registering = (register-Harmless name).same in
      elim (Option-cases (lookup name r.channels)) [
        | inl missing ↦ record { same = ground arith }
        | inr (ref, found) ↦
            let k : Call = record {
              user = user;
              client = some c;
              chan = name;
              ref = ref;
              args = args;
            } in
            let inside =
              (channel_command-Harmless respond limit users cmd k r c refl (low ref found).0
                (low ref found).1).same in
            record { same = ground arith }
      ]

  with_channel-Harmless :
      (chan : Option Text)
      → ((name : Text) → chan ≡ some name → Powerless r c cmd name)
      → Harmless r (with_channel limit users respond user cmd (some c) chan args r)
  unfolding with_channel
  with_channel-Harmless none low = record { same = refl }
  with_channel-Harmless (some []) low = record { same = refl }
  with_channel-Harmless (some (x ∷ s)) low = record {
    same = ground (arith, (named-Harmless (x ∷ s) (low (x ∷ s) refl)).same);
  }

  setbot-Harmless :
      (flag : Bool) (chan : Option Text)
      → Harmless r (setbot_command users flag (some c) chan args r)
  unfolding setbot_command
  setbot-Harmless flag chan = record { same = rw (outsider, setbot_command) refl }

  showip-Harmless : Harmless r (showip_command (some c) r)
  unfolding showip_command
  showip-Harmless = record { same = rw (outsider, showip_command) refl }

  refreship-Harmless : Harmless r (refreship_command (some c) r)
  unfolding refreship_command is_mod
  refreship-Harmless = record { same = ground arith }

battlename-Harmless :
    (users : UserDb) (chan : Option Text) (r : Root) → Harmless r (battlename_command users chan r)
unfolding battlename_command
battlename-Harmless users chan r = record { same = ground arith }

-- Whoever is online, is no moderator of the server and is not the founder of the channel that a
-- command to ChanServ names, changes nothing at all with it, unless it is one of the six commands for
-- operators and the user is an operator of that channel.
pub ranks_hold :
    (respond : Message → Root → Outcome) (limit : ℕ) (users : UserDb) (user command : Text)
    (chan args : Option Text) (sid : ℕ) (r : Root)
    → client_from_username r user ≡ some sid
    → is_mod (person (r.client_at sid)) ≡ false
    → ((name : Text)
        → chan ≡ some name
        → Powerless r (person (r.client_at sid)) (lower command) name)
    → answered (handle_command limit users respond user command chan args r) ≡ r
unfolding handle_command
ranks_hold respond limit users user command chan args sid r online outsider low =
    let c = person (r.client_at sid) in
    let cmd = lower command in
    rw (online, handle_command)
      (ground (
        arith,
        (battlename-Harmless users chan r).same,
        (setbot-Harmless respond limit users user cmd c args r outsider true chan).same,
        (setbot-Harmless respond limit users user cmd c args r outsider false chan).same,
        (refreship-Harmless respond limit users user cmd c args r outsider).same,
        (showip-Harmless respond limit users user cmd c args r outsider).same,
        (with_channel-Harmless respond limit users user cmd c args r outsider chan low).same,
      ))
