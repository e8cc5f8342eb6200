-- ===== src/Protocol/Bridge/Restored.antt =====
-- What UNBRIDGECLIENTFROM of protocol/Protocol.py takes back of BRIDGECLIENTFROM.
use uberserver.Base.{
  ℕ, [], ◌∷◌, ◌≡◌, refl, ◌∙◌, true, false, none, some, arith, eqb, eqb_iff, eq_refl, nat_eq,
  text_eq,
}
use uberserver.Base.Dict.{
  Dict, lookup, lookup-insert, insert, erase, contains, contains-add, has_key, discard,
}
use uberserver.Base.Dict.Undone.{erase-insert, insert-insert, insert-lookup, discard-add}
use uberserver.Base.Text.{Text}
use uberserver.Server.Types.{Root, lit, txt}
use uberserver.Server.Store.{set_client, has_flag, client_from_id}
use uberserver.Server.Cast.{send}
use uberserver.Server.Outcome.{done}
use uberserver.Channel.Members.{u_flag}
use uberserver.Protocol.Bridge.{
  bridged, bridged_client, bridge_user_of, found_in, leave_all_from, forget_bridged,
  in_unbridgeclientfrom,
}
use uberserver.Protocol.Bridge.Admission.{bridged_name, install}

-- The tables that lead to a bridged user.
found_by :
    (s : Root) (location external_id : Text) (user_id sid b : ℕ) (names : Dict Text ℕ)
    → lookup location s.bridged_locations ≡ some user_id
    → client_from_id s user_id ≡ some sid
    → lookup location (s.client_at sid).bridge ≡ some names
    → lookup external_id names ≡ some b
    → contains b s.bridged_ids ≡ true
    → bridged_client s location external_id ≡ bridged b
unfolding bridged_client
found_by s location external_id user_id sid b names at online table entry known =
    rw (at, bridged_client) (rw online (rw table (rw (entry, found_in) (rw known refl))))

-- What is left once a bridged user has been forgotten.
abbrev forgotten : ℕ → Text → Text → ℕ → Dict Text ℕ → Root → Root
forgotten sid location external_id b names s =
    send sid
      (lit "UNBRIDGEDCLIENTFROM "
        ∷ txt (s.bridged_at b).location
        ∷ lit " "
        ∷ txt (s.bridged_at b).external_id
        ∷ [])
      (record (set_client sid
        (λ c. record c { bridge = insert location (erase external_id names) c.bridge }) s) {
          bridged_ids = discard b s.bridged_ids;
          bridged_usernames = erase (s.bridged_at b).username s.bridged_usernames;
        })

forgotten_bridge :
    (sid : ℕ) (location external_id : Text) (b : ℕ) (names : Dict Text ℕ) (s : Root)
    → ((forgotten sid location external_id b names s).client_at sid).bridge
      ≡ insert location (erase external_id names) (s.client_at sid).bridge
unfolding send
forgotten_bridge sid location external_id b names s = ground (arith, eqb_iff sid sid)

forget_by :
    (sid : ℕ) (location external_id : Text) (b : ℕ) (names : Dict Text ℕ) (s : Root)
    → lookup location (s.client_at sid).bridge ≡ some names
    → has_key external_id names ≡ true
    → contains b s.bridged_ids ≡ true
    → has_key (s.bridged_at b).username s.bridged_usernames ≡ true
    → forget_bridged sid location external_id b s
      ≡ done (forgotten sid location external_id b names s)
unfolding forget_bridged
forget_by sid location external_id b names s table entry known named =
    rw (table, forget_bridged) (rw entry (rw known (rw named refl)))

unbridge_by :
    (sid : ℕ) (location external_id : Text) (b : ℕ) (s : Root)
    → has_flag (s.client_at sid) u_flag ≡ true
    → bridged_client s location external_id ≡ bridged b
    → eqb (bridge_user_of s b) (s.client_at sid).user_id ≡ true
    → (s.bridged_at b).channels ≡ []
    → in_unbridgeclientfrom sid location external_id s ≡ forget_bridged sid location external_id b s
unfolding in_unbridgeclientfrom leave_all_from
unbridge_by sid location external_id b s flag found own alone =
    rw (flag, in_unbridgeclientfrom) (rw found (rw own (rw alone refl)))

-- The client with this session id is online, and the bridge of the location, whose table is `names`.
abbrev pub Bridges : ℕ → Text → Dict Text ℕ → Root → Type 0
Bridges sid location names r =
    (lookup location r.bridged_locations ≡ some (r.client_at sid).user_id)
    × (client_from_id r (r.client_at sid).user_id ≡ some sid)
    × (lookup location (r.client_at sid).bridge ≡ some names)
    × (has_flag (r.client_at sid) u_flag ≡ true)

-- Neither the id nor the names are in use.
abbrev pub Unused : Text → Text → Text → ℕ → Dict Text ℕ → Root → Type 0
Unused location external_id external_username b names r =
    (lookup external_id names ≡ none)
    × (contains b r.bridged_ids ≡ false)
    × (lookup (bridged_name location external_username) r.bridged_usernames ≡ none)

module _ (sid : ℕ) (location external_id external_username : Text) (b : ℕ) (names : Dict Text ℕ)
    (r : Root) where
  abbrev after_install : Root
  after_install = install sid location external_id external_username b names r

  installed_bridge :
      (after_install.client_at sid).bridge
      ≡ insert location (insert external_id b names) (r.client_at sid).bridge
  unfolding install send
  installed_bridge = ground (arith, eqb_iff sid sid)

  installed_names :
      lookup location (after_install.client_at sid).bridge ≡ some (insert external_id b names)
  installed_names = rw installed_bridge (
      lookup-insert location location (insert external_id b names) (r.client_at sid).bridge
      ∙ ground (arith, eq_refl location))

  installed_found :
      Bridges sid location names r → bridged_client after_install location external_id ≡ bridged b
  unfolding install send client_from_id
  installed_found (at, online, table, flag) =
      found_by after_install location external_id (r.client_at sid).user_id sid b
        (insert external_id b names) at online installed_names
        (lookup-insert external_id external_id b names ∙ ground (arith, eq_refl external_id))
        (contains-add b b r.bridged_ids ∙ ground (arith, eq_refl b))

  installed_username :
      (after_install.bridged_at b).username ≡ bridged_name location external_username
  unfolding install send
  installed_username = ground (arith, eqb_iff b b)

  installed_named :
      has_key (after_install.bridged_at b).username after_install.bridged_usernames ≡ true
  unfolding install send
  installed_named = rw installed_username (
      ground (
        arith,
        lookup-insert (bridged_name location external_username)
            (bridged_name location external_username) b r.bridged_usernames,
        eq_refl (bridged_name location external_username),
      ))

  abbrev after_forget : Root
  after_forget = forgotten sid location external_id b (insert external_id b names) after_install

  unbridges :
      Bridges sid location names r
      → in_unbridgeclientfrom sid location external_id after_install ≡ done after_forget
  unfolding install send
  unbridges h =
      unbridge_by sid location external_id b after_install (ground (arith, h, eqb_iff sid sid))
        (installed_found h) (ground (arith, eqb_iff b b, eqb_iff sid sid))
        (ground (arith, eqb_iff b b))
      ∙ forget_by sid location external_id b (insert external_id b names) after_install
          installed_names
          (ground (arith, lookup-insert external_id external_id b names, eq_refl external_id))
          (contains-add b b r.bridged_ids ∙ ground (arith, eq_refl b)) installed_named

  restored_bridge :
      lookup location (r.client_at sid).bridge ≡ some names
      → lookup external_id names ≡ none
      → (after_forget.client_at sid).bridge ≡ (r.client_at sid).bridge
  restored_bridge table new =
      forgotten_bridge sid location external_id b (insert external_id b names) after_install
      ∙ rw (installed_bridge, erase-insert external_id b names new)
          (insert-insert location names (insert external_id b names) (r.client_at sid).bridge
            ∙ insert-lookup location names (r.client_at sid).bridge table)

-- UNBRIDGECLIENTFROM takes back BRIDGECLIENTFROM: when the bridge of a location, which is online and
-- has the flag u, has brought in a user whose id and names were not in use and takes it off again, the
-- tables of bridged users are what they were, the bridge's own included.
pub unbridge-install :
    (sid : ℕ) (location external_id external_username : Text) (b : ℕ) (names : Dict Text ℕ)
    (r : Root)
    → Bridges sid location names r
    → Unused location external_id external_username b names r
    → (s : Root) × (in_unbridgeclientfrom sid location external_id
          (install sid location external_id external_username b names r)
        ≡ done s)
      × (s.bridged_ids ≡ r.bridged_ids)
      × (s.bridged_usernames ≡ r.bridged_usernames)
      × ((s.client_at sid).bridge ≡ (r.client_at sid).bridge)
      × (s.bridged_locations ≡ r.bridged_locations)
unfolding install send
unbridge-install sid location external_id external_username b names r h u =
    let (at, online, table, flag) = h in
    let (new, known, named) = u in
    (
      after_forget sid location external_id external_username b names r,
      unbridges sid location external_id external_username b names r h,
      discard-add b r.bridged_ids known,
      rw (installed_username sid location external_id external_username b names r)
          (erase-insert (bridged_name location external_username) b r.bridged_usernames named),
      restored_bridge sid location external_id external_username b names r table new,
      refl,
    )
