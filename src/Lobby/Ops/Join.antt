-- ===== src/Lobby/Ops/Join.antt =====
-- bpserver/lobby.go: who may join.
use burnout_paradise_server.Common.{
  ◌≡◌, ◌≢◌, ◌≤◌, ◌<◌, ◌⊎◌, refl, sym, subst, [], ◌∷◌, ◌++◌, ◌∙◌, true, false, Option, none, some,
  inl, inr, arith, leb, ◌==◌, ==_refl, ==_false, Bytes, if_cases, length, length-append, ap,
}
use burnout_paradise_server.Net.{Net}
use burnout_paradise_server.Types.{Server, ServiceClient, LocalLobby, Ptr, nil}
use burnout_paradise_server.Payload.Address.{is_some, get_valid_player_address}
use burnout_paradise_server.Lobby.Roster.{contains}
use burnout_paradise_server.Lobby.Ops.{
  Snapshot, set_client, set_lobby, fix_address, max_players, join_lobby, join_local_lobby,
  local_lobby_snapshot_locked,
}

module _ (net : Net) where
  -- An address that parses, and that is the one before if that one parses.
  abbrev pub IsValid : Bytes → Bytes → Type 0
  IsValid before address =
      (is_some (net.parse_ip address) ≡ true)
      × ((is_some (net.parse_ip before) ≡ false) ⊎ (address ≡ before))

  get_valid_player_address-IsValid :
      (before fallback : Bytes) → IsValid before (get_valid_player_address net before fallback)
  unfolding get_valid_player_address
  get_valid_player_address-IsValid before fallback =
      if_cases (IsValid before) (is_some (net.parse_ip before)) _ _ (λ e. (e, inr refl))
        (λ e.
          if_cases (IsValid before) (is_some (net.parse_ip fallback)) _ _ (λ f. (f, inl e))
            (λ f. (ap is_some net.parse_ip-loopback_one, inl e)))

  -- What a call of a client that asks to join makes of a server with a lobby.
  pub data Joins (s : Server) (l : LocalLobby) (client : Ptr) (r : Server × Option Snapshot)
      : Type 0 where
    again :
        contains client l.players ≡ true
        → r ≡ (s, some (local_lobby_snapshot_locked net s))
        → Joins s l client r
    refused :
        contains client l.players ≡ false
        → max_players l.request ≤ length l.players
        → r ≡ (s, none)
        → Joins s l client r
    joined :
        contains client l.players ≡ false
        → length (l.players ++ client ∷ []) ≤ max_players l.request
        → r.0.lobby ≡ some (record l { players = l.players ++ client ∷ [] })
        → r.1 ≡ some (local_lobby_snapshot_locked net r.0)
        → IsValid (s.client client).address (r.0.client client).address
        → r.0.client client ≡ record (s.client client) { address = (r.0.client client).address }
        → ((p : Ptr) → (p ≡ client) ⊎ (r.0.client p ≡ s.client p))
        → Joins s l client r

  fix_address-others :
      (s : Server) (client p : Ptr)
      → (p ≡ client) ⊎ ((fix_address net s client).client p ≡ s.client p)
  unfolding fix_address set_client
  fix_address-others s client p =
      if_cases (λ (c : ServiceClient). (p ≡ client) ⊎ (c ≡ s.client p)) (p == client) _ _
        (λ e. inl (ground (arith, e))) (λ e. inr refl)

  fix_address-own :
      (s : Server) (client : Ptr)
      → (fix_address net s client).client client ≡ record (s.client client) {
        address = get_valid_player_address net (s.client client).address s.config.advertise_address;
      }
  unfolding fix_address set_client
  fix_address-own s client = rw (==_refl client) refl

  joining :
      (s : Server) (l : LocalLobby) (client : Ptr)
      → contains client l.players ≡ false
      → length (l.players ++ client ∷ []) ≤ max_players l.request
      → let s' =
          set_lobby (fix_address net s client) (record l { players = l.players ++ client ∷ [] }) in
        Joins s l client (s', some (local_lobby_snapshot_locked net s'))
  unfolding set_lobby
  joining s l client c room =
      let own = fix_address-own s client in
      joined c room refl refl
        (subst (λ a. IsValid (s.client client).address a) (sym (ap (λ x. x.address) own))
          (get_valid_player_address-IsValid (s.client client).address s.config.advertise_address))
        (own ∙ ap (λ a. record (s.client client) { address = a }) (sym (ap (λ x. x.address) own)))
        (λ p. fix_address-others s client p)

  -- With a lobby that has a host, a client that is in it gets it as it is, and a client that finds it full is
  -- refused; in both cases the server is as it was. Any other client joins at the end of the roster, which has at
  -- most MAXSIZE players then, with the lobby otherwise the same, and gets it; the client then has an address
  -- that parses, the one it had if that one parses, and nothing else of it and no other client is changed.
  pub join_lem :
      (s : Server) (l : LocalLobby) (client : Ptr)
      → s.lobby ≡ some l
      → l.host ≢ nil
      → Joins s l client (join_local_lobby net s client)
  unfolding join_local_lobby join_lobby
  join_lem s l client here n =
      subst (λ r. Joins s l client r)
        (sym (
          ap (λ o. elim o [ none ↦ (s, none) | some l' ↦ join_lobby net s l' client ]) here
          ∙ rw (==_false l.host nil n) refl))
        (if_cases (Joins s l client) (contains client l.players) _ _ (λ c. again c refl)
          (λ c.
            if_cases (Joins s l client) (leb (max_players l.request) (length l.players)) _ _
              (λ full. refused c (ground (arith, full)) refl)
              (λ room.
                let below : length l.players < max_players l.request = ground (arith, room) in
                joining s l client c
                  (omega (arith, below, length-append l.players (client ∷ []))))))
