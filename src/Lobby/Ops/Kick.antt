-- ===== src/Lobby/Ops/Kick.antt =====
-- bpserver/lobby.go: who may be kicked, and by whom.
use burnout_paradise_server.Common.{
  ◌≡◌, refl, sym, subst, ap, List, [], ◌∷◌, Bool, true, false, not, ◌&&◌, Option, none, some, inl,
  inr, arith, Bytes, ◌==◌, Bool-cases,
}
use burnout_paradise_server.Net.{Net}
use burnout_paradise_server.Text.{equal_fold}
use burnout_paradise_server.Types.{Server, LocalLobby, Ptr, nil}
use burnout_paradise_server.Lobby.Roster.{contains, remove_first}
use burnout_paradise_server.Lobby.Roster.Count.{contains-head, contains-tail}
use burnout_paradise_server.Lobby.Ops.{
  Snapshot, set_lobby, find_player, kick_player, kick_from, kick_local_lobby_player,
}

-- What a player is that is found under a name.
abbrev Found : Server → (Ptr → Bool) → Bytes → List Ptr → Option Ptr → Type 0
Found s eligible persona ps none = Unit {0}
Found s eligible persona ps (some p) =
    (contains p ps ≡ true)
    × (eligible p ≡ true)
    × (equal_fold (s.client p).persona_name persona ≡ true)

Found-tail :
    (s : Server) (eligible : Ptr → Bool) (persona : Bytes) (q : Ptr) (ps : List Ptr)
    (o : Option Ptr)
    → Found s eligible persona ps o
    → Found s eligible persona (q ∷ ps) o
Found-tail s eligible persona q ps none h = tt
Found-tail s eligible persona q ps (some p) h = (contains-tail p q ps h.0, h.1, h.2)

find_player-Found :
    (s : Server) (eligible : Ptr → Bool) (persona : Bytes) (ps : List Ptr)
    → Found s eligible persona ps (find_player s eligible persona ps)
unfolding find_player
find_player-Found s eligible persona [] = tt
find_player-Found s eligible persona (q ∷ ps) = elim (Bool-cases (eligible q)) [
  | inr e ↦
      rw (find_player, e)
        (Found-tail s eligible persona q ps _ (find_player-Found s eligible persona ps))
  | inl e ↦ elim (Bool-cases (equal_fold (s.client q).persona_name persona)) [
    | inl f ↦ rw (find_player, Found, e, f) (contains-head q ps, e, f)
    | inr f ↦
        rw (find_player, e, f)
          (Found-tail s eligible persona q ps _ (find_player-Found s eligible persona ps))
  ]
]

module _ (net : Net) where
  -- What a kick does: nothing, or the host takes one other player with the wanted name off the roster.
  abbrev pub Kicked : Server → LocalLobby → Ptr → Bytes → Server × Option (Snapshot × Ptr) → Type 0
  Kicked s l client persona (s', none) = s' ≡ s
  Kicked s l client persona (s', some (snapshot, p)) =
      ((l.host == client) ≡ true)
      × ((p == l.host) ≡ false)
      × ((p == nil) ≡ false)
      × (contains p l.players ≡ true)
      × (equal_fold (s.client p).persona_name persona ≡ true)
      × (s' ≡ set_lobby s (record l { players = remove_first p l.players }))

  kick_player-Kicked :
      (s : Server) (l : LocalLobby) (client : Ptr) (persona : Bytes) (o : Option Ptr)
      → (l.host == client) ≡ true
      → Found s (λ p. not (p == nil) && not (p == l.host)) persona l.players o
      → Kicked s l client persona (kick_player net s l o)
  unfolding kick_player
  kick_player-Kicked s l client persona none h f = refl
  kick_player-Kicked s l client persona (some p) h f =
      (h, ground (arith, f.1), ground (arith, f.1), f.0, f.2, refl)

  kick_from-Kicked :
      (s : Server) (l : LocalLobby) (client : Ptr) (persona : Bytes)
      → Kicked s l client persona (kick_from net s l client persona)
  unfolding kick_from
  kick_from-Kicked s l client persona = elim (Bool-cases (l.host == client)) [
    | inr n ↦ rw (kick_from, n) refl
    | inl h ↦
        rw (kick_from, h)
          (kick_player-Kicked s l client persona _ h
            (find_player-Found s (λ p. not (p == nil) && not (p == l.host)) persona l.players))
  ]

  -- With a lobby, a kick leaves the server as it was, or its caller is the host, and it takes one other
  -- player with the wanted name off the roster and changes nothing else.
  pub kick_lem :
      (s : Server) (l : LocalLobby) (client : Ptr) (persona : Bytes)
      → s.lobby ≡ some l
      → Kicked s l client persona (kick_local_lobby_player net s client persona)
  unfolding kick_local_lobby_player
  kick_lem s l client persona e =
      subst (Kicked s l client persona)
        (sym (ap (λ o. elim o [ none ↦ (s, none) | some m ↦ kick_from net s m client persona ]) e))
        (kick_from-Kicked s l client persona)
