-- ===== src/Lobby/Notify/Own.antt =====
-- bpserver/lobby.go: whom the notifications reach, and the record of the game that each of them gets.
use burnout_paradise_server.Common.{
  ◌≡◌, refl, ap, List, [], ◌∷◌, map, false, not, ◌||◌, inl, inr, Bytes, arith, Bool-cases, ◌==◌,
  if◌then◌else◌,
}
use burnout_paradise_server.Net.{Net}
use burnout_paradise_server.Record.Game.{get_local_multiplayer_game_record}
use burnout_paradise_server.Types.{Server, Ptr, nil}
use burnout_paradise_server.Lobby.Roster.{
  contains, only_local, without_local, get_local_player_first,
}
use burnout_paradise_server.Lobby.Roster.Order.{only_present}
use burnout_paradise_server.Lobby.Notify.{Wire, recipient_game}

pub only_absent : (ps : List Ptr) (q : Ptr) → contains q ps ≡ false → only_local ps q ≡ []
unfolding contains only_local
only_absent [] q c = refl
only_absent (p ∷ ps) q c =
    let other : (p == q) ≡ false = ground (arith, c) in
    let rest : contains q ps ≡ false = ground (arith, c) in
    rw (only_local, other) (only_absent ps q rest)

-- The clients of a list that can be written to, in its order.
unfoldable pub reachable : Server → List Ptr → List Ptr
reachable s [] = []
reachable s (p ∷ ps) =
    let rest = reachable s ps in if p == nil || not (s.client p).can_write then rest else p ∷ rest

-- The roster in the order of a player of it: the player itself, and behind it the others that are not nil.
unfoldable pub own_roster : List Ptr → Ptr → List Ptr
own_roster players p =
    if contains p players then p ∷ without_local players p else without_local players p

first-own : (players : List Ptr) (p : Ptr) → get_local_player_first players p ≡ own_roster players p
unfolding get_local_player_first own_roster
first-own players p = elim (Bool-cases (contains p players)) [
  | inl c ↦ rw (c, only_present players p c) refl
  | inr c ↦ rw (c, only_absent players p c) refl
]

module _ (net : Net) (s : Server) where
  -- The record of a game for a player: the host's, with the roster in the player's own order.
  unfoldable pub own_record : Bytes → Ptr → List Ptr → Ptr → Bytes
  own_record game host players p =
      get_local_multiplayer_game_record net game (s.client host)
        (map s.client (own_roster players p)) s.config.advertise_address

  pub recipient_game-own :
      (wire : Wire) (game : Bytes) (host : Ptr) (players : List Ptr) (p : Ptr)
      → recipient_game net wire s game host players p ≡ own_record game host players p
  unfolding recipient_game own_record
  recipient_game-own wire game host players p =
      ap
        (λ l.
          get_local_multiplayer_game_record net game (s.client host) (map s.client l)
            s.config.advertise_address)
        (first-own players p)
