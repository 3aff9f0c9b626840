-- ===== src/Lobby/Roster.antt =====
-- bpserver/lobby.go: lists of players.
pub mod Order
pub mod Count
pub mod Edit
use burnout_paradise_server.Common.{
  ℕ, List, [], ◌∷◌, ◌++◌, Bool, true, false, not, ◌&&◌, ◌||◌, ◌==◌, if◌then◌else◌,
}
use burnout_paradise_server.Types.{Ptr, nil}

unfoldable pub contains : Ptr → List Ptr → Bool
contains p [] = false
contains p (q ∷ qs) = q == p || contains p qs

-- The first loop of `getLocalPlayerFirst`, and the second of `getLocalPlayerLast`.
unfoldable pub only_local : List Ptr → Ptr → List Ptr
only_local [] local = []
only_local (p ∷ ps) local = if p == local then p ∷ [] else only_local ps local

-- The other loop of the two.
unfoldable pub without_local : List Ptr → Ptr → List Ptr
without_local [] local = []
without_local (p ∷ ps) local =
    let rest = without_local ps local in
    if not (p == nil) && not (p == local) then p ∷ rest else rest

unfoldable pub get_local_player_first : List Ptr → Ptr → List Ptr
unfolding only_local without_local
get_local_player_first players local = only_local players local ++ without_local players local

unfoldable pub get_local_player_last : List Ptr → Ptr → List Ptr
unfolding only_local without_local
get_local_player_last players local = without_local players local ++ only_local players local

-- The list without its first entry that is `p`.
unfoldable pub remove_first : Ptr → List Ptr → List Ptr
remove_first p [] = []
remove_first p (q ∷ qs) = if q == p then qs else q ∷ remove_first p qs
