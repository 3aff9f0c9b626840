-- ===== src/Lobby/Roster/Edit.antt =====
-- Rosters with a player more or less.
use burnout_paradise_server.Common.{
  ◌≡◌, ◌≢◌, refl, sym, List, [], ◌∷◌, ◌++◌, false, ◌||◌, arith, ◌==◌, ==_false,
}
use burnout_paradise_server.Types.{Ptr, nil}
use burnout_paradise_server.Lobby.Roster.{contains, remove_first}
use burnout_paradise_server.Lobby.Roster.Order.{IsDistinct, HasNoNil}

pub contains-append :
    (p q : Ptr) (ps : List Ptr) → contains p (ps ++ q ∷ []) ≡ (contains p ps || q == p)
unfolding contains
contains-append p q [] = ground arith
contains-append p q (r ∷ ps) = ground (arith, contains-append p q ps)

pub append-IsDistinct :
    (p : Ptr) (ps : List Ptr) → contains p ps ≡ false → IsDistinct ps → IsDistinct (ps ++ p ∷ [])
unfolding contains
append-IsDistinct p [] c d = (refl, tt)
append-IsDistinct p (q ∷ ps) c d =
    (ground (arith, contains-append q p ps), append-IsDistinct p ps (ground arith) d.1)

pub append-HasNoNil : (p : Ptr) (ps : List Ptr) → p ≢ nil → HasNoNil ps → HasNoNil (ps ++ p ∷ [])
append-HasNoNil p [] n h = (n, tt)
append-HasNoNil p (q ∷ ps) n h = (h.0, append-HasNoNil p ps n h.1)

pub contains-remove_first :
    (p q : Ptr) (ps : List Ptr) → contains q ps ≡ false → contains q (remove_first p ps) ≡ false
unfolding contains remove_first
contains-remove_first p q [] c = refl
contains-remove_first p q (r ∷ ps) c = ground (arith, contains-remove_first p q ps)

pub remove_first-IsDistinct :
    (p : Ptr) (ps : List Ptr) → IsDistinct ps → IsDistinct (remove_first p ps)
unfolding remove_first
remove_first-IsDistinct p [] d = tt
remove_first-IsDistinct p (q ∷ ps) d =
    ground (arith, remove_first-IsDistinct p ps d.1, contains-remove_first p q ps d.0)

pub remove_first-HasNoNil : (p : Ptr) (ps : List Ptr) → HasNoNil ps → HasNoNil (remove_first p ps)
unfolding remove_first
remove_first-HasNoNil p [] h = tt
remove_first-HasNoNil p (q ∷ ps) h = ground (arith, remove_first-HasNoNil p ps h.1)

pub remove_first-other :
    (p q : Ptr) (ps : List Ptr) → p ≢ q → remove_first p (q ∷ ps) ≡ q ∷ remove_first p ps
unfolding remove_first
remove_first-other p q ps n = rw (==_false q p (λ e. n (sym e)))
