-- ===== src/Lobby/Roster/Order.antt =====
-- The rosters that the recipients see.
use burnout_paradise_server.Common.{
  ◌≡◌, ◌≢◌, refl, inl, inr, List, [], ◌∷◌, ◌++◌, true, false, arith, ◌==◌, ==_refl, ==_false,
  append-nil, All, Bool-cases,
}
use burnout_paradise_server.Types.{Ptr, nil}
use burnout_paradise_server.Lobby.Roster.{
  contains, only_local, without_local, get_local_player_first, get_local_player_last,
}
use mathlib.Core.List.{Perm, perm_middle}
use mathlib.Core.List.Perm

-- No pointer stands twice in the list.
abbrev pub IsDistinct : List Ptr → Type 0
IsDistinct [] = Unit {0}
IsDistinct (p ∷ ps) = (contains p ps ≡ false) × IsDistinct ps

abbrev pub HasNoNil : List Ptr → Type 0
HasNoNil = All (λ p. p ≢ nil)

perm_middle' : (ps : List Ptr) (q : Ptr) → Perm (ps ++ q ∷ []) (q ∷ ps)
perm_middle' ps q = rw append-nil at (perm_middle {a = q} ps [])

without_absent :
    (ps : List Ptr) (q : Ptr) → HasNoNil ps → contains q ps ≡ false → without_local ps q ≡ ps
unfolding without_local contains
without_absent [] q h a = refl
without_absent (p ∷ ps) q h a = ground (arith, without_absent ps q h.1)

pub only_present : (ps : List Ptr) (q : Ptr) → contains q ps ≡ true → only_local ps q ≡ q ∷ []
unfolding only_local contains
only_present [] q c = cc
only_present (p ∷ ps) q c = ground (arith, only_present ps q)

cons_without-perm :
    (ps : List Ptr) (q : Ptr)
    → HasNoNil ps
    → IsDistinct ps
    → contains q ps ≡ true
    → Perm (q ∷ without_local ps q) ps
unfolding without_local contains
cons_without-perm [] q h d c = cc
cons_without-perm (p ∷ ps) q h d c = elim (Bool-cases (p == q)) [
  | inl e ↦
      let same : q ≡ p = ground arith in
      rw (same, ==_refl p, ==_false p nil h.0, without_absent ps p h.1 d.0) (Perm.refl (p ∷ ps))
  | inr n ↦
      rw (n, ==_false p nil h.0)
        (Perm.trans (Perm.swap p q (without_local ps q))
          (Perm.cons p (cons_without-perm ps q h.1 d.1 (ground arith))))
]

-- A recipient that is a player comes first in its own roster, which is otherwise the lobby's: the
-- same players, each as often.
pub first-perm :
    (ps : List Ptr) (q : Ptr)
    → HasNoNil ps
    → IsDistinct ps
    → contains q ps ≡ true
    → (get_local_player_first ps q ≡ q ∷ without_local ps q) × Perm (get_local_player_first ps q) ps
unfolding get_local_player_first
first-perm ps q h d c = rw (only_present ps q c) (refl, cons_without-perm ps q h d c)

-- In the order of the presences it comes last.
pub last-perm :
    (ps : List Ptr) (q : Ptr)
    → HasNoNil ps
    → IsDistinct ps
    → contains q ps ≡ true
    → (get_local_player_last ps q ≡ without_local ps q ++ q ∷ [])
      × Perm (get_local_player_last ps q) ps
unfolding get_local_player_last
last-perm ps q h d c =
    rw (only_present ps q c)
      (refl, Perm.trans (perm_middle' (without_local ps q) q) (cons_without-perm ps q h d c))
