-- ===== src/Lobby/Roster/Count.antt =====
-- Counting the clients of two lists against each other.
use burnout_paradise_server.Common.{
  suc, ◌≤◌, ◌≡◌, ◌≢◌, refl, sym, ap, ◌∙◌, inl, inr, List, [], ◌∷◌, true, false, arith, ◌==◌,
  Bool-cases, length,
}
use burnout_paradise_server.Types.{Ptr}
use burnout_paradise_server.Lobby.Roster.{contains, remove_first}
use burnout_paradise_server.Lobby.Roster.Order.{IsDistinct}

abbrev pub Among : List Ptr → List Ptr → Type 0
Among ps qs = (p : Ptr) → contains p ps ≡ true → contains p qs ≡ true

length-remove_first :
    (p : Ptr) (qs : List Ptr) → contains p qs ≡ true → suc (length (remove_first p qs)) ≡ length qs
unfolding contains remove_first
length-remove_first p [] c = cc
length-remove_first p (q ∷ qs) c = ground (arith, length-remove_first p qs)

contains-remove_first_ne :
    (p r : Ptr) (qs : List Ptr) → p ≢ r → contains r (remove_first p qs) ≡ contains r qs
unfolding contains remove_first
contains-remove_first_ne p r [] n = refl
contains-remove_first_ne p r (q ∷ qs) n = ground (arith, contains-remove_first_ne p r qs n)

pub contains-head : (p : Ptr) (ps : List Ptr) → contains p (p ∷ ps) ≡ true
unfolding contains
contains-head p ps = ground arith

pub contains-tail : (p q : Ptr) (ps : List Ptr) → contains p ps ≡ true → contains p (q ∷ ps) ≡ true
unfolding contains
contains-tail p q ps c = ground arith

pub tail_of :
    (q p : Ptr) (ps : List Ptr)
    → (q == p) ≡ false
    → contains p (q ∷ ps) ≡ true
    → contains p ps ≡ true
unfolding contains
tail_of q p ps n c = ground arith

-- Distinct clients among others are not more than these.
pub length-le-of_Among : (ps qs : List Ptr) → IsDistinct ps → Among ps qs → length ps ≤ length qs
length-le-of_Among [] qs d a = omega arith
length-le-of_Among (p ∷ ps) qs d a = omega (
  arith,
  length-remove_first p qs (a p (contains-head p ps)),
  length-le-of_Among ps (remove_first p qs) d.1 rest,
)
  where
    rest : Among ps (remove_first p qs)
    rest r c = elim (Bool-cases (p == r)) [
      | inl e ↦
          let same : p ≡ r = ground arith in
          absurd (ground (arith, d.0, ap (λ x. contains x ps) same))
      | inr n ↦
          rw (contains-remove_first_ne p r qs (λ e. ground (arith, e)))
            (a r (contains-tail r p ps c))
    ]

-- If they are as many, they are all of them.
pub Among-of_length :
    (ps qs : List Ptr) → IsDistinct ps → Among ps qs → length qs ≤ length ps → Among qs ps
Among-of_length ps qs d a h q c = elim (Bool-cases (contains q ps)) [
  | inl here ↦ here
  | inr missing ↦ absurd (omega (arith, length-le-of_Among (q ∷ ps) qs (missing, d) more))
]
  where
    more : Among (q ∷ ps) qs
    more r k = elim (Bool-cases (q == r)) [
      | inl e ↦ let same : q ≡ r = ground arith in ap (λ x. contains x qs) (sym same) ∙ c
      | inr n ↦ a r (tail_of q r ps n k)
    ]
