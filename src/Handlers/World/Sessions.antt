-- ===== src/Handlers/World/Sessions.antt =====
-- bpserver/handlers.go: the table of the connections that are open.
use burnout_paradise_server.Common.{
  ◌≡◌, ◌≢◌, refl, sym, ap, ◌∙◌, inl, inr, List, [], ◌∷◌, Bool, false, Option, none, some, ◌==◌,
  ==_iff, ==_refl, ==_false, Bool-cases, some_eq,
}
use burnout_paradise_server.Types.{Ptr}
use burnout_paradise_server.Handlers.{Session}
use burnout_paradise_server.Handlers.World.{find_session, drop_session, put_session}

-- Whether a lookup found a service connection.
abbrev pub serves : Option Session → Bool
serves none = false
serves (some se) = se.is_service

pub find-self :
    (p : Ptr) (ss : List Session) (se : Session) → find_session p ss ≡ some se → se.self ≡ p
unfolding find_session
find-self p [] se = λ e. cc
find-self p (x ∷ ss) se = elim (Bool-cases (x.self == p)) [
  | inl h ↦ rw h (λ e. ap (λ y. y.self) (sym (some_eq e)) ∙ (==_iff x.self p).0 h)
  | inr h ↦ rw h (find-self p ss se)
]

pub find-drop_other :
    (p q : Ptr) (ss : List Session) → q ≢ p → find_session q (drop_session p ss) ≡ find_session q ss
unfolding find_session drop_session
find-drop_other p q [] n = refl
find-drop_other p q (x ∷ ss) n = elim (Bool-cases (x.self == p)) [
  | inl h ↦
      rw (h, ==_false x.self q (λ e. n (sym e ∙ (==_iff x.self p).0 h))) (find-drop_other p q ss n)
  | inr h ↦ rw (h, find_session, find-drop_other p q ss n) refl
]

pub find-drop_same : (p : Ptr) (ss : List Session) → find_session p (drop_session p ss) ≡ none
unfolding find_session drop_session
find-drop_same p [] = refl
find-drop_same p (x ∷ ss) = elim (Bool-cases (x.self == p)) [
  | inl h ↦ rw h (find-drop_same p ss)
  | inr h ↦ rw (h, find_session, h) (find-drop_same p ss)
]

pub find-put_other :
    (new : Session) (q : Ptr) (ss : List Session)
    → q ≢ new.self
    → find_session q (put_session new ss) ≡ find_session q ss
unfolding find_session put_session
find-put_other new q [] n = refl
find-put_other new q (x ∷ ss) n = elim (Bool-cases (x.self == new.self)) [
  | inl h ↦
      rw
        (
          h,
          ==_false new.self q (λ e. n (sym e)),
          ==_false x.self q (λ e. n (sym e ∙ (==_iff x.self new.self).0 h)),
        )
        (find-put_other new q ss n)
  | inr h ↦ rw (h, find-put_other new q ss n) refl
]

pub find-put_same :
    (new se : Session) (ss : List Session)
    → find_session new.self ss ≡ some se
    → find_session new.self (put_session new ss) ≡ some new
unfolding find_session put_session
find-put_same new se [] = λ e. cc
find-put_same new se (x ∷ ss) = elim (Bool-cases (x.self == new.self)) [
  | inl h ↦ rw (h, ==_refl new.self) (λ e. refl)
  | inr h ↦ rw (h, find_session, h) (find-put_same new se ss)
]
