-- ===== src/Handlers/World/Leaving.antt =====
-- bpserver/handlers.go and lobby.go: the end of a connection.
use burnout_paradise_server.Common.{
  ◌≡◌, ◌≢◌, refl, sym, ap, ◌∙◌, subst, inl, inr, List, Bool, true, false, Option, none, some, ◌==◌,
  ==_iff, Bool-cases, arith, if_both, if_cases,
}
use burnout_paradise_server.Net.{Net}
use burnout_paradise_server.Types.{Server, Ptr}
use burnout_paradise_server.Lobby.Ops.{Snapshot, remove_client_from_lobby}
use burnout_paradise_server.Lobby.Ops.Invariant.{HasLobby, leave, step}
use burnout_paradise_server.Lobby.Ops.Seats.{is_seated, step-seat, leave-seat}
use burnout_paradise_server.Lobby.Notify.{Wire, Sent}
use burnout_paradise_server.Handlers.{Session, State}
use burnout_paradise_server.Handlers.Games.{leave_lobby, announce}
use burnout_paradise_server.Handlers.Handle.Actions.{calls, perform, Acts, Moves}
use burnout_paradise_server.Handlers.World.{World, find_session, drop_session, hang_up}
use burnout_paradise_server.Handlers.World.Sessions.{serves, find-drop_other, find-drop_same}
use burnout_paradise_server.Handlers.World.Orderly.{
  IsOrderly, IsWorld, perform-IsOrderly, perform_all-IsOrderly, perform_all-seat,
}

-- What the rest of the world has to know of a server that a connection leaves behind.
pub record IsFit (w : World) (s : Server) : Type 0 where
  pub orderly : IsOrderly s
  pub seated : (p : Ptr) → is_seated p s.lobby ≡ true → serves (find_session p w.sessions) ≡ true

module _ (net : Net) (wire : Wire) where
  pub Acts-IsFit :
      (w : World) (se : Session) (s : Server)
      → IsWorld w
      → find_session se.self w.sessions ≡ some se
      → se.is_service ≡ true
      → Acts net se.self w.server s
      → IsFit w s
  Acts-IsFit w se s v f service (actions, e) = record {
    orderly = subst IsOrderly (sym e) (perform_all-IsOrderly net w.server actions v.orderly);
    seated = λ p here.
        elim (perform_all-seat net w.server actions p
          (ap (λ t. is_seated p t.lobby) (sym e) ∙ here)) [
            | inl before ↦ v.seated p before
            | inr mine ↦ ap (λ q. serves (find_session q w.sessions)) mine ∙ ap serves f ∙ service
          ];
  }

  pub Moves-IsFit :
      (w : World) (se : Session) (st : State)
      → IsWorld w
      → find_session se.self w.sessions ≡ some se
      → Moves net se.self se.is_service w.server w.log st
      → IsFit w st.server
  Moves-IsFit w se st v f m = elim (Bool-cases se.is_service) [
    | inl service ↦
        Acts-IsFit w se st.server v f service (m.acts (v.below se.self (ap serves f ∙ service)).0)
    | inr private ↦
        subst (IsFit w) (sym (m.keeps_out private).0)
          (record { orderly = v.orderly; seated = v.seated })
  ]

  announce-server :
      (o : Server × Option Snapshot) (presence collection : Bool) (st : State)
      → (announce net wire o presence collection st).0.server ≡ o.0
  unfolding announce
  announce-server (s, none) presence collection st = refl
  announce-server (s, some snap) presence collection st = refl

  -- A connection without a seat may be dropped.
  drop-IsWorld :
      (w : World) (self : Ptr) (s : Server) (log : List Sent)
      → IsWorld w
      → IsOrderly s
      → ((p : Ptr)
          → is_seated p s.lobby ≡ true
          → (p ≢ self) × (serves (find_session p w.sessions) ≡ true))
      → IsWorld (record w { server = s; sessions = drop_session self w.sessions; log = log })
  drop-IsWorld w self s log v o k = record {
    orderly = o;
    started = v.started;
    below = λ p e. elim (Bool-cases (p == self)) [
      | inl h ↦ absurd (
          ground (
            arith,
            e,
            ap (λ q. serves (find_session q (drop_session self w.sessions))) ((==_iff p self).0 h),
            ap serves (find-drop_same self w.sessions),
          ))
      | inr h ↦
          v.below p
            (sym (ap serves (find-drop_other self p w.sessions (λ q. ground (arith, h, q)))) ∙ e)
    ];
    seated = λ p e. ap serves (find-drop_other self p w.sessions (k p e).0) ∙ (k p e).1;
  }

  leave-IsOrderly : (st : State) → IsOrderly st.server → IsOrderly (leave_lobby net wire st).server
  unfolding leave_lobby perform step
  leave-IsOrderly st o =
      if_both (λ (t : State). IsOrderly t.server) st.session.is_service _ _
        (subst IsOrderly (sym (announce-server _ false true st))
          (perform-IsOrderly net st.server (calls (leave st.session.self) refl) o))
        o

  -- Who is seated once a connection left was seated before, and is another client.
  leave-seats :
      (st : State) (p : Ptr)
      → HasLobby st.server.lobby
      → (st.session.is_service ≡ false → is_seated st.session.self st.server.lobby ≡ true → ⊥)
      → is_seated p (leave_lobby net wire st).server.lobby ≡ true
      → (p ≢ st.session.self) × (is_seated p st.server.lobby ≡ true)
  unfolding leave_lobby step
  leave-seats st p h out =
      if_cases
        (λ (t : State).
          is_seated p t.server.lobby ≡ true
          → (p ≢ st.session.self) × (is_seated p st.server.lobby ≡ true))
        st.session.is_service _ _
        (λ service e.
          let e1 : is_seated p (remove_client_from_lobby net st.server st.session.self).0.lobby
              ≡ true =
            ap (λ s. is_seated p s.lobby) (sym (announce-server _ false true st)) ∙ e in
          let other : p ≢ st.session.self = λ q. absurd (
            ground (
              arith,
              e1,
              leave-seat net st.server st.session.self h,
              ap (λ x. is_seated x (remove_client_from_lobby net st.server st.session.self).0.lobby)
                  q,
            )) in
          (
            other,
            elim (step-seat net st.server (leave st.session.self) p e1) [
              | inl before ↦ before
              | inr mine ↦ absurd (other mine)
            ],
          ))
        (λ private e. ((λ q. out private (ap (λ x. is_seated x st.server.lobby) (sym q) ∙ e)), e))

  pub hang_up-IsWorld :
      (w : World) (se : Session) (st : State)
      → IsWorld w
      → IsFit w st.server
      → find_session se.self w.sessions ≡ some se
      → st.session.self ≡ se.self
      → st.session.is_service ≡ se.is_service
      → IsWorld (hang_up net wire w st)
  unfolding hang_up
  hang_up-IsWorld w se st v fit f me kind =
      drop-IsWorld w st.session.self _ _ v (leave-IsOrderly st fit.orderly)
        λ p e. let out = leave-seats st p fit.orderly.lobby absent e in (out.0, fit.seated p out.1)
    where
      absent : st.session.is_service ≡ false → is_seated st.session.self st.server.lobby ≡ true → ⊥
      absent private here = ground (
        arith,
        private,
        kind,
        fit.seated st.session.self here,
        ap (λ q. serves (find_session q w.sessions)) me,
        ap serves f,
      )
