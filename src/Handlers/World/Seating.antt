-- ===== src/Handlers/World/Seating.antt =====
-- bpserver/handlers.go, lobby.go and server.go: what every run of the connections keeps.
use burnout_paradise_server.Common.{
  ◌+◌, ◌<◌, ◌≡◌, ◌≢◌, refl, sym, ap, ◌∙◌, subst, inl, inr, List, [], ◌∷◌, Bool, true, false, Option,
  none, some, ◌==◌, ==_iff, Bool-cases, Option-cases, some_eq, arith, if_both, if_cases, Bytes,
}
use burnout_paradise_server.Net.{Net}
use burnout_paradise_server.Easo.Frame.{Frame}
use burnout_paradise_server.Easo.Secure.{SecureEaso}
use burnout_paradise_server.Types.{Server, Ptr, nil}
use burnout_paradise_server.Lobby.Ops.{set_client}
use burnout_paradise_server.Lobby.Ops.Seats.{is_seated}
use burnout_paradise_server.Lobby.Notify.{Wire}
use burnout_paradise_server.Handlers.{Session, State, goes_on, hangs_up, panics}
use burnout_paradise_server.Handlers.Writes.{Outcome, done}
use burnout_paradise_server.Handlers.Handle.{handle, keepalive_tick}
use burnout_paradise_server.Handlers.Handle.Actions.{Moves, done-Moving, send-Moves}
use burnout_paradise_server.Handlers.Handle.Effects.{handle-Moves}
use burnout_paradise_server.Handlers.World.{
  World, Event, accepts_directory, accepts_service, receives, ticks, ends, find_session,
  put_session, accept, settle, state_of, on_frame, on_tick, on_ticket, on_end, advance,
  advance_from, advance_all, new_session, new_client,
}
use burnout_paradise_server.Handlers.World.Sessions.{
  serves, find-self, find-put_other, find-put_same,
}
use burnout_paradise_server.Handlers.World.Orderly.{IsOrderly, IsWorld}
use burnout_paradise_server.Handlers.World.Leaving.{IsFit, Moves-IsFit, hang_up-IsWorld}

module _ (net : Net) (wire : Wire) where
  put-IsWorld :
      (w : World) (se : Session) (st : State)
      → IsWorld w
      → IsFit w st.server
      → find_session se.self w.sessions ≡ some se
      → st.session.self ≡ se.self
      → st.session.is_service ≡ se.is_service
      → IsWorld (record w {
        server = st.server;
        sessions = put_session st.session w.sessions;
        log = st.log;
      })
  put-IsWorld w se st v fit f me kind = record {
    orderly = fit.orderly;
    started = v.started;
    below = λ p e. v.below p (sym (same p) ∙ e);
    seated = λ p e. same p ∙ fit.seated p e;
  }
    where
      same :
          (p : Ptr)
          → serves (find_session p (put_session st.session w.sessions))
            ≡ serves (find_session p w.sessions)
      same p = elim (Bool-cases (p == st.session.self)) [
        | inl h ↦
            let here : p ≡ st.session.self = (==_iff p st.session.self).0 h in
            ap (λ q. serves (find_session q (put_session st.session w.sessions))) here
            ∙ ap serves (
                find-put_same st.session se w.sessions (ap (λ q. find_session q w.sessions) me ∙ f))
            ∙ kind
            ∙ sym (ap (λ q. serves (find_session q w.sessions)) (here ∙ me) ∙ ap serves f)
        | inr h ↦ ap serves (find-put_other st.session p w.sessions (λ e. ground (arith, h, e)))
      ]

  settle-IsWorld :
      (w w' : World) (se : Session) (o : Outcome)
      → IsWorld w
      → find_session se.self w.sessions ≡ some se
      → Moves net se.self se.is_service w.server w.log o.0
      → settle net wire w o ≡ some w'
      → IsWorld w'
  unfolding settle
  settle-IsWorld w w' se (st, goes_on) v f m e =
      subst IsWorld (some_eq e)
        (put-IsWorld w se st v (Moves-IsFit net wire w se st v f m) f m.same_self m.same_service)
  settle-IsWorld w w' se (st, hangs_up) v f m e = subst IsWorld (some_eq e) (
      hang_up-IsWorld net wire w se st v (Moves-IsFit net wire w se st v f m) f m.same_self
        m.same_service)
  settle-IsWorld w w' se (st, panics) v f m e = cc

  -- A new connection has a client that was never in use.
  accept-IsWorld :
      (w : World) (is_service : Bool) (remote : Option Bytes)
      → IsWorld w
      → IsWorld (accept net wire w is_service remote)
  unfolding accept new_session new_client find_session set_client
  accept-IsWorld w is_service remote v = record {
    orderly =
        if_both (λ (s : Server). IsOrderly s) is_service _ _
          (record { lobby = v.orderly.lobby; ids = v.orderly.ids }) v.orderly;
    started = omega (arith, v.started);
    below = λ p.
        if_cases (λ (o : Option Session). serves o ≡ true → (p ≢ nil) × (p < w.next + 1))
          (w.next == p) _ _
          (λ new e. ((λ q. ground (arith, v.started, new, q)), ground (arith, new)))
          (λ old e. ((v.below p e).0, omega (arith, (v.below p e).1)));
    seated = λ p e.
        let before : is_seated p w.server.lobby ≡ true =
          if_both (λ (s : Server). is_seated p s.lobby ≡ true → is_seated p w.server.lobby ≡ true)
            is_service _ _ (λ h. h) (λ h. h) e in
        if_cases (λ (o : Option Session). serves o ≡ true) (w.next == p) _ _
          (λ new. absurd (ground (arith, new, (v.below p (v.seated p before)).1)))
          (λ old. v.seated p before);
  }

  frame-IsWorld :
      (w w' : World) (p : Ptr) (frame : Frame) (o : Option Session)
      → IsWorld w
      → find_session p w.sessions ≡ o
      → on_frame net wire w o frame ≡ some w'
      → IsWorld w'
  unfolding on_frame
  frame-IsWorld w w' p frame none v f e = subst IsWorld (some_eq e) v
  frame-IsWorld w w' p frame (some se) v f e =
      settle-IsWorld w w' se (handle net wire (state_of net wire w se) frame) v
        (ap (λ q. find_session q w.sessions) (find-self p w.sessions se f) ∙ f)
        (handle-Moves net wire (state_of net wire w se) frame) e

  tick-IsWorld :
      (w w' : World) (p : Ptr) (o : Option Session)
      → IsWorld w
      → find_session p w.sessions ≡ o
      → on_tick net wire w o ≡ some w'
      → IsWorld w'
  unfolding on_tick keepalive_tick
  tick-IsWorld w w' p none v f = λ e. subst IsWorld (some_eq e) v
  tick-IsWorld w w' p (some se) v f =
      if_both (λ (r : Option World). r ≡ some w' → IsWorld w') se.keepalive _ _
        (settle-IsWorld w w' se (keepalive_tick net wire (state_of net wire w se)) v
          (ap (λ q. find_session q w.sessions) (find-self p w.sessions se f) ∙ f)
          (send-Moves net wire (state_of net wire w se) _ (done net wire) (done-Moving net wire)))
        (λ e. subst IsWorld (some_eq e) v)

  end-IsWorld :
      (w w' : World) (p : Ptr) (o : Option Session)
      → IsWorld w
      → find_session p w.sessions ≡ o
      → on_end net wire w o ≡ some w'
      → IsWorld w'
  unfolding on_end
  end-IsWorld w w' p none v f e = subst IsWorld (some_eq e) v
  end-IsWorld w w' p (some se) v f e = subst IsWorld (some_eq e) (
      hang_up-IsWorld net wire w se (state_of net wire w se) v
        (record { orderly = v.orderly; seated = v.seated })
        (ap (λ q. find_session q w.sessions) (find-self p w.sessions se f) ∙ f) refl refl)

  service-IsWorld :
      (w w' : World) (remote : Option Bytes) (channel : Option SecureEaso)
      → IsWorld w
      → on_ticket net wire w remote channel ≡ some w'
      → IsWorld w'
  unfolding on_ticket
  service-IsWorld w w' remote none v e = subst IsWorld (some_eq e) v
  service-IsWorld w w' remote (some channel) v e =
      subst IsWorld (some_eq e) (accept-IsWorld w true remote v)

  pub advance-IsWorld :
      (w w' : World) (event : Event) → IsWorld w → advance net wire w event ≡ some w' → IsWorld w'
  unfolding advance
  advance-IsWorld w w' (accepts_directory remote) v e =
      subst IsWorld (some_eq e) (accept-IsWorld w false remote v)
  advance-IsWorld w w' (accepts_service remote ticket) v e = service-IsWorld w w' remote _ v e
  advance-IsWorld w w' (receives p frame) v e = frame-IsWorld w w' p frame _ v refl e
  advance-IsWorld w w' (ticks p) v e = tick-IsWorld w w' p _ v refl e
  advance-IsWorld w w' (ends p) v e = end-IsWorld w w' p _ v refl e

  stopped : (events : List Event) (w' : World) → advance_all net wire none events ≡ some w' → ⊥
  unfolding advance_all advance_from
  stopped [] w' e = cc
  stopped (event ∷ events) w' e = stopped events w' e

  -- A world that is in order stays so as long as the process runs, whatever is accepted, received and closed:
  -- the lobby and the ids are in order, and every player of the lobby is the client of a service connection
  -- that is open.
  pub advance_all-IsWorld :
      (w w' : World) (events : List Event)
      → IsWorld w
      → advance_all net wire (some w) events ≡ some w'
      → IsWorld w'
  unfolding advance_all advance_from
  advance_all-IsWorld w w' [] v e = subst IsWorld (some_eq e) v
  advance_all-IsWorld w w' (event ∷ events) v e = elim (Option-cases (advance net wire w event)) [
    | inl none_left ↦
        absurd (stopped events w' (ap (λ o. advance_all net wire o events) (sym none_left) ∙ e))
    | inr (w1, first) ↦
        advance_all-IsWorld w1 w' events (advance-IsWorld w w1 event v first)
          (ap (λ o. advance_all net wire o events) (sym first) ∙ e)
  ]
