-- ===== src/Handlers/Handle/Growth.antt =====
-- bpserver/handlers.go: what follows a reply only adds frames.
use burnout_paradise_server.Common.{
  ℕ, inl, inr, List, [], Bool, true, false, Option, none, some, Bytes, if_both, bytes_eq,
  Bool-cases,
}
use burnout_paradise_server.Net.{Net}
use burnout_paradise_server.Easo.Frame.{Frame}
use burnout_paradise_server.Types.{Server, Ptr}
use burnout_paradise_server.Lobby.Notify.{Wire, Sent, write}
use burnout_paradise_server.Lobby.Notify.Growth.{
  Extends, Extends-refl, Extends-trans, write-Extends, notify_lobby-Extends,
  notify_lobby_start-Extends,
}
use burnout_paradise_server.Lobby.Ops.{Snapshot}
use burnout_paradise_server.Handlers.{State}
use burnout_paradise_server.Handlers.Writes.{
  Outcome, send, done, announce_params, set_request, start_keepalive,
}
use burnout_paradise_server.Handlers.Games.{
  announce, announce_start, announce_kick, kick_notice, own_game, publish_active, publish_rest,
  publish_game, announce_game, host_game, create_game, enter_game, join_game, update_game,
  update_or_kick, start_game, report_result,
}
use burnout_paradise_server.Handlers.Cases.{send_presence, news_sent}

-- A continuation that only adds frames.
abbrev pub Grows : (State → Outcome) → Type 0
Grows next = (st : State) → Extends st.log (next st).0.log

module _ (net : Net) (wire : Wire) where
  pub done-Grows : Grows (done net wire)
  done-Grows st = Extends-refl st.log

  send-Extends :
      (st : State) (frame : Frame) (next : State → Outcome)
      → Grows next
      → Extends st.log (send net wire st frame next).0.log
  unfolding send
  send-Extends st frame next g =
      let m : Sent = record { recipient = st.session.self; frame = frame } in
      elim (Bool-cases (write wire st.log m).1) [
        | inl e ↦
            rw (send, e)
              (Extends-trans st.log _ _ (write-Extends wire st.log m)
                (g (record st { log = (write wire st.log m).0 })))
        | inr e ↦ rw (send, e) (write-Extends wire st.log m)
      ]

  announce-Grows :
      (o : Server × Option Snapshot) (presence collection : Bool)
      → Grows (announce net wire o presence collection)
  unfolding announce
  announce-Grows (s, none) presence collection st = Extends-refl st.log
  announce-Grows (s, some snap) presence collection st =
      notify_lobby-Extends net wire s st.log snap.game snap.players snap.clients presence collection

  announce_start-Grows : (o : Server × Option Snapshot) → Grows (announce_start net wire o)
  unfolding announce_start
  announce_start-Grows (s, none) st = Extends-refl st.log
  announce_start-Grows (s, some snap) st =
      notify_lobby_start-Extends net wire s st.log snap.game snap.players snap.clients

  kick_notice-Extends :
      (s : Server) (log : List Sent) (kicked : Ptr) (reason : Bytes)
      → Extends log (kick_notice net wire s log kicked reason)
  unfolding kick_notice
  kick_notice-Extends s log kicked reason = elim (Bool-cases (s.client kicked).can_write) [
    | inl e ↦ rw (kick_notice, e) (write-Extends wire log _)
    | inr e ↦ rw (kick_notice, e) (Extends-refl log)
  ]

  announce_kick-Grows :
      (o : Server × Option (Snapshot × Ptr)) (reason : Bytes)
      → Grows (announce_kick net wire o reason)
  unfolding announce_kick
  announce_kick-Grows (s, none) reason st = Extends-refl st.log
  announce_kick-Grows (s, some (snap, kicked)) reason st =
      Extends-trans st.log _ _ (kick_notice-Extends s st.log kicked reason) (
        announce-Grows (s, some snap) false true
          (record st { log = kick_notice net wire s st.log kicked reason }))

  publish_active-Grows : (game : Bytes) → Grows (publish_active net wire game)
  unfolding publish_active
  publish_active-Grows game st = send-Extends st _ (done net wire) done-Grows

  publish_rest-Grows :
      (presence : Bool) (game : Bytes) → Grows (publish_rest net wire presence game)
  unfolding publish_rest
  publish_rest-Grows true game st =
      send-Extends st _ (publish_active net wire game) (publish_active-Grows game)
  publish_rest-Grows false game st = publish_active-Grows game st

  publish_game-Extends :
      (st : State) (presence : Bool) → Extends st.log (publish_game net wire st presence).0.log
  unfolding publish_game
  publish_game-Extends st presence =
      send-Extends st _ (publish_rest net wire presence (own_game net wire st))
        (publish_rest-Grows presence (own_game net wire st))

  announce_game-Grows : (o : Server × Snapshot) → Grows (announce_game net wire o)
  unfolding announce_game
  announce_game-Grows (s, snap) st = announce-Grows (s, some snap) true true st

  host_game-Grows : (payload : Bytes) → Grows (host_game net wire payload)
  unfolding host_game announce_params
  host_game-Grows payload st = announce_game-Grows _ (announce_params st payload)

  pub create_game-Grows : (payload : Bytes) → Grows (create_game net wire payload)
  unfolding create_game set_request
  create_game-Grows payload st =
      if_both (λ (o : Outcome). Extends st.log o.0.log) st.session.is_service _ _
        (host_game-Grows payload (set_request st payload))
        (publish_game-Extends (set_request st payload) true)

  enter_game-Grows : (payload : Bytes) → Grows (enter_game net wire payload)
  unfolding enter_game announce_params
  enter_game-Grows payload st = announce-Grows _ true false (announce_params st payload)

  pub join_game-Grows : (payload : Bytes) → Grows (join_game net wire payload)
  unfolding join_game
  join_game-Grows payload st =
      if_both (λ (o : Outcome). Extends st.log o.0.log) st.session.is_service _ _
        (enter_game-Grows payload st) (Extends-refl st.log)

  update_or_kick-Grows :
      (kick : Option Bytes) (payload : Bytes) → Grows (update_or_kick net wire kick payload)
  unfolding update_or_kick
  update_or_kick-Grows none payload st = announce-Grows _ false true st
  update_or_kick-Grows (some name) payload st = announce_kick-Grows _ _ st

  pub update_game-Grows : (payload : Bytes) → Grows (update_game net wire payload)
  unfolding update_game set_request
  update_game-Grows payload st =
      if_both (λ (o : Outcome). Extends st.log o.0.log) st.session.is_service _ _
        (update_or_kick-Grows _ payload st)
        (if_both (λ (o : Outcome). Extends st.log o.0.log)
          (bytes_eq st.session.game_create_request []) _ _ (Extends-refl st.log)
          (publish_game-Extends (set_request st _) false))

  pub start_game-Grows : Grows (start_game net wire)
  unfolding start_game
  start_game-Grows st =
      if_both (λ (o : Outcome). Extends st.log o.0.log) st.session.is_service _ _
        (announce_start-Grows _ st) (Extends-refl st.log)

  pub report_result-Grows : Grows (report_result net wire)
  unfolding report_result
  report_result-Grows st =
      if_both (λ (o : Outcome). Extends st.log o.0.log) st.session.is_service _ _
        (announce-Grows _ false true st) (Extends-refl st.log)

  pub send_presence-Grows : (id : ℕ) (persona : Bytes) → Grows (send_presence net wire id persona)
  unfolding send_presence
  send_presence-Grows id persona st = send-Extends st _ (done net wire) done-Grows

  pub news_sent-Grows : (name : Bytes) → Grows (news_sent net wire name)
  unfolding news_sent start_keepalive
  news_sent-Grows name st =
      if_both (λ (st' : State). Extends st.log st'.log) _ _ _ (Extends-refl st.log)
        (Extends-refl st.log)
