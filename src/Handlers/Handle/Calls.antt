-- ===== src/Handlers/Handle/Calls.antt =====
-- bpserver/handlers.go: the calls of the lobby are the connection's own.
use burnout_paradise_server.Common.{
  ◌≡◌, ◌≢◌, refl, ap, [], ◌∷◌, Bool, true, false, Option, none, some, Bytes, bytes_eq, if_both,
  if_cases, arith,
}
use burnout_paradise_server.Net.{Net}
use burnout_paradise_server.Types.{Server, Ptr, nil}
use burnout_paradise_server.Lobby.Notify.{Wire}
use burnout_paradise_server.Lobby.Ops.{Snapshot}
use burnout_paradise_server.Lobby.Ops.Invariant.{create, join, update, start, report, kick, step}
use burnout_paradise_server.Handlers.{State}
use burnout_paradise_server.Handlers.Writes.{Outcome, done, announce_params, set_request}
use burnout_paradise_server.Handlers.Games.{
  announce, announce_start, announce_kick, kick_notice, own_game, publish_active, publish_rest,
  publish_game, announce_game, host_game, create_game, enter_game, join_game, update_game,
  update_or_kick, start_game, report_result,
}
use burnout_paradise_server.Handlers.Handle.Actions.{
  edits, calls, perform, perform_all, Acts, MovesFrom, Moving, done-Moving, send-Moves,
}

module _ (net : Net) (wire : Wire) where
  -- A state with another server, behind actions of a service connection.
  acted :
      (st st' : State)
      → st.session.is_service ≡ true
      → st'.session ≡ st.session
      → (st.session.self ≢ nil → Acts net st.session.self st.server st'.server)
      → MovesFrom net wire st st'
  acted st st' service same a = record {
    same_self = ap (λ se. se.self) same;
    same_service = ap (λ se. se.is_service) same;
    keeps_out = λ e. absurd (ground (arith, service, e));
    acts = a;
  }

  announce-Moves :
      (st st1 : State) (o : Server × Option Snapshot) (presence collection : Bool)
      → st.session.is_service ≡ true
      → st1.session ≡ st.session
      → (st.session.self ≢ nil → Acts net st.session.self st.server o.0)
      → MovesFrom net wire st (announce net wire o presence collection st1).0
  unfolding announce
  announce-Moves st st1 (s, none) presence collection e same a = acted st _ e same a
  announce-Moves st st1 (s, some snap) presence collection e same a = acted st _ e same a

  announce_start-Moves :
      (st : State) (o : Server × Option Snapshot)
      → st.session.is_service ≡ true
      → (st.session.self ≢ nil → Acts net st.session.self st.server o.0)
      → MovesFrom net wire st (announce_start net wire o st).0
  unfolding announce_start
  announce_start-Moves st (s, none) e a = acted st _ e refl a
  announce_start-Moves st (s, some snap) e a = acted st _ e refl a

  announce_kick-Moves :
      (st : State) (o : Server × Option (Snapshot × Ptr)) (reason : Bytes)
      → st.session.is_service ≡ true
      → (st.session.self ≢ nil → Acts net st.session.self st.server o.0)
      → MovesFrom net wire st (announce_kick net wire o reason st).0
  unfolding announce_kick
  announce_kick-Moves st (s, none) reason e a = acted st _ e refl a
  announce_kick-Moves st (s, some (snap, kicked)) reason e a =
      announce-Moves st (record st { log = kick_notice net wire s st.log kicked reason })
        (s, some snap) false true e refl a

  publish_active-Moving : (game : Bytes) → Moving net wire (publish_active net wire game)
  unfolding publish_active
  publish_active-Moving game st = send-Moves net wire st _ (done net wire) (done-Moving net wire)

  publish_rest-Moving :
      (presence : Bool) (game : Bytes) → Moving net wire (publish_rest net wire presence game)
  unfolding publish_rest
  publish_rest-Moving true game st =
      send-Moves net wire st _ (publish_active net wire game) (publish_active-Moving game)
  publish_rest-Moving false game st = publish_active-Moving game st

  publish_game-Moves :
      (st : State) (presence : Bool) → MovesFrom net wire st (publish_game net wire st presence).0
  unfolding publish_game
  publish_game-Moves st presence =
      send-Moves net wire st _ (publish_rest net wire presence (own_game net wire st))
        (publish_rest-Moving presence (own_game net wire st))

  announce_game-Moves :
      (st st1 : State) (o : Server × Snapshot)
      → st.session.is_service ≡ true
      → st1.session ≡ st.session
      → (st.session.self ≢ nil → Acts net st.session.self st.server o.0)
      → MovesFrom net wire st (announce_game net wire o st1).0
  unfolding announce_game
  announce_game-Moves st st1 (s, snap) e same a =
      announce-Moves st st1 (s, some snap) true true e same a

  host_game-Moves :
      (payload : Bytes) (st : State)
      → st.session.is_service ≡ true
      → MovesFrom net wire st (host_game net wire payload st).0
  unfolding host_game announce_params perform_all perform step
  host_game-Moves payload st e =
      announce_game-Moves st (announce_params st payload) _ e refl
        λ n. (edits _ ∷ calls (create st.session.self n payload) refl ∷ [], refl)

  pub create_game-Moving : (payload : Bytes) → Moving net wire (create_game net wire payload)
  unfolding create_game set_request
  create_game-Moving payload st =
      if_cases (λ (o : Outcome). MovesFrom net wire st o.0) st.session.is_service _ _
        (λ e. host_game-Moves payload (set_request st payload) e)
        (λ e. publish_game-Moves (set_request st payload) true)

  pub join_game-Moving : (payload : Bytes) → Moving net wire (join_game net wire payload)
  unfolding join_game enter_game announce_params perform_all perform step
  join_game-Moving payload st =
      if_cases (λ (o : Outcome). MovesFrom net wire st o.0) st.session.is_service _ _
        (λ e.
          announce-Moves st (announce_params st payload) _ true false e refl
            λ n. (edits _ ∷ calls (join st.session.self n) refl ∷ [], refl))
        (λ e. done-Moving net wire st)

  update_or_kick-Moves :
      (name : Option Bytes) (payload : Bytes) (st : State)
      → st.session.is_service ≡ true
      → MovesFrom net wire st (update_or_kick net wire name payload st).0
  unfolding update_or_kick perform_all perform step
  update_or_kick-Moves none payload st e =
      announce-Moves st st _ false true e refl
        λ n. (calls (update st.session.self payload) refl ∷ [], refl)
  update_or_kick-Moves (some name) payload st e =
      announce_kick-Moves st _ _ e λ n. (calls (kick st.session.self name) refl ∷ [], refl)

  pub update_game-Moving : (payload : Bytes) → Moving net wire (update_game net wire payload)
  unfolding update_game set_request
  update_game-Moving payload st =
      if_cases (λ (o : Outcome). MovesFrom net wire st o.0) st.session.is_service _ _
        (λ e. update_or_kick-Moves _ payload st e)
        (λ e.
          if_both (λ (o : Outcome). MovesFrom net wire st o.0)
            (bytes_eq st.session.game_create_request []) _ _ (done-Moving net wire st)
            (publish_game-Moves (set_request st _) false))

  pub start_game-Moving : Moving net wire (start_game net wire)
  unfolding start_game perform_all perform step
  start_game-Moving st =
      if_cases (λ (o : Outcome). MovesFrom net wire st o.0) st.session.is_service _ _
        (λ e. announce_start-Moves st _ e λ n. (calls (start st.session.self) refl ∷ [], refl))
        (λ e. done-Moving net wire st)

  pub report_result-Moving : Moving net wire (report_result net wire)
  unfolding report_result perform_all perform step
  report_result-Moving st =
      if_cases (λ (o : Outcome). MovesFrom net wire st o.0) st.session.is_service _ _
        (λ e.
          announce-Moves st st _ false true e refl
            λ n. (calls (report st.session.self) refl ∷ [], refl))
        (λ e. done-Moving net wire st)
