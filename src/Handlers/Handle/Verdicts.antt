-- ===== src/Handlers/Handle/Verdicts.antt =====
-- bpserver/handlers.go: how the handling of a frame ends.
use burnout_paradise_server.Common.{
  ℕ, ◌≡◌, ◌⊎◌, refl, inl, inr, [], ◌∷◌, ◌++◌, Bool, true, false, Option, none, some, Bytes, if_both,
  bytes_eq, Bool-cases,
}
use burnout_paradise_server.Net.{Net}
use burnout_paradise_server.Easo.Frame.{Frame}
use burnout_paradise_server.Types.{Server, Ptr}
use burnout_paradise_server.Lobby.Notify.{Wire, Sent, write}
use burnout_paradise_server.Lobby.Ops.{Snapshot}
use burnout_paradise_server.Handlers.{State, goes_on, hangs_up}
use burnout_paradise_server.Handlers.Writes.{Outcome, send, done, announce_params, set_request}
use burnout_paradise_server.Handlers.Games.{
  announce, announce_start, announce_kick, kick_notice, own_game, publish_active, publish_rest,
  publish_game, announce_game, host_game, create_game, enter_game, join_game, update_game,
  update_or_kick, start_game, report_result,
}
use burnout_paradise_server.Handlers.Cases.{send_presence, news_sent}

-- The loop goes on, or the connection ends since the write of a frame to it has just failed.
abbrev pub Settles : Wire → Outcome → Type 0
Settles wire o =
    (o.1 ≡ goes_on)
    ⊎ ((o.1 ≡ hangs_up)
        × ((frame : Frame) × (wire o.0.log (record { recipient = o.0.session.self; frame = frame })
              ≡ false)))

-- A continuation that ends so.
abbrev pub Settling : Wire → (State → Outcome) → Type 0
Settling wire next = (st : State) → Settles wire (next st)

module _ (net : Net) (wire : Wire) where
  pub done-Settling : Settling wire (done net wire)
  done-Settling st = inl refl

  send-Settles :
      (st : State) (frame : Frame) (next : State → Outcome)
      → Settling wire next
      → Settles wire (send net wire st frame next)
  unfolding send write
  send-Settles st frame next g =
      let m : Sent = record { recipient = st.session.self; frame = frame } in
      elim (Bool-cases (wire st.log m)) [
        | inl e ↦ rw (send, write, e) (g (record st { log = st.log ++ m ∷ [] }))
        | inr e ↦ rw (send, write, e) (inr (refl, (frame, e)))
      ]

  announce-Settling :
      (o : Server × Option Snapshot) (presence collection : Bool)
      → Settling wire (announce net wire o presence collection)
  unfolding announce
  announce-Settling (s, none) presence collection st = inl refl
  announce-Settling (s, some snap) presence collection st = inl refl

  announce_start-Settling :
      (o : Server × Option Snapshot) → Settling wire (announce_start net wire o)
  unfolding announce_start
  announce_start-Settling (s, none) st = inl refl
  announce_start-Settling (s, some snap) st = inl refl

  announce_kick-Settling :
      (o : Server × Option (Snapshot × Ptr)) (reason : Bytes)
      → Settling wire (announce_kick net wire o reason)
  unfolding announce_kick
  announce_kick-Settling (s, none) reason st = inl refl
  announce_kick-Settling (s, some (snap, kicked)) reason st =
      announce-Settling (s, some snap) false true
        (record st { log = kick_notice net wire s st.log kicked reason })

  publish_active-Settling : (game : Bytes) → Settling wire (publish_active net wire game)
  unfolding publish_active
  publish_active-Settling game st = send-Settles st _ (done net wire) done-Settling

  publish_rest-Settling :
      (presence : Bool) (game : Bytes) → Settling wire (publish_rest net wire presence game)
  unfolding publish_rest
  publish_rest-Settling true game st =
      send-Settles st _ (publish_active net wire game) (publish_active-Settling game)
  publish_rest-Settling false game st = publish_active-Settling game st

  publish_game-Settles :
      (st : State) (presence : Bool) → Settles wire (publish_game net wire st presence)
  unfolding publish_game
  publish_game-Settles st presence =
      send-Settles st _ (publish_rest net wire presence (own_game net wire st))
        (publish_rest-Settling presence (own_game net wire st))

  announce_game-Settling : (o : Server × Snapshot) → Settling wire (announce_game net wire o)
  unfolding announce_game
  announce_game-Settling (s, snap) st = announce-Settling (s, some snap) true true st

  host_game-Settling : (payload : Bytes) → Settling wire (host_game net wire payload)
  unfolding host_game announce_params
  host_game-Settling payload st = announce_game-Settling _ (announce_params st payload)

  pub create_game-Settling : (payload : Bytes) → Settling wire (create_game net wire payload)
  unfolding create_game set_request
  create_game-Settling payload st =
      if_both (Settles wire) st.session.is_service _ _
        (host_game-Settling payload (set_request st payload))
        (publish_game-Settles (set_request st payload) true)

  pub join_game-Settling : (payload : Bytes) → Settling wire (join_game net wire payload)
  unfolding join_game enter_game announce_params
  join_game-Settling payload st =
      if_both (Settles wire) st.session.is_service _ _
        (announce-Settling _ true false (announce_params st payload)) (inl refl)

  update_or_kick-Settling :
      (kick : Option Bytes) (payload : Bytes) → Settling wire (update_or_kick net wire kick payload)
  unfolding update_or_kick
  update_or_kick-Settling none payload st = announce-Settling _ false true st
  update_or_kick-Settling (some name) payload st = announce_kick-Settling _ _ st

  pub update_game-Settling : (payload : Bytes) → Settling wire (update_game net wire payload)
  unfolding update_game set_request
  update_game-Settling payload st =
      if_both (Settles wire) st.session.is_service _ _ (update_or_kick-Settling _ payload st) (
        if_both (Settles wire) (bytes_eq st.session.game_create_request []) _ _ (inl refl)
          (publish_game-Settles (set_request st _) false))

  pub start_game-Settling : Settling wire (start_game net wire)
  unfolding start_game
  start_game-Settling st =
      if_both (Settles wire) st.session.is_service _ _ (announce_start-Settling _ st) (inl refl)

  pub report_result-Settling : Settling wire (report_result net wire)
  unfolding report_result
  report_result-Settling st =
      if_both (Settles wire) st.session.is_service _ _ (announce-Settling _ false true st)
        (inl refl)

  pub send_presence-Settling :
      (id : ℕ) (persona : Bytes) → Settling wire (send_presence net wire id persona)
  unfolding send_presence
  send_presence-Settling id persona st = send-Settles st _ (done net wire) done-Settling

  pub news_sent-Settling : (name : Bytes) → Settling wire (news_sent net wire name)
  unfolding news_sent
  news_sent-Settling name st = inl refl
