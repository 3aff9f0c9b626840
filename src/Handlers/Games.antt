-- ===== src/Handlers/Games.antt =====
-- bpserver/handlers.go: the calls of the lobby, and the announcements that follow them.
use burnout_paradise_server.Common.{
  List, [], Bool, true, false, Option, none, some, Bytes, codes, bytes_eq, if◌then◌else◌,
}
use burnout_paradise_server.Net.{Net}
use burnout_paradise_server.Payload.{get_payload_field, get_payload_field_value, decimal_field}
use burnout_paradise_server.Record.Game.{get_local_game_record, get_local_presence_record}
use burnout_paradise_server.Types.{Server, Ptr}
use burnout_paradise_server.Lobby.Merge.{merge_local_game_request}
use burnout_paradise_server.Lobby.Ops.{
  Snapshot, create_local_lobby, join_local_lobby, update_local_lobby, start_local_lobby,
  record_local_lobby_result, kick_local_lobby_player, remove_client_from_lobby,
}
use burnout_paradise_server.Lobby.Notify.{
  Wire, Sent, write, frame_of, send_to, notify_lobby, notify_lobby_start,
}
use burnout_paradise_server.Handlers.{State, goes_on}
use burnout_paradise_server.Handlers.Replies.{kick_payload}
use burnout_paradise_server.Handlers.Writes.{
  Outcome, set_server, done, set_request, announce_params, send,
}

module _ (net : Net) (wire : Wire) where
  -- The announcement of what an operation of the lobby made, if it made something.
  unfoldable pub announce : Server × Option Snapshot → Bool → Bool → State → Outcome
  announce (s, none) presence collection st = (set_server st s, goes_on)
  announce (s, some snap) presence collection st = (
    record st {
      server = s;
      log = notify_lobby net wire s st.log snap.game snap.players snap.clients presence collection;
    },
    goes_on,
  )

  unfoldable pub announce_start : Server × Option Snapshot → State → Outcome
  announce_start (s, none) st = (set_server st s, goes_on)
  announce_start (s, some snap) st = (
    record st {
      server = s;
      log = notify_lobby_start net wire s st.log snap.game snap.players snap.clients;
    },
    goes_on,
  )

  -- `+kik` to the kicked player, whose error is passed over, and then the announcement to those that are left.
  unfoldable pub kick_notice : Server → List Sent → Ptr → Bytes → List Sent
  kick_notice s log kicked reason =
      if (s.client kicked).can_write
      then (write wire log (send_to kicked (codes "+kik") (kick_payload reason))).0
      else log

  unfoldable pub announce_kick : Server × Option (Snapshot × Ptr) → Bytes → State → Outcome
  unfolding kick_notice announce
  announce_kick (s, none) reason st = (set_server st s, goes_on)
  announce_kick (s, some (snap, kicked)) reason st =
      announce (s, some snap) false true (record st { log = kick_notice s st.log kicked reason })

  -- The game record of a connection that is no service: the frames of `gpsc`, with the presence, and of `gset`.
  unfoldable pub own_game : State → Bytes
  own_game st =
      get_local_game_record net st.session.game_create_request st.session.persona_name
        st.session.client_address st.server.config.advertise_address

  unfoldable pub publish_active : Bytes → State → Outcome
  unfolding send
  publish_active game st = send net wire st (frame_of (codes "+mgm") game) (done net wire)

  unfoldable pub publish_rest : Bool → Bytes → State → Outcome
  unfolding send publish_active
  publish_rest true game st =
      send net wire st
        (frame_of (codes "+who") (
          get_local_presence_record net st.session.persona_name st.server.config.advertise_address
            1))
        (publish_active game)
  publish_rest false game st = publish_active game st

  unfoldable pub publish_game : State → Bool → Outcome
  unfolding send own_game publish_rest
  publish_game st presence =
      send net wire st (frame_of (codes "+gam") (own_game st)) (publish_rest presence (own_game st))

  -- What follows the replies to `gpsc`, to `gqwk` and `gjoi`, to `gset`, `gsta` and `rank`.
  unfoldable pub announce_game : Server × Snapshot → State → Outcome
  unfolding announce
  announce_game (s, snap) st = announce (s, some snap) true true st

  unfoldable pub host_game : Bytes → State → Outcome
  unfolding announce_params announce_game
  host_game payload st =
      let st1 = announce_params st payload in
      announce_game (create_local_lobby net st1.server st.session.self payload) st1

  unfoldable pub create_game : Bytes → State → Outcome
  unfolding set_request host_game publish_game
  create_game payload st =
      if st.session.is_service
      then host_game payload (set_request st payload)
      else publish_game (set_request st payload) true

  unfoldable pub enter_game : Bytes → State → Outcome
  unfolding announce_params announce
  enter_game payload st =
      let st1 = announce_params st payload in
      announce (join_local_lobby net st1.server st.session.self) true false st1

  unfoldable pub join_game : Bytes → State → Outcome
  unfolding enter_game
  join_game payload st = if st.session.is_service then enter_game payload st else done net wire st

  -- The persona that a `gset` kicks; an empty name is no kick.
  unfoldable pub kicks : Option Bytes → Option Bytes
  kicks none = none
  kicks (some name) = if bytes_eq name [] then none else some name

  unfoldable pub update_or_kick : Option Bytes → Bytes → State → Outcome
  unfolding announce announce_kick
  update_or_kick none payload st =
      announce (update_local_lobby net st.server st.session.self payload) false true st
  update_or_kick (some name) payload st =
      announce_kick (kick_local_lobby_player net st.server st.session.self name)
        (decimal_field (get_payload_field payload (codes "KICK_REASON")) (codes "0")) st

  unfoldable pub update_game : Bytes → State → Outcome
  unfolding kicks update_or_kick set_request publish_game
  update_game payload st =
      if st.session.is_service
      then update_or_kick (kicks (get_payload_field_value payload (codes "KICK"))) payload st
      else if bytes_eq st.session.game_create_request []
      then done net wire st
      else publish_game
          (set_request st (merge_local_game_request st.session.game_create_request payload)) false

  unfoldable pub start_game : State → Outcome
  unfolding announce_start
  start_game st =
      if st.session.is_service
      then announce_start (start_local_lobby net st.server st.session.self) st
      else done net wire st

  unfoldable pub report_result : State → Outcome
  unfolding announce
  report_result st =
      if st.session.is_service
      then announce (record_local_lobby_result net st.server st.session.self) false true st
      else done net wire st

  -- The deferred `removeClientFromLobby` when a service connection ends.
  unfoldable pub leave_lobby : State → State
  unfolding announce
  leave_lobby st =
      if st.session.is_service
      then (announce (remove_client_from_lobby net st.server st.session.self) false true st).0
      else st
