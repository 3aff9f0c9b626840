-- ===== src/Examples/Session.antt =====
-- A service connection at concrete inputs.
use burnout_paradise_server.Common.{
  ◌≡◌, refl, [], ◌∷◌, true, false, none, some, codes, bytes_eq, drop,
}
use burnout_paradise_server.Challenge.{
  server_challenge, decode_hex, must_decode_hex, must_decode, hex_byte, hex_digit,
}
use burnout_paradise_server.Number.{pos}
use burnout_paradise_server.Types.{Server}
use burnout_paradise_server.Easo.Frame.{Frame}
use burnout_paradise_server.Lobby.Notify.{Wire}
use burnout_paradise_server.Handlers.{Session, State, kind_of, request_of, find_request, gpsc}
use burnout_paradise_server.Handlers.Handle.{handle, dispatch, handle_request}
use burnout_paradise_server.Easo.Secure.{new_secure_easo}
use burnout_paradise_server.Crypto.Rc4.{new_cipher}
use burnout_paradise_server.Handlers.Handle.Reply.{Answer, handle-Answer}
use burnout_paradise_server.Handlers.Handle.Actions.{Moves}
use burnout_paradise_server.Handlers.Handle.Effects.{handle-Moves}
use burnout_paradise_server.Handlers.World.{
  World, accept, accepts_service, receives, ticks, advance_all, advance_from, advance, on_ticket,
  on_frame, on_tick, settle, open_channel, is_ticket, put_session, find_session, new_session,
  new_client,
}
use burnout_paradise_server.Handlers.World.Orderly.{IsWorld}
use burnout_paradise_server.Start.{new, no_client, start_server, check_port, is_mask}
use burnout_paradise_server.Start.Serving.{opening, serve-IsWorld}
use burnout_paradise_server.Examples.Race.{one_net, empty_server}

abbrev all_well : Wire
all_well = λ log m. true

abbrev ann : Session
ann = record {
  self = 1;
  is_service = true;
  remote = none;
  game_create_request = [];
  persona_name = codes "ann";
  client_address = codes "127.0.0.1";
  keepalive = false;
}

abbrev before : State
before = record { session = ann; server = empty_server; log = [] }

abbrev creates : Frame
creates = record { kind = codes "gpsc"; id = 5; payload = codes "NAME=x\n" }

handle-Moves_example :
    Moves one_net 1 true empty_server [] (handle one_net all_well before creates).0
handle-Moves_example = handle-Moves one_net all_well before creates

is_gpsc : request_of (codes "gpsc") ≡ some gpsc
unfolding request_of bytes_eq
is_gpsc = refl

handle-Answer_example :
    (kind_of gpsc ≡ codes "gpsc")
    × Answer all_well [] 1 gpsc creates (handle one_net all_well before creates)
handle-Answer_example = handle-Answer one_net all_well before creates gpsc is_gpsc

abbrev started : Server
started = record {
  config = record {
    advertise_address = codes "127.0.0.1";
    game_port = 65535;
    session_id = 1;
    mask = codes "dbbcc81057aa718bbdafe887591112b4";
  };
  next_persona_id = 1;
  persona_ids = [];
  lobby = none;
  client = λ p. no_client;
}

config_accepted :
    new one_net (codes "127.0.0.1") (pos 65535) 1 (codes "dbbcc81057aa718bbdafe887591112b4")
    ≡ some started
unfolding new start_server check_port is_mask decode_hex bytes_eq
config_accepted = refl

abbrev ticket_frame : Frame
ticket_frame = record { kind = codes "?tic"; id = 0; payload = drop 32 server_challenge }

abbrev pong : Frame
pong = record { kind = codes "~png"; id = 0; payload = [] }

abbrev joined : World
joined = accept one_net all_well (opening started) true none

run_ends :
    advance_all one_net all_well
      (some (opening started))
      (accepts_service none ticket_frame ∷ ticks 1 ∷ receives 1 pong ∷ [])
    ≡ some joined
unfolding advance_all advance_from advance on_ticket on_frame on_tick settle open_channel is_ticket
    put_session find_session accept new_session new_client new_secure_easo new_cipher handle
    dispatch handle_request request_of find_request bytes_eq server_challenge must_decode_hex
    must_decode decode_hex hex_byte hex_digit
run_ends = refl

serve-IsWorld_example : IsWorld joined
serve-IsWorld_example =
    serve-IsWorld one_net all_well (codes "127.0.0.1") (pos 65535) 1
      (codes "dbbcc81057aa718bbdafe887591112b4") started
      (accepts_service none ticket_frame ∷ ticks 1 ∷ receives 1 pong ∷ []) joined config_accepted
      run_ends
