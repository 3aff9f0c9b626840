-- ===== src/Handlers/World.antt =====
-- bpserver/handlers.go and server.go: the connections of a server, from their start to their end. A step is
-- a new connection, a frame, a tick of the keepalive, or an end.
pub mod Sessions
pub mod Orderly
pub mod Leaving
pub mod Seating
use burnout_paradise_server.Common.{
  ◌+◌, List, [], ◌∷◌, Bool, true, false, ◌&&◌, Option, none, some, Bytes, codes, bytes_eq, ◌==◌,
  if◌then◌else◌, take, drop,
}
use burnout_paradise_server.Net.{Net}
use burnout_paradise_server.Challenge.{server_challenge}
use burnout_paradise_server.Easo.Frame.{Frame}
use burnout_paradise_server.Easo.Secure.{SecureEaso, new_secure_easo}
use burnout_paradise_server.Payload.Address.{get_remote_client_address, get_remote_client_game_port}
use burnout_paradise_server.Types.{Server, ServiceClient, Ptr}
use burnout_paradise_server.Lobby.Ops.{set_client}
use burnout_paradise_server.Lobby.Notify.{Wire, Sent}
use burnout_paradise_server.Handlers.{Session, State, goes_on, hangs_up, panics}
use burnout_paradise_server.Handlers.Writes.{Outcome}
use burnout_paradise_server.Handlers.Games.{leave_lobby}
use burnout_paradise_server.Handlers.Handle.{handle, keepalive_tick}

-- The check of the first frame of a service connection.
unfoldable pub is_ticket : Frame → Bool
is_ticket ticket =
    bytes_eq ticket.kind (codes "?tic")
    && (ticket.id == 0)
    && bytes_eq ticket.payload (drop 32 server_challenge)

-- The channel behind an accepted ticket.
unfoldable pub open_channel : Frame → Option SecureEaso
unfolding is_ticket
open_channel ticket =
    if is_ticket ticket
    then new_secure_easo (take 16 server_challenge) (take 16 (drop 16 server_challenge))
    else none

abbrev local_player : Bytes
local_player = codes "LocalPlayer"

-- The sessions that are open, the pointer for the next client, and the frames that were sent.
pub record World : Type 0 where
  pub server : Server
  pub sessions : List Session
  pub next : Ptr
  pub log : List Sent

pub data Event : Type 0 where
  accepts_directory : Option Bytes → Event
  accepts_service : Option Bytes → Frame → Event
  receives : Ptr → Frame → Event
  ticks : Ptr → Event
  ends : Ptr → Event

unfoldable pub find_session : Ptr → List Session → Option Session
find_session p [] = none
find_session p (se ∷ rest) =
    let found = find_session p rest in if se.self == p then some se else found

pub drop_session : Ptr → List Session → List Session
drop_session p [] = []
drop_session p (se ∷ rest) =
    let others = drop_session p rest in if se.self == p then others else se ∷ others

-- The session in place of the one of the same client.
unfoldable pub put_session : Session → List Session → List Session
put_session new [] = []
put_session new (se ∷ rest) =
    let others = put_session new rest in (if se.self == new.self then new else se) ∷ others

module _ (net : Net) (wire : Wire) where
  unfoldable pub new_session : Server → Bool → Ptr → Option Bytes → Session
  new_session s is_service self remote = record {
    self = self;
    is_service = is_service;
    remote = remote;
    game_create_request = [];
    persona_name = local_player;
    client_address = get_remote_client_address net remote s.config.advertise_address;
    keepalive = false;
  }

  unfoldable pub new_client : Server → Option Bytes → ServiceClient
  new_client s remote = record {
    persona_id = 0;
    persona_name = local_player;
    address = get_remote_client_address net remote s.config.advertise_address;
    game_port = get_remote_client_game_port net remote;
    user_params = [];
    user_flags = [];
    can_write = true;
  }

  unfoldable pub accept : World → Bool → Option Bytes → World
  unfolding new_session new_client
  accept w is_service remote = record w {
    server =
        if is_service then set_client w.server w.next (new_client w.server remote) else w.server;
    sessions = new_session w.server is_service w.next remote ∷ w.sessions;
    next = w.next + 1;
  }

  -- The end of a connection: the deferred calls.
  pub hang_up : World → State → World
  hang_up w st =
      let st' = leave_lobby net wire st in
      record w {
        server = st'.server;
        sessions = drop_session st.session.self w.sessions;
        log = st'.log;
      }

  -- What a handler leaves behind; a panic ends the process.
  unfoldable pub settle : World → Outcome → Option World
  unfolding hang_up
  settle w (st, goes_on) =
      some (record w {
        server = st.server;
        sessions = put_session st.session w.sessions;
        log = st.log;
      })
  settle w (st, hangs_up) = some (hang_up w st)
  settle w (st, panics) = none

  abbrev pub state_of : World → Session → State
  state_of w se = record { session = se; server = w.server; log = w.log }

  -- Steps of a connection that is open.
  unfoldable pub on_frame : World → Option Session → Frame → Option World
  unfolding settle
  on_frame w none frame = some w
  on_frame w (some se) frame = settle w (handle net wire (state_of w se) frame)

  unfoldable pub on_tick : World → Option Session → Option World
  unfolding settle
  on_tick w none = some w
  on_tick w (some se) =
      if se.keepalive then settle w (keepalive_tick net wire (state_of w se)) else some w

  on_end : World → Option Session → Option World
  unfolding hang_up
  on_end w none = some w
  on_end w (some se) = some (hang_up w (state_of w se))

  -- A connection without a channel is closed at once.
  unfoldable pub on_ticket : World → Option Bytes → Option SecureEaso → Option World
  unfolding accept
  on_ticket w remote none = some w
  on_ticket w remote (some channel) = some (accept w true remote)

  unfoldable pub advance : World → Event → Option World
  unfolding accept open_channel on_ticket on_frame on_tick on_end find_session
  advance w (accepts_directory remote) = some (accept w false remote)
  advance w (accepts_service remote ticket) = on_ticket w remote (open_channel ticket)
  advance w (receives p frame) = on_frame w (find_session p w.sessions) frame
  advance w (ticks p) = on_tick w (find_session p w.sessions)
  advance w (ends p) = on_end w (find_session p w.sessions)

  unfoldable pub advance_from : Option World → Event → Option World
  unfolding advance
  advance_from none event = none
  advance_from (some w) event = advance w event

  -- A run; `none` is a process that ended.
  unfoldable pub advance_all : Option World → List Event → Option World
  unfolding advance_from
  advance_all o [] = o
  advance_all o (event ∷ events) = advance_all (advance_from o event) events
