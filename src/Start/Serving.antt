-- ===== src/Start/Serving.antt =====
-- bpserver/server.go: a server from its start on.
use burnout_paradise_server.Common.{
  ℕ, ◌≡◌, List, [], not, Option, none, some, Bytes, arith, some_eq, if_both, subst,
}
use burnout_paradise_server.Net.{Net}
use burnout_paradise_server.Number.{ℤ}
use burnout_paradise_server.Types.{Server}
use burnout_paradise_server.Payload.Address.{is_some}
use burnout_paradise_server.Persona.{no_ids}
use burnout_paradise_server.Lobby.Notify.{Wire}
use burnout_paradise_server.Handlers.World.{World, Event, find_session, advance_all}
use burnout_paradise_server.Handlers.World.Orderly.{IsWorld}
use burnout_paradise_server.Handlers.World.Seating.{advance_all-IsWorld}
use burnout_paradise_server.Start.{new, start_server, check_port, is_mask}

-- A world in which no connection was accepted yet. 0 is nil, so the pointers begin at 1.
abbrev pub opening : Server → World
opening s = record { server = s; sessions = []; next = 1; log = [] }

fresh-IsWorld :
    (address : Bytes) (port : Option ℕ) (session : ℕ) (mask : Bytes) (s : Server)
    → start_server address port session mask ≡ some s
    → IsWorld (opening s)
unfolding start_server find_session
fresh-IsWorld address none session mask s = λ e. cc
fresh-IsWorld address (some port) session mask s =
    if_both (λ (o : Option Server). o ≡ some s → IsWorld (opening s)) (not (is_mask mask)) _ _
      (λ e. cc)
      (λ e.
        subst (λ t. IsWorld (opening t)) (some_eq e)
          (record {
            orderly = record { lobby = tt; ids = no_ids };
            started = omega arith;
            below = λ p h. cc;
            seated = λ p h. cc;
          }))

-- If the configuration is accepted, then whatever the server accepts, receives and closes, and whichever writes
-- fail, as long as the process runs its lobby is in order, the ids of personas are positive and one for each,
-- and every player of the lobby is the client of a service connection that is open.
pub serve-IsWorld :
    (net : Net) (wire : Wire) (address : Bytes) (port : ℤ) (session : ℕ) (mask : Bytes) (s : Server)
    (events : List Event) (w : World)
    → new net address port session mask ≡ some s
    → advance_all net wire (some (opening s)) events ≡ some w
    → IsWorld w
unfolding new
serve-IsWorld net wire address port session mask s events w accepted ran =
    advance_all-IsWorld net wire (opening s) w events
      (if_both (λ (o : Option Server). o ≡ some s → IsWorld (opening s))
        (not (is_some (net.parse_ip address))) _ _ (λ e. cc)
        (fresh-IsWorld address (check_port port) session mask s) accepted)
      ran
