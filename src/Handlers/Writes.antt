-- ===== src/Handlers/Writes.antt =====
-- bpserver/handlers.go: what a handler writes: its variables, the client behind it, and frames to itself.
use burnout_paradise_server.Common.{
  ℕ, [], Bool, true, false, ◌||◌, Bytes, codes, bytes_eq, ◌==◌, if◌then◌else◌, length, take,
}
use burnout_paradise_server.Net.{Net}
use burnout_paradise_server.Easo.Frame.{Frame}
use burnout_paradise_server.Payload.{get_payload_field, decimal_field}
use burnout_paradise_server.Types.{Server, Ptr}
use burnout_paradise_server.Persona.{persona_id_for}
use burnout_paradise_server.Lobby.Ops.{set_client}
use burnout_paradise_server.Lobby.Notify.{Wire, write}
use burnout_paradise_server.Handlers.{State, Verdict, goes_on, hangs_up}

abbrev pub Outcome : Type 0
Outcome = State × Verdict

-- The writes to the variables of the connection, to the server, and to the client behind it.
abbrev pub set_server : State → Server → State
set_server st s = record st { server = s }

unfoldable pub set_persona : State → Bytes → State
set_persona st persona = record st { session = record st.session { persona_name = persona } }

unfoldable pub set_request : State → Bytes → State
set_request st request = record st { session = record st.session { game_create_request = request } }

unfoldable pub start_keepalive : State → State
start_keepalive st = record st {
  session = record st.session { keepalive = st.session.is_service || st.session.keepalive };
}

-- The address and the port of the client behind a service connection.
unfoldable pub announce_address : Bytes → Ptr → Server → Server
announce_address address self s = set_client s self (record (s.client self) { address = address })

unfoldable pub announce_port : ℕ → Ptr → Server → Server
announce_port port self s = set_client s self (record (s.client self) { game_port = port })

-- Both, for a service connection: an empty address and a port of 0 are not taken.
unfoldable pub announce_endpoint : Bool → Bytes → ℕ → Ptr → Server → Server
unfolding announce_address announce_port
announce_endpoint false accepted port self s = s
announce_endpoint true accepted port self s =
    let s1 = if bytes_eq accepted [] then s else announce_address accepted self s in
    if port == 0 then s1 else announce_port port self s1

unfoldable pub announce_params : State → Bytes → State
announce_params st payload = set_server st (
    set_client st.server st.session.self (record (st.server.client st.session.self) {
      user_params = get_payload_field payload (codes "USERPARAMS");
      user_flags = decimal_field (get_payload_field payload (codes "USERFLAGS")) (codes "0");
    }))

-- The persona of a service connection, with the id that the server gives it.
unfoldable pub announce_persona : State → Bytes → Server × ℕ
announce_persona st persona =
    let (s, id) = persona_id_for st.server persona in
    (
      set_client s st.session.self (record (s.client st.session.self) {
        persona_id = id;
        persona_name = persona;
        address = st.session.client_address;
      }),
      id,
    )

unfoldable pub has_prefix : Bytes → Bytes → Bool
has_prefix prefix s = bytes_eq (take (length prefix) s) prefix

module _ (net : Net) (wire : Wire) where
  -- A frame to the connection itself; the handler goes on unless the write fails.
  unfoldable pub send : State → Frame → (State → Outcome) → Outcome
  send st frame next =
      let (log, written) =
        write wire st.log (record { recipient = st.session.self; frame = frame }) in
      let st' = record st { log = log } in if written then next st' else (st', hangs_up)

  -- The reply to a request: a frame of the same type.
  unfoldable pub reply : State → Bytes → ℕ → Bytes → (State → Outcome) → Outcome
  unfolding send
  reply st kind id payload next = send st (record { kind = kind; id = id; payload = payload }) next

  abbrev pub done : State → Outcome
  done st = (st, goes_on)
