-- ===== src/Lobby/Notify.antt =====
-- bpserver/lobby.go and server.go: the frames that announce a lobby.
pub mod Own
pub mod Order
pub mod Views
pub mod Growth
use burnout_paradise_server.Common.{
  List, [], ◌∷◌, ◌++◌, map, Bool, true, false, not, ◌||◌, Bytes, codes, ◌==◌, if◌then◌else◌,
}
use burnout_paradise_server.Easo.Frame.{Frame}
use burnout_paradise_server.Net.{Net}
use burnout_paradise_server.Record.Game.{get_local_multiplayer_game_record, get_presence_record}
use burnout_paradise_server.Types.{Server, Ptr, nil}
use burnout_paradise_server.Lobby.Roster.{get_local_player_first, get_local_player_last}

-- A frame that was handed to the connection of a client.
pub record Sent : Type 0 where
  pub recipient : Ptr
  pub frame : Frame

-- Whether a write succeeds: the connections decide by all that was sent before.
abbrev pub Wire : Type 0
Wire = List Sent → Sent → Bool

-- `s.write`: what was sent behind it, and whether there was no error. A frame whose write failed is
-- not counted as sent.
unfoldable pub write : Wire → List Sent → Sent → List Sent × Bool
write wire log m = if wire log m then (log ++ m ∷ [], true) else (log, false)

abbrev pub frame_of : Bytes → Bytes → Frame
frame_of kind payload = record { kind = kind; id = 0; payload = payload }

abbrev pub send_to : Ptr → Bytes → Bytes → Sent
send_to p kind payload = record { recipient = p; frame = frame_of kind payload }

-- Frames to one client, up to the first error.
unfoldable pub write_each : Wire → List Sent → List Sent → List Sent
unfolding write
write_each wire log [] = log
write_each wire log (m ∷ ms) =
    let rest = write_each wire (write wire log m).0 ms in
    if (write wire log m).1 then rest else (write wire log m).0

module _ (net : Net) (wire : Wire) (s : Server) where
  -- The game record for one recipient, made from the record that the operation made.
  pub recipient_game : Bytes → Ptr → List Ptr → Ptr → Bytes
  recipient_game game host players recipient =
      get_local_multiplayer_game_record net game (s.client host)
        (map s.client (get_local_player_first players recipient)) s.config.advertise_address

  -- The presence frame of a player: `+who` is the recipient's own.
  pub presence_for : Ptr → Ptr → Sent
  presence_for recipient p =
      send_to recipient (if p == recipient then codes "+who" else codes "+usr") (
        get_presence_record net (s.client p).persona_id (s.client p).persona_name
          (s.client p).address 1)

  -- The frames behind `+gam`. An error ends the presences, and `+mgm` is sent all the same.
  notify_members : List Sent → Bytes → List Ptr → Ptr → Bool → List Sent
  notify_members log game players recipient presence =
      let log' =
        if presence
        then write_each wire log
            (map (presence_for recipient) (get_local_player_last players recipient))
        else log in
      (write wire log' (send_to recipient (codes "+mgm") game)).0

  -- The frames for one recipient. If `+gam` fails nothing else is sent.
  notify_client : List Sent → Bytes → List Ptr → Ptr → Bool → Bool → List Sent
  unfolding notify_members
  notify_client log game players recipient presence collection =
      if collection
      then (let (log', written) = write wire log (send_to recipient (codes "+gam") game) in
          if written then notify_members log' game players recipient presence else log')
      else notify_members log game players recipient presence

  skips : Ptr → Bool
  skips p = p == nil || not (s.client p).can_write

  notify_clients : List Sent → Bytes → Ptr → List Ptr → List Ptr → Bool → Bool → List Sent
  unfolding notify_client skips
  notify_clients log game host players [] presence collection = log
  notify_clients log game host players (p ∷ ps) presence collection =
      notify_clients
        (if skips p
          then log
          else notify_client log (recipient_game game host players p) players p presence collection)
        game host players ps presence collection

  pub notify_lobby : List Sent → Bytes → List Ptr → List Ptr → Bool → Bool → List Sent
  unfolding notify_clients
  notify_lobby log game [] clients presence collection = log
  notify_lobby log game (host ∷ others) clients presence collection =
      if host == nil
      then log
      else notify_clients log game host (host ∷ others) clients presence collection

  -- The three views of a race that starts, up to the first error.
  start_frames : Ptr → Bytes → List Sent
  start_frames p game =
      send_to p (codes "+gam") game
      ∷ send_to p (codes "+mgm") game
      ∷ send_to p (codes "+ses") game
      ∷ []

  notify_starts : List Sent → Bytes → Ptr → List Ptr → List Ptr → List Sent
  unfolding start_frames skips
  notify_starts log game host players [] = log
  notify_starts log game host players (p ∷ ps) =
      notify_starts
        (if skips p
          then log
          else write_each wire log (start_frames p (recipient_game game host players p)))
        game host players ps

  pub notify_lobby_start : List Sent → Bytes → List Ptr → List Ptr → List Sent
  unfolding notify_starts
  notify_lobby_start log game [] clients = log
  notify_lobby_start log game (host ∷ others) clients =
      if host == nil then log else notify_starts log game host (host ∷ others) clients
