-- ===== src/Lobby/Ops.antt =====
-- bpserver/lobby.go: the operations of the lobby.
pub mod Invariant
pub mod Race
pub mod Early
pub mod Join
pub mod Kick
pub mod Start
pub mod RaceFlag
pub mod Seats
pub mod Ids
use Prim.Native.Nat.{bit_and}
use burnout_paradise_server.Common.{
  ℕ, suc, List, [], ◌∷◌, ◌++◌, map, Bool, true, false, not, ◌&&◌, ◌||◌, Option, none, some, Bytes,
  codes, bytes_eq, ltb, leb, ◌==◌, if◌then◌else◌, length,
}
use burnout_paradise_server.Net.{Net}
use burnout_paradise_server.Text.{equal_fold}
use burnout_paradise_server.Number.{
  ℤ, pos, negsuc, atoi, parse_int, format_int, or_mask, and_not_mask, has_mask,
}
use burnout_paradise_server.Payload.{get_payload_field, get_payload_field_value, decimal_field}
use burnout_paradise_server.Payload.Address.{get_valid_player_address}
use burnout_paradise_server.Record.Game.{get_local_multiplayer_game_record, line}
use burnout_paradise_server.Types.{
  Server, ServiceClient, LocalLobby, Ptr, nil, game_started_sys_flag,
}
use burnout_paradise_server.Lobby.Merge.{merge_local_game_request}
use burnout_paradise_server.Lobby.Roster.{contains, remove_first}

-- The record, the roster and the recipients that an operation hands to the notifications.
pub record Snapshot : Type 0 where
  pub game : Bytes
  pub players : List Ptr
  pub clients : List Ptr

-- A write through a pointer to a client.
unfoldable pub set_client : Server → Ptr → ServiceClient → Server
set_client s p c = record s { client = λ q. if q == p then c else s.client q }

unfoldable pub set_lobby : Server → LocalLobby → Server
set_lobby s l = record s { lobby = some l }

-- SYSFLAGS of a game request. A field that is no number counts as 0.
flags_of : Option ℤ → ℤ
flags_of none = pos 0
flags_of (some z) = z

unfoldable pub sys_flags : Bytes → ℤ
unfolding flags_of
sys_flags request =
    flags_of
      (parse_int 32 (decimal_field (get_payload_field request (codes "SYSFLAGS")) (codes "0")))

-- The update `SYSFLAGS=%d\n\x00`.
unfoldable pub flags_update : ℤ → Bytes
flags_update z = line (codes "SYSFLAGS") (format_int z) (0 ∷ [])

unfoldable pub with_flags : LocalLobby → ℤ → LocalLobby
unfolding flags_update
with_flags l z = record l { request = merge_local_game_request l.request (flags_update z) }

-- MAXSIZE of a game request, and 9 if it is no positive number.
size_of : Option ℤ → ℕ
size_of none = 9
size_of (some (negsuc n)) = 9
size_of (some (pos n)) = if ltb n 1 then 9 else n

unfoldable pub max_players : Bytes → ℕ
unfolding size_of
max_players request = size_of (atoi (get_payload_field request (codes "MAXSIZE")))

-- The first player behind the host with a name that folds to the wanted one.
find_player : Server → (Ptr → Bool) → Bytes → List Ptr → Option Ptr
find_player s eligible persona [] = none
find_player s eligible persona (p ∷ ps) =
    let rest = find_player s eligible persona ps in
    if eligible p && equal_fold (s.client p).persona_name persona then some p else rest

-- `resultReports[client] = struct{}{}`.
unfoldable pub add_report : Ptr → List Ptr → List Ptr
add_report p reports = if contains p reports then reports else reports ++ p ∷ []

-- A call does nothing without a lobby.
abbrev pub when_lobby {ℓ} :
    {R : Type ℓ} → Server → (LocalLobby → Server × Option R) → Server × Option R
when_lobby s f = elim s.lobby [ none ↦ (s, none) | some l ↦ f l ]

module _ (net : Net) where
  -- `localLobbySnapshotLocked` with a lobby: the fields of the players are read here.
  snapshot_of : Server → LocalLobby → Snapshot
  snapshot_of s l = record {
    game =
        get_local_multiplayer_game_record net l.request (s.client l.host) (map s.client l.players)
          s.config.advertise_address;
    players = l.players;
    clients = l.players;
  }

  abbrev no_snapshot : Snapshot
  no_snapshot = record { game = []; players = []; clients = [] }

  pub local_lobby_snapshot_locked : Server → Snapshot
  unfolding snapshot_of
  local_lobby_snapshot_locked s = elim s.lobby [
    | none ↦ no_snapshot
    | some l ↦ if l.host == nil then no_snapshot else snapshot_of s l
  ]

  -- The server in which the address of a client is a valid one.
  pub fix_address : Server → Ptr → Server
  unfolding set_client
  fix_address s p = set_client s p (record (s.client p) {
    address = get_valid_player_address net (s.client p).address s.config.advertise_address;
  })

  pub create_local_lobby : Server → Ptr → Bytes → Server × Snapshot
  unfolding set_lobby fix_address
  create_local_lobby s host request =
      let s' =
        set_lobby (fix_address s host)
          (record { request = request; host = host; players = host ∷ []; result_reports = [] }) in
      (s', local_lobby_snapshot_locked s')

  -- `none` is the result `false`.
  join_lobby : Server → LocalLobby → Ptr → Server × Option Snapshot
  unfolding set_lobby fix_address
  join_lobby s l client =
      if l.host == nil
      then (s, none)
      else if contains client l.players
      then (s, some (local_lobby_snapshot_locked s))
      else if leb (max_players l.request) (length l.players)
      then (s, none)
      else (let s' =
            set_lobby (fix_address s client) (record l { players = l.players ++ client ∷ [] }) in
          (s', some (local_lobby_snapshot_locked s')))

  pub join_local_lobby : Server → Ptr → Server × Option Snapshot
  unfolding join_lobby
  join_local_lobby s client = when_lobby s (λ l. join_lobby s l client)

  -- Whose player entry an update is for: the sender's own, unless PERS names a player. The host may
  -- name any player, and another client itself only.
  target_of : Server → LocalLobby → Ptr → Option Bytes → Option Ptr
  unfolding find_player
  target_of s l client none = some client
  target_of s l client (some persona) =
      if bytes_eq persona []
      then some client
      else if client == l.host
      then find_player s (λ p. not (p == nil)) persona l.players
      else if equal_fold (s.client client).persona_name persona
      then some client
      else none

  -- The player entry behind an update.
  updated_client : ServiceClient → Option Bytes → Option Bytes → ServiceClient
  updated_client c none none = c
  updated_client c (some params) none = record c { user_params = params }
  updated_client c none (some flags) = record c { user_flags = decimal_field flags (codes "0") }
  updated_client c (some params) (some flags) = record c {
    user_params = params;
    user_flags = decimal_field flags (codes "0");
  }

  update_target : Server → Option Ptr → Bytes → Server
  unfolding set_client updated_client
  update_target s none update = s
  update_target s (some p) update = set_client s p (
      updated_client (s.client p) (get_payload_field_value update (codes "USERPARAMS"))
        (get_payload_field_value update (codes "USERFLAGS")))

  update_request : LocalLobby → Ptr → Bytes → LocalLobby
  update_request l client update =
      if l.host == client
      then record l { request = merge_local_game_request l.request update }
      else l

  pub update_local_lobby : Server → Ptr → Bytes → Server × Option Snapshot
  unfolding set_lobby target_of update_target update_request
  update_local_lobby s client update = elim s.lobby [
    | none ↦ (s, none)
    | some l ↦
        let target = target_of s l client (get_payload_field_value update (codes "PERS")) in
        let s' = set_lobby (update_target s target update) (update_request l client update) in
        (s', some (local_lobby_snapshot_locked s'))
  ]

  start_lobby : Server → LocalLobby → Ptr → Server × Option Snapshot
  unfolding set_lobby with_flags
  start_lobby s l client =
      if client == nil || not (l.host == client)
      then (s, none)
      else (let flags = or_mask (sys_flags l.request) game_started_sys_flag in
          let s' = set_lobby s (record (with_flags l flags) { result_reports = [] }) in
          (s', some (local_lobby_snapshot_locked s')))

  pub start_local_lobby : Server → Ptr → Server × Option Snapshot
  unfolding start_lobby
  start_local_lobby s client = when_lobby s (λ l. start_lobby s l client)

  -- A report that is counted: the last one that is awaited ends the race.
  pub count_report : Server → LocalLobby → Ptr → Server × Option Snapshot
  unfolding set_lobby with_flags add_report
  count_report s l client =
      let l' = record l { result_reports = add_report client l.result_reports } in
      if ltb (length l'.result_reports) (length l'.players)
      then (set_lobby s l', none)
      else (let s' =
            set_lobby s
              (with_flags l' (and_not_mask (sys_flags l.request) game_started_sys_flag)) in
          (s', some (local_lobby_snapshot_locked s')))

  pub record_result : Server → LocalLobby → Ptr → Server × Option Snapshot
  unfolding count_report
  record_result s l client =
      if client == nil
      then (s, none)
      else if not (contains client l.players)
      then (s, none)
      else if not (has_mask (sys_flags l.request) game_started_sys_flag)
      then (s, none)
      else count_report s l client

  pub record_local_lobby_result : Server → Ptr → Server × Option Snapshot
  unfolding record_result
  record_local_lobby_result s client = when_lobby s (λ l. record_result s l client)

  -- The kicked player with the snapshot behind it.
  kick_player : Server → LocalLobby → Option Ptr → Server × Option (Snapshot × Ptr)
  unfolding set_lobby
  kick_player s l none = (s, none)
  kick_player s l (some p) =
      let s' = set_lobby s (record l { players = remove_first p l.players }) in
      (s', some (local_lobby_snapshot_locked s', p))

  kick_from : Server → LocalLobby → Ptr → Bytes → Server × Option (Snapshot × Ptr)
  unfolding kick_player find_player
  kick_from s l client persona =
      if not (l.host == client)
      then (s, none)
      else kick_player s l
          (find_player s (λ p. not (p == nil) && not (p == l.host)) persona l.players)

  pub kick_local_lobby_player : Server → Ptr → Bytes → Server × Option (Snapshot × Ptr)
  unfolding kick_from
  kick_local_lobby_player s client persona = when_lobby s (λ l. kick_from s l client persona)

  -- The part of `removeClientFromLobby` under the lock; the snapshot, if any, is then announced.
  remove_from : Server → LocalLobby → Ptr → Server × Option Snapshot
  unfolding set_lobby
  remove_from s l client =
      if l.host == client
      then (record s { lobby = none }, none)
      else if contains client l.players
      then (let s' = set_lobby s (record l { players = remove_first client l.players }) in
          (s', some (local_lobby_snapshot_locked s')))
      else (s, none)

  pub remove_client_from_lobby : Server → Ptr → Server × Option Snapshot
  unfolding remove_from
  remove_client_from_lobby s client = when_lobby s (λ l. remove_from s l client)
