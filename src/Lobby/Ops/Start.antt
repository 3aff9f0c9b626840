-- ===== src/Lobby/Ops/Start.antt =====
-- bpserver/lobby.go: how a race starts.
use burnout_paradise_server.Common.{◌≡◌, ◌≢◌, refl, [], some, ==_refl, ==_false}
use burnout_paradise_server.Net.{Net}
use burnout_paradise_server.Number.{or_mask}
use burnout_paradise_server.Types.{Server, LocalLobby, nil, game_started_sys_flag}
use burnout_paradise_server.Lobby.Ops.{
  sys_flags, with_flags, set_lobby, start_lobby, start_local_lobby, local_lobby_snapshot_locked,
}
use burnout_paradise_server.Lobby.Ops.Race.{IsRunning}
use burnout_paradise_server.Lobby.Ops.RaceFlag.{flag_set}

module _ (net : Net) where
  -- If the host starts the race, the lobby behind the call is one with the same host and players, no
  -- reports, and a request in which a reader finds the race running, whatever the request was; the
  -- snapshot of that lobby is returned.
  pub start_runs :
      (s : Server) (l : LocalLobby)
      → s.lobby ≡ some l
      → l.host ≢ nil
      → (l' : LocalLobby) × (start_local_lobby net s l.host
          ≡ (set_lobby s l', some (local_lobby_snapshot_locked net (set_lobby s l'))))
        × IsRunning l'
        × (l'.host ≡ l.host)
        × (l'.players ≡ l.players)
        × (l'.result_reports ≡ [])
  unfolding start_local_lobby start_lobby with_flags
  start_runs s l e n = (
    record (with_flags l (or_mask (sys_flags l.request) game_started_sys_flag)) {
      result_reports = [];
    },
    rw (e, ==_false l.host nil n, ==_refl l.host) refl,
    flag_set l,
    refl,
    refl,
    refl,
  )
