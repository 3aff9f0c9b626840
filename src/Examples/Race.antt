-- ===== src/Examples/Race.antt =====
-- A lobby of three clients at concrete inputs.
use mathlib.Core.List.{Perm}
use burnout_paradise_server.Common.{
  ◌⊎◌, inl, inr, ◌≡◌, refl, [], ◌∷◌, true, false, none, some, arith, Bytes, codes, bytes_eq,
  bytes_eq_refl, if◌then◌else◌, ◌==◌,
}
use burnout_paradise_server.Net.{Net}
use burnout_paradise_server.Number.{or_mask}
use burnout_paradise_server.Types.{Server, ServiceClient, LocalLobby, game_started_sys_flag}
use burnout_paradise_server.Lobby.Roster.{contains, get_local_player_first, without_local}
use burnout_paradise_server.Lobby.Roster.Order.{IsDistinct, first-perm}
use burnout_paradise_server.Lobby.Roster.Count.{Among}
use burnout_paradise_server.Lobby.Ops.{
  set_lobby, add_report, sys_flags, with_flags, local_lobby_snapshot_locked, join_local_lobby,
  start_local_lobby, record_local_lobby_result, kick_local_lobby_player, remove_client_from_lobby,
}
use burnout_paradise_server.Lobby.Notify.{notify_lobby, notify_lobby_start}
use burnout_paradise_server.Lobby.Notify.Views.{views, notify_lobby_lem}
use burnout_paradise_server.Lobby.Notify.Order.{start_announcement, notify_lobby_start_lem}
use burnout_paradise_server.Persona.{Assigns, no_ids, persona_id_for, persona_id_for_lem}
use burnout_paradise_server.Lobby.Ops.Invariant.{
  IsLobby, HasLobby, create, join, start, report, kick, leave, run, run-HasLobby,
}
use burnout_paradise_server.Lobby.Ops.Race.{
  IsRunning, RaceEnds, RaceGoesOn, report_barrier, ends_once,
}
use burnout_paradise_server.Lobby.Ops.Early.{lobby_of, race_ends_early}
use burnout_paradise_server.Lobby.Ops.Start.{start_runs}
use burnout_paradise_server.Lobby.Ops.RaceFlag.{flag_set}
use burnout_paradise_server.Lobby.Ops.Join.{Joins, join_lem}
use burnout_paradise_server.Lobby.Ops.Kick.{Kicked, kick_lem}

-- One address is known.
abbrev pub one_net : Net
one_net = record {
  parse_ip = λ a. if bytes_eq a (codes "127.0.0.1") then some (codes "127.0.0.1") else none;
  ip_string = λ a. a;
  is_loopback = λ a. true;
  ip_equal = bytes_eq;
  split_host_port = λ a. none;
  loopback_one = codes "127.0.0.1";
  parse_ip-loopback_one = rw (bytes_eq_refl (codes "127.0.0.1")) refl;
}

abbrev pub named : Bytes → ServiceClient
named name = record {
  persona_id = 1;
  persona_name = name;
  address = codes "127.0.0.1";
  game_port = 1024;
  user_params = [];
  user_flags = codes "0";
  can_write = true;
}

abbrev pub empty_server : Server
empty_server = record {
  config = record {
    advertise_address = codes "127.0.0.1";
    game_port = 1024;
    session_id = 1;
    mask = [];
  };
  next_persona_id = 2;
  persona_ids = [];
  lobby = none;
  client = λ p.
      if p == 1
      then named (codes "ann")
      else if p == 2
      then named (codes "bob")
      else named (codes "cid");
}

-- The lobby of ann, with room for two.
abbrev pair : LocalLobby
pair = lobby_of (codes "NAME=x\nMAXSIZE=2\n") 1 (1 ∷ []) []

abbrev full_pair : LocalLobby
full_pair = lobby_of (codes "NAME=x\nMAXSIZE=2\n") 1 (1 ∷ 2 ∷ []) []

abbrev server_with : LocalLobby → Server
server_with l = record empty_server { lobby = some l }

run-HasLobby_example :
    HasLobby
      (run one_net empty_server (
        create 1 (λ e. omega arith) (codes "NAME=x\n")
        ∷ join 2 (λ e. omega arith)
        ∷ start 1
        ∷ report 2
        ∷ kick 1 (codes "bob")
        ∷ leave 1
        ∷ [])).lobby
run-HasLobby_example =
    run-HasLobby one_net empty_server
      (create 1 (λ e. omega arith) (codes "NAME=x\n")
        ∷ join 2 (λ e. omega arith)
        ∷ start 1
        ∷ report 2
        ∷ kick 1 (codes "bob")
        ∷ leave 1
        ∷ [])
      tt

start_runs_example :
    (l' : LocalLobby) × (start_local_lobby one_net (server_with full_pair) 1 ≡ (
      set_lobby (server_with full_pair) l',
      some (local_lobby_snapshot_locked one_net (set_lobby (server_with full_pair) l')),
    ))
    × IsRunning l'
    × (l'.host ≡ 1)
    × (l'.players ≡ 1 ∷ 2 ∷ [])
    × (l'.result_reports ≡ [])
start_runs_example = start_runs one_net (server_with full_pair) full_pair refl (λ e. omega arith)

abbrev racing : Bytes
racing = (with_flags pair (or_mask (sys_flags pair.request) game_started_sys_flag)).request

abbrev race : LocalLobby
race = lobby_of racing 1 (1 ∷ 2 ∷ []) (1 ∷ [])

race-IsLobby : IsLobby race
unfolding contains
race-IsLobby = record {
  others = 2 ∷ [];
  led = refl;
  present = ((λ e. omega arith), ((λ e. omega arith), tt));
  distinct = (refl, (refl, tt));
  counted = (refl, tt);
}

reported-Among : Among race.result_reports race.players
unfolding contains
reported-Among p c = ground arith

two_here : contains 2 (1 ∷ 2 ∷ []) ≡ true
unfolding contains
two_here = refl

report_barrier_example :
    (Among (1 ∷ 2 ∷ []) (add_report 2 (1 ∷ []))
      × RaceEnds one_net
          (server_with race)
          race
          (add_report 2 (1 ∷ []))
          (record_local_lobby_result one_net (server_with race) 2))
    ⊎ ((¬ Among (1 ∷ 2 ∷ []) (add_report 2 (1 ∷ [])))
        × RaceGoesOn one_net
            (server_with race)
            race
            (add_report 2 (1 ∷ []))
            (record_local_lobby_result one_net (server_with race) 2))
report_barrier_example =
    report_barrier one_net (server_with race) race 2 refl race-IsLobby reported-Among
      (flag_set pair) (λ e. omega arith) two_here

all_reported : Among (1 ∷ 2 ∷ []) (add_report 2 (1 ∷ []))
unfolding contains add_report
all_reported p c = ground arith

race_ended :
    RaceEnds one_net
      (server_with race)
      race
      (add_report 2 (1 ∷ []))
      (record_local_lobby_result one_net (server_with race) 2)
race_ended =
    elim (report_barrier one_net (server_with race) race 2 refl race-IsLobby reported-Among
      (flag_set pair) (λ e. omega arith) two_here) [
        | inl (all, ends) ↦ ends
        | inr (some_awaited, goes) ↦ absurd (some_awaited all_reported)
      ]

ends_once_example :
    record_local_lobby_result one_net (set_lobby (server_with race) race_ended.0) 1
    ≡ (set_lobby (server_with race) race_ended.0, none)
ends_once_example =
    ends_once one_net (server_with race) 2 1 (set_lobby (server_with race) race_ended.0)
      (local_lobby_snapshot_locked one_net (set_lobby (server_with race) race_ended.0)) race_ended.1

three-IsDistinct : IsDistinct (1 ∷ 2 ∷ 3 ∷ [])
unfolding contains
three-IsDistinct = (refl, (refl, (refl, tt)))

race_ends_early_example :
    let before = lobby_of racing 1 (1 ∷ 2 ∷ 3 ∷ []) [] in
    let reported = (record_local_lobby_result one_net (set_lobby empty_server before) 2).0 in
    let left = (remove_client_from_lobby one_net reported 2).0 in
    (left.lobby ≡ some (lobby_of racing 1 (1 ∷ 3 ∷ []) (2 ∷ [])))
    × RaceEnds one_net left
        (lobby_of racing 1 (1 ∷ 3 ∷ []) (2 ∷ []))
        (2 ∷ 1 ∷ [])
        (record_local_lobby_result one_net left 1)
    × (contains 3 (2 ∷ 1 ∷ []) ≡ false)
race_ends_early_example =
    race_ends_early one_net empty_server racing 1 2 3 (flag_set pair) (λ e. omega arith)
      (λ e. omega arith) three-IsDistinct

kick_lem_example :
    Kicked one_net
      (server_with full_pair)
      full_pair
      1
      (codes "BOB")
      (kick_local_lobby_player one_net (server_with full_pair) 1 (codes "BOB"))
kick_lem_example = kick_lem one_net (server_with full_pair) full_pair 1 (codes "BOB") refl

first-perm_example :
    (get_local_player_first (1 ∷ 2 ∷ 3 ∷ []) 2 ≡ 2 ∷ without_local (1 ∷ 2 ∷ 3 ∷ []) 2)
    × Perm (get_local_player_first (1 ∷ 2 ∷ 3 ∷ []) 2) (1 ∷ 2 ∷ 3 ∷ [])
unfolding contains
first-perm_example =
    first-perm (1 ∷ 2 ∷ 3 ∷ []) 2
      ((λ e. omega arith), ((λ e. omega arith), ((λ e. omega arith), tt))) three-IsDistinct refl

join_lem_example :
    Joins one_net (server_with pair) pair 2 (join_local_lobby one_net (server_with pair) 2)
join_lem_example = join_lem one_net (server_with pair) pair 2 refl (λ e. omega arith)

notify_lobby_start_lem_example :
    notify_lobby_start one_net
      (λ log m. true)
      empty_server
      []
      (codes "NAME=x\n")
      (1 ∷ 2 ∷ [])
      (2 ∷ 1 ∷ [])
    ≡ start_announcement one_net
        (λ log m. true)
        empty_server
        (codes "NAME=x\n")
        1
        (1 ∷ 2 ∷ [])
        (2 ∷ 1 ∷ [])
notify_lobby_start_lem_example =
    notify_lobby_start_lem one_net (λ log m. true) empty_server [] (codes "NAME=x\n") 1 (2 ∷ [])
      (2 ∷ 1 ∷ []) (λ log m. refl) (λ e. omega arith)

notify_lobby_lem_example :
    notify_lobby one_net
      (λ log m. true)
      (server_with full_pair)
      []
      (codes "NAME=x\n")
      (1 ∷ 2 ∷ [])
      (1 ∷ 2 ∷ [])
      true
      true
    ≡ views one_net
        (λ log m. true)
        (server_with full_pair)
        (codes "NAME=x\n")
        1
        (1 ∷ 2 ∷ [])
        true
        true
        (1 ∷ 2 ∷ [])
notify_lobby_lem_example =
    notify_lobby_lem one_net (λ log m. true) (server_with full_pair) [] (codes "NAME=x\n") 1
      (2 ∷ []) (1 ∷ 2 ∷ []) true true (λ log m. refl) (λ e. omega arith)

persona_id_for_lem_example :
    Assigns
      (record empty_server { next_persona_id = 1 })
      (codes "ann")
      (persona_id_for (record empty_server { next_persona_id = 1 }) (codes "ann"))
persona_id_for_lem_example =
    persona_id_for_lem (record empty_server { next_persona_id = 1 }) (codes "ann") no_ids
