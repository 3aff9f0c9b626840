-- ===== src/Payload/Address.antt =====
-- bpserver/helpers.go: addresses and ports of clients.
use burnout_paradise_server.Common.{
  ℕ, [], Bool, true, false, not, ◌||◌, ◌&&◌, Option, none, some, Bytes, codes, ltb, if◌then◌else◌,
  ◌==◌,
}
use burnout_paradise_server.Net.{Net}
use burnout_paradise_server.Number.{ℤ, pos, negsuc, atoi}
use burnout_paradise_server.Text.Trim.{trim_space}
use burnout_paradise_server.Types.{
  first_instance_game_port, last_instance_game_port, local_peer_game_port,
}

abbrev pub is_some {ℓ} : {A : Type ℓ} → Option A → Bool
is_some none = false
is_some (some a) = true

-- A port in the range of the instances, and 0 for anything else.
instance_port : Option ℤ → ℕ
instance_port none = 0
instance_port (some (negsuc n)) = 0
instance_port (some (pos n)) =
    if ltb n first_instance_game_port || ltb last_instance_game_port n then 0 else n

unfoldable pub get_instance_game_port : Bytes → ℕ
unfolding instance_port
get_instance_game_port port_text = instance_port (atoi (trim_space port_text))

module _ (net : Net) where
  open net use {parse_ip, ip_string, is_loopback, ip_equal, split_host_port, loopback_one}

  unfoldable pub get_valid_player_address : Bytes → Bytes → Bytes
  get_valid_player_address address fallback =
      if is_some (parse_ip address)
      then address
      else if is_some (parse_ip fallback)
      then fallback
      else codes "127.0.0.1"

  -- The remote address of a connection is its text, if it has one.
  pub get_remote_client_address : Option Bytes → Bytes → Bytes
  get_remote_client_address none fallback = get_valid_player_address [] fallback
  get_remote_client_address (some remote) fallback = elim (split_host_port remote) [
    | none ↦ get_valid_player_address [] fallback
    | some (host, port) ↦
        if is_some (parse_ip host) then host else get_valid_player_address [] fallback
  ]

  -- What is left of the choice when the announced address is a loopback address.
  accepted_loopback : Option Bytes → Bytes → Bytes
  accepted_loopback none announced = []
  accepted_loopback (some current) announced =
      if not (is_loopback current)
      then []
      else if not (ip_equal current loopback_one) && ip_equal announced loopback_one
      then ip_string current
      else ip_string announced

  pub get_accepted_client_address : Bytes → Bytes → Bytes
  unfolding accepted_loopback
  get_accepted_client_address current_address announced_address =
      elim (parse_ip announced_address) [
        | none ↦ []
        | some announced ↦
            if not (is_loopback announced)
            then ip_string announced
            else accepted_loopback (parse_ip current_address) announced
      ]

  pub get_remote_client_game_port : Option Bytes → ℕ
  get_remote_client_game_port none = local_peer_game_port
  get_remote_client_game_port (some remote) = elim (split_host_port remote) [
    | none ↦ local_peer_game_port
    | some (host, port_text) ↦
        let port = get_instance_game_port port_text in
        if not (port == 0) then port else local_peer_game_port
  ]
