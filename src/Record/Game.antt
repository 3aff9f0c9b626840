-- ===== src/Record/Game.antt =====
-- bpserver/record.go and helpers.go: the game record and the presence record.
use burnout_paradise_server.Common.{
  ℕ, ◌+◌, List, [], ◌∷◌, ◌++◌, ◌&&◌, false, Bytes, codes, leb, if◌then◌else◌, length,
}
use burnout_paradise_server.Net.{Net}
use burnout_paradise_server.Number.{format_nat}
use burnout_paradise_server.Payload.{get_payload_field, clean_field_value, decimal_field}
use burnout_paradise_server.Payload.Address.{get_valid_player_address, is_some}
use burnout_paradise_server.Types.{
  ServiceClient, local_persona_id, local_peer_game_port, first_instance_game_port,
  last_instance_game_port,
}

-- A line `KEY=value` and what follows it.
unfoldable pub line : Bytes → Bytes → Bytes → Bytes
line key value rest = key ++ (b'=' ∷ (value ++ (b'\n' ∷ rest)))

abbrev local_player : Bytes
local_player = codes "LocalPlayer"

-- The port carrier of a client in the instances' range.
machine_address : ServiceClient → Bytes
machine_address player =
    if leb first_instance_game_port player.game_port && leb player.game_port last_instance_game_port
    then codes "BPPORT:" ++ format_nat player.game_port
    else []

abbrev indexed : Bytes → ℕ → Bytes
indexed key i = key ++ format_nat i

module _ (net : Net) where
  -- The lines of player `i`, and what follows them.
  player_lines : Bytes → ℕ → ServiceClient → Bytes → Bytes
  player_lines advertise i player rest =
      let address = get_valid_player_address net player.address advertise in
      line (indexed (codes "OPID") i) (format_nat player.persona_id) (
        line (indexed (codes "OPPO") i) (clean_field_value player.persona_name 19 local_player) (
          line (indexed (codes "ADDR") i) address (
            line (indexed (codes "LADDR") i) address (
              line (indexed (codes "MADDR") i) (machine_address player) (
                line (indexed (codes "OPPART") i) (format_nat 0) (
                  line (indexed (codes "OPPARAM") i) (clean_field_value player.user_params 59 []) (
                    line (indexed (codes "OPFLAG") i) (decimal_field player.user_flags (codes "0"))
                      (line (indexed (codes "PRES") i) (codes "0")
                        (line (indexed (codes "OPGUEST") i) [] rest)))))))))

  roster : Bytes → ℕ → List ServiceClient → Bytes → Bytes
  roster advertise i [] rest = rest
  roster advertise i (p ∷ ps) rest = player_lines advertise i p (roster advertise (i + 1) ps rest)

  -- A roster is never empty: without players the host stands alone.
  or_host : ServiceClient → List ServiceClient → List ServiceClient
  or_host host [] = host ∷ []
  or_host host (p ∷ ps) = p ∷ ps

  -- The record for a roster, of which the size is given.
  game_lines : Bytes → Bytes → ℕ → Bytes → Bytes
  game_lines request persona count players =
      let field = λ (key : Bytes). get_payload_field request key in
      let decimal = λ (key default : Bytes). decimal_field (field key) default in
      line (codes "IDENT") (codes "1") (
        line (codes "NAME") (clean_field_value (field (codes "NAME")) 35 persona) (
          line (codes "HOST") persona (
            line (codes "GPSHOST") persona (
              line (codes "PARAMS") (clean_field_value (field (codes "PARAMS")) 259 []) (
                line (codes "PLATPARAMS") [] (
                  line (codes "ROOM") (codes "0") (
                    line (codes "CUSTFLAGS") (decimal (codes "CUSTFLAGS") (codes "0")) (
                      line (codes "SYSFLAGS") (decimal (codes "SYSFLAGS") (codes "0")) (
                        line (codes "COUNT") (format_nat count) (
                          line (codes "PRIV") (decimal (codes "PRIV") (codes "0")) (
                            line (codes "MINSIZE") (decimal (codes "MINSIZE") (codes "2")) (
                              line (codes "MAXSIZE") (decimal (codes "MAXSIZE") (codes "9")) (
                                line (codes "NUMPART") (codes "1") (
                                  line (codes "SEED") (decimal (codes "SEED") (codes "0")) (
                                    line (codes "GAMEPORT") (format_nat local_peer_game_port) (
                                      line (codes "VOIPPORT") (codes "0") (
                                        line (codes "GAMEMODE") (codes "0") (
                                          line (codes "AUTH") [] (
                                            line (codes "SESS") (codes "local-bp-game-1")
                                              players)))))))))))))))))))

  pub get_local_multiplayer_game_record : Bytes → ServiceClient → List ServiceClient → Bytes → Bytes
  unfolding roster player_lines machine_address or_host game_lines
  get_local_multiplayer_game_record request host players advertise =
      let persona = clean_field_value host.persona_name 19 local_player in
      let all = or_host host players in
      let count = length all in
      game_lines request persona count (
        roster advertise 0 all
          (line (codes "PARTSIZE0") (format_nat count) (line (codes "PARTPARAMS0") [] (0 ∷ []))))

  pub get_local_game_record : Bytes → Bytes → Bytes → Bytes → Bytes
  get_local_game_record request persona client_address advertise =
      let player : ServiceClient = record {
        persona_id = local_persona_id;
        persona_name = persona;
        address = client_address;
        game_port = local_peer_game_port;
        user_params = get_payload_field request (codes "USERPARAMS");
        user_flags = decimal_field (get_payload_field request (codes "USERFLAGS")) (codes "0");
        can_write = false;
      } in
      get_local_multiplayer_game_record request player (player ∷ []) advertise

  pub get_presence_record : ℕ → Bytes → Bytes → ℕ → Bytes
  get_presence_record persona_id persona address game_id =
      let a = if is_some (net.parse_ip address) then address else codes "127.0.0.1" in
      line (codes "I") (format_nat persona_id) (
        line (codes "N") (clean_field_value persona 19 local_player) (
          line (codes "F") [] (
            line (codes "P") (codes "PC") (
              line (codes "S") [] (
                line (codes "X") [] (
                  line (codes "G") (format_nat game_id)
                    (line (codes "A") a (line (codes "LA") a (0 ∷ [])))))))))

  pub get_local_presence_record : Bytes → Bytes → ℕ → Bytes
  get_local_presence_record = get_presence_record local_persona_id
