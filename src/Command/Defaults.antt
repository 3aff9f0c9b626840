-- ===== src/Command/Defaults.antt =====
-- cmd/bpserver/main.go: a command line without flags.
use burnout_paradise_server.Common.{
  ◌≡◌, refl, ap, ◌∙◌, [], ◌∷◌, true, some, none, Bytes, bytes_eq, codes, Option, List, not,
  if◌then◌else◌,
}
use burnout_paradise_server.Number.{pos, atoi, parse_digits}
use burnout_paradise_server.Io.{ok}
use burnout_paradise_server.Types.{Server, local_persona_id}
use burnout_paradise_server.Challenge.{decode_hex}
use burnout_paradise_server.Start.{no_client, new, start_server, check_port, parse_session_id}
use burnout_paradise_server.Payload.Address.{is_some}
use burnout_paradise_server.Certificate.{
  PrivateKey, TlsConfig, template, issued, certify, self_signed, generate_dirty_sdk64_self_signed,
  validate_dirty_sdk64_certificate,
}
use burnout_paradise_server.Certificate.Checks.{self_signed-verdict}
use burnout_paradise_server.Command.{
  Host, invalid_listener, invalid_port, invalid_configuration, wanted, default_flags, default_mask,
  goes, ◌>>=◌, made, checked, unpaired, certificate_config, tls_setup, parse_game_port,
  server_setup, open_listeners, start_command,
}

abbrev pub default_hosts : List Bytes
default_hosts = codes "pcburnout08.ea.com" ∷ codes "localhost" ∷ []

-- The server without a lobby, a client or a persona.
abbrev pub default_state : Server
default_state = record {
  config = record {
    advertise_address = codes "127.0.0.1";
    game_port = 21842;
    session_id = 1558760620;
    mask = default_mask;
  };
  next_persona_id = local_persona_id;
  persona_ids = [];
  lobby = none;
  client = λ p. no_client;
}

module _ (host : Host) where
  default_tls :
      (key : PrivateKey) (der : Bytes)
      → host.x509.generate_key 1024 ≡ some key
      → host.x509.create_certificate (template host.clock default_hosts) key.public key ≡ some der
      → tls_setup host default_flags
        ≡ goes (record { certificate = der ∷ []; private_key = some key })
  unfolding tls_setup made checked unpaired certificate_config generate_dirty_sdk64_self_signed
      self_signed certify issued bytes_eq
  default_tls key der generated created =
      let c : TlsConfig = record { certificate = der ∷ []; private_key = some key } in
      let signed : self_signed host.x509 host.clock 1024 default_hosts ≡ ok c =
        ap (certify host.x509 host.clock default_hosts) generated ∙ ap (issued key) created in
      ap (λ r. made r >>= λ d. checked d (validate_dirty_sdk64_certificate host.x509 (some d)))
        signed
      ∙ ap (checked c) (self_signed-verdict host.x509 host.clock 1024 default_hosts c signed)

  default_port :
      (name : Bytes)
      → host.net.split_host_port (codes "127.0.0.1:21842") ≡ some (name, codes "21842")
      → parse_game_port host default_flags ≡ goes (pos 21842)
  unfolding parse_game_port atoi
  default_port name split =
      ap
        (λ (o : Option (Bytes × Bytes)).
          wanted invalid_listener o >>= λ (host_name, port). wanted invalid_port (atoi port))
        split

  default_new :
      new host.net (codes "127.0.0.1") (pos 21842) 1558760620 default_mask ≡ some default_state
  unfolding new decode_hex
  default_new =
      ap
        (λ (o : Option Bytes).
          if not (is_some o)
          then none
          else start_server (codes "127.0.0.1") (check_port (pos 21842)) 1558760620 default_mask)
        host.net.parse_ip-loopback_one

  default_server :
      (name : Bytes)
      → host.net.split_host_port (codes "127.0.0.1:21842") ≡ some (name, codes "21842")
      → server_setup host default_flags ≡ goes default_state
  unfolding server_setup parse_session_id parse_digits
  default_server name split =
      ap
        (λ o. o >>= λ port.
          wanted invalid_configuration
            (new host.net (codes "127.0.0.1") port 1558760620 default_mask))
        (default_port name split)
      ∙ ap (wanted invalid_configuration) default_new

  -- Without flags the command makes a key of 1024 bits and a certificate for it, which it accepts itself, and
  -- serves on port 21842 with the session id 1558760620 and no lobby, if the packages make the key and the
  -- certificate, the game address is split into a name and 21842, and both listeners open.
  pub start_command-default :
      (key : PrivateKey) (der name : Bytes)
      → host.x509.generate_key 1024 ≡ some key
      → host.x509.create_certificate (template host.clock default_hosts) key.public key ≡ some der
      → host.net.split_host_port (codes "127.0.0.1:21842") ≡ some (name, codes "21842")
      → host.listen [] (codes "127.0.0.1:21841") ≡ true
      → host.listen (codes "127.0.0.1:21841" ∷ []) (codes "127.0.0.1:21842") ≡ true
      → start_command host default_flags
        ≡ goes (record {
          server = default_state;
          tls = record { certificate = der ∷ []; private_key = some key };
        })
  unfolding start_command open_listeners
  start_command-default key der name generated created split directory game =
      rw (default_tls key der generated created, default_server name split, directory, game) refl
