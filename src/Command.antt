-- ===== src/Command.antt =====
-- cmd/bpserver/main.go: what the command checks, makes and opens before it serves, and how it ends. The flags,
-- the files, the clock and the network are arguments.
pub mod Ready
pub mod Defaults
use burnout_paradise_server.Common.{
  ℕ, ◌/◌, ◌^◌, List, [], ◌∷◌, Bool, true, false, not, Option, none, some, Bytes, codes, bytes_eq,
  if◌then◌else◌,
}
use burnout_paradise_server.Net.{Net}
use burnout_paradise_server.Number.{ℤ, atoi}
use burnout_paradise_server.Io.{Error, Result, ok, err}
use burnout_paradise_server.Types.{Server}
use burnout_paradise_server.Start.{new, parse_session_id}
use burnout_paradise_server.Payload.Address.{is_some}
use burnout_paradise_server.Tls.Handshake.{Environment}
use burnout_paradise_server.Certificate.{
  PrivateKey, X509, Clock, TlsConfig, generate_dirty_sdk64_self_signed, load_key_pair,
  validate_dirty_sdk64_certificate,
}

pub record Flags : Type 0 where
  pub directory : Bytes
  pub game : Bytes
  pub advertise : Bytes
  pub session : Bytes
  pub mask : Bytes
  pub cert : Bytes
  pub key : Bytes

abbrev pub default_mask : Bytes
default_mask = codes "dbbcc81057aa718bbdafe887591112b4"

-- What the flags are if the command line sets none.
abbrev pub default_flags : Flags
default_flags = record {
  directory = codes "127.0.0.1:21841";
  game = codes "127.0.0.1:21842";
  advertise = codes "127.0.0.1";
  session = codes "1558760620";
  mask = default_mask;
  cert = [];
  key = [];
}

-- The machine: its packages, its files, and whether it opens a listener when some are open already. `decrypt`
-- is the decryption with a key, `random` the 28 bytes that are read for a handshake.
pub record Host : Type 0 where
  pub x509 : X509
  pub clock : Clock
  pub net : Net
  pub files : Bytes → Option Bytes
  pub listen : List Bytes → Bytes → Bool
  pub decrypt : PrivateKey → Bytes → Option Bytes
  pub random : Option Bytes

-- Why the command ends before it serves.
pub data Cause : Type 0 where
  unpaired_files : Cause
  certificate_setup certificate_refused : Error → Cause
  invalid_session invalid_listener invalid_port invalid_configuration : Cause
  directory_listen game_listen : Cause

unfoldable pub exit_code : Cause → ℕ
exit_code directory_listen = 1
exit_code game_listen = 1
exit_code cause = 2

pub data Setup {ℓ} (A : Type ℓ) : Type ℓ where
  quits : Cause → Setup A
  goes : A → Setup A

infixl 5 ◌>>=◌
abbrev pub ◌>>=◌ {ℓ κ} : {A : Type ℓ} {B : Type κ} → Setup A → (A → Setup B) → Setup B
quits cause >>= next = quits cause
goes value >>= next = next value

abbrev pub wanted {ℓ} : {A : Type ℓ} → Cause → Option A → Setup A
wanted cause none = quits cause
wanted cause (some value) = goes value

unfoldable pub made : Result TlsConfig → Setup TlsConfig
made (err failure) = quits (certificate_setup failure)
made (ok c) = goes c

unfoldable pub checked : TlsConfig → Option Error → Setup TlsConfig
checked c none = goes c
checked c (some failure) = quits (certificate_refused failure)

unfoldable pub unpaired : Bytes → Bytes → Bool
unpaired [] [] = false
unpaired [] (c ∷ key) = true
unpaired (c ∷ cert) [] = true
unpaired (c ∷ cert) (d ∷ key) = false

unfoldable pub certificate_config : Host → Flags → Result TlsConfig
certificate_config host flags =
    if not (bytes_eq flags.cert [])
    then load_key_pair host.x509 host.files flags.cert flags.key
    else generate_dirty_sdk64_self_signed host.x509 host.clock
        (codes "pcburnout08.ea.com" ∷ codes "localhost" ∷ [])

unfoldable pub tls_setup : Host → Flags → Setup TlsConfig
unfolding unpaired certificate_config made checked
tls_setup host flags =
    if unpaired flags.cert flags.key
    then quits unpaired_files
    else made (certificate_config host flags) >>= λ c.
        checked c (validate_dirty_sdk64_certificate host.x509 (some c))

unfoldable pub parse_game_port : Host → Flags → Setup ℤ
parse_game_port host flags =
    wanted invalid_listener (host.net.split_host_port flags.game) >>= λ (name, port).
    wanted invalid_port (atoi port)

unfoldable pub server_setup : Host → Flags → Setup Server
unfolding parse_game_port
server_setup host flags = wanted invalid_session (parse_session_id flags.session) >>= λ session.
    parse_game_port host flags >>= λ port.
    wanted invalid_configuration (new host.net flags.advertise port session flags.mask)

-- A command that serves, with the TLS configuration of its directory listener.
pub record Running : Type 0 where
  pub server : Server
  pub tls : TlsConfig

-- The directory listener is opened first.
unfoldable pub open_listeners : Host → Flags → Running → Setup Running
open_listeners host flags r =
    if not (host.listen [] flags.directory)
    then quits directory_listen
    else if not (host.listen (flags.directory ∷ []) flags.game)
    then quits game_listen
    else goes r

unfoldable pub start_command : Host → Flags → Setup Running
unfolding tls_setup server_setup open_listeners
start_command host flags = tls_setup host flags >>= λ c.
    server_setup host flags >>= λ s. open_listeners host flags (record { server = s; tls = c })

-- What a directory connection of the command has for its handshake. The clock counts nanoseconds.
unfoldable pub environment_of : Host → TlsConfig → Environment
environment_of host c = record {
  has_key = is_some c.private_key;
  certificates = c.certificate;
  decrypt = λ b. elim c.private_key [ none ↦ none | some key ↦ host.decrypt key b ];
  now = host.clock.now / 10 ^ 9;
  random = host.random;
}

-- The end, when the first of the two listeners stops: its error, and whether a signal came before.
unfoldable pub exit_status : Option Error → Bool → ℕ
exit_status none cancelled = 0
exit_status (some failure) cancelled = if cancelled then 0 else 1
