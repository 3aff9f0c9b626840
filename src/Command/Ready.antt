-- ===== src/Command/Ready.antt =====
-- cmd/bpserver/main.go: what holds of a command that serves.
use burnout_paradise_server.Common.{
  ℕ, ◌≤◌, ◌≡◌, ◌≢◌, ◌↔◌, refl, sym, ap, ◌∙◌, subst, List, [], ◌∷◌, ◌||◌, true, false, not, Option,
  none, some, Bytes, arith, some_eq, if_both, if_cases, ltb,
}
use burnout_paradise_server.Net.{Net}
use burnout_paradise_server.Number.{ℤ, pos, negsuc, atoi}
use burnout_paradise_server.Io.{Error}
use burnout_paradise_server.Types.{Server}
use burnout_paradise_server.Start.{new, start_server, check_port, is_mask, parse_session_id}
use burnout_paradise_server.Payload.Address.{is_some}
use burnout_paradise_server.Certificate.{
  PrivateKey, X509, TlsConfig, validate_dirty_sdk64_certificate,
}
use burnout_paradise_server.Certificate.Checks.{
  Fits, FitsCertificates, validate_dirty_sdk64_certificate_lem,
}
use burnout_paradise_server.Command.{
  Flags, Host, Cause, invalid_session, invalid_listener, invalid_port, invalid_configuration, Setup,
  quits, goes, ◌>>=◌, wanted, made, checked, unpaired, certificate_config, tls_setup,
  parse_game_port, server_setup, Running, open_listeners, start_command, environment_of,
}

>>=-eq-goes {ℓ κ} :
    {A : Type ℓ} {B : Type κ} (first : Setup A) (next : A → Setup B) {b : B}
    → (first >>= next) ≡ goes b
    → (value : A) × (first ≡ goes value) × (next value ≡ goes b)
>>=-eq-goes (quits cause) next h = cc
>>=-eq-goes (goes value) next h = (value, refl, h)

goes_eq {ℓ} : {A : Type ℓ} {a b : A} → goes a ≡ goes b → a ≡ b
goes_eq h = cc

wanted_sound {ℓ} :
    {A : Type ℓ} (cause : Cause) (o : Option A) (a : A) → wanted cause o ≡ goes a → o ≡ some a
wanted_sound cause none a h = cc
wanted_sound cause (some b) a h = ap (λ x. some x) (goes_eq h)

checked_sound : (c d : TlsConfig) (o : Option Error) → checked c o ≡ goes d → (o ≡ none) × (c ≡ d)
unfolding checked
checked_sound c d none h = (refl, goes_eq h)
checked_sound c d (some failure) h = cc

unpaired_sound : (cert key : Bytes) → unpaired cert key ≡ false → (cert ≡ []) ↔ (key ≡ [])
unfolding unpaired
unpaired_sound [] [] h = (λ e. refl, λ e. refl)
unpaired_sound [] (c ∷ key) h = cc
unpaired_sound (c ∷ cert) [] h = cc
unpaired_sound (c ∷ cert) (d ∷ key) h = (λ e. cc, λ e. cc)

-- The two flags of files go together, and the certificate is one that the client can read.
tls_setup_sound :
    (host : Host) (flags : Flags) (c : TlsConfig)
    → tls_setup host flags ≡ goes c
    → ((flags.cert ≡ []) ↔ (flags.key ≡ [])) × Fits host.x509 (some c)
unfolding tls_setup
tls_setup_sound host flags c =
    if_cases
      (λ (s : Setup TlsConfig).
        s ≡ goes c → ((flags.cert ≡ []) ↔ (flags.key ≡ [])) × Fits host.x509 (some c))
      (unpaired flags.cert flags.key) _ _ (λ h e. cc)
      λ paired e.
        let (d, _, e1) = >>=-eq-goes (made (certificate_config host flags)) _ e in
        let (accepted, same) =
          checked_sound d c (validate_dirty_sdk64_certificate host.x509 (some d)) e1 in
        (
          unpaired_sound flags.cert flags.key paired,
          subst (λ t. Fits host.x509 (some t)) same
              ((validate_dirty_sdk64_certificate_lem host.x509 (some d)).0 accepted),
        )

check_port_sound :
    (port : ℤ) (n : ℕ) → check_port port ≡ some n → (port ≡ pos n) × (1 ≤ n) × (n ≤ 65535)
unfolding check_port
check_port_sound (negsuc k) n = λ e. cc
check_port_sound (pos k) n =
    if_cases (λ (o : Option ℕ). o ≡ some n → (pos k ≡ pos n) × (1 ≤ n) × (n ≤ 65535))
      (ltb k 1 || ltb 65535 k) _ _ (λ h e. cc)
      λ h e. (ap pos (some_eq e), ground (arith, h, some_eq e), ground (arith, h, some_eq e))

-- What the server was made of.
abbrev Made : Bytes → Option ℕ → ℕ → Bytes → Server → Type 0
Made address port session mask s =
    (port ≡ some s.config.game_port)
    × (s.config.advertise_address ≡ address)
    × (s.config.session_id ≡ session)
    × (s.config.mask ≡ mask)

start_server_sound :
    (address : Bytes) (port : Option ℕ) (session : ℕ) (mask : Bytes) (s : Server)
    → start_server address port session mask ≡ some s
    → Made address port session mask s
unfolding start_server
start_server_sound address none session mask s = λ e. cc
start_server_sound address (some port) session mask s =
    if_both (λ (o : Option Server). o ≡ some s → Made address (some port) session mask s)
      (not (is_mask mask)) _ _ (λ e. cc)
      λ e. subst (λ t. Made address (some port) session mask t) (some_eq e) (refl, refl, refl, refl)

new_sound :
    (net : Net) (address : Bytes) (port : ℤ) (session : ℕ) (mask : Bytes) (s : Server)
    → new net address port session mask ≡ some s
    → Made address (check_port port) session mask s
unfolding new
new_sound net address port session mask s =
    if_both (λ (o : Option Server). o ≡ some s → Made address (check_port port) session mask s)
      (not (is_some (net.parse_ip address))) _ _ (λ e. cc)
      (start_server_sound address (check_port port) session mask s)

-- The handshakes have the key and a certificate.
environment_of-Fits :
    (x : X509) (k : Option PrivateKey) (certs : List Bytes)
    → FitsCertificates x k certs
    → (is_some k ≡ true) × (certs ≢ [])
environment_of-Fits x none certs f = absurd f
environment_of-Fits x (some key) [] f = absurd f
environment_of-Fits x (some key) (leaf ∷ certs) f = (refl, λ e. cc)

open_listeners_sound :
    (host : Host) (flags : Flags) (r t : Running)
    → open_listeners host flags r ≡ goes t
    → (host.listen [] flags.directory ≡ true)
      × (host.listen (flags.directory ∷ []) flags.game ≡ true)
      × (r ≡ t)
unfolding open_listeners
open_listeners_sound host flags r t =
    if_cases
      (λ (s : Setup Running).
        s ≡ goes t
        → (host.listen [] flags.directory ≡ true)
          × (host.listen (flags.directory ∷ []) flags.game ≡ true)
          × (r ≡ t))
      (not (host.listen [] flags.directory)) _ _ (λ h e. cc)
      λ first.
        if_cases
          (λ (s : Setup Running).
            s ≡ goes t
            → (host.listen [] flags.directory ≡ true)
              × (host.listen (flags.directory ∷ []) flags.game ≡ true)
              × (r ≡ t))
          (not (host.listen (flags.directory ∷ []) flags.game)) _ _ (λ h e. cc)
          λ second e. (ground (arith, first), ground (arith, second), goes_eq e)

-- What the flags say of the server.
pub record Configured (host : Host) (flags : Flags) (s : Server) : Type 0 where
  pub session : parse_session_id flags.session ≡ some s.config.session_id
  pub listener : Bytes × Bytes
  pub split : host.net.split_host_port flags.game ≡ some listener
  pub port : atoi listener.1 ≡ some (pos s.config.game_port)
  pub lowest : 1 ≤ s.config.game_port
  pub highest : s.config.game_port ≤ 65535
  pub advertised : s.config.advertise_address ≡ flags.advertise
  pub masked : s.config.mask ≡ flags.mask

parse_game_port_sound :
    (host : Host) (flags : Flags) (port : ℤ)
    → parse_game_port host flags ≡ goes port
    → (listener : Bytes × Bytes) × (host.net.split_host_port flags.game ≡ some listener)
      × (atoi listener.1 ≡ some port)
unfolding parse_game_port
parse_game_port_sound host flags port e =
    let (listener, split, e1) =
      >>=-eq-goes (wanted invalid_listener (host.net.split_host_port flags.game)) _ e in
    (
      listener,
      wanted_sound invalid_listener (host.net.split_host_port flags.game) listener split,
      wanted_sound invalid_port (atoi listener.1) port e1,
    )

server_setup_sound :
    (host : Host) (flags : Flags) (s : Server)
    → server_setup host flags ≡ goes s
    → Configured host flags s
unfolding server_setup
server_setup_sound host flags s e =
    let (session, parsed, e1) =
      >>=-eq-goes (wanted invalid_session (parse_session_id flags.session)) _ e in
    let (port, ported, e2) = >>=-eq-goes (parse_game_port host flags) _ e1 in
    let (listener, split, number) = parse_game_port_sound host flags port ported in
    let (taken, address, same_session, mask) =
      new_sound host.net flags.advertise port session flags.mask s (
        wanted_sound invalid_configuration (new host.net flags.advertise port session flags.mask) s
          e2) in
    let (same_port, low, high) = check_port_sound port s.config.game_port taken in
    record {
      session =
          wanted_sound invalid_session (parse_session_id flags.session) session parsed
          ∙ ap (λ n. some n) (sym same_session);
      listener = listener;
      split = split;
      port = number ∙ ap (λ z. some z) same_port;
      lowest = low;
      highest = high;
      advertised = address;
      masked = mask;
    }

-- What the command has made sure of when it serves.
pub record IsReady (host : Host) (flags : Flags) (r : Running) : Type 0 where
  pub paired : (flags.cert ≡ []) ↔ (flags.key ≡ [])
  pub fits : Fits host.x509 (some r.tls)
  pub has_key : (environment_of host r.tls).has_key ≡ true
  pub has_certificate : (environment_of host r.tls).certificates ≢ []
  pub configured : Configured host flags r.server
  pub directory_open : host.listen [] flags.directory ≡ true
  pub game_open : host.listen (flags.directory ∷ []) flags.game ≡ true

-- If the command serves, both files or neither were named, the TLS configuration is one that the check of
-- certificates accepts, so its directory connections have a key and a certificate, the server has the
-- advertised address, the mask, the session id and the port of the flags, the port from 1 to 65535, and both
-- listeners are open.
pub start_command-IsReady :
    (host : Host) (flags : Flags) (r : Running)
    → start_command host flags ≡ goes r
    → IsReady host flags r
unfolding start_command environment_of
start_command-IsReady host flags r e =
    let (c, set_up, e1) = >>=-eq-goes (tls_setup host flags) _ e in
    let (s, configured, e2) = >>=-eq-goes (server_setup host flags) _ e1 in
    let (directory, game, same) =
      open_listeners_sound host flags (record { server = s; tls = c }) r e2 in
    let (paired, fits) = tls_setup_sound host flags c set_up in
    let (key, certificate) = environment_of-Fits host.x509 c.private_key c.certificate fits in
    subst (λ t. IsReady host flags t) same
      (record {
        paired = paired;
        fits = fits;
        has_key = key;
        has_certificate = certificate;
        configured = server_setup_sound host flags s configured;
        directory_open = directory;
        game_open = game;
      })
