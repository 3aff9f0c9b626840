-- ===== src/Tls/Client.antt =====
-- A client of legacytls/conn.go, described by what it sends, ClientHello, the key exchange, the switch to the
-- keys, and its Finished, and by what it is told. The derivations are those of the server.
pub mod Greeting
pub mod Records
pub mod Writes
pub mod KeyExchange
pub mod Agreement
use burnout_paradise_server.Common.{
  ℕ, ◌+◌, ◌-◌, ◌%◌, ◌^◌, ◌≤◌, ◌<◌, ◌≡◌, ◌≢◌, ◌⊎◌, List, [], ◌∷◌, ◌++◌, Bool, true, false, ◌||◌, All,
  some, Bytes, ◌==◌, if◌then◌else◌, length,
}
use burnout_paradise_server.Tls.{
  Hashes, Conn, server, ssl30, tls10, suite_rc4_md5, suite_rc4_sha, put_u16, u16_at,
  record_handshake, record_change_cipher_spec, raw_record, seal,
}
use burnout_paradise_server.Easo.Frame.{put_u32}
use burnout_paradise_server.Io.Delivery.{taking}
use burnout_paradise_server.Tls.Messages.{handshake_message, put_uint24}
use burnout_paradise_server.Tls.Keys.{finished_verify}
use burnout_paradise_server.Tls.Handshake.{Environment, Hello, Secrets, Exchange, derive}
use burnout_paradise_server.Tls.Handshake.Checks.{IsVersion}

-- What a client chooses. `record_version` stands on its first record; `encrypted` is the premaster secret
-- under the key of the server's certificate.
pub record Client : Type 0 where
  pub version : ℕ
  pub record_version : ℕ
  pub random : Bytes
  pub session_id : Bytes
  pub suites : List ℕ
  pub compression : Bytes
  pub premaster : Bytes
  pub encrypted : Bytes

abbrev pub suite_bytes : List ℕ → Bytes
suite_bytes [] = []
suite_bytes (s ∷ suites) = put_u16 s ++ suite_bytes suites

abbrev pub offers : ℕ → List ℕ → Bool
offers wanted [] = false
offers wanted (s ∷ suites) = (s == wanted) || offers wanted suites

-- RC4 with SHA-1 goes first.
abbrev pub preferred : List ℕ → ℕ
preferred suites =
    if offers suite_rc4_sha suites
    then suite_rc4_sha
    else if offers suite_rc4_md5 suites
    then suite_rc4_md5
    else 0

-- The version, the random bytes and the session id; then the suites and the compressions.
abbrev pub hello_front : Client → Bytes
hello_front cl = (put_u16 cl.version ++ cl.random) ++ (length cl.session_id ∷ cl.session_id)

abbrev pub hello_body : Client → Bytes
hello_body cl =
    (hello_front cl ++ put_u16 (length (suite_bytes cl.suites)))
    ++ (suite_bytes cl.suites ++ cl.compression)

abbrev pub hello_message : Client → Bytes
hello_message cl = handshake_message 1 (hello_body cl)

abbrev pub heard : Client → Hello
heard cl = record {
  message = hello_message cl;
  version = cl.version;
  random = cl.random;
  suite = preferred cl.suites;
}

-- SSL 3.0 sends the ciphertext alone, TLS 1.0 its length in front.
abbrev pub key_exchange : Client → Bytes
key_exchange cl =
    if cl.version == ssl30 then cl.encrypted else put_u16 (length cl.encrypted) ++ cl.encrypted

abbrev pub key_message : Client → Bytes
key_message cl = handshake_message 16 (key_exchange cl)

-- What the server can expect of a client: a version and a suite that it knows, fields of the right lengths, a
-- ClientHello and a ciphertext that fit into a record, and a ciphertext that its key decrypts to 48 bytes. Under
-- SSL 3.0 the ciphertext must not begin with its own length less two.
pub record IsProper (env : Environment) (cl : Client) : Type 0 where
  pub version : IsVersion cl.version
  pub record_version : IsVersion cl.record_version
  pub random : length cl.random ≡ 32
  pub session_id : length cl.session_id < 256
  pub suites : All (λ s. s < 2 ^ 16) cl.suites
  pub known : offers suite_rc4_sha cl.suites || offers suite_rc4_md5 cl.suites ≡ true
  pub compression : 0 < length cl.compression
  pub hello_fits : length (hello_body cl) ≤ 2 ^ 14
  pub key_fits : length cl.encrypted ≤ 2 ^ 14
  pub decrypts : env.decrypt cl.encrypted ≡ some cl.premaster
  pub premaster : length cl.premaster ≡ 48
  pub unambiguous : (cl.version ≡ tls10) ⊎ (u16_at cl.encrypted 0 ≢ length cl.encrypted - 2)

-- A direction before the keys, and with them.
abbrev pub before_keys : Client → Conn
before_keys cl = record server { first_record = false; version = cl.version }

-- The random bytes of the server, with its clock in front.
abbrev pub own_random : Environment → Bytes → Bytes
own_random env bytes = put_u32 (env.now % 2 ^ 32) ++ bytes

-- What the client is told: ServerHello, with its own version, the suite that is preferred of those it offered, no
-- session and no compression; the certificates, each with its length in front; and ServerHelloDone.
abbrev pub certificate_list : List Bytes → Bytes
certificate_list [] = []
certificate_list (cert ∷ certs) = put_uint24 (length cert) ++ cert ++ certificate_list certs

abbrev pub server_hello : Client → Bytes → Bytes
server_hello cl server_random =
    put_u16 cl.version ++ server_random ++ 0 ∷ put_u16 (preferred cl.suites) ++ 0 ∷ []

abbrev pub flight : Environment → Client → Bytes → Bytes
flight env cl server_random =
    let chain = certificate_list env.certificates in
    handshake_message 2 (server_hello cl server_random)
    ++ handshake_message 11 (put_uint24 (length chain) ++ chain)
    ++ handshake_message 14 []

module _ (h : Hashes) (env : Environment) (cl : Client) (server_random : Bytes) where
  abbrev pub secrets : Secrets
  secrets = derive h (heard cl) server_random cl.premaster

  abbrev pub transcript : Bytes
  transcript = (hello_message cl ++ flight env cl server_random) ++ key_message cl

  abbrev pub client_finished : Bytes
  client_finished =
      handshake_message 20 (finished_verify h cl.version secrets.master transcript true)

  abbrev pub server_finished : Bytes
  server_finished =
      handshake_message 20
        (finished_verify h cl.version secrets.master (transcript ++ client_finished) false)

  -- The state behind the key exchange.
  abbrev pub keyed : Bytes → Bytes → Exchange
  keyed before s = record {
    hello = heard cl;
    random = server_random;
    premaster = cl.premaster;
    transcript = transcript;
    conn = before_keys cl;
    stream = s;
    sink = taking (before ++ raw_record cl.version record_handshake (flight env cl server_random));
  }

  -- Each end as a sender under its keys.
  abbrev pub client_keyed : Conn
  client_keyed = record (before_keys cl) { outgoing = secrets.client }

  abbrev pub server_keyed : Conn
  server_keyed = record (before_keys cl) { outgoing = secrets.server }

  -- The four records of the client.
  abbrev pub key_records : Bytes
  key_records =
      raw_record cl.version record_change_cipher_spec (1 ∷ [])
      ++ raw_record cl.version record_handshake
          (seal client_keyed record_handshake client_finished).0

  abbrev pub client_records : Bytes
  client_records =
      raw_record cl.record_version record_handshake (hello_message cl)
      ++ (raw_record cl.version record_handshake (key_message cl) ++ key_records)

  -- The three records of the server.
  abbrev pub server_records : Bytes
  server_records =
      (raw_record cl.version record_handshake (flight env cl server_random)
        ++ raw_record cl.version record_change_cipher_spec (1 ∷ []))
      ++ raw_record cl.version record_handshake
          (seal server_keyed record_handshake server_finished).0

  -- The server's end behind the handshake.
  abbrev pub agreed : Conn
  agreed = record server {
    first_record = false;
    version = cl.version;
    incoming = (seal client_keyed record_handshake client_finished).1.outgoing;
    outgoing = (seal server_keyed record_handshake server_finished).1.outgoing;
  }
