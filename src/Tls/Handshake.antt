-- ===== src/Tls/Handshake.antt =====
-- legacytls/conn.go: the handshake of the server, up to the first error. What was sent before an error is not
-- kept, since the connection is closed then.
pub mod Checks
pub mod Sound
use burnout_paradise_server.Common.{
  ℕ, ◌+◌, ◌-◌, ◌*◌, ◌%◌, ◌^◌, List, [], ◌∷◌, ◌++◌, Bool, true, false, not, ◌&&◌, ◌||◌, Option, none,
  some, Bytes, bytes_eq, ltb, ◌==◌, if◌then◌else◌, length, take, drop, get_or,
}
use burnout_paradise_server.Io.{
  Error, Result, ok, err, ◌>>=◌, Sink, short_write, unexpected_record, no_certificate,
  malformed_message, unsupported_version, unsupported_suite, no_random, bad_premaster, bad_finished,
}
use burnout_paradise_server.Crypto.Rc4.{Rc4, new_cipher}
use burnout_paradise_server.Easo.Frame.{put_u32}
use burnout_paradise_server.Tls.{
  Hash, Hashes, CipherState, Conn, ssl30, tls10, suite_rc4_md5, suite_rc4_sha, record_handshake,
  record_change_cipher_spec, put_u16, u16_at, read_record, write_raw_record, write_record,
}
use burnout_paradise_server.Tls.Messages.{put_uint24, handshake_message, split_handshake}
use burnout_paradise_server.Tls.Keys.{master_secret, expand_keys, finished_verify, finished_length}

-- The configuration, and what the handshake asks of crypto/rsa, crypto/rand and the clock: `decrypt` is the
-- decryption with the private key, `random` the 28 bytes that are read, if they are.
pub record Environment : Type 0 where
  pub has_key : Bool
  pub certificates : List Bytes
  pub decrypt : Bytes → Option Bytes
  pub now : ℕ
  pub random : Option Bytes

pub record Hello : Type 0 where
  pub message : Bytes
  pub version : ℕ
  pub random : Bytes
  pub suite : ℕ

-- The suite of the loop so far; RC4 with SHA-1 ends it.
unfoldable pub choose_suite : Bytes → ℕ → ℕ
choose_suite [] suite = suite
choose_suite (a ∷ []) suite = suite
choose_suite (a ∷ b ∷ offers) suite =
    let s = a * 256 + b in
    let rest = choose_suite offers (if s == suite_rc4_md5 then s else suite) in
    if s == suite_rc4_sha then s else rest

-- The fields behind the version and the random bytes.
unfoldable pub hello_of : Bytes → ℕ → ℕ → ℕ → Result Hello
unfolding choose_suite
hello_of message version sid_length cs_length =
    let body = drop 4 message in
    let suite = choose_suite (take cs_length (drop (37 + sid_length) body)) 0 in
    if not (cs_length % 2 == 0) || ltb (length body) (37 + sid_length + cs_length + 1)
    then err malformed_message
    else if suite == 0
    then err unsupported_suite
    else ok (record {
      message = message;
      version = version;
      random = take 32 (drop 2 body);
      suite = suite;
    })

unfoldable pub parse_hello : Bytes → Result Hello
unfolding hello_of
parse_hello message =
    let body = drop 4 message in
    let version = u16_at body 0 in
    let sid_length = get_or body 34 0 in
    if ltb (length message) 39
    then err malformed_message
    else if not (version == ssl30) && not (version == tls10)
    then err unsupported_version
    else if ltb (length body) (35 + sid_length + 2)
    then err malformed_message
    else hello_of message version sid_length (u16_at body (35 + sid_length))

-- A record that holds one message of the type, and nothing else.
unfoldable pub single_message : ℕ → Result (List Bytes) → Result Bytes
single_message kind (ok (m ∷ [])) = if get_or m 0 0 == kind then ok m else err malformed_message
single_message kind (ok (m ∷ n ∷ ms)) = err malformed_message
single_message kind (ok []) = err malformed_message
single_message kind (err failure) = err malformed_message

unfoldable pub receive_message : ℕ → ℕ → Bytes → Result Bytes
unfolding single_message
receive_message kind record_kind data' =
    if record_kind == record_handshake
    then single_message kind (split_handshake data')
    else err unexpected_record

unfoldable pub server_random : Environment → Result Bytes
server_random env = elim env.random [
  | none ↦ err no_random
  | some b ↦ ok (put_u32 (env.now % 2 ^ 32) ++ b)
]

unfoldable pub certificate_entries : List Bytes → Bytes
certificate_entries [] = []
certificate_entries (cert ∷ certs) = put_uint24 (length cert) ++ cert ++ certificate_entries certs

-- ServerHello, Certificate and ServerHelloDone.
unfoldable pub server_flight : Environment → Hello → Bytes → Bytes
unfolding certificate_entries
server_flight env hello random =
    let entries = certificate_entries env.certificates in
    handshake_message 2 (put_u16 hello.version ++ random ++ 0 ∷ put_u16 hello.suite ++ 0 ∷ [])
    ++ handshake_message 11 (put_uint24 (length entries) ++ entries)
    ++ handshake_message 14 []

-- A write without an error; the fuel of the loop never runs out.
unfoldable pub sent : Option (Sink × Option Error) → Result Sink
sent none = err short_write
sent (some (w, none)) = ok w
sent (some (w, some failure)) = err failure

-- The key exchange may give its length in front.
unfoldable pub encrypted_premaster : Bytes → Bytes
encrypted_premaster message =
    let enc = drop 4 message in
    if not (ltb (length enc) 2) && (u16_at enc 0 == length enc - 2) then drop 2 enc else enc

unfoldable pub checked_premaster : Option Bytes → Result Bytes
checked_premaster none = err bad_premaster
checked_premaster (some premaster) =
    if length premaster == 48 then ok premaster else err bad_premaster

-- The states of the two directions. A key of 16 bytes always makes a cipher.
pub record Secrets : Type 0 where
  pub master : Bytes
  pub client : Option CipherState
  pub server : Option CipherState

unfoldable pub cipher_state : Option Rc4 → Bytes → Hash → ℕ → Option CipherState
cipher_state none mac_key hash version = none
cipher_state (some stream) mac_key hash version =
    some (record { stream = stream; mac_key = mac_key; hash = hash; seq = 0; version = version })

unfoldable pub make_cipher : Bytes → Bytes → Hash → ℕ → Option CipherState
unfolding cipher_state
make_cipher key mac_key hash version = cipher_state (new_cipher key) mac_key hash version

unfoldable pub derive : Hashes → Hello → Bytes → Bytes → Secrets
unfolding make_cipher
derive h hello random premaster =
    let master = master_secret h hello.version premaster hello.random random in
    let hash = if hello.suite == suite_rc4_md5 then h.md5 else h.sha1 in
    let mac = if hello.suite == suite_rc4_md5 then 16 else 20 in
    let block = expand_keys h hello.version master hello.random random (2 * mac + 32) in
    record {
      master = master;
      client = make_cipher (take 16 (drop (2 * mac) block)) (take mac block) hash hello.version;
      server =
          make_cipher (drop (2 * mac + 16) block) (take mac (drop mac block)) hash hello.version;
    }

unfoldable pub check_finished : ℕ → Bytes → Bytes → Result Bytes
check_finished version want message =
    if not (length message == 4 + finished_length version)
    then err malformed_message
    else if not (bytes_eq (drop 4 message) want)
    then err bad_finished
    else ok message

-- What the first flights leave: the messages so far, and where the connection is.
pub record Greeting : Type 0 where
  pub hello : Hello
  pub random : Bytes
  pub transcript : Bytes
  pub conn : Conn
  pub stream : Bytes
  pub sink : Sink

unfoldable pub send_flight : Environment → Conn → Bytes → Sink → Hello → Bytes → Result Greeting
unfolding server_flight sent
send_flight env c s w hello random =
    let flight = server_flight env hello random in
    let c1 = record c { version = hello.version } in
    sent (write_raw_record c1 w record_handshake flight) >>= λ w1. ok (record {
      hello = hello;
      random = random;
      transcript = hello.message ++ flight;
      conn = c1;
      stream = s;
      sink = w1;
    })

-- ClientHello and the flight behind it.
unfoldable pub answer_hello : Environment → Sink → ℕ × Bytes × Conn × Bytes → Result Greeting
unfolding receive_message parse_hello server_random send_flight
answer_hello env w (kind, data', c, s) = receive_message 1 kind data' >>= λ message.
    parse_hello message >>= λ hello.
    server_random env >>= λ random. send_flight env c s w hello random

-- The first half, up to the premaster secret.
pub record Exchange : Type 0 where
  pub hello : Hello
  pub random : Bytes
  pub premaster : Bytes
  pub transcript : Bytes
  pub conn : Conn
  pub stream : Bytes
  pub sink : Sink

unfoldable pub receive_key : Environment → Greeting → ℕ × Bytes × Conn × Bytes → Result Exchange
unfolding receive_message encrypted_premaster checked_premaster
receive_key env g (kind, data', c, s) = receive_message 16 kind data' >>= λ message.
    checked_premaster (env.decrypt (encrypted_premaster message)) >>= λ premaster. ok (record {
      hello = g.hello;
      random = g.random;
      premaster = premaster;
      transcript = g.transcript ++ message;
      conn = c;
      stream = s;
      sink = g.sink;
    })

unfoldable pub exchange_key : Environment → Greeting → Result Exchange
unfolding receive_key
exchange_key env g = read_record g.conn g.stream >>= receive_key env g

unfoldable pub exchange : Environment → Conn → Bytes → Sink → Result Exchange
unfolding answer_hello exchange_key
exchange env c s w = read_record c s >>= answer_hello env w >>= exchange_key env

-- The server's own switch to the keys, and its Finished.
unfoldable pub finish :
    Hashes → Exchange → Secrets → Conn → Bytes → Bytes → Result (Conn × Bytes × Sink)
unfolding sent
finish h e k c s fin = sent (write_raw_record c e.sink record_change_cipher_spec (1 ∷ [])) >>= λ w1.
    let (c1, r) =
      write_record (record c { outgoing = k.server }) w1 record_handshake
        (handshake_message 20
          (finished_verify h e.hello.version k.master (e.transcript ++ fin) false)) in
    sent r >>= λ w2. ok (c1, s, w2)

-- The client's Finished, under the keys.
unfoldable pub verify_finished :
    Hashes → Exchange → Secrets → ℕ × Bytes × Conn × Bytes → Result (Conn × Bytes × Sink)
unfolding receive_message check_finished finish
verify_finished h e k (kind, data', c, s) = receive_message 20 kind data' >>= λ message.
    check_finished e.hello.version (finished_verify h e.hello.version k.master e.transcript true)
      message
    >>= finish h e k c s

-- The client's switch to the keys.
unfoldable pub change_cipher :
    Hashes → Exchange → Secrets → ℕ × Bytes × Conn × Bytes → Result (Conn × Bytes × Sink)
unfolding verify_finished
change_cipher h e k (kind, ccs, c, s) =
    if not ((kind == record_change_cipher_spec) && bytes_eq ccs (1 ∷ []))
    then err unexpected_record
    else read_record (record c { incoming = k.client }) s >>= verify_finished h e k

unfoldable pub conclude : Hashes → Exchange → Secrets → Result (Conn × Bytes × Sink)
unfolding change_cipher
conclude h e k = read_record e.conn e.stream >>= change_cipher h e k

unfoldable pub handshake : Hashes → Environment → Conn → Bytes → Sink → Result (Conn × Bytes × Sink)
unfolding exchange conclude
handshake h env c s w =
    if not env.has_key || (length env.certificates == 0)
    then err no_certificate
    else exchange env c s w >>= λ e. conclude h e (derive h e.hello e.random e.premaster)
