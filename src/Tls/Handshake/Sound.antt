-- ===== src/Tls/Handshake/Sound.antt =====
-- legacytls/conn.go: what a handshake that succeeds has checked.
use burnout_paradise_server.Common.{
  ℕ, arith, ◌≡◌, sym, ap, ◌∙◌, subst, [], ◌∷◌, true, not, ◌&&◌, ◌||◌, some, Bytes, bytes_eq,
  bytes_eq_sound, ==_iff, ◌==◌, length, drop, if_cases,
}
use burnout_paradise_server.Io.{Result, ok, err, ◌>>=◌, Sink, unexpected_record, no_certificate}
use burnout_paradise_server.Io.ReadFull.{>>=-eq-ok, ok_eq}
use burnout_paradise_server.Tls.{
  Hashes, CipherState, Conn, record_handshake, record_change_cipher_spec, read_record,
  write_raw_record,
}
use burnout_paradise_server.Tls.Keys.{finished_verify}
use burnout_paradise_server.Tls.Handshake.{
  Environment, Hello, Exchange, Greeting, Secrets, send_flight, answer_hello, receive_key,
  exchange_key, finish, verify_finished, change_cipher, parse_hello, receive_message, server_random,
  server_flight, sent, encrypted_premaster, checked_premaster, derive, check_finished, exchange,
  conclude, handshake,
}
use burnout_paradise_server.Tls.Handshake.Checks.{
  IsVersion, IsSuite, parse_hello_sound, checked_premaster_sound, check_finished_sound,
  derive-active,
}

send_flight-hello :
    (env : Environment) (c : Conn) (s : Bytes) (w : Sink) (hello : Hello) (random : Bytes)
    (g : Greeting)
    → send_flight env c s w hello random ≡ ok g
    → g.hello ≡ hello
unfolding send_flight
send_flight-hello env c s w hello random g good =
    let (w1, _, e) =
      >>=-eq-ok
        (sent (
          write_raw_record (record c { version = hello.version }) w record_handshake
            (server_flight env hello random)))
        _ good in
    ap (λ x. x.hello) (sym (ok_eq e))

answer_hello_sound :
    (env : Environment) (w : Sink) (r : ℕ × Bytes × Conn × Bytes) (g : Greeting)
    → answer_hello env w r ≡ ok g
    → IsVersion g.hello.version × IsSuite g.hello.suite
unfolding answer_hello
answer_hello_sound env w (kind, data', c, s) g good =
    let (message, _, e1) = >>=-eq-ok (receive_message 1 kind data') _ good in
    let (hello, parsed, e2) = >>=-eq-ok (parse_hello message) _ e1 in
    let (random, _, e3) = >>=-eq-ok (server_random env) _ e2 in
    subst (λ x. IsVersion x.version × IsSuite x.suite)
      (sym (send_flight-hello env c s w hello random g e3)) (parse_hello_sound message hello parsed)

receive_key_sound :
    (env : Environment) (g : Greeting) (r : ℕ × Bytes × Conn × Bytes) (e : Exchange)
    → receive_key env g r ≡ ok e
    → (e.hello ≡ g.hello) × (length e.premaster ≡ 48)
unfolding receive_key
receive_key_sound env g (kind, data', c, s) e good =
    let (message, _, e1) = >>=-eq-ok (receive_message 16 kind data') _ good in
    let (premaster, checked, e2) =
      >>=-eq-ok (checked_premaster (env.decrypt (encrypted_premaster message))) _ e1 in
    (
      ap (λ x. x.hello) (sym (ok_eq e2)),
      ap (λ x. length x.premaster) (sym (ok_eq e2))
          ∙ checked_premaster_sound (env.decrypt (encrypted_premaster message)) premaster checked,
    )

exchange_sound :
    (env : Environment) (c : Conn) (s : Bytes) (w : Sink) (e : Exchange)
    → exchange env c s w ≡ ok e
    → IsVersion e.hello.version × IsSuite e.hello.suite × (length e.premaster ≡ 48)
unfolding exchange exchange_key
exchange_sound env c s w e good =
    let (g, greeted, e1) =
      >>=-eq-ok (read_record c s >>= answer_hello env w) (exchange_key env) good in
    let (r, _, answered) = >>=-eq-ok (read_record c s) (answer_hello env w) greeted in
    let (r1, _, keyed) = >>=-eq-ok (read_record g.conn g.stream) (receive_key env g) e1 in
    let (same, size) = receive_key_sound env g r1 e keyed in
    let (version, suite) =
      subst (λ x. IsVersion x.version × IsSuite x.suite) (sym same)
        (answer_hello_sound env w r g answered) in
    (version, suite, size)

-- What a success rests on: the next record of the connection behind the exchange is the switch to the keys,
-- and the one behind it, read under the derived keys, is a Finished message with the value that the client has
-- to know the master secret for.
pub record Verified (h : Hashes) (e : Exchange) (k : Secrets) : Type 0 where
  pub switched : ℕ × Bytes × Conn × Bytes
  pub follows : read_record e.conn e.stream ≡ ok switched
  pub is_switch : (switched.0 ≡ record_change_cipher_spec) × (switched.1 ≡ 1 ∷ [])
  pub received : ℕ × Bytes × Conn × Bytes
  pub under_keys : read_record (record switched.2 { incoming = k.client }) switched.3 ≡ ok received
  pub finished : Bytes
  pub single : receive_message 20 received.0 received.1 ≡ ok finished
  pub value : drop 4 finished ≡ finished_verify h e.hello.version k.master e.transcript true

change_cipher_sound :
    (h : Hashes) (e : Exchange) (k : Secrets) (r : ℕ × Bytes × Conn × Bytes)
    (o : Conn × Bytes × Sink)
    → read_record e.conn e.stream ≡ ok r
    → change_cipher h e k r ≡ ok o
    → Verified h e k
unfolding change_cipher verify_finished
change_cipher_sound h e k (kind, ccs, c, s) o next =
    let is_switch = (kind == record_change_cipher_spec) && bytes_eq ccs (1 ∷ []) in
    if_cases (λ (x : Result (Conn × Bytes × Sink)). x ≡ ok o → Verified h e k) (not is_switch)
      (err unexpected_record) _ (λ other bad. cc)
      λ same good.
        let kinds : (kind == record_change_cipher_spec) ≡ true = ground (arith, same) in
        let bytes : bytes_eq ccs (1 ∷ []) ≡ true = ground (arith, same) in
        let (r, read, verified) =
          >>=-eq-ok (read_record (record c { incoming = k.client }) s) (verify_finished h e k)
            good in
        let (message, single, checked) = >>=-eq-ok (receive_message 20 r.0 r.1) _ verified in
        let (fin, passed, _) =
          >>=-eq-ok
            (check_finished e.hello.version
              (finished_verify h e.hello.version k.master e.transcript true) message)
            (finish h e k r.2 r.3) checked in
        record {
          switched = (kind, ccs, c, s);
          follows = next;
          is_switch =
              ((==_iff kind record_change_cipher_spec).0 kinds, bytes_eq_sound ccs (1 ∷ []) bytes);
          received = r;
          under_keys = read;
          finished = message;
          single = single;
          value = (check_finished_sound e.hello.version _ message fin passed).1;
        }

conclude_sound :
    (h : Hashes) (e : Exchange) (k : Secrets) (o : Conn × Bytes × Sink)
    → conclude h e k ≡ ok o
    → Verified h e k
unfolding conclude
conclude_sound h e k o good =
    let (r, next, changed) = >>=-eq-ok (read_record e.conn e.stream) (change_cipher h e k) good in
    change_cipher_sound h e k r o next changed

-- The exchange of a handshake that succeeded, with what was checked in it and behind it.
abbrev pub Authentic : Hashes → Environment → Conn → Bytes → Sink → Type 0
Authentic h env c s w =
    (e : Exchange) × (exchange env c s w ≡ ok e)
    × (IsVersion e.hello.version × IsSuite e.hello.suite × (length e.premaster ≡ 48))
    × (((k : CipherState) × ((derive h e.hello e.random e.premaster).client ≡ some k))
        × ((k : CipherState) × ((derive h e.hello e.random e.premaster).server ≡ some k)))
    × Verified h e (derive h e.hello e.random e.premaster)

-- If the handshake succeeds, the exchange before it did, with a version and a suite that the server knows and
-- a premaster secret of 48 bytes; both directions got a cipher with the keys derived from it; and the client
-- sent next, in the stream of the connection, the switch to these keys and, under them, the Finished value of the
-- master secret and of all messages before.
pub handshake_lem :
    (h : Hashes) (env : Environment) (c : Conn) (s : Bytes) (w : Sink) (o : Conn × Bytes × Sink)
    → handshake h env c s w ≡ ok o
    → Authentic h env c s w
unfolding handshake
handshake_lem h env c s w o =
    if_cases (λ (r : Result (Conn × Bytes × Sink)). r ≡ ok o → Authentic h env c s w)
      (not env.has_key || (length env.certificates == 0)) (err no_certificate)
      (exchange env c s w >>= λ e. conclude h e (derive h e.hello e.random e.premaster))
      (λ missing bad. cc)
      λ present good.
        let (e, exchanged, concluded) =
          >>=-eq-ok (exchange env c s w) (λ e. conclude h e (derive h e.hello e.random e.premaster))
            good in
        (
          e,
          exchanged,
          exchange_sound env c s w e exchanged,
          derive-active h e.hello e.random e.premaster,
          conclude_sound h e (derive h e.hello e.random e.premaster) o concluded,
        )
