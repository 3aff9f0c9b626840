-- ===== src/Tls/Client/Agreement.antt =====
-- legacytls/conn.go: the handshake with a proper client completes.
use burnout_paradise_server.Common.{
  ℕ, ◌≤◌, ◌≡◌, ◌≢◌, refl, ap, ◌∙◌, [], ◌∷◌, bytes_eq, ◌++◌, append_assoc, true, not, ◌||◌, some,
  none, Bytes, ◌==◌, length, arith, if_cases,
}
use burnout_paradise_server.Io.{ok, ◌>>=◌}
use burnout_paradise_server.Io.ReadFull.{>>=-ok}
use burnout_paradise_server.Io.Delivery.{taking}
use burnout_paradise_server.Tls.{
  Hashes, Conn, server, tls10, record_handshake, record_change_cipher_spec, read_record, raw_record,
  seal,
}
use burnout_paradise_server.Tls.Records.{read_record-plain, read_record-seal}
use burnout_paradise_server.Tls.Messages.Split.{length-handshake_message}
use burnout_paradise_server.Tls.Stream.Chunk.{length-seal}
use burnout_paradise_server.Tls.Keys.{finished_verify, finished_length}
use burnout_paradise_server.Tls.Keys.Lengths.{length-finished_verify}
use burnout_paradise_server.Tls.Handshake.{
  Environment, Secrets, sent, finish, verify_finished, change_cipher, conclude, handshake,
}
use burnout_paradise_server.Tls.Client.{
  Client, hello_message, heard, key_message, IsProper, before_keys, secrets, transcript,
  client_finished, server_finished, client_keyed, server_keyed, key_records, client_records,
  server_records, agreed, own_random, flight, keyed,
}
use burnout_paradise_server.Tls.Client.Records.{receive_message-single, check_finished-same}
use burnout_paradise_server.Tls.Client.Writes.{not_empty, sent-raw, sent-sealed, derive-MacFits}
use burnout_paradise_server.Tls.Client.KeyExchange.{known_version, same_version, exchange-proper}

module _ (h : Hashes) (env : Environment) (cl : Client) (v : IsProper env cl) (bytes : Bytes)
    (drawn : env.random ≡ some bytes) where
  abbrev mine : Bytes
  mine = own_random env bytes

  abbrev keys : Secrets
  keys = secrets h env cl mine

  abbrev finished_value : Bytes
  finished_value = finished_verify h cl.version keys.master (transcript h env cl mine) true

  finished_size : length finished_value ≡ finished_length cl.version
  finished_size = length-finished_verify h cl.version keys.master (transcript h env cl mine) true

  finished_short : length finished_value ≤ 36
  finished_short =
      let short : finished_length cl.version ≤ 36 =
        if_cases (λ (n : ℕ). n ≤ 36) (cl.version == tls10) 12 36 (λ e. omega arith)
          (λ e. omega arith) in
      omega (arith, short, finished_size)

  abbrev sender : Conn
  sender = client_keyed h env cl mine

  abbrev message : Bytes
  message = client_finished h env cl mine

  sealed_size : length (seal sender record_handshake message).0 ≤ 18432
  sealed_size = omega (
    arith,
    length-seal sender keys.client record_handshake message
        (derive-MacFits h (heard cl) mine cl.premaster).0,
    length-handshake_message 20 finished_value,
    finished_short,
  )

  finish-proper :
      (before s rest : Bytes)
      → finish h
          (keyed h env cl mine before s)
          keys
          (record (agreed h env cl mine) { outgoing = none })
          rest
          message
        ≡ ok (agreed h env cl mine, rest, taking (before ++ server_records h env cl mine))
  unfolding finish
  finish-proper before s rest =
      let c = record (agreed h env cl mine) { outgoing = none } in
      let first = before ++ raw_record cl.version record_handshake (flight env cl mine) in
      let switch = raw_record cl.version record_change_cipher_spec (1 ∷ []) in
      >>=-ok _ (sent-raw c first record_change_cipher_spec (1 ∷ []))
      ∙ ap (λ (c1, r). sent r >>= λ w. ok (c1, rest, w))
          (sent-sealed c (before_keys cl) keys.server (first ++ switch) record_handshake
            (server_finished h env cl mine))
      ∙ ap (λ b. ok (agreed h env cl mine, rest, taking b))
          (ap
              (λ b.
                b
                ++ raw_record cl.version record_handshake
                    (seal (server_keyed h env cl mine) record_handshake
                      (server_finished h env cl mine)).0)
              (append_assoc before _ switch)
            ∙ append_assoc before _ _)

  verify_finished-proper :
      (before s rest : Bytes)
      → verify_finished h
          (keyed h env cl mine before s)
          keys
          (record_handshake, message, record (agreed h env cl mine) { outgoing = none }, rest)
        ≡ ok (agreed h env cl mine, rest, taking (before ++ server_records h env cl mine))
  unfolding verify_finished
  verify_finished-proper before s rest =
      >>=-ok _ (receive_message-single 20 finished_value (omega (arith, finished_short)))
      ∙ >>=-ok _ (check_finished-same cl.version finished_value finished_size)
      ∙ finish-proper before s rest

  conclude-proper :
      (before rest : Bytes)
      → conclude h (keyed h env cl mine before (key_records h env cl mine ++ rest)) keys
        ≡ ok (agreed h env cl mine, rest, taking (before ++ server_records h env cl mine))
  unfolding conclude change_cipher bytes_eq
  conclude-proper before rest =
      let sealed =
        raw_record cl.version record_handshake (seal sender record_handshake message).0 in
      ap
        (λ s.
          read_record (before_keys cl) s >>= change_cipher h (keyed h env cl mine before s) keys)
        (append_assoc (raw_record cl.version record_change_cipher_spec (1 ∷ [])) sealed rest)
      ∙ >>=-ok _ (
          read_record-plain (before_keys cl) record_change_cipher_spec cl.version (1 ∷ [])
            (sealed ++ rest) refl (same_version cl record_change_cipher_spec)
            (known_version env cl v) (omega arith))
      ∙ >>=-ok _
          (read_record-seal sender (record (before_keys cl) { incoming = keys.client })
            record_handshake message rest (record { same_version = refl; same_state = refl })
            (known_version env cl v) sealed_size).0
      ∙ verify_finished-proper before
          (raw_record cl.version record_change_cipher_spec (1 ∷ []) ++ (sealed ++ rest)) rest

  -- With a key, a certificate and random bytes, the handshake with a proper client succeeds and takes exactly
  -- its records off the stream; the server has sent its own, and both directions are where the client's ends
  -- are.
  pub handshake-proper :
      (before rest : Bytes)
      → env.has_key ≡ true
      → env.certificates ≢ []
      → handshake h env server (client_records h env cl mine ++ rest) (taking before)
        ≡ ok (agreed h env cl mine, rest, taking (before ++ server_records h env cl mine))
  unfolding handshake
  handshake-proper before rest key certificate =
      let hello = raw_record cl.record_version record_handshake (hello_message cl) in
      let exchanged = raw_record cl.version record_handshake (key_message cl) in
      let last = key_records h env cl mine in
      ap (λ s. handshake h env server s (taking before))
        (append_assoc hello (exchanged ++ last) rest
          ∙ ap (◌++◌ hello) (append_assoc exchanged last rest))
      ∙ if_cases
          (λ r.
            r ≡ ok (agreed h env cl mine, rest, taking (before ++ server_records h env cl mine)))
          (not env.has_key || (length env.certificates == 0)) _ _
          (λ e. absurd (ground (arith, e, key, not_empty env.certificates certificate)))
          (λ e.
            >>=-ok _ (exchange-proper h env cl v bytes drawn before (last ++ rest))
            ∙ conclude-proper before rest)
