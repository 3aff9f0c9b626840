-- ===== src/Tls/Client/KeyExchange.antt =====
-- legacytls/conn.go: the exchange with a proper client, up to the premaster secret.
use burnout_paradise_server.Common.{
  ℕ, ◌^◌, ◌<◌, ◌≡◌, refl, ap, ◌∙◌, inl, inr, List, [], ◌∷◌, ◌++◌, length, true, false, some, Bytes,
  ==_refl, arith,
}
use burnout_paradise_server.Io.{ok, ◌>>=◌}
use burnout_paradise_server.Io.ReadFull.{>>=-ok}
use burnout_paradise_server.Io.Delivery.{taking}
use burnout_paradise_server.Tls.{
  Hashes, server, record_handshake, write_raw_record, accepts_version, raw_record,
}
use burnout_paradise_server.Tls.Records.{read_record-plain}
use burnout_paradise_server.Tls.Messages.{handshake_message, put_uint24}
use burnout_paradise_server.Tls.Messages.Split.{length-handshake_message}
use burnout_paradise_server.Tls.Handshake.{
  Environment, checked_premaster, Greeting, server_random, send_flight, answer_hello, receive_key,
  exchange_key, exchange, sent, server_flight, certificate_entries,
}
use burnout_paradise_server.Tls.Client.{
  Client, hello_body, hello_message, heard, key_exchange, key_message, IsProper, before_keys,
  own_random, flight, keyed, certificate_list, server_hello,
}
use burnout_paradise_server.Tls.Client.Greeting.{parse_hello-proper}
use burnout_paradise_server.Tls.Client.Records.{
  receive_message-single, encrypted_premaster-proper, checked_premaster-proper, key_exchange_size,
}
use burnout_paradise_server.Tls.Client.Writes.{sent-raw}

pub known_version : (env : Environment) (cl : Client) → IsProper env cl → cl.version < 2 ^ 16
known_version env cl v = ground (arith, v.version)

pub same_version :
    (cl : Client) (kind : ℕ) → accepts_version (before_keys cl) kind cl.version ≡ true
unfolding accepts_version
same_version cl kind = rw (==_refl cl.version) refl

entries-list : (certs : List Bytes) → certificate_entries certs ≡ certificate_list certs
unfolding certificate_entries
entries-list [] = refl
entries-list (cert ∷ certs) = ap (λ l. put_uint24 (length cert) ++ cert ++ l) (entries-list certs)

server_flight-flight :
    (env : Environment) (cl : Client) (random : Bytes)
    → server_flight env (heard cl) random ≡ flight env cl random
unfolding server_flight
server_flight-flight env cl random =
    ap
      (λ chain.
        handshake_message 2 (server_hello cl random)
        ++ handshake_message 11 (put_uint24 (length chain) ++ chain)
        ++ handshake_message 14 [])
      (entries-list env.certificates)

module _ (h : Hashes) (env : Environment) (cl : Client) (v : IsProper env cl) (bytes : Bytes)
    (drawn : env.random ≡ some bytes) where
  abbrev mine : Bytes
  mine = own_random env bytes

  accepted : accepts_version server record_handshake cl.record_version ≡ true
  unfolding accepts_version
  accepted = elim v.record_version [ inl e ↦ rw e refl | inr e ↦ rw e refl ]

  drawn_random : server_random env ≡ ok mine
  unfolding server_random
  drawn_random = rw drawn refl

  abbrev greeting : Bytes → Bytes → Greeting
  greeting before s = record {
    hello = heard cl;
    random = mine;
    transcript = hello_message cl ++ (flight env cl mine);
    conn = before_keys cl;
    stream = s;
    sink = taking (before ++ raw_record cl.version record_handshake (flight env cl mine));
  }

  send_flight-proper :
      (before s : Bytes)
      → send_flight env (record server { first_record = false }) s (taking before) (heard cl) mine
        ≡ ok (greeting before s)
  unfolding send_flight
  send_flight-proper before s =
      ap
        (λ f. sent (write_raw_record (before_keys cl) (taking before) record_handshake f) >>= λ w.
          ok (record (greeting before s) { transcript = hello_message cl ++ f; sink = w }))
        (server_flight-flight env cl mine)
      ∙ >>=-ok _ (sent-raw (before_keys cl) before record_handshake (flight env cl mine))

  answer_hello-proper :
      (before s : Bytes)
      → answer_hello env
          (taking before)
          (record_handshake, hello_message cl, record server { first_record = false }, s)
        ≡ ok (greeting before s)
  unfolding answer_hello
  answer_hello-proper before s =
      >>=-ok _ (receive_message-single 1 (hello_body cl) (omega (arith, v.hello_fits)))
      ∙ >>=-ok _ (parse_hello-proper env cl v)
      ∙ >>=-ok _ drawn_random
      ∙ send_flight-proper before s

  exchange_key-proper :
      (before s : Bytes)
      → exchange_key env
          (greeting before (raw_record cl.version record_handshake (key_message cl) ++ s))
        ≡ ok (keyed h env cl mine before s)
  unfolding exchange_key receive_key
  exchange_key-proper before s =
      >>=-ok _ (
        read_record-plain (before_keys cl) record_handshake cl.version (key_message cl) s refl
          (same_version cl record_handshake) (known_version env cl v)
          (omega
            (arith, key_exchange_size env cl v, length-handshake_message 16 (key_exchange cl))))
      ∙ >>=-ok _
          (receive_message-single 16 (key_exchange cl) (omega (arith, key_exchange_size env cl v)))
      ∙ >>=-ok _ (
          ap (λ b. checked_premaster (env.decrypt b)) (encrypted_premaster-proper env cl v)
          ∙ checked_premaster-proper env cl v)

  pub exchange-proper :
      (before s : Bytes)
      → exchange env server
          (raw_record cl.record_version record_handshake (hello_message cl)
            ++ (raw_record cl.version record_handshake (key_message cl) ++ s))
          (taking before)
        ≡ ok (keyed h env cl mine before s)
  unfolding exchange
  exchange-proper before s =
      ap (λ r. r >>= answer_hello env (taking before) >>= exchange_key env)
        (read_record-plain server record_handshake cl.record_version (hello_message cl) _ refl
          accepted (ground (arith, v.record_version))
          (omega (arith, v.hello_fits, length-handshake_message 1 (hello_body cl))))
      ∙ ap (λ r. r >>= exchange_key env) (answer_hello-proper before _)
      ∙ exchange_key-proper before s
