-- ===== src/Tls/Client/Writes.antt =====
-- legacytls/conn.go: what the handshake writes to a writer that takes it, and the lengths of its digests.
use burnout_paradise_server.Common.{
  ℕ, ◌≤◌, ◌<◌, ◌≡◌, ◌≢◌, refl, ap, List, [], ◌∷◌, ◌++◌, Option, some, none, Bytes, ◌==◌,
  if◌then◌else◌, length, arith, if_cases,
}
use burnout_paradise_server.Io.{ok}
use burnout_paradise_server.Io.Delivery.{taking, write_all-taking}
use burnout_paradise_server.Tls.{
  Hash, Hashes, CipherState, Conn, suite_rc4_md5, raw_record, write_raw_record, write_record, seal,
}
use burnout_paradise_server.Tls.Stream.Chunk.{MacFits}
use burnout_paradise_server.Crypto.Rc4.{Rc4}
use burnout_paradise_server.Tls.Handshake.{Hello, sent, derive, cipher_state, make_cipher}

pub not_empty : (xs : List Bytes) → xs ≢ [] → 0 < length xs
not_empty [] h = absurd (h refl)
not_empty (x ∷ xs) h = omega arith

-- A raw record that the writer takes.
pub sent-raw :
    (c : Conn) (before : Bytes) (kind : ℕ) (body : Bytes)
    → sent (write_raw_record c (taking before) kind body)
      ≡ ok (taking (before ++ raw_record c.version kind body))
unfolding sent write_raw_record
sent-raw c before kind body = ap sent (write_all-taking before (raw_record c.version kind body))

-- A sealed record that the writer takes. What is sealed depends on the direction's own state alone.
pub sent-sealed :
    (c d : Conn) (o : Option CipherState) (before : Bytes) (kind : ℕ) (plain : Bytes)
    → write_record (record c { outgoing = o }) (taking before) kind plain ≡ (
      record c { outgoing = (seal (record d { outgoing = o }) kind plain).1.outgoing },
      some (
        taking
            (before ++ raw_record c.version kind (seal (record d { outgoing = o }) kind plain).0),
        none,
      ),
    )
unfolding write_record seal write_raw_record
sent-sealed c d none before kind plain =
    ap (λ r. (record c { outgoing = none }, r))
      (write_all-taking before (raw_record c.version kind plain))
sent-sealed c d (some k) before kind plain =
    ap
      (λ r.
        (record c { outgoing = (seal (record d { outgoing = some k }) kind plain).1.outgoing }, r))
      (write_all-taking before
        (raw_record c.version kind (seal (record d { outgoing = some k }) kind plain).0))

cipher_state-MacFits :
    (o : Option Rc4) (mac_key : Bytes) (hash : Hash) (version : ℕ)
    → hash.size ≤ 2048
    → MacFits (cipher_state o mac_key hash version)
unfolding cipher_state
cipher_state-MacFits none mac_key hash version h = tt
cipher_state-MacFits (some c) mac_key hash version h = h

-- The digests of both suites are short.
pub derive-MacFits :
    (h : Hashes) (hello : Hello) (random premaster : Bytes)
    → MacFits (derive h hello random premaster).client
      × MacFits (derive h hello random premaster).server
unfolding derive make_cipher
derive-MacFits h hello random premaster =
    let short : (if hello.suite == suite_rc4_md5 then h.md5 else h.sha1).size ≤ 2048 =
      if_cases (λ (x : Hash). x.size ≤ 2048) (hello.suite == suite_rc4_md5) _ _
        (λ e. omega (arith, h.md5_size)) (λ e. omega (arith, h.sha1_size)) in
    (cipher_state-MacFits _ _ _ _ short, cipher_state-MacFits _ _ _ _ short)
