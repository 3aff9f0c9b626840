-- ===== src/Tls/Records.antt =====
-- legacytls/conn.go: what one end writes in a record the other end reads.
use burnout_paradise_server.Common.{
  ℕ, ◌+◌, ◌-◌, ◌*◌, ◌/◌, ◌%◌, ◌^◌, ◌≤◌, ◌<◌, ◌≡◌, refl, sym, ap, ◌∙◌, subst, ◌∷◌, ◌++◌, true, false,
  Option, none, some, Bytes, bytes_eq_refl, ltb-false, length, length-append, take-append,
  drop-append, arith, if_cases, ==_refl, ◌==◌,
}
use burnout_paradise_server.Io.{ok, ◌>>=◌}
use burnout_paradise_server.Io.ReadFull.{read_full-append}
use burnout_paradise_server.Crypto.Rc4.{Rc4}
use burnout_paradise_server.Crypto.Rc4.Stream.{crypt, after, crypt-crypt, after-crypt}
use burnout_paradise_server.Tls.{
  CipherState, Conn, ssl30, record_mac, next_state, check_record, open_cipher, open_record,
  accepts_version, read_body, put_u16, read_record, raw_record, seal,
}

pub length-record_mac :
    (k : CipherState) (kind : ℕ) (plain : Bytes) → length (record_mac k kind plain) ≡ k.hash.size
unfolding record_mac
length-record_mac k kind plain =
    if_cases (λ (r : Bytes). length r ≡ k.hash.size) (k.version == ssl30) _ _
      (λ e. k.hash.length-sum _) (λ e. k.hash.length-hmac _ _)

-- A MAC that stands where it belongs is accepted, and the state moves on.
check_record-mac :
    (k : CipherState) (stream : Rc4) (kind : ℕ) (plain : Bytes)
    → check_record k stream kind (plain ++ record_mac k kind plain)
      ≡ ok (plain, next_state k stream)
unfolding check_record
check_record-mac k stream kind plain =
    let size = length-append plain (record_mac k kind plain) in
    let mac = length-record_mac k kind plain in
    let whole : length plain ≡ length (plain ++ record_mac k kind plain) - k.hash.size =
      omega (arith, size, mac) in
    rw
      (
        take-append (length (plain ++ record_mac k kind plain) - k.hash.size) plain
            (record_mac k kind plain) whole,
        drop-append (length (plain ++ record_mac k kind plain) - k.hash.size) plain
            (record_mac k kind plain) whole,
        bytes_eq_refl (record_mac k kind plain),
        ltb-false (length (plain ++ record_mac k kind plain)) k.hash.size
            (omega (arith, size, mac)),
      )
      refl

-- The content of a record, decrypted by an end that is at the same place.
open_cipher-crypt :
    (k : CipherState) (kind : ℕ) (plain : Bytes)
    → open_cipher k kind (crypt k.stream (plain ++ record_mac k kind plain))
      ≡ ok (plain, next_state k (after k.stream (plain ++ record_mac k kind plain)))
unfolding open_cipher
open_cipher-crypt k kind plain =
    let whole = plain ++ record_mac k kind plain in
    rw (crypt-crypt k.stream whole, after-crypt k.stream whole)
      (check_record-mac k (after k.stream whole) kind plain)

-- The two ends agree on the version, and one writes where the other reads.
pub record InStep (sender receiver : Conn) : Type 0 where
  pub same_version : sender.version ≡ receiver.version
  pub same_state : sender.outgoing ≡ receiver.incoming

-- The reader behind a record of the writer.
abbrev pub behind : Conn → Conn → Conn
behind sender receiver = record receiver { incoming = sender.outgoing; first_record = false }

open_record-seal :
    (c d : Conn) (o : Option CipherState) (kind : ℕ) (plain : Bytes)
    → open_record (record d { incoming = o }) kind (seal (record c { outgoing = o }) kind plain).0
      ≡ ok (plain, record d { incoming = (seal (record c { outgoing = o }) kind plain).1.outgoing })
unfolding open_record seal
open_record-seal c d none kind plain = refl
open_record-seal c d (some k) kind plain = rw (open_cipher-crypt k kind plain) refl

accepts-same : (c : Conn) (kind : ℕ) → accepts_version c kind c.version ≡ true
unfolding accepts_version
accepts-same c kind = rw (==_refl c.version) refl

abbrev header : ℕ → ℕ → ℕ → Bytes
header version kind size = kind ∷ put_u16 version ++ put_u16 size

read_body-record :
    (d : Conn) (kind version : ℕ) (body plain rest : Bytes) (d' : Conn)
    → accepts_version d kind version ≡ true
    → version < 2 ^ 16
    → length body ≤ 18432
    → open_record (record d { first_record = false }) kind body ≡ ok (plain, d')
    → read_body d (header version kind (length body)) (body ++ rest) ≡ ok (kind, plain, d', rest)
unfolding read_body
read_body-record d kind version body plain rest d' good small short opened =
    let size : length body / 256 % 256 * 256 + length body % 256 ≡ length body =
      omega (arith, short) in
    let same : version / 256 % 256 * 256 + version % 256 ≡ version = omega (arith, small) in
    rw
      (
        size,
        same,
        good,
        ltb-false 18432 (length body) short,
        read_full-append (length body) body rest refl,
        opened,
      )
      refl

pub seal-version :
    (c : Conn) (o : Option CipherState) (kind : ℕ) (plain : Bytes)
    → (seal (record c { outgoing = o }) kind plain).1.version ≡ c.version
unfolding seal
seal-version c none kind plain = refl
seal-version c (some k) kind plain = refl

-- If two ends are in step, whatever the one writes as a record of at most 18432 bytes is read by the other as
-- its type and its content, whatever follows it is left, and the two are in step again.
pub read_record-seal :
    (c d : Conn) (kind : ℕ) (plain rest : Bytes)
    → InStep c d
    → c.version < 2 ^ 16
    → length (seal c kind plain).0 ≤ 18432
    → (read_record d (raw_record c.version kind (seal c kind plain).0 ++ rest)
        ≡ ok (kind, plain, behind (seal c kind plain).1 d, rest))
      × InStep (seal c kind plain).1 (behind (seal c kind plain).1 d)
unfolding read_record raw_record
read_record-seal c d kind plain rest v small short =
    let body = (seal c kind plain).0 in
    let opened : open_record (record d { first_record = false }) kind body
        ≡ ok (plain, behind (seal c kind plain).1 d) =
      subst
        (λ o.
          open_record (record d { first_record = false; incoming = o }) kind body
          ≡ ok (plain, behind (seal c kind plain).1 d))
        v.same_state
        (open_record-seal c (record d { first_record = false }) c.outgoing kind plain) in
    (
      ap (λ r. r >>= λ (h, s'). read_body d h s')
            (read_full-append 5 (header c.version kind (length body)) (body ++ rest) refl)
          ∙ read_body-record d kind c.version body plain rest (behind (seal c kind plain).1 d)
              (subst (λ version. accepts_version d kind version ≡ true) (sym v.same_version)
                (accepts-same d kind))
              small short opened,
      record {
        same_version = seal-version c c.outgoing kind plain ∙ v.same_version;
        same_state = refl;
      },
    )

open_record-plain :
    (d : Conn) (kind : ℕ) (body : Bytes)
    → d.incoming ≡ none
    → open_record d kind body ≡ ok (body, d)
unfolding open_record
open_record-plain d kind body clear = rw clear refl

-- A reader without keys reads a record of a version that it accepts as it stands.
pub read_record-plain :
    (d : Conn) (kind version : ℕ) (body rest : Bytes)
    → d.incoming ≡ none
    → accepts_version d kind version ≡ true
    → version < 2 ^ 16
    → length body ≤ 18432
    → read_record d (raw_record version kind body ++ rest)
      ≡ ok (kind, body, record d { first_record = false }, rest)
unfolding read_record raw_record
read_record-plain d kind version body rest clear good small short =
    ap (λ r. r >>= λ (h, s'). read_body d h s')
      (read_full-append 5 (header version kind (length body)) (body ++ rest) refl)
    ∙ read_body-record d kind version body body rest (record d { first_record = false }) good small
        short (open_record-plain (record d { first_record = false }) kind body clear)
