-- ===== src/Tls/Stream/Chunk.antt =====
-- legacytls/conn.go: one chunk of a write is read by one call.
use burnout_paradise_server.Common.{
  ℕ, suc, ◌+◌, ◌^◌, ◌≤◌, ◌<◌, ◌≡◌, refl, ap, ◌∙◌, [], ◌++◌, Option, none, some, Bytes, ◌==◌, length,
  take, drop, arith, take-long, drop-long, length-append, if_cases,
}
use burnout_paradise_server.Io.{Result, ok}
use burnout_paradise_server.Crypto.Rc4.Stream.{length-crypt}
use burnout_paradise_server.Tls.{
  CipherState, Conn, record_application_data, raw_record, record_mac, seal, read_record,
}
use burnout_paradise_server.Tls.Records.{InStep, behind, read_record-seal, length-record_mac}
use burnout_paradise_server.Tls.Stream.{max_chunk, take_record, read_loop, read}

-- A MAC that leaves a record of one chunk below the bound of the reader.
abbrev pub MacFits : Option CipherState → Type 0
MacFits none = Unit {0}
MacFits (some k) = k.hash.size ≤ 2048

pub length-seal :
    (c : Conn) (o : Option CipherState) (kind : ℕ) (plain : Bytes)
    → MacFits o
    → length (seal (record c { outgoing = o }) kind plain).0 ≤ length plain + 2048
unfolding seal
length-seal c none kind plain h = omega arith
length-seal c (some k) kind plain h = omega (
  arith,
  h,
  length-crypt k.stream (plain ++ record_mac k kind plain),
  length-append plain (record_mac k kind plain),
  length-record_mac k kind plain,
)

pub seal-MacFits :
    (c : Conn) (o : Option CipherState) (kind : ℕ) (plain : Bytes)
    → MacFits o
    → MacFits (seal (record c { outgoing = o }) kind plain).1.outgoing
unfolding seal
seal-MacFits c none kind plain h = h
seal-MacFits c (some k) kind plain h = h

pub read_loop-record :
    (fuel size : ℕ) (d d1 : Conn) (s s1 plain : Bytes)
    → d.read_buf ≡ []
    → read_record d s ≡ ok (record_application_data, plain, d1, s1)
    → read_loop (suc fuel) size d s ≡ read_loop fuel size (record d1 { read_buf = plain }) s1
unfolding read_loop take_record
read_loop-record fuel size d d1 s s1 plain clear got =
    if_cases
      (λ (r : Result (Bytes × Conn × Bytes)).
        r ≡ read_loop fuel size (record d1 { read_buf = plain }) s1)
      (length d.read_buf == 0) _ _ (λ e. rw got refl)
      (λ e. absurd (ground (arith, e, ap length clear)))

pub read_loop-ready :
    (fuel size : ℕ) (d : Conn) (s : Bytes)
    → 0 < length d.read_buf
    → read_loop (suc fuel) size d s
      ≡ ok (take size d.read_buf, record d { read_buf = drop size d.read_buf }, s)
unfolding read_loop
read_loop-ready fuel size d s some_bytes =
    if_cases
      (λ (r : Result (Bytes × Conn × Bytes)).
        r ≡ ok (take size d.read_buf, record d { read_buf = drop size d.read_buf }, s))
      (length d.read_buf == 0) _ _ (λ e. absurd (ground (arith, e, some_bytes))) (λ e. refl)

-- The reader behind a record that was read to its end.
abbrev pub settled : Conn → Conn → Conn
settled sender receiver = record (behind sender receiver) { read_buf = [] }

-- One chunk is read by one call.
pub read-chunk :
    (size : ℕ) (c d : Conn) (plain rest : Bytes)
    → InStep c d
    → d.read_buf ≡ []
    → c.version < 2 ^ 16
    → MacFits c.outgoing
    → 0 < length plain
    → length plain ≤ max_chunk
    → length plain ≤ size
    → read size d (
        raw_record c.version record_application_data (seal c record_application_data plain).0
        ++ rest)
      ≡ ok (plain, settled (seal c record_application_data plain).1 d, rest)
unfolding read
read-chunk size c d plain rest v clear small fits some_bytes short room =
    let (got, after) =
      read_record-seal c d record_application_data plain rest v small
        (omega (arith, short, length-seal c c.outgoing record_application_data plain fits)) in
    let s =
      raw_record c.version record_application_data (seal c record_application_data plain).0
      ++ rest in
    let d1 = behind (seal c record_application_data plain).1 d in
    read_loop-record (suc (length s)) size d d1 s rest plain clear got
    ∙ read_loop-ready (length s) size (record d1 { read_buf = plain }) rest some_bytes
    ∙ ap (λ x. ok (x, record d1 { read_buf = drop size plain }, rest)) (take-long size plain room)
    ∙ ap (λ x. ok (plain, record d1 { read_buf = x }, rest)) (drop-long size plain room)
