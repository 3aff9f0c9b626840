-- ===== src/Tls/Stream/Sending.antt =====
-- legacytls/conn.go: what a write to a writer that takes it puts ahead of the other end.
use burnout_paradise_server.Common.{
  ℕ, zero, suc, ◌+◌, ◌^◌, ◌≤◌, ◌<◌, ◌≡◌, refl, sym, ap, ◌∙◌, subst, [], ◌∷◌, ◌++◌, append_assoc,
  append-nil, Option, none, some, Bytes, length, take, drop, length-take, length-drop,
  take-append-drop, arith,
}
use burnout_paradise_server.Io.{ok}
use burnout_paradise_server.Io.Delivery.{taking, write_all-taking}
use burnout_paradise_server.Tls.{
  Conn, record_application_data, read_record, raw_record, seal, write_record, write_raw_record,
}
use burnout_paradise_server.Tls.Records.{InStep, behind, read_record-seal, seal-version}
use burnout_paradise_server.Tls.Stream.{max_chunk, Progress, after_chunk, write_chunks, write}
use burnout_paradise_server.Tls.Stream.Chunk.{MacFits, length-seal, seal-MacFits}
use burnout_paradise_server.Tls.Stream.Full.{Ahead, arrived, another}

-- A write that is done, and the records that it puts ahead of the reader.
pub record Sends (d : Conn) (before p : Bytes) (written : ℕ) (o : Option Progress) : Type 0 where
  pub conn : Conn
  pub wire : Bytes
  pub done :
      o
      ≡ some (record {
        conn = conn;
        sink = taking (before ++ wire);
        written = written + length p;
        error = none;
      })
  pub reader : Conn
  pub ahead : (rest : Bytes) → Ahead (reader, rest) d (wire ++ rest) p
  pub in_step : InStep conn reader
  pub clear : reader.read_buf ≡ []
  pub fits : MacFits conn.outgoing
  pub small : conn.version < 2 ^ 16

-- A chunk is read as it was written.
chunk_read :
    (c d : Conn) (chunk rest : Bytes)
    → InStep c d
    → c.version < 2 ^ 16
    → MacFits c.outgoing
    → length chunk ≤ max_chunk
    → let sealed = seal c record_application_data chunk in
      read_record d (raw_record sealed.1.version record_application_data sealed.0 ++ rest)
      ≡ ok (record_application_data, chunk, behind sealed.1 d, rest)
chunk_read c d chunk rest v small fits short =
    let sealed = seal c record_application_data chunk in
    ap (λ ver. read_record d (raw_record ver record_application_data sealed.0 ++ rest))
      (seal-version c c.outgoing record_application_data chunk)
    ∙ (read_record-seal c d record_application_data chunk rest v small
        (omega (arith, short, length-seal c c.outgoing record_application_data chunk fits))).0

write_chunks-Sends :
    (fuel : ℕ) (c d : Conn) (before p : Bytes) (written : ℕ)
    → InStep c d
    → d.read_buf ≡ []
    → c.version < 2 ^ 16
    → MacFits c.outgoing
    → length p ≤ fuel
    → Sends d before p written (write_chunks fuel c (taking before) p written)
unfolding write_chunks write_record write_raw_record after_chunk
write_chunks-Sends fuel c d before [] written v clear small fits h = record {
  conn = c;
  wire = [];
  done = let same : written + 0 ≡ written = omega arith in rw (append-nil before, same) refl;
  reader = d;
  ahead = λ rest. arrived d rest refl clear;
  in_step = v;
  clear = clear;
  fits = fits;
  small = small;
}
write_chunks-Sends zero c d before (x ∷ p) written v clear small fits h = absurd (omega (arith, h))
write_chunks-Sends (suc fuel) c d before (x ∷ p) written v clear small fits h =
    let chunk = take max_chunk (x ∷ p) in
    let left = drop max_chunk (x ∷ p) in
    let sealed = seal c record_application_data chunk in
    let out = raw_record sealed.1.version record_application_data sealed.0 in
    let same = seal-version c c.outgoing record_application_data chunk in
    let d1 = behind sealed.1 d in
    let later =
      write_chunks-Sends fuel sealed.1 d1 (before ++ out) left (written + length chunk)
        (record { same_version = same ∙ v.same_version; same_state = refl }) clear
        (omega (arith, same, small)) (seal-MacFits c c.outgoing record_application_data chunk fits)
        (omega (arith, h, length-drop max_chunk (x ∷ p))) in
    record {
      conn = later.conn;
      wire = out ++ later.wire;
      done =
          ap
            (λ o.
              after_chunk (sealed.1, o) written
                λ c1 w1. write_chunks fuel c1 w1 left (written + length chunk))
            (write_all-taking before out)
          ∙ later.done
          ∙ ap
              (λ b. some (record {
                conn = later.conn;
                sink = taking b;
                written = written + length chunk + length left;
                error = none;
              }))
              (append_assoc before out later.wire)
          ∙ ap
              (λ n. some (record {
                conn = later.conn;
                sink = taking (before ++ (out ++ later.wire));
                written = n;
                error = none;
              }))
              (omega (arith, length-take max_chunk (x ∷ p), length-drop max_chunk (x ∷ p)));
      reader = later.reader;
      ahead = λ rest.
          subst (λ t. Ahead (later.reader, rest) d t (x ∷ p))
            (sym (append_assoc out later.wire rest))
            (another d (out ++ (later.wire ++ rest)) chunk d1 (later.wire ++ rest) left (x ∷ p)
              clear
              (chunk_read c d chunk (later.wire ++ rest) v small fits
                (omega (arith, length-take max_chunk (x ∷ p))))
              (omega arith) (later.ahead rest) (sym (take-append-drop max_chunk (x ∷ p))));
      in_step = later.in_step;
      clear = later.clear;
      fits = later.fits;
      small = later.small;
    }

pub write-Sends :
    (c d : Conn) (before p : Bytes)
    → InStep c d
    → d.read_buf ≡ []
    → c.version < 2 ^ 16
    → MacFits c.outgoing
    → Sends d before p 0 (write c (taking before) p)
unfolding write
write-Sends c d before p v clear small fits =
    write_chunks-Sends (length p) c d before p 0 v clear small fits (omega arith)
