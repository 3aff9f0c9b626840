-- ===== src/Tls/Stream/Flow.antt =====
-- legacytls/conn.go: what one end writes the other end reads, however long it is.
use burnout_paradise_server.Common.{
  zero, ◌∷◌, append_assoc, append-nil, sym, length-take, length-drop, take-append-drop, subst, ℕ,
  suc, ◌+◌, ◌^◌, ◌≤◌, ◌<◌, ◌≡◌, refl, ap, ◌∙◌, [], ◌++◌, Option, none, some, Bytes, length, take,
  drop, arith,
}
use burnout_paradise_server.Io.{Error, ok, ◌>>=◌, Sink}
use burnout_paradise_server.Io.Delivery.{write_all-Delivers, Delivers-sent}
use burnout_paradise_server.Tls.{
  Conn, record_application_data, raw_record, seal, write_record, write_raw_record,
}
use burnout_paradise_server.Tls.Records.{InStep, seal-version}
use burnout_paradise_server.Tls.Stream.{
  max_chunk, Progress, after_chunk, write_chunks, write, read_times,
}
use burnout_paradise_server.Tls.Stream.Chunk.{MacFits, seal-MacFits, settled, read-chunk}

-- A write that is done: all of it is reported, and the other end reads it with some calls of `Read`, each with
-- room for a chunk, whatever follows.
pub record Arrives (d : Conn) (w : Sink) (p : Bytes) (before : ℕ) (r : Progress) : Type 0 where
  pub wire : Bytes
  pub count : ℕ
  pub reported : r.written ≡ before + length p
  pub on_wire : r.sink.sent ≡ w.sent ++ wire
  pub arrives :
      (size : ℕ) (rest : Bytes)
      → max_chunk ≤ size
      → (d' : Conn) × (read_times size count d (wire ++ rest) ≡ ok (p, d', rest))
        × InStep r.conn d'
        × (d'.read_buf ≡ [])

-- What a loop on enough fuel leaves: it ends, and either reports an error and less than all, or everything.
abbrev pub Flows : Conn → Sink → Bytes → ℕ → Option Progress → Type 0
Flows d w p before o = (r : Progress) × (o ≡ some r) × ((r.error ≡ none) → Arrives d w p before r)

-- A chunk before the rest.
chunk_before :
    (c d : Conn) (w w1 : Sink) (p : Bytes) (before : ℕ) (r : Progress)
    → InStep c d
    → d.read_buf ≡ []
    → c.version < 2 ^ 16
    → MacFits c.outgoing
    → 0 < length p
    → w1.sent
      ≡ w.sent
        ++ raw_record c.version record_application_data
            (seal c record_application_data (take max_chunk p)).0
    → Arrives
        (settled (seal c record_application_data (take max_chunk p)).1 d)
        w1
        (drop max_chunk p)
        (before + length (take max_chunk p))
        r
    → Arrives d w p before r
unfolding read_times
chunk_before c d w w1 p before r v clear small fits some_bytes sent a =
    let chunk = take max_chunk p in
    let packet =
      raw_record c.version record_application_data (seal c record_application_data chunk).0 in
    let size_of_chunk = length-take max_chunk p in
    record {
      wire = packet ++ a.wire;
      count = suc a.count;
      reported = omega (arith, a.reported, length-take max_chunk p, length-drop max_chunk p);
      on_wire = a.on_wire ∙ ap (λ l. l ++ a.wire) sent ∙ append_assoc w.sent packet a.wire;
      arrives = λ size rest room.
          let (d', later, step, empty) = a.arrives size rest room in
          let first =
            read-chunk size c d chunk (a.wire ++ rest) v clear small fits
              (omega (arith, some_bytes, size_of_chunk)) (omega (arith, size_of_chunk))
              (omega (arith, size_of_chunk, room)) in
          (
            d',
            ap (read_times size (suc a.count) d) (append_assoc packet a.wire rest)
                ∙ ap
                    (λ o. o >>= λ (x, c1, s1).
                      read_times size a.count c1 s1 >>= λ (y, c2, s2). ok (x ++ y, c2, s2))
                    first
                ∙ ap (λ o. o >>= λ (y, c2, s2). ok (chunk ++ y, c2, s2)) later
                ∙ ap (λ x. ok (x, d', rest)) (take-append-drop max_chunk p),
            step,
            empty,
          );
    }

chunk-Flows :
    (c d : Conn) (w : Sink) (p : Bytes) (before : ℕ) (o : Sink × Option Error)
    (next : Conn → Sink → Option Progress)
    → InStep c d
    → d.read_buf ≡ []
    → c.version < 2 ^ 16
    → MacFits c.outgoing
    → 0 < length p
    → (o.1 ≡ none
        → o.0.sent
          ≡ w.sent
            ++ raw_record c.version record_application_data
                (seal c record_application_data (take max_chunk p)).0)
    → ((w1 : Sink)
        → Flows
            (settled (seal c record_application_data (take max_chunk p)).1 d)
            w1
            (drop max_chunk p)
            (before + length (take max_chunk p))
            (next (seal c record_application_data (take max_chunk p)).1 w1))
    → Flows d w p before
        (after_chunk ((seal c record_application_data (take max_chunk p)).1, some o) before next)
unfolding after_chunk
chunk-Flows c d w p before (w1, some failure) next v clear small fits some_bytes sent k = (
  record {
    conn = (seal c record_application_data (take max_chunk p)).1;
    sink = w1;
    written = before;
    error = some failure;
  },
  refl,
  λ e. cc,
)
chunk-Flows c d w p before (w1, none) next v clear small fits some_bytes sent k =
    let (r, e, a) = k w1 in
    (
      r,
      e,
      λ good. chunk_before c d w w1 p before r v clear small fits some_bytes (sent refl) (a good),
    )

write_chunks-Flows :
    (fuel : ℕ) (c d : Conn) (w : Sink) (p : Bytes) (before : ℕ)
    → InStep c d
    → d.read_buf ≡ []
    → c.version < 2 ^ 16
    → MacFits c.outgoing
    → length p ≤ fuel
    → Flows d w p before (write_chunks fuel c w p before)
unfolding write_chunks write_record write_raw_record read_times
write_chunks-Flows fuel c d w [] before v clear small fits h = (
  record { conn = c; sink = w; written = before; error = none },
  refl,
  λ good. record {
    wire = [];
    count = 0;
    reported = omega arith;
    on_wire = sym (append-nil w.sent);
    arrives = λ size rest room. (d, refl, v, clear);
  },
)
write_chunks-Flows zero c d w (x ∷ p) before v clear small fits h = absurd (omega (arith, h))
write_chunks-Flows (suc fuel) c d w (x ∷ p) before v clear small fits h =
    let sealed = seal c record_application_data (take max_chunk (x ∷ p)) in
    let size_of_rest = length-drop max_chunk (x ∷ p) in
    let same = seal-version c c.outgoing record_application_data (take max_chunk (x ∷ p)) in
    let (o, e, delivered) =
      write_all-Delivers w (raw_record sealed.1.version record_application_data sealed.0) in
    subst
      (λ out. Flows d w (x ∷ p) before (
        after_chunk (sealed.1, out) before
          λ c1 w1.
            write_chunks fuel c1 w1 (drop max_chunk (x ∷ p))
              (before + length (take max_chunk (x ∷ p)))))
      (sym e)
      (chunk-Flows c d w (x ∷ p) before o _ v clear small fits (omega arith)
        (λ good.
          Delivers-sent delivered good
          ∙ ap (λ version. w.sent ++ raw_record version record_application_data sealed.0) same)
        λ w1.
          write_chunks-Flows fuel sealed.1 (settled sealed.1 d) w1 (drop max_chunk (x ∷ p))
            (before + length (take max_chunk (x ∷ p)))
            (record { same_version = same ∙ v.same_version; same_state = refl }) refl
            (omega (arith, same, small))
            (seal-MacFits c c.outgoing record_application_data (take max_chunk (x ∷ p)) fits)
            (omega (arith, h, size_of_rest)))

-- A write to a connection always ends. If the two ends are in step, the reader has read all that it was sent,
-- and a digest has at most 2048 bytes, then a write without an error reports all its bytes, and the other end
-- reads exactly these, in this order, by some calls of `Read` that have room for 16384 bytes each, whatever is
-- sent behind them; and the two ends are in step again.
pub write-Flows :
    (c d : Conn) (w : Sink) (p : Bytes)
    → InStep c d
    → d.read_buf ≡ []
    → c.version < 2 ^ 16
    → MacFits c.outgoing
    → Flows d w p 0 (write c w p)
unfolding write
write-Flows c d w p v clear small fits =
    write_chunks-Flows (length p) c d w p 0 v clear small fits (omega arith)
