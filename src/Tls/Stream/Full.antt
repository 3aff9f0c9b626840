-- ===== src/Tls/Stream/Full.antt =====
-- legacytls/conn.go: `io.ReadFull` on a connection, which reads on until it has all bytes.
use burnout_paradise_server.Common.{
  ℕ, zero, suc, ◌-◌, ◌≤◌, ◌<◌, ◌≡◌, refl, sym, ap, ◌∙◌, subst, [], ◌∷◌, ◌++◌, append_assoc, Bytes,
  length, length-append, length-take, take, drop, take-append-drop, take-append, drop-append,
  take-append_beyond, drop-append_beyond, arith,
}
use burnout_paradise_server.Io.{Result, ok, err, ◌>>=◌, eof, unexpected_eof, read_full}
use burnout_paradise_server.Io.ReadFull.{>>=-ok, read_full_sound}
use burnout_paradise_server.Tls.{Conn, record_application_data, read_record}
use burnout_paradise_server.Tls.Stream.{read}
use burnout_paradise_server.Tls.Stream.Chunk.{read_loop-record, read_loop-ready}

-- A connection and the bytes that are left of its stream.
abbrev pub Place : Type 0
Place = Conn × Bytes

-- The end of a stream is unexpected behind its first bytes.
late {ℓ} : {A : Type ℓ} → Result A → Result A
late (err eof) = err unexpected_eof
late (err failure) = err failure
late (ok value) = ok value

-- A call returns a byte at least, so the number of the bytes is enough fuel.
full_loop : ℕ → ℕ → Place → Result (Bytes × Place)
unfolding late
full_loop fuel zero p = ok ([], p)
full_loop zero (suc n) p = err unexpected_eof
full_loop (suc fuel) (suc n) (d, s) = read (suc n) d s >>= λ (x, d1, s1).
    late (full_loop fuel (suc n - length x) (d1, s1)) >>= λ (y, p). ok (x ++ y, p)

pub full : ℕ → Place → Result (Bytes × Place)
unfolding full_loop
full n p = full_loop n n p

-- The records ahead of a reader with an empty buffer hold the bytes, none of them empty, and lead to the end.
pub data Ahead (end : Place) : Conn → Bytes → Bytes → Type 0 where
  arrived : (d : Conn) (s : Bytes) → end ≡ (d, s) → d.read_buf ≡ [] → Ahead end d s []
  another :
      (d : Conn) (s plain : Bytes) (d1 : Conn) (s1 q p : Bytes)
      → d.read_buf ≡ []
      → read_record d s ≡ ok (record_application_data, plain, d1, s1)
      → 0 < length plain
      → Ahead end d1 s1 q
      → p ≡ plain ++ q
      → Ahead end d s p

-- What a reader has still to give: its buffer, and the records ahead.
pub record Holds (end at : Place) (p : Bytes) : Type 0 where
  pub conn : Conn
  pub buffer : Bytes
  pub later : Bytes
  pub here : at.0 ≡ record conn { read_buf = buffer }
  pub ahead : Ahead end conn at.1 later
  pub whole : p ≡ buffer ++ later

-- One call gives some of the bytes, and the reader holds the others.
pub record Gives (end at : Place) (p : Bytes) (size : ℕ) : Type 0 where
  pub given : Bytes
  pub left : Bytes
  pub next : Place
  pub reads : read size at.0 at.1 ≡ ok (given, next.0, next.1)
  pub split : p ≡ given ++ left
  pub least : 0 < length given
  pub most : length given ≤ size
  pub holds : Holds end next left

buffer-Gives :
    (end : Place) (d : Conn) (s : Bytes) (x : ℕ) (b q : Bytes) (size : ℕ)
    → Ahead end d s q
    → 0 < size
    → Gives end (record d { read_buf = x ∷ b }, s) ((x ∷ b) ++ q) size
unfolding read
buffer-Gives end d s x b q size ahead some_size = record {
  given = take size (x ∷ b);
  left = drop size (x ∷ b) ++ q;
  next = (record d { read_buf = drop size (x ∷ b) }, s);
  reads = read_loop-ready (suc (length s)) size (record d { read_buf = x ∷ b }) s (omega arith);
  split =
      ap (λ l. l ++ q) (sym (take-append-drop size (x ∷ b)))
      ∙ append_assoc (take size (x ∷ b)) (drop size (x ∷ b)) q;
  least = omega (arith, some_size, length-take size (x ∷ b));
  most = omega (arith, length-take size (x ∷ b));
  holds = record {
    conn = d;
    buffer = drop size (x ∷ b);
    later = q;
    here = refl;
    ahead = ahead;
    whole = refl;
  };
}

Ahead-Gives :
    (end : Place) (d : Conn) (s p : Bytes) (size : ℕ)
    → Ahead end d s p
    → 0 < length p
    → 0 < size
    → Gives end (d, s) p size
unfolding read
Ahead-Gives end d s p size (arrived _ _ at_end clear) some_bytes some_size =
    absurd (omega (arith, some_bytes))
Ahead-Gives end d s p size (another _ _ plain d1 s1 q _ clear got full_plain rest same) some_bytes
      some_size =
    record {
      given = take size plain;
      left = drop size plain ++ q;
      next = (record d1 { read_buf = drop size plain }, s1);
      reads =
          read_loop-record (suc (length s)) size d d1 s s1 plain clear got
          ∙ read_loop-ready (length s) size (record d1 { read_buf = plain }) s1 full_plain;
      split =
          same
          ∙ ap (λ l. l ++ q) (sym (take-append-drop size plain))
          ∙ append_assoc (take size plain) (drop size plain) q;
      least = omega (arith, some_size, full_plain, length-take size plain);
      most = omega (arith, length-take size plain);
      holds = record {
        conn = d1;
        buffer = drop size plain;
        later = q;
        here = refl;
        ahead = rest;
        whole = refl;
      };
    }

clear_of : (end : Place) (d : Conn) (s p : Bytes) → Ahead end d s p → d.read_buf ≡ []
clear_of end d s p (arrived _ _ at_end clear) = clear
clear_of end d s p (another _ _ plain d1 s1 q _ clear got full_plain rest same) = clear

some-Gives :
    (end : Place) (d : Conn) (b s q : Bytes) (size : ℕ)
    → Ahead end d s q
    → 0 < length (b ++ q)
    → 0 < size
    → Gives end (record d { read_buf = b }, s) (b ++ q) size
some-Gives end d [] s q size ahead some_bytes some_size =
    subst (λ b. Gives end (record d { read_buf = b }, s) q size) (clear_of end d s q ahead)
      (Ahead-Gives end d s q size ahead some_bytes some_size)
some-Gives end d (x ∷ b) s q size ahead some_bytes some_size =
    buffer-Gives end d s x b q size ahead some_size

Holds-Gives :
    (end at : Place) (p : Bytes) (size : ℕ)
    → Holds end at p
    → 0 < length p
    → 0 < size
    → Gives end at p size
Holds-Gives end at p size v some_bytes some_size =
    let start =
      some-Gives end v.conn v.buffer at.1 v.later size v.ahead
        (omega (arith, some_bytes, ap length v.whole)) some_size in
    subst (λ t. Gives end at t size) (sym v.whole)
      (subst (λ c. Gives end (c, at.1) (v.buffer ++ v.later) size) (sym v.here) start)

-- All bytes that were asked for, and the others are still held.
abbrev Fills : Place → ℕ → Bytes → Result (Bytes × Place) → Type 0
Fills end n p r = (next : Place) × (r ≡ ok (take n p, next)) × Holds end next (drop n p)

full_loop-Fills :
    (fuel n : ℕ) (end at : Place) (p : Bytes)
    → n ≤ fuel
    → n ≤ length p
    → Holds end at p
    → Fills end n p (full_loop fuel n at)
unfolding full_loop late
full_loop-Fills fuel zero end at p h enough v = (at, refl, v)
full_loop-Fills zero (suc n) end at p h enough v = absurd (omega (arith, h))
full_loop-Fills (suc fuel) (suc n) end (d, s) p h enough v =
    let g = Holds-Gives end (d, s) p (suc n) v (omega (arith, enough)) (omega arith) in
    let k = length g.given in
    let sizes = length-append g.given g.left in
    let total = ap length g.split in
    let (next, filled, held) =
      full_loop-Fills fuel (suc n - k) end g.next g.left (omega (arith, h, g.least))
        (omega (arith, enough, sizes, total)) g.holds in
    (
      next,
      >>=-ok _ g.reads
          ∙ ap (λ r. late r >>= λ (y, q). ok (g.given ++ y, q)) filled
          ∙ ap (λ t. ok (t, next))
              (sym (take-append_beyond (suc n) g.given g.left (omega (arith, g.most)))
                ∙ ap (take (suc n)) (sym g.split)),
      subst (Holds end next)
          (sym (drop-append_beyond (suc n) g.given g.left (omega (arith, g.most)))
            ∙ ap (drop (suc n)) (sym g.split))
          held,
    )

-- `ReadFull` on a connection is `ReadFull` on the bytes that it holds.
pub full-Holds :
    (end : Place) (n : ℕ) (p x p' : Bytes) (at : Place)
    → read_full n p ≡ ok (x, p')
    → Holds end at p
    → (next : Place) × (full n at ≡ ok (x, next)) × Holds end next p'
unfolding full
full-Holds end n p x p' at got v =
    let (same, size) = read_full_sound n p got in
    let (next, filled, held) =
      full_loop-Fills n n end at p (omega arith)
        (omega (arith, size, ap length same, length-append x p')) v in
    (
      next,
      filled ∙ ap (λ t. ok (t, next)) (ap (take n) same ∙ take-append n x p' size),
      subst (Holds end next) (ap (drop n) same ∙ drop-append n x p' size) held,
    )

nothing-Ahead :
    (end : Place) (d : Conn) (s q : Bytes)
    → Ahead end d s q
    → 0 ≡ length q
    → (record d { read_buf = [] }, s) ≡ end
nothing-Ahead end d s q (arrived _ _ there clear) none_left =
    ap (λ b. (record d { read_buf = b }, s)) (sym clear) ∙ sym there
nothing-Ahead end d s q (another _ _ plain d1 s1 r _ clear got full_plain rest same) none_left =
    absurd (omega (arith, none_left, ap length same, length-append plain r, full_plain))

nothing_held :
    (end : Place) (d : Conn) (b s q : Bytes)
    → Ahead end d s q
    → 0 ≡ length (b ++ q)
    → (record d { read_buf = b }, s) ≡ end
nothing_held end d [] s q ahead none_left = nothing-Ahead end d s q ahead none_left
nothing_held end d (x ∷ b) s q ahead none_left = absurd (omega (arith, none_left))

-- A connection that holds nothing is at the end.
pub at_end : (end at : Place) → Holds end at [] → at ≡ end
at_end end at v =
    ap (λ c. (c, at.1)) v.here
    ∙ nothing_held end v.conn v.buffer at.1 v.later v.ahead (ap length v.whole)
