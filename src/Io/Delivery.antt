-- ===== src/Io/Delivery.antt =====
-- What the write loop delivers.
use burnout_paradise_server.Common.{
  ℕ, zero, suc, ◌+◌, ◌≤◌, ◌<◌, ◌≡◌, ◌≢◌, refl, sym, ap, ◌∙◌, ◌⊎◌, inl, inr, List, [], ◌∷◌, ◌++◌,
  append_assoc, append-nil, Option, none, some, arith, Bytes, length, take, drop, take-all,
  take-add, drop-long, length-drop, All, true, false, Bool-cases, ◌==◌, ==_false,
}
use burnout_paradise_server.Io.{
  Error, short_write, write_failed, Reply, accepts, fails, Sink, Written, sink_write, sink_reply,
  write_loop, write_round, write_all,
}

-- The writer holds `count` more bytes of the packet: all of them if there was no error, and fewer
-- otherwise.
pub record Delivers (w : Sink) (packet : Bytes) (r : Sink × Option Error) : Type 0 where
  pub count : ℕ
  pub sent : r.0.sent ≡ w.sent ++ take count packet
  pub ending : ((r.1 ≡ none) × (count ≡ length packet)) ⊎ ((r.1 ≢ none) × (count < length packet))

-- One call of `Write` takes a part of the packet.
abbrev Takes : Sink → Bytes → Written → Type 0
Takes w packet r = (r.count ≤ length packet) × (r.sink.sent ≡ w.sent ++ take r.count packet)

sink_reply-Takes :
    (w : Sink) (packet : Bytes) (rs : List Reply) → Takes w packet (sink_reply w packet rs)
unfolding sink_reply
sink_reply-Takes w packet [] = (omega arith, rw take-all)
sink_reply-Takes w packet (accepts n ∷ rest) = (omega arith, refl)
sink_reply-Takes w packet (fails ∷ rest) = (omega arith, rw append-nil)

sink_write-Takes : (w : Sink) (packet : Bytes) → Takes w packet (sink_write w packet)
unfolding sink_write
sink_write-Takes w packet = sink_reply-Takes w packet w.replies

failed_count :
    (w : Sink) (packet : Bytes)
    → (sink_write w packet).failed ≡ true
    → (sink_write w packet).count ≡ 0
unfolding sink_write
failed_count w packet h = go w.replies h
  where
    go :
        (rs : List Reply)
        → (sink_reply w packet rs).failed ≡ true
        → (sink_reply w packet rs).count ≡ 0
    go [] h = cc
    go (accepts n ∷ rest) h = cc
    go (fails ∷ rest) h = refl

abbrev Loops : Sink → Bytes → Option (Sink × Option Error) → Type 0
Loops w packet o = (r : Sink × Option Error) × (o ≡ some r) × Delivers w packet r

-- What the rest of the loop delivers comes behind what the call took.
Delivers-after :
    (w : Sink) (packet : Bytes) (r : Written) (q : Sink × Option Error)
    → Takes w packet r
    → Delivers r.sink (drop r.count packet) q
    → Delivers w packet q
Delivers-after w packet r q t d = record {
  count = r.count + d.count;
  sent =
      d.sent
      ∙ rw t.1 (append_assoc w.sent _ _ ∙ ap (◌++◌ w.sent) (take-add r.count d.count packet));
  ending = elim d.ending [
    | inl (e, c) ↦ inl (e, omega (arith, length-drop r.count packet))
    | inr (e, c) ↦ inr (e, omega (arith, length-drop r.count packet))
  ];
}

stops :
    (w : Sink) (packet : Bytes) (r : Written) (e : Error)
    → 0 < length packet
    → Takes w packet r
    → r.count ≡ 0
    → Loops w packet (some (r.sink, some e))
stops w packet r e h t z =
    ((r.sink, some e), refl, record { count = 0; sent = t.1 ∙ rw z; ending = inr ((λ p. cc), h) })

write_round-Loops :
    (w : Sink) (packet : Bytes) (r : Written) (rest : Option (Sink × Option Error))
    → 0 < length packet
    → Takes w packet r
    → (r.failed ≡ true → r.count ≡ 0)
    → (r.count ≢ 0 → Loops r.sink (drop r.count packet) rest)
    → Loops w packet (write_round r rest)
unfolding write_round
write_round-Loops w packet r rest h t z more = elim (Bool-cases r.failed) [
  | inl f ↦ rw f (stops w packet r write_failed h t (z f))
  | inr g ↦ elim (Bool-cases (r.count == 0)) [
    | inl e ↦ rw (g, e) (stops w packet r short_write h t (ground arith))
    | inr n ↦
        let (q, o, d) = more (ground arith) in rw (g, n) (q, o, Delivers-after w packet r q t d)
  ]
]

write_loop-Loops :
    (fuel : ℕ) (w : Sink) (packet : Bytes)
    → length packet ≤ fuel
    → Loops w packet (write_loop fuel w packet)
unfolding write_loop
write_loop-Loops fuel w [] h =
    ((w, none), refl, record { count = 0; sent = rw append-nil; ending = inl (refl, refl) })
write_loop-Loops zero w (x ∷ packet) h = absurd (omega arith)
write_loop-Loops (suc fuel) w (x ∷ packet) h =
    write_round-Loops w (x ∷ packet) (sink_write w (x ∷ packet)) _ (omega arith)
      (sink_write-Takes w (x ∷ packet)) (failed_count w (x ∷ packet))
      λ n.
        write_loop-Loops fuel _ _
          (omega (arith, length-drop (sink_write w (x ∷ packet)).count (x ∷ packet)))

-- The write loop ends for every writer, with the fuel that `write_all` gives it. Without an error
-- the writer has taken the whole packet, in order; with an error, a strict prefix of it.
pub write_all-Delivers :
    (w : Sink) (packet : Bytes)
    → (r : Sink × Option Error) × (write_all w packet ≡ some r) × Delivers w packet r
unfolding write_all
write_all-Delivers w packet = write_loop-Loops (length packet) w packet (omega arith)

-- A writer that fails at no call and takes a byte at each.
abbrev pub IsWilling : Reply → Type 0
IsWilling (accepts n) = 0 < n
IsWilling fails = ⊥

IsWilling-reply :
    (w : Sink) (x : ℕ) (packet : Bytes) (rs : List Reply)
    → All IsWilling rs
    → let r = sink_reply w (x ∷ packet) rs in
      (r.failed ≡ false) × (0 < r.count) × All IsWilling r.sink.replies
unfolding sink_reply
IsWilling-reply w x packet [] h = (refl, omega arith, tt)
IsWilling-reply w x packet (accepts n ∷ rs) h = (refl, omega arith, h.1)
IsWilling-reply w x packet (fails ∷ rs) h = absurd h.0

write_loop_willing :
    (fuel : ℕ) (w : Sink) (packet : Bytes)
    → length packet ≤ fuel
    → All IsWilling w.replies
    → (s : Sink) × (write_loop fuel w packet ≡ some (s, none))
unfolding write_loop write_round sink_write
write_loop_willing fuel w [] h k = (w, refl)
write_loop_willing zero w (x ∷ packet) h k = absurd (omega arith)
write_loop_willing (suc fuel) w (x ∷ packet) h k =
    let (g, c, k') = IsWilling-reply w x packet w.replies k in
    let r = sink_reply w (x ∷ packet) w.replies in
    let (s, e) =
      write_loop_willing fuel r.sink (drop r.count (x ∷ packet))
        (omega (arith, length-drop r.count (x ∷ packet))) k' in
    (s, ground (arith, g, c, e))

-- Without an error the whole packet is with the writer.
pub Delivers-sent :
    {w : Sink} {packet : Bytes} {r : Sink × Option Error}
    → Delivers w packet r
    → r.1 ≡ none
    → r.0.sent ≡ w.sent ++ packet
Delivers-sent {packet = packet} d e = elim d.ending [
  | inl (_, c) ↦ d.sent ∙ rw (c, take-all)
  | inr (n, _) ↦ absurd (n e)
]

pub write_all_willing :
    (w : Sink) (packet : Bytes)
    → All IsWilling w.replies
    → (s : Sink) × (write_all w packet ≡ some (s, none)) × (s.sent ≡ w.sent ++ packet)
unfolding write_all
write_all_willing w packet h =
    let (s, e) = write_loop_willing (length packet) w packet (omega arith) h in
    let (r, o, d) = write_all-Delivers w packet in
    let same : r ≡ (s, none) = cc in
    (s, e, ap (λ q. q.0.sent) (sym same) ∙ Delivers-sent d (ap (λ q. q.1) same))

-- A writer that takes every packet whole, as Go's documentation asks of one that returns no error.
abbrev pub taking : Bytes → Sink
taking sent = record { sent = sent; replies = [] }

pub write_all-taking :
    (sent packet : Bytes) → write_all (taking sent) packet ≡ some (taking (sent ++ packet), none)
unfolding write_all write_loop write_round sink_write sink_reply
write_all-taking sent [] = rw append-nil refl
write_all-taking sent (x ∷ packet) =
    rw (drop-long (length packet) packet (omega arith), ==_false (suc (length packet)) 0 (λ e. cc))
      refl
