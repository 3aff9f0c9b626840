-- ===== src/Tls/Messages/Split.antt =====
-- legacytls/conn.go: a record is split into exactly the messages that it is made of.
use burnout_paradise_server.Common.{
  ℕ, zero, suc, ◌+◌, ◌^◌, ◌≤◌, ◌<◌, ◌≡◌, ◌↔◌, refl, sym, ap, ◌∙◌, subst, List, [], ◌∷◌, ◌++◌, All,
  Bytes, ltb, length, take, drop, arith, length-take, length-append, take-append-drop, take-append,
  drop-append, if_cases,
}
use burnout_paradise_server.Io.{Result, ok, ◌>>=◌}
use burnout_paradise_server.Io.ReadFull.{ok_eq, >>=-eq-ok}
use burnout_paradise_server.Tls.Messages.{
  put_uint24, handshake_message, body_length, split_loop, split_handshake,
}

-- A header of four bytes with the length of the rest.
abbrev pub IsMessage : Bytes → Type 0
IsMessage m = (4 ≤ length m) × (length m ≡ body_length m + 4)

abbrev pub flatten : List Bytes → Bytes
flatten [] = []
flatten (m ∷ ms) = m ++ flatten ms

-- The length field does not depend on what follows the header.
body_length-append : (m rest : Bytes) → 4 ≤ length m → body_length (m ++ rest) ≡ body_length m
body_length-append [] rest h = absurd (omega arith)
body_length-append (a ∷ []) rest h = absurd (omega arith)
body_length-append (a ∷ b ∷ []) rest h = absurd (omega arith)
body_length-append (a ∷ b ∷ c ∷ []) rest h = absurd (omega arith)
body_length-append (a ∷ b ∷ c ∷ d ∷ m) rest h = refl

body_length-take :
    (n : ℕ) (b : Bytes) → 4 ≤ n → 4 ≤ length b → body_length (take n b) ≡ body_length b
body_length-take n b h k =
    sym (body_length-append (take n b) (drop n b) (omega (arith, length-take n b)))
    ∙ ap body_length (take-append-drop n b)

take-IsMessage :
    (b : Bytes)
    → 4 ≤ length b
    → body_length b + 4 ≤ length b
    → IsMessage (take (body_length b + 4) b)
take-IsMessage b long enough =
    let size = length-take (body_length b + 4) b in
    (
      omega (arith, size),
      omega (arith, size, body_length-take (body_length b + 4) b (omega arith) long),
    )

-- The rounds of the loop on a list that is not empty.
split_loop_sound :
    (fuel : ℕ) (b : Bytes) (ms : List Bytes)
    → split_loop fuel b ≡ ok ms
    → All IsMessage ms × (flatten ms ≡ b)
unfolding split_loop
split_loop_sound fuel [] ms =
    λ e. subst (λ l. All IsMessage l × (flatten l ≡ [])) (ok_eq e) (tt, refl)
split_loop_sound zero (x ∷ b) ms = λ e. cc
split_loop_sound (suc fuel) (x ∷ b) ms =
    let n = body_length (x ∷ b) + 4 in
    if_cases (λ (r : Result (List Bytes)). r ≡ ok ms → All IsMessage ms × (flatten ms ≡ x ∷ b))
      (ltb (length (x ∷ b)) 4) _ _ (λ h e. cc)
      λ long.
        if_cases (λ (r : Result (List Bytes)). r ≡ ok ms → All IsMessage ms × (flatten ms ≡ x ∷ b))
          (ltb (length (x ∷ b)) n) _ _ (λ h e. cc)
          λ enough e.
            let (rest, split, whole) =
              >>=-eq-ok (split_loop fuel (drop (body_length (x ∷ b) + 4) (x ∷ b))) _ e in
            let (good, joined) =
              split_loop_sound fuel (drop (body_length (x ∷ b) + 4) (x ∷ b)) rest split in
            subst (λ l. All IsMessage l × (flatten l ≡ x ∷ b)) (ok_eq whole)
              (
                (take-IsMessage (x ∷ b) (ground (arith, long)) (ground (arith, enough)), good),
                ap (λ l. take n (x ∷ b) ++ l) joined ∙ take-append-drop n (x ∷ b),
              )

split_loop_complete :
    (fuel : ℕ) (ms : List Bytes)
    → All IsMessage ms
    → length (flatten ms) ≤ fuel
    → split_loop fuel (flatten ms) ≡ ok ms
unfolding split_loop
split_loop_complete fuel [] good h = refl
split_loop_complete fuel ([] ∷ ms) good h = absurd (omega (arith, good.0.0))
split_loop_complete zero ((x ∷ m) ∷ ms) good h = absurd (omega (arith, h))
split_loop_complete (suc fuel) ((x ∷ m) ∷ ms) good h =
    let size = length-append (x ∷ m) (flatten ms) in
    let same = body_length-append (x ∷ m) (flatten ms) good.0.0 in
    let cut : drop (body_length (x ∷ m ++ flatten ms) + 4) (x ∷ m ++ flatten ms) ≡ flatten ms =
      drop-append (body_length (x ∷ m ++ flatten ms) + 4) (x ∷ m) (flatten ms)
        (omega (arith, same, good.0.1)) in
    let head : take (body_length (x ∷ m ++ flatten ms) + 4) (x ∷ m ++ flatten ms) ≡ x ∷ m =
      take-append (body_length (x ∷ m ++ flatten ms) + 4) (x ∷ m) (flatten ms)
        (omega (arith, same, good.0.1)) in
    let rest : split_loop fuel (drop (body_length (x ∷ m ++ flatten ms) + 4) (x ∷ m ++ flatten ms))
        ≡ ok ms =
      ap (split_loop fuel) cut ∙ split_loop_complete fuel ms good.1 (omega (arith, size, h)) in
    if_cases (λ (r : Result (List Bytes)). r ≡ ok ((x ∷ m) ∷ ms))
      (ltb (length (x ∷ m ++ flatten ms)) 4) _ _
      (λ short. absurd (ground (arith, short, size, good.0.0)))
      λ long.
        if_cases (λ (r : Result (List Bytes)). r ≡ ok ((x ∷ m) ∷ ms))
          (ltb (length (x ∷ m ++ flatten ms)) (body_length (x ∷ m ++ flatten ms) + 4)) _ _
          (λ short. absurd (ground (arith, short, size, same, good.0.1)))
          λ enough.
            ap
              (λ r. r >>= λ l.
                ok (take (body_length (x ∷ m ++ flatten ms) + 4) (x ∷ m ++ flatten ms) ∷ l))
              rest
            ∙ ap (λ t. ok (t ∷ ms)) head

-- The split succeeds with some messages exactly if each of them is a header of four bytes with the length of
-- the rest behind it, and the record is their concatenation.
pub split_handshake_lem :
    (b : Bytes) (ms : List Bytes)
    → (split_handshake b ≡ ok ms) ↔ (All IsMessage ms × (flatten ms ≡ b))
unfolding split_handshake
split_handshake_lem b ms = (
  split_loop_sound (length b) b ms,
  λ good.
      subst (λ t. split_loop (length t) t ≡ ok ms) good.1
        (split_loop_complete (length (flatten ms)) ms good.0 (omega arith)),
)

-- So does every message that the code makes, up to the length that three bytes hold.
pub handshake_message-IsMessage :
    (kind : ℕ) (body : Bytes) → length body < 2 ^ 24 → IsMessage (handshake_message kind body)
unfolding handshake_message put_uint24
handshake_message-IsMessage kind body h = (omega arith, omega (arith, h))

pub length-handshake_message :
    (kind : ℕ) (body : Bytes) → length (handshake_message kind body) ≡ length body + 4
unfolding handshake_message put_uint24
length-handshake_message kind body = omega arith
