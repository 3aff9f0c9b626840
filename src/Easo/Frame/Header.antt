-- ===== src/Easo/Frame/Header.antt =====
-- Big-endian words, and the twelve bytes that both kinds of frame begin with.
use burnout_paradise_server.Common.{
  ℕ, ◌^◌, ◌≤◌, ◌<◌, ◌≡◌, refl, ap, ◌∙◌, [], ◌∷◌, ◌++◌, append_assoc, arith, Bytes, AreBytes, IsByte,
  All-drop, length, take, drop, length-append, length-drop, take-append, drop-append, take-add,
  take-all,
}
use burnout_paradise_server.Easo.Frame.{put_u32, be_u32, header_size}

pub length-put_u32 : (n : ℕ) → length (put_u32 n) ≡ 4
unfolding put_u32
length-put_u32 n = refl

pub be_u32-put_u32 : (n : ℕ) (rest : Bytes) → n < 2 ^ 32 → be_u32 (put_u32 n ++ rest) ≡ n
unfolding be_u32 put_u32
be_u32-put_u32 n rest h = omega arith

-- Four bytes of a stream are the encoding of the number that they spell.
pub put_u32-be_u32 : (w : Bytes) → 4 ≤ length w → AreBytes w → put_u32 (be_u32 w) ≡ take 4 w
unfolding be_u32 put_u32
put_u32-be_u32 [] h k = absurd (omega arith)
put_u32-be_u32 (a ∷ []) h k = absurd (omega arith)
put_u32-be_u32 (a ∷ b ∷ []) h k = absurd (omega arith)
put_u32-be_u32 (a ∷ b ∷ c ∷ []) h k = absurd (omega arith)
put_u32-be_u32 (a ∷ b ∷ c ∷ d ∷ w) h k = ground arith

pub be_u32-lt : (w : Bytes) → AreBytes w → be_u32 w < 2 ^ 32
unfolding be_u32
be_u32-lt [] k = omega arith
be_u32-lt (a ∷ []) k = omega arith
be_u32-lt (a ∷ b ∷ []) k = omega arith
be_u32-lt (a ∷ b ∷ c ∷ []) k = omega arith
be_u32-lt (a ∷ b ∷ c ∷ d ∷ w) k = omega arith

abbrev pub header : Bytes → ℕ → ℕ → Bytes
header kind id total = kind ++ put_u32 id ++ put_u32 total

module _ (kind : Bytes) (id total : ℕ) (four : length kind ≡ 4) where
  pub length-header : length (header kind id total) ≡ header_size
  length-header = omega (
    arith,
    length-append (kind ++ put_u32 id) (put_u32 total),
    length-append kind (put_u32 id),
    length-put_u32 id,
    length-put_u32 total,
  )

  pub header_kind : (rest : Bytes) → take 4 (header kind id total ++ rest) ≡ kind
  header_kind rest =
      ap (take 4) (append_assoc (kind ++ put_u32 id) _ _ ∙ append_assoc kind _ _)
      ∙ take-append 4 kind _ four

  pub header_id : (rest : Bytes) → id < 2 ^ 32 → be_u32 (drop 4 (header kind id total ++ rest)) ≡ id
  header_id rest h =
      ap (λ s. be_u32 (drop 4 s)) (append_assoc (kind ++ put_u32 id) _ _ ∙ append_assoc kind _ _)
      ∙ ap be_u32 (drop-append 4 kind _ four)
      ∙ be_u32-put_u32 id _ h

  pub header_total :
      (rest : Bytes) → total < 2 ^ 32 → be_u32 (drop 8 (header kind id total ++ rest)) ≡ total
  header_total rest h =
      let e : length (kind ++ put_u32 id) ≡ 8 =
        omega (arith, length-append kind (put_u32 id), length-put_u32 id) in
      ap (λ s. be_u32 (drop 8 s)) (append_assoc (kind ++ put_u32 id) (put_u32 total) rest)
      ∙ ap be_u32 (drop-append 8 (kind ++ put_u32 id) (put_u32 total ++ rest) e)
      ∙ be_u32-put_u32 total rest h

-- Twelve bytes are the header that their three parts spell.
pub header_parts :
    (h : Bytes)
    → length h ≡ header_size
    → AreBytes h
    → header (take 4 h) (be_u32 (drop 4 h)) (be_u32 (drop 8 h)) ≡ h
header_parts h e b =
    rw
      (
        put_u32-be_u32 (drop 4 h) (omega (arith, length-drop 4 h)) (All-drop IsByte 4 h b),
        put_u32-be_u32 (drop 8 h) (omega (arith, length-drop 8 h)) (All-drop IsByte 8 h b),
        take-add 4 4 h,
        take-add 8 4 h,
        ← e,
      )
      (take-all h)
