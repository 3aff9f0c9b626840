-- ===== src/Text/Solid.antt =====
-- Texts that trimming leaves alone.
use burnout_paradise_server.Common.{
  ℕ, ◌≤◌, ◌≡◌, ◌≢◌, refl, ap, ◌∙◌, [], ◌∷◌, ◌++◌, false, arith, Bytes, ◌==◌, ==_refl, ==_false, All,
  some,
}
use burnout_paradise_server.Text.{cut}
use burnout_paradise_server.Text.Trim.{
  trim_left_byte, trim_right_byte, trim_byte, glue, trim_left_from, trim_right_space, trim_space,
  all_space_from, space_width,
}

-- A byte of printable ASCII that is no space.
abbrev pub IsSolid : ℕ → Type 0
IsSolid c = (33 ≤ c) × (c ≤ 126)

solid_width : (c : ℕ) (s : Bytes) → IsSolid c → space_width c s ≡ 0
unfolding space_width
solid_width c s h = ground arith

trim_left_solid : (c : ℕ) (s : Bytes) → IsSolid c → trim_left_from 0 (c ∷ s) ≡ c ∷ s
unfolding trim_left_from
trim_left_solid c s h = rw (solid_width c s h)

-- A solid byte and all before it survive the trimming at the end.
trim_right_solid :
    (c : ℕ) (s : Bytes) → IsSolid c → trim_right_space (c ∷ s) ≡ c ∷ trim_right_space s
unfolding trim_right_space all_space_from
trim_right_solid c s h = rw (solid_width c s h)

pub trim_right_solid_prefix :
    (xs s : Bytes) → All IsSolid xs → trim_right_space (xs ++ s) ≡ xs ++ trim_right_space s
trim_right_solid_prefix [] s h = refl
trim_right_solid_prefix (x ∷ xs) s h =
    trim_right_solid x (xs ++ s) h.0 ∙ ap (λ t. x ∷ t) (trim_right_solid_prefix xs s h.1)

pub trim_space_solid_prefix :
    (x : ℕ) (xs s : Bytes)
    → All IsSolid (x ∷ xs)
    → trim_space ((x ∷ xs) ++ s) ≡ (x ∷ xs) ++ trim_right_space s
unfolding trim_space
trim_space_solid_prefix x xs s h =
    ap trim_right_space (trim_left_solid x (xs ++ s) h.0) ∙ trim_right_solid_prefix (x ∷ xs) s h

glue_keep : (c : ℕ) (s : Bytes) → glue false c s ≡ c ∷ s
unfolding glue
glue_keep c [] = refl
glue_keep c (x ∷ s) = refl

glue_before : (d : _) (x c : ℕ) (xs s : Bytes) → glue d x (xs ++ c ∷ s) ≡ x ∷ (xs ++ c ∷ s)
unfolding glue
glue_before d x c [] s = refl
glue_before d x c (y ∷ xs) s = refl

-- So does any byte that is not in the cutset.
pub trim_right_byte_prefix :
    (b c : ℕ) (xs s : Bytes)
    → c ≢ b
    → trim_right_byte b (xs ++ c ∷ s) ≡ xs ++ c ∷ trim_right_byte b s
unfolding trim_right_byte
trim_right_byte_prefix b c [] s n = rw (==_false c b n) (glue_keep c (trim_right_byte b s))
trim_right_byte_prefix b c (x ∷ xs) s n =
    rw (trim_right_byte_prefix b c xs s n) (glue_before (x == b) x c xs (trim_right_byte b s))

trim_right_byte_absent : (b : ℕ) (s : Bytes) → All (λ c. c ≢ b) s → trim_right_byte b s ≡ s
unfolding trim_right_byte
trim_right_byte_absent b [] h = refl
trim_right_byte_absent b (c ∷ s) h =
    rw (==_false c b h.0)
      (glue_keep c (trim_right_byte b s) ∙ ap (λ t. c ∷ t) (trim_right_byte_absent b s h.1))

pub trim_byte_absent : (b : ℕ) (s : Bytes) → All (λ c. c ≢ b) s → trim_byte b s ≡ s
unfolding trim_byte trim_left_byte
trim_byte_absent b [] h = refl
trim_byte_absent b (c ∷ s) h = rw (==_false c b h.0) (trim_right_byte_absent b (c ∷ s) h)

pub cut_prefix : (b : ℕ) (xs s : Bytes) → All (λ c. c ≢ b) xs → cut b (xs ++ b ∷ s) ≡ some (xs, s)
unfolding cut
cut_prefix b [] s h = rw (==_refl b)
cut_prefix b (x ∷ xs) s h = rw (==_false x b h.0, cut_prefix b xs s h.1)
