-- ===== src/Text/Trim.antt =====
-- `strings.Trim`, `TrimRight` and `TrimSpace`.
use burnout_paradise_server.Common.{
  ℕ, zero, suc, ◌-◌, [], ◌∷◌, Bool, true, false, ◌&&◌, ◌||◌, Bytes, leb, ◌==◌, if◌then◌else◌,
  get_or,
}

-- The bytes at both ends that a cutset of one ASCII byte takes off.
unfoldable pub trim_left_byte : ℕ → Bytes → Bytes
trim_left_byte b [] = []
trim_left_byte b (c ∷ s) = if c == b then trim_left_byte b s else c ∷ s

unfoldable pub glue : Bool → ℕ → Bytes → Bytes
glue drop c [] = if drop then [] else c ∷ []
glue drop c (d ∷ s) = c ∷ d ∷ s

unfoldable pub trim_right_byte : ℕ → Bytes → Bytes
unfolding glue
trim_right_byte b [] = []
trim_right_byte b (c ∷ s) = glue (c == b) c (trim_right_byte b s)

unfoldable pub trim_byte : ℕ → Bytes → Bytes
unfolding trim_left_byte trim_right_byte
trim_byte b s = trim_right_byte b (trim_left_byte b s)

abbrev within : ℕ → ℕ → ℕ → Bool
within lo hi c = leb lo c && leb c hi

-- The number of bytes of the space (`unicode.IsSpace`) that begins with `a`, and 0 if none does.
unfoldable pub space_width : ℕ → Bytes → ℕ
space_width a s =
    let b = get_or s 0 0 in
    let c = get_or s 1 0 in
    if within 9 13 a || a == b' '
    then 1
    else if a == 0xc2 && (b == 0x85 || b == 0xa0)
    then 2
    else if a == 0xe1 && b == 0x9a && c == 0x80
    then 3
    else if a == 0xe2 && b == 0x80 && (within 0x80 0x8a c || c == 0xa8 || c == 0xa9 || c == 0xaf)
    then 3
    else if a == 0xe2 && b == 0x81 && c == 0x9f
    then 3
    else if a == 0xe3 && b == 0x80 && c == 0x80
    then 3
    else 0

-- The first `skip` bytes belong to a space that was recognised already.
unfoldable pub trim_left_from : ℕ → Bytes → Bytes
unfolding space_width
trim_left_from skip [] = []
trim_left_from (suc skip) (a ∷ s) = trim_left_from skip s
trim_left_from zero (a ∷ s) =
    let w = space_width a s in let rest = trim_left_from (w - 1) s in if w == 0 then a ∷ s else rest

unfoldable pub all_space_from : ℕ → Bytes → Bool
unfolding space_width
all_space_from skip [] = true
all_space_from (suc skip) (a ∷ s) = all_space_from skip s
all_space_from zero (a ∷ s) =
    let w = space_width a s in let rest = all_space_from (w - 1) s in if w == 0 then false else rest

-- The encodings of spaces begin with a byte that stands in none of them elsewhere, so the spaces at
-- the end are the longest rest that is made of spaces.
unfoldable pub trim_right_space : Bytes → Bytes
unfolding all_space_from
trim_right_space [] = []
trim_right_space (a ∷ s) =
    let rest = trim_right_space s in if all_space_from 0 (a ∷ s) then [] else a ∷ rest

unfoldable pub trim_space : Bytes → Bytes
unfolding trim_left_from trim_right_space
trim_space s = trim_right_space (trim_left_from 0 s)
