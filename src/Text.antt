-- ===== src/Text.antt =====
-- What the server uses of Go's packages strings, unicode and utf8. A string is its bytes. Runes are
-- decoded as Go does, so that an invalid byte is one `rune_error`.
pub mod Trim
pub mod Fields
pub mod Solid
use burnout_paradise_server.Common.{
  ℕ, zero, suc, ◌+◌, ◌-◌, ◌*◌, List, [], ◌∷◌, ◌++◌, map, Bool, true, false, not, ◌&&◌, ◌||◌, Option,
  none, some, Bytes, codes, bytes_eq, ltb, leb, ◌==◌, if◌then◌else◌, get_or,
}

abbrev pub between : ℕ → ℕ → ℕ → Bool
between lo hi c = leb lo c && leb c hi

abbrev pub rune_error : ℕ
rune_error = 0xfffd

is_continuation : ℕ → Bool
is_continuation = between 0x80 0xbf

-- The second bytes that may follow a first byte of a rune of three or four bytes.
second_fits : ℕ → ℕ → Bool
second_fits a b =
    if a == 0xe0
    then between 0xa0 0xbf b
    else if a == 0xed
    then between 0x80 0x9f b
    else if a == 0xf0
    then between 0x90 0xbf b
    else if a == 0xf4
    then between 0x80 0x8f b
    else is_continuation b

-- `utf8.DecodeRune` at a first byte and what follows it: the rune and its width.
decode_rune : ℕ → Bytes → ℕ × ℕ
unfolding is_continuation second_fits
decode_rune a s =
    let b = get_or s 0 0 in
    let c = get_or s 1 0 in
    let d = get_or s 2 0 in
    if ltb a 0x80
    then (a, 1)
    else if between 0xc2 0xdf a && is_continuation b
    then ((a - 0xc0) * 64 + (b - 0x80), 2)
    else if between 0xe0 0xef a && second_fits a b && is_continuation c
    then ((a - 0xe0) * 4096 + (b - 0x80) * 64 + (c - 0x80), 3)
    else if between 0xf0 0xf4 a && second_fits a b && is_continuation c && is_continuation d
    then ((a - 0xf0) * 262144 + (b - 0x80) * 4096 + (c - 0x80) * 64 + (d - 0x80), 4)
    else (rune_error, 1)

-- The runes of a string, of which the first `skip` bytes belong to a rune that was decoded already.
runes_from : ℕ → Bytes → List ℕ
runes_from skip [] = []
runes_from (suc skip) (a ∷ s) = runes_from skip s
runes_from zero (a ∷ s) = let (r, width) = decode_rune a s in r ∷ runes_from (width - 1) s

-- `for _, r := range s`.
unfoldable pub runes : Bytes → List ℕ
unfolding runes_from decode_rune
runes s = runes_from 0 s

-- Letters that differ in case only are mapped to one rune. Among the runes that fold to an ASCII
-- rune the Kelvin sign and the long s are the only ones beyond ASCII.
unfoldable pub fold : ℕ → ℕ
fold r =
    if between b'A' b'Z' r
    then r + 32
    else if r == 0x212a
    then b'k'
    else if r == 0x17f
    then b's'
    else r

-- `strings.EqualFold`, where one of the texts is ASCII, as in every call of the server.
unfoldable pub equal_fold : Bytes → Bytes → Bool
unfolding fold
equal_fold s t = bytes_eq (map fold (runes s)) (map fold (runes t))

-- `unicode.ToUpper` as far as it leads into ASCII: the dotless i and the long s have ASCII capitals.
unfoldable pub to_upper : ℕ → ℕ
to_upper r =
    if between b'a' b'z' r
    then r - 32
    else if r == 0x131
    then b'I'
    else if r == 0x17f
    then b'S'
    else r

-- The bytes that `strings.FieldsFunc` is called with as separators.
unfoldable pub is_field_end : ℕ → Bool
is_field_end c = c == b'\n' || c == b'\t'

keep_field : Bytes → List Bytes → List Bytes
keep_field [] rest = rest
keep_field (c ∷ s) rest = (c ∷ s) ∷ rest

fields_from : Bytes → Bytes → List Bytes
fields_from cur [] = keep_field cur []
fields_from cur (c ∷ s) = elim (is_field_end c) [
  | true ↦ keep_field cur (fields_from [] s)
  | false ↦ fields_from (cur ++ c ∷ []) s
]

-- `strings.FieldsFunc` at newlines and tabs: the non-empty runs of other bytes.
unfoldable pub fields : Bytes → List Bytes
unfolding fields_from keep_field is_field_end
fields s = fields_from [] s

-- `strings.Cut` at a byte.
unfoldable pub cut : ℕ → Bytes → Option (Bytes × Bytes)
cut sep [] = none
cut sep (c ∷ s) =
    if c == sep
    then some ([], s)
    else elim (cut sep s) [ none ↦ none | some (before, behind) ↦ some (c ∷ before, behind) ]

split_from : ℕ → Bytes → Bytes → List Bytes
split_from sep cur [] = cur ∷ []
split_from sep cur (c ∷ s) = elim (c == sep) [
  | true ↦ cur ∷ split_from sep [] s
  | false ↦ split_from sep (cur ++ c ∷ []) s
]

-- `strings.Split` at a byte, and `strings.Join`.
unfoldable pub split : Bytes → ℕ → List Bytes
unfolding split_from
split s sep = split_from sep [] s

unfoldable pub join : List Bytes → ℕ → Bytes
join [] sep = []
join (p ∷ []) sep = p
join (p ∷ q ∷ ps) sep = p ++ sep ∷ join (q ∷ ps) sep
