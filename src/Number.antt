-- ===== src/Number.antt =====
-- What the server uses of Go's package strconv, and the flag words that it computes with.
pub mod RoundTrip
pub mod Range
pub mod Masks
use Prim.Native.Nat.{bit_and, bit_or}
use burnout_paradise_server.Common.{
  ℕ, zero, suc, ◌+◌, ◌-◌, ◌*◌, ◌/◌, ◌%◌, ◌^◌, [], ◌∷◌, Bool, true, false, not, ◌&&◌, ◌||◌, Option,
  none, some, Bytes, ltb, leb, ◌==◌, if◌then◌else◌,
}

-- `negsuc n` is -(n + 1).
pub data ℤ : Type 0 where
  pos : ℕ → ℤ
  negsuc : ℕ → ℤ

unfoldable pub scan : Bytes → ℕ → Option ℕ
scan [] n = some n
scan (c ∷ s) n =
    let rest = scan s (n * 10 + (c - b'0')) in if ltb c b'0' || ltb b'9' c then none else rest

-- The digits of a number, one at least.
unfoldable pub parse_digits : Bytes → Option ℕ
unfolding scan
parse_digits [] = none
parse_digits (c ∷ s) = scan (c ∷ s) 0

-- A number with its sign, in the range of a signed integer of `2 * half` values.
unfoldable pub in_range : ℕ → Bool → Option ℕ → Option ℤ
in_range half negative none = none
in_range half false (some n) = if ltb n half then some (pos n) else none
in_range half true (some zero) = some (pos 0)
in_range half true (some (suc n)) = if ltb n half then some (negsuc n) else none

-- `strconv.ParseInt(s, 10, bits)`, without its error's text. `Atoi` is the case of 64 bits.
unfoldable pub parse_int : ℕ → Bytes → Option ℤ
unfolding parse_digits in_range
parse_int bits [] = none
parse_int bits (c ∷ s) =
    if c == b'-'
    then in_range (2 ^ (bits - 1)) true (parse_digits s)
    else if c == b'+'
    then in_range (2 ^ (bits - 1)) false (parse_digits s)
    else in_range (2 ^ (bits - 1)) false (parse_digits (c ∷ s))

unfoldable pub atoi : Bytes → Option ℤ
unfolding parse_int
atoi s = parse_int 64 s

unfoldable pub digits : ℕ → ℕ → Bytes → Bytes
digits zero n out = out
digits (suc fuel) n out =
    let rest = digits fuel (n / 10) ((b'0' + n % 10) ∷ out) in
    if ltb n 10 then (b'0' + n) ∷ out else rest

-- `%d`. A number is smaller than its successor, so that many digits are enough.
unfoldable pub format_nat : ℕ → Bytes
unfolding digits
format_nat n = digits (suc n) n []

unfoldable pub format_int : ℤ → Bytes
unfolding format_nat
format_int (pos n) = format_nat n
format_int (negsuc n) = b'-' ∷ format_nat (suc n)

-- `z | mask`, `z &^ mask` and `z & mask != 0` in two's complement, where -(n + 1) has the bits that
-- n lacks.
unfoldable pub or_mask : ℤ → ℕ → ℤ
or_mask (pos n) mask = pos (bit_or n mask)
or_mask (negsuc n) mask = negsuc (n - bit_and n mask)

unfoldable pub and_not_mask : ℤ → ℕ → ℤ
and_not_mask (pos n) mask = pos (n - bit_and n mask)
and_not_mask (negsuc n) mask = negsuc (bit_or n mask)

unfoldable pub has_mask : ℤ → ℕ → Bool
has_mask (pos n) mask = not (bit_and n mask == 0)
has_mask (negsuc n) mask = not (bit_and n mask == mask)
