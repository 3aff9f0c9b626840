-- ===== src/Payload.antt =====
-- bpserver/helpers.go: the fields of a payload, and the values that go into records.
pub mod Address
pub mod Names
pub mod Lines
pub mod Secrets
use burnout_paradise_server.Common.{
  ℕ, zero, suc, ◌+◌, List, [], ◌∷◌, ◌++◌, map, Bool, true, false, not, ◌&&◌, ◌||◌, Option, none,
  some, Bytes, codes, bytes_eq, ltb, leb, ◌==◌, if◌then◌else◌, length, take,
}
use burnout_paradise_server.Text.{runes, fields, cut, equal_fold, to_upper, between}
use burnout_paradise_server.Text.Trim.{trim_right_byte, trim_byte, trim_space}
use burnout_paradise_server.Number.{ℤ, parse_int}

abbrev pub equals : ℕ
equals = b'='

-- `strings.Trim(strings.TrimSpace(value), "\"")`.
unfoldable pub clean : Bytes → Bytes
clean value = trim_byte b'"' (trim_space value)

-- The value of the first part whose key is the wanted one.
find_field : Bytes → List Bytes → Option Bytes
find_field wanted [] = none
find_field wanted (part ∷ parts) =
    let rest = find_field wanted parts in
    elim (cut equals (trim_space part)) [
      | none ↦ rest
      | some (key, value) ↦ if equal_fold key wanted then some (clean value) else rest
    ]

-- `none` is Go's ("", false).
unfoldable pub get_payload_field_value : Bytes → Bytes → Option Bytes
unfolding find_field clean
get_payload_field_value payload wanted = find_field wanted (fields (trim_right_byte 0 payload))

abbrev pub or_empty : Option Bytes → Bytes
or_empty none = []
or_empty (some value) = value

unfoldable pub get_payload_field : Bytes → Bytes → Bytes
unfolding get_payload_field_value
get_payload_field payload wanted = or_empty (get_payload_field_value payload wanted)

-- What `strings.Map` does with a rune: `none` drops it.
clean_rune : ℕ → Option ℕ
clean_rune r =
    if r == 0 || r == b'\r' || r == b'\n' || r == b'\t'
    then none
    else if ltb r 0x20 || ltb 0x7e r
    then some b'?'
    else some r

clean_runes : List ℕ → Bytes
clean_runes [] = []
clean_runes (r ∷ rs) =
    let rest = clean_runes rs in elim (clean_rune r) [ none ↦ rest | some c ↦ c ∷ rest ]

or_fallback : Bytes → Bytes → Bytes
or_fallback [] fallback = fallback
or_fallback (c ∷ s) fallback = c ∷ s

unfoldable pub clean_field_value : Bytes → ℕ → Bytes → Bytes
unfolding clean_runes clean_rune or_fallback
clean_field_value value max fallback = take max (or_fallback (clean_runes (runes value)) fallback)

-- An empty value does not parse either, so one test serves for both.
unfoldable pub decimal_field : Bytes → Bytes → Bytes
decimal_field [] fallback = fallback
decimal_field (c ∷ value) fallback = elim (parse_int 32 (c ∷ value)) [
  | none ↦ fallback
  | some z ↦ c ∷ value
]

all_printable : List ℕ → Bool
all_printable [] = true
all_printable (r ∷ rs) = if ltb r 0x20 || ltb 0x7e r then false else all_printable rs

unfoldable pub is_printable : Bytes → Bool
unfolding all_printable
is_printable value = all_printable (runes value) && not (bytes_eq value [])

-- The keys whose values are not logged.
unfoldable pub is_secret : Bytes → Bool
is_secret key =
    let k = map to_upper (runes key) in
    bytes_eq k (codes "PASS")
    || bytes_eq k (codes "PASSWORD")
    || bytes_eq k (codes "LKEY")
    || bytes_eq k (codes "TOKEN")
    || bytes_eq k (codes "AUTH")
    || bytes_eq k (codes "NUCLEUSMSG")

safe_fields : List Bytes → List Bytes
safe_fields [] = []
safe_fields (part ∷ parts) =
    let rest = safe_fields parts in
    elim (cut equals part) [
      | none ↦ if is_printable part then part ∷ rest else rest
      | some (key, value) ↦
          (key ++ equals ∷ (if is_secret key then codes "<redacted>" else value)) ∷ rest
    ]

unfoldable pub get_safe_fields : Bytes → List Bytes
unfolding safe_fields is_secret
get_safe_fields payload = safe_fields (fields (trim_right_byte 0 payload))

is_name_rune : ℕ → Bool
is_name_rune r =
    between b'a' b'z' r
    || between b'A' b'Z' r
    || between b'0' b'9' r
    || r == b'_'
    || r == b'-'
    || r == b'.'

-- The loop over the runes, with the room that is left in the name.
name_runes : ℕ → List ℕ → Bytes
name_runes room [] = []
name_runes zero (r ∷ rs) = []
name_runes (suc room) (r ∷ rs) = elim (is_name_rune r) [
  | true ↦ r ∷ name_runes room rs
  | false ↦ name_runes (suc room) rs
]

unfoldable pub get_local_account_name : Bytes → Bytes
unfolding name_runes is_name_rune or_fallback
get_local_account_name value = or_fallback (name_runes 19 (runes value)) (codes "LocalPlayer")

all_yes_no : List ℕ → Bool
all_yes_no [] = true
all_yes_no (r ∷ rs) = if not (r == b'Y') && not (r == b'N') then false else all_yes_no rs

-- A text of `Y` and `N` has as many bytes as runes, and any other ends as "NNN" whatever its length.
unfoldable pub normalize_spam_preference : Bytes → Bytes
unfolding all_yes_no
normalize_spam_preference value =
    let v = map to_upper (runes (trim_space value)) in
    if not (length v == 3) then codes "NNN" else if all_yes_no v then v else codes "NNN"
