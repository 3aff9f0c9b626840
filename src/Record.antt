-- ===== src/Record.antt =====
-- bpserver/record.go: the records of the road-rule requests.
pub mod Game
pub mod Ranks
use burnout_paradise_server.Common.{
  ℕ, zero, suc, ◌+◌, ◌-◌, ◌*◌, ◌^◌, List, [], ◌∷◌, ◌++◌, map, Bool, true, false, not, ◌&&◌, ◌||◌,
  Option, none, some, Bytes, codes, bytes_eq, ltb, leb, ◌==◌, if◌then◌else◌, length, replicate,
}
use burnout_paradise_server.Text.{split, join}
use burnout_paradise_server.Text.Trim.{trim_space}
use burnout_paradise_server.Number.{ℤ, pos, negsuc, atoi, parse_int, format_nat}
use burnout_paradise_server.Payload.{get_payload_field}

abbrev comma : ℕ
comma = b','

-- A list of `n` zeros with the NUL behind it.
pub zeros : ℕ → Bytes
zeros n = join (replicate n (codes "0")) comma ++ 0 ∷ []

-- The ranks that the request asks for, 10 unless it gives a positive number.
requested_ranks : Option ℤ → ℕ
requested_ranks none = 10
requested_ranks (some (negsuc n)) = 10
requested_ranks (some (pos n)) = if ltb n 1 then 10 else n

-- `entries *= 2` on an int64 that is not negative.
double_int64 : ℕ → ℤ
double_int64 n = if ltb (2 * n) (2 ^ 63) then pos (2 * n) else negsuc (2 ^ 64 - 2 * n - 1)

-- The workspace of the client holds 40 entries.
cap_entries : ℤ → ℤ
cap_entries (pos n) = if ltb 40 n then pos 40 else pos n
cap_entries (negsuc n) = negsuc n

is_set_zero : Bytes → Bool
is_set_zero request = bytes_eq (get_payload_field request (codes "SET")) (codes "0")

-- `make([]string, 2+entries)`, filled with zeros: `none` is the panic at a negative length.
rank_tokens : ℤ → Option Bytes
rank_tokens (pos n) = some (zeros (2 + n))
rank_tokens (negsuc zero) = some (zeros 1)
rank_tokens (negsuc (suc zero)) = some (zeros 0)
rank_tokens (negsuc (suc (suc n))) = none

pub get_local_rank_list_record : Bytes → Option Bytes
unfolding rank_tokens cap_entries double_int64 is_set_zero requested_ranks
get_local_rank_list_record request =
    let num = requested_ranks (atoi (get_payload_field request (codes "NUM"))) in
    rank_tokens (cap_entries (if is_set_zero request then double_int64 num else pos num))

is_number : Option ℤ → Bool
is_number none = false
is_number (some z) = true

count_numbers : List Bytes → ℕ
count_numbers [] = 0
count_numbers (value ∷ values) =
    (if is_number (atoi (trim_space value)) then 1 else 0) + count_numbers values

-- A payload is far too short for the number of its ranks to overflow.
result_entries : Bytes → ℕ
unfolding count_numbers is_number is_set_zero
result_entries request =
    let count = count_numbers (split (get_payload_field request (codes "R")) comma) in
    let ranks = if count == 0 then 10 else count in
    let entries = if is_set_zero request then ranks * 2 else ranks in
    if ltb 40 entries then 40 else entries

pub get_local_rank_results_record : Bytes → Bytes
unfolding result_entries zeros
get_local_rank_results_record request = zeros (2 * result_entries request)

-- The first entries of the three lists, as many as the shortest list has.
zip3 : List Bytes → List Bytes → List Bytes → List (Bytes × Bytes × Bytes)
zip3 (r ∷ rs) (v ∷ vs) (c ∷ cs) = (r, v, c) ∷ zip3 rs vs cs
zip3 (r ∷ rs) (v ∷ vs) [] = []
zip3 (r ∷ rs) [] cs = []
zip3 [] vs cs = []

-- A rank that the client has a slot for.
slot : Option ℤ → Option ℕ
slot none = none
slot (some (negsuc n)) = none
slot (some (pos n)) = if leb 128 n then none else some n

pub seen_before : ℕ → List ℕ → Bool
seen_before rank [] = false
seen_before rank (r ∷ rs) = r == rank || seen_before rank rs

-- The rank of an entry, if no check of the loop passes the entry over.
accepted : List ℕ → Bytes × Bytes × Bytes → Option ℕ
unfolding slot is_number seen_before
accepted seen (rank, value, car) = elim (slot (atoi (trim_space rank))) [
  | none ↦ none
  | some r ↦
      if not (is_number (parse_int 64 (trim_space value)))
      then none
      else if bytes_eq (trim_space car) []
      then none
      else if seen_before r seen
      then none
      else some r
]

-- `seen` holds the ranks that `valid` holds so far.
pub valid_ranks : List ℕ → List (Bytes × Bytes × Bytes) → List ℕ
valid_ranks seen [] = []
valid_ranks seen (e ∷ es) = elim (accepted seen e) [
  | none ↦ valid_ranks seen es
  | some r ↦ r ∷ valid_ranks (r ∷ seen) es
]

pub upload_entries : Bytes → List (Bytes × Bytes × Bytes)
unfolding zip3
upload_entries request =
    zip3 (split (get_payload_field request (codes "R")) comma)
      (split (get_payload_field request (codes "V")) comma)
      (split (get_payload_field request (codes "C")) comma)

pub get_local_road_rule_upload_record : Bytes → Bytes
unfolding valid_ranks accepted upload_entries
get_local_road_rule_upload_record request =
    codes "VALID="
    ++ join (map format_nat (valid_ranks [] (upload_entries request))) comma
    ++ b'\n' ∷ 0 ∷ []
