-- ===== src/Record/Ranks.antt =====
-- bpserver/record.go: what the road-rule records hold.
use burnout_paradise_server.Common.{
  ℕ, zero, suc, ◌+◌, ◌-◌, ◌*◌, ◌^◌, ◌≤◌, ◌<◌, ◌≡◌, refl, subst, ap, ◌∙◌, List, [], ◌∷◌, true, false,
  Option, none, some, inl, inr, arith, Bytes, codes, bytes_eq, bytes_eq_refl, ltb, leb, lt→ltb,
  ltb-false, Bool-cases, Option-cases, if◌then◌else◌,
}
use burnout_paradise_server.Text.Trim.{trim_space}
use burnout_paradise_server.Number.{ℤ, pos, negsuc, atoi, parse_int}
use burnout_paradise_server.Payload.{get_payload_field}
use burnout_paradise_server.Record.{
  zeros, slot, seen_before, accepted, valid_ranks, upload_entries, is_number,
  get_local_rank_list_record, requested_ranks, double_int64, cap_entries, rank_tokens, is_set_zero,
}

-- A rank with a slot that is not among some others.
abbrev IsNew : List ℕ → ℕ → Type 0
IsNew seen r = (r < 128) × (seen_before r seen ≡ false)

-- Ranks with slots, each of them new behind those before it.
abbrev pub AreNew : List ℕ → List ℕ → Type 0
AreNew seen [] = Unit {0}
AreNew seen (r ∷ rs) = IsNew seen r × AreNew (r ∷ seen) rs

abbrev NewOption : List ℕ → Option ℕ → Type 0
NewOption seen none = Unit {0}
NewOption seen (some r) = IsNew seen r

abbrev Slot : Option ℕ → Type 0
Slot none = Unit {0}
Slot (some r) = r < 128

slot_lem : (o : Option ℤ) → Slot (slot o)
unfolding slot
slot_lem none = tt
slot_lem (some (negsuc n)) = tt
slot_lem (some (pos n)) = elim (Bool-cases (leb 128 n)) [
  | inl e ↦ rw (slot, Slot, e) tt
  | inr e ↦ rw (slot, Slot, e) (ground arith)
]

accepted_lem : (seen : List ℕ) (e : Bytes × Bytes × Bytes) → NewOption seen (accepted seen e)
unfolding accepted
accepted_lem seen (rank, value, car) = elim (Option-cases (slot (atoi (trim_space rank)))) [
  | inl n ↦ rw (accepted, NewOption, n) tt
  | inr (r, n) ↦ elim (Bool-cases (is_number (parse_int 64 (trim_space value)))) [
    | inr v ↦ rw (accepted, NewOption, n, v) tt
    | inl v ↦ elim (Bool-cases (bytes_eq (trim_space car) [])) [
      | inl c ↦ rw (accepted, NewOption, n, v, c) tt
      | inr c ↦ elim (Bool-cases (seen_before r seen)) [
        | inl k ↦ rw (accepted, NewOption, n, v, c, k) tt
        | inr k ↦
            rw (accepted, NewOption, n, v, c, k)
              (subst Slot n (slot_lem (atoi (trim_space rank))), k)
      ]
    ]
  ]
]

valid_ranks-AreNew :
    (seen : List ℕ) (es : List (Bytes × Bytes × Bytes)) → AreNew seen (valid_ranks seen es)
unfolding valid_ranks
valid_ranks-AreNew seen [] = tt
valid_ranks-AreNew seen (e ∷ es) = elim (Option-cases (accepted seen e)) [
  | inl n ↦ rw (valid_ranks, n) (valid_ranks-AreNew seen es)
  | inr (r, n) ↦
      rw (valid_ranks, AreNew, n)
        (subst (NewOption seen) n (accepted_lem seen e), valid_ranks-AreNew (r ∷ seen) es)
]

-- Whatever the lists of an upload hold, the ranks that the loop keeps for the answer are below 128, the number of
-- slots of the client, and none of them is repeated.
pub upload-AreNew : (request : Bytes) → AreNew [] (valid_ranks [] (upload_entries request))
upload-AreNew request = valid_ranks-AreNew [] (upload_entries request)

-- The number of entries that the answer to a rank-list request has, where it has one.
abbrev pub entries_of : Bytes → ℕ → ℕ
entries_of request num =
    let wanted =
      if bytes_eq (get_payload_field request (codes "SET")) (codes "0") then 2 * num else num in
    if ltb 40 wanted then 40 else wanted

capped :
    (n : ℕ) → rank_tokens (cap_entries (pos n)) ≡ some (zeros (2 + (if ltb 40 n then 40 else n)))
unfolding cap_entries rank_tokens
capped n = elim (Bool-cases (ltb 40 n)) [ inl e ↦ rw e refl | inr e ↦ rw e refl ]

negative : (n : ℕ) → 2 ≤ n → rank_tokens (cap_entries (negsuc n)) ≡ none
unfolding cap_entries rank_tokens
negative zero h = absurd (omega arith)
negative (suc zero) h = absurd (omega arith)
negative (suc (suc n)) h = refl

is_zero : {t : Bytes} → t ≡ codes "0" → bytes_eq t (codes "0") ≡ true
is_zero e = ap (λ t. bytes_eq t (codes "0")) e ∙ bytes_eq_refl (codes "0")

-- A request for fewer than 2^62 ranks is answered with as many zeros as the entries that it asks for,
-- two for a rank with SET=0, 40 at most, and two more.
pub rank_list-answer :
    (request : Bytes) (num : ℕ)
    → atoi (get_payload_field request (codes "NUM")) ≡ some (pos num)
    → 1 ≤ num
    → num < 2 ^ 62
    → get_local_rank_list_record request ≡ some (zeros (2 + entries_of request num))
unfolding get_local_rank_list_record requested_ranks double_int64 is_set_zero
rank_list-answer request num e p h =
    elim (Bool-cases (bytes_eq (get_payload_field request (codes "SET")) (codes "0"))) [
      | inl q ↦
          rw (e, q, ltb-false num 1 p, lt→ltb (2 * num) (2 ^ 63) (omega arith)) (capped (2 * num))
      | inr q ↦ rw (e, q, ltb-false num 1 p) (capped num)
    ]

-- With SET=0 and 2^62 ranks or more, which an int64 still holds, the number of entries overflows to a
-- negative one, and the server panics.
pub rank_list-panic :
    (request : Bytes) (num : ℕ)
    → atoi (get_payload_field request (codes "NUM")) ≡ some (pos num)
    → get_payload_field request (codes "SET") ≡ codes "0"
    → 2 ^ 62 ≤ num
    → num < 2 ^ 63 - 1
    → get_local_rank_list_record request ≡ none
unfolding get_local_rank_list_record requested_ranks double_int64 cap_entries rank_tokens
    is_set_zero
rank_list-panic request num e z p h =
    rw (e, is_zero z, ltb-false num 1 (omega arith), ltb-false (2 * num) (2 ^ 63) (omega arith))
      (negative (2 ^ 64 - 2 * num - 1) (omega arith))
