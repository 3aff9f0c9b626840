-- ===== src/Lobby/Flags.antt =====
-- bpserver/lobby.go: the system flags of a request, written by an update and read back.
use burnout_paradise_server.Common.{
  ℕ, zero, suc, ◌+◌, ◌/◌, ◌%◌, ◌<◌, ◌≤◌, ◌≡◌, ◌≢◌, refl, sym, ap, ◌∙◌, [], ◌∷◌, append-nil, Option,
  none, some, inl, inr, arith, Bytes, codes, bytes_eq, All, Bool-cases, ltb, ltb→lt,
}
use burnout_paradise_server.Text.{is_field_end, equal_fold, runes}
use burnout_paradise_server.Text.Trim.{trim_byte, trim_space, trim_right_space}
use burnout_paradise_server.Text.Solid.{
  IsSolid, trim_right_solid_prefix, trim_space_solid_prefix, trim_byte_absent,
}
use burnout_paradise_server.Text.Fields.{IsPlain}
use burnout_paradise_server.Number.{ℤ, pos, negsuc, digits, format_nat, format_int, parse_int}
use burnout_paradise_server.Number.RoundTrip.{Fits, parse_int-format_int}
use burnout_paradise_server.Payload.{
  clean, get_payload_field, get_payload_field_value, decimal_field, or_empty,
}
use burnout_paradise_server.Payload.Lines.{
  are_key_bytes, key_bytes_lem, get-rows_text, rows_text, row_value,
}
use burnout_paradise_server.Record.Game.{line}
use burnout_paradise_server.Types.{LocalLobby}
use burnout_paradise_server.Lobby.Merge.ReadBack.{chosen, merged_field, get-merge}
use burnout_paradise_server.Lobby.Ops.{sys_flags, flags_update, with_flags}

-- The bytes of decimal numbers: the digits and the minus sign.
abbrev IsNumeral : ℕ → Type 0
IsNumeral c = (45 ≤ c) × (c ≤ 57)

digits-IsNumeral :
    (fuel n : ℕ) (out : Bytes) → All IsNumeral out → All IsNumeral (digits fuel n out)
unfolding digits
digits-IsNumeral zero n out h = h
digits-IsNumeral (suc fuel) n out h = elim (Bool-cases (ltb n 10)) [
  | inl e ↦ rw (digits, All, e) (number_byte n (ltb→lt n 10 e), h)
  | inr e ↦
      rw (digits, e)
        (digits-IsNumeral fuel (n / 10) ((b'0' + n % 10) ∷ out)
          (number_byte (n % 10) (omega arith), h))
]
  where
    number_byte : (d : ℕ) → d < 10 → IsNumeral (b'0' + d)
    number_byte d h = (omega arith, omega arith)

format_int-IsNumeral : (z : ℤ) → All IsNumeral (format_int z)
unfolding format_int format_nat
format_int-IsNumeral (pos n) = digits-IsNumeral (suc n) n [] tt
format_int-IsNumeral (negsuc n) =
    ((omega arith, omega arith), digits-IsNumeral (suc (suc n)) (suc n) [] tt)

numeral-IsSolid : (s : Bytes) → All IsNumeral s → All IsSolid s
numeral-IsSolid [] h = tt
numeral-IsSolid (c ∷ s) h = ((omega arith, omega arith), numeral-IsSolid s h.1)

numeral-unquoted : (s : Bytes) → All IsNumeral s → All (λ c. c ≢ b'"') s
numeral-unquoted [] h = tt
numeral-unquoted (c ∷ s) h = ((λ e. omega arith), numeral-unquoted s h.1)

numeral-IsPlain : (s : Bytes) → All IsNumeral s → All IsPlain s
numeral-IsPlain [] h = tt
numeral-IsPlain (c ∷ s) h = (unfold is_field_end in ground arith, numeral-IsPlain s h.1)

trim_right-numeral : (s : Bytes) → All IsNumeral s → trim_right_space s ≡ s
unfolding trim_right_space
trim_right-numeral s h =
    ap trim_right_space (sym (append-nil s))
    ∙ trim_right_solid_prefix s [] (numeral-IsSolid s h)
    ∙ append-nil s

clean-empty : clean [] ≡ []
unfolding clean trim_byte trim_space trim_right_space
clean-empty = refl

clean-numeral : (s : Bytes) → All IsNumeral s → clean s ≡ s
unfolding clean trim_right_space
clean-numeral [] h = clean-empty
clean-numeral (c ∷ s) h =
    ap (λ t. clean t) (sym (append-nil (c ∷ s)))
    ∙ ap (trim_byte b'"')
        (trim_space_solid_prefix c s [] (numeral-IsSolid (c ∷ s) h) ∙ append-nil (c ∷ s))
    ∙ trim_byte_absent b'"' (c ∷ s) (numeral-unquoted (c ∷ s) h)

read-numeral : (s : Bytes) → All IsNumeral s → clean (trim_right_space s) ≡ s
read-numeral s h = ap clean (trim_right-numeral s h) ∙ clean-numeral s h

decimal_field-number :
    (t fallback : Bytes) (z : ℤ) → parse_int 32 t ≡ some z → decimal_field t fallback ≡ t
unfolding decimal_field parse_int
decimal_field-number [] fallback z e = cc
decimal_field-number (c ∷ t) fallback z e = rw (decimal_field, e) refl

-- The value that the update holds.
get-flags_update :
    (z : ℤ) → get_payload_field_value (flags_update z) (codes "SYSFLAGS") ≡ some (format_int z)
unfolding flags_update rows_text line row_value are_key_bytes equal_fold bytes_eq runes
get-flags_update z =
    get-rows_text ((codes "SYSFLAGS", format_int z) ∷ []) (codes "SYSFLAGS")
      ((key_bytes_lem (codes "SYSFLAGS") refl, numeral-IsPlain _ (format_int-IsNumeral z)), tt)
    ∙ ap some (read-numeral (format_int z) (format_int-IsNumeral z))

chosen-flags :
    (z : ℤ) (base : Option Bytes)
    → chosen (get_payload_field_value (flags_update z) (codes "SYSFLAGS")) base ≡ format_int z
unfolding chosen
chosen-flags z base = ap (λ o. chosen o base) (get-flags_update z)

get-with_flags :
    (l : LocalLobby) (z : ℤ)
    → get_payload_field (with_flags l z).request (codes "SYSFLAGS") ≡ format_int z
unfolding get_payload_field with_flags merged_field equal_fold bytes_eq runes
get-with_flags l z =
    ap or_empty (get-merge l.request (flags_update z) (codes "SYSFLAGS"))
    ∙ ap (λ v. clean (trim_right_space v))
        (chosen-flags z (get_payload_field_value l.request (codes "SYSFLAGS")))
    ∙ read-numeral (format_int z) (format_int-IsNumeral z)

-- The flags that are written into the request of a lobby are read back, if they are an int32.
pub sys_flags-with_flags :
    (l : LocalLobby) (z : ℤ) → Fits 32 z → sys_flags (with_flags l z).request ≡ z
unfolding sys_flags
sys_flags-with_flags l z h =
    let e = parse_int-format_int 32 z h in
    ap or_zero (
      ap (parse_int 32) (
        ap (λ t. decimal_field t (codes "0")) (get-with_flags l z)
        ∙ decimal_field-number _ (codes "0") z e)
      ∙ e)
  where
    or_zero : Option ℤ → ℤ
    or_zero none = pos 0
    or_zero (some y) = y
