-- ===== src/Payload/Lines.antt =====
-- Reading the fields of a record that is made of lines KEY=value.
use burnout_paradise_server.Common.{
  ◌≡◌, ◌≢◌, refl, sym, ap, ◌∙◌, subst, List, [], ◌∷◌, ◌++◌, append_assoc, Bool, true, Option, none,
  some, inl, inr, arith, Bytes, All, All-append, leb, ◌==◌, not, ◌&&◌, Bool-cases, Option-cases,
  if◌then◌else◌,
}
use burnout_paradise_server.Text.{fields, cut, equal_fold, is_field_end}
use burnout_paradise_server.Text.Trim.{glue, trim_right_byte, trim_space, trim_right_space}
use burnout_paradise_server.Text.Solid.{
  IsSolid, trim_space_solid_prefix, trim_right_byte_prefix, cut_prefix,
}
use burnout_paradise_server.Text.Fields.{
  IsPlain, fields-IsPlain, fields_line, trim_byte-All, trim_space-All, Behind, cut-All,
}
use burnout_paradise_server.Payload.{
  clean, find_field, get_payload_field_value, get_payload_field, equals,
}

-- A key that a record may have: printable ASCII without spaces and '='.
abbrev pub IsKey : Bytes → Type 0
IsKey [] = ⊥
IsKey (c ∷ s) = All IsSolid (c ∷ s) × All (λ x. x ≢ b'=') (c ∷ s)

unfoldable pub are_key_bytes : Bytes → Bool
are_key_bytes [] = true
are_key_bytes (c ∷ s) =
    let rest = are_key_bytes s in leb 33 c && leb c 126 && not (c == b'=') && rest

-- A computed test for a key.
pub key_bytes_lem : (s : Bytes) → are_key_bytes s ≡ true → All IsSolid s × All (λ x. x ≢ b'=') s
unfolding are_key_bytes
key_bytes_lem [] h = (tt, tt)
key_bytes_lem (c ∷ s) h =
    let rest : are_key_bytes s ≡ true = ground arith in
    let ih = key_bytes_lem s rest in (((ground arith, ground arith), ih.0), (ground arith, ih.1))

-- Keys with their values.
abbrev pub AreRows : List (Bytes × Bytes) → Type 0
AreRows rows = All (λ r. IsKey r.0 × All IsPlain r.1) rows

unfoldable pub rows_text : List (Bytes × Bytes) → Bytes → Bytes
rows_text [] end = end
rows_text ((key, value) ∷ rows) end = key ++ (b'=' ∷ (value ++ (b'\n' ∷ rows_text rows end)))

unfoldable pub row : Bytes → Bytes → Bytes
row key value = key ++ b'=' ∷ value

-- The value of the first row whose key is the wanted one, as a reader gets it.
unfoldable pub row_value : Bytes → List (Bytes × Bytes) → Option Bytes
row_value wanted [] = none
row_value wanted ((key, value) ∷ rows) =
    let rest = row_value wanted rows in
    if equal_fold key wanted then some (clean (trim_right_space value)) else rest

unfoldable pub row_list : List (Bytes × Bytes) → List Bytes
row_list [] = []
row_list ((key, value) ∷ rows) = row key value ∷ row_list rows

rows_text-row :
    (key value : Bytes) (rows : List (Bytes × Bytes)) (end : Bytes)
    → rows_text ((key, value) ∷ rows) end ≡ row key value ++ b'\n' ∷ rows_text rows end
unfolding rows_text row
rows_text-row key value rows end = sym (append_assoc key (b'=' ∷ value) _)

pub trim-rows_text :
    (rows : List (Bytes × Bytes)) → trim_right_byte 0 (rows_text rows (0 ∷ [])) ≡ rows_text rows []
trim-rows_text [] = unfold rows_text trim_right_byte glue in refl
trim-rows_text ((key, value) ∷ rows) =
    ap (trim_right_byte 0) (rows_text-row key value rows (0 ∷ []))
    ∙ trim_right_byte_prefix 0 b'\n' (row key value) _ (λ e. omega arith)
    ∙ ap (λ t. row key value ++ b'\n' ∷ t) (trim-rows_text rows)
    ∙ sym (rows_text-row key value rows [])

solid-IsPlain : (s : Bytes) → All IsSolid s → All IsPlain s
solid-IsPlain [] h = tt
solid-IsPlain (c ∷ s) h = (unfold is_field_end in ground arith, solid-IsPlain s h.1)

equals-IsPlain : IsPlain equals
unfolding is_field_end
equals-IsPlain = refl

fields-row :
    (key value rest : Bytes)
    → IsKey key
    → All IsPlain value
    → fields (row key value ++ b'\n' ∷ rest) ≡ row key value ∷ fields rest
unfolding row
fields-row [] value rest h v = elim h [ ]
fields-row (k ∷ key) value rest h v =
    fields_line k (key ++ b'=' ∷ value) rest (
      All-append IsPlain (k ∷ key) (b'=' ∷ value) (solid-IsPlain (k ∷ key) h.0) (equals-IsPlain, v))

pub fields-rows_text :
    (rows : List (Bytes × Bytes)) → AreRows rows → fields (rows_text rows []) ≡ row_list rows
unfolding row_list
fields-rows_text [] h = unfold rows_text fields in refl
fields-rows_text ((key, value) ∷ rows) h =
    ap fields (rows_text-row key value rows [])
    ∙ fields-row key value (rows_text rows []) h.0.0 h.0.1
    ∙ ap (λ t. row key value ∷ t) (fields-rows_text rows h.1)

cut-row :
    (key value : Bytes)
    → IsKey key
    → cut equals (trim_space (row key value)) ≡ some (key, trim_right_space value)
unfolding row
cut-row [] value h = elim h [ ]
cut-row (k ∷ key) value h =
    ap (λ t. cut equals (trim_space t)) (sym (append_assoc (k ∷ key) (b'=' ∷ []) value))
    ∙ ap (cut equals) (
        trim_space_solid_prefix k (key ++ b'=' ∷ []) value
          (All-append IsSolid (k ∷ key) (b'=' ∷ []) h.0 ((omega arith, omega arith), tt)))
    ∙ ap (cut equals) (append_assoc (k ∷ key) (b'=' ∷ []) (trim_right_space value))
    ∙ cut_prefix equals (k ∷ key) (trim_right_space value) h.1

find_field-rows :
    (wanted : Bytes) (rows : List (Bytes × Bytes))
    → AreRows rows
    → find_field wanted (row_list rows) ≡ row_value wanted rows
unfolding find_field row_list row_value
find_field-rows wanted [] h = refl
find_field-rows wanted ((key, value) ∷ rows) h =
    rw (find_field, cut-row key value h.0.0, find_field-rows wanted rows h.1)

pub get-rows_text :
    (rows : List (Bytes × Bytes)) (wanted : Bytes)
    → AreRows rows
    → get_payload_field_value (rows_text rows (0 ∷ [])) wanted ≡ row_value wanted rows
unfolding get_payload_field_value
get-rows_text rows wanted h =
    ap (λ t. find_field wanted (fields t)) (trim-rows_text rows)
    ∙ ap (find_field wanted) (fields-rows_text rows h)
    ∙ find_field-rows wanted rows h

abbrev PlainOption : Option Bytes → Type 0
PlainOption none = Unit
PlainOption (some v) = All IsPlain v

clean-IsPlain : (v : Bytes) → All IsPlain v → All IsPlain (clean v)
unfolding clean
clean-IsPlain v h = trim_byte-All IsPlain b'"' _ (trim_space-All IsPlain v h)

find_field-plain :
    (wanted : Bytes) (parts : List Bytes)
    → All (All IsPlain) parts
    → PlainOption (find_field wanted parts)
unfolding find_field
find_field-plain wanted [] h = tt
find_field-plain wanted (p ∷ parts) h = elim (Option-cases (cut equals (trim_space p))) [
  | inl n ↦ rw (find_field, PlainOption, n) (find_field-plain wanted parts h.1)
  | inr ((key, value), q) ↦ elim (Bool-cases (equal_fold key wanted)) [
    | inl e ↦
        rw (find_field, PlainOption, q, e)
          (clean-IsPlain value (
            subst (Behind IsPlain) q
              (cut-All IsPlain equals (trim_space p) (trim_space-All IsPlain p h.0))))
    | inr e ↦ rw (find_field, PlainOption, q, e) (find_field-plain wanted parts h.1)
  ]
]

-- The value of a field has no newline and no tab.
pub get_payload_field_value-IsPlain :
    (payload wanted value : Bytes)
    → get_payload_field_value payload wanted ≡ some value
    → All IsPlain value
unfolding get_payload_field_value
get_payload_field_value-IsPlain payload wanted value e =
    subst PlainOption e (find_field-plain wanted _ (fields-IsPlain (trim_right_byte 0 payload)))

pub get_payload_field-IsPlain :
    (payload wanted : Bytes) → All IsPlain (get_payload_field payload wanted)
unfolding get_payload_field
get_payload_field-IsPlain payload wanted =
    elim (Option-cases (get_payload_field_value payload wanted)) [
      | inl n ↦ rw n tt
      | inr (v, e) ↦ rw e (get_payload_field_value-IsPlain payload wanted v e)
    ]
