-- ===== src/Lobby/Merge/ReadBack.antt =====
-- bpserver/lobby.go: what the fields of a merged request are.
use burnout_paradise_server.Common.{
  ◌≡◌, refl, ap, ◌∙◌, List, [], ◌∷◌, Option, none, some, inl, inr, Bytes, codes, All, Option-cases,
  if◌then◌else◌,
}
use burnout_paradise_server.Text.{equal_fold}
use burnout_paradise_server.Text.Trim.{trim_right_space}
use burnout_paradise_server.Text.Fields.{IsPlain}
use burnout_paradise_server.Payload.{clean, get_payload_field, get_payload_field_value}
use burnout_paradise_server.Payload.Lines.{
  IsKey, AreRows, are_key_bytes, key_bytes_lem, rows_text, row_value, get-rows_text,
  get_payload_field_value-IsPlain, get_payload_field-IsPlain,
}
use burnout_paradise_server.Record.Game.{line}
use burnout_paradise_server.Lobby.Merge.{
  merge_keys, merged_value, merged_lines, merge_local_game_request,
}

merged_rows : Bytes → Bytes → List Bytes → List (Bytes × Bytes)
merged_rows base update [] = []
merged_rows base update (key ∷ keys) =
    (key, merged_value base update key) ∷ merged_rows base update keys

merged_lines-rows :
    (base update : Bytes) (keys : List Bytes)
    → merged_lines base update keys ≡ rows_text (merged_rows base update keys) (0 ∷ [])
unfolding merged_lines rows_text line merged_rows
merged_lines-rows base update [] = refl
merged_lines-rows base update (key ∷ keys) = rw (merged_lines-rows base update keys)

merged_value-IsPlain : (base update key : Bytes) → All IsPlain (merged_value base update key)
unfolding merged_value
merged_value-IsPlain base update key = elim (Option-cases (get_payload_field_value update key)) [
  | inl n ↦ rw (All, merged_value, n) (get_payload_field-IsPlain base key)
  | inr (v, e) ↦ rw (All, merged_value, e) (get_payload_field_value-IsPlain update key v e)
]

merged_rows-AreRows :
    (base update : Bytes) (keys : List Bytes)
    → All IsKey keys
    → AreRows (merged_rows base update keys)
unfolding merged_rows
merged_rows-AreRows base update [] h = tt
merged_rows-AreRows base update (key ∷ keys) h =
    ((h.0, merged_value-IsPlain base update key), merged_rows-AreRows base update keys h.1)

-- The update's value, or else the base's, and nothing if neither has one.
unfoldable pub chosen : Option Bytes → Option Bytes → Bytes
chosen (some value) base = value
chosen none (some value) = value
chosen none none = []

merged_value-chosen :
    (base update key : Bytes)
    → merged_value base update key
      ≡ chosen (get_payload_field_value update key) (get_payload_field_value base key)
unfolding chosen merged_value get_payload_field
merged_value-chosen base update key = elim (Option-cases (get_payload_field_value update key)) [
  | inr (v, e) ↦ rw (merged_value, e) refl
  | inl n ↦ elim (Option-cases (get_payload_field_value base key)) [
    | inl m ↦ rw (merged_value, get_payload_field, n, m) refl
    | inr (v, e) ↦ rw (merged_value, get_payload_field, n, e) refl
  ]
]

-- The value of the first of some keys that is the wanted one up to case: the update's value, or the
-- base's if the update has none.
unfoldable pub merged_field : Bytes → Bytes → Bytes → List Bytes → Option Bytes
merged_field base update wanted [] = none
merged_field base update wanted (key ∷ keys) =
    let rest = merged_field base update wanted keys in
    let value = chosen (get_payload_field_value update key) (get_payload_field_value base key) in
    if equal_fold key wanted then some (clean (trim_right_space value)) else rest

row_value-merged :
    (base update wanted : Bytes) (keys : List Bytes)
    → row_value wanted (merged_rows base update keys) ≡ merged_field base update wanted keys
unfolding row_value merged_rows merged_field
row_value-merged base update wanted [] = refl
row_value-merged base update wanted (key ∷ keys) =
    rw (merged_value-chosen base update key, row_value-merged base update wanted keys) refl

merge_keys-AreKeys : All IsKey merge_keys
unfolding are_key_bytes
merge_keys-AreKeys = (
  key_bytes_lem (codes "NAME") refl,
  (
    key_bytes_lem (codes "PARAMS") refl,
    (
      key_bytes_lem (codes "USERPARAMS") refl,
      (
        key_bytes_lem (codes "MINSIZE") refl,
        (
          key_bytes_lem (codes "MAXSIZE") refl,
          (
            key_bytes_lem (codes "CUSTFLAGS") refl,
            (
              key_bytes_lem (codes "SYSFLAGS") refl,
              (
                key_bytes_lem (codes "PRIV") refl,
                (key_bytes_lem (codes "SEED") refl, (key_bytes_lem (codes "USERFLAGS") refl, tt)),
              ),
            ),
          ),
        ),
      ),
    ),
  ),
)

-- The merged request has exactly the ten merge keys: reading any field of it gives the value the update
-- has for the key, or else the base's, without outer spaces and quotes, and nothing for other keys.
pub get-merge :
    (base update wanted : Bytes)
    → get_payload_field_value (merge_local_game_request base update) wanted
      ≡ merged_field base update wanted merge_keys
unfolding merge_local_game_request
get-merge base update wanted =
    ap (λ t. get_payload_field_value t wanted) (merged_lines-rows base update merge_keys)
    ∙ get-rows_text _ wanted (merged_rows-AreRows base update merge_keys merge_keys-AreKeys)
    ∙ row_value-merged base update wanted merge_keys
