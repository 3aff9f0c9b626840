-- ===== src/Payload/Secrets.antt =====
-- bpserver/helpers.go: what getSafeFields lets into the log.
use burnout_paradise_server.Common.{
  ◌≡◌, ◌⊎◌, refl, sym, ap, ◌∙◌, inl, inr, List, [], ◌∷◌, ◌++◌, true, some, Bytes, codes, bytes_eq,
  Bool, map, ◌||◌, if◌then◌else◌,
}
use burnout_paradise_server.Text.{cut, fields, runes, to_upper}
use burnout_paradise_server.Text.Solid.{cut_prefix}
use burnout_paradise_server.Payload.{equals, is_secret, safe_fields, get_safe_fields}
use burnout_paradise_server.Payload.Lines.{
  IsKey, AreRows, rows_text, row, row_list, trim-rows_text, fields-rows_text,
}

-- A row as it is logged.
abbrev shown : Bytes → Bytes → Bytes
shown key value = key ++ equals ∷ (if is_secret key then codes "<redacted>" else value)

abbrev all_shown : List (Bytes × Bytes) → List Bytes
all_shown [] = []
all_shown ((key, value) ∷ rows) = shown key value ∷ all_shown rows

cut-key : (key value : Bytes) → IsKey key → cut equals (row key value) ≡ some (key, value)
unfolding row
cut-key [] value h = elim h [ ]
cut-key (k ∷ key) value h = cut_prefix equals (k ∷ key) value h.1

safe_fields-rows :
    (rows : List (Bytes × Bytes)) → AreRows rows → safe_fields (row_list rows) ≡ all_shown rows
unfolding safe_fields row_list
safe_fields-rows [] h = refl
safe_fields-rows ((key, value) ∷ rows) h =
    rw (safe_fields, cut-key key value h.0.0, safe_fields-rows rows h.1) refl

get_safe_fields-rows :
    (rows : List (Bytes × Bytes))
    → AreRows rows
    → get_safe_fields (rows_text rows (0 ∷ [])) ≡ all_shown rows
unfolding get_safe_fields
get_safe_fields-rows rows h =
    ap (λ t. safe_fields (fields t)) (trim-rows_text rows)
    ∙ ap safe_fields (fields-rows_text rows h)
    ∙ safe_fields-rows rows h

-- The keys of secrets, in either case.
abbrev pub IsSecret : Bytes → Type 0
IsSecret key =
    let name = map to_upper (runes key) in
    (name ≡ codes "PASS")
    ⊎ ((name ≡ codes "PASSWORD")
        ⊎ ((name ≡ codes "LKEY")
            ⊎ ((name ≡ codes "TOKEN") ⊎ ((name ≡ codes "AUTH") ⊎ (name ≡ codes "NUCLEUSMSG")))))

secret_lem : (key : Bytes) → IsSecret key → is_secret key ≡ true
unfolding is_secret bytes_eq
secret_lem key h =
    let test : Bytes → Bool = λ k.
      bytes_eq k (codes "PASS")
      || bytes_eq k (codes "PASSWORD")
      || bytes_eq k (codes "LKEY")
      || bytes_eq k (codes "TOKEN")
      || bytes_eq k (codes "AUTH")
      || bytes_eq k (codes "NUCLEUSMSG") in
    elim h [
      | inl e ↦ ap test e
      | inr (inl e) ↦ ap test e
      | inr (inr (inl e)) ↦ ap test e
      | inr (inr (inr (inl e))) ↦ ap test e
      | inr (inr (inr (inr (inl e)))) ↦ ap test e
      | inr (inr (inr (inr (inr e)))) ↦ ap test e
    ]

-- The same keys, and the same values but for secrets.
abbrev pub SameButSecrets : List (Bytes × Bytes) → List (Bytes × Bytes) → Type 0
SameButSecrets [] [] = Unit {0}
SameButSecrets [] (r ∷ others) = ⊥
SameButSecrets (r ∷ rows) [] = ⊥
SameButSecrets (r ∷ rows) (o ∷ others) =
    (r.0 ≡ o.0) × (IsSecret r.0 ⊎ (r.1 ≡ o.1)) × SameButSecrets rows others

shown-same :
    (key value other : Bytes) → IsSecret key ⊎ (value ≡ other) → shown key value ≡ shown key other
shown-same key value other (inl secret) = rw (secret_lem key secret) refl
shown-same key value other (inr same) = ap (shown key) same

all_shown-same :
    (rows others : List (Bytes × Bytes))
    → SameButSecrets rows others
    → all_shown rows ≡ all_shown others
all_shown-same [] [] h = refl
all_shown-same [] (r ∷ others) h = absurd h
all_shown-same (r ∷ rows) [] h = absurd h
all_shown-same ((key, value) ∷ rows) ((other_key, other) ∷ others) h =
    ap (λ t. t ∷ all_shown rows) (shown-same key value other h.1)
    ∙ ap (λ k. shown k other ∷ all_shown rows) h.0
    ∙ ap (λ t. shown other_key other ∷ t) (all_shown-same rows others h.2)

-- Two records of rows with the same keys, of printable ASCII without '=', and with values without newlines and
-- tabs, are logged alike if their values differ at most under the keys PASS, PASSWORD, LKEY, TOKEN, AUTH and
-- NUCLEUSMSG, in any case.
pub get_safe_fields-secret :
    (rows others : List (Bytes × Bytes))
    → AreRows rows
    → AreRows others
    → SameButSecrets rows others
    → get_safe_fields (rows_text rows (0 ∷ [])) ≡ get_safe_fields (rows_text others (0 ∷ []))
get_safe_fields-secret rows others good good_others same =
    get_safe_fields-rows rows good
    ∙ all_shown-same rows others same
    ∙ sym (get_safe_fields-rows others good_others)
