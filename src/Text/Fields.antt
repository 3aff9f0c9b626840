-- ===== src/Text/Fields.antt =====
-- The fields of a text that is made of lines.
use burnout_paradise_server.Common.{
  ℕ, zero, suc, ◌-◌, ◌≡◌, refl, sym, ap, ◌∙◌, List, [], ◌∷◌, ◌++◌, append_assoc, append-nil, Bool,
  true, false, Option, none, some, Bytes, ◌==◌, All, All-append, Bool-cases, inl, inr, Option-cases,
  subst,
}
use burnout_paradise_server.Text.{fields, fields_from, keep_field, is_field_end, cut}
use burnout_paradise_server.Text.Trim.{
  trim_left_byte, trim_right_byte, trim_byte, glue, trim_left_from, trim_right_space, trim_space,
  all_space_from, space_width,
}

-- A byte that separates no fields.
abbrev pub IsPlain : ℕ → Type 0
IsPlain c = is_field_end c ≡ false

keep_field-IsPlain :
    (cur : Bytes) (rest : List Bytes)
    → All IsPlain cur
    → All (All IsPlain) rest
    → All (All IsPlain) (keep_field cur rest)
unfolding keep_field
keep_field-IsPlain [] rest h k = k
keep_field-IsPlain (c ∷ s) rest h k = (h, k)

fields_from-IsPlain : (cur s : Bytes) → All IsPlain cur → All (All IsPlain) (fields_from cur s)
unfolding fields_from
fields_from-IsPlain cur [] h = keep_field-IsPlain cur [] h tt
fields_from-IsPlain cur (c ∷ s) h = elim (Bool-cases (is_field_end c)) [
  | inl e ↦ rw (e, fields_from) (keep_field-IsPlain cur _ h (fields_from-IsPlain [] s tt))
  | inr e ↦
      rw (e, fields_from)
        (fields_from-IsPlain (cur ++ c ∷ []) s (All-append IsPlain cur (c ∷ []) h (e, tt)))
]

-- No field holds a byte that separates fields.
pub fields-IsPlain : (s : Bytes) → All (All IsPlain) (fields s)
unfolding fields
fields-IsPlain s = fields_from-IsPlain [] s tt

fields_from-append :
    (xs cur rest : Bytes)
    → All IsPlain xs
    → fields_from cur (xs ++ rest) ≡ fields_from (cur ++ xs) rest
unfolding fields_from
fields_from-append [] cur rest h = ap (λ c. fields_from c rest) (sym (append-nil cur))
fields_from-append (x ∷ xs) cur rest h =
    rw (h.0, fields_from)
      (fields_from-append xs (cur ++ x ∷ []) rest h.1
        ∙ ap (λ c. fields_from c rest) (append_assoc cur (x ∷ []) xs))

-- A line that is not empty is a field.
pub fields_line :
    (x : ℕ) (xs rest : Bytes)
    → All IsPlain (x ∷ xs)
    → fields ((x ∷ xs) ++ b'\n' ∷ rest) ≡ (x ∷ xs) ∷ fields rest
unfolding fields
fields_line x xs rest h =
    fields_from-append (x ∷ xs) [] (b'\n' ∷ rest) h
    ∙ unfold fields_from keep_field is_field_end in refl

-- Trimming leaves no byte that was not there.
module _ (P : ℕ → Type 0) where
  trim_left_byte-All : (b : ℕ) (s : Bytes) → All P s → All P (trim_left_byte b s)
  unfolding trim_left_byte
  trim_left_byte-All b [] h = tt
  trim_left_byte-All b (c ∷ s) h = elim (Bool-cases (c == b)) [
    | inl e ↦ rw e (trim_left_byte-All b s h.1)
    | inr e ↦ rw e h
  ]

  glue-All : (d : Bool) (c : ℕ) (s : Bytes) → P c → All P s → All P (glue d c s)
  unfolding glue
  glue-All true c [] p h = tt
  glue-All false c [] p h = (p, tt)
  glue-All d c (x ∷ s) p h = (p, h)

  trim_right_byte-All : (b : ℕ) (s : Bytes) → All P s → All P (trim_right_byte b s)
  unfolding trim_right_byte
  trim_right_byte-All b [] h = tt
  trim_right_byte-All b (c ∷ s) h = glue-All (c == b) c _ h.0 (trim_right_byte-All b s h.1)

  pub trim_byte-All : (b : ℕ) (s : Bytes) → All P s → All P (trim_byte b s)
  unfolding trim_byte
  trim_byte-All b s h = trim_right_byte-All b _ (trim_left_byte-All b s h)

  trim_right_space-All : (s : Bytes) → All P s → All P (trim_right_space s)
  unfolding trim_right_space
  trim_right_space-All [] h = tt
  trim_right_space-All (c ∷ s) h = elim (Bool-cases (all_space_from 0 (c ∷ s))) [
    | inl e ↦ rw e tt
    | inr e ↦ rw e (h.0, trim_right_space-All s h.1)
  ]

  trim_left_from-All : (k : ℕ) (s : Bytes) → All P s → All P (trim_left_from k s)
  unfolding trim_left_from
  trim_left_from-All k [] h = tt
  trim_left_from-All (suc k) (c ∷ s) h = trim_left_from-All k s h.1
  trim_left_from-All zero (c ∷ s) h = elim (Bool-cases (space_width c s == 0)) [
    | inl e ↦ rw e h
    | inr e ↦ rw e (trim_left_from-All (space_width c s - 1) s h.1)
  ]

  pub trim_space-All : (s : Bytes) → All P s → All P (trim_space s)
  unfolding trim_space
  trim_space-All s h = trim_right_space-All _ (trim_left_from-All 0 s h)

  -- What `cut` leaves behind the separator.
  abbrev pub Behind : Option (Bytes × Bytes) → Type 0
  Behind none = Unit
  Behind (some (before, behind)) = All P behind

  pub cut-All : (sep : ℕ) (s : Bytes) → All P s → Behind (cut sep s)
  unfolding cut
  cut-All sep [] h = tt
  cut-All sep (c ∷ s) h = elim (Bool-cases (c == sep)) [
    | inl e ↦ rw e h.1
    | inr e ↦ elim (Option-cases (cut sep s)) [
      | inl n ↦ rw (e, n) tt
      | inr (p, q) ↦ rw (e, q) (subst Behind q (cut-All sep s h.1))
    ]
  ]
