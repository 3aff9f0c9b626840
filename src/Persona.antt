-- ===== src/Persona.antt =====
-- bpserver/server.go: the ids of personas. The counter is an int64 that no run counts to its end.
use burnout_paradise_server.Common.{
  ℕ, ◌+◌, ◌≤◌, ◌<◌, ◌≡◌, ◌≢◌, refl, sym, ap, ==_iff, ◌∙◌, List, [], ◌∷◌, true, false, not, inl, inr,
  arith, Bytes, bytes_eq, bytes_eq_refl, bytes_eq_sound, Bool-cases, if◌then◌else◌, ◌==◌, if_both,
}
use burnout_paradise_server.Types.{Server}

-- An entry of the map, and 0 for a missing key.
unfoldable pub id_of : Bytes → List (Bytes × ℕ) → ℕ
id_of persona [] = 0
id_of persona ((key, id) ∷ ids) =
    let rest = id_of persona ids in if bytes_eq key persona then id else rest

pub persona_id_for : Server → Bytes → Server × ℕ
persona_id_for s persona =
    let id = id_of persona s.persona_ids in
    if not (id == 0) then (s, id) else (
      record s {
        next_persona_id = s.next_persona_id + 1;
        persona_ids = (persona, s.next_persona_id) ∷ s.persona_ids;
      },
      s.next_persona_id,
    )

-- Ids that were given out are positive, below the next one, and each has one persona.
pub record AreAssigned (next : ℕ) (ids : List (Bytes × ℕ)) : Type 0 where
  pub positive : 1 ≤ next
  pub below : (p : Bytes) → id_of p ids < next
  pub single : (p q : Bytes) → id_of p ids ≢ 0 → id_of p ids ≡ id_of q ids → p ≡ q

id_here :
    (p persona : Bytes) (id : ℕ) (ids : List (Bytes × ℕ))
    → bytes_eq persona p ≡ true
    → id_of p ((persona, id) ∷ ids) ≡ id
unfolding id_of
id_here p persona id ids e = rw e refl

id_there :
    (p persona : Bytes) (id : ℕ) (ids : List (Bytes × ℕ))
    → bytes_eq persona p ≡ false
    → id_of p ((persona, id) ∷ ids) ≡ id_of p ids
unfolding id_of
id_there p persona id ids e = rw e refl

insert-AreAssigned :
    (next : ℕ) (ids : List (Bytes × ℕ)) (persona : Bytes)
    → AreAssigned next ids
    → AreAssigned (next + 1) ((persona, next) ∷ ids)
unfolding id_of
insert-AreAssigned next ids persona a = record {
  positive = omega arith;
  below = λ p. elim (Bool-cases (bytes_eq persona p)) [
    | inl e ↦ rw (id_of, e) (omega arith)
    | inr e ↦ rw (id_of, e) (omega (arith, a.below p))
  ];
  single = λ p q n h. elim (Bool-cases (bytes_eq persona p)) [
    | inl e ↦ elim (Bool-cases (bytes_eq persona q)) [
      | inl f ↦ sym (bytes_eq_sound persona p e) ∙ bytes_eq_sound persona q f
      | inr f ↦
          absurd (
            omega
              (arith, h, id_here p persona next ids e, id_there q persona next ids f, a.below q))
    ]
    | inr e ↦ elim (Bool-cases (bytes_eq persona q)) [
      | inl f ↦
          absurd (
            omega
              (arith, h, id_there p persona next ids e, id_here q persona next ids f, a.below p))
      | inr f ↦
          a.single p q (λ z. n (id_there p persona next ids e ∙ z))
            (sym (id_there p persona next ids e) ∙ h ∙ id_there q persona next ids f)
    ]
  ];
}

-- What a call leaves behind: the ids are still one for each persona, the id that is returned is positive and
-- the persona's, and every persona that had an id keeps it.
abbrev pub Assigns : Server → Bytes → Server × ℕ → Type 0
Assigns s persona (s', id) =
    AreAssigned s'.next_persona_id s'.persona_ids
    × (1 ≤ id)
    × (id_of persona s'.persona_ids ≡ id)
    × ((p : Bytes) → id_of p s.persona_ids ≢ 0 → id_of p s'.persona_ids ≡ id_of p s.persona_ids)

-- If the ids that were given out are positive, below the next one and one for each persona, a call leaves
-- them so. It returns a positive id, which is the persona's from then on, and every persona that had an id
-- keeps it.
pub persona_id_for_lem :
    (s : Server) (persona : Bytes)
    → AreAssigned s.next_persona_id s.persona_ids
    → Assigns s persona (persona_id_for s persona)
unfolding persona_id_for
persona_id_for_lem s persona a = elim (Bool-cases (id_of persona s.persona_ids == 0)) [
  | inr known ↦ rw (persona_id_for, known) (a, ground arith, refl, λ p n. refl)
  | inl new ↦
      rw (persona_id_for, new)
        (
          insert-AreAssigned s.next_persona_id s.persona_ids persona a,
          a.positive,
          id_here persona persona s.next_persona_id s.persona_ids (bytes_eq_refl persona),
          λ p n. elim (Bool-cases (bytes_eq persona p)) [
            | inr e ↦ id_there p persona s.next_persona_id s.persona_ids e
            | inl e ↦ absurd (
                n (
                  ap (λ k. id_of k s.persona_ids) (sym (bytes_eq_sound persona p e))
                  ∙ (==_iff _ 0).0 new))
          ],
        )
]

pub persona_id_for-lobby :
    (s : Server) (persona : Bytes) → (persona_id_for s persona).0.lobby ≡ s.lobby
unfolding persona_id_for
persona_id_for-lobby s persona = if_both (λ (o : Server × ℕ). o.0.lobby ≡ s.lobby) _ _ _ refl refl

pub no_ids : AreAssigned 1 []
unfolding id_of
no_ids = record {
  positive = omega arith;
  below = λ p. omega arith;
  single = λ p q n h. absurd (n refl);
}
