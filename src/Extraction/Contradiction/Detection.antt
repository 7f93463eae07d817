-- ===== src/Extraction/Contradiction/Detection.antt =====
-- Which stored memories a new one is found to contradict.

use context.Prelude.{
  ◌≡◌, ◌≢◌, ◌↔◌, ◌⊎◌, inl, inr, refl, List, [], ◌∷◌, false, Option, none, some, Bool-cases, arith,
  Member, here, there, ==_iff,
}
use context.Text.{Unicode}
use context.Text.Words.{text_eq_iff}
use context.Model.Memory.{Memory, semantic, type_eq, type_eq_iff}
use context.Extraction.Contradiction.{
  Contradiction, skips, append_found, detect_pair, detect_among, detect_contradictions,
}

module _ (u : Unicode) where
  -- The memories that a new one is compared with.
  abbrev pub Comparable : Memory → Memory → Type 0
  Comparable new old = (old.id ≢ new.id) × (old.type ≡ semantic) × (old.project_id ≡ new.project_id)

  skips-Comparable : (new old : Memory) → skips u new old ≡ false → Comparable new old
  unfolding skips
  skips-Comparable new old h = (
    λ e. ground (arith, ==_iff old.id new.id, e),
    (type_eq_iff old.type semantic).0 (ground arith),
    (text_eq_iff old.project_id new.project_id).0 (ground arith),
  )

  Comparable-skips : (new old : Memory) → Comparable new old → skips u new old ≡ false
  unfolding skips
  Comparable-skips new old (i, t, p) = ground (
    arith,
    ==_iff old.id new.id,
    (type_eq_iff old.type semantic).1 t,
    (text_eq_iff old.project_id new.project_id).1 p,
  )

  -- The pair with a stored memory yields the contradiction.
  abbrev pub Found : Memory → List Memory → Contradiction → Type 0
  Found new existing c =
      (old : Memory) × Member old existing × Comparable new old × (detect_pair u new old ≡ some c)

  append_found-Member :
      (r : Option Contradiction) (later : List Contradiction) (c : Contradiction)
      → Member c (append_found u r later)
      → (r ≡ some c) ⊎ Member c later
  unfolding append_found
  append_found-Member none later c m = inr m
  append_found-Member (some d) later c (here e) = inl (rw e refl)
  append_found-Member (some d) later c (there m) = inr m

  detect_among_sound :
      (new : Memory) (existing : List Memory) (c : Contradiction)
      → Member c (detect_among u new existing)
      → Found new existing c
  unfolding detect_among
  detect_among_sound new [] c m = elim m [ ]
  detect_among_sound new (old ∷ existing) c m =
      let later : Member c (detect_among u new existing) → Found new (old ∷ existing) c =
        λ x. let (o, y, z, e) = detect_among_sound new existing c x in (o, there y, z, e) in
      elim (Bool-cases (skips u new old)) [
        | inl e ↦ later (rw (e, detect_among) at m)
        | inr e ↦ (elim (append_found-Member _ _ c (rw (e, detect_among) at m)) [
          | inl f ↦ (old, here refl, skips-Comparable new old e, f)
          | inr x ↦ later x
        ])
      ]

  append_found_there :
      (r : Option Contradiction) (later : List Contradiction) (c : Contradiction)
      → Member c later
      → Member c (append_found u r later)
  unfolding append_found
  append_found_there none later c m = m
  append_found_there (some d) later c m = there m

  detect_among_complete :
      (new : Memory) (existing : List Memory) (c : Contradiction) (old : Memory)
      → Member old existing
      → Comparable new old
      → detect_pair u new old ≡ some c
      → Member c (detect_among u new existing)
  unfolding detect_among append_found
  detect_among_complete new [] c old m k e = elim m [ ]
  detect_among_complete new (o ∷ existing) c old (here same) k e =
      rw (← same, Comparable-skips new old k, detect_among, e) (here refl)
  detect_among_complete new (o ∷ existing) c old (there m) k e =
      let later = detect_among_complete new existing c old m k e in
      elim (Bool-cases (skips u new o)) [
        | inl x ↦ rw (x, detect_among) later
        | inr x ↦ rw (x, detect_among) (append_found_there (detect_pair u new o) _ c later)
      ]

  -- A contradiction is reported exactly when the new memory is semantic and the contradiction is
  -- what the pair of it and a stored memory yields that has another id, is semantic and is of the
  -- same project.
  pub detect_contradictions-Member_iff :
      (new : Memory) (existing : List Memory) (c : Contradiction)
      → (Member c (detect_contradictions u new existing)
          ↔ ((new.type ≡ semantic) × Found new existing c))
  unfolding detect_contradictions
  detect_contradictions-Member_iff new existing c = elim (Bool-cases (type_eq new.type semantic)) [
    | inl t ↦
        rw (t, detect_contradictions)
          (
            λ m. ((type_eq_iff new.type semantic).0 t, detect_among_sound new existing c m),
            λ (k, (o, x, y, e)). detect_among_complete new existing c o x y e,
          )
    | inr f ↦
        rw (f, detect_contradictions)
          (λ m. elim m [ ], λ (k, x). ground (arith, f, (type_eq_iff new.type semantic).1 k))
  ]
