-- ===== src/Extraction/Contradiction/Refines.antt =====
-- One object refines another when the words of one begin with those of the other.
use context.Prelude.{
  ◌≤◌, ◌≡◌, ◌≢◌, ◌↔◌, ◌⊎◌, inl, inr, refl, List, [], ◌∷◌, ◌++◌, true, false, length, arith,
  Bool-cases, ltb, length-append, append-nil, ◌∙◌, if◌then◌else◌, ◌||◌, sym, ap,
}
use context.Extraction.Dedup.{is_nil}
use context.Text.{Text, Unicode, fields}
use context.Text.Words.{text_eq_iff}
use context.Extraction.Contradiction.Words.{word_prefix, refines}

abbrev pub Begins : List Text → List Text → Type 0
Begins aw bw = (rest : List Text) × (bw ≡ aw ++ rest)

-- From the first words and the rest.
prefix_step :
    (w v : Text) (aw bw : List Text)
    → (word_prefix aw bw ≡ true) ↔ Begins aw bw
    → (word_prefix (w ∷ aw) (v ∷ bw) ≡ true) ↔ Begins (w ∷ aw) (v ∷ bw)
unfolding word_prefix
prefix_step w v aw bw ih = (into, back)
  where
    into : word_prefix (w ∷ aw) (v ∷ bw) ≡ true → Begins (w ∷ aw) (v ∷ bw)
    into h =
        let (rest, e) = ih.0 (ground arith) in
        let same : v ≡ w = (text_eq_iff v w).0 (ground arith) in (rest, rw (same, e) refl)

    back : Begins (w ∷ aw) (v ∷ bw) → word_prefix (w ∷ aw) (v ∷ bw) ≡ true
    back (rest, e) =
        let same : v ≡ w = cc in
        let tail : bw ≡ aw ++ rest = cc in rw ((text_eq_iff v w).1 same, ih.1 (rest, tail)) refl

word_prefix_iff : (aw bw : List Text) → (word_prefix aw bw ≡ true) ↔ Begins aw bw
unfolding word_prefix
word_prefix_iff [] bw = (λ h. (bw, refl), λ h. refl)
word_prefix_iff (w ∷ aw) [] = (λ h. ground arith, λ (rest, e). cc)
word_prefix_iff (w ∷ aw) (v ∷ bw) = prefix_step w v aw bw (word_prefix_iff aw bw)

Begins-le : (aw bw : List Text) → Begins aw bw → length aw ≤ length bw
Begins-le aw bw (rest, e) = omega (arith, ap length e, length-append aw rest)

-- What begins with all of a list that is no shorter is that list.
Begins-flip : (aw bw : List Text) → length aw ≤ length bw → Begins bw aw → Begins aw bw
Begins-flip aw bw h ([], e) = ([], sym (append-nil aw ∙ e ∙ append-nil bw))
Begins-flip aw bw h (t ∷ rest, e) = ground (arith, ap length e, length-append bw (t ∷ rest))

-- `refines` on the words.
words_iff :
    (aw bw : List Text)
    → ((if is_nil aw || is_nil bw
          then false
          else if ltb (length bw) (length aw)
          then word_prefix bw aw
          else word_prefix aw bw)
        ≡ true)
      ↔ ((aw ≢ []) × (bw ≢ []) × (Begins aw bw ⊎ Begins bw aw))
words_iff [] bw = (λ h. cc, λ (p, q, r). elim (p refl) [ ])
words_iff (w ∷ aw) [] = (λ h. cc, λ (p, q, r). elim (q refl) [ ])
words_iff (w ∷ aw) (v ∷ bw) = elim (Bool-cases (ltb (length (v ∷ bw)) (length (w ∷ aw)))) [
  | inl longer ↦ rw longer (
    λ h. (λ e. cc, λ e. cc, inr ((word_prefix_iff (v ∷ bw) (w ∷ aw)).0 h)),
    λ (p, q, r). elim r [
      | inl x ↦ ground (arith, longer, Begins-le (w ∷ aw) (v ∷ bw) x)
      | inr x ↦ (word_prefix_iff (v ∷ bw) (w ∷ aw)).1 x
    ],
  )
  | inr shorter ↦ rw shorter (
    λ h. (λ e. cc, λ e. cc, inl ((word_prefix_iff (w ∷ aw) (v ∷ bw)).0 h)),
    λ (p, q, r). elim r [
      | inl x ↦ (word_prefix_iff (w ∷ aw) (v ∷ bw)).1 x
      | inr x ↦
          (word_prefix_iff (w ∷ aw) (v ∷ bw)).1
            (Begins-flip (w ∷ aw) (v ∷ bw) (ground (arith, shorter)) x)
    ],
  )
]

-- `refines` holds exactly when both objects have words and the words of one begin with all the
-- words of the other, in whichever order the two are given.
pub refines_iff :
    (u : Unicode) (a b : Text)
    → (refines u a b ≡ true) ↔ (
        (fields u.is_space a ≢ [])
        × (fields u.is_space b ≢ [])
        × (Begins (fields u.is_space a) (fields u.is_space b)
            ⊎ Begins (fields u.is_space b) (fields u.is_space a)))
unfolding refines
refines_iff u a b = words_iff (fields u.is_space a) (fields u.is_space b)
