-- ===== src/Extraction/Dedup/Sequence.antt =====
-- `is_ordered_subsequence` decides the inductive relation `Subseq`, which is a partial order.
use context.Prelude.{
  ◌≡◌, refl, ap₂, ◌↔◌, List, [], ◌∷◌, true, length, arith, Subseq, done, keep, skip, inl, inr,
  Bool-cases, ◌≤◌, ◌∙◌, ltb,
}
use mathlib.Core.Bool.{false≢true}
use context.Text.{Text, text_eq}
use context.Text.Words.{text_eq_iff}
use context.Extraction.Dedup.{unmatched, is_nil, is_ordered_subsequence}

module _ {ℓ} {A : Type ℓ} where
  pub Subseq-refl : (xs : List A) → Subseq xs xs
  Subseq-refl [] = done
  Subseq-refl (x ∷ xs) = keep refl (Subseq-refl xs)

  pub Subseq-trans : {xs ys zs : List A} → Subseq xs ys → Subseq ys zs → Subseq xs zs
  Subseq-trans done q = done
  Subseq-trans p (skip q) = skip (Subseq-trans p q)
  Subseq-trans (keep e p) (keep f q) = keep (e ∙ f) (Subseq-trans p q)
  Subseq-trans (skip p) (keep f q) = skip (Subseq-trans p q)

  pub Subseq-length : {xs ys : List A} → Subseq xs ys → length xs ≤ length ys
  Subseq-length done = omega arith
  Subseq-length (keep e p) = omega (arith, Subseq-length p)
  Subseq-length (skip p) = omega (arith, Subseq-length p)

  pub Subseq-antisym : {xs ys : List A} → Subseq xs ys → Subseq ys xs → xs ≡ ys
  Subseq-antisym done done = refl
  Subseq-antisym (keep e p) (keep f q) = ap₂ ◌∷◌ e (Subseq-antisym p q)
  Subseq-antisym (keep e p) (skip q) = absurd (omega (arith, Subseq-length p, Subseq-length q))
  Subseq-antisym (skip p) q = absurd (omega (arith, Subseq-length p, Subseq-length q))

  -- The head of the inner list may be matched as early as possible.
  pub Subseq-tail : {x : A} {xs ys : List A} → Subseq (x ∷ xs) ys → Subseq xs ys
  Subseq-tail (keep e p) = skip p
  Subseq-tail (skip p) = skip (Subseq-tail p)

unmatched→Subseq :
    (inner outer : List Text) → is_nil (unmatched inner outer) ≡ true → Subseq inner outer
unfolding unmatched
unmatched→Subseq [] outer h = done
unmatched→Subseq (t ∷ inner) [] h = cc
unmatched→Subseq (t ∷ inner) (o ∷ outer) h = elim (Bool-cases (text_eq t o)) [
  | inl e ↦ keep ((text_eq_iff t o).0 e) (unmatched→Subseq inner outer (rw e at h))
  | inr e ↦ skip (unmatched→Subseq (t ∷ inner) outer (rw e at h))
]

unmatched-nil : (outer : List Text) → unmatched [] outer ≡ []
unfolding unmatched
unmatched-nil [] = refl
unmatched-nil (o ∷ outer) = unmatched-nil outer

Subseq→unmatched :
    (inner outer : List Text) → Subseq inner outer → is_nil (unmatched inner outer) ≡ true
unfolding unmatched
Subseq→unmatched [] outer p = rw (unmatched-nil outer)
Subseq→unmatched (t ∷ inner) [] p = elim p [ ]
Subseq→unmatched (t ∷ inner) (o ∷ outer) (keep e p) =
    rw ((text_eq_iff t o).1 e) (Subseq→unmatched inner outer p)
Subseq→unmatched (t ∷ inner) (o ∷ outer) (skip p) = elim (Bool-cases (text_eq t o)) [
  | inl e ↦ rw e (Subseq→unmatched inner outer (Subseq-tail p))
  | inr e ↦ rw e (Subseq→unmatched (t ∷ inner) outer p)
]

-- The greedy walk answers whether the one list is a subsequence of the other, whatever the lists.
pub is_ordered_subsequence_iff :
    (inner outer : List Text) → (is_ordered_subsequence inner outer ≡ true) ↔ Subseq inner outer
unfolding is_ordered_subsequence
is_ordered_subsequence_iff inner outer = elim (Bool-cases (ltb (length outer) (length inner))) [
  | inl e ↦ rw e (λ h. absurd (false≢true h), λ p. absurd (ground (arith, Subseq-length p)))
  | inr e ↦ rw e (unmatched→Subseq inner outer, Subseq→unmatched inner outer)
]
