-- ===== src/Extraction/Dedup/Verdict.antt =====
-- What each verdict of `subsumes` says of the two memories' tokens.
use context.Prelude.{
  ◌≡◌, refl, sym, List, Bool, true, false, length, arith, Subseq, inl, inr, Bool-cases, ◌≤◌, ltb,
  ◌||◌, ◌≢◌,
}
use context.Text.{Text, Unicode}
use context.Model.Content.{content_tokens}
use context.Extraction.Dedup.{
  Subsumption, distinct, equivalent, new_subsumes_old, old_subsumes_new, min_subsumption_tokens,
  has_polarity_marker, is_ordered_subsequence, bool_eq, verdict, subsumes_tokens, subsumes,
}
use context.Extraction.Dedup.Sequence.{is_ordered_subsequence_iff, Subseq-antisym}

-- Enough words on both sides to be evidence, and the same polarity.
pub record Comparable (xs ys : List Text) : Type 0 where
  pub long_left : min_subsumption_tokens ≤ length xs
  pub long_right : min_subsumption_tokens ≤ length ys
  pub polarity : has_polarity_marker xs ≡ has_polarity_marker ys

-- The tokens of the newer memory come first.
abbrev pub Describes : Subsumption → List Text → List Text → Type 0
Describes distinct new old =
    ¬ (Comparable new old × Subseq old new) × ¬ (Comparable new old × Subseq new old)
Describes equivalent new old = Comparable new old × (new ≡ old)
Describes new_subsumes_old new old = Comparable new old × Subseq old new × ¬ Subseq new old
Describes old_subsumes_new new old = Comparable new old × Subseq new old × ¬ Subseq old new

bool_eq→eq : (a b : Bool) → bool_eq a b ≡ true → a ≡ b
bool_eq→eq true b h = sym h
bool_eq→eq false true h = cc
bool_eq→eq false false h = refl

bool_eq-ne : (a b : Bool) → bool_eq a b ≡ false → a ≢ b
bool_eq-ne true true h = cc
bool_eq-ne true false h = λ e. cc
bool_eq-ne false true h = λ e. cc
bool_eq-ne false false h = cc

incomparable : (new old : List Text) → (Comparable new old → ⊥) → Describes distinct new old
incomparable new old h = (λ (c, p). h c, λ (c, p). h c)

refuted : (xs ys : List Text) → is_ordered_subsequence xs ys ≡ false → ¬ Subseq xs ys
refuted xs ys e p = cc ((is_ordered_subsequence_iff xs ys).1 p)

decided :
    (new old : List Text)
    → Comparable new old
    → Describes (verdict (is_ordered_subsequence old new) (is_ordered_subsequence new old)) new old
decided new old c =
    let sound = λ (xs ys : List Text). (is_ordered_subsequence_iff xs ys).0 in
    elim (Bool-cases (is_ordered_subsequence old new)) [
      | inl p ↦ elim (Bool-cases (is_ordered_subsequence new old)) [
        | inl q ↦ rw (p, q) (c, Subseq-antisym (sound new old q) (sound old new p))
        | inr q ↦ rw (p, q) (c, sound old new p, refuted new old q)
      ]
      | inr p ↦ elim (Bool-cases (is_ordered_subsequence new old)) [
        | inl q ↦ rw (p, q) (c, sound new old q, refuted old new p)
        | inr q ↦ rw (p, q) (λ (x, y). refuted old new p y, λ (x, y). refuted new old q y)
      ]
    ]

pub subsumes_tokens-Describes : (new old : List Text) → Describes (subsumes_tokens new old) new old
unfolding subsumes_tokens
subsumes_tokens-Describes new old = elim (Bool-cases (ltb (length new) 3 || ltb (length old) 3)) [
  | inl e ↦ rw e (incomparable new old (λ c. ground (arith, c.long_left, c.long_right)))
  | inr e ↦ elim (Bool-cases (bool_eq (has_polarity_marker new) (has_polarity_marker old))) [
    | inl f ↦
        rw (e, f)
          (decided new old (record {
            long_left = ground arith;
            long_right = ground arith;
            polarity = bool_eq→eq _ _ f;
          }))
    | inr f ↦ rw (e, f) (incomparable new old (λ c. bool_eq-ne _ _ f c.polarity))
  ]
]

-- Whatever the two contents, the verdict says what their tokens are to each other. Equivalent: both
-- have at least three tokens, the same polarity and the same tokens. One subsumes the other: the
-- same, but its tokens have the other's as a subsequence, and not conversely. Distinct: one is too
-- short, or the polarities differ, or neither is a subsequence of the other.
pub subsumes-Describes :
    (u : Unicode) (newer old : Text)
    → Describes (subsumes u newer old) (content_tokens u newer) (content_tokens u old)
unfolding subsumes
subsumes-Describes u newer old =
    subsumes_tokens-Describes (content_tokens u newer) (content_tokens u old)
