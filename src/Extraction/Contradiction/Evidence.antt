-- ===== src/Extraction/Contradiction/Evidence.antt =====
-- What a detected contradiction rests on.
use mathlib.Core.Path.{subst}
use context.Prelude.{
  sym, ℕ, ◌≡◌, ◌≢◌, inl, inr, refl, List, [], ◌∷◌, Bool, true, false, not, ◌||◌, Option, none, some,
  Option-cases, Bool-cases, arith, Member, here, there,
}
use context.Text.{Text, Unicode, contains, to_lower}
use context.Text.Words.{text_eq_iff}
use context.Model.Memory.{Memory}
use context.Extraction.Dedup.{bool_eq}
use context.Extraction.Contradiction.Words.{
  Share, at_least, keyword_overlap, tag_overlap_ratio, strip_negation_words, refines, has_any,
}
use context.Extraction.Contradiction.{
  Triple, Reason, replacement_signal, divergence, negation_conflict, shared_tags, Contradiction,
  replacement_signals, negations, extract_triples, find_signal, diverges, find_other,
  find_divergence, negates, shares_tags, strongest, detect_pair,
}

module _ (u : Unicode) where
  find_signal-some :
      (lower : Text) (o t : Share) (signals : List Text) (s : Text)
      → find_signal u lower o t signals ≡ some s
      → Member s signals
        × (contains lower s ≡ true)
        × ((at_least o 15 100 || at_least t 3 10) ≡ true)
  unfolding find_signal
  find_signal-some lower o t [] s h = cc
  find_signal-some lower o t (r ∷ signals) s h = elim (Bool-cases (contains lower r)) [
    | inl e ↦ elim (Bool-cases (at_least o 15 100 || at_least t 3 10)) [
      | inl near ↦ let same : r ≡ s = cc in (here (sym same), rw (← same) e, near)
      | inr far ↦
          let (x, y, z) = find_signal-some lower o t signals s (rw (e, far) at h) in (there x, y, z)
    ]
    | inr e ↦ let (x, y, z) = find_signal-some lower o t signals s (rw e at h) in (there x, y, z)
  ]

  pub record Divergence (nt ot : Triple) : Type 0 where
    pub subject : nt.subject ≡ ot.subject
    pub verb : nt.verb ≡ ot.verb
    pub objects : nt.object ≢ ot.object
    pub unrefined : refines u nt.object ot.object ≡ false

  diverges-Divergence : (nt ot : Triple) → diverges u nt ot ≡ true → Divergence nt ot
  unfolding diverges
  diverges-Divergence nt ot h = record {
    subject = (text_eq_iff nt.subject ot.subject).0 (ground arith);
    verb = (text_eq_iff nt.verb ot.verb).0 (ground arith);
    objects = λ e. ground (arith, (text_eq_iff nt.object ot.object).1 e);
    unrefined = ground arith;
  }

  find_other-some :
      (nt : Triple) (ots : List Triple) (ot : Triple)
      → find_other u nt ots ≡ some ot
      → Member ot ots × Divergence nt ot
  unfolding find_other
  find_other-some nt [] ot h = cc
  find_other-some nt (t ∷ ots) ot h = elim (Bool-cases (diverges u nt t)) [
    | inl e ↦ let same : t ≡ ot = cc in (here (sym same), rw (← same) (diverges-Divergence nt t e))
    | inr e ↦ let (x, y) = find_other-some nt ots ot (rw e at h) in (there x, y)
  ]

  find_divergence-some :
      (nts ots : List Triple) (nt ot : Triple)
      → find_divergence u nts ots ≡ some (nt, ot)
      → Member nt nts × Member ot ots × Divergence nt ot
  unfolding find_divergence
  find_divergence-some [] ots nt ot h = cc
  find_divergence-some (t ∷ nts) ots nt ot h = elim (Option-cases (find_other u t ots)) [
    | inl e ↦
        let (x, y, z) = find_divergence-some nts ots nt ot (rw (e, find_divergence) at h) in
        (there x, y, z)
    | inr (o, e) ↦
        let found : ◌≡◌ {A = Option (Triple × Triple)} (some (t, o)) (some (nt, ot)) =
          rw (e, find_divergence) at h in
        let first : t ≡ nt = cc in
        let second : o ≡ ot = cc in
        let (x, y) = find_other-some t ots o e in
        (here (sym first), rw (← second) x, rw (← first, ← second) y)
  ]

  module _ (new old : Memory) where
    abbrev lower_new : Text
    lower_new = to_lower u new.content

    abbrev lower_old : Text
    lower_old = to_lower u old.content

    abbrev overlap : Share
    overlap =
        keyword_overlap u (strip_negation_words u lower_new) (strip_negation_words u lower_old)

    -- What each reason says of the two memories, and its confidence.
    abbrev pub Evidence : Reason → ℕ → Type 0
    Evidence (replacement_signal s) c =
        Member s replacement_signals
        × (contains lower_new s ≡ true)
        × ((at_least (keyword_overlap u lower_new lower_old) 15 100
              || at_least (tag_overlap_ratio u new.tags old.tags) 3 10)
            ≡ true)
        × (c ≡ 90)
    Evidence (divergence nt ot) c =
        Member nt (extract_triples u lower_new)
        × Member ot (extract_triples u lower_old)
        × Divergence nt ot
        × (c ≡ 85)
    Evidence negation_conflict c =
        (has_any lower_new negations ≢ has_any lower_old negations)
        × (at_least overlap 4 10 ≡ true)
        × (c ≡ 80)
    Evidence shared_tags c =
        (at_least (tag_overlap_ratio u new.tags old.tags) 5 10 ≡ true)
        × (at_least overlap 3 10 ≡ true)
        × (at_least overlap 8 10 ≡ false)
        × (c ≡ 50)

    abbrev pub Supports : Contradiction → Type 0
    Supports c = (c.new_memory ≡ new) × (c.old_memory ≡ old) × Evidence c.reason c.confidence

    made : {c d : Contradiction} → some c ≡ some d → Supports c → Supports d
    made e x = subst Supports (cc) x

    polarity : (b c : Bool) → not (bool_eq b c) ≡ true → b ≢ c
    polarity true true h = cc
    polarity true false h = λ e. cc
    polarity false true h = λ e. cc
    polarity false false h = cc

    strongest-Supports :
        (c : Contradiction) (r : Option Text) (d : Option (Triple × Triple)) (n t : Bool)
        → find_signal u lower_new
            (keyword_overlap u lower_new lower_old)
            (tag_overlap_ratio u new.tags old.tags)
            replacement_signals
          ≡ r
        → find_divergence u (extract_triples u lower_new) (extract_triples u lower_old) ≡ d
        → negates u lower_new lower_old overlap ≡ n
        → shares_tags u new old overlap ≡ t
        → strongest u new old r d n t ≡ some c
        → Supports c
    unfolding strongest negates shares_tags
    strongest-Supports c (some s) d n t e1 e2 e3 e4 h =
        let (x, y, z) = find_signal-some _ _ _ _ s e1 in made h (refl, refl, (x, y, z, refl))
    strongest-Supports c none (some (nt, ot)) n t e1 e2 e3 e4 h =
        let (x, y, z) = find_divergence-some _ _ nt ot e2 in made h (refl, refl, (x, y, z, refl))
    strongest-Supports c none none true t e1 e2 e3 e4 h = made h (
      refl,
      refl,
      (
        polarity (has_any lower_new negations) (has_any lower_old negations) (ground arith),
        ground arith,
        refl,
      ),
    )
    strongest-Supports c none none false true e1 e2 e3 e4 h =
        made h (refl, refl, (ground arith, ground arith, ground arith, refl))
    strongest-Supports c none none false false e1 e2 e3 e4 h = cc

    -- A contradiction names the two memories, and its reason holds of them: a replacement signal of
    -- the list that the new text contains, with enough overlap of words or tags; two triples of the
    -- texts with one subject and verb whose objects differ and do not refine each other; enough
    -- overlap and exactly one negated text; or enough shared tags and a moderate overlap. The
    -- confidence is 0.9, 0.85, 0.8 or 0.5 by the reason.
    pub detect_pair-Supports : (c : Contradiction) → detect_pair u new old ≡ some c → Supports c
    unfolding detect_pair
    detect_pair-Supports c h = strongest-Supports c _ _ _ _ refl refl refl refl h
