-- ===== src/Extraction/Contradiction.antt =====
-- Conflicts between a new memory and the stored ones (internal/extraction/contradiction.go). A
-- share, a float64 in the source, is a numerator and a denominator, and is compared exactly.
pub mod Words
pub mod Overlap
pub mod Refines
pub mod Evidence
pub mod Detection
use context.Prelude.{
  ℕ, ◌+◌, ◌-◌, ◌*◌, List, [], ◌∷◌, ◌++◌, Bool, true, false, ◌&&◌, ◌||◌, not, if◌then◌else◌, leb,
  ltb, ◌==◌, length, take, drop, Option, none, some, map,
}
use context.Text.{
  Text, Unicode, codes, text_eq, text_mem, to_lower, contains, index, trim_space, is_empty,
}
use context.Model.Memory.{Memory, semantic, type_eq}
use context.Extraction.Dedup.{bool_eq, is_nil}
use context.Extraction.Contradiction.Words.{
  Share, at_least, keyword_overlap, tag_overlap_ratio, strip_negation_words, refines, last_words,
  first_words, has_any,
}

pub record Triple : Type 0 where
  pub subject : Text
  pub verb : Text
  pub object : Text

-- `Reason`, before it is put into words.
pub data Reason : Type 0 where
  replacement_signal : Text → Reason
  divergence : Triple → Triple → Reason
  negation_conflict : Reason
  shared_tags : Reason

-- The confidence is in hundredths.
pub record Contradiction : Type 0 where
  pub new_memory : Memory
  pub old_memory : Memory
  pub reason : Reason
  pub confidence : ℕ

unfoldable pub reason_text : Reason → Text
reason_text (replacement_signal s) = codes "replacement signal: " ++ s
reason_text (divergence nt ot) =
    nt.subject
    ++ (codes " " ++ (nt.verb ++ (codes ": " ++ (nt.object ++ (codes " vs " ++ ot.object)))))
reason_text negation_conflict = codes "negation conflict with high similarity"
reason_text shared_tags = codes "shared tags with divergent content"

unfoldable pub replacement_signals : List Text
replacement_signals = map codes (
    "switched to" ∷ "migrated to" ∷ "changed to" ∷ "moved to" ∷ "replaced" ∷ "no longer"
    ∷ "instead of" ∷ "not anymore" ∷ "updated to" ∷ "upgraded to" ∷ "downgraded to" ∷ [])

unfoldable pub verbs : List Text
verbs = map codes (
    " uses " ∷ " is " ∷ " runs " ∷ " has " ∷ " prefers " ∷ " requires " ∷ " supports "
    ∷ " includes " ∷ " contains " ∷ " speaks " ∷ " lives in " ∷ " works at " ∷ " works for "
    ∷ " costs " ∷ " weighs " ∷ " measures " ∷ " takes " ∷ [])

unfoldable pub negations : List Text
negations = map codes (
    "not " ∷ "don't " ∷ "doesn't " ∷ "no longer " ∷ "never " ∷ "isn't " ∷ "aren't " ∷ "wasn't "
    ∷ [])

module _ (u : Unicode) where
  -- A round of the loop of `extractTriples`: the triples of the verb, none or one.
  unfoldable pub triples_at : Text → Text → Option ℕ → List Triple
  triples_at text verb none = []
  triples_at text verb (some i) =
      let subject = last_words u (trim_space u (take i text)) 3 in
      let object = first_words u (trim_space u (drop (i + length verb) text)) 3 in
      if not (is_empty subject) && not (is_empty object)
      then record { subject = subject; verb = trim_space u verb; object = object } ∷ []
      else []

  unfoldable pub triples_of : Text → List Text → List Triple
  unfolding triples_at
  triples_of text [] = []
  triples_of text (verb ∷ vs) = triples_at text verb (index text verb) ++ triples_of text vs

  unfoldable pub extract_triples : Text → List Triple
  unfolding triples_of verbs
  extract_triples text = triples_of text verbs

  -- Strategy 1: the first signal in the new text, if the two are about the same.
  unfoldable pub find_signal : Text → Share → Share → List Text → Option Text
  find_signal new_lower overlap tag_overlap [] = none
  find_signal new_lower overlap tag_overlap (s ∷ signals) =
      let later = find_signal new_lower overlap tag_overlap signals in
      if contains new_lower s
      then (if at_least overlap 15 100 || at_least tag_overlap 3 10 then some s else later)
      else later

  -- Strategy 2: one subject and verb with two objects.
  unfoldable pub diverges : Triple → Triple → Bool
  unfolding refines
  diverges nt ot =
      text_eq nt.subject ot.subject
      && (text_eq nt.verb ot.verb
          && (not (text_eq nt.object ot.object) && not (refines u nt.object ot.object)))

  unfoldable pub find_other : Triple → List Triple → Option Triple
  unfolding diverges
  find_other nt [] = none
  find_other nt (ot ∷ ots) =
      let later = find_other nt ots in if diverges nt ot then some ot else later

  unfoldable pub find_divergence : List Triple → List Triple → Option (Triple × Triple)
  unfolding find_other
  find_divergence [] ots = none
  find_divergence (nt ∷ nts) ots = elim (find_other nt ots) [
    | some ot ↦ some (nt, ot)
    | none ↦ find_divergence nts ots
  ]

  -- Strategies 3 and 4.
  unfoldable pub negates : Text → Text → Share → Bool
  negates new_lower old_lower overlap =
      at_least overlap 4 10
      && not (bool_eq (has_any new_lower negations) (has_any old_lower negations))

  unfoldable pub shares_tags : Memory → Memory → Share → Bool
  shares_tags new old overlap =
      not (is_nil new.tags)
      && (not (is_nil old.tags)
          && (at_least (tag_overlap_ratio u new.tags old.tags) 5 10
              && (at_least overlap 3 10 && not (at_least overlap 8 10))))

  -- The first strategy that finds something.
  unfoldable pub strongest :
      Memory → Memory → Option Text → Option (Triple × Triple) → Bool → Bool → Option Contradiction
  strongest new old (some s) _ _ _ = some (record {
    new_memory = new;
    old_memory = old;
    reason = replacement_signal s;
    confidence = 90;
  })
  strongest new old none (some (nt, ot)) _ _ =
      some
        (record { new_memory = new; old_memory = old; reason = divergence nt ot; confidence = 85 })
  strongest new old none none true _ =
      some
        (record { new_memory = new; old_memory = old; reason = negation_conflict; confidence = 80 })
  strongest new old none none false true =
      some (record { new_memory = new; old_memory = old; reason = shared_tags; confidence = 50 })
  strongest new old none none false false = none

  unfoldable pub detect_pair : Memory → Memory → Option Contradiction
  unfolding find_signal find_divergence negates shares_tags extract_triples strongest
  detect_pair new old =
      let new_lower = to_lower u new.content in
      let old_lower = to_lower u old.content in
      let overlap =
        keyword_overlap u (strip_negation_words u new_lower) (strip_negation_words u old_lower) in
      strongest new old
        (find_signal new_lower (keyword_overlap u new_lower old_lower)
          (tag_overlap_ratio u new.tags old.tags) replacement_signals)
        (find_divergence (extract_triples new_lower) (extract_triples old_lower))
        (negates new_lower old_lower overlap) (shares_tags new old overlap)

  -- The test that passes over a stored memory.
  unfoldable pub skips : Memory → Memory → Bool
  skips new old =
      (old.id == new.id)
      || (not (type_eq old.type semantic) || not (text_eq old.project_id new.project_id))

  unfoldable pub append_found : Option Contradiction → List Contradiction → List Contradiction
  append_found none later = later
  append_found (some c) later = c ∷ later

  -- The loop of `DetectContradictions`.
  unfoldable pub detect_among : Memory → List Memory → List Contradiction
  unfolding skips append_found detect_pair
  detect_among new [] = []
  detect_among new (old ∷ existing) =
      let later = detect_among new existing in
      if skips new old then later else append_found (detect_pair new old) later

  unfoldable pub detect_contradictions : Memory → List Memory → List Contradiction
  unfolding detect_among
  detect_contradictions new existing =
      if not (type_eq new.type semantic) then [] else detect_among new existing
