-- ===== src/Extraction/Dedup.antt =====
-- When two memories say the same thing (internal/extraction/dedup.go).
pub mod Sequence
pub mod Verdict
pub mod Tags
pub mod Folding
pub mod Entities
use context.Prelude.{
  ℕ, List, [], ◌∷◌, ◌++◌, Bool, true, false, ◌&&◌, ◌||◌, not, if◌then◌else◌, ltb, leb, length,
  Option, none, some, map, String,
}
use context.Text.{Text, Unicode, codes, text_eq, text_mem, is_empty, to_lower, trim_space}
use context.Model.Content.{content_tokens}
use context.Model.Memory.{MemoryType, type_eq}

pub data Subsumption : Type 0 where
  distinct equivalent new_subsumes_old old_subsumes_new : Subsumption

-- `ExtractedMemory` of extractor.go
pub record ExtractedMemory : Type 0 where
  pub content : Text
  pub type : MemoryType
  pub tags : List Text
  pub entities : List Text

-- minSubsumptionTokens
abbrev pub min_subsumption_tokens : ℕ
min_subsumption_tokens = 3

-- polarityTokens: negation, denial, hedges
unfoldable pub polarity_tokens : List Text
polarity_tokens = map codes (
    "not" ∷ "never" ∷ "no" ∷ "none" ∷ "don't" ∷ "doesn't" ∷ "didn't" ∷ "isn't" ∷ "aren't" ∷ "wasn't"
    ∷ "weren't" ∷ "cannot" ∷ "can't" ∷ "won't" ∷ "wouldn't" ∷ "hasn't" ∷ "haven't" ∷ "hadn't"
    ∷ "couldn't" ∷ "shouldn't" ∷ "nor" ∷ "neither" ∷ "nothing" ∷ "nobody" ∷ "without" ∷ "unless"
    ∷ "denies" ∷ "denied" ∷ "deny" ∷ "denying" ∷ "disputes" ∷ "disputed" ∷ "dispute" ∷ "refuses"
    ∷ "refused" ∷ "refuse" ∷ "doubts" ∷ "doubted" ∷ "doubt" ∷ "rejects" ∷ "rejected" ∷ "reject"
    ∷ "stopped" ∷ "quit" ∷ "former" ∷ "formerly" ∷ "ex" ∷ "no-longer" ∷ "might" ∷ "maybe"
    ∷ "perhaps" ∷ "possibly" ∷ "probably" ∷ "allegedly" ∷ "supposedly" ∷ "unlikely" ∷ "hopes"
    ∷ "hoped" ∷ "plans" ∷ "planned" ∷ "wants" ∷ "wanted" ∷ "considering" ∷ "if" ∷ "whether"
    ∷ "would" ∷ "could" ∷ [])

unfoldable pub has_polarity_marker : List Text → Bool
has_polarity_marker [] = false
has_polarity_marker (t ∷ ts) = text_mem t polarity_tokens || has_polarity_marker ts

-- The loop of `isOrderedSubsequence`: what stays of `inner`, `inner[i:]`, after the walk.
unfoldable pub unmatched : List Text → List Text → List Text
unmatched inner [] = inner
unmatched [] (o ∷ outer) = unmatched [] outer
unmatched (t ∷ inner) (o ∷ outer) = unmatched (if text_eq t o then inner else t ∷ inner) outer

abbrev pub is_nil {ℓ} : {A : Type ℓ} → List A → Bool
is_nil [] = true
is_nil (x ∷ xs) = false

unfoldable pub is_ordered_subsequence : List Text → List Text → Bool
unfolding unmatched
is_ordered_subsequence inner outer =
    if ltb (length outer) (length inner) then false else is_nil (unmatched inner outer)

abbrev pub bool_eq : Bool → Bool → Bool
bool_eq true b = b
bool_eq false b = not b

-- the `switch` of `Subsumes`
abbrev pub verdict : Bool → Bool → Subsumption
verdict true true = equivalent
verdict true false = new_subsumes_old
verdict false true = old_subsumes_new
verdict false false = distinct

unfoldable pub subsumes_tokens : List Text → List Text → Subsumption
subsumes_tokens new_tokens old_tokens =
    if ltb (length new_tokens) min_subsumption_tokens
      || ltb (length old_tokens) min_subsumption_tokens
    then distinct
    else if not (bool_eq (has_polarity_marker new_tokens) (has_polarity_marker old_tokens))
    then distinct
    else verdict (is_ordered_subsequence old_tokens new_tokens)
        (is_ordered_subsequence new_tokens old_tokens)

unfoldable pub subsumes : Unicode → Text → Text → Subsumption
unfolding subsumes_tokens
subsumes u newer old = subsumes_tokens (content_tokens u newer) (content_tokens u old)

-- the key by which `unionTags` compares
unfoldable pub tag_key : Unicode → Text → Text
tag_key u t = to_lower u (trim_space u t)

-- The loop of `unionTags`, with the keys that were seen.
unfoldable pub unseen_tags : Unicode → List Text → List Text → List Text
unseen_tags u seen [] = []
unseen_tags u seen (t ∷ ts) =
    let key = tag_key u t in
    let skipped = unseen_tags u seen ts in
    let added = unseen_tags u (key ∷ seen) ts in
    if is_empty key || text_mem key seen then skipped else t ∷ added

unfoldable pub union_tags : Unicode → List Text → List Text → List Text
unfolding unseen_tags
union_tags u a b = unseen_tags u [] (a ++ b)

-- The inner loop of `FoldRedundant`: the kept memories once `m` is merged into the first that
-- says the same thing, or `none` if none does.
unfoldable pub merge_into :
    Unicode → ExtractedMemory → List ExtractedMemory → Option (List ExtractedMemory)
merge_into u m [] = none
merge_into u m (k ∷ ks) =
    let merged = record k { tags = union_tags u k.tags m.tags } in
    let later : Option (List ExtractedMemory) = elim (merge_into u m ks) [
      | none ↦ none
      | some ks' ↦ some (k ∷ ks')
    ] in
    if type_eq k.type m.type
    then (elim (subsumes u m.content k.content) [
      | new_subsumes_old ↦ some (record merged { content = m.content } ∷ ks)
      | equivalent ↦ some (record merged { content = m.content } ∷ ks)
      | old_subsumes_new ↦ some (merged ∷ ks)
      | distinct ↦ later
    ])
    else later

-- The outer loop of `FoldRedundant`.
unfoldable pub fold_step : Unicode → List ExtractedMemory → ExtractedMemory → List ExtractedMemory
unfolding merge_into
fold_step u kept m = elim (merge_into u m kept) [ none ↦ kept ++ (m ∷ []) | some ks ↦ ks ]

unfoldable pub fold_from :
    Unicode → List ExtractedMemory → List ExtractedMemory → List ExtractedMemory
unfolding fold_step
fold_from u kept [] = kept
fold_from u kept (m ∷ ms) = fold_from u (fold_step u kept m) ms

unfoldable pub fold_redundant : Unicode → List ExtractedMemory → List ExtractedMemory
unfolding fold_from
fold_redundant u memories = fold_from u [] memories
