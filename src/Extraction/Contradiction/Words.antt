-- ===== src/Extraction/Contradiction/Words.antt =====
-- The words that two texts share, and the objects that refine each other.
use context.Prelude.{
  ℕ, ◌+◌, ◌-◌, ◌*◌, List, [], ◌∷◌, Bool, true, false, ◌&&◌, ◌||◌, not, if◌then◌else◌, leb, ltb,
  length, take, drop, map, ◌==◌,
}
use context.Extraction.Dedup.{is_nil}
use context.Text.{
  Text, Unicode, codes, text_eq, text_mem, to_lower, contains, trim, in_cutset, fields, join,
  byte_length,
}

-- A share: how many of how many. `0 of 1` is the 0 of the early returns.
abbrev pub Share : Type 0
Share = ℕ × ℕ

-- share ≥ a / b
abbrev pub at_least : Share → ℕ → ℕ → Bool
at_least (n, d) a b = leb (a * d) (n * b)

abbrev pub punctuation : Text
punctuation = codes ".,;:!?\"'()-"

abbrev pub trim_word : Text → Text
trim_word w = trim (in_cutset punctuation) w

unfoldable pub negation_words : List Text
negation_words = map codes (
    "not" ∷ "no" ∷ "never" ∷ "longer" ∷ "don't" ∷ "doesn't" ∷ "didn't" ∷ "isn't" ∷ "aren't"
    ∷ "wasn't" ∷ "weren't" ∷ "cannot" ∷ "can't" ∷ "won't" ∷ "does" ∷ "do" ∷ "did" ∷ [])

unfoldable pub kept_words : List Text → List Text
kept_words [] = []
kept_words (w ∷ ws) =
    let later = kept_words ws in if text_mem (trim_word w) negation_words then later else w ∷ later

unfoldable pub strip_negation_words : Unicode → Text → Text
unfolding kept_words
strip_negation_words u text = join (codes " ") (kept_words (fields u.is_space text))

unfoldable pub stop_words : List Text
stop_words = map codes (
    "a" ∷ "an" ∷ "the" ∷ "is" ∷ "are" ∷ "was" ∷ "were" ∷ "be" ∷ "been" ∷ "it" ∷ "its" ∷ "this"
    ∷ "that" ∷ "of" ∷ "in" ∷ "on" ∷ "at" ∷ "to" ∷ "for" ∷ "with" ∷ "by" ∷ "from" ∷ "as" ∷ "and"
    ∷ "but" ∷ "or" ∷ "we" ∷ "our" ∷ "my" ∷ "i" ∷ "you" ∷ "your" ∷ "they" ∷ [])

-- A set of texts, as a list in which no text comes twice.
abbrev pub insert : Text → List Text → List Text
insert t ts = if text_mem t ts then ts else t ∷ ts

unfoldable pub significant_from : List Text → List Text
significant_from [] = []
significant_from (w ∷ ws) =
    let later = significant_from ws in
    let t = trim_word w in
    if ltb 1 (byte_length t) && not (text_mem t stop_words) then insert t later else later

unfoldable pub significant_words : Unicode → Text → List Text
unfolding significant_from
significant_words u text = significant_from (fields u.is_space text)

-- How many of the first are in the second.
unfoldable pub count_in : List Text → List Text → ℕ
count_in [] s = 0
count_in (t ∷ ts) s = (if text_mem t s then 1 else 0) + count_in ts s

-- `keyword_overlap` on the two sets.
unfoldable pub jaccard : List Text → List Text → Share
unfolding count_in
jaccard aws bws =
    let shared = count_in aws bws in
    let union = (length aws + length bws) - shared in
    if is_nil aws || is_nil bws then (0, 1) else if union == 0 then (0, 1) else (shared, union)

unfoldable pub keyword_overlap : Unicode → Text → Text → Share
unfolding jaccard
keyword_overlap u a b = jaccard (significant_words u a) (significant_words u b)

unfoldable pub tag_overlap_ratio : Unicode → List Text → List Text → Share
tag_overlap_ratio u a b =
    let overlap = count_in (map (to_lower u) b) (map (to_lower u) a) in
    let smaller = if ltb (length b) (length a) then length b else length a in
    if smaller == 0 then (0, 1) else (overlap, smaller)

unfoldable pub has_any : Text → List Text → Bool
has_any text [] = false
has_any text (p ∷ ps) = contains text p || has_any text ps

unfoldable pub word_prefix : List Text → List Text → Bool
word_prefix [] bw = true
word_prefix (w ∷ aw) [] = false
word_prefix (w ∷ aw) (v ∷ bw) = text_eq v w && word_prefix aw bw

unfoldable pub refines : Unicode → Text → Text → Bool
unfolding word_prefix
refines u a b =
    let aw = fields u.is_space a in
    let bw = fields u.is_space b in
    if is_nil aw || is_nil bw
    then false
    else if ltb (length bw) (length aw)
    then word_prefix bw aw
    else word_prefix aw bw

unfoldable pub subject_stop_words : List Text
subject_stop_words = map codes ("the" ∷ "a" ∷ "an" ∷ "our" ∷ "my" ∷ "this" ∷ "we" ∷ "i" ∷ [])

unfoldable pub meaningful : List Text → List Text → List Text
meaningful stop [] = []
meaningful stop (w ∷ ws) =
    let later = meaningful stop ws in
    let t = trim_word w in
    if not (text_mem t stop) && ltb 1 (byte_length t) then t ∷ later else later

unfoldable pub last_words : Unicode → Text → ℕ → Text
unfolding meaningful
last_words u s n =
    let ws = meaningful subject_stop_words (fields u.is_space s) in
    join (codes " ") (if leb (length ws) n then ws else drop (length ws - n) ws)

-- The loop breaks off at the n-th word, so these are the first n.
unfoldable pub first_words : Unicode → Text → ℕ → Text
unfolding meaningful
first_words u s n = join (codes " ") (take n (meaningful [] (fields u.is_space s)))
