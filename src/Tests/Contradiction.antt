-- ===== src/Tests/Contradiction.antt =====
-- Tests of the contradictions.
use context.Prelude.{◌≡◌, ◌≢◌, ◌↔◌, ◌⊎◌, refl, List, [], ◌∷◌, true, Member, some}
use context.Text.{
  Text, codes, to_lower, trim, trim_space, fields, code_mem, is_empty, text_eq, text_mem, index,
  contains, byte_length, join,
}
use context.Model.Memory.{Memory, semantic, type_eq}
use context.Extraction.Contradiction.Words.{
  keyword_overlap, jaccard, strip_negation_words, negation_words, stop_words, significant_words,
  count_in, tag_overlap_ratio, refines, last_words, first_words, has_any, subject_stop_words,
}
use context.Extraction.Contradiction.{
  Contradiction, Triple, divergence, reason_text, detect_pair, detect_contradictions,
  replacement_signals, verbs, negations, extract_triples, find_signal, find_divergence, negates,
  shares_tags, strongest, triples_of,
}
use context.Extraction.Contradiction.Refines.{Begins, refines_iff}
use context.Extraction.Contradiction.Evidence.{Supports, detect_pair-Supports}
use context.Extraction.Contradiction.Detection.{Found, detect_contradictions-Member_iff}
use context.Tests.{ascii}

abbrev pub python : Memory
python = record {
  id = 1;
  project_id = codes "kora";
  content = codes "The backend uses Python";
  type = semantic;
  tags = codes "backend" ∷ [];
}

abbrev pub go : Memory
go = record {
  id = 2;
  project_id = codes "kora";
  content = codes "The backend uses Go";
  type = semantic;
  tags = codes "backend" ∷ [];
}

abbrev triple : Text → Triple
triple object = record { subject = codes "backend"; verb = codes "uses"; object = object }

abbrev conflict : Contradiction
conflict = record {
  new_memory = go;
  old_memory = python;
  reason = divergence (triple (codes "go")) (triple (codes "python"));
  confidence = 85;
}

program : Unit {0}
unfolding to_lower trim trim_space fields code_mem is_empty text_eq text_mem index contains
    byte_length join type_eq keyword_overlap jaccard strip_negation_words negation_words stop_words
    significant_words count_in tag_overlap_ratio refines last_words first_words has_any
    subject_stop_words reason_text detect_pair detect_contradictions replacement_signals verbs
    negations extract_triples find_signal find_divergence negates shares_tags strongest triples_of
program = tt

pair_test : detect_pair ascii go python ≡ some conflict
unfolding program
pair_test = refl

reason_test : reason_text conflict.reason ≡ codes "backend uses: go vs python"
unfolding program
reason_test = refl

-- Tags that differ in case only are counted twice: a share above 1.
tag_test : tag_overlap_ratio ascii (codes "x" ∷ []) (codes "x" ∷ codes "X" ∷ []) ≡ (2, 1)
unfolding program
tag_test = refl

detect_pair-Supports_example : Supports ascii go python conflict
detect_pair-Supports_example = detect_pair-Supports ascii go python conflict pair_test

detect_contradictions-Member_iff_example :
    Member conflict (detect_contradictions ascii go (python ∷ []))
    ↔ ((go.type ≡ semantic) × Found ascii go (python ∷ []) conflict)
detect_contradictions-Member_iff_example =
    detect_contradictions-Member_iff ascii go (python ∷ []) conflict

abbrev words : Text → List Text
words t = fields ascii.is_space t

refines_iff_example : (refines ascii (codes "redis for sessions") (codes "redis") ≡ true) ↔ (
    (words (codes "redis for sessions") ≢ [])
    × (words (codes "redis") ≢ [])
    × (Begins (words (codes "redis for sessions")) (words (codes "redis"))
        ⊎ Begins (words (codes "redis")) (words (codes "redis for sessions"))))
refines_iff_example = refines_iff ascii (codes "redis for sessions") (codes "redis")
