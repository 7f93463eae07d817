-- ===== src/Tests/Dedup.antt =====
-- Tests of the folding.
use context.Prelude.{◌≡◌, refl, [], ◌∷◌, Member, here, some}
use context.Text.{codes, to_lower, trim, trim_space, fields, code_mem, is_empty, text_eq, text_mem}
use context.Model.Content.{content_tokens}
use context.Model.Memory.{semantic, type_eq}
use context.Extraction.Dedup.{
  ExtractedMemory, subsumes, new_subsumes_old, polarity_tokens, has_polarity_marker,
  is_ordered_subsequence, tag_key, union_tags, merge_into, fold_redundant, distinct,
}
use context.Extraction.Dedup.Verdict.{Describes, subsumes-Describes}
use context.Extraction.Dedup.Folding.{Represents, fold_redundant-Covers}
use context.Extraction.Dedup.Entities.{merge_into-entities, entities}
use context.Tests.{ascii}

abbrev pub short : ExtractedMemory
short = record {
  content = codes "Caroline is transgender.";
  type = semantic;
  tags = codes "Person" ∷ [];
  entities = codes "Caroline" ∷ [];
}

abbrev pub long : ExtractedMemory
long = record {
  content = codes "Caroline is a transgender person in Oslo.";
  type = semantic;
  tags = codes "person" ∷ codes "city" ∷ [];
  entities = codes "Caroline" ∷ codes "Oslo" ∷ [];
}

abbrev merged : ExtractedMemory
merged = record short { content = long.content; tags = codes "Person" ∷ codes "city" ∷ [] }

program : Unit {0}
unfolding content_tokens to_lower trim_space fields trim code_mem is_empty text_eq text_mem type_eq
    subsumes polarity_tokens has_polarity_marker is_ordered_subsequence tag_key union_tags
    merge_into fold_redundant
program = tt

subsumes_test : subsumes ascii long.content short.content ≡ new_subsumes_old
unfolding program
subsumes_test = refl

denied_test :
    subsumes ascii (codes "Caroline denies that she owns a car") (codes "Caroline owns a car")
    ≡ distinct
unfolding program
denied_test = refl

fold_test : fold_redundant ascii (short ∷ long ∷ []) ≡ merged ∷ []
unfolding program
fold_test = refl

subsumes-Describes_example :
    Describes
      (subsumes ascii long.content short.content)
      (content_tokens ascii long.content)
      (content_tokens ascii short.content)
subsumes-Describes_example = subsumes-Describes ascii long.content short.content

fold_redundant-Covers_example :
    (k : ExtractedMemory) × Member k (fold_redundant ascii (short ∷ long ∷ []))
    × Represents ascii k short
fold_redundant-Covers_example = fold_redundant-Covers ascii (short ∷ long ∷ []) short (here refl)

merge_test : merge_into ascii long (short ∷ []) ≡ some (merged ∷ [])
unfolding program
merge_test = refl

merge_into-entities_example : entities ascii (merged ∷ []) ≡ entities ascii (short ∷ [])
merge_into-entities_example = merge_into-entities ascii long (short ∷ []) (merged ∷ []) merge_test
