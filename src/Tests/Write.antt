-- ===== src/Tests/Write.antt =====
-- Tests of the writing of a conversation.
use context.Prelude.{ℕ, refl, List, [], ◌∷◌, none, some, ok}
use context.Text.{codes}
use context.Ingest.{Engine}
use context.Ingest.Write.{extract}
use context.Ingest.Write.Stored.{AnswersFor, extract-AnswersFor}
use context.Tests.{ascii, toy_digest}
use context.Tests.Ranking.{thousandths}
use context.Tests.Contradiction.{python}
use context.Tests.Dedup.{short, long}
use context.Tests.Ingest.{engine}

-- An extractor that says a fact twice, and an embedder without a batch path.
abbrev talking : Engine thousandths ℕ (Unit {0}) (List ℕ)
talking = record engine {
  extractor = λ w t. (w, ok (short ∷ long ∷ []));
  embedder = some (record { embed = λ w t. (w, ok t); embed_batch = none });
  search_by_vector = λ w v p k. (w, ok (record { memory = python; score = 700 } ∷ []));
}

extract-AnswersFor_example :
    AnswersFor ascii toy_digest
      (short ∷ long ∷ [])
      (extract talking ascii toy_digest 0 (codes "user: hello") (codes "kora") 0).1
extract-AnswersFor_example =
    extract-AnswersFor talking ascii toy_digest (λ w m. refl) 0 (codes "user: hello") (codes "kora")
      0 (short ∷ long ∷ []) refl
