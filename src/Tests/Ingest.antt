-- ===== src/Tests/Ingest.antt =====
-- Tests of the write path.
use context.Prelude.{
  ℕ, ◌+◌, ◌≡◌, ◌≢◌, refl, ap, List, [], ◌∷◌, true, Option, none, some, ok, Member,
}
use context.Text.{codes, to_lower, trim, trim_space, fields, code_mem, is_empty, text_eq, text_mem}
use context.Model.Content.{content_tokens}
use context.Model.Memory.{Memory, type_eq}
use context.Extraction.Dedup.{
  Subsumption, new_subsumes_old, subsumes, polarity_tokens, has_polarity_marker,
  is_ordered_subsequence,
}
use context.Ingest.{
  Engine, consolidate_against, fold_into, upgrade, after_update, count_access, re_embed,
  keep_vector, detect_and_supersede,
}
use context.Ingest.Fold.{Keeps, fold_into-Keeps}
use context.Ingest.Supersede.{noted, Written, detect_and_supersede-Written}
use context.Tests.{ascii, toy_digest}
use context.Tests.Ranking.{thousandths}
use context.Tests.Contradiction.{python, go}

abbrev pub engine : Engine thousandths ℕ (Unit {0}) (List ℕ)
engine = record {
  create_memory = λ w m. (w, ok tt);
  query_memories = λ w filter. (w, ok (python ∷ []));
  rows_by_content_hash = λ w p hs. (w, ok []);
  search_by_vector = λ w v p k. (w, ok []);
  create_edges = λ w es. (w, ok tt);
  update_memory_content = λ w i h t. (w + 1, ok true);
  increment_access_counts = λ w ids. (w + 10, ok tt);
  store_embedding = λ w i p v. (w, ok tt);
  link_memory_to_session = λ w s m. (w, ok tt);
  link_entities = λ w m ns. (w, ok 0);
  extractor = λ w t. (w, ok []);
  embedder = none;
  extract_entities = λ t. [];
  now = λ w. (w, 7);
  new_id = λ w. (w, 9);
}

abbrev fuller : Memory
fuller = record python { id = 5; content = codes "The backend uses Python in production" }

abbrev kept : Memory
kept = record python { content = fuller.content }

program : Unit {0}
unfolding content_tokens to_lower trim_space fields trim code_mem is_empty text_eq text_mem type_eq
    subsumes polarity_tokens has_polarity_marker is_ordered_subsequence consolidate_against
    fold_into upgrade after_update count_access re_embed keep_vector
program = tt

consolidate_test :
    ◌≡◌ {A = Option (Memory × Subsumption)}
      (consolidate_against ascii fuller (python ∷ []))
      (some (python, new_subsumes_old))
unfolding program
consolidate_test = refl

fold_test :
    ◌≡◌ {A = ℕ × Option Memory}
      (fold_into engine ascii toy_digest 0 fuller python new_subsumes_old)
      (11, some kept)
unfolding program
fold_test = refl

fold_into-Keeps_example :
    Member python (python ∷ [])
    × (python.id ≢ fuller.id)
    × Keeps engine ascii toy_digest fuller python kept
fold_into-Keeps_example =
    fold_into-Keeps engine ascii toy_digest 0 fuller (python ∷ []) python kept new_subsumes_old
      consolidate_test (ap (λ (p : ℕ × Option Memory). p.1) fold_test)

detect_and_supersede-Written_example :
    Written engine ascii go (python ∷ []) (detect_and_supersede (noted engine) ascii (0, []) go).0.1
detect_and_supersede-Written_example =
    detect_and_supersede-Written engine ascii 0 go (python ∷ []) refl
