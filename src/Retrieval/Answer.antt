-- ===== src/Retrieval/Answer.antt =====
-- The answer to a query: `retrieve`, `entityMatches` and `flagSuperseded`
-- (internal/retrieval/retrieval.go), without the trace.
pub mod Page
use context.Prelude.{
  ℕ, List, [], ◌∷◌, ◌++◌, Bool, true, false, ◌||◌, not, if◌then◌else◌, ltb, ◌==◌, length, map,
  Option, none, some, Result, ok, failed,
}
use context.Prelude.Int.{ℤ}
use context.Text.{Text, Unicode, is_empty}
use context.Model.Content.{normalize_entity}
use context.Model.Memory.{MemoryType}
use context.Extraction.Dedup.{is_nil}
use context.Ranking.{Floats, Candidate, rank_results_at}
use context.Ranking.Entities.{entity_overlap_count}
use context.Ranking.Relevance.{full_match_score, normalize_bm25}
use context.Retrieval.{
  Filter, Node, Engine, parse_query, keyword_candidate_pool, entity_candidate_pool,
  vector_candidate_pool,
}
use context.Retrieval.Merge.{id_in, ids_of, node_ids, merge_results}

unfoldable pub query_entities : Unicode → List Text → List Text
query_entities u [] = []
query_entities u (e ∷ es) =
    let n = normalize_entity u e in
    let rest = query_entities u es in if is_empty n then rest else n ∷ rest

-- Each id once.
unfoldable pub unseen_ids : List ℕ → List ℕ → List ℕ
unfolding id_in
unseen_ids seen [] = []
unseen_ids seen (i ∷ ids) =
    let skipped = unseen_ids seen ids in
    let added = unseen_ids (i ∷ seen) ids in if id_in i seen then skipped else i ∷ added

-- An id that is not in the map has false.
unfoldable pub flag_of : ℕ → List (ℕ × Bool) → Bool
flag_of id [] = false
flag_of id ((j, b) ∷ flags) = if id == j then b else flag_of id flags

module _ (F : Floats) where
  unfoldable pub overlaps : List (ℕ × ℕ) → List Text → List (ℕ × F.Float)
  unfolding entity_overlap_count
  overlaps [] entities = []
  overlaps ((id, n) ∷ counts) entities =
      let (share, whole) = entity_overlap_count n entities in
      let rest = overlaps counts entities in
      if ltb 0 share then (id, F.over (F.of_ℕ share) (F.of_ℕ whole)) ∷ rest else rest

  unfoldable pub flagged : List (ℕ × Bool) → List (Candidate F) → List (Candidate F)
  unfolding flag_of
  flagged flags [] = []
  flagged flags (c ∷ cs) =
      (if flag_of c.id flags then record c { superseded = true } else c) ∷ flagged flags cs

  -- The hits of the keywords, with their relevance for a query of so many terms.
  unfoldable pub normalized : ℕ → List (Candidate F) → List (Candidate F)
  unfolding normalize_bm25
  normalized terms [] = []
  normalized terms (c ∷ cs) =
      record c { relevance = normalize_bm25 F c.score terms } ∷ normalized terms cs

  -- The results of the fallback matched nothing.
  unfoldable pub unmatched : List (Candidate F) → List (Candidate F)
  unmatched [] = []
  unmatched (c ∷ cs) = record c { relevance = F.decimal 0 1; score = F.decimal 0 1 } ∷ unmatched cs

module _ {F : Floats} {W E Vector : Type 0} (eng : Engine F W E Vector) where
  unfoldable pub after_counts :
      List Node → List Text → W × Result E (List (ℕ × ℕ)) → W × (List Node × List (ℕ × F.Float))
  unfolding overlaps
  after_counts matches entities (w, failed e) = (w, (matches, []))
  after_counts matches entities (w, ok counts) = (w, (matches, overlaps F counts entities))

  unfoldable pub after_matches :
      List (Candidate F)
      → List (Candidate F)
      → List Text
      → W × Result E (List Node)
      → W × (List Node × List (ℕ × F.Float))
  unfolding unseen_ids ids_of node_ids after_counts
  after_matches graph vector entities (w, failed e) = (w, ([], []))
  after_matches graph vector entities (w, ok matches) =
      let ids = unseen_ids [] (ids_of graph ++ ids_of vector ++ node_ids matches) in
      after_counts matches entities (eng.repo.count_entity_matches w ids entities)

  -- The memories that name the entities of the query, and the shares of these.
  unfoldable pub entity_matches :
      Unicode
      → W
      → Text
      → Text
      → ℕ
      → List (Candidate F)
      → List (Candidate F)
      → W × (List Node × List (ℕ × F.Float))
  unfolding query_entities after_matches
  entity_matches u w project_id query top_k graph vector =
      let entities = query_entities u (eng.extract_entities query) in
      if is_empty project_id || is_empty query || is_nil entities
      then (w, ([], []))
      else after_matches graph vector entities
          (eng.repo.find_memories_by_entities w project_id entities (entity_candidate_pool top_k))

  unfoldable pub graph_entities :
      Unicode
      → W
      → Text
      → Text
      → ℕ
      → List (Candidate F)
      → List (Candidate F)
      → W × (List Node × List (ℕ × F.Float))
  unfolding entity_matches
  graph_entities u w project_id query top_k graph vector =
      if eng.graph_signals_off
      then (w, ([], []))
      else entity_matches u w project_id query top_k graph vector

  unfoldable pub after_flags :
      List (Candidate F) → W × Result E (List (ℕ × Bool)) → W × List (Candidate F)
  unfolding flagged
  after_flags results (w, failed e) = (w, results)
  after_flags results (w, ok flags) = (w, flagged F flags results)

  unfoldable pub flag_superseded : W → List (Candidate F) → W × List (Candidate F)
  unfolding after_flags ids_of
  flag_superseded w results =
      if is_nil results
      then (w, results)
      else after_flags results (eng.repo.superseded_candidates w (ids_of results))

  unfoldable pub or_no_results : W × Result E (List (Candidate F)) → W × List (Candidate F)
  or_no_results (w, failed e) = (w, [])
  or_no_results (w, ok results) = (w, results)

  unfoldable pub after_embedding : Text → ℕ → W × Result E Vector → W × List (Candidate F)
  unfolding or_no_results
  after_embedding project_id top_k (w, failed e) = (w, [])
  after_embedding project_id top_k (w, ok v) =
      or_no_results (eng.repo.search_by_vector w v project_id (vector_candidate_pool top_k))

  unfoldable pub vector_results : W → Text → Text → ℕ → W × List (Candidate F)
  unfolding after_embedding
  vector_results w query project_id top_k = elim eng.embedder [
    | none ↦ (w, [])
    | some embed ↦
        if is_empty query then (w, []) else after_embedding project_id top_k (embed w query)
  ]

  -- A check that fails leaves an empty answer as it is.
  unfoldable pub or_searchable : W × Result E Bool → W × Bool
  or_searchable (w, failed e) = (w, false)
  or_searchable (w, ok searchable) = (w, not searchable)

  unfoldable pub is_unsearchable : W → List Text → List (Candidate F) → W × Bool
  unfolding or_searchable
  is_unsearchable w [] hits = (w, true)
  is_unsearchable w (k ∷ keywords) (c ∷ hits) = (w, false)
  is_unsearchable w (k ∷ keywords) [] =
      or_searchable (eng.repo.keywords_are_searchable w (k ∷ keywords))

  unfoldable pub after_fallback :
      W × Result E (List (Candidate F)) → W × Result E (List (Candidate F) × F.Float)
  unfolding unmatched
  after_fallback (w, failed e) = (w, failed e)
  after_fallback (w, ok results) = (w, ok (unmatched F results, F.decimal 0 1))

  -- A query with nothing to search for is answered by recency.
  unfoldable pub or_recent :
      Filter → List (Candidate F) → F.Float → W × Bool → W × Result E (List (Candidate F) × F.Float)
  unfolding after_fallback
  or_recent filter hits full_match (w, false) = (w, ok (hits, full_match))
  or_recent filter hits full_match (w, true) =
      after_fallback (eng.repo.query_memories w (record filter { keywords = [] }))

  unfoldable pub after_search :
      Filter
      → W × Result E (List (Candidate F) × F.Float)
      → W × Result E (List (Candidate F) × F.Float)
  unfolding normalized full_match_score is_unsearchable or_recent
  after_search filter (w, failed e) = (w, failed e)
  after_search filter (w, ok (hits, idf_sum)) =
      or_recent filter (normalized F (length filter.keywords) hits) (full_match_score F idf_sum)
        (is_unsearchable w filter.keywords hits)

  unfoldable pub keyword_results : W → Filter → W × Result E (List (Candidate F) × F.Float)
  unfolding after_search
  keyword_results w filter = after_search filter (
      eng.repo.search_by_text w filter.project_id filter.keywords
        (keyword_candidate_pool filter.top_k))

  unfoldable pub demoted : W → List (Candidate F) → W × List (Candidate F)
  unfolding flag_superseded
  demoted w results = if eng.graph_signals_off then (w, results) else flag_superseded w results

  -- The other two retrievers, the merge, the demotion and the order.
  unfoldable pub rank_merged :
      Unicode → W → Text → Filter → List (Candidate F) → F.Float → W × List (Candidate F)
  unfolding vector_results graph_entities merge_results demoted rank_results_at
  rank_merged u w query filter graph full_match =
      let (w1, vector) = vector_results w query filter.project_id filter.top_k in
      let (w2, (entity, overlap)) =
        graph_entities u w1 filter.project_id query filter.top_k graph vector in
      let (w3, results) =
        demoted w2 (merge_results F graph vector entity overlap full_match eng.fusion) in
      let (w4, now) = eng.now w3 in (w4, rank_results_at F results filter.top_k now)

  unfoldable pub after_keywords :
      Unicode
      → Text
      → Filter
      → W × Result E (List (Candidate F) × F.Float)
      → W × Result E (List (Candidate F))
  unfolding rank_merged
  after_keywords u query filter (w, failed e) = (w, failed e)
  after_keywords u query filter (w, ok (graph, full_match)) =
      let (w', page) = rank_merged u w query filter graph full_match in (w', ok page)

  unfoldable pub retrieve :
      Unicode → W → Text → Text → List MemoryType → ℤ → W × Result E (List (Candidate F))
  unfolding parse_query keyword_results after_keywords
  retrieve u w query project_id types top_k =
      let filter = parse_query u query project_id types top_k in
      after_keywords u query filter (keyword_results w filter)
