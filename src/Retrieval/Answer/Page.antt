-- ===== src/Retrieval/Answer/Page.antt =====
-- What a query is answered with.
use context.Prelude.{
  ℕ, zero, suc, sym, ◌≤◌, ◌≡◌, ◌⊎◌, refl, ◌∙◌, List, [], ◌∷◌, Bool, true, false, Result, ok, failed,
  inl, inr, arith, length,
}
use context.Prelude.Int.{ℤ, pos, negsuc}
use context.Text.{Text, Unicode}
use context.Model.Memory.{MemoryType}
use context.Ranking.{Floats, Candidate, rank_results_at}
use context.Ranking.Order.{IsOrdered, Sorted, IsPage-Sorted, rank_results_at-IsPage}
use context.Retrieval.{
  Filter, Engine, parse_query, clamp_top_k, keyword_candidate_pool, max_top_k, default_top_k,
}
use mathlib.Core.Path.{subst}
use context.Retrieval.Merge.{merge_results}
use context.Retrieval.Answer.{
  after_fallback, is_unsearchable, or_recent, after_search, keyword_results, rank_merged,
  after_keywords, vector_results, graph_entities, demoted, retrieve,
}

-- A number of results is no more than was asked for, and than 200; who asks for none, or for a
-- negative number, gets five at most.
abbrev pub Fits : ℤ → ℕ → Type 0
Fits (negsuc n) k = k ≤ default_top_k
Fits (pos zero) k = k ≤ default_top_k
Fits (pos (suc n)) k = (k ≤ suc n) × (k ≤ max_top_k)

clamp_top_k-Fits : (asked : ℤ) (k : ℕ) → k ≤ clamp_top_k asked → Fits asked k
unfolding clamp_top_k
clamp_top_k-Fits (negsuc n) k h = h
clamp_top_k-Fits (pos zero) k h = ground (arith, h)
clamp_top_k-Fits (pos (suc n)) k h = (ground (arith, h), ground (arith, h))

clamp_top_k-positive : (asked : ℤ) → 1 ≤ clamp_top_k asked
unfolding clamp_top_k
clamp_top_k-positive (negsuc n) = omega arith
clamp_top_k-positive (pos n) = ground arith

module _ {F : Floats} (o : IsOrdered F) {W E Vector : Type 0} (eng : Engine F W E Vector)
    (u : Unicode) where
  -- The fallback of a query is its filter without keywords.
  abbrev recent : Filter → Filter
  recent filter = record filter { keywords = [] }

  module _ (filter : Filter) where
    -- The search by keywords in this world fails, or it has these hits.
    abbrev Searched : W → Result E (List (Candidate F) × F.Float) → Type 0
    Searched w r =
        (eng.repo.search_by_text w filter.project_id filter.keywords
          (keyword_candidate_pool filter.top_k)).1
        ≡ r

    -- Nothing was searched for, or nothing was found, and the memories by recency cannot be read.
    abbrev FallbackFailed : W → E → Type 0
    FallbackFailed w e =
        (hits : List (Candidate F)) × (idf_sum : F.Float) × (w' : W) × Searched w
          (ok (hits, idf_sum))
        × ((filter.keywords ≡ []) ⊎ (hits ≡ []))
        × ((eng.repo.query_memories w' (recent filter)).1 ≡ failed e)

    after_fallback-failed :
        (r : W × Result E (List (Candidate F))) (e : E)
        → (after_fallback eng r).1 ≡ failed e
        → r.1 ≡ failed e
    unfolding after_fallback
    after_fallback-failed (w, ok rows) e h = cc
    after_fallback-failed (w, failed x) e h = cc

    or_recent-failed :
        (hits : List (Candidate F)) (full : F.Float) (s : W × Bool) (e : E)
        → (or_recent eng filter hits full s).1 ≡ failed e
        → (s.1 ≡ true) × ((eng.repo.query_memories s.0 (recent filter)).1 ≡ failed e)
    unfolding or_recent
    or_recent-failed hits full (w, false) e h = cc
    or_recent-failed hits full (w, true) e h =
        (refl, after_fallback-failed (eng.repo.query_memories w (recent filter)) e h)

    is_unsearchable-true :
        (w : W) (keywords : List Text) (hits : List (Candidate F))
        → (is_unsearchable eng w keywords hits).1 ≡ true
        → (keywords ≡ []) ⊎ (hits ≡ [])
    unfolding is_unsearchable
    is_unsearchable-true w [] hits h = inl refl
    is_unsearchable-true w (k ∷ ks) [] h = inr refl
    is_unsearchable-true w (k ∷ ks) (c ∷ hits) h = cc

    after_search-failed :
        (w : W) (r : W × Result E (List (Candidate F) × F.Float)) (e : E)
        → Searched w r.1
        → (after_search eng filter r).1 ≡ failed e
        → Searched w (failed e) ⊎ FallbackFailed w e
    unfolding after_search
    after_search-failed w (w1, failed x) e s h = inl (s ∙ h)
    after_search-failed w (w1, ok (hits, idf_sum)) e s h =
        let (unsearchable, broken) =
          or_recent-failed _ _ (is_unsearchable eng w1 filter.keywords hits) e h in
        inr (
          hits,
          idf_sum,
          (is_unsearchable eng w1 filter.keywords hits).0,
          s,
          is_unsearchable-true w1 filter.keywords hits unsearchable,
          broken,
        )

  -- A page in order, of at most as many as asked for, or an error of the search or of the fallback.
  abbrev pub Page : ℤ → List (Candidate F) → Type 0
  Page asked page = Sorted F o page × Fits asked (length page)

  abbrev pub Outcome : Filter → W → ℤ → Result E (List (Candidate F)) → Type 0
  Outcome filter w asked r =
      ((page : List (Candidate F)) × (r ≡ ok page) × Page asked page)
      ⊎ ((e : E) × (r ≡ failed e) × (Searched filter w (failed e) ⊎ FallbackFailed filter w e))

  rank_results_at-Page :
      (results : List (Candidate F)) (asked : ℤ) (now : ℕ)
      → Page asked (rank_results_at F results (clamp_top_k asked) now)
  rank_results_at-Page results asked now =
      let top_k = clamp_top_k asked in
      let (ordered, long) =
        IsPage-Sorted F o results top_k now _ (rank_results_at-IsPage F o results top_k now) in
      (ordered, clamp_top_k-Fits asked _ (long (clamp_top_k-positive asked)))

  rank_merged-Page :
      (w : W) (query : Text) (filter : Filter) (graph : List (Candidate F)) (full : F.Float)
      (asked : ℤ)
      → filter.top_k ≡ clamp_top_k asked
      → Page asked (rank_merged eng u w query filter graph full).1
  unfolding rank_merged
  rank_merged-Page w query filter graph full asked p =
      let (w1, vector) = vector_results eng w query filter.project_id filter.top_k in
      let (w2, (entity, overlap)) =
        graph_entities eng u w1 filter.project_id query filter.top_k graph vector in
      let (w3, results) =
        demoted eng w2 (merge_results F graph vector entity overlap full eng.fusion) in
      subst (λ top_k. Page asked (rank_results_at F results top_k (eng.now w3).1)) (sym p)
        (rank_results_at-Page results asked (eng.now w3).1)

  after_keywords-Outcome :
      (query : Text) (filter : Filter) (w : W) (r : W × Result E (List (Candidate F) × F.Float))
      (asked : ℤ)
      → filter.top_k ≡ clamp_top_k asked
      → ((e : E) → r.1 ≡ failed e → Searched filter w (failed e) ⊎ FallbackFailed filter w e)
      → Outcome filter w asked (after_keywords eng u query filter r).1
  unfolding after_keywords
  after_keywords-Outcome query filter w (w1, failed e) asked p h = inr (e, refl, h e refl)
  after_keywords-Outcome query filter w (w1, ok (graph, full)) asked p h = inl (
    (rank_merged eng u w1 query filter graph full).1,
    refl,
    rank_merged-Page w1 query filter graph full asked p,
  )

  -- If float64 without NaN is a linear order, a query is answered with a page, sorted and of at most
  -- as many results as were asked for and at most 200, or at most five if no positive number was asked
  -- for, unless the search by keywords fails, or nothing was searched for or found and the memories
  -- by recency cannot be read. The embedder, the search by vectors, the check of the keywords,
  -- the entities and the superseded memories cannot fail it.
  pub retrieve-Outcome :
      (w : W) (query project_id : Text) (types : List MemoryType) (top_k : ℤ)
      → Outcome
          (parse_query u query project_id types top_k)
          w
          top_k
          (retrieve eng u w query project_id types top_k).1
  unfolding retrieve parse_query keyword_results
  retrieve-Outcome w query project_id types top_k =
      let filter = parse_query u query project_id types top_k in
      after_keywords-Outcome query filter w (keyword_results eng w filter) top_k refl
        (λ e h. after_search-failed filter w _ e refl h)
