-- ===== src/Ranking/Relevance.antt =====
-- How the signals of the retrievers are put on one scale (internal/ranking/bm25.go and
-- internal/ranking/relevance.go).
pub mod Bounds
use context.Prelude.{
  ℕ, suc, List, [], ◌∷◌, Bool, true, false, ◌&&◌, ◌||◌, not, if◌then◌else◌, ltb, ◌==◌, map,
}
use context.Text.{Text, Unicode, is_empty, text_mem, to_lower, trim_space, contains}
use context.Extraction.Dedup.{is_nil}
use context.Ranking.{Floats, clamp01}

-- The counts of the keywords in `LexicalRelevance`: those in a tag, those in the text alone, and all.
pub record Hits : Type 0 where
  pub in_tags : ℕ
  pub in_content : ℕ
  pub distinct : ℕ

unfoldable pub any_contains : Text → List Text → Bool
any_contains kw [] = false
any_contains kw (t ∷ tags) = contains t kw || any_contains kw tags

unfoldable pub count_hit : Text → List Text → Text → Hits → Hits
unfolding any_contains
count_hit content tags kw h =
    if any_contains kw tags
    then record h { in_tags = suc h.in_tags; distinct = suc h.distinct }
    else if contains content kw
    then record h { in_content = suc h.in_content; distinct = suc h.distinct }
    else record h { distinct = suc h.distinct }

unfoldable pub count_hits : Unicode → Text → List Text → List Text → List Text → Hits
unfolding count_hit
count_hits u content tags seen [] = record { in_tags = 0; in_content = 0; distinct = 0 }
count_hits u content tags seen (k ∷ keywords) =
    let kw = to_lower u (trim_space u k) in
    let skipped = count_hits u content tags seen keywords in
    let counted = count_hits u content tags (kw ∷ seen) keywords in
    if is_empty kw || text_mem kw seen then skipped else count_hit content tags kw counted

module _ (F : Floats) where
  -- A hit in a tag counts for 1 and one in the text for 3/4, which float64 sums exactly.
  unfoldable pub lexical_relevance : Unicode → Text → List Text → List Text → F.Float
  unfolding count_hits
  lexical_relevance u content tags keywords =
      let h = count_hits u (to_lower u content) (map (to_lower u) tags) [] keywords in
      let total = F.plus (F.of_ℕ h.in_tags) (F.times (F.decimal 75 100) (F.of_ℕ h.in_content)) in
      if is_nil keywords || h.distinct == 0
      then F.decimal 1 1
      else clamp01 F (F.over total (F.of_ℕ h.distinct))

  unfoldable pub combine_relevance : F.Float → F.Float → F.Float
  combine_relevance a b =
      let a' = clamp01 F a in
      let b' = clamp01 F b in
      let strong = if F.gt b' a' then b' else a' in
      let weak = if F.gt b' a' then a' else b' in
      clamp01 F
        (F.plus strong (F.times (F.times (F.decimal 25 100) weak) (F.minus (F.decimal 1 1) strong)))

  unfoldable pub relevance_tier : F.Float → F.Float → Bool → F.Float
  unfolding combine_relevance
  relevance_tier lexical cosine has_keywords =
      let lexical' = clamp01 F lexical in
      let cosine' = clamp01 F cosine in
      if not has_keywords
      then cosine'
      else if F.gt lexical' (F.decimal 0 1)
      then clamp01 F
          (F.plus (F.decimal 5 10) (F.times (F.decimal 5 10) (combine_relevance lexical' cosine')))
      else F.times (clamp01 F cosine') (F.decimal 499 1000)

  unfoldable pub entity_relevance : F.Float → F.Float
  entity_relevance overlap = clamp01 F (F.times (F.decimal 5 10) (clamp01 F overlap))

  unfoldable pub apply_entity_boost : F.Float → F.Float → F.Float
  apply_entity_boost relevance overlap =
      clamp01 F (F.plus (clamp01 F relevance) (F.times (F.decimal 5 100) (clamp01 F overlap)))

  -- What a complete keyword match would score, or 0 if that is not known.
  unfoldable pub full_match_score : F.Float → F.Float
  full_match_score idf_sum =
      if F.is_nan idf_sum || F.ge (F.decimal 0 1) idf_sum
      then F.decimal 0 1
      else F.times (F.decimal 1 10) idf_sum

  -- A sigmoid around the score of a query that matches four terms of ten.
  unfoldable pub normalize_bm25 : F.Float → ℕ → F.Float
  normalize_bm25 raw query_terms =
      let midpoint = F.times (F.times (F.decimal 1 10) (F.of_ℕ query_terms)) (F.decimal 4 10) in
      let steepness = F.over (F.decimal 23 10) midpoint in
      if F.is_nan raw || F.ge (F.decimal 0 1) raw || query_terms == 0
      then F.decimal 0 1
      else clamp01 F (
          F.over (F.decimal 1 1)
            (F.plus (F.decimal 1 1) (F.exp_neg (F.times steepness (F.minus raw midpoint)))))

  -- A cosine below the gate is enough only for a candidate that another retriever found.
  unfoldable pub passes_semantic_gate : F.Float → Bool → Bool → Bool
  passes_semantic_gate cosine has_cosine has_other_evidence =
      if not has_cosine || has_other_evidence then true else F.ge cosine (F.decimal 15 100)

  unfoldable pub fuse_weighted : F.Float → F.Float → F.Float → F.Float → F.Float → F.Float → F.Float
  fuse_weighted keyword semantic entity wk ws we =
      let total = F.plus (F.plus wk ws) we in
      let sum =
        F.plus (F.plus (F.times wk (clamp01 F keyword)) (F.times ws (clamp01 F semantic)))
          (F.times we (clamp01 F entity)) in
      if F.ge (F.decimal 0 1) total then F.decimal 0 1 else clamp01 F (F.over sum total)

  unfoldable pub fuse_relevance : F.Float → F.Float → F.Float → F.Float
  unfolding fuse_weighted
  fuse_relevance keyword semantic entity =
      fuse_weighted keyword semantic entity (F.decimal 45 100) (F.decimal 40 100) (F.decimal 15 100)

  unfoldable pub min_max : F.Float → F.Float → F.Float → F.Float
  min_max v lo hi =
      if F.ge lo hi then F.decimal 1 1 else clamp01 F (F.over (F.minus v lo) (F.minus hi lo))

  -- The rank is 0 for a candidate that the retriever did not find.
  unfoldable pub rrf : ℕ → F.Float → F.Float → F.Float
  rrf rank k weight = if rank == 0 then F.decimal 0 1 else F.over weight (F.plus k (F.of_ℕ rank))
