-- ===== src/Retrieval/Merge.antt =====
-- One list from the three retrievers: `mergeResults` (internal/retrieval/retrieval.go).
pub mod Union
use context.Prelude.{
  ℕ, suc, List, [], ◌∷◌, Bool, true, false, ◌&&◌, ◌||◌, not, if◌then◌else◌, ltb, ◌==◌, Option, none,
  some, map,
}
use context.Ranking.{Floats, Candidate}
use context.Ranking.Relevance.{passes_semantic_gate, fuse_weighted, min_max, rrf}
use context.Retrieval.{Node, FusionMode, linear, minmax, rrf_mode, other_mode, Fusion}

unfoldable pub id_in : ℕ → List ℕ → Bool
id_in i [] = false
id_in i (j ∷ js) = i == j || id_in i js

module _ {F : Floats} where
  unfoldable pub ids_of : List (Candidate F) → List ℕ
  ids_of [] = []
  ids_of (c ∷ cs) = c.id ∷ ids_of cs

unfoldable pub node_ids : List Node → List ℕ
node_ids [] = []
node_ids (n ∷ ns) = n.id ∷ node_ids ns

module _ (F : Floats) where
  -- A rank map: the place, from 1, of the last result with the id, and 0 for none.
  unfoldable pub rank_from : ℕ → ℕ → List (Candidate F) → ℕ
  rank_from place id [] = 0
  rank_from place id (c ∷ cs) =
      let later = rank_from (suc place) id cs in if later == 0 && c.id == id then place else later

  abbrev pub rank_of : ℕ → List (Candidate F) → ℕ
  rank_of id cs = rank_from 1 id cs

  -- The cosine map: the score of the last result with the id.
  unfoldable pub cosine_of : ℕ → List (Candidate F) → Option F.Float
  cosine_of id [] = none
  cosine_of id (c ∷ cs) = elim (cosine_of id cs) [
    | some v ↦ some v
    | none ↦ if c.id == id then some c.score else none
  ]

  unfoldable pub overlap_of : ℕ → List (ℕ × F.Float) → F.Float
  overlap_of id [] = F.decimal 0 1
  overlap_of id ((j, v) ∷ overlaps) = if id == j then v else overlap_of id overlaps

  -- `maxKeyword`, `cosMin` and `cosMax`.
  unfoldable pub max_from : F.Float → List (Candidate F) → F.Float
  max_from best [] = best
  max_from best (c ∷ cs) = max_from (if F.gt c.score best then c.score else best) cs

  unfoldable pub cos_min_from : F.Float → List (Candidate F) → F.Float
  cos_min_from lo [] = lo
  cos_min_from lo (c ∷ cs) = cos_min_from (F.least lo c.score) cs

  unfoldable pub cos_max_from : F.Float → List (Candidate F) → F.Float
  cos_max_from hi [] = hi
  cos_max_from hi (c ∷ cs) = cos_max_from (F.greatest hi c.score) cs

  unfoldable pub keyword_scale : List (Candidate F) → F.Float → Fusion F → F.Float
  unfolding max_from
  keyword_scale graph full_match fusion =
      let max_keyword = max_from (F.decimal 0 1) graph in
      if F.gt full_match (F.decimal 0 1)
        && F.gt max_keyword (F.decimal 0 1)
        && F.gt fusion.coverage (F.decimal 0 1)
      then F.times (F.pow max_keyword (F.minus (F.decimal 1 1) fusion.coverage))
          (F.pow full_match fusion.coverage)
      else max_keyword

  -- `seen`: a result of the keywords replaces an earlier one of its id, one of the vectors or of the
  -- entities is added if its id is new.
  unfoldable pub put : Candidate F → List (Candidate F) → List (Candidate F)
  put c [] = c ∷ []
  put c (d ∷ seen) = if c.id == d.id then c ∷ seen else d ∷ put c seen

  unfoldable pub add : Candidate F → List (Candidate F) → List (Candidate F)
  unfolding id_in ids_of put
  add c seen = if id_in c.id (ids_of seen) then seen else put c seen

  unfoldable pub add_keyword_results : List (Candidate F) → List (Candidate F) → List (Candidate F)
  unfolding put
  add_keyword_results seen [] = seen
  add_keyword_results seen (c ∷ graph) = add_keyword_results (put c seen) graph

  unfoldable pub add_vector_results : List (Candidate F) → List (Candidate F) → List (Candidate F)
  unfolding add
  add_vector_results seen [] = seen
  add_vector_results seen (c ∷ vector) =
      add_vector_results (add (record c { relevance = F.decimal 0 1 }) seen) vector

  abbrev pub of_node : Node → Candidate F
  of_node n = record {
    id = n.id;
    type = n.type;
    created_at = n.created_at;
    access_count = n.access_count;
    relevance = F.decimal 0 1;
    superseded = false;
    score = F.decimal 0 1;
  }

  unfoldable pub add_entity_results : List (Candidate F) → List Node → List (Candidate F)
  unfolding add
  add_entity_results seen [] = seen
  add_entity_results seen (n ∷ entity) = add_entity_results (add (of_node n) seen) entity

  unfoldable pub union : List (Candidate F) → List (Candidate F) → List Node → List (Candidate F)
  unfolding add_keyword_results add_vector_results add_entity_results
  union graph vector entity =
      add_entity_results (add_vector_results (add_keyword_results [] graph) vector) entity

  unfoldable pub insert_by_id : Candidate F → List (Candidate F) → List (Candidate F)
  insert_by_id c [] = c ∷ []
  insert_by_id c (d ∷ ds) =
      let rest = insert_by_id c ds in if ltb d.id c.id then d ∷ rest else c ∷ d ∷ ds

  unfoldable pub sort_by_id : List (Candidate F) → List (Candidate F)
  unfolding insert_by_id
  sort_by_id [] = []
  sort_by_id (c ∷ cs) = insert_by_id c (sort_by_id cs)

  module _ (graph vector : List (Candidate F)) (entity : List Node)
      (entity_overlap : List (ℕ × F.Float)) (full_match : F.Float) (fusion : Fusion F) where
    unfoldable pub scored_cosine : Option F.Float → F.Float
    scored_cosine none = F.decimal 0 1
    scored_cosine (some v) = v

    unfoldable pub is_scored : Option F.Float → Bool
    is_scored none = false
    is_scored (some v) = true

    unfoldable pub other_evidence : ℕ → Bool
    unfolding id_in ids_of node_ids
    other_evidence id = id_in id (ids_of graph) || id_in id (node_ids entity)

    unfoldable pub passes : ℕ → Bool
    unfolding passes_semantic_gate scored_cosine is_scored cosine_of other_evidence
    passes id =
        let cos = cosine_of id vector in
        passes_semantic_gate F (scored_cosine cos) (is_scored cos) (other_evidence id)

    -- The keyword signal of the min-max mode.
    unfoldable pub keyword_signal : Candidate F → F.Float
    unfolding rank_from keyword_scale
    keyword_signal c =
        let scale = keyword_scale graph full_match fusion in
        if ltb 0 (rank_of c.id graph) && F.gt scale (F.decimal 0 1)
        then F.over c.score scale
        else F.decimal 0 1

    unfoldable pub semantic_signal : Option F.Float → F.Float
    unfolding min_max cos_min_from cos_max_from
    semantic_signal none = F.decimal 0 1
    semantic_signal (some cos) =
        min_max F cos (cos_min_from F.infinity vector) (cos_max_from F.neg_infinity vector)

    unfoldable pub rank_relevance : Candidate F → F.Float
    unfolding rrf rank_from overlap_of
    rank_relevance c =
        let k = fusion.rrf_k in
        let sum =
          F.plus
            (F.plus (rrf F (rank_of c.id graph) k fusion.keyword)
              (rrf F (rank_of c.id vector) k fusion.semantic))
            (F.times (rrf F 1 k fusion.entity) (overlap_of c.id entity_overlap)) in
        F.over sum (rrf F 1 k (F.plus (F.plus fusion.keyword fusion.semantic) fusion.entity))

    -- The `switch` on the mode.
    unfoldable pub fused : FusionMode → Candidate F → F.Float
    unfolding fuse_weighted keyword_signal semantic_signal rank_relevance scored_cosine cosine_of
        overlap_of
    fused minmax c =
        fuse_weighted F (keyword_signal c) (semantic_signal (cosine_of c.id vector))
          (overlap_of c.id entity_overlap) fusion.keyword fusion.semantic fusion.entity
    fused rrf_mode c = rank_relevance c
    fused _ c =
        fuse_weighted F c.relevance (scored_cosine (cosine_of c.id vector))
          (overlap_of c.id entity_overlap) fusion.keyword fusion.semantic fusion.entity

    unfoldable pub gated : List (Candidate F) → List (Candidate F)
    unfolding passes fused
    gated [] = []
    gated (c ∷ seen) =
        let rest = gated seen in
        if passes c.id then record c { relevance = fused fusion.mode c } ∷ rest else rest

    unfoldable pub merge_results : List (Candidate F)
    unfolding union gated sort_by_id
    merge_results = sort_by_id (gated (union graph vector entity))
