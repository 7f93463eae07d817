-- ===== src/Tests/Retrieval.antt =====
-- Tests of the read path.
use context.Prelude.{arith, ℕ, ◌≤◌, ◌≡◌, refl, List, [], ◌∷◌, true, false, map, some, ok, failed}
use context.Prelude.Int.{pos}
use context.Text.{codes, to_lower, trim, fields, text_eq, text_mem, is_empty, byte_length, code_mem}
use context.Ranking.{Candidate}
use context.Ranking.Relevance.{
  fuse_weighted, min_max, normalize_bm25, combine_relevance, entity_relevance, apply_entity_boost,
  lexical_relevance, relevance_tier,
}
use context.Ranking.Relevance.Bounds.{HasUnit, InUnit, signals-InUnit}
use context.Retrieval.{
  Engine, minmax, extract_keywords, parse_query, stop_words, pool, keyword_candidate_pool,
}
use context.Retrieval.Merge.{merge_results}
use context.Retrieval.Merge.Union.{Merges, merge_results-Merges}
use context.Retrieval.Answer.{retrieve}
use context.Retrieval.Answer.Page.{Outcome, retrieve-Outcome}
use context.Tests.{ascii}
use context.Tests.Ranking.{thousandths, thousandths-IsOrdered, candidate}

abbrev engine : Engine thousandths ℕ (Unit {0}) (List ℕ)
engine = record {
  repo = record {
    search_by_text = λ w p ks n. (w, ok (candidate 3 0 ∷ [], 5000));
    keywords_are_searchable = λ w ks. (w, ok true);
    query_memories = λ w filter. (w, ok []);
    search_by_vector = λ w v p n. (w, failed tt);
    find_memories_by_entities = λ w p es n. (w, failed tt);
    count_entity_matches = λ w is es. (w, failed tt);
    superseded_candidates = λ w is. (w, failed tt);
  };
  embedder = some (λ w t. (w, ok t));
  extract_entities = λ t. t ∷ [];
  graph_signals_off = false;
  now = λ w. (w, 0);
  fusion = record {
    mode = minmax;
    keyword = 450;
    semantic = 400;
    entity = 150;
    rrf_k = 60000;
    coverage = 250;
  };
}

program : Unit {0}
unfolding extract_keywords to_lower trim fields text_eq text_mem is_empty byte_length code_mem
    stop_words pool
program = tt

keywords_test :
    extract_keywords ascii (codes "What is the user's support group?")
    ≡ map codes ("user's" ∷ "support" ∷ "group" ∷ [])
unfolding program
keywords_test = refl

pool_test : keyword_candidate_pool 80 ≡ 500
unfolding program
pool_test = refl

retrieve-Outcome_example :
    Outcome thousandths-IsOrdered engine ascii
      (parse_query ascii (codes "support group") (codes "kora") [] (pos 900))
      0
      (pos 900)
      (retrieve engine ascii 0 (codes "support group") (codes "kora") [] (pos 900)).1
retrieve-Outcome_example =
    retrieve-Outcome thousandths-IsOrdered engine ascii 0 (codes "support group") (codes "kora") []
      (pos 900)

unit_of : (v : ℕ) → v ≤ 1000 → InUnit thousandths v
unit_of v h = record { number = refl; least = ground arith; most = ground (arith, h) }

thousandths-HasUnit : HasUnit thousandths
thousandths-HasUnit = record {
  zero_InUnit = unit_of 0 (omega arith);
  one_InUnit = unit_of 1000 (omega arith);
  scaled_InUnit = λ (v : ℕ) h. unit_of _ (ground (arith, h.most));
}

abbrev hits : List (Candidate thousandths)
hits = candidate 3 0 ∷ candidate 1 0 ∷ []

abbrev near : List (Candidate thousandths)
near = candidate 2 0 ∷ candidate 3 0 ∷ []

merge_results-Merges_example :
    Merges thousandths hits near [] [] 0 engine.fusion
      (merge_results thousandths hits near [] [] 0 engine.fusion)
merge_results-Merges_example = merge_results-Merges thousandths hits near [] [] 0 engine.fusion

signals-InUnit_example :
    InUnit thousandths (fuse_weighted thousandths 700 300 1000 450 400 150)
    × InUnit thousandths (min_max thousandths 700 300 1000)
    × InUnit thousandths (normalize_bm25 thousandths 700 2)
    × InUnit thousandths (combine_relevance thousandths 700 300)
    × InUnit thousandths (entity_relevance thousandths 700)
    × InUnit thousandths (apply_entity_boost thousandths 700 300)
    × InUnit thousandths
        (lexical_relevance thousandths ascii (codes "a support group") [] (codes "group" ∷ []))
    × InUnit thousandths (relevance_tier thousandths 700 300 true)
signals-InUnit_example =
    signals-InUnit thousandths thousandths-HasUnit ascii 700 300 1000 450 400 150 2
      (codes "a support group") [] (codes "group" ∷ []) true
