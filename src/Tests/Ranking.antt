-- ===== src/Tests/Ranking.antt =====
-- Tests of the ranking, over whole numbers in place of floating-point ones.
use context.Prelude.{
  arith, ℕ, ◌+◌, ◌*◌, ◌-◌, ◌/◌, ◌≡◌, refl, List, [], ◌∷◌, false, not, ltb, leb, ◌==◌, min,
  if◌then◌else◌,
}
use context.Text.{codes, text_eq, text_mem, is_empty}
use context.Model.Memory.{semantic}
use context.Ranking.{
  Floats, Candidate, rank_results_at, score, sort, clamp01, recency_factor, frequency_factor,
  type_priority,
}
use context.Ranking.Order.{IsOrdered, IsPage, rank_results_at-Perm, rank_results_at-IsPage}
use context.Prelude.Perm.{swap}
use context.Ranking.Entities.{
  entity_overlap, entity_overlap_count, count_entities, count_distinct, named, distinct_entities,
  entity_overlap-eq-entity_overlap_count,
}

abbrev pub thousandths : Floats
thousandths = record {
  Float = ℕ;
  decimal = λ n d. n * 1000 / d;
  of_ℕ = λ n. n * 1000;
  plus = ◌+◌;
  times = λ a b. a * b / 1000;
  over = λ a b. a * 1000 / b;
  minus = ◌-◌;
  sqrt = λ a. a;
  gt = λ a b. ltb b a;
  ge = λ a b. leb b a;
  differ = λ a b. not (a == b);
  is_nan = λ a. false;
  exp_neg = λ a. 1000 - a;
  log1p = λ a. a;
  hours = λ n. n * 1000 / 3600000000000;
  pow = λ a b. a;
  least = min;
  greatest = λ a b. if ltb a b then b else a;
  infinity = 1000000000;
  neg_infinity = 0;
}

pub thousandths-IsOrdered : IsOrdered thousandths
thousandths-IsOrdered = record {
  place = λ (a : ℕ). a;
  gt_place = λ a b. refl;
  differ_place = λ a b. refl;
}

abbrev pub candidate : ℕ → ℕ → Candidate thousandths
candidate id relevance = record {
  id = id;
  type = semantic;
  created_at = 0;
  access_count = 0;
  relevance = relevance;
  superseded = false;
  score = 0;
}

abbrev pair : List (Candidate thousandths)
pair = candidate 1 200 ∷ candidate 2 900 ∷ []

abbrev riap : List (Candidate thousandths)
riap = candidate 2 900 ∷ candidate 1 200 ∷ []

program : Unit {0}
unfolding text_eq text_mem is_empty rank_results_at score sort clamp01 recency_factor
    frequency_factor type_priority entity_overlap entity_overlap_count count_entities count_distinct
program = tt

page_test : rank_results_at thousandths pair 1 0 ≡ record (candidate 2 900) { score = 825 } ∷ []
unfolding program
page_test = refl

rank_results_at-Perm_example :
    rank_results_at thousandths pair 1 0 ≡ rank_results_at thousandths riap 1 0
rank_results_at-Perm_example =
    rank_results_at-Perm thousandths thousandths-IsOrdered pair riap 1 0 swap
      (((λ e. ground arith), tt), (tt, tt))

rank_results_at-IsPage_example :
    IsPage thousandths thousandths-IsOrdered pair 1 0 (rank_results_at thousandths pair 1 0)
rank_results_at-IsPage_example = rank_results_at-IsPage thousandths thousandths-IsOrdered pair 1 0

abbrev biscuit : List ((List ℕ))
biscuit = codes "biscuit" ∷ codes "oslo" ∷ codes "biscuit" ∷ []

entity_test : entity_overlap (codes "biscuit" ∷ []) biscuit ≡ (1, 2)
unfolding program
entity_test = refl

entity_overlap-eq-entity_overlap_count_example :
    (entity_overlap (codes "biscuit" ∷ []) biscuit).0
      * (entity_overlap_count
          (named (codes "biscuit" ∷ []) (distinct_entities [] biscuit))
          biscuit).1
    ≡ (entity_overlap_count (named (codes "biscuit" ∷ []) (distinct_entities [] biscuit)) biscuit).0
      * (entity_overlap (codes "biscuit" ∷ []) biscuit).1
entity_overlap-eq-entity_overlap_count_example =
    entity_overlap-eq-entity_overlap_count (codes "biscuit" ∷ []) biscuit
