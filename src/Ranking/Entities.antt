-- ===== src/Ranking/Entities.antt =====
-- The share of a query's entities that a memory names. A share is a numerator and a denominator.
use context.Prelude.{
  ℕ, ◌+◌, ◌*◌, ◌≤◌, ◌≡◌, refl, List, [], ◌∷◌, false, ◌||◌, if◌then◌else◌, ltb, ◌==◌, arith, suc,
}
use context.Text.{Text, text_mem, is_empty}
use context.Extraction.Dedup.{is_nil}

-- The loop over the query's entities: those matched and those distinct, beside what was counted.
unfoldable pub count_entities : List Text → List Text → ℕ → ℕ → List Text → ℕ × ℕ
count_entities have seen matched distinct [] = (matched, distinct)
count_entities have seen matched distinct (q ∷ qs) =
    let skipped = count_entities have seen matched distinct qs in
    let missed = count_entities have (q ∷ seen) matched (distinct + 1) qs in
    let hit = count_entities have (q ∷ seen) (matched + 1) (distinct + 1) qs in
    if is_empty q || text_mem q seen then skipped else if text_mem q have then hit else missed

-- The share, if there is a distinct entity.
abbrev share_of : ℕ → ℕ → ℕ × ℕ
share_of matched distinct = if distinct == 0 then (0, 1) else (matched, distinct)

unfoldable pub entity_overlap : List Text → List Text → ℕ × ℕ
unfolding count_entities
entity_overlap memory_entities query_entities =
    let (matched, distinct) = count_entities memory_entities [] 0 0 query_entities in
    if is_nil query_entities || is_nil memory_entities then (0, 1) else share_of matched distinct

unfoldable pub count_distinct : List Text → ℕ → List Text → ℕ
count_distinct seen distinct [] = distinct
count_distinct seen distinct (q ∷ qs) =
    let skipped = count_distinct seen distinct qs in
    let added = count_distinct (q ∷ seen) (distinct + 1) qs in
    if is_empty q || text_mem q seen then skipped else added

unfoldable pub entity_overlap_count : ℕ → List Text → ℕ × ℕ
unfolding count_distinct
entity_overlap_count matched query_entities =
    let distinct = count_distinct [] 0 query_entities in
    if (matched == 0) || is_nil query_entities
    then (0, 1)
    else share_of (if ltb distinct matched then distinct else matched) distinct

-- The entities of the query, each once and without the empty ones; `named` is what the database
-- counts, those of them that the memory names.
abbrev pub distinct_entities : List Text → List Text → List Text
distinct_entities seen [] = []
distinct_entities seen (q ∷ qs) =
    let skipped = distinct_entities seen qs in
    let added = distinct_entities (q ∷ seen) qs in
    if is_empty q || text_mem q seen then skipped else q ∷ added

abbrev pub named : List Text → List Text → ℕ
named have [] = 0
named have (q ∷ qs) = (if text_mem q have then 1 else 0) + named have qs

abbrev pub size : List Text → ℕ
size [] = 0
size (q ∷ qs) = suc (size qs)

count_distinct-eq :
    (seen qs : List Text) (d : ℕ) → count_distinct seen d qs ≡ d + size (distinct_entities seen qs)
unfolding count_distinct
count_distinct-eq seen [] d = omega arith
count_distinct-eq seen (q ∷ qs) d =
    ground (arith, count_distinct-eq seen qs d, count_distinct-eq (q ∷ seen) qs (d + 1))

count_entities-eq :
    (have seen qs : List Text) (m d : ℕ)
    → ((count_entities have seen m d qs).0 ≡ m + named have (distinct_entities seen qs))
      × ((count_entities have seen m d qs).1 ≡ d + size (distinct_entities seen qs))
unfolding count_entities
count_entities-eq have seen [] m d = omega arith
count_entities-eq have seen (q ∷ qs) m d = ground (
  arith,
  count_entities-eq have seen qs m d,
  count_entities-eq have (q ∷ seen) qs m (d + 1),
  count_entities-eq have (q ∷ seen) qs (m + 1) (d + 1),
)

named-le : (have qs : List Text) → named have qs ≤ size qs
named-le have [] = omega arith
named-le have (q ∷ qs) = ground (arith, named-le have qs)

named_nil : (qs : List Text) → named [] qs ≡ 0
unfolding text_mem
named_nil [] = refl
named_nil (q ∷ qs) = omega (arith, named_nil qs)

-- A number that is 0 gives the share 0.
abbrev counted_share : ℕ → ℕ → ℕ × ℕ
counted_share n d = if (n == 0) || false then (0, 1) else share_of (if ltb d n then d else n) d

-- The two shares from their counts.
shares :
    {m d d' n k : ℕ}
    → (m ≡ 0 + n) × (d ≡ 0 + k)
    → d' ≡ 0 + k
    → n ≤ k
    → (share_of m d).0 * (counted_share n d').1 ≡ (counted_share n d').0 * (share_of m d).1
shares h e le = ground (arith, h, e, le)

-- The share that is computed from the entities of the memory is the share that is computed from the
-- number of distinct, non-empty entities of the query that the memory names.
pub entity_overlap-eq-entity_overlap_count :
    (memory_entities query_entities : List Text)
    → let matched = named memory_entities (distinct_entities [] query_entities) in
      (entity_overlap memory_entities query_entities).0
        * (entity_overlap_count matched query_entities).1
      ≡ (entity_overlap_count matched query_entities).0
        * (entity_overlap memory_entities query_entities).1
unfolding entity_overlap entity_overlap_count
entity_overlap-eq-entity_overlap_count [] [] = refl
entity_overlap-eq-entity_overlap_count [] (q ∷ qs) =
    ground (arith, named_nil (distinct_entities [] (q ∷ qs)))
entity_overlap-eq-entity_overlap_count (e ∷ have) [] = refl
entity_overlap-eq-entity_overlap_count (e ∷ have) (q ∷ qs) =
    shares (count_entities-eq (e ∷ have) [] (q ∷ qs) 0 0) (count_distinct-eq [] (q ∷ qs) 0)
      (named-le (e ∷ have) (distinct_entities [] (q ∷ qs)))
