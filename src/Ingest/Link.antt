-- ===== src/Ingest/Link.antt =====
-- The links of a stored memory to related ones: `autoLinkByTags` (internal/ingest/ingest.go).
pub mod Related
use context.Prelude.{
  ℕ, List, [], ◌∷◌, Bool, true, false, ◌&&◌, ◌||◌, not, if◌then◌else◌, ltb, leb, ◌==◌, length, take,
  map, Option, none, some, Result, ok, failed,
}
use context.Text.{Text, Unicode, text_mem, to_lower}
use context.Model.Memory.{Memory, relates_to}
use context.Ranking.{Floats}
use context.Extraction.Dedup.{is_nil}
use context.Ingest.{Edge, QueryFilter, Neighbour, Engine}

-- autoLinkCandidates, minRelatedCandidates, maxRelatesPerStore
abbrev pub auto_link_candidates : ℕ
auto_link_candidates = 10

abbrev pub min_related_candidates : ℕ
min_related_candidates = 3

abbrev pub max_relates_per_store : ℕ
max_relates_per_store = 5

unfoldable pub any_in : List Text → List Text → Bool
any_in [] set = false
any_in (t ∷ ts) set = text_mem t set || any_in ts set

unfoldable pub has_overlapping_tags : Unicode → List Text → List Text → Bool
unfolding any_in
has_overlapping_tags u a b = any_in (map (to_lower u) b) (map (to_lower u) a)

unfoldable pub id_mem : ℕ → List ℕ → Bool
id_mem i [] = false
id_mem i (j ∷ js) = i == j || id_mem i js

-- `skip`: the memory itself, and what it is connected to already.
unfoldable pub skips : Memory → List ℕ → ℕ → Bool
unfolding id_mem
skips mem connected id = id == mem.id || id_mem id connected

-- `seen`: the weight of each candidate, in the order in which they were met.
abbrev pub Weights : Floats → Type 0
Weights F = List (ℕ × F.Float)

module _ (F : Floats) where
  unfoldable pub weight_of : ℕ → Weights F → Option F.Float
  weight_of id [] = none
  weight_of id ((j, w) ∷ seen) = if id == j then some w else weight_of id seen

  unfoldable pub set_weight : ℕ → F.Float → Weights F → Weights F
  set_weight id v [] = (id, v) ∷ []
  set_weight id v ((j, w) ∷ seen) = if id == j then (j, v) ∷ seen else (j, w) ∷ set_weight id v seen

  -- The round of the first loop: the tags of a stored memory.
  unfoldable pub tag_step : Unicode → Memory → List ℕ → Weights F → Memory → Weights F
  unfolding skips has_overlapping_tags set_weight
  tag_step u mem connected seen e =
      if skips mem connected e.id
      then seen
      else if has_overlapping_tags u mem.tags e.tags
      then set_weight e.id (F.decimal 1 2) seen
      else seen

  unfoldable pub tag_candidates : Unicode → Memory → List ℕ → Weights F → List Memory → Weights F
  unfolding tag_step
  tag_candidates u mem connected seen [] = seen
  tag_candidates u mem connected seen (e ∷ es) =
      tag_candidates u mem connected (tag_step u mem connected seen e) es

  unfoldable pub scores_of : Memory → List ℕ → List (Neighbour F) → List F.Float
  unfolding skips
  scores_of mem connected [] = []
  scores_of mem connected (n ∷ ns) =
      let rest = scores_of mem connected ns in
      if skips mem connected n.memory.id then rest else n.score ∷ rest

  unfoldable pub sum_from : F.Float → List F.Float → F.Float
  sum_from acc [] = acc
  sum_from acc (s ∷ ss) = sum_from (F.plus acc s) ss

  unfoldable pub variance_from : F.Float → F.Float → List F.Float → F.Float
  variance_from mean acc [] = acc
  variance_from mean acc (s ∷ ss) =
      let d = F.minus s mean in variance_from mean (F.plus acc (F.times d d)) ss

  -- The mean, and with enough candidates a standard deviation above it.
  unfoldable pub floor_of : List F.Float → F.Float
  unfolding sum_from variance_from
  floor_of scores =
      let n = F.of_ℕ (length scores) in
      let mean = F.over (sum_from (F.decimal 0 1) scores) n in
      if leb min_related_candidates (length scores)
      then F.plus mean
          (F.times (F.decimal 1 1) (F.sqrt (F.over (variance_from mean (F.decimal 0 1) scores) n)))
      else mean

  -- The round of the second loop: a neighbour at the floor or above it, with the larger weight.
  unfoldable pub raise : Option F.Float → Neighbour F → Weights F → Weights F
  unfolding set_weight
  raise none n seen = set_weight n.memory.id n.score seen
  raise (some w) n seen = if F.ge w n.score then seen else set_weight n.memory.id n.score seen

  unfoldable pub neighbour_step : Memory → List ℕ → F.Float → Weights F → Neighbour F → Weights F
  unfolding skips weight_of raise
  neighbour_step mem connected floor seen n =
      if skips mem connected n.memory.id || F.gt floor n.score
      then seen
      else raise (weight_of n.memory.id seen) n seen

  unfoldable pub above_floor :
      Memory → List ℕ → F.Float → Weights F → List (Neighbour F) → Weights F
  unfolding neighbour_step
  above_floor mem connected floor seen [] = seen
  above_floor mem connected floor seen (n ∷ ns) =
      above_floor mem connected floor (neighbour_step mem connected floor seen n) ns

  unfoldable pub neighbour_candidates : Memory → List ℕ → Weights F → List (Neighbour F) → Weights F
  unfolding scores_of floor_of above_floor
  neighbour_candidates mem connected seen ns =
      let scores = scores_of mem connected ns in
      if is_nil ns || is_nil scores
      then seen
      else above_floor mem connected (floor_of scores) seen ns

  -- The comparison of the sort; an id is a number, in the order of its text.
  unfoldable pub heavier : ℕ × F.Float → ℕ × F.Float → Bool
  heavier (i, v) (j, w) = if F.differ v w then F.gt v w else ltb i j

  unfoldable pub insert_weight : ℕ × F.Float → Weights F → Weights F
  unfolding heavier
  insert_weight c [] = c ∷ []
  insert_weight c (d ∷ ds) =
      let rest = insert_weight c ds in if heavier d c then d ∷ rest else c ∷ d ∷ ds

  unfoldable pub sort_weights : Weights F → Weights F
  unfolding insert_weight
  sort_weights [] = []
  sort_weights (c ∷ cs) = insert_weight c (sort_weights cs)

  unfoldable pub cap_weights : Weights F → Weights F
  unfolding sort_weights
  cap_weights seen =
      let candidates = sort_weights seen in
      if ltb max_relates_per_store (length candidates)
      then take max_relates_per_store candidates
      else candidates

-- An error of the query leaves out the candidates by tags.
unfoldable pub queried : {E : Type 0} → Result E (List Memory) → List Memory
queried (failed e) = []
queried (ok existing) = existing

module _ {F : Floats} {W E Vector : Type 0} (eng : Engine F W E Vector) where
  unfoldable pub relates_edges : W → ℕ → Memory → Weights F → W × List (Edge F)
  relates_edges w created_at mem [] = (w, [])
  relates_edges w created_at mem ((to, weight) ∷ cs) =
      let (w1, id) = eng.new_id w in
      let (w2, es) = relates_edges w1 created_at mem cs in
      let edge : Edge F = record {
        id = id;
        from_id = mem.id;
        to_id = to;
        relationship = relates_to;
        weight = weight;
        created_at = created_at;
      } in
      (w2, edge ∷ es)

  unfoldable pub count_written : ℕ → Result E (Unit {0}) → ℕ
  count_written n (failed e) = 0
  count_written n (ok done) = n

  -- The number of edges written.
  unfoldable pub auto_link_by_tags : Unicode → W → Memory → List ℕ → List (Neighbour F) → W × ℕ
  unfolding tag_candidates neighbour_candidates cap_weights queried relates_edges count_written
  auto_link_by_tags u w mem connected neighbours =
      let (w1, r) =
        eng.query_memories w
          (record { project_id = mem.project_id; types = []; top_k = auto_link_candidates }) in
      let tagged = tag_candidates F u mem connected [] (queried r) in
      let candidates = cap_weights F (neighbour_candidates F mem connected tagged neighbours) in
      let (w2, created_at) = eng.now w1 in
      let (w3, edges) = relates_edges w2 created_at mem candidates in
      let (w4, written) = eng.create_edges w3 edges in (w4, count_written (length edges) written)
