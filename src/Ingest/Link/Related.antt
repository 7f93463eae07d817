-- ===== src/Ingest/Link/Related.antt =====
-- Which edges a stored memory draws to related ones.
use context.Prelude.{ℕ, ◌≤◌, ◌≡◌, ◌≢◌, ◌⊎◌, List, [], ◌∷◌, true, false, Member, All, Result, length}
use context.Text.{Unicode}
use context.Model.Memory.{Memory, relates_to}
use context.Ranking.{Floats}
use context.Ingest.{Edge, QueryFilter, Neighbour, Engine}
use context.Ingest.Link.{
  auto_link_candidates, max_relates_per_store, has_overlapping_tags, skips, Weights, scores_of,
  floor_of,
}

module _ (F : Floats) where
  -- No memory is met twice.
  abbrev pub Apart : ℕ × F.Float → Weights F → Type 0
  Apart c cs = All (λ (d : ℕ × F.Float). c.0 ≢ d.0) cs

  abbrev pub Once : Weights F → Type 0
  Once [] = Unit
  Once (c ∷ cs) = Apart c cs × Once cs

module _ {F : Floats} where
  -- No two of the edges have the same end.
  abbrev pub Ends : List (Edge F) → Type 0
  Ends [] = Unit
  Ends (e ∷ es) = All (λ (d : Edge F). e.to_id ≢ d.to_id) es × Ends es

module _ {F : Floats} (u : Unicode) (mem : Memory) (connected : List ℕ) (existing : List Memory)
    (neighbours : List (Neighbour F)) where
  -- Why a memory is related: a tag that is the same but for its case, or a similarity that is not
  -- below the floor of the neighbours.
  pub record SharesTag (c : ℕ × F.Float) : Type 0 where
    pub old : Memory
    pub member : Member old existing
    pub id : c.0 ≡ old.id
    pub tags : has_overlapping_tags u mem.tags old.tags ≡ true
    pub weight : c.1 ≡ F.decimal 1 2

  pub record IsNear (c : ℕ × F.Float) : Type 0 where
    pub near : Neighbour F
    pub member : Member near neighbours
    pub id : c.0 ≡ near.memory.id
    pub close : F.gt (floor_of F (scores_of F mem connected neighbours)) near.score ≡ false
    pub weight : c.1 ≡ near.score

  abbrev pub Related : ℕ × F.Float → Type 0
  Related c = (skips mem connected c.0 ≡ false) × (SharesTag c ⊎ IsNear c)

  -- What holds of the candidates after each round.
  abbrev Sound : Weights F → Type 0
  Sound seen = All Related seen × Once F seen

  abbrev floor : F.Float
  floor = floor_of F (scores_of F mem connected neighbours)

  -- The edges that are written: at most five, from the memory, to memories that are related.
  pub record Relates (e : Edge F) : Type 0 where
    pub from : e.from_id ≡ mem.id
    pub relationship : e.relationship ≡ relates_to
    pub related : Related (e.to_id, e.weight)

  -- Edges are written once, and those are all.
  abbrev pub Links : List (List (Edge F)) → Type 0
  Links log =
      (es : List (Edge F)) × (log ≡ es ∷ [])
      × (length es ≤ max_relates_per_store)
      × All Relates es
      × Ends es

module _ {F : Floats} {W E Vector : Type 0} (eng : Engine F W E Vector) where
  abbrev Log : Type 0
  Log = List (List (Edge F))

  module _ (u : Unicode) (w : W) (mem : Memory) (connected : List ℕ)
      (neighbours : List (Neighbour F)) where
    abbrev query : QueryFilter
    query = record { project_id = mem.project_id; types = []; top_k = auto_link_candidates }

    abbrev pub recent : Result E (List Memory)
    recent = (eng.query_memories w query).1
