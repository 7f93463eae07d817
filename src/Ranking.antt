-- ===== src/Ranking.antt =====
-- How candidates are scored and put in order (internal/ranking/scorer.go), and how much of the
-- entities of a query a memory names (internal/ranking/relevance.go).
pub mod Order
pub mod Entities
pub mod Relevance
use context.Prelude.{
  ℕ, ◌-◌, List, [], ◌∷◌, Bool, true, false, ◌&&◌, ◌||◌, not, if◌then◌else◌, ltb, ◌==◌, length, take,
  map,
}
use context.Model.Memory.{MemoryType, semantic, procedural, episodic, other}

-- What the scoring does with float64; `decimal n d` is the constant n / d.
pub record Floats : Type 1 where
  pub Float : Type 0
  pub decimal : ℕ → ℕ → Float
  pub of_ℕ : ℕ → Float
  pub plus : Float → Float → Float
  pub times : Float → Float → Float
  pub over : Float → Float → Float
  pub minus : Float → Float → Float
  pub sqrt : Float → Float
  pub gt : Float → Float → Bool
  pub ge : Float → Float → Bool
  pub differ : Float → Float → Bool
  pub is_nan : Float → Bool
  pub exp_neg : Float → Float
  pub log1p : Float → Float
  pub hours : ℕ → Float
  pub pow : Float → Float → Float
  pub least : Float → Float → Float
  pub greatest : Float → Float → Float
  pub infinity : Float
  pub neg_infinity : Float

-- the part of `MemoryWithContext` that the ranking reads; an id is a number, in the order of its
-- bytes, and times are in nanoseconds
pub record Candidate (F : Floats) : Type 0 where
  pub id : ℕ
  pub type : MemoryType
  pub created_at : ℕ
  pub access_count : ℕ
  pub relevance : F.Float
  pub superseded : Bool
  pub score : F.Float

module _ (F : Floats) where
  unfoldable pub clamp01 : F.Float → F.Float
  clamp01 v =
      if F.is_nan v || F.gt (F.decimal 0 1) v
      then F.decimal 0 1
      else if F.gt v (F.decimal 1 1)
      then F.decimal 1 1
      else v

  unfoldable pub recency_factor : ℕ → ℕ → F.Float
  recency_factor created_at now =
      let half_life_hours = F.times (F.decimal 90 1) (F.decimal 24 1) in
      F.exp_neg (F.over (F.times (F.decimal 693 1000) (F.hours (now - created_at))) half_life_hours)

  unfoldable pub frequency_factor : ℕ → F.Float
  frequency_factor access_count =
      let count = F.of_ℕ access_count in
      if access_count == 0
      then F.decimal 0 1
      else F.over (F.log1p count) (F.log1p (F.plus count (F.decimal 10 1)))

  -- TypePriority: a type that is not in the map has 0.
  unfoldable pub type_priority : MemoryType → F.Float
  type_priority semantic = F.decimal 1 1
  type_priority procedural = F.decimal 95 100
  type_priority episodic = F.decimal 90 100
  type_priority (other s) = F.decimal 0 1

  unfoldable pub score : Candidate F → ℕ → F.Float
  unfolding clamp01 recency_factor frequency_factor type_priority
  score m now =
      let sum =
        F.plus
          (F.plus
            (F.plus (F.times (F.decimal 75 100) (clamp01 m.relevance))
              (F.times (F.decimal 10 100) (recency_factor m.created_at now)))
            (F.times (F.decimal 10 100) (frequency_factor m.access_count)))
          (F.times (F.decimal 5 100) (type_priority m.type)) in
      if m.superseded then F.times sum (F.decimal 6 10) else sum

  -- The comparison of the sort: the higher score first, and of equal scores the lower id.
  unfoldable pub before : Candidate F → Candidate F → Bool
  before a b = if F.differ a.score b.score then F.gt a.score b.score else ltb a.id b.id

  -- sort.SliceStable: a candidate goes before those that are not before it.
  unfoldable pub insert : Candidate F → List (Candidate F) → List (Candidate F)
  unfolding before
  insert x [] = x ∷ []
  insert x (y ∷ ys) = let rest = insert x ys in if before y x then y ∷ rest else x ∷ y ∷ ys

  unfoldable pub sort : List (Candidate F) → List (Candidate F)
  unfolding insert
  sort [] = []
  sort (x ∷ xs) = insert x (sort xs)

  unfoldable pub scored : ℕ → Candidate F → Candidate F
  unfolding score
  scored now m = record m { score = score m now }

  unfoldable pub rank_results_at : List (Candidate F) → ℕ → ℕ → List (Candidate F)
  unfolding scored sort
  rank_results_at results top_k now =
      let sorted = sort (map (scored now) results) in
      if ltb 0 top_k && ltb top_k (length sorted) then take top_k sorted else sorted
