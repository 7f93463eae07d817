-- ===== src/Service/Consolidate.antt =====
-- The maintenance run that merges, rescores and prunes memories (internal/service/consolidate.go).
-- The repository, the clock and the source of ids are the parameter `Repo`, over a world that
-- their operations change; floating-point numbers are the parameter `Floats`.
pub mod Phases
pub mod Ledger
pub mod Merge
pub mod Prune
use context.Prelude.{
  ℕ, ◌+◌, ◌-◌, ◌*◌, ◌≡◌, List, [], ◌∷◌, ◌++◌, Bool, true, false, ◌&&◌, if◌then◌else◌, ltb, leb,
  ◌==◌, Option, none, some, Result, ok, failed,
}
use context.Text.{Text, text_eq}
use context.Model.Memory.{MemoryType, semantic}

-- What the run does with float64: the conversion from int,
-- `Hours` of a duration, the constants 1, 5, 24 and 0.693, +, *,
-- /, > and, of package math, the exponential of the negated argument and `Log1p`.
pub record Floats : Type 1 where
  pub Float : Type 0
  pub of_ℕ : ℕ → Float
  pub hours : ℕ → Float
  pub one : Float
  pub hours_of_day : Float
  pub five : Float
  pub decay_rate : Float
  pub plus : Float → Float → Float
  pub times : Float → Float → Float
  pub over : Float → Float → Float
  pub gt : Float → Float → Bool
  pub exp_neg : Float → Float
  pub log1p : Float → Float

-- the part of `model.Memory` that the run reads; times are in nanoseconds
pub record Memory (F : Floats) : Type 0 where
  pub id : ℕ
  pub project_id : Text
  pub content : Text
  pub created_at : ℕ
  pub access_count : ℕ
  pub decay_score : F.Float

pub record Edge : Type 0 where
  pub id : ℕ
  pub from_id : ℕ
  pub to_id : ℕ
  pub created_at : ℕ

pub record QueryFilter : Type 0 where
  pub types : List MemoryType
  pub top_k : ℕ

-- `consolidationRepo`, the clock and `uuid.New`.
pub record Repo (F : Floats) (W E : Type 0) : Type 0 where
  pub query_memories : W → QueryFilter → W × Result E (List (Memory F))
  pub create_edge : W → Edge → W × Result E Edge
  pub update_decay_score : W → ℕ → F.Float → W × Result E (Unit {0})
  pub delete_memory : W → ℕ → W × Result E (Unit {0})
  pub now : W → W × ℕ
  pub new_id : W → W × ℕ

pub record ConsolidationConfig (F : Floats) : Type 0 where
  pub decay_half_life_days : F.Float
  pub stale_threshold : F.Float
  pub prune_age_days : ℕ

pub record ConsolidationResult : Type 0 where
  pub memories_decayed : ℕ
  pub memories_pruned : ℕ
  pub edges_merged : ℕ
  pub merge_failures : ℕ
  pub decay_failures : ℕ
  pub prune_failures : ℕ

unfoldable pub failures : ConsolidationResult → ℕ
failures r = r.merge_failures + r.decay_failures + r.prune_failures

unfoldable pub attempted : ConsolidationResult → ℕ
unfolding failures
attempted r = r.memories_decayed + r.memories_pruned + r.edges_merged + failures r

pub data RunError (E : Type 0) : Type 0 where
  merge_phase decay_phase prune_phase : E → RunError E
  degraded : ℕ → ℕ → RunError E

-- A share of a tenth is `failures * 10 ≤ attempted`.
unfoldable pub degraded_err : {E : Type 0} → ConsolidationResult → Option (RunError E)
unfolding attempted
degraded_err r =
    if attempted r == 0
    then none
    else if leb (failures r * 10) (attempted r)
    then none
    else some (degraded (failures r) (attempted r))

-- What a phase counts: the items that were written, and those that were not.
pub record Tally : Type 0 where
  pub done : ℕ
  pub undone : ℕ

unfoldable pub counted : {E A : Type 0} → Result E A → Tally → Tally
counted (ok a) t = record t { done = t.done + 1 }
counted (failed e) t = record t { undone = t.undone + 1 }

-- Go's `range` loop.
abbrev pub loop : {S A : Type 0} → (S → A → S) → S → List A → S
loop step s [] = s
loop step s (x ∷ xs) = loop step (step s x) xs
