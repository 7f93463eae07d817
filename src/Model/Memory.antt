-- ===== src/Model/Memory.antt =====
-- The memory node and its category (pkg/model/memory.go).
use context.Prelude.{ℕ, List, Bool, true, false, ◌≡◌, ◌↔◌, refl, ap}
use context.Text.{Text, text_eq}
use context.Text.Words.{text_eq_iff}

-- `MemoryType` is a string in the source: the three constants, and any other value.
pub data MemoryType : Type 0 where
  episodic semantic procedural : MemoryType
  other : Text → MemoryType

unfoldable pub type_eq : MemoryType → MemoryType → Bool
type_eq episodic episodic = true
type_eq semantic semantic = true
type_eq procedural procedural = true
type_eq (other s) (other t) = text_eq s t
type_eq _ _ = false

type_eq→eq : (a b : MemoryType) → type_eq a b ≡ true → a ≡ b
unfolding type_eq
type_eq→eq episodic episodic h = refl
type_eq→eq semantic semantic h = refl
type_eq→eq procedural procedural h = refl
type_eq→eq (other s) (other t) h = ap other ((text_eq_iff s t).0 h)
type_eq→eq _ _ h = cc

type_eq_refl : (a : MemoryType) → type_eq a a ≡ true
unfolding type_eq
type_eq_refl (other s) = (text_eq_iff s s).1 refl
type_eq_refl _ = refl

pub type_eq_iff : (a b : MemoryType) → (type_eq a b ≡ true) ↔ (a ≡ b)
type_eq_iff a b = (type_eq→eq a b, λ e. rw e (type_eq_refl b))

-- the part of `Memory` that the detection of contradictions and the write path read; an id is a
-- number
pub record Memory : Type 0 where
  pub id : ℕ
  pub project_id : Text
  pub content : Text
  pub type : MemoryType
  pub tags : List Text

-- `RelationshipType` (pkg/model/edge.go), a string in the source: the six constants, and any other
-- value.
pub data RelationshipType : Type 0 where
  belongs_to contains relates_to supersedes caused_by mentions : RelationshipType
  other_relationship : Text → RelationshipType

-- `Valid`
unfoldable pub is_valid : RelationshipType → Bool
is_valid (other_relationship s) = false
is_valid _ = true
