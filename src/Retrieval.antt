-- ===== src/Retrieval.antt =====
-- The read path (internal/retrieval/retrieval.go): what it asks of the repository, the parsing of a
-- query and the sizes of the candidate pools.
pub mod Merge
pub mod Answer
use context.Prelude.{
  ℕ, ◌+◌, ◌*◌, List, [], ◌∷◌, Bool, true, false, ◌&&◌, ◌||◌, if◌then◌else◌, ltb, min, map, Option,
  Result,
}
use context.Prelude.Int.{ℤ, pos, negsuc}
use context.Text.{
  Text, Unicode, codes, is_empty, text_mem, to_lower, fields, trim, in_cutset, byte_length,
}
use context.Model.Memory.{MemoryType}
use context.Ranking.{Floats, Candidate}

-- the part of `QueryFilter` that a query fills in
pub record Filter : Type 0 where
  pub project_id : Text
  pub keywords : List Text
  pub types : List MemoryType
  pub top_k : ℕ
  pub over_fetch : Bool

-- the part of `Memory` that retrieval reads
pub record Node : Type 0 where
  pub id : ℕ
  pub type : MemoryType
  pub created_at : ℕ
  pub access_count : ℕ

-- The operations of `Repo`; a map from ids is a list of its entries.
pub record Repo (F : Floats) (W E Vector : Type 0) : Type 0 where
  pub search_by_text : W → Text → List Text → ℕ → W × Result E (List (Candidate F) × F.Float)
  pub keywords_are_searchable : W → List Text → W × Result E Bool
  pub query_memories : W → Filter → W × Result E (List (Candidate F))
  pub search_by_vector : W → Vector → Text → ℕ → W × Result E (List (Candidate F))
  pub find_memories_by_entities : W → Text → List Text → ℕ → W × Result E (List Node)
  pub count_entity_matches : W → List ℕ → List Text → W × Result E (List (ℕ × ℕ))
  pub superseded_candidates : W → List ℕ → W × Result E (List (ℕ × Bool))

-- `FusionMode`, a string in the source: the three constants, and any other value.
pub data FusionMode : Type 0 where
  linear minmax rrf_mode : FusionMode
  other_mode : Text → FusionMode

pub record Fusion (F : Floats) : Type 0 where
  pub mode : FusionMode
  pub keyword : F.Float
  pub semantic : F.Float
  pub entity : F.Float
  pub rrf_k : F.Float
  pub coverage : F.Float

-- `Engine`, with the embedder if there is one, `ExtractEntities` and the clock.
pub record Engine (F : Floats) (W E Vector : Type 0) : Type 0 where
  pub repo : Repo F W E Vector
  pub embedder : Option (W → Text → W × Result E Vector)
  pub extract_entities : Text → List Text
  pub graph_signals_off : Bool
  pub now : W → W × ℕ
  pub fusion : Fusion F

-- What `SetFusion` refuses.
pub data FusionError : Type 0 where
  unknown_mode : Text → FusionError
  bad_weights bad_k bad_coverage : FusionError

-- defaultTopK, maxTopK and the sizes of the pools
abbrev pub default_top_k : ℕ
default_top_k = 5

abbrev pub max_top_k : ℕ
max_top_k = 200

unfoldable pub pool : ℕ → ℕ → ℕ → ℕ
pool factor most top_k =
    let size = top_k * factor in
    let capped = if ltb most size then most else size in if ltb capped 1 then 1 else capped

abbrev pub keyword_candidate_pool : ℕ → ℕ
keyword_candidate_pool top_k = pool 10 500 top_k

abbrev pub entity_candidate_pool : ℕ → ℕ
entity_candidate_pool top_k = pool 5 100 top_k

abbrev pub vector_candidate_pool : ℕ → ℕ
vector_candidate_pool top_k = pool 10 200 top_k

unfoldable pub stop_words : List Text
stop_words = map codes (
    "a" ∷ "an" ∷ "the" ∷ "is" ∷ "are" ∷ "was" ∷ "were" ∷ "do" ∷ "does" ∷ "did" ∷ "what" ∷ "which"
    ∷ "who" ∷ "how" ∷ "when" ∷ "where" ∷ "this" ∷ "that" ∷ "it" ∷ "of" ∷ "in" ∷ "on" ∷ "for" ∷ "to"
    ∷ "with" ∷ "my" ∷ "our" ∷ "we" ∷ "i" ∷ "use" ∷ "project" ∷ [])

abbrev pub query_punctuation : Text
query_punctuation = codes ".,;:!?\"'()[]{}<>-"

-- The loop of `extractKeywords`.
unfoldable pub keywords_of : List Text → List Text
keywords_of [] = []
keywords_of (word ∷ words) =
    let w = trim (in_cutset query_punctuation) word in
    let rest = keywords_of words in
    if ltb (byte_length w) 2 then rest else if text_mem w stop_words then rest else w ∷ rest

unfoldable pub extract_keywords : Unicode → Text → List Text
unfolding keywords_of
extract_keywords u query =
    if is_empty query then [] else keywords_of (fields u.is_space (to_lower u query))

unfoldable pub clamp_top_k : ℤ → ℕ
clamp_top_k (negsuc n) = default_top_k
clamp_top_k (pos n) =
    let asked = if ltb 0 n then n else default_top_k in
    if ltb max_top_k asked then max_top_k else asked

unfoldable pub parse_query : Unicode → Text → Text → List MemoryType → ℤ → Filter
unfolding extract_keywords clamp_top_k
parse_query u query project_id types top_k = record {
  project_id = project_id;
  keywords = extract_keywords u query;
  types = types;
  top_k = clamp_top_k top_k;
  over_fetch = true;
}
