-- ===== src/Service/Handlers.antt =====
-- The handlers of the API (internal/service/memory.go, internal/service/session.go). The repository
-- and the two engines behind them, the clock, the calendar and package uuid are the parameter
-- `Backend`, over a world that their operations change. A response is a status code, without its
-- text, or a message.
pub mod Calls
pub mod Checks
pub mod Refusals
use context.Prelude.{
  ℕ, ◌+◌, List, [], ◌∷◌, Bool, true, false, ◌||◌, if◌then◌else◌, ltb, ◌==◌, length, map, Option,
  none, some, Result, ok, failed,
}
use context.Prelude.Int.{ℤ, pos, negsuc}
use context.Text.{Text, is_empty}
use context.Model.Memory.{MemoryType, episodic, semantic, procedural, other, RelationshipType}
use context.Ranking.{Floats}
use context.Service.Proto.{
  ProtoType, ProtoRelation, Memory, ContextEdge, MemoryWithContext, Edge, Session, ProtoMemory,
  ProtoResult, ProtoEdge, ProtoSession, ProfileFact, memory_type_to_proto, proto_to_memory_type,
  proto_to_rel_type, memory_to_proto, memory_with_context_to_proto, edge_to_proto, session_to_proto,
}

-- codes.Code, those that the handlers answer with
pub data Code : Type 0 where
  invalid_argument not_found aborted internal : Code

-- The errors of `EndSession` of the repository that its handler tells apart.
pub data SessionError (E : Type 0) : Type 0 where
  already_ended session_not_found : SessionError E
  session_failed : E → SessionError E

pub record Filter : Type 0 where
  pub project_id : Text
  pub top_k : ℕ

-- `parse_id` is `uuid.Parse`, where 0 is the nil UUID, which `store` and `extract` take for no session;
-- `days_before` is the date so many days before a time.
pub record Backend (F : Floats) (W E : Type 0) : Type 0 where
  pub parse_id : Text → Option ℕ
  pub id_text : ℕ → Text
  pub days_before : ℕ → ℕ → ℕ
  pub new_id : W → W × ℕ
  pub now : W → W × ℕ
  pub store : W → Memory F → ℕ → W × Result E (Unit {0})
  pub extract : W → Text → Text → ℕ → W × Result E (List (Memory F) × ℕ)
  pub retrieve : W → Text → Text → List MemoryType → ℤ → W × Result E (List (MemoryWithContext F))
  pub get_context_edges : W → List ℕ → W × Result E (List (ℕ × List (ContextEdge F)))
  pub increment_access_counts : W → List ℕ → W × Result E (Unit {0})
  pub get_memory : W → ℕ → W × Result E (Memory F)
  pub create_edge : W → Edge F → W × Result E (Edge F)
  pub delete_memory : W → ℕ → W × Result E (Unit {0})
  pub get_subgraph : W → ℕ → W × Result E (List (Memory F) × List (Edge F))
  pub query_memories : W → Filter → W × Result E (List (Memory F))
  pub create_session : W → Session → W × Result E (Unit {0})
  pub end_session : W → ℕ → W × Result (SessionError E) Session

pub data Request (F : Floats) : Type 0 where
  store_request : Text → ProtoType → Text → List Text → Text → Request F
  query_request : Text → Text → List ProtoType → ℤ → Request F
  connect_request : Text → Text → ProtoRelation → F.Float → Request F
  delete_request : Text → Request F
  get_graph_request : Text → Request F
  extract_request : Text → Text → Text → Request F
  get_profile_request : Text → ℤ → ℤ → Request F
  start_session_request : Text → Text → Request F
  end_session_request : Text → Request F

pub data Response (F : Floats) : Type 0 where
  stored : ProtoMemory F → Response F
  results : List (ProtoResult F) → Response F
  connected : ProtoEdge F → Response F
  deleted : Response F
  graph : List (ProtoMemory F) → List (ProtoEdge F) → Response F
  extracted : List (ProtoMemory F) → ℕ → Response F
  profile : List (ProfileFact F) → List (ProfileFact F) → ℕ → Response F
  session : ProtoSession → Response F

-- math.MaxInt32, and the sizes of a profile
abbrev pub max_int32 : ℕ
max_int32 = 2147483647

-- The `switch` of `profileMemoryBudget` and of `profileRecencyDays`.
unfoldable pub clamp_request : ℕ → ℕ → ℤ → ℕ
clamp_request default most (negsuc n) = default
clamp_request default most (pos n) = if ltb 0 n then (if ltb most n then most else n) else default

abbrev pub profile_memory_budget : ℤ → ℕ
profile_memory_budget requested = clamp_request 200 1000 requested

abbrev pub profile_recency_days : ℤ → ℕ
profile_recency_days requested = clamp_request 7 365 requested

-- The types that are known; another one is passed over.
unfoldable pub known_types : List ProtoType → List MemoryType
unfolding proto_to_memory_type
known_types [] = []
known_types (t ∷ ts) =
    let rest = known_types ts in elim (proto_to_memory_type t) [ none ↦ rest | some mt ↦ mt ∷ rest ]

module _ {F : Floats} where
  unfoldable pub edges_at : ℕ → List (ℕ × List (ContextEdge F)) → List (ContextEdge F)
  edges_at id [] = []
  edges_at id ((j, es) ∷ table) = if id == j then es else edges_at id table
