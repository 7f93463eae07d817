-- ===== src/Service/Proto.antt =====
-- What goes over the wire: the enumerations and messages of the API, and the converters of
-- internal/service/memory.go and internal/service/session.go. A number that names no value of an
-- enumeration is `unknown`; an id is a text on the wire and a number inside.
use context.Prelude.{ℕ, List, Option, none, some, map}
use context.Text.{Text}
use context.Model.Memory.{
  MemoryType, RelationshipType, episodic, semantic, procedural, other, relates_to, supersedes,
  caused_by,
}
use context.Ranking.{Floats}

pub data ProtoType : Type 0 where
  type_unspecified type_episodic type_semantic type_procedural : ProtoType
  unknown_type : ℕ → ProtoType

pub data ProtoRelation : Type 0 where
  relation_unspecified relation_relates_to relation_supersedes relation_caused_by : ProtoRelation
  unknown_relation : ℕ → ProtoRelation

unfoldable pub memory_type_to_proto : MemoryType → ProtoType
memory_type_to_proto episodic = type_episodic
memory_type_to_proto semantic = type_semantic
memory_type_to_proto procedural = type_procedural
memory_type_to_proto (other s) = type_unspecified

unfoldable pub proto_to_memory_type : ProtoType → Option MemoryType
proto_to_memory_type type_episodic = some episodic
proto_to_memory_type type_semantic = some semantic
proto_to_memory_type type_procedural = some procedural
proto_to_memory_type _ = none

unfoldable pub rel_type_to_proto : RelationshipType → ProtoRelation
rel_type_to_proto relates_to = relation_relates_to
rel_type_to_proto supersedes = relation_supersedes
rel_type_to_proto caused_by = relation_caused_by
rel_type_to_proto _ = relation_unspecified

unfoldable pub proto_to_rel_type : ProtoRelation → Option RelationshipType
proto_to_rel_type relation_relates_to = some relates_to
proto_to_rel_type relation_supersedes = some supersedes
proto_to_rel_type relation_caused_by = some caused_by
proto_to_rel_type _ = none

pub record Memory (F : Floats) : Type 0 where
  pub id : ℕ
  pub content : Text
  pub type : MemoryType
  pub project_id : Text
  pub tags : List Text
  pub created_at : ℕ
  pub access_count : ℕ
  pub decay_score : F.Float

pub record ContextEdge (F : Floats) : Type 0 where
  pub relationship : RelationshipType
  pub target_id : ℕ
  pub target_content : Text
  pub weight : F.Float

pub record MemoryWithContext (F : Floats) : Type 0 where
  pub memory : Memory F
  pub context_edges : List (ContextEdge F)
  pub score : F.Float

pub record Edge (F : Floats) : Type 0 where
  pub id : ℕ
  pub from_id : ℕ
  pub to_id : ℕ
  pub relationship : RelationshipType
  pub weight : F.Float
  pub created_at : ℕ

pub record Session : Type 0 where
  pub id : ℕ
  pub project_id : Text
  pub agent_id : Text
  pub started_at : ℕ
  pub ended_at : Option ℕ

pub record ProtoMemory (F : Floats) : Type 0 where
  pub id : Text
  pub content : Text
  pub type : ProtoType
  pub project_id : Text
  pub tags : List Text
  pub created_at : ℕ
  pub access_count : ℕ
  pub decay_score : F.Float

pub record ProtoContextEdge (F : Floats) : Type 0 where
  pub relationship : ProtoRelation
  pub target_id : Text
  pub target_content : Text
  pub weight : F.Float

pub record ProtoResult (F : Floats) : Type 0 where
  pub memory : ProtoMemory F
  pub context_edges : List (ProtoContextEdge F)
  pub score : F.Float

pub record ProtoEdge (F : Floats) : Type 0 where
  pub id : Text
  pub from_id : Text
  pub to_id : Text
  pub relationship : ProtoRelation
  pub weight : F.Float
  pub created_at : ℕ

pub record ProtoSession : Type 0 where
  pub id : Text
  pub project_id : Text
  pub agent_id : Text
  pub started_at : ℕ
  pub ended_at : Option ℕ

pub record ProfileFact (F : Floats) : Type 0 where
  pub content : Text
  pub type : ProtoType
  pub confidence : F.Float
  pub tags : List Text

-- `id_text` is the method `String` of an id.
module _ (id_text : ℕ → Text) where
  module _ {F : Floats} where
    unfoldable pub memory_to_proto : Memory F → ProtoMemory F
    unfolding memory_type_to_proto
    memory_to_proto m = record {
      id = id_text m.id;
      content = m.content;
      type = memory_type_to_proto m.type;
      project_id = m.project_id;
      tags = m.tags;
      created_at = m.created_at;
      access_count = m.access_count;
      decay_score = m.decay_score;
    }

    unfoldable pub context_edge_to_proto : ContextEdge F → ProtoContextEdge F
    unfolding rel_type_to_proto
    context_edge_to_proto e = record {
      relationship = rel_type_to_proto e.relationship;
      target_id = id_text e.target_id;
      target_content = e.target_content;
      weight = e.weight;
    }

    unfoldable pub memory_with_context_to_proto : MemoryWithContext F → ProtoResult F
    unfolding memory_to_proto context_edge_to_proto
    memory_with_context_to_proto m = record {
      memory = memory_to_proto m.memory;
      context_edges = map context_edge_to_proto m.context_edges;
      score = m.score;
    }

    unfoldable pub edge_to_proto : Edge F → ProtoEdge F
    unfolding rel_type_to_proto
    edge_to_proto e = record {
      id = id_text e.id;
      from_id = id_text e.from_id;
      to_id = id_text e.to_id;
      relationship = rel_type_to_proto e.relationship;
      weight = e.weight;
      created_at = e.created_at;
    }

  unfoldable pub session_to_proto : Session → ProtoSession
  session_to_proto s = record {
    id = id_text s.id;
    project_id = s.project_id;
    agent_id = s.agent_id;
    started_at = s.started_at;
    ended_at = s.ended_at;
  }
