-- ===== src/Ingest.antt =====
-- The write path (internal/ingest/ingest.go). The repository, the embedder, the clock and the
-- source of ids are the parameter `Engine`, over a world that their operations change.
pub mod Fold
pub mod Supersede
pub mod Link
pub mod Write
pub mod Vectors
pub mod Duplicates
use context.Prelude.{
  ℕ, List, [], ◌∷◌, Bool, true, false, ◌||◌, not, if◌then◌else◌, ltb, ◌==◌, length, take, map,
  Option, none, some, Result, ok, failed,
}
use context.Text.{Text, Unicode}
use context.Model.Content.{content_hash}
use context.Model.Memory.{Memory, MemoryType, RelationshipType, semantic, type_eq}
use context.Ranking.{Floats}
use context.Extraction.Dedup.{
  ExtractedMemory, Subsumption, distinct, equivalent, new_subsumes_old, old_subsumes_new, subsumes,
}
use context.Extraction.Contradiction.{Contradiction, detect_contradictions}

pub record Edge (F : Floats) : Type 0 where
  pub id : ℕ
  pub from_id : ℕ
  pub to_id : ℕ
  pub relationship : RelationshipType
  pub weight : F.Float
  pub created_at : ℕ

pub record QueryFilter : Type 0 where
  pub project_id : Text
  pub types : List MemoryType
  pub top_k : ℕ

-- the part of `MemoryWithContext` that the write path reads
pub record Neighbour (F : Floats) : Type 0 where
  pub memory : Memory
  pub score : F.Float

-- An embedder, and its batch path if it has one.
pub record Embedder (W E Vector : Type 0) : Type 0 where
  pub embed : W → Text → W × Result E Vector
  pub embed_batch : Option (W → List Text → W × Result E (List Vector))

-- `Repo`, the extractor, the embedder if there is one, `ExtractEntities`, the clock and `uuid.New`.
-- `rows_by_content_hash` is the query of `FindByContentHash`, with the list of its hashes as text.
pub record Engine (F : Floats) (W E Vector : Type 0) : Type 0 where
  pub create_memory : W → Memory → W × Result E (Unit {0})
  pub query_memories : W → QueryFilter → W × Result E (List Memory)
  pub rows_by_content_hash : W → Text → Text → W × Result E (List Memory)
  pub search_by_vector : W → Vector → Text → ℕ → W × Result E (List (Neighbour F))
  pub create_edges : W → List (Edge F) → W × Result E (Unit {0})
  pub update_memory_content : W → ℕ → Text → Text → W × Result E Bool
  pub increment_access_counts : W → List ℕ → W × Result E (Unit {0})
  pub store_embedding : W → ℕ → Text → Vector → W × Result E (Unit {0})
  pub link_memory_to_session : W → ℕ → ℕ → W × Result E (Unit {0})
  pub link_entities : W → Memory → List Text → W × Result E ℕ
  pub extractor : W → Text → W × Result E (List ExtractedMemory)
  pub embedder : Option (Embedder W E Vector)
  pub extract_entities : Text → List Text
  pub now : W → W × ℕ
  pub new_id : W → W × ℕ

-- maxSupersedesPerStore, contradictionCandidates
abbrev pub max_supersedes_per_store : ℕ
max_supersedes_per_store = 5

abbrev pub contradiction_candidates : ℕ
contradiction_candidates = 50

-- The `switch` of `consolidateAgainst`.
unfoldable pub settles : Memory → Subsumption → Option (Memory × Subsumption)
settles n distinct = none
settles n equivalent = some (n, equivalent)
settles n old_subsumes_new = some (n, old_subsumes_new)
settles n new_subsumes_old = some (n, new_subsumes_old)

unfoldable pub first_of : {A : Type 0} → Option A → Option A → Option A
first_of (some a) later = some a
first_of none later = later

unfoldable pub consolidate_against : Unicode → Memory → List Memory → Option (Memory × Subsumption)
unfolding settles first_of
consolidate_against u mem [] = none
consolidate_against u mem (n ∷ neighbours) =
    let later = consolidate_against u mem neighbours in
    if (n.id == mem.id) || not (type_eq n.type mem.type)
    then later
    else first_of (settles n (subsumes u mem.content n.content)) later

module _ {F : Floats} where
  -- Stable, the heaviest first.
  unfoldable pub insert_edge : Edge F → List (Edge F) → List (Edge F)
  insert_edge e [] = e ∷ []
  insert_edge e (x ∷ es) =
      let rest = insert_edge e es in if F.gt x.weight e.weight then x ∷ rest else e ∷ x ∷ es

  unfoldable pub sort_edges : List (Edge F) → List (Edge F)
  unfolding insert_edge
  sort_edges [] = []
  sort_edges (e ∷ es) = insert_edge e (sort_edges es)

  -- At most the five heaviest.
  unfoldable pub cap : List (Edge F) → List (Edge F)
  unfolding sort_edges
  cap edges =
      let sorted = sort_edges edges in
      if ltb max_supersedes_per_store (length sorted)
      then take max_supersedes_per_store sorted
      else sorted

module _ {F : Floats} {W E Vector : Type 0} (eng : Engine F W E Vector) where
  -- An upgraded memory is embedded again; errors are only logged.
  unfoldable pub keep_vector : W → Memory → Result E Vector → W
  keep_vector w existing (failed e) = w
  keep_vector w existing (ok v) = (eng.store_embedding w existing.id existing.project_id v).0

  unfoldable pub re_embed : W → Memory → Text → W
  unfolding keep_vector
  re_embed w existing content = elim eng.embedder [
    | none ↦ w
    | some e ↦ let (w', r) = e.embed w content in keep_vector w' existing r
  ]

  unfoldable pub after_update : Memory → Memory → W × Result E Bool → W × Option Memory
  unfolding re_embed
  after_update mem existing (w, failed e) = (w, none)
  after_update mem existing (w, ok false) = (w, none)
  after_update mem existing (w, ok true) =
      (re_embed w existing mem.content, some (record existing { content = mem.content }))

  -- What the restated memory is after the verdict, or `none` if it could not be upgraded.
  unfoldable pub upgrade :
      Unicode → (Text → List ℕ) → W → Memory → Memory → Subsumption → W × Option Memory
  unfolding after_update
  upgrade u digest w mem existing new_subsumes_old =
      after_update mem existing (
        eng.update_memory_content w existing.id (content_hash u digest existing.content)
          mem.content)
  upgrade u digest w mem existing _ = (w, some existing)

  unfoldable pub count_access : W × Option Memory → W × Option Memory
  count_access (w, none) = (w, none)
  count_access (w, some m) = ((eng.increment_access_counts w (m.id ∷ [])).0, some m)

  unfoldable pub fold_into :
      Unicode → (Text → List ℕ) → W → Memory → Memory → Subsumption → W × Option Memory
  unfolding upgrade count_access
  fold_into u digest w mem existing verdict = count_access (upgrade u digest w mem existing verdict)

  -- The edges of the contradictions that are confident enough.
  unfoldable pub supersedes_edges : W → List Contradiction → W × List (Edge F)
  supersedes_edges w [] = (w, [])
  supersedes_edges w (c ∷ cs) =
      let (w1, id) = eng.new_id w in
      let (w2, created_at) = eng.now w1 in
      let edge : Edge F = record {
        id = id;
        from_id = c.new_memory.id;
        to_id = c.old_memory.id;
        relationship = RelationshipType.supersedes;
        weight = F.decimal c.confidence 100;
        created_at = created_at;
      } in
      let skipped = supersedes_edges w cs in
      let (w3, es) = supersedes_edges w2 cs in
      if ltb c.confidence 50 then skipped else (w3, edge ∷ es)

  unfoldable pub write_edges : W × List (Edge F) → W × Option (List ℕ)
  unfolding cap
  write_edges (w, edges) =
      let (w', r) = eng.create_edges w (cap edges) in
      elim r [
        | failed e ↦ (w', none)
        | ok done ↦ (w', some (map (λ (e : Edge F). e.to_id) (cap edges)))
      ]

  -- The set of linked memories, or `none` for a nil map.
  unfoldable pub detect_and_supersede : Unicode → W → Memory → W × Option (List ℕ)
  unfolding supersedes_edges write_edges
  detect_and_supersede u w mem =
      let (w', r) = eng.query_memories w (record {
        project_id = mem.project_id;
        types = semantic ∷ [];
        top_k = contradiction_candidates;
      }) in
      if not (type_eq mem.type semantic) then (w, none) else (elim r [
        | failed e ↦ (w', none)
        | ok existing ↦ write_edges (supersedes_edges w' (detect_contradictions u mem existing))
      ])
