-- ===== src/Ingest/Write.antt =====
-- Storing a memory, and the memories of a conversation: `Store` and `Extract`
-- (internal/ingest/ingest.go), with `ToMemories` (internal/extraction/extractor.go).
pub mod Stored
use context.Prelude.{
  zero, suc, ℕ, ◌+◌, List, [], ◌∷◌, Bool, true, false, if◌then◌else◌, map, Option, none, some,
  Result, ok, failed,
}
use context.Text.{Text, Unicode}
use context.Model.Content.{content_hash}
use context.Model.Memory.{Memory}
use context.Ranking.{Floats}
use context.Extraction.Dedup.{ExtractedMemory, Subsumption, fold_redundant, is_nil}
use context.Ingest.{Neighbour, Engine, consolidate_against, fold_into, detect_and_supersede}
use context.Ingest.Link.{auto_link_candidates, auto_link_by_tags}
use context.Ingest.Duplicates.{ContentKey, Found, memory_at, existing_by_content}
use context.Ingest.Vectors.{Vectors, vector_at, embed_extracted}

-- What becomes of an extracted memory before anything is written: it is stored already, or it is
-- to be written, with its entities.
pub data Slot : Type 0 where
  restated : Memory → Slot
  pending : Memory → List Text → Slot

-- An entry of the map of superseded memories that is missing, or a nil map, has false.
unfoldable pub linked_to : Option (List ℕ) → List ℕ
linked_to none = []
linked_to (some ids) = ids

unfoldable pub to_write : List Slot → List Memory
to_write [] = []
to_write (restated m ∷ slots) = to_write slots
to_write (pending m entities ∷ slots) = m ∷ to_write slots

unfoldable pub restated_ids : List Slot → List ℕ
restated_ids [] = []
restated_ids (restated m ∷ slots) = m.id ∷ restated_ids slots
restated_ids (pending m entities ∷ slots) = restated_ids slots

-- The slots that are filled, in their order.
unfoldable pub compact : List (Option Memory) → List Memory
compact [] = []
compact (none ∷ slots) = compact slots
compact (some m ∷ slots) = m ∷ compact slots

module _ (u : Unicode) (digest : Text → List ℕ) where
  unfoldable pub resolve_one : Option Memory → Memory → List Text → Slot
  resolve_one none mem entities = pending mem entities
  resolve_one (some existing) mem entities = restated existing

  -- A memory with its entities, which `Extract` keeps in a list of their own.
  unfoldable pub resolve : Found → List (Memory × List Text) → List Slot
  unfolding resolve_one memory_at
  resolve duplicates [] = []
  resolve duplicates ((mem, entities) ∷ ms) =
      let key : ContentKey = record { hash = content_hash u digest mem.content; type = mem.type } in
      resolve_one (memory_at key duplicates) mem entities ∷ resolve duplicates ms

module _ {F : Floats} {W E Vector : Type 0} (eng : Engine F W E Vector) where
  unfoldable pub named_memories : W → List ExtractedMemory → Text → W × List (Memory × List Text)
  named_memories w [] project_id = (w, [])
  named_memories w (e ∷ es) project_id =
      let (w1, id) = eng.new_id w in
      let (w2, ms) = named_memories w1 es project_id in
      let mem : Memory = record {
        id = id;
        project_id = project_id;
        content = e.content;
        type = e.type;
        tags = e.tags;
      } in
      (w2, (mem, e.entities) ∷ ms)

  unfoldable pub to_memories : W → List ExtractedMemory → Text → W × List (Memory × List Text)
  unfolding named_memories
  to_memories w extracted project_id = named_memories (eng.now w).0 extracted project_id

  unfoldable pub neighbours_or_nil : W × Result E (List (Neighbour F)) → W × List (Neighbour F)
  neighbours_or_nil (w, failed e) = (w, [])
  neighbours_or_nil (w, ok ns) = (w, ns)

  unfoldable pub semantic_neighbours : W → Memory → Option Vector → W × List (Neighbour F)
  unfolding neighbours_or_nil
  semantic_neighbours w mem none = (w, [])
  semantic_neighbours w mem (some v) =
      neighbours_or_nil (eng.search_by_vector w v mem.project_id auto_link_candidates)

  -- The world after a vector is stored; an error is only logged.
  unfoldable pub store_vector : W → Memory → Option Vector → W
  store_vector w mem none = w
  store_vector w mem (some v) = (eng.store_embedding w mem.id mem.project_id v).0

  unfoldable pub embedded : W → Memory → Result E Vector → W × Option Vector
  embedded w mem (failed e) = (w, none)
  embedded w mem (ok v) = ((eng.store_embedding w mem.id mem.project_id v).0, some v)

  unfoldable pub embed_stored : W → Memory → W × Option Vector
  unfolding embedded
  embed_stored w mem = elim eng.embedder [
    | none ↦ (w, none)
    | some e ↦ let (w', r) = e.embed w mem.content in embedded w' mem r
  ]

  -- The nil UUID, which is 0 here, is no session.
  unfoldable pub link_session : W → ℕ → Memory → W × Result E (Unit {0})
  link_session w zero mem = (w, ok tt)
  link_session w (suc n) mem = eng.link_memory_to_session w (suc n) mem.id

  unfoldable pub count_linked : W × Result E ℕ → W × ℕ
  count_linked (w, failed e) = (w, 0)
  count_linked (w, ok linked) = (w, linked)

  unfoldable pub link_named : W → Memory → List Text → W
  link_named w mem [] = w
  link_named w mem (name ∷ names) = (eng.link_entities w mem (name ∷ names)).0

  module _ (u : Unicode) where
    -- Contradictions, then links, with the number of these.
    unfoldable pub connect : W → Memory → List (Neighbour F) → W × ℕ
    unfolding detect_and_supersede linked_to auto_link_by_tags
    connect w mem neighbours =
        let (w1, superseded) = detect_and_supersede eng u w mem in
        auto_link_by_tags eng u w1 mem (linked_to superseded) neighbours

    unfoldable pub connect_stored : W → Memory → Option Vector → W
    unfolding detect_and_supersede linked_to semantic_neighbours auto_link_by_tags
    connect_stored w mem v =
        let (w1, superseded) = detect_and_supersede eng u w mem in
        let (w2, neighbours) = semantic_neighbours w1 mem v in
        let w3 = (auto_link_by_tags eng u w2 mem (linked_to superseded) neighbours).0 in
        link_named w3 mem (eng.extract_entities mem.content)

    unfoldable pub after_session :
        Memory → Option Vector → W × Result E (Unit {0}) → W × Result E (Unit {0})
    unfolding connect_stored
    after_session mem v (w, failed e) = (w, failed e)
    after_session mem v (w, ok done) = (connect_stored w mem v, ok tt)

    unfoldable pub after_create : Memory → ℕ → W × Result E (Unit {0}) → W × Result E (Unit {0})
    unfolding embed_stored link_session after_session
    after_create mem session (w, failed e) = (w, failed e)
    after_create mem session (w, ok done) =
        let (w1, v) = embed_stored w mem in after_session mem v (link_session w1 session mem)

    unfoldable pub store : W → Memory → ℕ → W × Result E (Unit {0})
    unfolding after_create
    store w mem session = after_create mem session (eng.create_memory w mem)

    -- What follows the row of an extracted memory; only the links and entities are counted.
    unfoldable pub finish :
        Memory
        → List Text
        → ℕ
        → Option Vector
        → List (Neighbour F)
        → W × Result E (Unit {0})
        → W × (Option Memory × ℕ)
    unfolding store_vector link_session connect count_linked
    finish mem entities session v neighbours (w, failed e) = (w, (none, 0))
    finish mem entities session v neighbours (w, ok done) =
        let w1 : W = elim eng.embedder [ none ↦ w | some e ↦ store_vector w mem v ] in
        let w2 = (link_session w1 session mem).0 in
        let (w3, links) = connect w2 mem neighbours in
        let (w4, linked) = count_linked (eng.link_entities w3 mem entities) in
        (w4, (some mem, links + linked))

    module _ (digest : Text → List ℕ) where
      -- A fold that does not hold falls through to the row of the memory.
      unfoldable pub after_fold :
          Memory
          → List Text
          → ℕ
          → Option Vector
          → List (Neighbour F)
          → W × Option Memory
          → W × (Option Memory × ℕ)
      unfolding finish
      after_fold mem entities session v neighbours (w, some kept) = (w, (some kept, 0))
      after_fold mem entities session v neighbours (w, none) =
          finish mem entities session v neighbours (eng.create_memory w mem)

      unfoldable pub fold_found : W → Memory → Option (Memory × Subsumption) → W × Option Memory
      unfolding fold_into
      fold_found w mem none = (w, none)
      fold_found w mem (some (existing, verdict)) = fold_into eng u digest w mem existing verdict

      unfoldable pub write_pending :
          W → ℕ → Option Vector → Memory → List Text → W × (Option Memory × ℕ)
      unfolding semantic_neighbours consolidate_against fold_found after_fold
      write_pending w session v mem entities =
          let (w1, neighbours) = semantic_neighbours w mem v in
          let near = map (λ (n : Neighbour F). n.memory) neighbours in
          after_fold mem entities session v neighbours
            (fold_found w1 mem (consolidate_against u mem near))

      unfoldable pub write_slots :
          W → ℕ → Vectors Vector → List Slot → W × (List (Option Memory) × ℕ)
      unfolding write_pending vector_at
      write_slots w session vectors [] = (w, ([], 0))
      write_slots w session vectors (restated m ∷ slots) =
          let (w1, (reported, rel_count)) = write_slots w session vectors slots in
          (w1, (some m ∷ reported, rel_count))
      write_slots w session vectors (pending mem entities ∷ slots) =
          let (w1, (one, links)) =
            write_pending w session (vector_at mem.id vectors) mem entities in
          let (w2, (reported, rel_count)) = write_slots w1 session vectors slots in
          (w2, (one ∷ reported, links + rel_count))

      unfoldable pub report : W × (List (Option Memory) × ℕ) → W × Result E (List Memory × ℕ)
      unfolding compact
      report (w, (reported, rel_count)) = (w, ok (compact reported, rel_count))

      -- From the memories of the conversation on.
      unfoldable pub extract_from :
          W → Text → ℕ → List ExtractedMemory → W × Result E (List Memory × ℕ)
      unfolding fold_redundant to_memories existing_by_content resolve restated_ids to_write
          embed_extracted write_slots report
      extract_from w project_id session extracted =
          let (w1, named) = to_memories w (fold_redundant u extracted) project_id in
          let memories = map (λ (p : Memory × List Text). p.0) named in
          let (w2, duplicates) = existing_by_content u digest eng w1 project_id memories in
          let slots = resolve u digest duplicates named in
          let w3 = (eng.increment_access_counts w2 (restated_ids slots)).0 in
          let (w4, vectors) = embed_extracted eng w3 (to_write slots) in
          report (write_slots w4 session vectors slots)

      unfoldable pub after_extractor :
          Text → ℕ → W × Result E (List ExtractedMemory) → W × Result E (List Memory × ℕ)
      unfolding extract_from
      after_extractor project_id session (w, failed e) = (w, failed e)
      after_extractor project_id session (w, ok extracted) =
          extract_from w project_id session extracted

      unfoldable pub extract : W → Text → Text → ℕ → W × Result E (List Memory × ℕ)
      unfolding after_extractor
      extract w conversation project_id session =
          after_extractor project_id session (eng.extractor w conversation)
