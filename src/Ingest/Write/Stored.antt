-- ===== src/Ingest/Write/Stored.antt =====
-- The memories that stand for those of a conversation.
use context.Prelude.{
  ℕ, ◌≡◌, ◌⊎◌, refl, ◌∙◌, List, [], ◌∷◌, Option, none, some, Result, ok, failed, All,
  All-of_members, All2, All2-get, Member, inl, inr, ap, map, Subseq,
}
use context.Text.{Text, Unicode}
use context.Model.Content.{content_hash, content_tokens}
use context.Model.Memory.{Memory}
use context.Ranking.{Floats}
use context.Extraction.Dedup.{ExtractedMemory, Subsumption, has_polarity_marker, fold_redundant}
use context.Extraction.Dedup.Folding.{Represents, fold_redundant-Covers}
use context.Ingest.{Neighbour, Engine, consolidate_against}
use context.Ingest.Fold.{Keeps, fold_into-Keeps}
use context.Ingest.Duplicates.{ContentKey, Found, memory_at, existing_by_content}
use context.Ingest.Duplicates.Lookup.{existing_by_content-HasContentKey, HasContentKey}
use context.Ingest.Vectors.{Vectors, vector_at, embed_extracted}
use context.Ingest.Write.{
  Slot, restated, pending, restated_ids, to_write, compact, resolve_one, resolve, named_memories,
  to_memories, semantic_neighbours, finish, after_fold, fold_found, write_pending, write_slots,
  report, extract_from, after_extractor, extract,
}

module _ (u : Unicode) (digest : Text → List ℕ) where
  -- A memory stands for an extracted one: it has the type, and the fingerprint or all the words in
  -- their order and the polarity.
  pub record Stands (j : ExtractedMemory) (k : Memory) : Type 0 where
    pub type : k.type ≡ j.type
    pub said :
        (content_hash u digest k.content ≡ content_hash u digest j.content)
        ⊎ (Subseq (content_tokens u j.content) (content_tokens u k.content)
            × (has_polarity_marker (content_tokens u k.content)
                ≡ has_polarity_marker (content_tokens u j.content)))

  abbrev Made : ExtractedMemory → Memory → Type 0
  Made j m = (m.content ≡ j.content) × (m.type ≡ j.type)

  abbrev Resolved : ExtractedMemory → Slot → Type 0
  Resolved j (restated k) = Stands j k
  Resolved j (pending m entities) = Made j m

  abbrev Reported : ExtractedMemory → Option Memory → Type 0
  Reported j r = (k : Memory) × (r ≡ some k) × Stands j k

  -- The answer has one memory for each folded one, in their order, that stands for it.
  abbrev Lists : {E : Type 0} → List ExtractedMemory → Result E (List Memory × ℕ) → Type 0
  Lists js r =
      (stored : List Memory) × (rel_count : ℕ) × (r ≡ ok (stored, rel_count))
      × All2 Stands js stored

  -- And there is one for each memory of the conversation: it stands for a folded one, which says
  -- what the memory says.
  abbrev pub AnswersFor : {E : Type 0} → List ExtractedMemory → Result E (List Memory × ℕ) → Type 0
  AnswersFor extracted r =
      (stored : List Memory) × (rel_count : ℕ) × (r ≡ ok (stored, rel_count))
      × All2 Stands (fold_redundant u extracted) stored
      × All
          (λ m.
            (j : ExtractedMemory) × (k : Memory) × Member k stored × Represents u j m × Stands j k)
          extracted

  Made-Stands : (j : ExtractedMemory) (m : Memory) → Made j m → Stands j m
  Made-Stands j m h = record { type = h.1; said = inl (ap (content_hash u digest) h.0) }

  resolve_one-Resolved :
      (j : ExtractedMemory) (r : Option Memory) (m : Memory) (entities : List Text)
      → Made j m
      → ((k : Memory)
          → r ≡ some k
          → HasContentKey u digest
              (record { hash = content_hash u digest m.content; type = m.type })
              k)
      → Resolved j (resolve_one u digest r m entities)
  unfolding resolve_one
  resolve_one-Resolved j none m entities h f = h
  resolve_one-Resolved j (some k) m entities h f =
      let (hash, type) = f k refl in
      record { type = type ∙ h.1; said = inl (hash ∙ ap (content_hash u digest) h.0) }

  abbrev Finds : Found → Type 0
  Finds found =
      (key : ContentKey) (m : Memory) → memory_at key found ≡ some m → HasContentKey u digest key m

  resolve-Resolved :
      (found : Found) (js : List ExtractedMemory) (ms : List (Memory × List Text))
      → Finds found
      → All2 (λ j (p : Memory × List Text). Made j p.0) js ms
      → All2 Resolved js (resolve u digest found ms)
  unfolding resolve
  resolve-Resolved found [] [] f h = tt
  resolve-Resolved found [] (m ∷ ms) f h = elim h [ ]
  resolve-Resolved found (j ∷ js) [] f h = elim h [ ]
  resolve-Resolved found (j ∷ js) ((m, entities) ∷ ms) f h =
      (resolve_one-Resolved j _ m entities h.0 (λ k e. f _ k e), resolve-Resolved found js ms f h.1)

  compact-Stands :
      (js : List ExtractedMemory) (rs : List (Option Memory))
      → All2 Reported js rs
      → All2 Stands js (compact rs)
  unfolding compact
  compact-Stands [] [] h = tt
  compact-Stands [] (r ∷ rs) h = elim h [ ]
  compact-Stands (j ∷ js) [] h = elim h [ ]
  compact-Stands (j ∷ js) (none ∷ rs) h = let (k, e, s) = h.0 in cc
  compact-Stands (j ∷ js) (some m ∷ rs) h =
      let (k, e, s) = h.0 in let same : m ≡ k = cc in (rw same s, compact-Stands js rs h.1)

module _ {F : Floats} {W E Vector : Type 0} (eng : Engine F W E Vector) where
  named_memories-Made :
      (u : Unicode) (digest : Text → List ℕ) (w : W) (js : List ExtractedMemory) (project_id : Text)
      → All2
          (λ j (p : Memory × List Text). Made u digest j p.0)
          js
          (named_memories eng w js project_id).1
  unfolding named_memories
  named_memories-Made u digest w [] project_id = tt
  named_memories-Made u digest w (j ∷ js) project_id =
      ((refl, refl), named_memories-Made u digest (eng.new_id w).0 js project_id)

  module _ (u : Unicode) (digest : Text → List ℕ)
      (creates : (w : W) (m : Memory) → (eng.create_memory w m).1 ≡ ok tt) where
    finish-Stands :
        (j : ExtractedMemory) (m : Memory) (entities : List Text) (session : ℕ) (v : Option Vector)
        (ns : List (Neighbour F)) (r : W × Result E (Unit {0}))
        → r.1 ≡ ok tt
        → Made u digest j m
        → Reported u digest j (finish eng u m entities session v ns r).1.0
    unfolding finish
    finish-Stands j m entities session v ns (w, failed e) c h = cc
    finish-Stands j m entities session v ns (w, ok done) c h = (m, refl, Made-Stands u digest j m h)

    after_fold-Stands :
        (j : ExtractedMemory) (m : Memory) (entities : List Text) (session : ℕ) (v : Option Vector)
        (ns : List (Neighbour F)) (r : W × Option Memory)
        → Made u digest j m
        → ((k : Memory) → r.1 ≡ some k → Stands u digest j k)
        → Reported u digest j (after_fold eng u digest m entities session v ns r).1.0
    unfolding after_fold
    after_fold-Stands j m entities session v ns (w, none) h f =
        finish-Stands j m entities session v ns (eng.create_memory w m) (creates w m) h
    after_fold-Stands j m entities session v ns (w, some k) h f = (k, refl, f k refl)

    kept-Stands :
        (j : ExtractedMemory) (m existing k : Memory)
        → Made u digest j m
        → Keeps eng u digest m existing k
        → Stands u digest j k
    kept-Stands j m existing k h keeps = record {
      type = keeps.type ∙ h.1;
      said = inr (rw h.0 at keeps.words, rw h.0 at keeps.polarity);
    }

    fold_found-Stands :
        (j : ExtractedMemory) (w : W) (m : Memory) (near : List Memory) (k : Memory)
        (r : Option (Memory × Subsumption))
        → Made u digest j m
        → consolidate_against u m near ≡ r
        → (fold_found eng u digest w m r).1 ≡ some k
        → Stands u digest j k
    unfolding fold_found
    fold_found-Stands j w m near k none h c e = cc
    fold_found-Stands j w m near k (some (existing, v)) h c e =
        kept-Stands j m existing k h (fold_into-Keeps eng u digest w m near existing k v c e).2

    write_pending-Stands :
        (j : ExtractedMemory) (w : W) (session : ℕ) (v : Option Vector) (m : Memory)
        (entities : List Text)
        → Made u digest j m
        → Reported u digest j (write_pending eng u digest w session v m entities).1.0
    unfolding write_pending
    write_pending-Stands j w session v m entities h =
        let (w1, ns) = semantic_neighbours eng w m v in
        let near = map (λ (n : Neighbour F). n.memory) ns in
        after_fold-Stands j m entities session v ns
          (fold_found eng u digest w1 m (consolidate_against u m near)) h
          (λ k e. fold_found-Stands j w1 m near k (consolidate_against u m near) h refl e)

    write_slots-Stands :
        (w : W) (session : ℕ) (vectors : Vectors Vector) (js : List ExtractedMemory)
        (slots : List Slot)
        → All2 (Resolved u digest) js slots
        → All2 (Reported u digest) js (write_slots eng u digest w session vectors slots).1.0
    unfolding write_slots
    write_slots-Stands w session vectors [] [] h = tt
    write_slots-Stands w session vectors [] (s ∷ slots) h = elim h [ ]
    write_slots-Stands w session vectors (j ∷ js) [] h = elim h [ ]
    write_slots-Stands w session vectors (j ∷ js) (restated k ∷ slots) h =
        ((k, refl, h.0), write_slots-Stands w session vectors js slots h.1)
    write_slots-Stands w session vectors (j ∷ js) (pending m entities ∷ slots) h =
        let w1 = (write_pending eng u digest w session (vector_at m.id vectors) m entities).0 in
        (
          write_pending-Stands j w session (vector_at m.id vectors) m entities h.0,
          write_slots-Stands w1 session vectors js slots h.1,
        )

    extract_from-Lists :
        (w : W) (project_id : Text) (session : ℕ) (extracted : List ExtractedMemory)
        → Lists u digest
            (fold_redundant u extracted)
            (extract_from eng u digest w project_id session extracted).1
    unfolding extract_from to_memories report
    extract_from-Lists w project_id session extracted =
        let js = fold_redundant u extracted in
        let (w1, named) = to_memories eng w js project_id in
        let memories = map (λ (p : Memory × List Text). p.0) named in
        let (w2, duplicates) = existing_by_content u digest eng w1 project_id memories in
        let slots = resolve u digest duplicates named in
        let w3 = (eng.increment_access_counts w2 (restated_ids slots)).0 in
        let (w4, vectors) = embed_extracted eng w3 (to_write slots) in
        let (reported, rel_count) = (write_slots eng u digest w4 session vectors slots).1 in
        let resolved =
          resolve-Resolved u digest duplicates js named
            (existing_by_content-HasContentKey u digest eng w1 project_id memories)
            (named_memories-Made u digest (eng.now w).0 js project_id) in
        (
          compact reported,
          rel_count,
          refl,
          compact-Stands u digest js reported
              (write_slots-Stands w4 session vectors js slots resolved),
        )

    after_extractor-Lists :
        (project_id : Text) (session : ℕ) (extracted : List ExtractedMemory)
        (r : W × Result E (List ExtractedMemory))
        → r.1 ≡ ok extracted
        → Lists u digest
            (fold_redundant u extracted)
            (after_extractor eng u digest project_id session r).1
    unfolding after_extractor
    after_extractor-Lists project_id session extracted (w, failed e) h = cc
    after_extractor-Lists project_id session extracted (w, ok found) h =
        let same : found ≡ extracted = cc in
        rw same (extract_from-Lists w project_id session extracted)

    -- Every memory of a conversation is in the answer: where the extractor answers and rows can be
    -- created, `extract` answers, with one memory for each folded one, in their order, of its type and
    -- with its fingerprint, or with all its words in their order and its polarity. For each
    -- extracted memory there is such a one whose folded memory says the same.
    pub extract-AnswersFor :
        (w : W) (conversation project_id : Text) (session : ℕ) (extracted : List ExtractedMemory)
        → (eng.extractor w conversation).1 ≡ ok extracted
        → AnswersFor u digest extracted (extract eng u digest w conversation project_id session).1
    unfolding extract
    extract-AnswersFor w conversation project_id session extracted h =
        let (stored, rel_count, e, all) =
          after_extractor-Lists project_id session extracted (eng.extractor w conversation) h in
        (
          stored,
          rel_count,
          e,
          all,
          All-of_members _ extracted (λ m x.
              let (j, y, r) = fold_redundant-Covers u extracted m x in
              let (k, z, s) =
                All2-get (Stands u digest) j (fold_redundant u extracted) stored all y in
              (j, k, z, r, s)),
        )
