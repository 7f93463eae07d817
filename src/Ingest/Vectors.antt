-- ===== src/Ingest/Vectors.antt =====
-- The vectors of the extracted memories: `embedExtracted` (internal/ingest/ingest.go), with the
-- function `EmbedBatch` (internal/embedding/batch.go). The chunks, which the source embeds
-- concurrently, are embedded one after the other.
pub mod Chunks
use context.Prelude.{
  ℕ, zero, suc, List, [], ◌∷◌, ◌++◌, Bool, true, false, if◌then◌else◌, ◌==◌, length, take, drop,
  map, Option, none, some, Result, ok, failed,
}
use context.Text.{Text}
use context.Model.Memory.{Memory}
use context.Ranking.{Floats}
use context.Ingest.{Embedder, Engine}

-- embedBatchSize
abbrev pub embed_batch_size : ℕ
embed_batch_size = 32

-- A map from the ids of memories, by its assignments, the latest first.
abbrev pub Vectors : Type 0 → Type 0
Vectors Vector = List (ℕ × Vector)

unfoldable pub vector_at : {Vector : Type 0} → ℕ → Vectors Vector → Option Vector
vector_at id [] = none
vector_at id ((j, v) ∷ vectors) = if id == j then some v else vector_at id vectors

unfoldable pub assign :
    {Vector : Type 0} → List Memory → List Vector → Vectors Vector → Vectors Vector
assign (m ∷ ms) (v ∷ vs) vectors = assign ms vs ((m.id, v) ∷ vectors)
assign _ _ vectors = vectors

-- The slices `memories[start:end]`; a chunk has a memory at least.
unfoldable pub chunks_from : ℕ → ℕ → List Memory → List (List Memory)
chunks_from zero size memories = []
chunks_from (suc n) size [] = []
chunks_from (suc n) size (m ∷ ms) = take size (m ∷ ms) ∷ chunks_from n size (drop size (m ∷ ms))

unfoldable pub chunks : ℕ → List Memory → List (List Memory)
unfolding chunks_from
chunks size memories = chunks_from (length memories) size memories

unfoldable pub texts_of : List Memory → List Text
texts_of [] = []
texts_of (m ∷ ms) = m.content ∷ texts_of ms

module _ {W E Vector : Type 0} (e : Embedder W E Vector) where
  -- The loop of `EmbedBatch`: the first error ends it.
  unfoldable pub embed_each : W → List Text → List Vector → W × Result E (List Vector)
  embed_each w [] out = (w, ok out)
  embed_each w (t ∷ texts) out =
      let one = e.embed w t in
      elim one.1 [ failed x ↦ (one.0, failed x) | ok v ↦ embed_each one.0 texts (out ++ (v ∷ [])) ]

  unfoldable pub embed_texts : W → List Text → W × Result E (List Vector)
  unfolding embed_each
  embed_texts w [] = (w, ok [])
  embed_texts w (t ∷ texts) = elim e.embed_batch [
    | none ↦ embed_each w (t ∷ texts) []
    | some batch ↦ batch w (t ∷ texts)
  ]

  -- A provider without a batch path takes one memory at a time.
  unfoldable pub chunk_size : ℕ
  chunk_size = elim e.embed_batch [ none ↦ 1 | some batch ↦ embed_batch_size ]

  -- A chunk that fails, or has another number of vectors, is left out.
  unfoldable pub add_vectors :
      List Memory → Vectors Vector → W × Result E (List Vector) → W × Vectors Vector
  unfolding assign
  add_vectors chunk vectors (w, failed x) = (w, vectors)
  add_vectors chunk vectors (w, ok vs) =
      (w, (if length vs == length chunk then assign chunk vs vectors else vectors))

  unfoldable pub embed_chunks : W → Vectors Vector → List (List Memory) → W × Vectors Vector
  unfolding embed_texts texts_of add_vectors
  embed_chunks w vectors [] = (w, vectors)
  embed_chunks w vectors (chunk ∷ cs) =
      let one = add_vectors chunk vectors (embed_texts w (texts_of chunk)) in
      embed_chunks one.0 one.1 cs

unfoldable pub embed_extracted :
    {F : Floats} {W E Vector : Type 0} → Engine F W E Vector → W → List Memory → W × Vectors Vector
unfolding chunks chunk_size embed_chunks
embed_extracted eng w memories = elim eng.embedder [
  | none ↦ (w, [])
  | some e ↦ embed_chunks e w [] (chunks (chunk_size e) memories)
]
