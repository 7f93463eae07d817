-- ===== src/Embedding/Batch.antt =====
-- Embedding several texts at once (internal/embedding/batch.go). The provider is the parameter
-- `post`: what a request with these texts does to the world, and what comes back. `narrow` is the
-- conversion of a vector from float64 to float32.
pub mod Order
pub mod Requests
use context.Prelude.{
  ℕ, zero, suc, List, [], ◌∷◌, ◌++◌, map, length, take, drop, ◌==◌, if◌then◌else◌, Result, ok,
  failed,
}
use context.Text.{Text}

-- What becomes of a request: it is not made, has no response, has a status other than 200, a body
-- that is not understood, or one with these vectors.
pub data Answer (Raw : Type 0) : Type 0 where
  unsent unanswered undecoded : Answer Raw
  status : ℕ → Answer Raw
  decoded : List Raw → Answer Raw

-- `misaligned` has the number of vectors and that of texts; `text_failed` the index of the text.
pub data EmbedError : Type 0 where
  request_failed out_of_fuel : EmbedError
  bad_status text_failed : ℕ → EmbedError
  misaligned : ℕ → ℕ → EmbedError

-- maxBatchSize
abbrev pub max_batch_size : ℕ
max_batch_size = 100

-- `embedChunk` from the response on.
unfoldable pub read_answer :
    {Raw Vector : Type 0}
    → (Raw → Vector)
    → List Text
    → Answer Raw
    → Result EmbedError (List Vector)
read_answer narrow texts unsent = failed request_failed
read_answer narrow texts unanswered = failed request_failed
read_answer narrow texts undecoded = failed request_failed
read_answer narrow texts (status code) = failed (bad_status code)
read_answer narrow texts (decoded raw) =
    if length raw == length texts
    then ok (map narrow raw)
    else failed (misaligned (length raw) (length texts))

module _ {W Raw Vector : Type 0} (post : W → List Text → W × Answer Raw)
    (narrow : Raw → Vector) where
  unfoldable pub embed_chunk : W → List Text → W × Result EmbedError (List Vector)
  unfolding read_answer
  embed_chunk w texts = let (w', a) = post w texts in (w', read_answer narrow texts a)

  -- The loop over `start`: `rest` is `texts[start:]`.
  unfoldable pub embed_from : ℕ → W → List Text → List Vector → W × Result EmbedError (List Vector)
  unfolding embed_chunk
  embed_from zero w [] out = (w, ok out)
  embed_from zero w (t ∷ rest) out = (w, failed out_of_fuel)
  embed_from (suc n) w [] out = (w, ok out)
  embed_from (suc n) w (t ∷ rest) out =
      let chunk = embed_chunk w (take max_batch_size (t ∷ rest)) in
      elim chunk.1 [
        | failed e ↦ (chunk.0, failed e)
        | ok vectors ↦ embed_from n chunk.0 (drop max_batch_size (t ∷ rest)) (out ++ vectors)
      ]

  -- The method `EmbedBatch` of a batching provider. A round of the loop takes a text at least.
  unfoldable pub embed_batch : W → List Text → W × Result EmbedError (List Vector)
  unfolding embed_from
  embed_batch w texts = embed_from (length texts) w texts []

-- The loop of the function `EmbedBatch` for a provider that takes one text at a time; `i` is the
-- index of the next text, and `embed` answers with a vector or fails.
module _ {W Vector : Type 0} (embed : W → Text → W × Result Unit Vector) where
  unfoldable pub embed_each : W → ℕ → List Text → List Vector → W × Result EmbedError (List Vector)
  embed_each w i [] out = (w, ok out)
  embed_each w i (t ∷ texts) out =
      let one = embed w t in
      elim one.1 [
        | failed e ↦ (one.0, failed (text_failed i))
        | ok v ↦ embed_each one.0 (suc i) texts (out ++ (v ∷ []))
      ]
