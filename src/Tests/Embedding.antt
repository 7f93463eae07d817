-- ===== src/Tests/Embedding.antt =====
-- Tests of the batches.
use context.Prelude.{ℕ, suc, ◌≡◌, refl, List, [], ◌∷◌, map, length, Result, ok, failed, ◌+◌}
use context.Text.{Text, codes}
use context.Embedding.Batch.{
  Answer, decoded, misaligned, embed_batch, embed_each, read_answer, embed_chunk, embed_from,
}
use context.Embedding.Batch.Order.{Aligned, embed_batch-Aligned, embed_batch-eq-embed_each}
use context.Embedding.Batch.Requests.{Sends, noted, embed_batch-Sends}

-- A provider that counts its requests and gives each text its length.
abbrev lengths : ℕ → List Text → ℕ × Answer ℕ
lengths w texts = (suc w, decoded (map (λ (t : Text). length t) texts))

abbrev texts : List Text
texts = codes "a" ∷ codes "bcd" ∷ codes "ef" ∷ []

program : Unit {0}
unfolding read_answer embed_chunk embed_from embed_batch embed_each
program = tt

batch_test : embed_batch lengths (λ n. n + 1) 0 texts ≡ (1, ok (2 ∷ 4 ∷ 3 ∷ []))
unfolding program
batch_test = refl

short_test :
    embed_batch {W = ℕ} {Raw = ℕ} (λ w ts. (w, decoded (7 ∷ []))) (λ n. n) 0 texts
    ≡ (0, failed (misaligned 1 3))
unfolding program
short_test = refl

embed_batch-Aligned_example : Aligned 3 (embed_batch lengths (λ n. n + 1) 0 texts).1
embed_batch-Aligned_example = embed_batch-Aligned lengths (λ n. n + 1) 0 texts

embed_batch-Sends_example :
    Sends
      (embed_batch (noted lengths) (λ n. n + 1) (0, []) texts).0.1
      texts
      (embed_batch (noted lengths) (λ n. n + 1) (0, []) texts).1
embed_batch-Sends_example = embed_batch-Sends lengths (λ n. n + 1) 0 texts

abbrev single : ℕ → Text → ℕ × Result (Unit {0}) ℕ
single w t = (suc w, ok (length t + 1))

embed_batch-eq-embed_each_example :
    ((embed_batch lengths (λ n. n + 1) 0 texts).1 ≡ ok (map (λ (t : Text). length t + 1) texts))
    × ((embed_each single 0 0 texts []).1 ≡ (embed_batch lengths (λ n. n + 1) 0 texts).1)
embed_batch-eq-embed_each_example =
    embed_batch-eq-embed_each lengths (λ n. n + 1) (λ t. length t) (λ w ts. refl) single
      (λ w t. refl) 0 texts
