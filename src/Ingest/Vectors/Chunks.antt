-- ===== src/Ingest/Vectors/Chunks.antt =====
-- What the chunks are of a list of memories.
use context.Prelude.{
  ℕ, zero, suc, ◌≤◌, ◌≡◌, refl, List, [], ◌∷◌, ◌++◌, length, drop, arith, length-drop,
  take-append-drop,
}
use context.Model.Memory.{Memory}
use context.Ingest.Vectors.{chunks_from, chunks}

abbrev pub concat {ℓ} : {A : Type ℓ} → List (List A) → List A
concat [] = []
concat (xs ∷ xss) = xs ++ concat xss

chunks_from-concat :
    (n size : ℕ) (ms : List Memory) → 1 ≤ size → length ms ≤ n → concat (chunks_from n size ms) ≡ ms
unfolding chunks_from
chunks_from-concat zero size [] p h = refl
chunks_from-concat zero size (m ∷ ms) p h = ground (arith, h)
chunks_from-concat (suc n) size [] p h = refl
chunks_from-concat (suc n) size (m ∷ ms) p h =
    rw
      (chunks_from-concat n size (drop size (m ∷ ms)) p
        (omega (arith, h, p, length-drop size (m ∷ ms))))
      (take-append-drop size (m ∷ ms))

-- Each memory is in one chunk.
pub chunks-concat : (size : ℕ) (ms : List Memory) → 1 ≤ size → concat (chunks size ms) ≡ ms
unfolding chunks
chunks-concat size ms p = chunks_from-concat (length ms) size ms p (omega arith)
